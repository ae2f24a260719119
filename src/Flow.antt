-- ===== src/Flow.antt =====
-- Code that changes a state and may return early: an action goes on with a value, or returns.
pub data Flow (R A : Type 0) : Type 0 where
  next : A → Flow R A
  return : R → Flow R A

-- An action on the states `S`, in a function that returns an `R`.
abbrev pub Run : Type 0 → Type 0 → Type 0 → Type 0
Run S R A = S → Flow R A × S

module _ {S R A : Type 0} where
  unfoldable pub pure : A → Run S R A
  pure a s = (next a, s)

  -- `return r` in the function
  unfoldable pub return_with : R → Run S R A
  return_with r s = (return r, s)

  unfoldable pub gets : (S → A) → Run S R A
  gets f s = (next (f s), s)

module _ {S R A B : Type 0} where
  abbrev pub continue : Flow R A → (A → Run S R B) → Run S R B
  continue (next a) f s = f a s
  continue (return r) f s = (return r, s)

  infixl 5 ◌>>=◌ ◌>>◌
  -- opening this opens `pure`, `return_with` and `gets` too
  unfoldable pub ◌>>=◌ : Run S R A → (A → Run S R B) → Run S R B
  unfolding pure return_with gets
  ◌>>=◌ a f s = let (r, s') = a s in continue r f s'

  abbrev pub ◌>>◌ : Run S R A → Run S R B → Run S R B
  a >> b = a >>= λ _. b

abbrev pub collapse : {R : Type 0} → Flow R R → R
collapse (next r) = r
collapse (return r) = r

-- A function's body, whose last value is what it returns.
abbrev pub run : {S R : Type 0} → Run S R R → S → R × S
run a s = let (f, s') = a s in (collapse f, s')

module _ {S R : Type 0} where
  -- The call of another function, whose result is a value here.
  unfoldable pub invoke : {Q : Type 0} → Run S Q Q → Run S R Q
  invoke a s = let (r, s') = run a s in (next r, s')

  unfoldable pub skip : Run S R (Unit {0})
  skip s = (next tt, s)
