-- ===== src/Base/Text.antt =====
-- Comparisons of names that are built from one name.
use text.Mathlib.TextLemmas.{append_cancel_left, append-nil}
use text.Mathlib.TextPositions.{eq_refl}
use kubernetes_controller.Base.{
  String, ◌<>◌, ◌≡◌, sym, ◌∙◌, ◌≢◌, true, false, ◌==◌, eq_iff, Bool-cases, inl, inr,
}

pub append_ne_self : (s t : String) → t ≢ "" → (s <> t) ≢ s
append_ne_self s t h e = h (append_cancel_left s t "" (e ∙ sym (append-nil s)))

pub append_ne_append : (s t u : String) → t ≢ u → (s <> t) ≢ (s <> u)
append_ne_append s t u h e = h (append_cancel_left s t u e)

pub ne→==_false : (s t : String) → s ≢ t → (s == t) ≡ false
ne→==_false s t h = elim (Bool-cases (s == t)) [ inl e ↦ absurd (h ((eq_iff s t).0 e)) | inr e ↦ e ]

pub ==_self : (s : String) → (s == s) ≡ true
==_self = eq_refl
