-- ===== src/Controller/PhaseOrder/Forward.antt =====
-- A whole call of the reconciler never takes a migration back to an earlier phase.
use kubernetes_controller.Base.{
  zero, suc, ℕ, ◌≤◌, ◌≡◌, refl, sym, ap, ◌∙◌, inl, inr, List, [], ◌∷◌, All, arith,
}
use kubernetes_controller.Api.{Phase}
use kubernetes_controller.Cluster.{Env, Lookup-cases}
use kubernetes_controller.Controller.Monad.{Call, St}
use kubernetes_controller.Controller.PhaseOrder.{next_phase, Follows, WritesFollow, SoleWriter}
use kubernetes_controller.Controller.PhaseOrder.Loop.{handle-InOrder}
use kubernetes_controller.Controller.Reconcile.{handle, phase_loop}

-- The place of a phase in a migration's life; a text that is no phase counts as the beginning.
unfoldable pub rank : Phase → ℕ
rank Phase.unset = 0
rank Phase.pending = 1
rank Phase.checkpointing = 2
rank Phase.transferring = 3
rank Phase.restoring = 4
rank Phase.replaying = 5
rank Phase.finalizing = 6
rank Phase.completed = 7
rank Phase.failed = 8
rank (Phase.other s) = 0

abbrev pub NotBefore : Phase → Phase → Type 0
NotBefore p q = rank p ≤ rank q

-- Every status that the call writes holds no phase before `p`.
abbrev WritesNotBefore : Phase → Call → Type 0
WritesNotBefore p (Call.patch_status base m done) = NotBefore p m.status.phase
WritesNotBefore p _ = Unit

rank-next_phase : (p : Phase) → (rank p ≤ rank (next_phase p)) × (rank p ≤ 8)
unfolding rank
rank-next_phase Phase.unset = omega arith
rank-next_phase Phase.pending = omega arith
rank-next_phase Phase.checkpointing = omega arith
rank-next_phase Phase.transferring = omega arith
rank-next_phase Phase.restoring = omega arith
rank-next_phase Phase.replaying = omega arith
rank-next_phase Phase.finalizing = omega arith
rank-next_phase Phase.completed = omega arith
rank-next_phase Phase.failed = omega arith
rank-next_phase (Phase.other s) = omega arith

pub rank_bound : (p : Phase) → rank p ≤ 8
rank_bound p = (rank-next_phase p).1

Follows-NotBefore : (p q : Phase) → Follows p q → NotBefore p q
unfolding rank
Follows-NotBefore p q (inl e) = rw e (omega arith)
Follows-NotBefore p q (inr (inl e)) = rw e (rank-next_phase p).0
Follows-NotBefore p q (inr (inr e)) = rw e (rank-next_phase p).1

-- What no phase before `p` was written in is allowed further on, and the other way round.
allow :
    (p q : Phase) (cs : List Call)
    → All (WritesNotBefore p) cs
    → All (WritesFollow (λ v. NotBefore p v.phase) q) cs
allow p q [] h = tt
allow p q (Call.patch_status base m done ∷ cs) h = (inr h.0, allow p q cs h.1)
allow p q (c ∷ cs) h = (tt, allow p q cs h.1)

follow_on :
    (p q : Phase) (cs : List Call)
    → NotBefore p q
    → All (WritesFollow (λ v. NotBefore p v.phase) q) cs
    → All (WritesNotBefore p) cs
follow_on p q [] n h = tt
follow_on p q (Call.patch_status base m done ∷ cs) n h = (
  elim h.0 [ inl f ↦ omega (arith, Follows-NotBefore q m.status.phase f) | inr x ↦ x ],
  follow_on p q cs n h.1,
)
follow_on p q (c ∷ cs) n h = (tt, follow_on p q cs n h.1)

module _ (E : Env) (L : SoleWriter E) where
  -- The stored phase and every status that was written are at `p` or behind it.
  pub record Forward (p : Phase) (s : St E.World) : Type 0 where
    pub stores : NotBefore p (L.stored s.world).phase
    pub writes : All (WritesNotBefore p) s.calls

  handle-Forward :
      (p : Phase) (fuel : ℕ) (s : St E.World)
      → s.m.status.phase ≡ (L.stored s.world).phase
      → Forward p s
      → Forward p (handle E fuel s.m.status.phase s).1
  handle-Forward p fuel s e h =
      let q = s.m.status.phase in
      let k =
        handle-InOrder E L {Q = λ v. NotBefore p v.phase} fuel q s (record {
          holds = inl refl;
          stores = inl (sym e);
          writes = allow p q s.calls h.writes;
        }) in
      let n : NotBefore p q = rw e h.stores in
      record {
        stores = omega (arith, n, Follows-NotBefore q _ k.stores);
        writes = follow_on p q _ n k.writes;
      }

  -- From a state that is read freshly, with the phase that is stored: however many rounds the loop
  -- makes, each status that it writes, and what is stored at the end, holds no phase before the
  -- stored one. A round that runs out of fuel is no exception.
  pub phase_loop-Forward :
      (p : Phase) (fuel swap_fuel : ℕ) (s : St E.World)
      → s.m.status.phase ≡ (L.stored s.world).phase
      → Forward p s
      → Forward p (phase_loop E fuel swap_fuel s).1
  unfolding phase_loop
  phase_loop-Forward p zero swap_fuel s e h = h
  phase_loop-Forward p (suc fuel) swap_fuel s e h =
      let (r, s1) = handle E swap_fuel s.m.status.phase s in
      let k : Forward p s1 = handle-Forward p swap_fuel s e h in
      let read = L.get_migration_leaves s1.m.namespace s1.m.name s1.world in
      elim (Lookup-cases (E.get_migration s1.m.namespace s1.m.name s1.world).0) [
        | inl (m, q) ↦
            let w = (E.get_migration s1.m.namespace s1.m.name s1.world).1 in
            let again =
              phase_loop-Forward p fuel swap_fuel (record s1 { m = m; world = w })
                ((L.get_reads s1.m.namespace s1.m.name s1.world q).0 ∙ ap (λ x. x.phase) (sym read))
                (record { stores = rw read k.stores; writes = k.writes }) in
            ground (arith, again.stores, again.writes, k.stores, k.writes, q)
        | inr no_object ↦ ground (arith, k.stores, k.writes, read)
      ]
