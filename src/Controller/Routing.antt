-- ===== src/Controller/Routing.antt =====
-- Which queues an exchange feeds after a history of calls, in two readings. By `is_bound` a queue is
-- fed for sure: a bind counts only if it succeeded, an unbind or a deletion also if it reported an
-- error. By `may_be_bound` it may still be fed: an unbind or a deletion counts only if it succeeded.
pub mod Names
pub mod Fence
pub mod Rollback
pub mod Cutover
use kubernetes_controller.Base.{
  String, ◌≡◌, Bool, true, false, List, [], ◌∷◌, ◌&&◌, ◌||◌, ◌==◌, if◌then◌else◌,
}
use kubernetes_controller.Api.{replay_queue, fence_buffer}
use kubernetes_controller.Controller.Monad.{Call}

module _ (q ex : String) where
  -- The binding of `q` to `ex` after a call, from what it was before.
  unfoldable pub effect_on : Call → Bool → Bool
  effect_on (Call.bind_queue j x ok) old = if j == q && x == ex && ok then true else old
  effect_on (Call.declare_and_bind_queue j x ok) old = if j == q && x == ex && ok then true else old
  effect_on (Call.create_secondary_queue j x ok) old =
      if (j == q || replay_queue j == q) && x == ex && ok then true else old
  effect_on (Call.unbind_queue j x ok) old = if j == q && x == ex then false else old
  effect_on (Call.delete_secondary_queue j x ok) old = if j == q then false else old
  effect_on (Call.delete_queue j ok) old = if j == q then false else old
  effect_on _ old = old

  -- The binding after the calls, newest first, from what it was before all of them.
  unfoldable pub is_bound : Bool → List Call → Bool
  is_bound start [] = start
  is_bound start (c ∷ cs) = effect_on c (is_bound start cs)

module _ (q ex : String) where
  -- The same for what may be bound. A bind that is refused binds nothing, as AMQP 0-9-1 documents it;
  -- but `CreateSecondaryQueue` may fail behind its first bind.
  unfoldable pub possible_effect_on : Call → Bool → Bool
  possible_effect_on (Call.bind_queue j x ok) old = if j == q && x == ex && ok then true else old
  possible_effect_on (Call.declare_and_bind_queue j x ok) old =
      if j == q && x == ex && ok then true else old
  possible_effect_on (Call.create_secondary_queue j x ok) old =
      if (j == q || replay_queue j == q) && x == ex then true else old
  possible_effect_on (Call.unbind_queue j x ok) old = if j == q && x == ex && ok then false else old
  possible_effect_on (Call.delete_secondary_queue j x ok) old = if j == q && ok then false else old
  possible_effect_on (Call.delete_queue j ok) old = if j == q && ok then false else old
  possible_effect_on _ old = old

  unfoldable pub may_be_bound : Bool → List Call → Bool
  may_be_bound start [] = start
  may_be_bound start (c ∷ cs) = possible_effect_on c (may_be_bound start cs)

-- A message that is published now reaches the primary queue or the fence's buffer.
abbrev pub IsRouted : String → String → Bool → List Call → Type 0
IsRouted primary ex start calls =
    (is_bound primary ex start calls || is_bound (fence_buffer primary) ex false calls) ≡ true
