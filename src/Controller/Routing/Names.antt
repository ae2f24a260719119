-- ===== src/Controller/Routing/Names.antt =====
-- The three queues of a migration have different names.
use kubernetes_controller.Base.{String, ◌≡◌, true, false, ◌==◌}
use kubernetes_controller.Base.Text.{append_ne_self, append_ne_append, ne→==_false, ==_self}
use kubernetes_controller.Api.{replay_queue, fence_buffer}

-- All that the proofs read of the names, for a primary queue and an exchange.
pub record Names (p ex : String) : Type 0 where
  pub same : (p == p) ≡ true
  pub same_exchange : (ex == ex) ≡ true
  pub same_buffer : (fence_buffer p == fence_buffer p) ≡ true
  pub same_replay : (replay_queue p == replay_queue p) ≡ true
  pub buffer_primary : (fence_buffer p == p) ≡ false
  pub primary_buffer : (p == fence_buffer p) ≡ false
  pub replay_primary : (replay_queue p == p) ≡ false
  pub replay_buffer : (replay_queue p == fence_buffer p) ≡ false

pub names : (p ex : String) → Names p ex
names p ex = record {
  same = ==_self p;
  same_exchange = ==_self ex;
  same_buffer = ==_self (fence_buffer p);
  same_replay = ==_self (replay_queue p);
  buffer_primary = ne→==_false _ _ (append_ne_self p ".ms2m-fence-buffer" (λ e. cc));
  primary_buffer = ne→==_false _ _ (λ e. append_ne_self p ".ms2m-fence-buffer" (λ x. cc) (cc));
  replay_primary = ne→==_false _ _ (append_ne_self p ".ms2m-replay" (λ e. cc));
  replay_buffer =
      ne→==_false _ _ (append_ne_append p ".ms2m-replay" ".ms2m-fence-buffer" (λ e. cc));
}
