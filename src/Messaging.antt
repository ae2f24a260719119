-- ===== src/Messaging.antt =====
-- The broker interface of internal/messaging/client.go: `BrokerClient`, as a record of operations
-- over a state `W` that they may change. An operation returns an error, or the value that it was
-- asked for. Its two implementations in the repository are the child modules.
pub mod Mock
pub mod Rabbitmq
use kubernetes_controller.Base.{ℕ, String, Option, ◌≡◌, refl, ◌⊎◌, inl, inr}
use kubernetes_controller.Base.Dict.{Dict}

-- The result of a call that returns `(A, error)`.
pub data Result {ℓ} (A : Type ℓ) : Type ℓ where
  ok : A → Result A
  err : String → Result A

pub Result-cases {ℓ} :
    {A : Type ℓ} (r : Result A) → ((a : A) × (r ≡ ok a)) ⊎ ((e : String) × (r ≡ err e))
Result-cases (ok a) = inl (a, refl)
Result-cases (err e) = inr (e, refl)

pub data ControlMessageType : Type 0 where
  start_replay end_replay : ControlMessageType

-- A control message's payload, `map[string]interface{}`; the code passes texts only.
abbrev pub Payload : Type 0
Payload = Dict String

pub record BrokerClient (W : Type 0) : Type 0 where
  pub connect : String → W → Option String × W
  pub close : W → Option String × W
  pub create_secondary_queue : String → String → String → W → Result String × W
  pub unbind_queue : String → String → W → Option String × W
  pub delete_secondary_queue : String → String → String → W → Option String × W
  pub get_queue_depth : String → W → Result ℕ × W
  pub send_control_message : String → ControlMessageType → Payload → W → Option String × W
  pub bind_queue : String → String → String → W → Option String × W
  pub purge_queue : String → W → Option String × W
  pub get_queue_stats : String → W → Result (ℕ × ℕ) × W
  pub declare_and_bind_queue : String → String → W → Option String × W
  pub delete_queue : String → W → Option String × W
