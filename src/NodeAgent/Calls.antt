-- ===== src/NodeAgent/Calls.antt =====
-- The calls that the agent makes on its node, as actions that record themselves.
use kubernetes_controller.Base.{ℕ, String, ◌<>◌, Bool, true, false, Option, none, some, List, ◌∷◌}
use kubernetes_controller.Messaging.{Result, ok, err}
use kubernetes_controller.Flow.{next, return_with, pure}
use kubernetes_controller.Checkpoint.{build_checkpoint_image}
use kubernetes_controller.NodeAgent.{Host, Effect, Act, Response}

abbrev pub succeeded : Option String → Bool
succeeded none = true
succeeded (some _) = false

-- `http.Error`
abbrev pub http_error : ℕ → String → Response
http_error code message = record { status = code; body = message <> "\n" }

module _ (H : Host) {R : Type 0} where
  abbrev effect :
      (Bool → Effect H.oci.Image) → (H.World → Option String × H.World) → Act H R (Option String)
  effect c f s =
      let (e, w) = f s.world in
      (next e, record s { world = w; effects = c (succeeded e) ∷ s.effects })

  unfoldable pub create_file : String → Act H R (Option String)
  create_file path = effect (Effect.create_file path) (H.create_file path)

  unfoldable pub write_file : String → H.Upload → Act H R (Option String)
  write_file path file = effect (Effect.write_file path) (H.write_file path file)

  unfoldable pub remove : String → Act H R (Option String)
  remove path = effect (Effect.remove path) (H.remove path)

  unfoldable pub remove_all : String → Act H R (Option String)
  remove_all path = effect (Effect.remove_all path) (H.remove_all path)

  unfoldable pub mkdir_all : String → Act H R (Option String)
  mkdir_all path = effect (Effect.mkdir_all path) (H.mkdir_all path)

  unfoldable pub mkdir_temp : String → Act H R (Result String)
  mkdir_temp pattern s =
      let (r, w) = H.mkdir_temp pattern s.world in
      (next r, record s { world = w; effects = Effect.mkdir_temp r ∷ s.effects })

  unfoldable pub write_layout : String → Act H R (Option String)
  write_layout dir = effect (Effect.write_layout dir) (H.write_layout dir)

  unfoldable pub append_image : String → H.oci.Image → Act H R (Option String)
  append_image dir img = effect (Effect.append_image dir img) (H.append_image dir img)

  unfoldable pub push_image : H.oci.Image → String → Bool → Act H R (Option String)
  push_image img ref insecure =
      effect (Effect.push_image img ref insecure) (H.push_image img ref insecure)

  -- The error with the output that a failed command printed.
  unfoldable pub execute : String → List String → Act H R (Option (String × String))
  execute name args s =
      let (e, output, w) = H.execute name args s.world in
      (
        next (elim e [ none ↦ none | some x ↦ some (x, output) ]),
        record s { world = w; effects = Effect.execute name args (succeeded e) ∷ s.effects },
      )

  unfoldable pub unix_nano : Act H R ℕ
  unix_nano s = (next (H.unix_nano s.world), s)

  -- `checkpoint.BuildCheckpointImage`, which only reads
  unfoldable pub build_image : String → String → Act H R (Result H.oci.Image)
  build_image path container s = (next (build_checkpoint_image H.oci path container s.world), s)

  -- `if err != nil { return f(err) }`
  unfoldable pub return_if_error : Option String → (String → R) → Act H R (Unit {0})
  return_if_error none f = pure tt
  return_if_error (some e) f = return_with (f e)

  -- `if err != nil { return f(err) }`, and the value otherwise
  unfoldable pub value_or_return : {A : Type 0} → Result A → (String → R) → Act H R A
  value_or_return (ok a) f = pure a
  value_or_return (err e) f = return_with (f e)
