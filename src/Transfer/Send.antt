-- ===== src/Transfer/Send.antt =====
-- `registryTransfer`, `directTransfer` and `main`.
use text.Mathlib.Text.{starts_with}
use kubernetes_controller.Base.{
  ℕ, String, ◌<>◌, ◌==◌, Bool, true, false, not, Option, none, some, List, [], ◌∷◌, ◌++◌, nat_eq,
  if◌then◌else◌,
}
use kubernetes_controller.Messaging.{Result, ok, err}
use kubernetes_controller.Flow.{next, run, ◌>>=◌, ◌>>◌, pure, invoke, return_with}
use kubernetes_controller.Checkpoint.{build_checkpoint_image}
use kubernetes_controller.Transfer.{Host, Part, field, file, Sent, SendState, Act}

abbrev succeeded : Option String → Bool
succeeded none = true
succeeded (some _) = false

abbrev pub exit_code : Option String → ℕ
exit_code none = 0
exit_code (some _) = 1

abbrev status_of : Result (ℕ × String) → Option ℕ
status_of (ok (status, _)) = some status
status_of (err _) = none

module _ (H : Host) {R : Type 0} where
  -- A call that returns an error or nil.
  abbrev call : (H.World → Option String × H.World) → Act H R (Option String)
  call f s = let (e, w) = f s.world in (next e, record s { world = w })

  abbrev return_if_error : Option String → (String → R) → Act H R (Unit {0})
  return_if_error none f = pure tt
  return_if_error (some e) f = return_with (f e)

  abbrev value_or_return : {A : Type 0} → Result A → (String → R) → Act H R A
  value_or_return (ok a) f = pure a
  value_or_return (err e) f = return_with (f e)

  -- `checkpoint.BuildCheckpointImage`, which only reads
  unfoldable pub build_image : String → String → Act H R (Result H.oci.Image)
  build_image path container s = (next (build_checkpoint_image H.oci path container s.world), s)

  unfoldable pub open_file : String → Act H R (Result H.File)
  open_file path s = let (r, w) = H.open_file path s.world in (next r, record s { world = w })

  unfoldable pub push_image : H.oci.Image → String → Bool → Act H R (Option String)
  push_image img ref insecure s =
      let (e, w) = H.push_image img ref insecure s.world in
      (next e, record { world = w; sent = Sent.pushed img ref insecure (succeeded e) ∷ s.sent })

  -- The POST of the form that the writer has written, in full or up to its error.
  unfoldable pub post_form : String → List (Part H.File) → Bool → Act H R (Result (ℕ × String))
  post_form url parts whole s =
      let (r, w) = H.post url parts whole s.world in
      (next r, record { world = w; sent = Sent.posted url parts whole (status_of r) ∷ s.sent })

module _ (H : Host) where
  -- The optional field of the form.
  unfoldable pub write_name : String → Act H (Option String) (List (Part H.File))
  write_name container = if container == "" then pure [] else (do
    e ← call H (H.write_field "containerName" container)
    return_if_error H e (λ x. some ("writing containerName field: " <> x))
    pure (field "containerName" container ∷ []))

  -- The goroutine that writes the form into the pipe; what it puts on its channel is the result.
  unfoldable pub write_form : String → H.File → Act H (Option String) (Option String)
  unfolding write_name
  write_form container f = do
    write_name container
    e1 ← call H (H.create_form_file "checkpoint" "checkpoint.tar")
    return_if_error H e1 (λ x. some ("creating form file: " <> x))
    e2 ← call H (H.copy_file f)
    return_if_error H e2 (λ x. some ("copying checkpoint data: " <> x))
    call H H.close_writer

  -- The form that the goroutine writes.
  unfoldable pub form : String → H.File → List (Part H.File)
  form container f =
      (if container == "" then [] else field "containerName" container ∷ [])
      ++ (file "checkpoint" "checkpoint.tar" f ∷ [])

  -- `directTransfer`
  unfoldable pub direct_transfer : String → String → String → Act H (Option String) (Option String)
  unfolding write_form form
  direct_transfer path url container = do
    opened ← open_file H path
    f ← value_or_return H opened (λ e. some ("opening checkpoint file: " <> e))
    write_error ← invoke (write_form container f)
    r ← post_form H url (form container f) (succeeded write_error)
    (status, body) ← value_or_return H r (λ e. some ("posting checkpoint: " <> e))
    return_if_error H write_error some
    pure (
        if nat_eq status 200
        then none
        else some ("server returned " <> H.format_int status <> ": " <> body))

  -- `registryTransfer`
  unfoldable pub registry_transfer :
      String → String → String → Act H (Option String) (Option String)
  registry_transfer path ref container = do
    built ← build_image H path container
    img ← value_or_return H built (λ e. some ("building image: " <> e))
    e ← push_image H img ref (not (H.getenv "INSECURE_REGISTRY" == ""))
    return_if_error H e (λ x. some ("pushing image: " <> x))
    pure none

  -- The choice of the transfer by its target.
  unfoldable pub transfer : String → String → String → Act H (Option String) (Option String)
  unfolding direct_transfer registry_transfer
  transfer path target container =
      if starts_with target "http"
      then direct_transfer path target container
      else registry_transfer path target container

  -- `main`: the arguments after the program's name to its exit code.
  unfoldable pub main : List String → SendState H → ℕ × SendState H
  unfolding transfer
  main (path ∷ target ∷ []) s = let (e, s') = run (transfer path target "") s in (exit_code e, s')
  main (path ∷ target ∷ container ∷ []) s =
      let (e, s') = run (transfer path target container) s in (exit_code e, s')
  main _ s = (1, s)
