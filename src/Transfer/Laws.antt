-- ===== src/Transfer/Laws.antt =====
-- What the transfer job has sent when it exits with 0.
use text.Mathlib.Text.{starts_with}
use kubernetes_controller.Base.{
  String, ◌==◌, ◌≡◌, ◌↔◌, refl, true, not, Option, none, some, [], ◌∷◌, arith, Bool-cases, inl, inr,
  if◌then◌else◌,
}
use kubernetes_controller.Messaging.{ok, Result-cases}
use kubernetes_controller.Flow.{run, ◌>>=◌, invoke}
use kubernetes_controller.Checkpoint.{build_checkpoint_image}
use kubernetes_controller.Transfer.{Host, Sent, SendState}
use kubernetes_controller.Transfer.Send.{
  build_image, open_file, push_image, post_form, write_name, write_form, form, direct_transfer,
  registry_transfer, transfer, main, exit_code,
}

exit_zero : (e : Option String) → exit_code e ≡ 0 → e ≡ none
exit_zero none h = refl
exit_zero (some x) h = absurd (omega (arith, h))

module _ (H : Host) where
  -- The image of the archive was pushed, and nothing else was sent.
  pub record Pushed (path ref container : String) (s s' : SendState H) : Type 0 where
    pub img : H.oci.Image
    pub built : build_checkpoint_image H.oci path container s.world ≡ ok img
    pub sent :
        s'.sent ≡ Sent.pushed img ref (not (H.getenv "INSECURE_REGISTRY" == "")) true ∷ s.sent

  -- The archive was posted as a whole form and the answer was 200; nothing else was sent.
  pub record Posted (path url container : String) (s s' : SendState H) : Type 0 where
    pub archive : H.File
    pub opened : (H.open_file path s.world).0 ≡ ok archive
    pub sent : s'.sent ≡ Sent.posted url (form H container archive) true (some 200) ∷ s.sent

  registry_transfer_iff :
      (path ref container : String) (s : SendState H)
      → ((run (registry_transfer H path ref container) s).0 ≡ none)
        ↔ Pushed path ref container s (run (registry_transfer H path ref container) s).1
  unfolding ◌>>=◌ registry_transfer build_image push_image
  registry_transfer_iff path ref container s = (
    λ e. elim (Result-cases (build_checkpoint_image H.oci path container s.world)) [
      | inr (x, bad) ↦ absurd (ground (arith, bad))
      | inl (img, built) ↦ record { img = img; built = built; sent = ground (arith, built) }
    ],
    λ p. ground (arith, p.built, p.sent),
  )

  direct_transfer_iff :
      (path url container : String) (s : SendState H)
      → ((run (direct_transfer H path url container) s).0 ≡ none)
        ↔ Posted path url container s (run (direct_transfer H path url container) s).1
  unfolding ◌>>=◌ direct_transfer open_file write_form write_name post_form invoke
  direct_transfer_iff path url container s = (
    λ e. elim (Result-cases (H.open_file path s.world).0) [
      | inr (x, bad) ↦ absurd (ground (arith, bad))
      | inl (f, opened) ↦ record { archive = f; opened = opened; sent = ground (arith, opened) }
    ],
    λ p. ground (arith, p.opened, p.sent),
  )

  -- The transfer that `main` chooses by its target was made.
  abbrev pub Transferred : String → String → String → SendState H → SendState H → Type 0
  Transferred path target container s s' =
      if starts_with target "http"
      then Posted path target container s s'
      else Pushed path target container s s'

  -- The program exits with 0 exactly if the archive arrived: posted as a whole to a target that starts
  -- with "http" and answered 200, or pushed as an image to any other target. Without a container's name
  -- it does what it does with an empty one.
  pub main_iff :
      (path target container : String) (s : SendState H)
      → (((main H (path ∷ target ∷ container ∷ []) s).0 ≡ 0)
          ↔ Transferred path target container s (main H (path ∷ target ∷ container ∷ []) s).1)
        × (main H (path ∷ target ∷ []) s ≡ main H (path ∷ target ∷ "" ∷ []) s)
  unfolding main transfer
  main_iff path target container s = elim (Bool-cases (starts_with target "http")) [
    | inl http ↦
        let sent = direct_transfer_iff path target container s in
        (rw http ((λ e. sent.0 (exit_zero _ e), λ p. rw (sent.1 p) (refl))), refl)
    | inr ref ↦
        let sent = registry_transfer_iff path target container s in
        (rw ref ((λ e. sent.0 (exit_zero _ e), λ p. rw (sent.1 p) (refl))), refl)
  ]
