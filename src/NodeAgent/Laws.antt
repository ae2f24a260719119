-- ===== src/NodeAgent/Laws.antt =====
-- What `localLoad`, `registryPush` and their handlers do on the node, by the effects that they leave.
use kubernetes_controller.Base.{String, ◌≡◌, Bool, true, none, List, ◌∷◌, arith, inl, inr}
use kubernetes_controller.Messaging.{ok, Result-cases}
use kubernetes_controller.Flow.{run, ◌>>=◌, invoke}
use kubernetes_controller.Checkpoint.{build_checkpoint_image}
use kubernetes_controller.NodeAgent.{Host, Effect, NodeState}
use kubernetes_controller.NodeAgent.Calls.{
  succeeded, build_image, mkdir_temp, remove_all, write_layout, append_image, execute, push_image,
  return_if_error, value_or_return,
}
use kubernetes_controller.NodeAgent.Load.{load_layout, local_load, registry_push, skopeo_args}

module _ (H : Host) where
  abbrev Effects : Type 0
  Effects = List (Effect H.oci.Image)

  -- A layout of the image was written to the directory and copied to the containers' storage.
  abbrev copied : String → H.oci.Image → String → Effects → Effects
  copied dir img tag es =
      Effect.execute "skopeo" (skopeo_args dir tag) true
      ∷ Effect.append_image dir img true
      ∷ Effect.write_layout dir true
      ∷ es

  load_layout_succeeds :
      (dir : String) (img : H.oci.Image) (tag : String) (s : NodeState H)
      → (run (load_layout H dir img tag) s).0 ≡ none
      → (run (load_layout H dir img tag) s).1.effects ≡ copied dir img tag s.effects
  unfolding ◌>>=◌ load_layout write_layout append_image execute return_if_error
  load_layout_succeeds dir img tag s h = ground arith

  load_layout_only :
      (dir : String) (img : H.oci.Image) (tag : String) (s : NodeState H)
      → (run (load_layout H dir img tag) s).1.effects ≡ copied dir img tag s.effects
      → (run (load_layout H dir img tag) s).0 ≡ none
  unfolding ◌>>=◌ load_layout write_layout append_image execute return_if_error
  load_layout_only dir img tag s h = ground arith

  -- The archive was made an image, and the image loaded under the tag, by way of a directory, whose
  -- removal was then called for, with or without success.
  pub record Loaded (tar container tag : String) (s s' : NodeState H) : Type 0 where
    pub img : H.oci.Image
    pub built : build_checkpoint_image H.oci tar container s.world ≡ ok img
    pub dir : String
    pub removed : Bool
    pub effects :
        s'.effects
        ≡ Effect.remove_all dir removed
          ∷ copied dir img tag (Effect.mkdir_temp (ok dir) ∷ s.effects)

  -- The archive was made an image, and the image pushed.
  pub record Pushed (tar container ref : String) (insecure : Bool) (s s' : NodeState H)
      : Type 0 where
    pub img : H.oci.Image
    pub built : build_checkpoint_image H.oci tar container s.world ≡ ok img
    pub effects : s'.effects ≡ Effect.push_image img ref insecure true ∷ s.effects

  pub local_load-Loaded :
      (tar container tag : String) (s : NodeState H)
      → (run (local_load H tar container tag) s).0 ≡ none
      → Loaded tar container tag s (run (local_load H tar container tag) s).1
  unfolding ◌>>=◌ local_load build_image mkdir_temp value_or_return remove_all invoke
  local_load-Loaded tar container tag s h =
      elim (Result-cases (build_checkpoint_image H.oci tar container s.world)) [
        | inr (e, failed) ↦ absurd (ground (arith, failed))
        | inl (img, built) ↦ elim (Result-cases (H.mkdir_temp "swap-oci-*" s.world).0) [
          | inr (e, failed) ↦ absurd (ground (arith, built, failed))
          | inl (dir, made) ↦
              let w = (H.mkdir_temp "swap-oci-*" s.world).1 in
              let s' : NodeState H = record {
                world = w;
                effects = Effect.mkdir_temp (ok dir) ∷ s.effects;
              } in
              record {
                img = img;
                built = built;
                dir = dir;
                removed =
                    succeeded (H.remove_all dir (run (load_layout H dir img tag) s').1.world).0;
                effects = ground (arith, built, made, load_layout_succeeds dir img tag s');
              }
        ]
      ]

  pub Loaded-local_load :
      (tar container tag : String) (s : NodeState H)
      → Loaded tar container tag s (run (local_load H tar container tag) s).1
      → (run (local_load H tar container tag) s).0 ≡ none
  unfolding ◌>>=◌ local_load build_image mkdir_temp value_or_return remove_all invoke
  Loaded-local_load tar container tag s l =
      elim (Result-cases (H.mkdir_temp "swap-oci-*" s.world).0) [
        | inr (e, failed) ↦ absurd (ground (arith, l.built, l.effects, failed))
        | inl (dir, made) ↦
            let w = (H.mkdir_temp "swap-oci-*" s.world).1 in
            let s' : NodeState H = record {
              world = w;
              effects = Effect.mkdir_temp (ok dir) ∷ s.effects;
            } in
            ground (arith, l.built, l.effects, made, load_layout_only dir l.img tag s')
      ]

  pub registry_push-Pushed :
      (tar container ref : String) (insecure : Bool) (s : NodeState H)
      → (run (registry_push H tar container ref insecure) s).0 ≡ none
      → Pushed tar container ref insecure s (run (registry_push H tar container ref insecure) s).1
  unfolding ◌>>=◌ registry_push build_image value_or_return push_image return_if_error
  registry_push-Pushed tar container ref insecure s h =
      elim (Result-cases (build_checkpoint_image H.oci tar container s.world)) [
        | inr (e, failed) ↦ absurd (ground (arith, failed))
        | inl (img, built) ↦ record { img = img; built = built; effects = ground (arith, built) }
      ]

  pub Pushed-registry_push :
      (tar container ref : String) (insecure : Bool) (s : NodeState H)
      → Pushed tar container ref insecure s (run (registry_push H tar container ref insecure) s).1
      → (run (registry_push H tar container ref insecure) s).0 ≡ none
  unfolding ◌>>=◌ registry_push build_image value_or_return push_image return_if_error
  Pushed-registry_push tar container ref insecure s p = ground (arith, p.built, p.effects)
