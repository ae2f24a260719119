-- ===== src/Checkpoint/Laws.antt =====
-- What an image that `BuildCheckpointImage` made consists of.
use kubernetes_controller.Base.{
  inl, inr, Bool-cases, String, ◌==◌, ◌≡◌, refl, ap, ◌∙◌, List, [], ◌∷◌, ◌++◌, none, some, arith,
  if◌then◌else◌,
}
use kubernetes_controller.Base.Dict.{Dict, lookup}
use kubernetes_controller.Messaging.{ok, Result-cases}
use kubernetes_controller.Checkpoint.{
  Oci, oci_manifest, oci_config, checkpoint_annotation, no_compression, base_image, annotated,
  build_checkpoint_image,
}

-- What go-containerregistry documents of the calls, by the parts that an image can be asked for.
pub record ImagesAsDocumented {W : Type 0} (O : Oci W) : Type 0 where
  pub media_type : O.Image → String
  pub config_media_type : O.Image → String
  pub layers : O.Image → List O.Layer
  pub annotations : O.Image → Dict String
  pub empty_layers : layers O.empty_image ≡ []
  pub empty_annotations : annotations O.empty_image ≡ []
  pub set_type : (i : O.Image) (t : String) → media_type (O.set_media_type i t) ≡ t
  pub set_type_layers : (i : O.Image) (t : String) → layers (O.set_media_type i t) ≡ layers i
  pub set_type_annotations :
      (i : O.Image) (t : String) → annotations (O.set_media_type i t) ≡ annotations i
  pub set_config : (i : O.Image) (t : String) → config_media_type (O.set_config_media_type i t) ≡ t
  pub set_config_type :
      (i : O.Image) (t : String) → media_type (O.set_config_media_type i t) ≡ media_type i
  pub set_config_layers :
      (i : O.Image) (t : String) → layers (O.set_config_media_type i t) ≡ layers i
  pub set_config_annotations :
      (i : O.Image) (t : String) → annotations (O.set_config_media_type i t) ≡ annotations i
  pub append_layers :
      (i j : O.Image) (ls : List O.Layer)
      → O.append_layers i ls ≡ ok j
      → (layers j ≡ layers i ++ ls)
        × (media_type j ≡ media_type i)
        × (config_media_type j ≡ config_media_type i)
        × (annotations j ≡ annotations i)
  pub annotate :
      (i : O.Image) (d : Dict String) (k : String) {v : String}
      → lookup k d ≡ some v
      → lookup k (annotations (O.annotate i d)) ≡ some v
  pub annotate_rest :
      (i : O.Image) (d : Dict String)
      → (layers (O.annotate i d) ≡ layers i)
        × (media_type (O.annotate i d) ≡ media_type i)
        × (config_media_type (O.annotate i d) ≡ config_media_type i)

module _ {W : Type 0} (O : Oci W) (D : ImagesAsDocumented O) where
  open D use {layers, media_type, config_media_type, annotations}

  -- The shape of an image with one layer and the two media types, but for its annotations.
  abbrev pub IsOciImage : O.Layer → O.Image → Type 0
  IsOciImage layer img =
      (layers img ≡ layer ∷ [])
      × (media_type img ≡ oci_manifest)
      × (config_media_type img ≡ oci_config)

  appended-IsOciImage :
      (layer : O.Layer) (img : O.Image)
      → O.append_layers (base_image O) (layer ∷ []) ≡ ok img
      → IsOciImage layer img × (annotations img ≡ [])
  unfolding base_image
  appended-IsOciImage layer img e =
      let typed = O.set_media_type O.empty_image oci_manifest in
      let made = D.append_layers _ _ _ e in
      (
        (
          made.0
              ∙ ap (λ ls. ls ++ layer ∷ [])
                  (D.set_config_layers typed oci_config
                    ∙ D.set_type_layers O.empty_image oci_manifest
                    ∙ D.empty_layers),
          made.1 ∙ D.set_config_type typed oci_config ∙ D.set_type O.empty_image oci_manifest,
          made.2 ∙ D.set_config typed oci_config,
        ),
        made.3
            ∙ D.set_config_annotations typed oci_config
            ∙ D.set_type_annotations O.empty_image oci_manifest
            ∙ D.empty_annotations,
      )

  annotated_lem :
      (container : String) (layer : O.Layer) (img : O.Image)
      → IsOciImage layer img
      → annotations img ≡ []
      → IsOciImage layer (annotated O container img)
        × (lookup checkpoint_annotation (annotations (annotated O container img))
            ≡ (if container == "" then none else some container))
  unfolding annotated lookup
  annotated_lem container layer img h none_yet = elim (Bool-cases (container == "")) [
    | inl e ↦ rw (e, none_yet) (h, refl)
    | inr e ↦
        let d = (checkpoint_annotation, container) ∷ [] in
        let (l, t, c) = D.annotate_rest img d in
        rw e ((l ∙ h.0, t ∙ h.1, c ∙ h.2), D.annotate img d checkpoint_annotation refl)
  ]

  -- An image that was built has one layer, the archive uncompressed, and the media types of OCI for its
  -- manifest and its configuration; it names the checkpoint's container in the annotation that CRI-O
  -- looks for, unless the container's name is empty, when it has no such annotation. This is under what
  -- go-containerregistry documents of its images.
  pub build_checkpoint_image_lem :
      (path container : String) (w : W) {img : O.Image}
      → build_checkpoint_image O path container w ≡ ok img
      → (layer : O.Layer) × (O.layer_from_file path no_compression w ≡ ok layer)
        × IsOciImage layer img
        × (lookup checkpoint_annotation (annotations img)
            ≡ (if container == "" then none else some container))
  unfolding build_checkpoint_image
  build_checkpoint_image_lem path container w {img} h =
      elim (Result-cases (O.layer_from_file path no_compression w)) [
        | inr (e, read) ↦ absurd (ground (arith, read))
        | inl (layer, read) ↦ elim (Result-cases (O.append_layers (base_image O) (layer ∷ []))) [
          | inr (e, added) ↦ absurd (ground (arith, read, added))
          | inl (bare, added) ↦
              let made : annotated O container bare ≡ img = ground (arith, read, added) in
              let (shape, empty) = appended-IsOciImage layer bare added in
              let (whole, name) = annotated_lem container layer bare shape empty in
              (layer, read, rw (← made) whole, rw (← made) name)
        ]
      ]
