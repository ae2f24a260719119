-- ===== src/Checkpoint.antt =====
-- internal/checkpoint/image.go: `BuildCheckpointImage`, over go-containerregistry.
pub mod Laws
use kubernetes_controller.Base.{ℕ, String, ◌<>◌, ◌==◌, List, [], ◌∷◌, if◌then◌else◌}
use kubernetes_controller.Base.Dict.{Dict}
use kubernetes_controller.Messaging.{Result, ok, err}

-- What the code calls of the packages tarball, mutate and empty. `W` is the state of the node,
-- whose files a layer is read from.
pub record Oci (W : Type 0) : Type 1 where
  pub Layer : Type 0
  pub Image : Type 0
  -- `empty.Image`
  pub empty_image : Image
  -- `tarball.LayerFromFile` with a compression level
  pub layer_from_file : String → ℕ → W → Result Layer
  pub set_media_type : Image → String → Image
  pub set_config_media_type : Image → String → Image
  pub append_layers : Image → List Layer → Result Image
  pub annotate : Image → Dict String → Image

-- `ocitype.OCIManifestSchema1` and `ocitype.OCIConfigJSON`
abbrev pub oci_manifest : String
oci_manifest = "application/vnd.oci.image.manifest.v1+json"

abbrev pub oci_config : String
oci_config = "application/vnd.oci.image.config.v1+json"

-- `gzip.NoCompression`
abbrev pub no_compression : ℕ
no_compression = 0

abbrev pub checkpoint_annotation : String
checkpoint_annotation = "io.kubernetes.cri-o.annotations.checkpoint.name"

module _ {W : Type 0} (O : Oci W) where
  -- The empty image with both of its media types set to those of OCI.
  unfoldable pub base_image : O.Image
  base_image = O.set_config_media_type (O.set_media_type O.empty_image oci_manifest) oci_config

  unfoldable pub annotated : String → O.Image → O.Image
  annotated container img =
      if container == "" then img else O.annotate img ((checkpoint_annotation, container) ∷ [])

  -- `BuildCheckpointImage`
  unfoldable pub build_checkpoint_image : String → String → W → Result O.Image
  unfolding base_image annotated
  build_checkpoint_image path container w = elim (O.layer_from_file path no_compression w) [
    | err e ↦ err ("creating layer from checkpoint: " <> e)
    | ok layer ↦ elim (O.append_layers base_image (layer ∷ [])) [
      | err e ↦ err ("appending layer to image: " <> e)
      | ok img ↦ ok (annotated container img)
    ]
  ]
