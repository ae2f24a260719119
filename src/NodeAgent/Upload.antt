-- ===== src/NodeAgent/Upload.antt =====
-- `checkpointHandler.ServeHTTP`: an uploaded archive is stored, made an image, and loaded.
use kubernetes_controller.Base.{String, ◌<>◌, ◌==◌, Bool, none, some, if◌then◌else◌}
use kubernetes_controller.Base.Dict.{Dict, lookup}
use kubernetes_controller.Flow.{◌>>=◌, ◌>>◌, pure, return_with, skip}
use kubernetes_controller.NodeAgent.{Host, Act, HttpRequest, Response}
use kubernetes_controller.NodeAgent.Calls.{
  create_file, write_file, remove, remove_all, mkdir_all, write_layout, append_image, execute,
  unix_nano, build_image, return_if_error, value_or_return, http_error,
}
use kubernetes_controller.NodeAgent.Load.{skopeo_args, skopeo_error}

-- `checkpointHandler`
pub record UploadHandler : Type 0 where
  pub storage_dir : String
  pub skip_load : Bool

-- `r.FormValue(key)`
unfoldable pub form_value : String → Dict String → String
unfolding lookup
form_value key d = elim (lookup key d) [ none ↦ "" | some v ↦ v ]

abbrev pub layout_dir : String → String
layout_dir tar = tar <> "-oci"

abbrev pub upload_tag : String → String
upload_tag container = "localhost/checkpoint/" <> container <> ":latest"

module _ (H : Host) where
  -- The file that takes the upload.
  unfoldable pub store_upload : String → H.Upload → Act H Response (Unit {0})
  store_upload tar file = do
    e1 ← create_file H tar
    return_if_error H e1 (λ e. http_error 500 ("create file: " <> e))
    e2 ← write_file H tar file
    return_if_error H e2 (λ e. http_error 500 ("write file: " <> e))

  unfoldable pub write_oci_layout : String → H.oci.Image → Act H Response (Unit {0})
  write_oci_layout dir img = do
    e1 ← mkdir_all H dir
    return_if_error H e1 (λ e. http_error 500 ("mkdir: " <> e))
    e2 ← write_layout H dir
    return_if_error H e2 (λ e. http_error 500 ("write layout: " <> e))
    e3 ← append_image H dir img
    return_if_error H e3 (λ e. http_error 500 ("append image: " <> e))

  unfoldable pub load_uploaded : String → String → Act H Response (Unit {0})
  load_uploaded dir container = do
    r ← execute H "skopeo" (skopeo_args dir (upload_tag container))
    elim r [ none ↦ skip | some e ↦ return_with (http_error 500 (skopeo_error e)) ]

  -- The handling of an upload with its file and its field.
  unfoldable pub take_upload : UploadHandler → H.Upload → String → Act H Response Response
  unfolding store_upload write_oci_layout load_uploaded
  take_upload h file container = do
    t ← unix_nano H
    let tar = h.storage_dir <> "/checkpoint-" <> H.format_int t <> ".tar"
    store_upload tar file
    built ← build_image H tar container
    img ← value_or_return H built (λ e. http_error 500 ("build image: " <> e))
    write_oci_layout (layout_dir tar) img
    if h.skip_load then skip else load_uploaded (layout_dir tar) container
    remove H tar
    remove_all H (layout_dir tar)
    pure (record { status = 200; body = "checkpoint loaded successfully" })

  -- `ServeHTTP`
  unfoldable pub serve_http : UploadHandler → HttpRequest H.Upload → Act H Response Response
  unfolding form_value take_upload
  serve_http h r = do
    if r.method == "POST" then skip else return_with (http_error 405 "method not allowed")
    form ← value_or_return H r.form (λ e. http_error 400 ("parse form: " <> e))
    file ← value_or_return H form.checkpoint (λ e. http_error 400 ("get file: " <> e))
    take_upload h file (form_value "containerName" form.values)
