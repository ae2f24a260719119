-- ===== src/NodeAgent/Load.antt =====
-- `localLoad` and `registryPush`, which the controller asks for, and their handlers.
use kubernetes_controller.Base.{
  String, ◌<>◌, ◌==◌, Bool, Option, none, some, List, [], ◌∷◌, if◌then◌else◌,
}
use kubernetes_controller.Messaging.{Result, ok, err}
use kubernetes_controller.Json.{JsonObject, text_field, flag_field}
use kubernetes_controller.Flow.{◌>>=◌, ◌>>◌, pure, invoke, return_with, skip}
use kubernetes_controller.NodeAgent.{Host, Act, HttpRequest, Response}
use kubernetes_controller.NodeAgent.Calls.{
  build_image, mkdir_temp, remove_all, write_layout, append_image, execute, push_image,
  return_if_error, value_or_return, http_error,
}

-- The request of /local-load.
pub record LoadRequest : Type 0 where
  pub tar_path : String
  pub container_name : String
  pub image_tag : String

-- The request of /registry-push.
pub record PushRequest : Type 0 where
  pub tar_path : String
  pub container_name : String
  pub image_ref : String
  pub insecure : Bool

-- `result >>= f`, for the decoders.
abbrev and_then : {A B : Type 0} → Result A → (A → Result B) → Result B
and_then (ok a) f = f a
and_then (err e) f = err e

unfoldable pub decode_load : JsonObject → Result LoadRequest
unfolding text_field
decode_load o = and_then (text_field "tarPath" o) λ tar.
    and_then (text_field "containerName" o) λ container.
      and_then (text_field "imageTag" o)
        λ tag. ok (record { tar_path = tar; container_name = container; image_tag = tag })

unfoldable pub decode_push : JsonObject → Result PushRequest
unfolding text_field flag_field
decode_push o = and_then (text_field "tarPath" o) λ tar.
    and_then (text_field "containerName" o) λ container. and_then (text_field "imageRef" o) λ ref.
      and_then (flag_field "insecure" o) λ insecure. ok (record {
        tar_path = tar;
        container_name = container;
        image_ref = ref;
        insecure = insecure;
      })

-- `skopeo copy` from a layout into the storage of the node's containers.
abbrev pub skopeo_args : String → String → List String
skopeo_args dir tag = "copy" ∷ ("oci:" <> dir) ∷ ("containers-storage:" <> tag) ∷ []

abbrev pub skopeo_error : String × String → String
skopeo_error (e, output) = "skopeo copy: " <> e <> ": " <> output

module _ (H : Host) where
  -- The body of `localLoad` once its directory is made.
  unfoldable pub load_layout : String → H.oci.Image → String → Act H (Option String) (Option String)
  load_layout dir img tag = do
    e1 ← write_layout H dir
    return_if_error H e1 (λ e. some ("write layout: " <> e))
    e2 ← append_image H dir img
    return_if_error H e2 (λ e. some ("append image: " <> e))
    e3 ← execute H "skopeo" (skopeo_args dir tag)
    pure (elim e3 [ none ↦ none | some e ↦ some (skopeo_error e) ])

  -- `localLoad`; the deferred removal runs after the body, however it returns.
  unfoldable pub local_load : String → String → String → Act H (Option String) (Option String)
  unfolding load_layout
  local_load tar container tag = do
    built ← build_image H tar container
    img ← value_or_return H built (λ e. some ("build image: " <> e))
    made ← mkdir_temp H "swap-oci-*"
    dir ← value_or_return H made (λ e. some ("mkdirtemp: " <> e))
    result ← invoke (load_layout dir img tag)
    remove_all H dir
    pure result

  -- `registryPush`
  unfoldable pub registry_push :
      String → String → String → Bool → Act H (Option String) (Option String)
  registry_push tar container ref insecure = do
    built ← build_image H tar container
    img ← value_or_return H built (λ e. some ("build image: " <> e))
    e ← push_image H img ref insecure
    return_if_error H e (λ x. some ("push image: " <> x))
    pure none

  -- The refusal of other methods, and the decoding of the body.
  unfoldable pub accept :
      {A : Type 0} → (JsonObject → Result A) → HttpRequest H.Upload → Act H Response A
  accept decode r = do
    if r.method == "POST" then skip else return_with (http_error 405 "method not allowed")
    o ← value_or_return H (H.read_json r.body) (λ e. http_error 400 ("decode request: " <> e))
    value_or_return H (decode o) (λ e. http_error 400 ("decode request: " <> e))

  -- The end of both handlers: the command runs, and its error is the answer's.
  unfoldable pub carry_out :
      String → Act H (Option String) (Option String) → Act H Response Response
  carry_out command body = do
    e ← invoke body
    return_if_error H e (λ x. http_error 500 (command <> ": " <> x))
    pure (record { status = 200; body = command <> " completed successfully" })

  -- `handleLocalLoad`
  unfoldable pub handle_local_load : HttpRequest H.Upload → Act H Response Response
  unfolding accept decode_load local_load carry_out
  handle_local_load r = do
    q ← accept decode_load r
    carry_out "local-load" (local_load q.tar_path q.container_name q.image_tag)

  -- `handleRegistryPush`
  unfoldable pub handle_registry_push : HttpRequest H.Upload → Act H Response Response
  unfolding accept decode_push registry_push carry_out
  handle_registry_push r = do
    q ← accept decode_push r
    carry_out "registry-push" (registry_push q.tar_path q.container_name q.image_ref q.insecure)
