-- ===== src/Tests/Node.antt =====
-- The node agent, the images and the kubelet client, at concrete requests.
use kubernetes_controller.Base.{
  ℕ, String, ◌≡◌, ◌↔◌, refl, ◌==◌, false, not, nat_eq, Option, none, some, List, [], ◌∷◌, ◌++◌, ◌+◌,
  if◌then◌else◌, arith,
}
use kubernetes_controller.Base.Dict.{Dict, lookup}
use kubernetes_controller.Messaging.{Result, ok, err}
use kubernetes_controller.Json.{Json, JsonObject}
use kubernetes_controller.Flow.{run, ◌>>=◌, invoke, skip}
use kubernetes_controller.Checkpoint.{
  Oci, build_checkpoint_image, checkpoint_annotation, no_compression,
}
use kubernetes_controller.Checkpoint.Laws.{
  ImagesAsDocumented, IsOciImage, build_checkpoint_image_lem,
}
use kubernetes_controller.Kubelet.{Rest, checkpoint}
use kubernetes_controller.Kubelet.Laws.{Answers, request, checkpoint_iff}
use kubernetes_controller.NodeAgent.{Host, NodeState, HttpRequest}
use kubernetes_controller.Controller.Agent.{load_body, push_body}
use kubernetes_controller.Tests.World.{load_text, push_text}
use kubernetes_controller.NodeAgent.Calls.{
  unix_nano, create_file, write_file, return_if_error, value_or_return, build_image, mkdir_temp,
  mkdir_all, remove_all, write_layout, append_image, execute,
}
use kubernetes_controller.NodeAgent.Load.{LoadRequest, decode_load, local_load, handle_local_load}
use kubernetes_controller.NodeAgent.Upload.{UploadHandler, take_upload}
use kubernetes_controller.NodeAgent.Server.{serve}
use kubernetes_controller.NodeAgent.Laws.{Loaded}
use kubernetes_controller.NodeAgent.Answers.{Accepted, handle_local_load_iff}
use kubernetes_controller.NodeAgent.Cleanup.{
  remains, local_load_cleans, serve_cleans, take_upload_leaves,
}

-- An image is what can be asked of it; a layer is its file's path.
pub record TestImage : Type 0 where
  pub media_type : String
  pub config_media_type : String
  pub layers : List String
  pub annotations : Dict String

abbrev pub test_oci : Oci ℕ
test_oci = record {
  Layer = String;
  Image = TestImage;
  empty_image = record {
    media_type = "docker";
    config_media_type = "docker";
    layers = [];
    annotations = [];
  };
  layer_from_file = λ path level w. if path == "/missing.tar" then err "no such file" else ok path;
  set_media_type = λ i t. record i { media_type = t };
  set_config_media_type = λ i t. record i { config_media_type = t };
  append_layers = λ i ls. ok (record i { layers = i.layers ++ ls });
  annotate = λ i d. record i { annotations = d };
}

append_test :
    (i j : TestImage) (ls : List String)
    → Path (Result TestImage) (test_oci.append_layers i ls) (ok j)
    → (j.layers ≡ i.layers ++ ls)
      × (j.media_type ≡ i.media_type)
      × (j.config_media_type ≡ i.config_media_type)
      × (j.annotations ≡ i.annotations)
append_test i j ls e = ground arith

abbrev documented : ImagesAsDocumented test_oci
documented = record {
  media_type = λ i. i.media_type;
  config_media_type = λ i. i.config_media_type;
  layers = λ i. i.layers;
  annotations = λ i. i.annotations;
  empty_layers = refl;
  empty_annotations = refl;
  set_type = λ i t. refl;
  set_type_layers = λ i t. refl;
  set_type_annotations = λ i t. refl;
  set_config = λ i t. refl;
  set_config_type = λ i t. refl;
  set_config_layers = λ i t. refl;
  set_config_annotations = λ i t. refl;
  append_layers = append_test;
  annotate = λ i d k e. e;
  annotate_rest = λ i d. (refl, refl, refl);
}

-- The image of an archive.
abbrev built : TestImage
built = record {
  media_type = "application/vnd.oci.image.manifest.v1+json";
  config_media_type = "application/vnd.oci.image.config.v1+json";
  layers = "/a.tar" ∷ [];
  annotations = (checkpoint_annotation, "app") ∷ [];
}

build_image_runs : build_checkpoint_image test_oci "/a.tar" "app" 0 ≡ ok built
unfolding build_checkpoint_image
build_image_runs = refl

build_checkpoint_image_lem_example :
    (layer : String) × (Path
      (Result String)
      (test_oci.layer_from_file "/a.tar" no_compression 0)
      (ok layer))
    × IsOciImage test_oci documented layer built
    × (lookup checkpoint_annotation built.annotations ≡ (if "app" == "" then none else some "app"))
build_checkpoint_image_lem_example =
    build_checkpoint_image_lem test_oci documented "/a.tar" "app" 0 build_image_runs

-- A member that is given twice, and a null.
abbrev post_text : String
post_text =
    "{\"imageTag\":\"localhost/app:1\",\"tarPath\":\"/a.tar\",\"containerName\":null,\"containerName\":\"app\"}"

-- Reads the texts of the tests.
unfoldable pub read_json : String → Result JsonObject
read_json t =
    if t == load_text
    then ok (load_body "/a.tar" "app" "t")
    else if t == push_text
    then ok (push_body "/a.tar" "app" "t")
    else if t == post_text
    then ok (
        ("imageTag", Json.text "localhost/app:1")
        ∷ ("tarPath", Json.text "/a.tar")
        ∷ ("containerName", Json.null)
        ∷ ("containerName", Json.text "app")
        ∷ [])
    else err "invalid character"

-- A node where every call succeeds but, if there is one, the error of `skopeo`.
abbrev pub test_host : Option String → Host
test_host skopeo = record {
  World = ℕ;
  Upload = String;
  oci = test_oci;
  create_file = λ path w. (none, w);
  write_file = λ path file w. (none, w);
  remove = λ path w. (none, w);
  remove_all = λ path w. (none, w);
  mkdir_all = λ path w. (none, w);
  mkdir_temp = λ pattern w. (ok "/tmp/swap-oci-1", w);
  write_layout = λ dir w. (none, w);
  append_image = λ dir img w. (none, w);
  execute = λ name args w. (skopeo, "output", w);
  push_image = λ img ref insecure w. (none, w);
  read_json = read_json;
  getenv = λ key. "";
  unix_nano = λ w. w;
  format_int = λ n. if nat_eq n 7 then "7" else "many";
}

abbrev node : Host
node = test_host none

abbrev idle : NodeState node
idle = record { world = 7; effects = [] }

abbrev pub uploads : UploadHandler
uploads = record { storage_dir = "/in"; skip_load = false }

abbrev load_post : HttpRequest String
load_post = record { method = "POST"; path = "/local-load"; body = post_text; form = err "no form" }

abbrev answered : NodeState node
answered = (run (handle_local_load node load_post) idle).1

-- A member that is given twice counts as it is given last.
load_post_answered : (run (handle_local_load node load_post) idle).0.status ≡ 200
unfolding handle_local_load ◌>>=◌ invoke skip build_checkpoint_image value_or_return return_if_error
    build_image mkdir_temp remove_all write_layout append_image execute read_json
load_post_answered = refl

handle_local_load_iff_example : ((run (handle_local_load node load_post) idle).0.status ≡ 200) ↔ (
    (q : LoadRequest) × Accepted node load_post idle decode_load q
    × Loaded node q.tar_path q.container_name q.image_tag idle answered)
handle_local_load_iff_example = handle_local_load_iff node load_post idle

-- The directory of the load does not remain, also where skopeo fails.
abbrev broken : Host
broken = test_host (some "exit status 1")

abbrev broken_idle : NodeState broken
broken_idle = record { world = 7; effects = [] }

local_load_cleans_example :
    remains "/tmp/swap-oci-1"
      (run (local_load broken "/a.tar" "app" "localhost/app:1") broken_idle).1.effects
    ≡ false
unfolding local_load ◌>>=◌ build_image value_or_return build_checkpoint_image mkdir_temp invoke
    remove_all write_layout return_if_error append_image execute
local_load_cleans_example =
    local_load_cleans broken "/a.tar" "app" "localhost/app:1" "/tmp/swap-oci-1" broken_idle refl
      refl

serve_cleans_example :
    remains "/tmp/swap-oci-1" (run (serve node uploads load_post) idle).1.effects ≡ false
unfolding serve ◌>>=◌ skip value_or_return invoke return_if_error build_image build_checkpoint_image
    mkdir_temp remove_all write_layout append_image execute read_json
serve_cleans_example =
    serve_cleans node uploads load_post "/tmp/swap-oci-1" idle load_post_answered refl refl

-- The archive stays where skopeo fails.
take_upload_leaves_example :
    let (answer, after) = run (take_upload broken uploads "bytes" "app") broken_idle in
    remains "/in/checkpoint-7.tar" after.effects ≡ not (nat_eq answer.status 200)
unfolding take_upload ◌>>=◌ build_checkpoint_image unix_nano create_file return_if_error write_file
    build_image value_or_return mkdir_all write_layout append_image execute
take_upload_leaves_example = take_upload_leaves broken uploads "bytes" "app" broken_idle refl refl

upload_refused : (run (take_upload broken uploads "bytes" "app") broken_idle).0.status ≡ 500
unfolding take_upload ◌>>=◌ build_checkpoint_image unix_nano create_file return_if_error write_file
    build_image value_or_return mkdir_all write_layout append_image execute
upload_refused = refl

-- A kubelet that answers 200 with one archive.
abbrev test_rest : Rest ℕ
test_rest = record {
  post = λ resource name parts w.
      (record { error = none; status_code = 200; raw = ok "{\"items\":[\"/a.tar\"]}" }, w + 1);
  parse = λ body. ok (("items", Json.texts ("/a.tar" ∷ [])) ∷ []);
  format_int = λ n. "200";
}

checkpoint_iff_example :
    let (r, w') = request test_rest "node" "shop" "orders-0" "app" 0 in
    ((checkpoint test_rest "node" "shop" "orders-0" "app" 0).1 ≡ w')
    × (((checkpoint test_rest "node" "shop" "orders-0" "app" 0).0 ≡ ok ("/a.tar" ∷ []))
        ↔ Answers test_rest r ("/a.tar" ∷ []))
checkpoint_iff_example =
    checkpoint_iff test_rest "node" "shop" "orders-0" "app" 0 ("/a.tar" ∷ []) (λ e. cc) (λ e. cc)
      (λ e. cc) (λ e. cc)
