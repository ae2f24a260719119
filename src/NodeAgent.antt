-- ===== src/NodeAgent.antt =====
-- cmd/ms2m-agent/main.go: the server on each node that loads and pushes checkpoint images. The node's
-- files, its tools and the registry are `Host`, over a state of the world.
pub mod Calls
pub mod Load
pub mod Upload
pub mod Server
pub mod Laws
pub mod Answers
pub mod Cleanup
use kubernetes_controller.Base.{ℕ, String, Bool, Option, List}
use kubernetes_controller.Base.Dict.{Dict}
use kubernetes_controller.Messaging.{Result}
use kubernetes_controller.Json.{JsonObject}
use kubernetes_controller.Flow.{Run}
use kubernetes_controller.Checkpoint.{Oci}

pub record Host : Type 1 where
  pub World : Type 0
  -- an uploaded file
  pub Upload : Type 0
  pub oci : Oci World
  -- `os.Create`, and `io.Copy` into the file
  pub create_file : String → World → Option String × World
  pub write_file : String → Upload → World → Option String × World
  -- `os.Remove` and `os.RemoveAll`, whose errors the code ignores
  pub remove : String → World → Option String × World
  pub remove_all : String → World → Option String × World
  pub mkdir_all : String → World → Option String × World
  -- by a pattern
  pub mkdir_temp : String → World → Result String × World
  -- `layout.Write(dir, empty.Index)` and `AppendImage`
  pub write_layout : String → World → Option String × World
  pub append_image : String → oci.Image → World → Option String × World
  -- `exec.Command(…).CombinedOutput()`: the error, if any, and the output
  pub execute : String → List String → World → Option String × String × World
  -- `crane.Push`, with `crane.Insecure` if the flag is set
  pub push_image : oci.Image → String → Bool → World → Option String × World
  -- what `json.NewDecoder(…).Decode` reads as an object
  pub read_json : String → Result JsonObject
  pub getenv : String → String
  pub unix_nano : World → ℕ
  -- `%d`
  pub format_int : ℕ → String

-- A call that changes the node or the registry, with whether it succeeded.
pub data Effect (Image : Type 0) : Type 0 where
  create_file : String → Bool → Effect Image
  write_file : String → Bool → Effect Image
  remove : String → Bool → Effect Image
  remove_all : String → Bool → Effect Image
  mkdir_all : String → Bool → Effect Image
  -- the directory made, or the error
  mkdir_temp : Result String → Effect Image
  write_layout : String → Bool → Effect Image
  append_image : String → Image → Bool → Effect Image
  execute : String → List String → Bool → Effect Image
  push_image : Image → String → Bool → Bool → Effect Image

-- The world, and the effects so far, newest first.
pub record NodeState (H : Host) : Type 0 where
  pub world : H.World
  pub effects : List (Effect H.oci.Image)

abbrev pub Act : Host → Type 0 → Type 0 → Type 0
Act H R A = Run (NodeState H) R A

-- What `ParseMultipartForm` finds: the part "checkpoint", and the first value of each other field.
pub record Form (Upload : Type 0) : Type 0 where
  pub checkpoint : Result Upload
  pub values : Dict String

pub record HttpRequest (Upload : Type 0) : Type 0 where
  pub method : String
  pub path : String
  pub body : String
  -- the body as a multipart form
  pub form : Result (Form Upload)

pub record Response : Type 0 where
  pub status : ℕ
  pub body : String
