-- ===== src/Transfer.antt =====
-- cmd/checkpoint-transfer/main.go: the program of the transfer job, which pushes a checkpoint to a
-- registry or posts it to an agent.
pub mod Send
pub mod Laws
use kubernetes_controller.Base.{ℕ, String, Bool, Option, List}
use kubernetes_controller.Messaging.{Result}
use kubernetes_controller.Flow.{Run}
use kubernetes_controller.Checkpoint.{Oci}

-- A part of a multipart form.
pub data Part (File : Type 0) : Type 0 where
  field : String → String → Part File
  -- its field's name, its file's name, and the file
  file : String → String → File → Part File

-- What the program calls, over a state of the world. The steps of the form's writer fail as the calls
-- of multipart.Writer do, when the file cannot be read or the reader of the pipe has gone.
pub record Host : Type 1 where
  pub World : Type 0
  pub File : Type 0
  pub oci : Oci World
  pub open_file : String → World → Result File × World
  pub write_field : String → String → World → Option String × World
  pub create_form_file : String → String → World → Option String × World
  pub copy_file : File → World → Option String × World
  pub close_writer : World → Option String × World
  -- `http.Post` of a form, which its writer may have broken off: the status and the body of the answer
  pub post : String → List (Part File) → Bool → World → Result (ℕ × String) × World
  -- `crane.Push`, with `crane.Insecure` if the flag is set
  pub push_image : oci.Image → String → Bool → World → Option String × World
  pub getenv : String → String
  -- `%d`
  pub format_int : ℕ → String

-- What the program sent, or tried to send.
pub data Sent (Image File : Type 0) : Type 0 where
  -- the image, the reference, whether TLS was left out, and whether it succeeded
  pushed : Image → String → Bool → Bool → Sent Image File
  -- the URL, the form, whether it was written to its end, and the status of the answer, if any
  posted : String → List (Part File) → Bool → Option ℕ → Sent Image File

pub record SendState (H : Host) : Type 0 where
  pub world : H.World
  -- newest first
  pub sent : List (Sent H.oci.Image H.File)

abbrev pub Act : Host → Type 0 → Type 0 → Type 0
Act H R A = Run (SendState H) R A
