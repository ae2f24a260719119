-- ===== src/NodeAgent/Server.antt =====
-- `main` of the agent: its command line, its set-up, and the routes of its server.
use kubernetes_controller.Base.{
  ℕ, String, ◌<>◌, ◌==◌, false, none, some, List, [], ◌∷◌, if◌then◌else◌,
}
use kubernetes_controller.Flow.{◌>>=◌, ◌>>◌, pure, invoke}
use kubernetes_controller.NodeAgent.{Host, Act, HttpRequest, Response}
use kubernetes_controller.NodeAgent.Calls.{mkdir_all, http_error}
use kubernetes_controller.NodeAgent.Load.{local_load, handle_local_load, handle_registry_push}
use kubernetes_controller.NodeAgent.Upload.{UploadHandler, serve_http}

-- What `main` comes to: an exit with a code, or a server on an address.
pub data Outcome : Type 0 where
  exit : ℕ → Outcome
  listen : String → UploadHandler → Outcome

abbrev or_default : String → String → String
or_default value default = if value == "" then default else value

module _ (H : Host) where
  -- The routes of the `ServeMux`, which answers 404 to any other path.
  unfoldable pub serve : UploadHandler → HttpRequest H.Upload → Act H Response Response
  unfolding serve_http handle_local_load handle_registry_push
  serve h r =
      if r.path == "/checkpoint"
      then serve_http H h r
      else if r.path == "/local-load"
      then handle_local_load H r
      else if r.path == "/registry-push"
      then handle_registry_push H r
      else pure (http_error 404 "404 page not found")

  -- The command `local-load`, with the arguments that follow its name.
  unfoldable pub load_command : List String → Act H Outcome Outcome
  unfolding local_load
  load_command (tar ∷ container ∷ tag ∷ []) = do
    e ← invoke (local_load H tar container tag)
    pure (elim e [ none ↦ exit 0 | some _ ↦ exit 1 ])
  load_command _ = pure (exit 1)

  unfoldable pub start_server : Act H Outcome Outcome
  start_server = do
    let dir = or_default (H.getenv "STORAGE_DIR") "/var/lib/ms2m/incoming"
    mkdir_all H dir
    pure (
        listen (":" <> or_default (H.getenv "PORT") "9443")
          (record { storage_dir = dir; skip_load = false }))

  -- `main`, with the arguments after the program's name.
  unfoldable pub main : List String → Act H Outcome Outcome
  unfolding load_command start_server
  main [] = start_server
  main (command ∷ args) = if command == "local-load" then load_command args else start_server
