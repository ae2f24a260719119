-- ===== src/NodeAgent/Cleanup.antt =====
-- What the agent leaves on its node's disk.
use kubernetes_controller.Base.{
  String, ◌<>◌, ◌≡◌, ◌==◌, Bool, true, false, ◌&&◌, not, ◌||◌, none, List, [], ◌∷◌, arith,
  Bool-cases, inl, inr, if◌then◌else◌, nat_eq,
}
use kubernetes_controller.Base.Text.{ne→==_false, ==_self, append_ne_self}
use kubernetes_controller.Messaging.{ok, Result-cases}
use kubernetes_controller.Flow.{run, ◌>>=◌, pure, invoke, skip}
use kubernetes_controller.Checkpoint.{build_checkpoint_image}
use kubernetes_controller.NodeAgent.{Host, Effect, NodeState, HttpRequest}
use kubernetes_controller.NodeAgent.Calls.{
  build_image, mkdir_temp, mkdir_all, create_file, write_file, unix_nano, remove, remove_all,
  write_layout, append_image, execute, push_image, return_if_error, value_or_return,
}
use kubernetes_controller.NodeAgent.Load.{
  load_layout, local_load, registry_push, handle_local_load, handle_registry_push, decode_load,
  decode_push,
}
use kubernetes_controller.NodeAgent.Upload.{
  UploadHandler, take_upload, store_upload, write_oci_layout, load_uploaded, layout_dir, serve_http,
  form_value,
}
use kubernetes_controller.NodeAgent.Server.{serve}
use kubernetes_controller.NodeAgent.Answers.{
  accept_cases, carry_out_lem, handle_local_load_goes_on, handle_local_load_refused,
  handle_registry_push_goes_on, handle_registry_push_refused,
}

-- The effect makes or fills a file or a directory at the path, where a directory stands for all that
-- is in it; a layout may be there in part also where an error was reported. What skopeo copies goes to
-- the node's image storage, and what is pushed to the registry: neither is at a path of the agent's.
abbrev makes : {I : Type 0} → String → Effect I → Bool
makes p (Effect.create_file q done) = done && q == p
makes p (Effect.write_file q done) = q == p
makes p (Effect.mkdir_all q done) = done && q == p
makes p (Effect.mkdir_temp (ok q)) = q == p
makes p (Effect.write_layout q done) = q == p
makes p (Effect.append_image q img done) = q == p
makes p _ = false

-- The effect removes the path, or was meant to and reported an error, which the code ignores.
abbrev removes : {I : Type 0} → String → Effect I → Bool
removes p (Effect.remove q done) = done && q == p
removes p (Effect.remove_all q done) = done && q == p
removes p _ = false

abbrev refuses : {I : Type 0} → String → Effect I → Bool
refuses p (Effect.remove q done) = not done && q == p
refuses p (Effect.remove_all q done) = not done && q == p
refuses p _ = false

-- Something was made at the path, and was not removed since.
abbrev pub remains : {I : Type 0} → String → List (Effect I) → Bool
remains p [] = false
remains p (e ∷ es) = if removes p e then false else if makes p e then true else remains p es

-- Some removal of the path failed.
abbrev pub refused : {I : Type 0} → String → List (Effect I) → Bool
refused p [] = false
refused p (e ∷ es) = refuses p e || refused p es

module _ (H : Host) where
  load_layout_keeps :
      (p dir : String) (img : H.oci.Image) (tag : String) (s : NodeState H)
      → (dir == p) ≡ false
      → remains p (run (load_layout H dir img tag) s).1.effects ≡ remains p s.effects
  unfolding ◌>>=◌ load_layout write_layout append_image execute return_if_error
  load_layout_keeps p dir img tag s other = ground (arith, other)

  local_load_old :
      (tar container tag p : String) (s : NodeState H)
      → refused p (run (local_load H tar container tag) s).1.effects ≡ false
      → remains p (run (local_load H tar container tag) s).1.effects ≡ true
      → remains p s.effects ≡ true
  unfolding ◌>>=◌ local_load build_image mkdir_temp value_or_return remove_all invoke
  local_load_old tar container tag p s ok_removal h =
      elim (Result-cases (build_checkpoint_image H.oci tar container s.world)) [
        | inr (e, failed) ↦ ground (arith, failed)
        | inl (img, built) ↦ elim (Result-cases (H.mkdir_temp "swap-oci-*" s.world).0) [
          | inr (e, failed) ↦ ground (arith, built, failed)
          | inl (dir, made) ↦
              let w = (H.mkdir_temp "swap-oci-*" s.world).1 in
              let s' : NodeState H = record {
                world = w;
                effects = Effect.mkdir_temp (ok dir) ∷ s.effects;
              } in
              elim (Bool-cases (dir == p)) [
                | inl here ↦ absurd (ground (arith, built, made, here, ok_removal, h))
                | inr other ↦
                    ground (arith, built, made, other, h, load_layout_keeps p dir img tag s' other)
              ]
        ]
      ]

  -- However localLoad ends, what it made on the disk is removed again: nothing remains at a path where
  -- nothing remained before and no removal failed.
  pub local_load_cleans :
      (tar container tag p : String) (s : NodeState H)
      → remains p s.effects ≡ false
      → refused p (run (local_load H tar container tag) s).1.effects ≡ false
      → remains p (run (local_load H tar container tag) s).1.effects ≡ false
  local_load_cleans tar container tag p s before removable =
      let after = run (local_load H tar container tag) s in
      elim (Bool-cases (remains p after.1.effects)) [
        | inl new ↦ cc (before, local_load_old tar container tag p s removable new)
        | inr none_new ↦ none_new
      ]

module _ (H : Host) where
  -- The path at which an upload is stored in the state.
  abbrev pub upload_path : UploadHandler → NodeState H → String
  upload_path h s = h.storage_dir <> "/checkpoint-" <> H.format_int (H.unix_nano s.world) <> ".tar"

  -- An upload whose file could be created, and whose removal did not fail, leaves that file behind
  -- exactly if it is not answered 200.
  pub take_upload_leaves :
      (h : UploadHandler) (file : H.Upload) (container : String) (s : NodeState H)
      → let tar = upload_path h s in
        let (answer, s') = run (take_upload H h file container) s in
        (H.create_file tar s.world).0 ≡ none
        → refused tar s'.effects ≡ false
        → remains tar s'.effects ≡ not (nat_eq answer.status 200)
  unfolding ◌>>=◌ take_upload store_upload write_oci_layout load_uploaded unix_nano create_file
      write_file build_image mkdir_all write_layout append_image execute remove remove_all skip
      return_if_error value_or_return
  take_upload_leaves h file container s e removable =
      let tar = upload_path h s in
      let other = ne→==_false (layout_dir tar) tar (append_ne_self tar "-oci" (λ e. cc)) in
      ground (arith, e, removable, other, ==_self tar)

  take_upload_cleans :
      (h : UploadHandler) (file : H.Upload) (container p : String) (s : NodeState H)
      → (run (take_upload H h file container) s).0.status ≡ 200
      → refused p (run (take_upload H h file container) s).1.effects ≡ false
      → remains p (run (take_upload H h file container) s).1.effects ≡ true
      → remains p s.effects ≡ true
  unfolding ◌>>=◌ take_upload store_upload write_oci_layout load_uploaded unix_nano create_file
      write_file build_image mkdir_all write_layout append_image execute remove remove_all skip
      return_if_error value_or_return
  take_upload_cleans h file container p s done removable e = ground arith

  serve_http_cleans :
      (h : UploadHandler) (r : HttpRequest H.Upload) (p : String) (s : NodeState H)
      → (run (serve_http H h r) s).0.status ≡ 200
      → refused p (run (serve_http H h r) s).1.effects ≡ false
      → remains p (run (serve_http H h r) s).1.effects ≡ true
      → remains p s.effects ≡ true
  unfolding ◌>>=◌ serve_http skip value_or_return
  serve_http_cleans h r p s done removable e = elim (Bool-cases (r.method == "POST")) [
    | inr other ↦ ground (arith, other)
    | inl post ↦ elim (Result-cases r.form) [
      | inr (x, bad) ↦ ground (arith, post, bad)
      | inl (form, good) ↦ elim (Result-cases form.checkpoint) [
        | inr (x, bad) ↦ ground (arith, post, good, bad)
        | inl (file, there) ↦
            let container = form_value "containerName" form.values in
            ground (arith, post, good, there, take_upload_cleans h file container p s)
      ]
    ]
  ]

  handle_local_load_old :
      (r : HttpRequest H.Upload) (p : String) (s : NodeState H)
      → refused p (run (handle_local_load H r) s).1.effects ≡ false
      → remains p (run (handle_local_load H r) s).1.effects ≡ true
      → remains p s.effects ≡ true
  handle_local_load_old r p s removable e = elim (accept_cases H r s decode_load) [
    | inr (x, refused) ↦ rw (handle_local_load_refused H r s x refused) at e
    | inl (q, a) ↦
        let body = local_load H q.tar_path q.container_name q.image_tag in
        let same = handle_local_load_goes_on H r s q a in
        let left = (carry_out_lem H "local-load" body s).1 in
        local_load_old H q.tar_path q.container_name q.image_tag p s (rw (same, left) at removable)
          (rw (same, left) at e)
  ]

  registry_push_keeps :
      (tar container ref p : String) (insecure : Bool) (s : NodeState H)
      → remains p (run (registry_push H tar container ref insecure) s).1.effects
        ≡ remains p s.effects
  unfolding ◌>>=◌ registry_push build_image value_or_return push_image return_if_error
  registry_push_keeps tar container ref p insecure s = ground arith

  handle_registry_push_cleans :
      (r : HttpRequest H.Upload) (p : String) (s : NodeState H)
      → remains p (run (handle_registry_push H r) s).1.effects ≡ true
      → remains p s.effects ≡ true
  handle_registry_push_cleans r p s e = elim (accept_cases H r s decode_push) [
    | inr (x, refused) ↦ rw (handle_registry_push_refused H r s x refused) at e
    | inl (q, a) ↦
        let body = registry_push H q.tar_path q.container_name q.image_ref q.insecure in
        let same = handle_registry_push_goes_on H r s q a in
        let left = (carry_out_lem H "registry-push" body s).1 in
        let kept = registry_push_keeps q.tar_path q.container_name q.image_ref p q.insecure s in
        rw (same, left, kept) at e
  ]

  serve_old :
      (h : UploadHandler) (r : HttpRequest H.Upload) (p : String) (s : NodeState H)
      → (run (serve H h r) s).0.status ≡ 200
      → refused p (run (serve H h r) s).1.effects ≡ false
      → remains p (run (serve H h r) s).1.effects ≡ true
      → remains p s.effects ≡ true
  unfolding serve pure
  serve_old h r p s = elim (Bool-cases (r.path == "/checkpoint")) [
    | inl c ↦ rw c (serve_http_cleans h r p s)
    | inr c ↦ elim (Bool-cases (r.path == "/local-load")) [
      | inl l ↦ rw (c, l) (λ _. handle_local_load_old r p s)
      | inr l ↦ elim (Bool-cases (r.path == "/registry-push")) [
        | inl g ↦ rw (c, l, g) (λ _ _. handle_registry_push_cleans r p s)
        | inr g ↦ rw (c, l, g) (λ _ _ e. e)
      ]
    ]
  ]

  -- A request that is answered 200, whichever its path, leaves nothing on the disk at a path where
  -- nothing remained before and no removal failed: no file, no directory and no layout.
  pub serve_cleans :
      (h : UploadHandler) (r : HttpRequest H.Upload) (p : String) (s : NodeState H)
      → (run (serve H h r) s).0.status ≡ 200
      → remains p s.effects ≡ false
      → refused p (run (serve H h r) s).1.effects ≡ false
      → remains p (run (serve H h r) s).1.effects ≡ false
  serve_cleans h r p s done before removable =
      elim (Bool-cases (remains p (run (serve H h r) s).1.effects)) [
        | inl new ↦ cc (before, serve_old h r p s done removable new)
        | inr none_new ↦ none_new
      ]
