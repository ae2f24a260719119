-- ===== src/Controller/JobRuns.antt =====
-- The programs that the controller's two transfer Jobs start, run on the arguments that it gives them.
use text.Mathlib.Text.{starts_with}
use kubernetes_controller.Base.{String, ◌≡◌, ◌↔◌, true, false, Bool-cases, inl, inr, if◌then◌else◌}
use kubernetes_controller.Api.{StatefulMigration, is_direct}
use kubernetes_controller.Flow.{run}
use kubernetes_controller.NodeAgent
use kubernetes_controller.NodeAgent.Server
use kubernetes_controller.NodeAgent.Server.{exit}
use kubernetes_controller.NodeAgent.Laws.{Loaded}
use kubernetes_controller.NodeAgent.Answers.{main_load_iff}
use kubernetes_controller.Transfer.{Host, SendState}
use kubernetes_controller.Transfer.Send.{main}
use kubernetes_controller.Transfer.Laws.{Pushed, Posted, main_iff}
use kubernetes_controller.Controller.Phases.Transferring.{
  transfer_job, transfer_target, agent_url, image_ref,
}
use kubernetes_controller.Controller.Swap.Transfer.{swap_transfer_job}

-- What the transfer Job is to achieve: in the Direct mode the archive is posted to the agent, in the
-- other mode its image is pushed.
abbrev pub JobDone : (H : Host) → StatefulMigration → SendState H → SendState H → Type 0
JobDone H m s s' =
    let path = m.status.checkpoint_id in
    let container = m.status.container_name in
    if is_direct m.spec.transfer_mode
    then Posted H path (transfer_target m) container s s'
    else Pushed H path (image_ref m) container s s'

-- The Job of the phase Transferring exits with 0 exactly if the migration's transfer was made, in
-- either mode, as long as the image's reference does not start with "http".
pub transfer_job_iff :
    (H : Host) (m : StatefulMigration) (s : SendState H)
    → starts_with (image_ref m) "http" ≡ false
    → ((main H (transfer_job m).args s).0 ≡ 0) ↔ JobDone H m s (main H (transfer_job m).args s).1
transfer_job_iff H m s plain =
    let path = m.status.checkpoint_id in
    let container = m.status.container_name in
    elim (Bool-cases (is_direct m.spec.transfer_mode)) [
      | inl direct ↦ rw direct ((main_iff H path agent_url container s).0)
      | inr registry ↦ rw registry (rw plain at ((main_iff H path (image_ref m) container s).0))
    ]

-- A reference that starts with "http" is posted to instead: a Job that then exits with 0 has pushed no
-- image.
pub transfer_job_http :
    (H : Host) (m : StatefulMigration) (s : SendState H)
    → is_direct m.spec.transfer_mode ≡ false
    → starts_with (image_ref m) "http" ≡ true
    → ((main H (transfer_job m).args s).0 ≡ 0)
      ↔ Posted H m.status.checkpoint_id
          (image_ref m)
          m.status.container_name
          s
          (main H (transfer_job m).args s).1
transfer_job_http H m s registry http =
    let path = m.status.checkpoint_id in
    rw registry (rw http at ((main_iff H path (image_ref m) m.status.container_name s).0))

-- The Job of a swap exits with 0 exactly if the checkpoint was made an image and loaded on its node
-- under the tag that the controller gives.
pub swap_transfer_job_iff :
    (H : NodeAgent.Host) (m : StatefulMigration) (tag : String) (s : NodeAgent.NodeState H)
    → let result = run (Server.main H (swap_transfer_job m tag).args) s in
      (result.0 ≡ exit 0) ↔ Loaded H m.status.checkpoint_id m.status.container_name tag s result.1
swap_transfer_job_iff H m tag s =
    main_load_iff H m.status.checkpoint_id m.status.container_name tag s
