-- ===== src/System/Exclusion.antt =====
-- One command at a time: of the queueable runs of a workspace only the active one has a pod.
use etok.Base.{◌≡◌, true, false}
use etok.Commands.{is_queueable}
use etok.Api.Run.{Run, is_done}
use etok.Kube.{Client}
use etok.RunController.Pods.{HasPod}
use etok.System.{System}

-- A queueable run of the workspace that is under way: not done, with a pod.
abbrev pub IsUnderWay : (k : Client) → System k.State → Run → Type 0
IsUnderWay k w run =
    (run.workspace ≡ w.workspace.name)
    × (is_queueable run.command ≡ true)
    × (is_done run ≡ false)
    × HasPod k w.cluster run
