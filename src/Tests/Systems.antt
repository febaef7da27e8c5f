-- ===== src/Tests/Systems.antt =====
-- The namespace with both controllers: a run is created, approved, queued and given its pod.
use etok.Base.{
  String, false, ◌&&◌, ◌≡◌, refl, Option, some, none, List, [], ◌∷◌, ◌==◌, if◌then◌else◌,
}
use etok.Commands.{is_queueable}
use etok.Slice.{contains_string, string_index}
use etok.Api.Run.{Run, is_done, approved_annotation_key}
use etok.Api.Workspace.{is_run_approved}
use etok.Kube
use etok.Kube.{Error, Get, Result, ok, err, Object, Client, pod_object}
use etok.Kube.Pods.{Pod}
use etok.Launcher.{approved}
use etok.Queue.{update_combined_queue, filter_runs, reorder, move_to_front, is_enqueued}
use etok.Base.Dict.{lookup, insert}
use etok.RunController.Manage.{Step, step, manage_queue, manage_pod, manage_found, create_pod}
use etok.RunController.Reconcile.{process_chain, next_pod}
use etok.RunPod.{run_pod}
use etok.System.{System, Reconciliation, written}
use etok.Tests.Data.{api, run_named, workspace, version}

abbrev find_pod : String → String → List Pod → Get Pod
find_pod namespace name [] = Kube.Get.not_found
find_pod namespace name (pod ∷ pods) =
    let rest = find_pod namespace name pods in
    if pod.name == name && pod.namespace == namespace then Kube.Get.found pod else rest

abbrev create : Object → List Pod → Option Error × List Pod
create (pod_object pod) pods = (none, pod ∷ pods)
create _ pods = (none, pods)

-- A server that keeps pods only.
abbrev pods_only : Client
pods_only = record {
  State = List Pod;
  conditions = api;
  get_run = λ namespace name s. Kube.Get.not_found;
  get_workspace = λ namespace name s. Kube.Get.not_found;
  get_pod = find_pod;
  get_secret = λ namespace name s. Kube.Get.not_found;
  get_service_account = λ namespace name s. Kube.Get.not_found;
  get_config_map = λ namespace name s. Kube.Get.not_found;
  get_claim = λ namespace name s. Kube.Get.not_found;
  list_runs = λ namespace s. ok [];
  create = create;
  create_or_update = create;
  update_run = λ run s. (ok run, s);
  update_workspace = λ ws s. (ok ws, s);
  update = λ object s. (none, s);
  update_status = λ object s. (none, s);
  set_owner_reference = λ object meta. ok meta;
  set_controller_reference = λ object meta. ok meta;
  parse_group_version = λ version. some version;
  gvk_version = λ object. "v1";
  gvk_kind = λ object. "Pod";
}

abbrev run_b : Run
run_b = run_named "b" "apply"

abbrev start : System (List Pod)
start = record {
  workspace = record workspace {
    metadata = record (workspace.metadata) { annotations = [] };
    status = record (workspace.status) { active = ""; queue = [] };
  };
  runs = [];
  cluster = [];
}

abbrev with_run : System (List Pod)
with_run = record start { runs = run_b ∷ [] }

abbrev with_approval : System (List Pod)
with_approval = record with_run { workspace = approved with_run.workspace run_b }

abbrev with_queue : System (List Pod)
with_queue = record with_approval {
  workspace = update_combined_queue with_approval.workspace (run_b ∷ []);
}

abbrev passed : Step (List Pod)
passed = process_chain pods_only version "image" 3 4 run_b with_queue.workspace []

abbrev run_of : Step (List Pod) → Run
run_of (step r bail e s) = r
run_of _ = run_b

abbrev pods_of : Step (List Pod) → List Pod
pods_of (step r bail e s) = s
pods_of _ = []

run_b_going : is_done run_b ≡ false
unfolding is_done
run_b_going = refl

run_b_passes :
    process_chain pods_only version "image" 3 4 run_b with_queue.workspace []
    ≡ step (run_of passed) false none (pods_of passed)
unfolding process_chain next_pod manage_queue manage_pod manage_found create_pod run_pod
    is_queueable update_combined_queue filter_runs reorder move_to_front is_enqueued string_index
    approved is_run_approved contains_string lookup insert approved_annotation_key is_done
run_b_passes = refl

abbrev reconciliation : Reconciliation pods_only version "image" with_queue
reconciliation = record {
  now = 3;
  later = 4;
  index = 0;
  ws = with_queue.workspace;
  run = run_b;
  left = run_of passed;
  bail = false;
  failure = none;
  after = pods_of passed;
  listed = refl;
  going = run_b_going;
  own = λ e. refl;
  answer = run_b_passes;
}

abbrev with_pod : System (List Pod)
with_pod = record with_queue {
  runs = written pods_only run_b (run_of passed) ∷ [];
  cluster = pods_of passed;
}

abbrev given_pod : Run
given_pod = written pods_only run_b (run_of passed)
