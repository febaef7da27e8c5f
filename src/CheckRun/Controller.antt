-- ===== src/CheckRun/Controller.antt =====
-- cmd/github/check_run_controller.go
pub mod Laws
use etok.Base.{
  ℕ, String, Bool, true, false, ◌||◌, not, Option, none, some, List, [], ◌∷◌, ◌==◌, if◌then◌else◌,
}
use etok.Base.FilePath.{path_join}
use etok.Labels.{Version}
use etok.Builders.{run_builder, labelled, build, no_run_status}
use etok.Api.Meta.{ObjectMeta, ConditionApi}
use etok.Api.Run.{Run, is_streamable}
use etok.Api.Workspace.{Workspace}
use etok.Kube
use etok.Kube.{Error, Get, Result, ok, err, ConfigMap, run_object, config_map_object, Client}
use etok.RunPod.{named}
use etok.RunController.Reconcile.{Outcome, done}
use etok.CheckRun.{
  CheckRun, CheckSuite, is_created, is_create_requested, set_create_requested, set_status,
  set_conclusion, set_iteration_status, etok_run_name, script,
}
use etok.CheckRun.Update.{CheckRunUpdate, status, conclusion}

-- What the reconciler calls beside the client: reads and writes of check resources, the logs of a
-- pod, the archive of a directory, and the sender to Github. Logs may end in an error.
pub record CheckClient (S : Type 0) : Type 0 where
  pub get_check_run : String → String → S → Get CheckRun
  pub get_check_suite : String → S → Get CheckSuite
  pub update_check_run_status : CheckRun → S → Result CheckRun × S
  pub set_run_owner : CheckRun → ObjectMeta → Result ObjectMeta
  pub stream : String → String → S → List ℕ × Option Error
  pub archive : String → String → String → String → S → Result ConfigMap
  pub send : ℕ → CheckRunUpdate → S → Option Error × S

-- Whether to send to Github, and the check run with the request recorded.
unfoldable pub decide_send : ConditionApi → ℕ → CheckRun → Bool × CheckRun
decide_send m now cr =
    if is_created cr
    then (true, cr)
    else if not (is_create_requested m cr)
    then (true, set_create_requested m now cr)
    else (false, cr)

-- The status, the conclusion and the iteration that the reconciler records.
unfoldable pub reported : ConditionApi → CheckRunUpdate → CheckRun → CheckRun
reported m u cr =
    set_iteration_status (status m u == "completed")
      (set_conclusion (conclusion m u) (set_status (status m u) cr))

abbrev default_max_field_size : ℕ
default_max_field_size = 65535

-- The run object before it is read.
abbrev unread_run : String → String → Run
unread_run namespace name = record {
  metadata = named name namespace;
  spec = record {
    command = "";
    args = [];
    config_map = "";
    config_map_key = "";
    workspace = "";
    verbosity = 0;
    attach_spec = record { handshake = false; handshake_timeout = "" };
  };
  run_status = no_run_status;
}

module _ (k : Client) (c : CheckClient k.State) (version : Version) (now : ℕ) where
  created : ConfigMap → Option Error × k.State → Option Error × k.State
  created config_map (some e, s) = (some e, s)
  created config_map (none, s) = k.create (config_map_object config_map) s

  owned : ConfigMap → Run → Result ObjectMeta → k.State → Option Error × k.State
  unfolding created
  owned config_map run (err e) s = (some e, s)
  owned config_map run (ok meta) s =
      created config_map (k.create (run_object (record run { metadata = meta })) s)

  archived : CheckRun → Workspace → Result ConfigMap → k.State → Option Error × k.State
  unfolding owned
  archived cr ws (err e) s = (some e, s)
  archived cr ws (ok config_map) s =
      let run = build version (
        labelled "app.kubernetes.io/created-by" "checkrun-controller"
          (run_builder cr.namespace (etok_run_name cr) ws.name "sh" (script cr ∷ []))) in
      owned config_map run (c.set_run_owner cr run.metadata) s

  unfoldable pub create_run_resources :
      CheckSuite → CheckRun → Workspace → k.State → Option Error × k.State
  unfolding archived
  create_run_resources suite cr ws s =
      let dir = path_join (suite.status.repo_path ∷ ws.spec.vcs.working_dir ∷ []) in
      archived cr ws (c.archive cr.namespace (etok_run_name cr) dir suite.status.repo_path s) s

  sent : Option Error → Option Error × k.State → Outcome k.State
  sent reconcile_err (some e, s) = done (some e) s
  sent reconcile_err (none, s) = done reconcile_err s

  -- The status has been written; the update refers to the check run that the server answered.
  written : Bool → CheckRunUpdate → Result CheckRun × k.State → Outcome k.State
  unfolding sent
  written send u (err e, s) = done (some e) s
  written send u (ok cr, s) =
      if send
      then sent u.reconcile_err (c.send u.suite.spec.install_id (record u { check_run = cr }) s)
      else done u.reconcile_err s

  unfoldable pub publish : CheckRunUpdate → k.State → Outcome k.State
  unfolding written decide_send reported
  publish u s =
      let (send, cr) = decide_send k.conditions now u.check_run in
      written send u (c.update_check_run_status (reported k.conditions u cr) s)

  -- The field `stripRefreshing` of the update is not set by the reconciler.
  abbrev update_of :
      CheckSuite → CheckRun → Workspace → Run → List ℕ → Option Error → CheckRunUpdate
  update_of suite cr ws run logs reconcile_err = record {
    check_run = cr;
    suite = suite;
    ws = ws;
    run = some run;
    logs = logs;
    reconcile_err = reconcile_err;
    strip_refreshing = false;
    max_field_size = default_max_field_size;
  }

  made : CheckSuite → CheckRun → Workspace → Option Error × k.State → Outcome k.State
  unfolding publish
  made suite cr ws (failure, s) =
      publish (update_of suite cr ws (unread_run cr.namespace (etok_run_name cr)) [] failure) s

  with_run : CheckSuite → CheckRun → Workspace → Get Run → k.State → Outcome k.State
  unfolding made publish create_run_resources
  with_run suite cr ws (Kube.Get.failed e) s = done (some e) s
  with_run suite cr ws Kube.Get.not_found s = made suite cr ws (create_run_resources suite cr ws s)
  with_run suite cr ws (Kube.Get.found run) s =
      let (logs, failure) = c.stream run.namespace run.name s in
      if is_streamable run
      then publish (update_of suite cr ws run logs failure) s
      else publish (update_of suite cr ws run [] none) s

  with_workspace : CheckSuite → CheckRun → Get Workspace → k.State → Outcome k.State
  unfolding with_run
  with_workspace suite cr Kube.Get.not_found s = done (some "not found") s
  with_workspace suite cr (Kube.Get.failed e) s = done (some e) s
  with_workspace suite cr (Kube.Get.found ws) s =
      with_run suite cr ws (k.get_run cr.namespace (etok_run_name cr) s) s

  with_suite : String → CheckRun → Get CheckSuite → k.State → Outcome k.State
  unfolding with_workspace
  with_suite namespace cr Kube.Get.not_found s = done (some "not found") s
  with_suite namespace cr (Kube.Get.failed e) s = done (some e) s
  with_suite namespace cr (Kube.Get.found suite) s =
      with_workspace suite cr (k.get_workspace namespace cr.spec.workspace s) s

  unfoldable pub reconcile : String → String → k.State → Outcome k.State
  unfolding with_suite
  reconcile namespace name s = elim (c.get_check_run namespace name s) [
    | Kube.Get.not_found ↦ done none s
    | Kube.Get.failed e ↦ done (some e) s
    | Kube.Get.found cr ↦
        with_suite namespace cr (c.get_check_suite cr.spec.check_suite_ref.name s) s
  ]
