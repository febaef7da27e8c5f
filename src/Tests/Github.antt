-- ===== src/Tests/Github.antt =====
-- Check runs.
use etok.Base.{
  ℕ, zero, suc, String, true, false, ◌≡◌, ◌+◌, refl, Option, some, none, List, [], ◌∷◌, length,
  arith,
}
use etok.Api.Run.{Run}
use etok.Kube.{err}
use etok.RunPod.{named}
use etok.RunController.Manage.{set_condition, waiting}
use etok.RunController.Turns.{timed_out}
use etok.CheckRun.{
  CheckRun, CheckSuite, CheckRunEvent, target_plan, new_plan_path, etok_run_name, current_iteration,
  is_completed, set_iteration_status,
}
use etok.CheckRun.Laws.{received, target_plan-apply, is_completed-set_iteration_status}
use etok.CheckRun.Update.{CheckRunUpdate, Matchers, status, conclusion}
use etok.CheckRun.Details.Laws.{IsTrim}
use etok.Tests.Data.{api, run_named, with_conditions, finished, workspace}

abbrev pub event : Option String → CheckRunEvent
event action = record {
  created = none;
  rerequested = false;
  requested_action = action;
  completed = false;
}

abbrev pub check_run : CheckRun
check_run = record {
  metadata = named "check" "dev";
  spec = record {
    check_suite_ref = record { name = "suite"; rerequest_number = 0 };
    workspace = "ws";
  };
  status = record {
    events = record (event none) { created = some 1 } ∷ event (some "plan") ∷ [];
    iterations = [];
    status = "queued";
    conclusion = none;
    conditions = [];
  };
}

abbrev uncreated : CheckRun
uncreated = record check_run {
  status = record (check_run.status) { events = event (some "plan") ∷ [] };
}

abbrev pub suite : CheckSuite
suite = record {
  metadata = named "suite" "";
  spec = record {
    id = 1;
    branch = "main";
    sha = "abc";
    owner = "leg100";
    repo = "etok";
    clone_url = "";
    install_id = 1;
    rerequests = 0;
  };
  status = record { repo_path = "/repo"; mergeable = true };
}

abbrev pub update_of : Run → ℕ → CheckRunUpdate
update_of run max = record {
  check_run = check_run;
  suite = suite;
  ws = workspace;
  run = some run;
  logs = 97 ∷ 10 ∷ 98 ∷ [];
  reconcile_err = none;
  strip_refreshing = false;
  max_field_size = max;
}

abbrev matchers : Matchers
matchers = record {
  plan_no_changes = λ out. true;
  plan_changes = λ out. none;
  parse_int = λ text. err "not a number";
  remove_refreshing = λ out. out;
  trim_space = λ out. out;
}

matchers-IsTrim : IsTrim matchers
matchers-IsTrim out = omega arith

target_plan-apply_example :
    target_plan (received (event (some "apply")) check_run)
    ≡ new_plan_path (etok_run_name check_run)
target_plan-apply_example = target_plan-apply (event (some "apply")) check_run refl

is_completed-set_iteration_status_example :
    (is_completed (set_iteration_status true check_run) ≡ true)
    × (length (set_iteration_status true check_run).status.iterations
        ≡ current_iteration check_run + 1)
is_completed-set_iteration_status_example =
    is_completed-set_iteration_status true check_run (omega arith)

abbrev done_run : Run
done_run = with_conditions (finished ∷ []) (run_named "check-1" "sh")

abbrev late_run : Run
late_run =
    set_condition api 3 (set_condition api 3 (run_named "check-1" "sh") (waiting none))
      (timed_out none)

abbrev block : List ℕ
block = 96 ∷ 96 ∷ 96 ∷ 116 ∷ 101 ∷ 120 ∷ 116 ∷ 10 ∷ 97 ∷ 10 ∷ 98 ∷ 10 ∷ 96 ∷ 96 ∷ 96 ∷ 10 ∷ []

abbrev letters : ℕ → List ℕ
letters zero = []
letters (suc n) = 97 ∷ letters n
