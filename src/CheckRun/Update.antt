-- ===== src/CheckRun/Update.antt =====
-- cmd/github/check_run_update.go and parse_plan_output.go: what is sent to Github for a check run.
pub mod Laws
use etok.Base.{
  ℕ, zero, suc, ◌+◌, ◌-◌, String, ◌<>◌, Bool, true, false, ◌&&◌, ◌||◌, not, Option, none, some,
  List, [], ◌∷◌, ◌++◌, ◌==◌, if◌then◌else◌, nat_eq, leb, ltb, length, drop,
}
use etok.Base.FilePath.{itoa}
use etok.Api.Meta.{
  Condition, ConditionStatus, is_true, is_false, ConditionApi, run_failed_condition,
  run_complete_condition, pod_pending_reason, pod_running_reason, pod_failed_reason,
  run_enqueue_timeout_reason, queue_timeout_reason,
}
use etok.Api.Run.{Run}
use etok.Api.Workspace.{Workspace}
use etok.Kube.{Error, Result, ok, err}
use etok.CheckRun.{
  CheckRun, CheckSuite, CheckRunCommand, plan_cmd, apply_cmd, is_created, command, etok_run_name,
}

-- The logs are bytes.
pub record CheckRunUpdate : Type 0 where
  pub check_run : CheckRun
  pub suite : CheckSuite
  pub ws : Workspace
  pub run : Option Run
  pub logs : List ℕ
  pub reconcile_err : Option Error
  pub strip_refreshing : Bool
  pub max_field_size : ℕ

pub record Plan : Type 0 where
  pub adds : ℕ
  pub changes : ℕ
  pub deletions : ℕ

-- The regular expressions, strconv.ParseInt and bytes.TrimSpace.
pub record Matchers : Type 0 where
  pub plan_no_changes : List ℕ → Bool
  pub plan_changes : List ℕ → Option (String × String × String)
  pub parse_int : String → Result ℕ
  pub remove_refreshing : List ℕ → List ℕ
  pub trim_space : List ℕ → List ℕ

unfoldable pub summary_of : Plan → String
summary_of p = "+" <> (itoa p.adds <> ("/~" <> (itoa p.changes <> ("/−" <> itoa p.deletions))))

abbrev pub no_changes : Plan
no_changes = record { adds = 0; changes = 0; deletions = 0 }

unfoldable pub has_no_changes : Plan → Bool
has_no_changes p = nat_eq p.adds 0 && nat_eq p.changes 0 && nat_eq p.deletions 0

abbrev bind_result {ℓ} : {A : Type 0} {B : Type ℓ} → Result A → (Error → B) → (A → B) → B
bind_result (err e) f g = f e
bind_result (ok a) f g = g a

module _ (x : Matchers) where
  parse_changes : Option (String × String × String) → Result Plan
  parse_changes none = err "regexes unexpectedly did not match plan output"
  parse_changes (some (a, c, d)) = bind_result (x.parse_int a) err (λ adds.
      bind_result (x.parse_int c) err (λ changes.
        bind_result (x.parse_int d) err
          (λ deletions. ok (record { adds = adds; changes = changes; deletions = deletions }))))

  unfoldable pub parse_plan_output : List ℕ → Result Plan
  unfolding parse_changes
  parse_plan_output output =
      if x.plan_no_changes output then ok no_changes else parse_changes (x.plan_changes output)

abbrev pub status_of_complete : Option Condition → String
status_of_complete none = "queued"
status_of_complete (some cond) =
    if is_true cond.status
    then "completed"
    else if is_false cond.status
        && (cond.reason == pod_pending_reason || cond.reason == pod_running_reason)
    then "in_progress"
    else "queued"

abbrev pub status_of : ConditionApi → Option Run → String
status_of m none = "queued"
status_of m (some run) =
    if m.is_status_condition_true run.conditions run_failed_condition
    then "completed"
    else status_of_complete (m.find_status_condition run.conditions run_complete_condition)

unfoldable pub status : ConditionApi → CheckRunUpdate → String
status m u = status_of m u.run

-- The conclusion of a run from its first condition alone.
abbrev pub conclusion_of_first : Condition → Option String
conclusion_of_first cond =
    if cond.type == run_failed_condition && is_true cond.status
    then (if cond.reason == run_enqueue_timeout_reason || cond.reason == queue_timeout_reason
        then some "timed_out"
        else some "failure")
    else if cond.type == run_complete_condition && is_true cond.status
    then (if cond.reason == pod_failed_reason then some "failure" else some "success")
    else none

-- The conditions of an update whose status is completed are not empty.
abbrev pub conclusion_of : Option Run → Option String
conclusion_of none = none
conclusion_of (some run) = elim (run.conditions) [
  | [] ↦ none
  | cond ∷ conds ↦ conclusion_of_first cond
]

unfoldable pub conclusion : ConditionApi → CheckRunUpdate → Option String
unfolding status
conclusion m u = if not (status m u == "completed") then none else conclusion_of u.run

abbrev pub message_of_first : Condition → Option String
message_of_first cond =
    if cond.type == run_failed_condition && is_true cond.status then some cond.message else none

abbrev pub message_of : Option Run → Option String
message_of none = none
message_of (some run) = elim (run.conditions) [ [] ↦ none | cond ∷ conds ↦ message_of_first cond ]

unfoldable pub failure_message : ConditionApi → CheckRunUpdate → Option String
unfolding status
failure_message m u = if not (status m u == "completed") then none else message_of u.run

pub record Action : Type 0 where
  pub label : String
  pub description : String
  pub identifier : String

abbrev pub plan_action : Action
plan_action = record { label = "Plan"; description = "Re-run plan"; identifier = "plan" }

abbrev pub apply_action : Action
apply_action = record { label = "Apply"; description = "Apply plan"; identifier = "apply" }

abbrev pub is_plan : CheckRunCommand → Bool
is_plan plan_cmd = true
is_plan apply_cmd = false

unfoldable pub actions : ConditionApi → CheckRunUpdate → List Action
unfolding status
actions m u =
    if not (status m u == "completed")
    then []
    else if is_plan (command u.check_run) && u.suite.status.mergeable
    then plan_action ∷ apply_action ∷ []
    else plan_action ∷ []

-- The end of the name of a completed plan: its changes, or that it failed.
abbrev outcome_of : Result Plan → String
outcome_of (err e) = "plan failed"
outcome_of (ok p) = summary_of p

abbrev name_of : Bool → CheckRunCommand → Result Plan → String
name_of true plan_cmd plan = outcome_of plan
name_of false plan_cmd plan = "planning"
name_of true apply_cmd plan = "applied"
name_of false apply_cmd plan = "applying"

unfoldable pub name : Matchers → ConditionApi → CheckRunUpdate → String
unfolding status parse_plan_output summary_of
name x m u =
    let name = u.check_run.namespace <> ("/" <> (u.ws.name <> " | ")) in
    if not (is_created u.check_run)
    then name <> "planning"
    else name
      <> name_of (status m u == "completed") (command u.check_run) (parse_plan_output x u.logs)

unfoldable pub external_id : CheckRunUpdate → String
external_id u = u.check_run.namespace <> ("/" <> u.check_run.name)

abbrev summary_without_message : CheckRunUpdate → Option Error → String
summary_without_message u (some e) = u.check_run.name <> (" reconcile error: " <> (e <> "\n"))
summary_without_message u none =
    "Note: you can also view logs by running: \n```bash\nkubectl logs -n "
    <> (u.check_run.namespace <> (" pods/" <> (etok_run_name u.check_run <> "\n```")))

abbrev summary_with : CheckRunUpdate → Option String → String
summary_with u (some msg) = etok_run_name u.check_run <> (" failed: " <> (msg <> "\n"))
summary_with u none = summary_without_message u u.reconcile_err

unfoldable pub summary : ConditionApi → CheckRunUpdate → String
unfolding failure_message
summary m u = summary_with u (failure_message m u)
