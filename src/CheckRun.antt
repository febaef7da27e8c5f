-- ===== src/CheckRun.antt =====
-- cmd/github: check runs. api/etok.dev/v1alpha1/check_run_types.go, check_suite_types.go, and
-- check_run.go, check_run_command.go and plan_path.go.
pub mod Update
pub mod Details
pub mod Controller
pub mod Send
pub mod Laws
use etok.Base.{
  ℕ, zero, suc, ◌+◌, ◌-◌, String, ◌<>◌, Bool, true, false, ◌&&◌, ◌||◌, Option, none, some, List, [],
  ◌∷◌, ◌++◌, ◌==◌, if◌then◌else◌, nat_eq, length, get_elem?,
}
use etok.Base.FilePath.{path_join, itoa}
use etok.Api.Meta.{ObjectMeta, Condition, condition_true, ConditionApi}
use etok.RunPod.{plans_mount_path}

-- Each field of an event is an optional part.
pub record CheckRunEvent : Type 0 where
  pub created : Option ℕ
  pub rerequested : Bool
  pub requested_action : Option String
  pub completed : Bool

pub record CheckRunIteration : Type 0 where
  pub run : String
  pub completed : Bool

pub record CheckRunStatus : Type 0 where
  pub events : List CheckRunEvent
  pub iterations : List CheckRunIteration
  pub status : String
  pub conclusion : Option String
  pub conditions : List Condition

pub record CheckSuiteRef : Type 0 where
  pub name : String
  pub rerequest_number : ℕ

pub record CheckRunSpec : Type 0 where
  pub check_suite_ref : CheckSuiteRef
  pub workspace : String

pub record CheckRun : Type 0 where
  pub metadata : ObjectMeta
  pub open metadata use *
  pub spec : CheckRunSpec
  pub status : CheckRunStatus

pub record CheckSuiteSpec : Type 0 where
  pub id : ℕ
  pub branch : String
  pub sha : String
  pub owner : String
  pub repo : String
  pub clone_url : String
  pub install_id : ℕ
  pub rerequests : ℕ

pub record CheckSuiteStatus : Type 0 where
  pub repo_path : String
  pub mergeable : Bool

pub record CheckSuite : Type 0 where
  pub metadata : ObjectMeta
  pub open metadata use *
  pub spec : CheckSuiteSpec
  pub status : CheckSuiteStatus

id_loop : List CheckRunEvent → Option ℕ
id_loop [] = none
id_loop (ev ∷ events) =
    let rest = id_loop events in elim (ev.created) [ some i ↦ some i | none ↦ rest ]

unfoldable pub id : CheckRun → Option ℕ
unfolding id_loop
id cr = id_loop cr.status.events

abbrev pub is_some {ℓ} : {A : Type ℓ} → Option A → Bool
is_some none = false
is_some (some a) = true

unfoldable pub is_created : CheckRun → Bool
unfolding id
is_created cr = is_some (id cr)

unfoldable pub is_create_requested : ConditionApi → CheckRun → Bool
is_create_requested m cr = is_some (m.find_status_condition cr.status.conditions "CreateRequested")

abbrev pub create_requested : Condition
create_requested = record {
  type = "CreateRequested";
  status = condition_true;
  reason = "CreateRequestSent";
  message = "Create request has been sent to the Github API";
  last_transition_time = 0;
}

unfoldable pub set_create_requested : ConditionApi → ℕ → CheckRun → CheckRun
set_create_requested m now cr = record cr {
  status = record (cr.status) {
    conditions = m.set_status_condition now cr.status.conditions create_requested;
  };
}

-- Whether an event asks for another iteration.
abbrev pub is_request : CheckRunEvent → Bool
is_request ev = ev.rerequested || is_some ev.requested_action

unfoldable pub iteration_loop : ℕ → List CheckRunEvent → ℕ
iteration_loop i [] = i
iteration_loop i (ev ∷ events) = iteration_loop (if is_request ev then suc i else i) events

unfoldable pub current_iteration : CheckRun → ℕ
unfolding iteration_loop
current_iteration cr = iteration_loop 0 cr.status.events

abbrev pub completed_at : Option CheckRunIteration → Bool
completed_at none = false
completed_at (some iteration) = iteration.completed

-- The index is in range where the lengths agree.
unfoldable pub is_completed : CheckRun → Bool
unfolding current_iteration
is_completed cr =
    if nat_eq (length cr.status.iterations) (current_iteration cr + 1)
    then completed_at (get_elem? cr.status.iterations (current_iteration cr))
    else false

unfoldable pub set_status : String → CheckRun → CheckRun
set_status status cr = record cr { status = record (cr.status) { status = status } }

unfoldable pub set_conclusion : Option String → CheckRun → CheckRun
set_conclusion conclusion cr = record cr { status = record (cr.status) { conclusion = conclusion } }

unfoldable pub last_event : List CheckRunEvent → Option CheckRunEvent
last_event [] = none
last_event (ev ∷ []) = some ev
last_event (ev ∷ next ∷ events) = last_event (next ∷ events)

unfoldable pub current_event : CheckRun → Option CheckRunEvent
unfolding last_event
current_event cr = last_event cr.status.events

unfoldable pub etok_run_name_by_iteration : CheckRun → ℕ → String
etok_run_name_by_iteration cr i = cr.name <> ("-" <> itoa i)

unfoldable pub etok_run_name : CheckRun → String
unfolding current_iteration etok_run_name_by_iteration
etok_run_name cr = etok_run_name_by_iteration cr (current_iteration cr)

-- The loop of `setIterationStatus` that fills the iterations up, on its rounds left.
unfoldable pub populate : CheckRun → ℕ → ℕ → List CheckRunIteration → List CheckRunIteration
populate cr zero i iterations = iterations
populate cr (suc rounds) i iterations =
    populate cr rounds (suc i)
      (iterations ++ (record { run = etok_run_name_by_iteration cr i; completed = false } ∷ []))

unfoldable pub complete_at : ℕ → Bool → List CheckRunIteration → List CheckRunIteration
complete_at i completed [] = []
complete_at zero completed (iteration ∷ iterations) =
    record iteration { completed = completed } ∷ iterations
complete_at (suc i) completed (iteration ∷ iterations) =
    iteration ∷ complete_at i completed iterations

unfoldable pub set_iteration_status : Bool → CheckRun → CheckRun
unfolding populate complete_at current_iteration
set_iteration_status completed cr =
    let n = length cr.status.iterations in
    let i = current_iteration cr in
    record cr {
      status = record (cr.status) {
        iterations = complete_at i completed (populate cr (i + 1 - n) n cr.status.iterations);
      };
    }

pub data CheckRunCommand : Type 0 where
  plan_cmd apply_cmd : CheckRunCommand

abbrev pub command_of_action : Option String → CheckRunCommand
command_of_action none = plan_cmd
command_of_action (some action) = if action == "apply" then apply_cmd else plan_cmd

abbrev pub command_of : Option CheckRunEvent → CheckRunCommand
command_of none = plan_cmd
command_of (some ev) = command_of_action ev.requested_action

unfoldable pub command : CheckRun → CheckRunCommand
unfolding current_event
command cr = command_of (current_event cr)

unfoldable pub new_plan_path : String → String
new_plan_path name = path_join (plans_mount_path ∷ name ∷ [])

-- An apply is asked for by an event that counts as an iteration, so there is one before it.
abbrev target_of : CheckRunCommand → CheckRun → String
target_of plan_cmd cr = new_plan_path (etok_run_name cr)
target_of apply_cmd cr = new_plan_path (etok_run_name_by_iteration cr (current_iteration cr - 1))

unfoldable pub target_plan : CheckRun → String
unfolding command
target_plan cr = target_of (command cr) cr

abbrev pub init_cmd : String
init_cmd = "terraform init -no-color -input=false"

abbrev script_of : CheckRunCommand → String → String
script_of plan_cmd plan = init_cmd <> (" && terraform plan -no-color -input=false -out=" <> plan)
script_of apply_cmd plan = init_cmd <> (" && terraform apply -no-color -input=false " <> plan)

unfoldable pub script : CheckRun → String
unfolding target_plan
script cr = script_of (command cr) (target_plan cr)
