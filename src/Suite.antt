-- ===== src/Suite.antt =====
-- cmd/github: check suites. pkg/builders/check_run.go and check_suite.go.
pub mod Names
pub mod Repos
pub mod Reconcile
pub mod Events
use etok.Base.{
  ℕ, String, ◌<>◌, Bool, true, false, not, ◌&&◌, List, [], ◌∷◌, ◌++◌, none, some, ◌==◌,
  if◌then◌else◌,
}
use etok.Base.FilePath.{itoa}
use etok.Api.Meta.{ObjectMeta, Condition, condition_true, ConditionApi}
use etok.RunPod.{named}
use etok.CheckRun.{CheckRun, CheckSuite, CheckSuiteRef, CheckRunEvent}

pub record CheckRunBuilder : Type 0 where
  pub check_run : CheckRun
  pub workspace : String
  pub suite : ℕ

abbrev empty_check_run : CheckRun
empty_check_run = record {
  metadata = named "" "";
  spec = record { check_suite_ref = record { name = ""; rerequest_number = 0 }; workspace = "" };
  status = record { events = []; iterations = []; status = ""; conclusion = none; conditions = [] };
}

unfoldable pub check_run : CheckRunBuilder
check_run = record { check_run = empty_check_run; workspace = ""; suite = 0 }

unfoldable pub in_namespace : String → CheckRunBuilder → CheckRunBuilder
in_namespace namespace b = record b {
  check_run = record (b.check_run) {
    metadata = record (b.check_run.metadata) { namespace = namespace };
  };
}

unfoldable pub of_suite : ℕ → ℕ → CheckRunBuilder → CheckRunBuilder
of_suite suite rerequest b = record b {
  check_run = record (b.check_run) {
    spec = record (b.check_run.spec) {
      check_suite_ref = record { name = itoa suite; rerequest_number = rerequest };
    };
  };
  suite = suite;
}

unfoldable pub of_workspace : String → CheckRunBuilder → CheckRunBuilder
of_workspace workspace b = record b {
  check_run = record (b.check_run) { spec = record (b.check_run.spec) { workspace = workspace } };
  workspace = workspace;
}

-- The name of a check run, from its suite, its rerequest number and its workspace.
unfoldable pub check_run_name : ℕ → ℕ → String → String
check_run_name suite rerequest workspace =
    itoa suite <> ("-" <> (itoa rerequest <> ("-" <> workspace)))

unfoldable pub build : CheckRunBuilder → CheckRun
build b = record (b.check_run) {
  metadata = record (b.check_run.metadata) {
    name = check_run_name b.suite b.check_run.spec.check_suite_ref.rerequest_number b.workspace;
  };
}

unfoldable pub create_requested : ConditionApi → ℕ → CheckRunBuilder → CheckRunBuilder
create_requested m now b = record b {
  check_run = record (b.check_run) {
    status = record (b.check_run.status) {
      conditions = m.set_status_condition now b.check_run.status.conditions (record {
        type = "CreateRequested";
        status = condition_true;
        reason = "CreateRequestSent";
        message = "Create request has been sent to the Github API";
        last_transition_time = 0;
      });
    };
  };
}

unfoldable pub with_id : ℕ → CheckRunBuilder → CheckRunBuilder
with_id id b = record b {
  check_run = record (b.check_run) {
    status = record (b.check_run.status) {
      events =
          b.check_run.status.events
          ++ record {
            created = some id;
            rerequested = false;
            requested_action = none;
            completed = false;
          }
            ∷ [];
    };
  };
}

-- The part of the events and objects of Github that the program reads. A getter of the Github
-- library answers the empty value for a part that is missing.
pub record GithubSuite : Type 0 where
  pub id : ℕ
  pub head_sha : String
  pub head_branch : String
  -- The mergeable state of each pull request.
  pub pull_requests : List String
  -- Of its repository.
  pub clone_url : String
  pub owner : String
  pub repo : String

pub record GithubRepo : Type 0 where
  pub clone_url : String
  pub owner : String
  pub name : String

unfoldable pub is_mergeable_state : String → Bool
is_mergeable_state state =
    not (not (state == "clean") && (not (state == "unstable") && not (state == "has_hooks")))

unfoldable pub is_mergeable : List String → Bool
unfolding is_mergeable_state
is_mergeable [] = true
is_mergeable (state ∷ pulls) =
    let rest = is_mergeable pulls in
    if not (state == "clean") && (not (state == "unstable") && not (state == "has_hooks"))
    then false
    else rest

abbrev suite_of : ℕ → String → ℕ → String → String → String → String → Bool → CheckSuite
suite_of id clone_url install_id sha owner repo branch mergeable = record {
  metadata = named (itoa id) "";
  spec = record {
    id = id;
    branch = branch;
    sha = sha;
    owner = owner;
    repo = repo;
    clone_url = clone_url;
    install_id = install_id;
    rerequests = 0;
  };
  status = record { repo_path = ""; mergeable = mergeable };
}

unfoldable pub check_suite : ℕ → CheckSuite
check_suite id = record {
  metadata = named (itoa id) "";
  spec = record {
    id = 0;
    branch = "";
    sha = "";
    owner = "";
    repo = "";
    clone_url = "";
    install_id = 0;
    rerequests = 0;
  };
  status = record { repo_path = ""; mergeable = false };
}

unfoldable pub check_suite_from_event : GithubSuite → GithubRepo → ℕ → CheckSuite
unfolding is_mergeable
check_suite_from_event suite repo install_id =
    suite_of suite.id repo.clone_url install_id suite.head_sha repo.owner repo.name
      suite.head_branch (is_mergeable suite.pull_requests)

unfoldable pub check_suite_from_obj : GithubSuite → CheckSuite
unfolding is_mergeable
check_suite_from_obj obj =
    suite_of obj.id obj.clone_url 0 obj.head_sha obj.owner obj.repo obj.head_branch
      (is_mergeable obj.pull_requests)

unfoldable pub with_clone_url : String → CheckSuite → CheckSuite
with_clone_url url suite = record suite { spec = record (suite.spec) { clone_url = url } }

unfoldable pub with_install_id : ℕ → CheckSuite → CheckSuite
with_install_id id suite = record suite { spec = record (suite.spec) { install_id = id } }

unfoldable pub with_repo_path : String → CheckSuite → CheckSuite
with_repo_path path suite = record suite { status = record (suite.status) { repo_path = path } }
