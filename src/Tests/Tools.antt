-- ===== src/Tests/Tools.antt =====
-- The helpers: slices, commands, approval keys, pods and handlers.
use etok.Base.{
  Option, ◌<>◌, ◌++◌, ℕ, length, take, Bool, String, true, false, ◌≡◌, refl, some, none, List, [],
  ◌∷◌, ◌==◌,
}
use etok.Env.{Env}
use etok.Paths.{remove_nested_paths}
use etok.Paths.Laws.{is_covered, remove_nested_paths-covers}
use etok.Queue.{is_enqueued}
use etok.Api.Meta.{Condition, condition_true}
use etok.Api.Workspace.{Workspace}
use etok.Launcher.{LauncherOptions, new_run, approved}
use etok.Launcher.Laws.{is_enqueued-approved}
use etok.Commands.{is_queueable, updates_lock_file}
use etok.Api.Run.{Run}
use etok.Ignore.{Rule, default_exclusions, compile, match, match_ignore_rule, read_rules}
use etok.Ignore.Laws.{match_ignore_rule-append, read_rules-blank}
use etok.Kube
use etok.Runner.{RunnerOptions, ReadEnd, no_error, handshake_string, receive_handshake}
use etok.Runner.Laws.{delivered}
use etok.Runner.Execution.{System, run, run-handshake}
use etok.Tests.Data.{
  Cluster, cluster, cluster_with, version, run_named, with_conditions, finished, workspace,
}

abbrev words : List String
words = "a" ∷ "b" ∷ "a" ∷ []

abbrev launch : LauncherOptions
launch = record {
  args = [];
  namespace = "dev";
  workspace = "ws";
  run_name = "a";
  command = "apply";
  verbosity = 1;
  attach = true;
  status = none;
  disable_resource_cleanup = false;
}

is_enqueued-approved_example :
    is_enqueued (approved workspace (new_run version launch)) (new_run version launch) ≡ true
unfolding is_queueable
is_enqueued-approved_example = is_enqueued-approved version launch workspace refl refl refl

abbrev ready : Condition
ready = record {
  type = "Ready";
  status = condition_true;
  reason = "AllResourcesReady";
  message = "";
  last_transition_time = 5;
}

-- Applying is privileged in it.
abbrev ready_workspace : Workspace
ready_workspace = record workspace {
  status = record (workspace.status) { conditions = ready ∷ [] };
}

abbrev launched : Cluster
launched = cluster_with Kube.Get.not_found (Kube.Get.found ready_workspace) Kube.Get.not_found

abbrev environment : Env
environment = record { namespace = "dev"; workspace = "ws" }

remove_nested_paths-covers_example :
    is_covered "/a/b" (remove_nested_paths ("/a" ∷ "/a/b" ∷ [])) ≡ true
remove_nested_paths-covers_example = remove_nested_paths-covers ("/a" ∷ "/a/b" ∷ []) 1 "/a/b" refl

abbrev done_run : Run
done_run = with_conditions (finished ∷ []) (run_named "a" "plan")

abbrev options : RunnerOptions
options = record {
  tarball = "";
  dest = "/workspace";
  command = "plan";
  namespace = "dev";
  run_name = "a";
  handshake = true;
  args = [];
}

abbrev system : System Cluster
system = record {
  unpack = λ file dest s. (none, s);
  make_raw = λ s. none;
  execute = λ args s. (none, s);
  lock_file = λ s. none;
}

-- The handshake in two reads.
abbrev reads : List (List ℕ × ReadEnd)
reads =
    (111 ∷ 112 ∷ 101 ∷ 110 ∷ [], no_error)
    ∷ (115 ∷ 101 ∷ 115 ∷ 97 ∷ 109 ∷ 101 ∷ 33 ∷ [], no_error)
    ∷ []

run-handshake_example : take (length handshake_string) (delivered reads) ≡ handshake_string
unfolding run updates_lock_file receive_handshake
run-handshake_example =
    run-handshake cluster system version options reads true
      (cluster_with Kube.Get.not_found Kube.Get.not_found Kube.Get.not_found) refl refl

-- An expression matches the path that is equal to it, anchors included.
abbrev match_equal : String → String → Option Bool
match_equal expression path = some (expression == ("^" <> (path <> "$")))

abbrev plans : Rule
plans = record { val = "plans"; excluded = false; dirs = "plans" ∷ [] }

match_ignore_rule-append_example :
    match_ignore_rule match_equal "plans" (default_exclusions ++ (plans ∷ [])) ≡ true
unfolding match_ignore_rule match compile
match_ignore_rule-append_example =
    match_ignore_rule-append match_equal "plans" default_exclusions plans

read_rules-blank_example : read_rules ("/plans" ∷ "  " ∷ "tmp" ∷ []) false ≡ none
read_rules-blank_example = read_rules-blank ("/plans" ∷ []) "  " ("tmp" ∷ []) false refl refl
