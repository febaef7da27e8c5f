-- ===== src/Lib.antt =====
-- etok: a verification library for the Kubernetes operator and the Github integration of etok.
--
-- The program runs terraform on Kubernetes. A workspace is a resource with a queue of runs; a run is
-- a resource with a command, executed by a pod once it is its turn. Two controllers reconcile them
-- with the cluster. A Github app turns check suites into check runs, each of which makes runs, one
-- for each iteration.
--
-- Which file models which part:
--   Base             the shared names, texts and maps; Base.FilePath has path.Join and strconv
--   Slice            pkg/util/slice/slice.go; the loop of ChunkStrings runs on fuel, which is enough
--                    for a positive size, as Slice.Chunks shows
--   Commands         pkg/commands/commands.go
--   Api              api/etok.dev/v1alpha1: Api.Meta (metadata and conditions), Api.Run, Api.Workspace
--   Queue            pkg/controllers/workspace_queue.go: updateCombinedQueue is
--                    update_combined_queue, its first loop filter_runs, its second one reorder
--   Labels           pkg/labels/labels.go
--   Kube             the Kubernetes objects and the client; pkg/k8s/utils.go
--   RunPod           pkg/controllers/run_controller_pod.go and paths.go
--   RunController    pkg/controllers/run_controller.go, conditions.go and controller_ref.go:
--                    manageQueue and managePod in Manage, Reconcile and its chain in Reconcile
--   WorkspaceController
--                    pkg/controllers/workspace_controller.go, with workspace_state.go in State and
--                    workspace_resources.go, workspace_controller_pod.go and
--                    terraform_install_script.go in Resources
--   Handlers         pkg/handlers: the conditions of the watches
--   CheckRun         cmd/github/check_run.go, check_run_command.go and plan_path.go; check_run_update.go
--                    and parse_plan_output.go in Update and Details
--                    check_run_controller.go in Controller
--                    client/async.go and the calls of check_run_update.go in Send
--   Suite            check suites: pkg/builders/check_run.go and check_suite.go; Suite.Repos has
--                    cmd/github/repo_manager.go, Suite.Reconcile check_suite_controller.go, and
--                    Suite.Events app.go
--   Builders         pkg/builders/run.go
--   Launcher         cmd/launcher/launcher.go: createRun is new_run, approveRun approve_run, and
--                    checkWorkspace check_workspace; the whole command is launch of Launch
--   Runner           cmd/runner/runner.go and prepare_args.go: the handshake, and Run in Execution
--   Monitors         pkg/monitors/exit_monitor.go, on the events of a watch
--   Env              pkg/env/env.go, on the content of the file; Env.File on a file system
--   GitRepo          pkg/repo/repo.go, on what the git library tells of a repository
--   WorkspaceCmd     cmd/workspace: workspace_new.go in New, the other commands in Manage
--   Archive          pkg/archive: rule_matcher.go; max_writer.go in Writer; modwalker.go in Modules,
--                    whose walk runs on fuel: a measure that goes down along the calls bounds it;
--                    archive.go in Pack, on fuel for the links into other trees, in Unpack and in Bundle
--   Ignore           pkg/archive/terraformignore.go, on the lines that the scanner gives; a panic is none
--   Paths            pkg/util/path/path.go
--   Backup           pkg/backup: gcs.go and s3.go; cmd/backup in Config
--   EnvVars          cmd/envvars/env_vars.go, and GetEnvVars of cmd/backup/config.go
--   Install          cmd/install/install.go; Install.Resources has what it shares with
--                    cmd/github/deployer.go (Install.Webhook), Install.Ready the wait of
--                    pkg/k8s/utils.go for a deployment, on the polls in their order
--   System           a namespace with both controllers: a step is a reconcile, or a step of a user
--                    or of the cluster, in any order
--   Tests            concrete inputs, and the theorems at them
--
-- How the parts interact: the workspace controller computes the queue of a workspace from its runs
-- (Queue) and writes it into the status of the workspace. The run controller reads it there, and
-- lets a run go on to its pod (RunPod) when it is the active one. Clients wait for both by watches
-- (Handlers). A check run (CheckRun) reports the conditions that the run controller sets. The check
-- suite controller clones the repository of a suite and makes a check run for each workspace of it;
-- the events of Github come in through the app (Suite.Events), which adds them to check runs. The
-- commands on workspaces tell the workspace of a directory by the environment file (Env) and its
-- repository (GitRepo), and a launch (Launcher) sends the files of a module in an archive
-- (Archive). The state of a workspace is kept by a provider (Backup) that the workspace controller
-- calls. The command that installs the operator (Install) passes its flags on to it in the
-- environment (EnvVars).
--
-- State and effects: the status of a resource is a record, and an updater returns a new one, with
-- whether to bail out, an error, and the state of the cluster. The cluster is an unknown type
-- behind the client of Kube, a parameter: nothing is assumed of its reads and writes but what a
-- theorem takes as a hypothesis. Calls of a client are made in the order of the code; where an
-- error ends a chain of them, the chain is an effect (Kube.Effect), and what was written before
-- the error stays written. A nil pointer that is dereferenced, and an index out of range, are
-- outcomes of their own (panic, crashed, panicked). The clock is two parameters: the time at which
-- conditions are set, and the time at which timeouts are checked, in seconds. The reaper of clones
-- reads it once for each tick. The commands on workspaces, the launch and the config map of an
-- archive treat a panic as an error.
--
-- Parameters with hypotheses: the functions on conditions of k8s.io/apimachinery (Api.Meta:
-- ConditionApi and what is documented of it, IsDocumented), and bytes.TrimSpace, which only takes
-- away (CheckRun.Details.Laws: IsTrim). The API server of check suites (Suite.Reconcile.Laws:
-- IsServer) and that of workspaces (WorkspaceCmd.New.Laws: IsServer), that of runs
-- (Launcher.Launch.Laws: IsServer), a file that is read as it was written
-- (WorkspaceCmd.Manage.Laws: IsStored), the server that keeps pods (RunController.Pods: IsServer),
-- the tar format (Archive.Pack.Writing: IsTar), a file system without links (Archive.Unpack.Laws:
-- IsDisk), the storage services and YAML (Backup.Laws), and the retries of a write that succeeds.
-- Parameters without: the Kubernetes client and controllerutil elsewhere, the event recorder, the
-- decoder of state files, git and the Github client, and the regular expressions
-- (CheckRun.Details, Ignore).
--
-- Not modelled: logging; the registration of watches with the manager; the conversion of a size to
-- a quantity; the tar and gzip formats; the command that starts the operator; the webhook server and
-- the creation of the app; terminals and log streams. A reconcile is one step of System: reads of a
-- stale cache are not modelled there.
pub mod Base
pub mod Slice
pub mod Commands
pub mod Api
pub mod Queue
pub mod Labels
pub mod Kube
pub mod RunPod
pub mod RunController
pub mod Handlers
pub mod Builders
pub mod Monitors
pub mod Runner
pub mod Launcher
pub mod Suite
pub mod System
pub mod EnvVars
pub mod Install
pub mod Archive
pub mod Backup
pub mod GitRepo
pub mod WorkspaceCmd
pub mod Ignore
pub mod Env
pub mod Paths
pub mod CheckRun
pub mod WorkspaceController
mod Tests
