-- ===== src/Api/Run.antt =====
-- api/etok.dev/v1alpha1/run_types.go
pub mod Laws
use etok.Base.{
  ℕ, String, ◌<>◌, Bool, true, false, ◌&&◌, ◌||◌, Option, none, some, List, [], ◌∷◌, ◌==◌,
  if◌then◌else◌,
}
use etok.Base.Text.{split}
use etok.Api.Meta.{
  ObjectMeta, Condition, is_true, run_failed_condition, run_complete_condition, pod_running_reason,
  pod_succeeded_reason, pod_failed_reason,
}

pub record AttachSpec : Type 0 where
  pub handshake : Bool
  pub handshake_timeout : String

pub record RunSpec : Type 0 where
  pub command : String
  pub args : List String
  pub config_map : String
  pub config_map_key : String
  pub workspace : String
  pub verbosity : ℕ
  pub attach_spec : AttachSpec
  pub open attach_spec use *

-- `unset` is the empty phase of a run that was never reconciled.
pub data RunPhase : Type 0 where
  unset unknown waiting queued provisioning running completed failed : RunPhase

pub record RunStatus : Type 0 where
  pub phase : RunPhase
  pub conditions : List Condition
  pub exit_code : Option ℕ

pub record Run : Type 0 where
  pub metadata : ObjectMeta
  pub open metadata use *
  pub spec : RunSpec
  pub open spec use *
  pub run_status : RunStatus
  pub open run_status use *

abbrev pub run_default_config_map_key : String
run_default_config_map_key = "config.tar.gz"

abbrev pub approved_annotation_key_prefix : String
approved_annotation_key_prefix = "approvals.etok.dev"

unfoldable pub approved_annotation_key : String → String
approved_annotation_key run_name = approved_annotation_key_prefix <> ("/" <> run_name)

-- `strings.Split(key, "/")[1]`; `none` is the panic of an index out of range.
abbrev second : List String → Option String
second (a ∷ b ∷ rest) = some b
second _ = none

unfoldable pub get_run_from_approval_annotation_key : String → Option String
get_run_from_approval_annotation_key key = second (split b'/' key)

unfoldable pub pod_name : Run → String
pod_name r = r.name

unfoldable pub run_lock_file_config_map_name : String → String
run_lock_file_config_map_name name = name <> "-lockfile"

unfoldable pub is_reconciled : RunPhase → Bool
is_reconciled unset = false
is_reconciled _ = true

-- The loop of `IsDone`.
unfoldable pub done_loop : List Condition → Bool
done_loop [] = false
done_loop (cond ∷ conds) =
    let rest = done_loop conds in
    if cond.type == run_complete_condition && is_true cond.status
    then true
    else if cond.type == run_failed_condition && is_true cond.status
    then true
    else rest

unfoldable pub is_done : Run → Bool
unfolding done_loop
is_done r = done_loop r.conditions

-- The loop of `IsStreamable`.
unfoldable pub streamable_loop : List Condition → Bool
streamable_loop [] = false
streamable_loop (cond ∷ conds) =
    let rest = streamable_loop conds in
    if cond.type == run_complete_condition
      && (cond.reason == pod_running_reason
          || cond.reason == pod_succeeded_reason
          || cond.reason == pod_failed_reason)
    then true
    else rest

unfoldable pub is_streamable : Run → Bool
unfolding streamable_loop
is_streamable r = streamable_loop r.conditions
