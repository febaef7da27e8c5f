-- ===== src/Api/Meta.antt =====
-- Kubernetes metadata and conditions (the shapes of metav1.ObjectMeta, metav1.OwnerReference and
-- metav1.Condition), the condition constants of api/etok.dev/v1alpha1/conditions.go, and the
-- functions on conditions of k8s.io/apimachinery/pkg/api/meta, which are a parameter.
pub mod Laws
use etok.Base.{
  ℕ, String, Bool, true, false, Option, none, some, List, [], ◌∷◌, ◌≡◌, ◌==◌, nat_eq, if◌then◌else◌,
}
use etok.Base.Dict.{Dict}

pub record OwnerReference : Type 0 where
  pub api_version : String
  pub kind : String
  pub name : String
  pub uid : String

pub record ObjectMeta : Type 0 where
  pub name : String
  pub namespace : String
  pub uid : String
  pub labels : Dict String
  pub annotations : Dict String
  pub owner_references : List OwnerReference
  pub finalizers : List String
  pub deletion_timestamp : Option ℕ

-- Times are seconds; 0 is the zero time.
pub data ConditionStatus : Type 0 where
  condition_true condition_false condition_unknown : ConditionStatus

pub record Condition : Type 0 where
  pub type : String
  pub status : ConditionStatus
  pub reason : String
  pub message : String
  pub last_transition_time : ℕ

abbrev pub is_true : ConditionStatus → Bool
is_true condition_true = true
is_true _ = false

abbrev pub is_false : ConditionStatus → Bool
is_false condition_false = true
is_false _ = false

abbrev pub same_status : ConditionStatus → ConditionStatus → Bool
same_status condition_true condition_true = true
same_status condition_false condition_false = true
same_status condition_unknown condition_unknown = true
same_status _ _ = false

abbrev pub run_failed_condition : String
run_failed_condition = "Failed"

abbrev pub run_complete_condition : String
run_complete_condition = "Complete"

abbrev pub workspace_ready_condition : String
workspace_ready_condition = "Ready"

abbrev pub pod_created_reason : String
pod_created_reason = "PodCreated"

abbrev pub pod_pending_reason : String
pod_pending_reason = "PodPending"

abbrev pub pod_unknown_reason : String
pod_unknown_reason = "PodUnknown"

abbrev pub pod_succeeded_reason : String
pod_succeeded_reason = "PodSucceeded"

abbrev pub pod_failed_reason : String
pod_failed_reason = "PodFailed"

abbrev pub pod_running_reason : String
pod_running_reason = "PodRunning"

abbrev pub run_queued_reason : String
run_queued_reason = "Queued"

abbrev pub run_unqueued_reason : String
run_unqueued_reason = "Unqueued"

abbrev pub run_enqueue_timeout_reason : String
run_enqueue_timeout_reason = "EnqueueTimeout"

abbrev pub queue_timeout_reason : String
queue_timeout_reason = "QueueTimeout"

abbrev pub run_pending_timeout_reason : String
run_pending_timeout_reason = "PodPendingTimeout"

abbrev pub workspace_not_found_reason : String
workspace_not_found_reason = "WorkspaceNotFound"

abbrev pub pending_reason : String
pending_reason = "Pending"

abbrev pub failure_reason : String
failure_reason = "Failure"

abbrev pub deletion_reason : String
deletion_reason = "Deleting"

abbrev pub unknown_reason : String
unknown_reason = "Unknown"

abbrev pub ready_reason : String
ready_reason = "AllSystemsOperational"

-- meta.SetStatusCondition (at a time), meta.FindStatusCondition, meta.IsStatusConditionTrue and
-- meta.IsStatusConditionFalse.
pub record ConditionApi : Type 0 where
  pub set_status_condition : ℕ → List Condition → Condition → List Condition
  pub find_status_condition : List Condition → String → Option Condition
  pub is_status_condition_true : List Condition → String → Bool
  pub is_status_condition_false : List Condition → String → Bool

-- A new condition is stamped with the time, unless it carries one.
abbrev pub stamped_time : ℕ → Condition → ℕ
stamped_time now c = if nat_eq c.last_transition_time 0 then now else c.last_transition_time

abbrev pub stamp : ℕ → Condition → Condition
stamp now c = record c { last_transition_time = stamped_time now c }

-- An old one takes the new status, reason and message, and a new time only if the status changes.
abbrev pub renew : ℕ → Condition → Condition → Condition
renew now old c = record old {
  status = c.status;
  reason = c.reason;
  message = c.message;
  last_transition_time =
      if same_status old.status c.status then old.last_transition_time else stamped_time now c;
}

abbrev pub has_status : Option Condition → (ConditionStatus → Bool) → Bool
has_status none p = false
has_status (some c) p = p c.status

-- What the package's documentation says of them: the first condition of the type is found or
-- updated where it stands, and a condition of a new type is appended.
pub record IsDocumented (m : ConditionApi) : Type 0 where
  pub set-nil : (now : ℕ) (c : Condition) → m.set_status_condition now [] c ≡ stamp now c ∷ []
  pub set-cons :
      (now : ℕ) (d : Condition) (cs : List Condition) (c : Condition)
      → m.set_status_condition now (d ∷ cs) c
        ≡ (if d.type == c.type then renew now d c ∷ cs else d ∷ m.set_status_condition now cs c)
  pub find-nil : (t : String) → m.find_status_condition [] t ≡ none
  pub find-cons :
      (d : Condition) (cs : List Condition) (t : String)
      → m.find_status_condition (d ∷ cs) t
        ≡ (if d.type == t then some d else m.find_status_condition cs t)
  pub is_true-find :
      (cs : List Condition) (t : String)
      → m.is_status_condition_true cs t ≡ has_status (m.find_status_condition cs t) is_true
  pub is_false-find :
      (cs : List Condition) (t : String)
      → m.is_status_condition_false cs t ≡ has_status (m.find_status_condition cs t) is_false
