-- ===== src/Install/Ready.antt =====
-- pkg/k8s/utils.go: the wait for a deployment to be ready.
use etok.Base.{
  ℕ, suc, ◌+◌, String, Bool, not, ◌&&◌, Option, none, some, List, [], ◌∷◌, ◌==◌, if◌then◌else◌, ltb,
  nat_eq,
}
use etok.Api.Meta.{ConditionStatus, is_true}
use etok.Kube.{Error, Result, ok, err}

pub record DeploymentCondition : Type 0 where
  pub type : String
  pub status : ConditionStatus
  -- In seconds; 0 for the zero time.
  pub last_transition_time : ℕ

-- What a poll sees: the time, and the conditions of the deployment or an error.
pub record Poll : Type 0 where
  pub now : ℕ
  pub seen : Result (List DeploymentCondition)

-- The polls until the time is over.
abbrev pub Readiness : Type 0
Readiness = List Poll

unfoldable pub deployment_is_available : ℕ → DeploymentCondition → Bool
deployment_is_available now c =
    c.type == "Available"
    && is_true c.status
    && not (nat_eq c.last_transition_time 0)
    && ltb (c.last_transition_time + 10) now

unfoldable pub count_available : ℕ → List DeploymentCondition → ℕ
unfolding deployment_is_available
count_available now [] = 0
count_available now (c ∷ cs) =
    let rest = count_available now cs in if deployment_is_available now c then suc rest else rest

-- wait.PollImmediate with the count of the observations so far.
unfoldable pub poll_loop : ℕ → List Poll → Option Error
unfolding count_available
poll_loop count [] = some "timed out waiting for the condition"
poll_loop count (p ∷ ps) = elim (p.seen) [
  | err e ↦ some e
  | ok conditions ↦
      let count' = count + count_available p.now conditions in
      let rest = poll_loop count' ps in if ltb 4 count' then none else rest
]

unfoldable pub deployment_is_ready : Readiness → Option Error
unfolding poll_loop
deployment_is_ready polls = poll_loop 0 polls
