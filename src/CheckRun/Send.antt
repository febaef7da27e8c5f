-- ===== src/CheckRun/Send.antt =====
-- cmd/github/check_run_update.go: what an update sends to Github. cmd/github/client/async.go: the
-- queue of updates, which are sent one after the other.
use etok.Base.{ℕ, String, Option, none, some, List, [], ◌∷◌}
use etok.Api.Meta.{ConditionApi}
use etok.Api.Run.{Run}
use etok.Kube.{Result}
use etok.Kube.Effect.{Effect, Done, pure, ◌>>=◌}
use etok.CheckRun
use etok.CheckRun.Update.{
  CheckRunUpdate, Matchers, Action, status, conclusion, actions, name, external_id, summary,
}
use etok.CheckRun.Details.{Details, details}

pub record Output : Type 0 where
  pub title : String
  pub summary : String
  pub text : Details

-- The options of a create and of an update have the same parts.
pub record Options : Type 0 where
  pub name : String
  pub head_sha : String
  pub status : String
  pub conclusion : Option String
  pub output : Output
  pub actions : List Action
  pub external_id : String

-- Checks of the Github client: a create answers the identifier.
pub record Checks (S : Type 0) : Type 0 where
  pub create_check_run : String → String → Options → S → Result ℕ × S
  pub update_check_run : String → String → ℕ → Options → S → Result Done × S

-- The name of the run; none where there is no run, whose name the code reads all the same.
abbrev title : Option Run → Option String
title none = none
title (some run) = some run.name

abbrev with_title : Matchers → ConditionApi → CheckRunUpdate → Option String → Option Output
with_title x m u none = none
with_title x m u (some t) = some (record { title = t; summary = summary m u; text = details x m u })

unfoldable pub output : Matchers → ConditionApi → CheckRunUpdate → Option Output
output x m u = with_title x m u (title u.run)

abbrev with_output : Matchers → ConditionApi → CheckRunUpdate → Option Output → Option Options
with_output x m u none = none
with_output x m u (some out) = some (record {
  name = name x m u;
  head_sha = u.suite.spec.sha;
  status = status m u;
  conclusion = conclusion m u;
  output = out;
  actions = actions m u;
  external_id = external_id u;
})

unfoldable pub options : Matchers → ConditionApi → CheckRunUpdate → Option Options
unfolding output
options x m u = with_output x m u (output x m u)

module _ {S : Type 0} (c : Checks S) (x : Matchers) (m : ConditionApi) where
  unfoldable pub create : CheckRunUpdate → Options → Effect S Done
  create u opts = do id ← c.create_check_run u.suite.spec.owner u.suite.spec.repo opts; pure tt

  unfoldable pub update : CheckRunUpdate → ℕ → Options → Effect S Done
  update u id opts = c.update_check_run u.suite.spec.owner u.suite.spec.repo id opts

  abbrev send_as : CheckRunUpdate → Option ℕ → Options → Effect S Done
  unfolding create update
  send_as u none opts = create u opts
  send_as u (some id) opts = update u id opts

  abbrev invoked : CheckRunUpdate → Option Options → S → Option (Result Done × S)
  unfolding create update
  invoked u none s = none
  invoked u (some opts) s = some (send_as u (CheckRun.id u.check_run) opts s)

  -- `Invoke`: a check run that Github has created is updated under its identifier. None is a panic.
  unfoldable pub invoke : CheckRunUpdate → S → Option (Result Done × S)
  unfolding create update options
  invoke u s = invoked u (options x m u) s

  -- `process`: an error is logged only, and the updates behind it are sent all the same.
  unfoldable pub process : List CheckRunUpdate → S → Option S
  unfolding invoke
  process [] s = some s
  process (u ∷ queue) s = elim (invoke u s) [ none ↦ none | some (r, t) ↦ process queue t ]
