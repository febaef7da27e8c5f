-- ===== src/Suite/Events.antt =====
-- cmd/github/app.go: the events of Github and what they write.
pub mod Laws
use etok.Base.{
  ℕ, suc, String, ◌<>◌, Bool, true, false, not, ◌||◌, Option, none, some, List, [], ◌∷◌, ◌++◌, ◌==◌,
  if◌then◌else◌,
}
use etok.Base.Text.{split, join}
use etok.Base.FilePath.{itoa, format_bool}
use etok.Kube.{Error, Get, Result, ok, err}
use etok.Kube.Effect.{
  Effect, Done, pure, raise, fetch, find, checked, lift, call, wrap, fail_if, ◌>>=◌, ◌>>◌,
}
use etok.CheckRun.{CheckRun, CheckSuite, CheckRunEvent}
use etok.Suite
use etok.Suite.{
  GithubSuite, GithubRepo, check_suite_from_event, check_suite_from_obj, with_clone_url,
  with_install_id, is_mergeable_state,
}

pub record AppClient (S : Type 0) : Type 0 where
  pub get_check_suite : String → S → Get CheckSuite
  pub create_check_suite : CheckSuite → S → Option Error × S
  pub update_check_suite : CheckSuite → S → Option Error × S
  pub update_suite_status : CheckSuite → S → Option Error × S
  pub get_check_run : String → String → S → Get CheckRun
  pub update_check_run_status : CheckRun → S → Option Error × S
  -- retry.RetryOnConflict and wait.Poll
  pub retry_on_conflict : Effect S Done → Effect S Done
  pub poll : (S → Result Bool) → Effect S Done
  -- Github: the suites of a reference, and the mergeable state of a pull request.
  pub list_suites : String → String → String → S → Result (List GithubSuite)
  pub get_pull : String → String → ℕ → S → Result String

pub record SuiteEvent : Type 0 where
  pub check_suite : GithubSuite
  pub repo : GithubRepo
  pub install_id : ℕ

pub record RunEvent : Type 0 where
  pub id : ℕ
  pub external_id : String
  pub requested_action : String

pub record PullEvent : Type 0 where
  pub id : ℕ
  pub owner : String
  pub repo : String
  pub ref : String
  pub clone_url : String
  pub install_id : ℕ
  pub number : ℕ

pub data Event : Type 0 where
  check_suite_event : SuiteEvent → Event
  check_run_event : RunEvent → Event
  pull_request_event : PullEvent → Event
  pull_request_review_event : PullEvent → Event
  other_event : Event

abbrev no_event : CheckRunEvent
no_event = record {
  created = none;
  rerequested = false;
  requested_action = none;
  completed = false;
}

-- The event that an action adds; another action is ignored.
unfoldable pub event_of : RunEvent → String → Option CheckRunEvent
event_of ev action =
    if action == "created"
    then some (record no_event { created = some ev.id })
    else if action == "rerequested"
    then some (record no_event { rerequested = true })
    else if action == "requested_action"
    then some (record no_event { requested_action = some ev.requested_action })
    else if action == "completed"
    then some (record no_event { completed = true })
    else none

abbrev pub add_event : CheckRunEvent → CheckRun → CheckRun
add_event ev check = record check {
  status = record (check.status) { events = check.status.events ++ (ev ∷ []) };
}

unfoldable pub object_key : String → String → String
object_key namespace name = namespace <> ("/" <> name)

-- The key of a check run from the external identifier.
abbrev pub check_key : List String → Option (String × String)
check_key (namespace ∷ name ∷ []) = some (namespace, name)
check_key _ = none

module _ {S : Type 0} (c : AppClient S) where
  abbrev added : String → CheckRun → Option CheckRunEvent → Effect S String
  added action check none = pure "ignored"
  added action check (some ev) = do
    wrap "unable to add event to check run kubernetes resource"
        (c.retry_on_conflict (call (c.update_check_run_status (add_event ev check))))
    pure (
        "added "
        <> (action <> (" event to check run resource: " <> object_key check.namespace check.name)))

  abbrev with_key : RunEvent → String → Option (String × String) → Effect S String
  with_key ev action none = raise ("malformed external ID: " <> ev.external_id)
  with_key ev action (some (namespace, name)) = do
    check ←
        wrap "unable to retrieve check run kubernetes resource"
          (fetch (c.get_check_run namespace name))
    added action check (event_of ev action)

  unfoldable pub handle_check_run_event : RunEvent → String → Effect S String
  unfolding event_of object_key
  handle_check_run_event ev action = with_key ev action (check_key (split b'/' ev.external_id))

  create_suite : CheckSuite → Effect S String
  create_suite suite = do
    wrap "unable to create kubernetes resource" (call (c.create_check_suite suite))
    pure ("created check suite kubernetes resource: " <> suite.name)

  -- The suite that is stored, with one more rerequest.
  rerequest_suite : CheckSuite → Effect S String
  rerequest_suite suite = do
    stored ←
        wrap "unable to get check suite kubernetes resource" (fetch (c.get_check_suite suite.name))
    wrap "unable to update check suite kubernetes resource" (
        c.retry_on_conflict (
          call (
            c.update_check_suite (record stored {
              spec = record (stored.spec) { rerequests = suc stored.spec.rerequests };
            }))))
    pure ("updated check suite kubernetes resource: " <> stored.name)

  abbrev with_pulls : SuiteEvent → String → List String → Effect S String
  unfolding create_suite rerequest_suite
  with_pulls ev action [] = pure "no pulls found"
  with_pulls ev action (pull ∷ pulls) =
      let suite = check_suite_from_event ev.check_suite ev.repo ev.install_id in
      if action == "requested" then create_suite suite else rerequest_suite suite

  unfoldable pub handle_check_suite_event : SuiteEvent → String → Effect S String
  unfolding create_suite rerequest_suite
  handle_check_suite_event ev action =
      if action == "requested" || action == "rerequested"
      then with_pulls ev action ev.check_suite.pull_requests
      else pure "ignored"

  abbrev first_suite : List GithubSuite → Effect S GithubSuite
  first_suite [] = raise "no check suites associated with pull"
  first_suite (suite ∷ suites) = pure suite

  unfoldable pub get_suite_from_ref : String → String → String → Effect S GithubSuite
  get_suite_from_ref owner repo ref = do
    suites ← checked (c.list_suites owner repo ref)
    first_suite suites

  abbrev ensured :
      GithubSuite → ℕ → String → Result (Option CheckSuite) → Effect S (CheckSuite × Bool)
  ensured obj install_id clone_url (ok (some suite)) = pure (suite, false)
  ensured obj install_id clone_url (ok none) =
      let suite =
        with_clone_url clone_url (with_install_id install_id (check_suite_from_obj obj)) in
      do
        wrap "unable to create check suite kubernetes resource" (call (c.create_check_suite suite))
        pure (suite, true)
  ensured obj install_id clone_url (err e) =
      raise ("unable to retrieve check suite kubernetes resource: " <> e)

  unfoldable pub ensure_check_suite_resource_exists :
      GithubSuite → ℕ → String → Effect S (CheckSuite × Bool)
  ensure_check_suite_resource_exists obj install_id clone_url s =
      ensured obj install_id clone_url (find (c.get_check_suite (itoa obj.id)) s).0 s

  -- The condition of the poll.
  abbrev pull_state : Result String → Result Bool
  pull_state (err e) = err ("unable to retrieve pull: " <> e)
  pull_state (ok state) = ok (is_mergeable_state state)

  abbrev mergeable_of : Result Done → Result Bool
  mergeable_of (err e) = ok false
  mergeable_of (ok _) = ok true

  -- `isMergeable`: an error of the poll, also of a read, is answered as false.
  unfoldable pub is_mergeable : String → String → ℕ → Effect S Bool
  unfolding is_mergeable_state
  is_mergeable owner repo number s =
      let (r, s') = c.poll (λ t. pull_state (c.get_pull owner repo number t)) s in
      (mergeable_of r, s')

  write_mergeable : CheckSuite → Bool → Effect S Done
  write_mergeable suite mergeable = do
    stored ← fetch (c.get_check_suite suite.name)
    call (
        c.update_suite_status
          (record stored { status = record (stored.status) { mergeable = mergeable } }))

  abbrev same_bool : Bool → Bool → Bool
  same_bool true b = b
  same_bool false b = not b

  unfoldable pub update_mergeable_status : CheckSuite → String → String → ℕ → Effect S (Bool × Bool)
  unfolding is_mergeable write_mergeable
  update_mergeable_status suite owner repo number = do
    mergeable ← wrap "unable to check mergeable status of pull" (is_mergeable owner repo number)
    if same_bool suite.status.mergeable mergeable then pure (false, mergeable) else (do
      wrap "unable to update mergeable status of check suite kubernetes resource"
          (c.retry_on_conflict (write_mergeable suite mergeable))
      pure (true, mergeable))

  abbrev created_text : CheckSuite → Bool → List String
  created_text suite created =
      if created then ("created check suite kubernetes resource: " <> suite.name) ∷ [] else []

  abbrev updated_text : Bool → Bool → List String
  updated_text updated mergeable =
      ("mergeable status "
        <> ((if updated then "updated: " else "unchanged: ") <> format_bool mergeable))
      ∷ []

  unfoldable pub update_check_suite_status : PullEvent → Effect S String
  unfolding get_suite_from_ref ensure_check_suite_resource_exists update_mergeable_status
  update_check_suite_status ev = do
    suite ← wrap "unable to find check suite for pull" (get_suite_from_ref ev.owner ev.repo ev.ref)
    ensured ← ensure_check_suite_resource_exists suite ev.install_id ev.clone_url
    updated ← update_mergeable_status ensured.0 ev.owner ev.repo ev.number
    pure (join (created_text ensured.0 ensured.1 ++ updated_text updated.0 updated.1) ", ")

  unfoldable pub handle_event : Event → String → Effect S String
  unfolding handle_check_suite_event handle_check_run_event update_check_suite_status
  handle_event (check_suite_event ev) action = handle_check_suite_event ev action
  handle_event (check_run_event ev) action = handle_check_run_event ev action
  handle_event (pull_request_event ev) action = update_check_suite_status ev
  handle_event (pull_request_review_event ev) action = update_check_suite_status ev
  handle_event other_event action = pure "ignored"

pub event_id : Event → ℕ
event_id (check_suite_event ev) = ev.check_suite.id
event_id (check_run_event ev) = ev.id
event_id (pull_request_event ev) = ev.id
event_id (pull_request_review_event ev) = ev.id
event_id other_event = 0
