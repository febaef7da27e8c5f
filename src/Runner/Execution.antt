-- ===== src/Runner/Execution.antt =====
-- `Run` and `persistLockFile` of cmd/runner/runner.go.
use etok.Base.{
  ℕ, String, ◌<>◌, Bool, true, false, ◌≡◌, Option, none, some, List, [], ◌∷◌, ◌==◌, if◌then◌else◌,
  length, take, arith,
}
use etok.Commands.{updates_lock_file}
use etok.Labels
use etok.Labels.{Version, set_label, set_common_labels}
use etok.Api.Run.{Run, run_lock_file_config_map_name}
use etok.Kube
use etok.Kube.{Error, Get, Result, ok, err, ConfigMap, run_object, config_map_object, Client}
use etok.RunPod.{named}
use etok.Runner.{RunnerOptions, ReadEnd, prepare_args, receive_handshake, handshake_string}
use etok.Runner.Laws.{delivered, receive_handshake-delivered}

-- What the runner calls beside the client. Reading the lock file answers its content; an error
-- other than that it does not exist is not looked at, and the content is empty then.
pub record System (S : Type 0) : Type 0 where
  pub unpack : String → String → S → Option Error × S
  pub make_raw : S → Option Error
  pub execute : List String → S → Option Error × S
  pub lock_file : S → Option String

abbrev first : Bool → Option Error → Option Error → Option Error
first true (some e) b = some e
first true none b = b
first false a (some e) = some e
first false a none = a

abbrev prefixed : String → Option Error → Option Error
prefixed prefix none = none
prefixed prefix (some e) = some (prefix <> e)

module _ (k : Client) (system : System k.State) (version : Version) (o : RunnerOptions)
    (reads : List (List ℕ × ReadEnd)) where
  abbrev lock_file_config_map : String → ConfigMap
  lock_file_config_map content = record {
    metadata =
        set_label
          (set_label
            (set_common_labels version
              (named (run_lock_file_config_map_name o.run_name) o.namespace))
            (Labels.command o.command))
          Labels.run_component;
    content = (".terraform.lock.hcl", content) ∷ [];
  }

  create_lock_file : String → Run → k.State → Option Error × k.State
  create_lock_file content run s =
      let config_map = lock_file_config_map content in
      elim (k.set_owner_reference (run_object run) config_map.metadata) [
        | err e ↦ (some e, s)
        | ok meta ↦ k.create (config_map_object (record config_map { metadata = meta })) s
      ]

  own_lock_file : String → Get Run → k.State → Option Error × k.State
  unfolding create_lock_file
  own_lock_file content Kube.Get.not_found s = (some "failed to retrieve run: not found", s)
  own_lock_file content (Kube.Get.failed e) s = (some ("failed to retrieve run: " <> e), s)
  own_lock_file content (Kube.Get.found run) s = create_lock_file content run s

  unfoldable pub persist_lock_file : k.State → Option Error × k.State
  unfolding own_lock_file
  persist_lock_file s = elim (system.lock_file s) [
    | none ↦ (none, s)
    | some content ↦ own_lock_file content (k.get_run o.namespace o.run_name s) s
  ]

  persisted : Option Error × k.State → Option Error × k.State
  persisted (failure, s) = (prefixed "failed to persist lock file to config map: " failure, s)

  executed : Option Error × k.State → Option Error × k.State
  unfolding persisted persist_lock_file
  executed (some e, s) = (some e, s)
  executed (none, s) =
      let after = persisted (persist_lock_file s) in
      if updates_lock_file o.command then after else (none, s)

  abbrev handshaken : k.State → Option Error
  handshaken s = elim (system.make_raw s) [
    | some e ↦ some ("failed to put TTY into raw mode: " <> e)
    | none ↦ receive_handshake reads
  ]

  -- Both tasks have ended; the group reports the error of the one that failed first.
  prepared : Option Error → k.State → Option Error × k.State
  unfolding executed
  prepared (some e) s = (some e, s)
  prepared none s = executed (system.execute (prepare_args o.command o.args) s)

  -- Unpacking and the handshake take place concurrently: `unpack_first` tells which fails first.
  unfoldable pub run : Bool → k.State → Option Error × k.State
  unfolding prepared
  run unpack_first s =
      let (failure, s') = if o.tarball == "" then (none, s) else system.unpack o.tarball o.dest s in
      prepared (first unpack_first failure (if o.handshake then handshaken s else none)) s'

  -- A runner that asks for a handshake and ends without an error has received the handshake string.
  pub run-handshake :
      (unpack_first : Bool) (s : k.State)
      → o.handshake ≡ true
      → (run unpack_first s).0 ≡ none
      → take (length handshake_string) (delivered reads) ≡ handshake_string
  unfolding run prepared
  run-handshake unpack_first s asked e = receive_handshake-delivered reads (ground arith)
