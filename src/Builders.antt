-- ===== src/Builders.antt =====
-- pkg/builders/run.go
pub mod Laws
use etok.Base.{ℕ, String, Bool, true, false, none, List, [], ◌∷◌, ◌++◌, if◌then◌else◌}
use etok.Labels
use etok.Labels.{Label, Version, set_label, set_common_labels}
use etok.Api.Meta.{ObjectMeta}
use etok.Api.Run.{Run, RunStatus, RunPhase, run_default_config_map_key}
use etok.RunPod.{named}

pub record RunBuilder : Type 0 where
  pub namespace : String
  pub name : String
  pub command : String
  pub args : List String
  pub attach : Bool
  pub handshake_timeout : String
  pub additional_labels : List Label
  pub status : RunStatus
  pub verbosity : ℕ
  pub workspace : String

abbrev pub no_run_status : RunStatus
no_run_status = record { phase = RunPhase.unset; conditions = []; exit_code = none }

-- The text of the default handshake timeout, ten seconds.
abbrev default_handshake_timeout : String
default_handshake_timeout = "10s"

unfoldable pub run_builder : String → String → String → String → List String → RunBuilder
run_builder namespace name workspace command args = record {
  namespace = namespace;
  name = name;
  command = command;
  args = args;
  attach = false;
  handshake_timeout = default_handshake_timeout;
  additional_labels = [];
  status = no_run_status;
  verbosity = 0;
  workspace = workspace;
}

unfoldable pub attached : RunBuilder → RunBuilder
attached b = record b { attach = true }

unfoldable pub labelled : String → String → RunBuilder → RunBuilder
labelled name value b = record b {
  additional_labels = b.additional_labels ++ (record { name = name; value = value } ∷ []);
}

unfoldable pub with_verbosity : ℕ → RunBuilder → RunBuilder
with_verbosity verbosity b = record b { verbosity = verbosity }

unfoldable pub with_status : RunStatus → RunBuilder → RunBuilder
with_status status b = record b { status = status }

label_loop : List Label → ObjectMeta → ObjectMeta
label_loop [] meta = meta
label_loop (l ∷ ls) meta = label_loop ls (set_label meta l)

unfoldable pub build : Version → RunBuilder → Run
unfolding label_loop
build version b = record {
  metadata = label_loop b.additional_labels (
      set_label
        (set_label
          (set_label (set_common_labels version (named b.name b.namespace))
            (Labels.command b.command))
          (Labels.workspace b.workspace))
        Labels.run_component);
  spec = record {
    command = b.command;
    args = b.args;
    config_map = b.name;
    config_map_key = run_default_config_map_key;
    workspace = b.workspace;
    verbosity = b.verbosity;
    attach_spec = record {
      handshake = b.attach;
      handshake_timeout = if b.attach then b.handshake_timeout else "";
    };
  };
  run_status = b.status;
}
