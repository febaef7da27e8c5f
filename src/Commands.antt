-- ===== src/Commands.antt =====
-- pkg/commands/commands.go: the table of commands and what is asked of it.
use etok.Base.{String, ◌<>◌, Bool, true, false, ◌&&◌, List, [], ◌∷◌, ◌==◌, if◌then◌else◌}
use etok.Base.Text.{split}

pub record Command : Type 0 where
  pub path : String
  pub queueable : Bool
  pub updates_lock_file : Bool
  pub desc : String
  pub unrunnable : Bool

-- The shapes of the literals in the table.
abbrev plain : String → Command
plain path = record {
  path = path;
  queueable = false;
  updates_lock_file = false;
  desc = "";
  unrunnable = false;
}

abbrev queued : String → Command
queued path = record (plain path) { queueable = true }

unfoldable pub all : List Command
all =
    queued "apply"
    ∷ plain "console"
    ∷ queued "destroy"
    ∷ queued "force-unlock"
    ∷ plain "get"
    ∷ plain "graph"
    ∷ queued "import"
    ∷ record (queued "init") { updates_lock_file = true }
    ∷ plain "output"
    ∷ plain "plan"
    ∷ queued "refresh"
    ∷ plain "providers"
    ∷ record (plain "providers lock") { updates_lock_file = true }
    ∷ plain "show"
    ∷ record (plain "state") { desc = "Terraform state management"; unrunnable = true }
    ∷ plain "state list"
    ∷ queued "state mv"
    ∷ plain "state pull"
    ∷ queued "state push"
    ∷ queued "state replace-provider"
    ∷ queued "state rm"
    ∷ plain "state show"
    ∷ record (queued "sh") { desc = "Run shell session in workspace" }
    ∷ queued "taint"
    ∷ queued "untaint"
    ∷ plain "validate"
    ∷ []

queueable_loop : List Command → String → Bool
queueable_loop [] cmd = false
queueable_loop (c ∷ cs) cmd =
    let rest = queueable_loop cs cmd in if c.path == cmd && c.queueable then true else rest

unfoldable pub is_queueable : String → Bool
unfolding queueable_loop all
is_queueable cmd = queueable_loop all cmd

lock_file_loop : List Command → String → Bool
lock_file_loop [] cmd = false
lock_file_loop (c ∷ cs) cmd =
    let rest = lock_file_loop cs cmd in if c.path == cmd && c.updates_lock_file then true else rest

unfoldable pub updates_lock_file : String → Bool
unfolding lock_file_loop all
updates_lock_file cmd = lock_file_loop all cmd

abbrev parent_of : List String → String
parent_of (first ∷ second ∷ rest) = first
parent_of _ = ""

unfoldable pub parent : Command → String
parent c = parent_of (split b' ' c.path)

abbrev child_of : String → List String → String
child_of path (first ∷ second ∷ rest) = second
child_of path _ = path

unfoldable pub child : Command → String
child c = child_of c.path (split b' ' c.path)

unfoldable pub default_short_desc : Command → String
default_short_desc c = "Run terraform " <> c.path

unfoldable pub get_short_desc : Command → String
get_short_desc c = if c.desc == "" then default_short_desc c else c.desc
