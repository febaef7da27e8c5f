-- ===== src/Runner.antt =====
-- cmd/runner: the validation of options, the arguments of the command, the handshake, and the order
-- of what the runner does.
pub mod Laws
pub mod Execution
use etok.Base.{
  ℕ, ◌+◌, ◌-◌, String, ◌<>◌, Bool, true, false, ◌&&◌, Option, none, some, List, [], ◌∷◌, ◌++◌, ◌==◌,
  if◌then◌else◌, nat_eq, length, take,
}
use etok.Base.Text.{split, join}
use etok.Commands.{updates_lock_file}
use etok.Labels
use etok.Labels.{Version, set_label, set_common_labels}
use etok.Api.Meta.{ObjectMeta}
use etok.Api.Run.{Run, run_lock_file_config_map_name}
use etok.Kube
use etok.Kube.{Error, Get, Result, ok, err, ConfigMap, run_object, config_map_object, Client}
use etok.RunPod.{named}

pub record RunnerOptions : Type 0 where
  pub tarball : String
  pub dest : String
  pub command : String
  pub namespace : String
  pub run_name : String
  pub handshake : Bool
  pub args : List String

unfoldable pub validate : RunnerOptions → Option Error
validate o =
    if o.namespace == ""
    then some "--namespace cannot be empty"
    else if o.command == ""
    then some "--command cannot be empty"
    else if updates_lock_file o.command && o.run_name == ""
    then some (o.command <> " updates lock file; --run-name cannot be empty")
    else none

abbrev shell_args : List String → List String
shell_args [] = "sh" ∷ []
shell_args (arg ∷ args) = "sh" ∷ "-c" ∷ join (arg ∷ args) " " ∷ []

unfoldable pub prepare_args : String → List String → List String
prepare_args command args =
    if command == "sh" then shell_args args else ("terraform" ∷ []) ++ split b' ' command ++ args

-- How a read of standard input ends, beside the bytes that it delivers.
pub data ReadEnd : Type 0 where
  no_error eof : ReadEnd
  read_error : Error → ReadEnd

pub data Received : Type 0 where
  complete : List ℕ → Received
  broken : Error → Received
  timed_out : Received

abbrev pub end_of : Received → ReadEnd → Received
end_of rest no_error = rest
end_of rest eof = broken "handshake: reached EOF"
end_of rest (read_error e) = broken ("handshake: " <> e)

-- The loop of `receiveHandshake` over the reads that take place before the timeout. A read fills
-- what is left of the buffer at most.
unfoldable pub read_loop : ℕ → List ℕ → List (List ℕ × ReadEnd) → Received
read_loop size buf [] = timed_out
read_loop size buf ((bytes, end) ∷ reads) =
    let buf' = buf ++ take (size - length buf) bytes in
    let rest = read_loop size buf' reads in
    if nat_eq (length buf') size then complete buf' else end_of rest end

-- The bytes of "opensesame".
abbrev pub handshake_string : List ℕ
handshake_string = 111 ∷ 112 ∷ 101 ∷ 110 ∷ 115 ∷ 101 ∷ 115 ∷ 97 ∷ 109 ∷ 101 ∷ []

unfoldable pub same_bytes : List ℕ → List ℕ → Bool
same_bytes [] [] = true
same_bytes (a ∷ xs) (b ∷ ys) = nat_eq a b && same_bytes xs ys
same_bytes _ _ = false

abbrev pub check_handshake : Received → Option Error
check_handshake (complete buf) =
    if same_bytes buf handshake_string then none else some "incorrect handshake received"
check_handshake (broken e) = some e
check_handshake timed_out = some "timed out awaiting handshake"

unfoldable pub receive_handshake : List (List ℕ × ReadEnd) → Option Error
unfolding read_loop same_bytes
receive_handshake reads = check_handshake (read_loop (length handshake_string) [] reads)
