-- ===== src/EnvVars.antt =====
-- cmd/envvars/env_vars.go and cmd/backup/config.go: flags set from the environment, and the
-- environment made from flags. A flag is its name and the text of its value.
use Prim.Native.Char.{Char, code}
use text.Mathlib.Text.{starts_with}
use etok.Base.{String, ◌<>◌, ◌==◌, Option, none, some, List, [], ◌∷◌, if◌then◌else◌, nat_eq}
use etok.Base.Dict.{Dict, lookup, erase}
use etok.Kube.Pods.{EnvVar}
use etok.RunPod.{env}

abbrev pub lower_letters : String
lower_letters = "abcdefghijklmnopqrstuvwxyz"

abbrev pub upper_letters : String
upper_letters = "ABCDEFGHIJKLMNOPQRSTUVWXYZ"

-- The letter of the second text that stands where the character stands in the first.
exchange : String → String → Char → Char
exchange (String.◌∷◌ a s) (String.◌∷◌ b t) c =
    let rest = exchange s t c in if nat_eq (code a) (code c) then b else rest
exchange _ _ c = c

-- strings.ToUpper on ASCII, of which the names of flags are made.
to_upper : String → String
unfolding exchange
to_upper String.[] = ""
to_upper (String.◌∷◌ c s) = String.◌∷◌ (exchange lower_letters upper_letters c) (to_upper s)

-- strings.Replace(s, "-", "_", -1)
underscored : String → String
underscored String.[] = ""
underscored (String.◌∷◌ c s) = String.◌∷◌ (if nat_eq (code c) b'-' then "_" else c) (underscored s)

unfoldable pub flag_to_env_var_name : String → String
unfolding to_upper underscored
flag_to_env_var_name name = "ETOK_" <> underscored (to_upper name)

pub record Flag : Type 0 where
  pub name : String
  pub value : String

-- The first flag of a name.
unfoldable pub find_flag : List Flag → String → Option Flag
find_flag [] name = none
find_flag (f ∷ fs) name = let rest = find_flag fs name in if f.name == name then some f else rest

-- `GetEnvVars`: the flags of the configuration, by name in the order in which they are visited,
-- with the values of the set that was parsed.
unfoldable pub get_env_vars : List String → List Flag → List EnvVar
unfolding flag_to_env_var_name
get_env_vars [] fs = []
get_env_vars (name ∷ names) fs =
    let rest = get_env_vars names fs in
    elim (find_flag fs name) [
      | none ↦ rest
      | some f ↦ env (flag_to_env_var_name f.name) f.value ∷ rest
    ]

-- A command with its flags, and its children.
mutual
  pub data Command : Type 0 where
    command : List Flag → Children → Command

  pub data Children : Type 0 where
    no_child : Children
    child : Command → Children → Children

-- `set` is pflag's: the flag that a text leaves, whether or not it is accepted.
module _ (set : Flag → String → Flag) (environ : Dict String) where
  abbrev pub set_from : Flag → Option String → Flag
  set_from f none = f
  set_from f (some value) = set f value

  unfoldable pub set_flags : List Flag → List Flag
  unfolding flag_to_env_var_name
  set_flags [] = []
  set_flags (f ∷ fs) = set_from f (lookup (flag_to_env_var_name f.name) environ) ∷ set_flags fs

  unfoldable mutual
    unfolding set_flags

    pub set_flags_from_env_variables : Command → Command
    set_flags_from_env_variables (command flags children) =
        command (set_flags flags) (set_children children)

    pub set_children : Children → Children
    set_children no_child = no_child
    set_children (child c cs) = child (set_flags_from_env_variables c) (set_children cs)

unset_loop : Dict String → Dict String → Dict String
unset_loop [] environ = environ
unset_loop ((name, value) ∷ entries) environ =
    unset_loop entries (if starts_with name "ETOK_" then erase name environ else environ)

-- `UnsetEtokVars`
unfoldable pub unset_etok_vars : Dict String → Dict String
unfolding unset_loop
unset_etok_vars environ = unset_loop environ environ
