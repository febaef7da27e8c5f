-- ===== src/Install/Operator.antt =====
-- The operator that is installed gets the flags that were passed to the command: the variables of
-- its container are read by cmd/envvars/env_vars.go when it starts.
use etok.Base.{
  String, Bool, true, false, ◌≡◌, inl, inr, refl, sym, ap, ◌∙◌, Option, none, some, List, [], ◌∷◌,
  ◌++◌, arith, eq_iff, map, contains, Distinct, ==_cases, Option-cases,
}
use etok.Base.Dict.{Dict, lookup, insert, lookup-insert}
use etok.Kube.Pods.{EnvVar}
use etok.RunPod.{env}
use etok.EnvVars.{Flag, flag_to_env_var_name, find_flag, get_env_vars, set_from, set_flags}
use etok.Install.Resources.{Template, InstallOptions, with_image}
use etok.Install.{override_template}

-- The environment of a container: of two variables of one name the later counts.
abbrev pub environment : Dict String → List EnvVar → Dict String
environment environ [] = environ
environment environ (v ∷ vs) = environment (insert v.name v.value environ) vs

abbrev env_names : List String → List String
env_names names = map flag_to_env_var_name names

find_flag-name :
    (fs : List Flag) (name : String) (f : Flag) → find_flag fs name ≡ some f → f.name ≡ name
unfolding find_flag
find_flag-name [] name f at = cc
find_flag-name (g ∷ fs) name f at = ground (arith, eq_iff g.name name, find_flag-name fs name f)

environment-append :
    (environ : Dict String) (vs ws : List EnvVar)
    → environment environ (vs ++ ws) ≡ environment (environment environ vs) ws
environment-append environ [] ws = refl
environment-append environ (v ∷ vs) ws = environment-append (insert v.name v.value environ) vs ws

get_env_vars-none :
    (names : List String) (flags : List Flag) (name : String)
    → find_flag flags name ≡ none
    → get_env_vars (name ∷ names) flags ≡ get_env_vars names flags
unfolding get_env_vars
get_env_vars-none names flags name p = rw (p, get_env_vars) refl

get_env_vars-some :
    (names : List String) (flags : List Flag) (name : String) (f : Flag)
    → find_flag flags name ≡ some f
    → get_env_vars (name ∷ names) flags
      ≡ env (flag_to_env_var_name name) f.value ∷ get_env_vars names flags
unfolding get_env_vars
get_env_vars-some names flags name f p =
    rw (p, get_env_vars)
      (ap (λ n. env (flag_to_env_var_name n) f.value ∷ get_env_vars names flags)
        (find_flag-name flags name f p))

module _ (flags : List Flag) where
  -- A variable that no flag of the configuration gives is left as it is.
  other_lookup :
      (environ : Dict String) (names : List String) (key : String)
      → contains (env_names names) key ≡ false
      → lookup key (environment environ (get_env_vars names flags)) ≡ lookup key environ
  unfolding get_env_vars
  other_lookup environ [] key h = refl
  other_lookup environ (name ∷ names) key h =
      let variable = flag_to_env_var_name name in
      elim (Option-cases (find_flag flags name)) [
        | inl p ↦
            ap (λ vs. lookup key (environment environ vs)) (get_env_vars-none names flags name p)
            ∙ other_lookup environ names key (ground arith)
        | inr (f, p) ↦
            ap (λ vs. lookup key (environment environ vs)) (get_env_vars-some names flags name f p)
            ∙ (other_lookup (insert variable f.value environ) names key (ground arith)
                ∙ (lookup-insert variable key f.value environ ∙ ground arith))
      ]

  -- A flag of the configuration that was passed is found under the name of its variable.
  flag_lookup :
      (environ : Dict String) (names : List String) (name : String) (f : Flag)
      → Distinct (env_names names)
      → contains names name ≡ true
      → find_flag flags name ≡ some f
      → lookup (flag_to_env_var_name name) (environment environ (get_env_vars names flags))
        ≡ some f.value
  flag_lookup environ [] name f d c at = cc
  flag_lookup environ (n ∷ names) name f d c at =
      let key = flag_to_env_var_name name in
      let read : List EnvVar → Option String = λ vs. lookup key (environment environ vs) in
      elim (==_cases n name) [
        | inl (_, same) ↦
            let variable = flag_to_env_var_name n in
            ap read (get_env_vars-some names flags n f (ap (find_flag flags) same ∙ at))
            ∙ (other_lookup (insert variable f.value environ) names key
                  (ap (λ x. contains (env_names names) (flag_to_env_var_name x)) (sym same) ∙ d.0)
                ∙ (lookup-insert variable key f.value environ
                    ∙ ground (arith, eq_iff variable key, ap flag_to_env_var_name same)))
        | inr (other, _) ↦
            let later : contains names name ≡ true = ground arith in
            elim (Option-cases (find_flag flags n)) [
              | inl p ↦
                  ap read (get_env_vars-none names flags n p)
                  ∙ flag_lookup environ names name f d.1 later at
              | inr (g, p) ↦
                  ap read (get_env_vars-some names flags n g p)
                  ∙ flag_lookup (insert (flag_to_env_var_name n) g.value environ) names name f d.1
                      later at
            ]
      ]

image_variable : flag_to_env_var_name "image" ≡ "ETOK_IMAGE"
unfolding flag_to_env_var_name
image_variable = refl

module _ (set : Flag → String → Flag) where
  set_from-name :
      (environ : Dict String) (f : Flag) (o : Option String)
      → ((v : String) → (set f v).name ≡ f.name)
      → (set_from set environ f o).name ≡ f.name
  set_from-name environ f none kept = refl
  set_from-name environ f (some v) kept = kept v

  -- A flag of a command whose variable is set.
  find_flag-set_flags :
      (environ : Dict String) (fs : List Flag) (name value : String) (g : Flag)
      → ((f : Flag) (v : String) → (set f v).name ≡ f.name)
      → lookup (flag_to_env_var_name name) environ ≡ some value
      → find_flag fs name ≡ some g
      → find_flag (set_flags set environ fs) name ≡ some (set g value)
  unfolding set_flags find_flag
  find_flag-set_flags environ [] name value g kept there at = cc
  find_flag-set_flags environ (f ∷ fs) name value g kept there at = elim (==_cases f.name name) [
    | inl (here, same) ↦
        ground (arith, kept f value, ap (λ n. lookup (flag_to_env_var_name n) environ) same)
    | inr (other, _) ↦ ground (
      arith,
      find_flag-set_flags environ fs name value g kept there,
      set_from-name environ f (lookup (flag_to_env_var_name f.name) environ) (kept f),
    )
  ]

  override_template-env :
      (o : InstallOptions) (secret_present : Bool) (c c' : Template) (vars : List EnvVar)
      → c.env ≡ some vars
      → override_template o secret_present c ≡ some c'
      → c'.env ≡ some (vars ++ (env "ETOK_IMAGE" o.image ∷ o.backup_env))
  unfolding override_template with_image
  override_template-env o secret_present c c' vars old out = ground arith

  -- The operator that is deployed starts with the image that was passed to the command, and with
  -- every flag of the backup configuration that was passed: the variables that the command adds to
  -- the container set the flags of these names, the first of a name, to the values passed. This
  -- takes that the names of the variables of the configuration differ from one another and from
  -- that of the image, and that setting a flag keeps its name.
  pub operator-flags :
      (o : InstallOptions) (secret_present : Bool) (c c' : Template) (vars : List EnvVar)
      (names : List String) (flags operator : List Flag) (name : String) (f g h : Flag)
      → ((x : Flag) (v : String) → (set x v).name ≡ x.name)
      → c.env ≡ some vars
      → o.backup_env ≡ get_env_vars names flags
      → override_template o secret_present c ≡ some c'
      → Distinct ("ETOK_IMAGE" ∷ env_names names)
      → contains names name ≡ true
      → find_flag flags name ≡ some f
      → find_flag operator name ≡ some g
      → find_flag operator "image" ≡ some h
      → (vs : List EnvVar) × (c'.env ≡ some vs)
        × (find_flag (set_flags set (environment [] vs) operator) name ≡ some (set g f.value))
        × (find_flag (set_flags set (environment [] vs) operator) "image" ≡ some (set h o.image))
  operator-flags o secret_present c c' vars names flags operator name f g h kept old backup out d
        mine passed at image =
      (
        vars ++ given,
        override_template-env o secret_present c c' vars old out
            ∙ ap (λ vs. some (vars ++ (env "ETOK_IMAGE" o.image ∷ vs))) backup,
        find_flag-set_flags _ operator name f.value g kept
            (ap (lookup (flag_to_env_var_name name)) (environment-append [] vars given)
              ∙ flag_lookup flags _ names name f d.1 mine passed)
            at,
        find_flag-set_flags _ operator "image" o.image h kept
            (ap (lookup (flag_to_env_var_name "image")) (environment-append [] vars given)
              ∙ (ap (λ key. lookup key (environment before (get_env_vars names flags)))
                    image_variable
                  ∙ (other_lookup flags before names "ETOK_IMAGE" d.0
                      ∙ lookup-insert "ETOK_IMAGE" "ETOK_IMAGE" o.image (environment [] vars))))
            image,
      )
    where
      given : List EnvVar
      given = env "ETOK_IMAGE" o.image ∷ get_env_vars names flags

      before : Dict String
      before = insert "ETOK_IMAGE" o.image (environment [] vars)
