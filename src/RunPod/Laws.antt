-- ===== src/RunPod/Laws.antt =====
-- What a run's pod gets.
use etok.Base.{◌≡◌, refl, ◌<>◌, true, arith, All, any, if◌then◌else◌, ◌==◌}
use etok.Api.Run.{Run}
use etok.Api.Workspace.{Workspace, Variable}
use etok.RunPod.{env, run_mounts, run_volumes, var_env}

-- A variable goes in by its value, also one that is to be read from elsewhere.
pub var_env_lem :
    (v : Variable)
    → var_env v ≡ env (if v.environment_variable then v.key else "TF_VAR_" <> v.key) v.value
unfolding var_env
var_env_lem v = refl

-- Every mount of the container is of a volume of the pod.
pub run_mounts-run_volumes :
    (run : Run) (ws : Workspace)
    → All (λ m. any (λ v. v.name == m.name) (run_volumes run ws) ≡ true) (run_mounts run ws)
unfolding run_mounts run_volumes
run_mounts-run_volumes run ws = ground arith
