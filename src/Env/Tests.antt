-- ===== src/Env/Tests.antt =====
-- The settings on concrete values, and the theorem at one.
use mycedrive_k8s.Base.{◌≡◌, ◌⊎◌, refl, false, some, String, ℤ, pos, atoi, ◌==◌, if◌then◌else◌}
use mycedrive_k8s.Env.{env_bool, env_int, normalised, volume_migration_enabled}
use mycedrive_k8s.Env.Laws.{IsPort, env_int-cases}

abbrev rounds : String → String
rounds name =
    if name == "CHECKPOINT_ROUNDS"
    then "3"
    else if name == "ENABLE_VOLUME_MIGRATION"
    then " Off"
    else ""

env_int-cases_example :
    ((env_int rounds "CHECKPOINT_ROUNDS" (pos 1) ≡ pos 1)
      ⊎ ((atoi (rounds "CHECKPOINT_ROUNDS") ≡ some (env_int rounds "CHECKPOINT_ROUNDS" (pos 1)))
          × IsPort (env_int rounds "CHECKPOINT_ROUNDS" (pos 1))))
    × ((v : ℤ)
        → atoi (rounds "CHECKPOINT_ROUNDS") ≡ some v
        → IsPort v
        → env_int rounds "CHECKPOINT_ROUNDS" (pos 1) ≡ v)
env_int-cases_example = env_int-cases rounds "CHECKPOINT_ROUNDS" (pos 1)

off : volume_migration_enabled rounds ≡ false
unfolding volume_migration_enabled env_bool normalised
off = refl
