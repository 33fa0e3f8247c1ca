-- ===== src/Env/Laws.antt =====
-- go-agent/utils/system.go: what a setting can be.
use mycedrive_k8s.Base.{
  text-cases, ◌≡◌, ◌⊎◌, inl, inr, refl, Option, none, some, String, ℤ, pos, ◌≤ℤ◌, leℤ, atoi, arith,
  Bool-cases,
}
use mycedrive_k8s.Env.{Env, env_int, in_port_range}

-- A number that EnvInt takes.
abbrev pub IsPort : ℤ → Type 0
IsPort v = (pos 1 ≤ℤ v) × (v ≤ℤ pos 65535)

in_port_range-cases :
    (def : ℤ) (o : Option ℤ)
    → ((in_port_range def o ≡ def)
        ⊎ ((o ≡ some (in_port_range def o)) × IsPort (in_port_range def o)))
      × ((v : ℤ) → o ≡ some v → IsPort v → in_port_range def o ≡ v)
in_port_range-cases def none = (inl refl, λ v e h. cc)
in_port_range-cases def (some n) = elim (Bool-cases (leℤ n (pos 0))) [
  | inl low ↦ rw low (inl refl, λ v e h. ground (arith, e, h, low))
  | inr positive ↦ elim (Bool-cases (leℤ n (pos 65535))) [
    | inl fits ↦
        rw (positive, fits)
          (inr (refl, (ground (arith, positive), ground (arith, fits))), λ v e h. ground (arith, e))
    | inr high ↦ rw (positive, high) (inl refl, λ v e h. ground (arith, e, h, high))
  ]
]

-- EnvInt gives the default or a number from 1 to 65535 that the variable says, and it gives what the
-- variable says whenever that is such a number.
pub env_int-cases :
    (env : Env) (name : String) (def : ℤ)
    → ((env_int env name def ≡ def)
        ⊎ ((atoi (env name) ≡ some (env_int env name def)) × IsPort (env_int env name def)))
      × ((v : ℤ) → atoi (env name) ≡ some v → IsPort v → env_int env name def ≡ v)
unfolding env_int atoi
env_int-cases env name def = elim (text-cases (env name) "") [
  | inl empty ↦ rw empty (inl refl, λ v e h. cc)
  | inr given ↦ rw (given, env_int) (in_port_range-cases def (atoi (env name)))
]
