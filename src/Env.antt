-- ===== src/Env.antt =====
-- go-agent/utils/system.go: the settings of the Execution Agent. The environment is a function from
-- names to values, where a variable that is not set has the empty value, as os.Getenv says.
pub mod Laws
mod Tests
use mycedrive_k8s.Base.{
  ℕ, ◌+◌, Bool, true, false, ◌&&◌, ◌||◌, Option, none, some, List, [], ◌∷◌, String, ltb, leb, eqb,
  ℤ, pos, leℤ, atoi, code_points, ◌==◌, if◌then◌else◌,
}

abbrev pub Env : Type 0
Env = String → String

-- unicode.IsSpace
unfoldable pub is_space : ℕ → Bool
is_space c =
    (leb 9 c && leb c 13)
    || eqb c 32
    || eqb c 133
    || eqb c 160
    || eqb c 5760
    || (leb 8192 c && leb c 8202)
    || eqb c 8232
    || eqb c 8233
    || eqb c 8239
    || eqb c 8287
    || eqb c 12288

unfoldable pub trim_left : List ℕ → List ℕ
unfolding is_space
trim_left [] = []
trim_left (c ∷ cs) = let rest = trim_left cs in if is_space c then rest else c ∷ cs

abbrev or_trimmed : ℕ → List ℕ → List ℕ
unfolding is_space
or_trimmed c [] = if is_space c then [] else c ∷ []
or_trimmed c (d ∷ ds) = c ∷ d ∷ ds

unfoldable pub trim_right : List ℕ → List ℕ
unfolding or_trimmed
trim_right [] = []
trim_right (c ∷ cs) = or_trimmed c (trim_right cs)

-- unicode.ToLower on A to Z. No other character has a lower case among the letters that EnvBool looks
-- for.
unfoldable pub to_lower : List ℕ → List ℕ
to_lower [] = []
to_lower (c ∷ cs) = (if leb b'A' c && leb c b'Z' then c + 32 else c) ∷ to_lower cs

unfoldable pub same_text : List ℕ → List ℕ → Bool
same_text [] [] = true
same_text (c ∷ cs) (d ∷ ds) = eqb c d && same_text cs ds
same_text _ _ = false

unfoldable pub one_of : List ℕ → List String → Bool
unfolding same_text code_points
one_of text [] = false
one_of text (word ∷ words) = same_text text (code_points word) || one_of text words

abbrev pub true_words : List String
true_words = "1" ∷ "t" ∷ "true" ∷ "yes" ∷ "y" ∷ "on" ∷ []

abbrev pub false_words : List String
false_words = "0" ∷ "f" ∷ "false" ∷ "no" ∷ "n" ∷ "off" ∷ []

-- strings.ToLower(strings.TrimSpace(v))
unfoldable pub normalised : String → List ℕ
unfolding to_lower trim_left trim_right code_points
normalised v = to_lower (trim_left (trim_right (code_points v)))

-- EnvBool
unfoldable pub env_bool : Env → String → Bool → Bool
unfolding one_of normalised
env_bool env name def =
    if one_of (normalised (env name)) true_words
    then true
    else if one_of (normalised (env name)) false_words
    then false
    else def

abbrev in_port_range : ℤ → Option ℤ → ℤ
in_port_range def none = def
in_port_range def (some v) = if leℤ v (pos 0) then def else if leℤ v (pos 65535) then v else def

-- EnvInt
unfoldable pub env_int : Env → String → ℤ → ℤ
env_int env name def = if env name == "" then def else in_port_range def (atoi (env name))

-- EnvOr
unfoldable pub env_or : Env → String → String → String
env_or env name def = if env name == "" then def else env name

-- ProcessMigrationEnabled
unfoldable pub process_migration_enabled : Env → Bool
process_migration_enabled env = env_bool env "ENABLE_PROCESS_MIGRATION" true

-- VolumeMigrationEnabled
unfoldable pub volume_migration_enabled : Env → Bool
volume_migration_enabled env = env_bool env "ENABLE_VOLUME_MIGRATION" true

-- TransferPort of go-agent/utils/transfer.go
unfoldable pub transfer_port : Env → ℤ
transfer_port env = env_int env "CONTAINER_PORT" (pos 2486)
