-- ===== src/Config.antt =====
-- internal/config/config.go: the environment, seeded from a .env file. The environment is an
-- association list; the file is its lines, or `none` if it is missing. The limit of 64 KiB that the
-- scanner puts on one line is left out.
pub mod Seeding
use sftp_relay.Base.{
  ℕ, ◌+◌, ◌-◌, Text, List, [], ◌∷◌, map, Bool, true, false, not, ◌&&◌, ◌||◌, Option, none, some,
  text_eq, has_prefix, trim_space, atoi, codes, ◌==◌, leb, if◌then◌else◌, Error, external, Result,
  ok, err, ◌>>=◌,
}
use sftp_relay.Base.Int.{ℤ, pos, negsuc, add64}
use sftp_relay.Base.Splitting.{cut, trim_prefix, trim_right, trim_front}

abbrev pub Env : Type 0
Env = List (Text × Text)

-- os.LookupEnv
unfoldable pub lookup_env : Text → Env → Option Text
lookup_env k [] = none
lookup_env k ((j, v) ∷ m) = let rest = lookup_env k m in if text_eq j k then some v else rest

-- os.Getenv
abbrev pub or_blank : Option Text → Text
or_blank none = []
or_blank (some v) = v

abbrev pub holds_null : Text → Bool
holds_null [] = false
holds_null (c ∷ s) = let rest = holds_null s in c == 0 || rest

abbrev pub holds_equals : Text → Bool
holds_equals [] = false
holds_equals (c ∷ s) = let rest = holds_equals s in c == b'=' || rest

-- os.Setenv refuses a key that is empty or holds `=` or a zero byte, and a value with a zero byte.
unfoldable pub set_env : Text → Text → Env → Result Env
set_env k v env =
    if text_eq k [] || (holds_equals k || (holds_null k || holds_null v))
    then err (external (codes "invalid argument"))
    else ok ((k, v) ∷ env)

abbrev pub is_quote : ℕ → Bool
is_quote c = c == 34 || c == 39

-- strings.Trim(v, `"'`)
abbrev pub unquoted : Text → Text
unquoted v = trim_right is_quote (trim_front is_quote v)

abbrev pub assignment : Option (Text × Text) → Option (Text × Text)
assignment none = none
assignment (some (k, v)) =
    some (trim_space (trim_prefix k (codes "export ")), unquoted (trim_space v))

-- What a line sets: nothing, if it is blank, a comment, or has no `=`.
unfoldable pub parse_line : Text → Option (Text × Text)
unfolding cut
parse_line l =
    let t = trim_space l in
    if text_eq t [] || has_prefix t (codes "#") then none else assignment (cut b'=' t)

abbrev pub seed : Option (Text × Text) → Env → Result Env
seed none env = ok env
seed (some (k, v)) env = elim (lookup_env k env) [ some old ↦ ok env | none ↦ set_env k v env ]

unfoldable pub load_lines : List Text → Env → Result Env
unfolding parse_line lookup_env set_env
load_lines [] env = ok env
load_lines (l ∷ ls) env = seed (parse_line l) env >>= load_lines ls

-- A missing file is not an error.
abbrev pub load_dot_env : Option (List Text) → Env → Result Env
load_dot_env none env = ok env
load_dot_env (some ls) env = load_lines ls env

-- env(key, def): a blank variable counts as unset.
abbrev pub or_default : Text → Text → Text
or_default v def = if text_eq v [] then def else v

abbrev pub env_or : Text → Text → Env → Text
env_or key def env = or_default (or_blank (lookup_env key env)) def

-- slog.Level: a name, in any case, with an offset.
abbrev pub upper : ℕ → ℕ
upper c = if leb b'a' c && leb c b'z' then c - 32 else c

abbrev pub is_sign : ℕ → Bool
is_sign c = c == b'+' || c == b'-'

abbrev pub onto_name : ℕ → Text × Text → Text × Text
onto_name c (name, offset) = (c ∷ name, offset)

unfoldable pub at_sign : Text → Text × Text
at_sign [] = ([], [])
at_sign (c ∷ s) = let rest = at_sign s in if is_sign c then ([], c ∷ s) else onto_name c rest

abbrev pub level_value : Text → Option ℤ
level_value name =
    if text_eq name (codes "DEBUG")
    then some (negsuc 3)
    else if text_eq name (codes "INFO")
    then some (pos 0)
    else if text_eq name (codes "WARN")
    then some (pos 4)
    else if text_eq name (codes "ERROR")
    then some (pos 8)
    else none

abbrev pub offset_value : Text → Option ℤ
offset_value [] = some (pos 0)
offset_value (c ∷ s) = atoi (c ∷ s)

abbrev pub added : Option ℤ → Option ℤ → Option ℤ
added none o = none
added (some n) none = none
added (some n) (some m) = some (add64 n m)

unfoldable pub parse_level : Text → Option ℤ
unfolding at_sign
parse_level s =
    let (name, offset) = at_sign s in added (offset_value offset) (level_value (map upper name))

pub record Config : Type 0 where
  pub port : Text
  pub db_path : Text
  pub auth_user : Text
  pub auth_pass : Text
  pub nas_ssh_key_path : Text
  pub log_level : ℤ

abbrev pub with_level : Env → Option ℤ → Result Config
with_level env none = err (external (codes "bad LOG_LEVEL"))
with_level env (some level) = ok (record {
  port = env_or (codes "PORT") (codes "8080") env;
  db_path = env_or (codes "DB_PATH") (codes "/data/app.db") env;
  auth_user = or_blank (lookup_env (codes "AUTH_USER") env);
  auth_pass = or_blank (lookup_env (codes "AUTH_PASS") env);
  nas_ssh_key_path = or_blank (lookup_env (codes "NAS_SSH_KEY_PATH") env);
  log_level = level;
})

unfoldable pub config_of : Env → Result Config
unfolding parse_level lookup_env
config_of env = with_level env (parse_level (env_or (codes "LOG_LEVEL") (codes "info") env))

unfoldable pub load : Option (List Text) → Env → Result (Config × Env)
unfolding load_lines config_of
load file env = load_dot_env file env >>= λ env'. config_of env' >>= λ c. ok (c, env')
