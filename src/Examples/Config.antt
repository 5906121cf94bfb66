-- ===== src/Examples/Config.antt =====
-- A small .env file, and two migrations (internal/config/config.go and internal/db/db.go).
use sftp_relay.Base.{
  Text, List, [], ◌∷◌, none, codes, ◌≡◌, refl, Result, ok, trim_space, trim_left, arith,
}
use sftp_relay.Config.{Env, parse_line, lookup_env, set_env, load_lines}
use sftp_relay.Config.Seeding.{or_else, first_value, load_lines-lookup_env}
use sftp_relay.Base.Splitting.{cut, drop_prefix, trim_right, trim_front}
use sftp_relay.Db.Migrations.{SqlFile, Schema, migrate}
use sftp_relay.Db.Migrations.Once.{IsOnce, migrate-IsOnce}

abbrev env_lines : List Text
env_lines = codes "# relay" ∷ codes "export PORT = \"9000\"" ∷ codes "PORT=1" ∷ codes "HOME=/x" ∷ []

abbrev started_with : Env
started_with = (codes "HOME", codes "/root") ∷ []

abbrev seeded : Env
seeded = (codes "PORT", codes "9000") ∷ started_with

env_loads : load_lines env_lines started_with ≡ ok seeded
unfolding load_lines parse_line lookup_env set_env cut trim_space trim_left drop_prefix trim_right
    trim_front
env_loads = refl

load_lines-lookup_env_example :
    lookup_env (codes "PORT") seeded
    ≡ or_else (lookup_env (codes "PORT") started_with) (first_value (codes "PORT") env_lines)
load_lines-lookup_env_example =
    load_lines-lookup_env env_lines started_with seeded (codes "PORT") env_loads

abbrev sql_files : List SqlFile
sql_files =
    record { name = codes "0002_more.sql"; body = codes "ALTER" }
    ∷ record { name = codes "0001_init.sql"; body = codes "CREATE" }
    ∷ []

abbrev applied : Text → List Text → Result (List Text)
applied body done = ok (body ∷ done)

abbrev first_applied : Schema (List Text)
first_applied = record { migrations = codes "0001_init.sql" ∷ []; rest = codes "CREATE" ∷ [] }

first_applied-IsOnce : IsOnce first_applied.migrations
first_applied-IsOnce name = ground arith

migrate-IsOnce_example :
    let x = migrate applied sql_files first_applied in
    IsOnce x.1.migrations × (x.0 ≡ none → migrate applied sql_files x.1 ≡ (none, x.1))
migrate-IsOnce_example = migrate-IsOnce applied sql_files first_applied first_applied-IsOnce
