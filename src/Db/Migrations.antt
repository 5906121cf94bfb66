-- ===== src/Db/Migrations.antt =====
-- `migrate` of internal/db/db.go: the SQL files are applied in the order of their names, once each.
-- What the SQL of a file does to the rest of the database, `D`, is a parameter. A file and its row in
-- schema_migrations are one transaction; those before a failure stay.
pub mod Once
use sftp_relay.Base.{
  Text, List, [], ◌∷◌, Bool, true, false, ◌||◌, Option, none, some, text_eq, if◌then◌else◌, Error,
  Result, ok, err,
}
use sftp_relay.Base.Sorting.{text_ltb, sort_by}

pub record SqlFile : Type 0 where
  pub name : Text
  pub body : Text

pub record Schema (D : Type 0) : Type 0 where
  pub migrations : List Text
  pub rest : D

-- SELECT COUNT(*) FROM schema_migrations WHERE name = ?
unfoldable pub is_seen : Text → List Text → Bool
is_seen name [] = false
is_seen name (n ∷ ns) = let more = is_seen name ns in text_eq n name || more

module _ {D : Type 0} (apply : Text → D → Result D) where
  abbrev pub recorded :
      Text → Schema D → Result D → (Schema D → Option Error × Schema D) → Option Error × Schema D
  recorded name s (err e) next = (some e, s)
  recorded name s (ok rest) next = next (record { migrations = name ∷ s.migrations; rest = rest })

  unfoldable pub migrate_file :
      SqlFile → (Schema D → Option Error × Schema D) → Schema D → Option Error × Schema D
  unfolding is_seen
  migrate_file f next s =
      if is_seen f.name s.migrations then next s else recorded f.name s (apply f.body s.rest) next

  unfoldable pub migrate_all : List SqlFile → Schema D → Option Error × Schema D
  unfolding migrate_file
  migrate_all [] s = (none, s)
  migrate_all (f ∷ fs) s = migrate_file f (migrate_all fs) s

  abbrev pub by_name : SqlFile → SqlFile → Bool
  by_name a b = text_ltb a.name b.name

  unfoldable pub migrate : List SqlFile → Schema D → Option Error × Schema D
  unfolding migrate_all
  migrate files s = migrate_all (sort_by by_name files) s
