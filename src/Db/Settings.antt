-- ===== src/Db/Settings.antt =====
-- The settings table of internal/db/repo.go. `Settings` returns the table as a map, which is the
-- field itself. The transaction of `SetSettings` commits all the pairs.
use sftp_relay.Base.{String, Text, List, [], ◌∷◌, assign}
use sftp_relay.Db.Rows.{Database}

unfoldable pub settings : Database → List (String × Text)
settings db = db.settings

unfoldable pub assign_all : List (String × Text) → List (String × Text) → List (String × Text)
assign_all [] m = m
assign_all ((k, v) ∷ kvs) m = assign_all kvs (assign k v m)

unfoldable pub set_settings : List (String × Text) → Database → Database
unfolding assign_all
set_settings kvs db = record db { settings = assign_all kvs db.settings }
