-- ===== src/Db/Writes/Soundness.antt =====
-- What every sequence of writes keeps (internal/db/repo.go).
