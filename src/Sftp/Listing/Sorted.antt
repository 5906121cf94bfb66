-- ===== src/Sftp/Listing/Sorted.antt =====
-- The order of a listing (internal/sftpclient/sftpclient.go).
use sftp_relay.Base.{List}
use sftp_relay.Sftp.Pool.{Pool}
