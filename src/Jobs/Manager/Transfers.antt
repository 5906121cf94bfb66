-- ===== src/Jobs/Manager/Transfers.antt =====
-- What `run` hands to the NAS client (internal/jobs/manager.go): the transfer of a job, and the path
-- whose size is polled meanwhile.
pub mod Targets
use sftp_relay.Base.{String, Text, List}
use sftp_relay.Base.Int.{pos}
use sftp_relay.Base.Splitting.{join, base}
use sftp_relay.Db.Rows.{Server, Job}
use sftp_relay.Jobs.Manager.{setting_int}
use sftp_relay.Nas.Workspace.{TransferSpec}

unfoldable pub spec_of : Job → List (String × Text) → Server → TransferSpec
unfolding setting_int
spec_of job settings server = record {
  job_id = job.id;
  kind = job.kind;
  remote = job.remote_path;
  dest = job.dest_path;
  segments = pos (setting_int settings "segments" 4);
  parallel = pos (setting_int settings "parallel" 2);
  server = server;
}

-- The path as SFTP sees it.
unfoldable pub target_of : Job → Text
unfolding join base
target_of job = join job.dest_path (base job.remote_path)
