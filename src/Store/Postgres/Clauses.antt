-- ===== src/Store/Postgres/Clauses.antt =====
-- The conditions, orders and columns of the SQL texts of dcp-control-plane/pkg/store/postgres.go.
use provider_engine.Base.{◌+◌, Text, ◌==◌, ℤ, leb_ℤ, Bool, true, false, ◌&&◌, ltb, leb}
use provider_engine.Store.Models.{
  Time, Provider, zero_provider, is_online, JobRow, JobStatus, pending, scheduled, running, failed,
}

abbrev pub eligible : ℤ → ℤ → Provider → Bool
eligible cpu mem r = is_online r.status && (leb_ℤ cpu r.cpu_cores && leb_ℤ mem r.mem_free_mb)

-- ORDER BY mem_free_mb DESC
abbrev pub more_memory : Provider → Provider → Bool
more_memory a b = leb_ℤ b.mem_free_mb a.mem_free_mb

abbrev pub scan_best : Provider → Provider
scan_best r = record zero_provider {
  id = r.id;
  wg_ip = r.wg_ip;
  tunnel_port = r.tunnel_port;
  mode = r.mode;
}

abbrev pub is_scheduled : JobStatus → Bool
is_scheduled scheduled = true
is_scheduled pending = false
is_scheduled running = false
is_scheduled failed = false

abbrev pub waits_for : Text → JobRow → Bool
waits_for provider r = r.provider_id == provider && is_scheduled r.status

-- ORDER BY created_at ASC
abbrev pub older : JobRow → JobRow → Bool
older a b = leb a.created_at b.created_at

-- last_seen < NOW() - interval
abbrev pub is_stale : Time → Time → Provider → Bool
is_stale now older_than r = is_online r.status && ltb (r.last_seen + older_than) now
