-- ===== src/Store/Postgres.antt =====
-- dcp-control-plane/pkg/store/postgres.go: each method of `PG` as an action on the tables. The
-- statements are the SQL texts of that file. The server is the parameter `db`: it says when a
-- statement fails, what NOW() is, in which order a query meets the rows, and which rows other
-- transactions have locked.
mod Server
mod Clauses
use mathlib.Core.Option
use provider_engine.Base.{
  count, ℕ, ◌+◌, Text, ◌==◌, ℤ, pos, leb_ℤ, List, [], ◌∷◌, ◌++◌, Bool, true, false, ◌&&◌, not,
  Option, none, some, ltb, leb, if◌then◌else◌, select, map,
}
use provider_engine.Errors.{driver, no_rows}
use provider_engine.Exec.{Result, ok, err, Exec, pure, ◌>>=◌, ◌>>◌}
use provider_engine.Store.Models.{
  Time, Provider, zero_provider, online, offline, is_online, Vm, Env, Job, JobRow, JobStatus,
  pending, scheduled, running, failed, Tables,
}
use provider_engine.Store.Sql.{exists, update, first_by, sort_by}
pub use Server.*
pub use Clauses.*

module _ (db : Postgres) where
  abbrev pub exec : {A : Type 0} → Statement → Exec Tables A → Exec Tables A
  exec s m t = settle (db.reply s) (m t) t

  -- The conflicting row keeps all but three columns.
  unfoldable pub upsert_rows : Provider → List Provider → List Provider
  upsert_rows pr rows =
      if exists (λ r. r.id == pr.id) rows
      then update (λ r. r.id == pr.id)
          (λ r. record r { wg_pubkey = pr.wg_pubkey; status = online; last_seen = db.now }) rows
      else rows
        ++ record pr {
          status = online;
          active_vms = pos 0;
          cpu_load = 0;
          mem_free_mb = pos 0;
          last_seen = db.now;
        }
          ∷ []

  unfoldable pub upsert_provider : Provider → Exec Tables (Unit {0})
  upsert_provider pr = exec upserting_provider (set_providers (upsert_rows pr))

  unfoldable pub update_heartbeat : Text → ℤ → ℕ → ℤ → Exec Tables (Unit {0})
  update_heartbeat id active_vms cpu_load mem_free = exec updating_heartbeat (
      set_providers λ rows.
        update (λ r. r.id == id)
          (λ r. record r {
            last_seen = db.now;
            active_vms = active_vms;
            cpu_load = db.real cpu_load;
            mem_free_mb = mem_free;
            status = online;
          })
          rows)

  -- returns the number of rows affected
  unfoldable pub mark_offline : Time → Exec Tables ℕ
  mark_offline older_than = exec marking_offline λ t. (
    ok (count (is_stale db.now older_than) t.providers),
    record t {
      providers =
          update (is_stale db.now older_than) (λ r. record r { status = offline }) t.providers;
    },
  )

  unfoldable pub best_provider : ℤ → ℤ → Exec Tables Provider
  best_provider cpu mem = exec selecting_best λ t.
      scan_row
        (Option.map scan_best
          (first_by more_memory (select (eligible cpu mem) (db.scan_providers t.providers))))
        t

  unfoldable pub insert_job : Job → Exec Tables (Unit {0})
  insert_job j = exec inserting_job λ t.
      if exists (λ r. r.id == j.id) t.jobs
      then (err (driver db.duplicate_key), t)
      else set_jobs
          (λ rows.
            rows
            ++ record {
              id = j.id;
              provider_id = [];
              image_url = j.image_url;
              cpu_cores = j.cpu_cores;
              memory_mb = j.memory_mb;
              disk_gb = j.disk_gb;
              ssh_pubkey = j.ssh_pubkey;
              env = db.marshal j.env;
              status = pending;
              created_at = j.created_at;
            }
              ∷ [])
          t

  unfoldable pub assign_job : Text → Text → Exec Tables (Unit {0})
  assign_job job_id provider_id = exec assigning_job (
      set_jobs (
        update (λ r. r.id == job_id)
          (λ r. record r { provider_id = provider_id; status = scheduled })))

  unfoldable pub scan_job : JobRow → Job
  scan_job r = record {
    id = r.id;
    provider_id = [];
    image_url = r.image_url;
    cpu_cores = r.cpu_cores;
    memory_mb = r.memory_mb;
    disk_gb = r.disk_gb;
    ssh_pubkey = r.ssh_pubkey;
    env = db.unmarshal r.env;
    created_at = 0;
  }

  -- The update of the transaction becomes durable when it commits.
  unfoldable pub start_row : Option JobRow → Exec Tables (Option Job)
  start_row none = pure none
  start_row (some row) = do
    exec setting_running (pure tt)
    exec committing (set_jobs (update (λ r. r.id == row.id) (λ r. record r { status = running })))
    pure (some (scan_job row))

  unfoldable pub next_pending_job : Text → Exec Tables (Option Job)
  unfolding start_row scan_job
  next_pending_job provider_id = do
    exec beginning (pure tt)
    row ← exec selecting_pending λ t. (
      ok (
          first_by older
            (select (λ r. waits_for provider_id r && not (db.locked r.id)) (db.scan_jobs t.jobs))),
      t,
    )
    start_row row

  -- A row of an unknown provider breaks the REFERENCES constraint, but only when it is inserted.
  unfoldable pub upsert_vm : Vm → Exec Tables (Unit {0})
  upsert_vm v = exec upserting_vm λ t.
      if exists (λ r. r.id == v.id) t.vms
      then (
        ok tt,
        record t {
          vms =
              update (λ r. r.id == v.id) (λ r. record r { status = v.status; error = v.error })
                t.vms;
        },
      )
      else if exists (λ r. r.id == v.provider_id) t.providers
      then (ok tt, record t { vms = t.vms ++ v ∷ [] })
      else (err (driver db.no_parent), t)

  unfoldable pub get_provider : Text → Exec Tables Provider
  get_provider id = exec selecting_provider λ t.
      scan_row
        (Option.map
          (λ r. record zero_provider {
            id = r.id;
            wg_pubkey = r.wg_pubkey;
            wg_ip = r.wg_ip;
            tunnel_port = r.tunnel_port;
            mode = r.mode;
            status = r.status;
          })
          (first_by (λ _ _. true) (select (λ r. r.id == id) (db.scan_providers t.providers))))
        t

  -- ORDER BY last_seen DESC
  unfoldable pub list_providers : Exec Tables (List Provider)
  list_providers = exec listing_providers λ t. (
    ok (
        map
          (λ r. record zero_provider {
            id = r.id;
            location = r.location;
            mode = r.mode;
            cpu_cores = r.cpu_cores;
            memory_mb = r.memory_mb;
            status = r.status;
            active_vms = r.active_vms;
            cpu_load = r.cpu_load;
            last_seen = r.last_seen;
          })
          (sort_by (λ a b. leb b.last_seen a.last_seen) (db.scan_providers t.providers))),
    t,
  )
