-- ===== src/Scheduler.antt =====
-- dcp-control-plane/internal/scheduler/scheduler.go
pub mod Outcome
pub mod Poll
pub mod Wakeups
pub mod Dispatch
pub mod Delivery
use provider_engine.Base.{ℕ, Text, bytes, ◌==◌, ℤ, [], Option, none, if◌then◌else◌}
use provider_engine.Errors.{Error, no_rows, no_capacity, wrap}
use provider_engine.Exec.{Exec, pure, map_error, wrapping, ◌>>=◌, ◌>>◌}
use provider_engine.World.{World, on_pg, on_redis}
use provider_engine.Store.Models.{Env, Job, Provider}
use provider_engine.Store.Postgres.{
  Postgres, best_provider, insert_job, assign_job, next_pending_job,
}
use provider_engine.Store.Redis.{Redis, push_job, pop_job}

pub record DeployRequest : Type 0 where
  pub image_url : Text
  pub cpu_cores : ℤ
  pub memory_mb : ℤ
  pub disk_gb : ℤ
  pub ssh_pubkey : Text
  pub env : Env

pub record DeployResult : Type 0 where
  pub job_id : Text
  pub provider_id : Text

-- `err == sql.ErrNoRows` has a text of its own; any other error is wrapped.
unfoldable pub find_error : DeployRequest → Error → Error
find_error req no_rows = no_capacity req.cpu_cores req.memory_mb
find_error req e = wrap (bytes "find provider") e

-- The struct that Submit inserts; its CreatedAt is not set, so it is Go's zero time.
unfoldable pub new_job : DeployRequest → Text → Text → Job
new_job req job_id provider_id = record {
  id = job_id;
  provider_id = provider_id;
  image_url = req.image_url;
  cpu_cores = req.cpu_cores;
  memory_mb = req.memory_mb;
  disk_gb = req.disk_gb;
  ssh_pubkey = req.ssh_pubkey;
  env = req.env;
  created_at = 0;
}

module _ (r : Redis) (db : Postgres) where
  unfoldable pub found_provider : DeployRequest → Exec (World r) Provider
  unfolding find_error
  found_provider req =
      map_error (find_error req) (on_pg (best_provider db req.cpu_cores req.memory_mb))

  -- Submit from the point where a provider is found
  unfoldable pub submit_to : Text → DeployRequest → Provider → Exec (World r) DeployResult
  unfolding new_job
  submit_to job_id req provider = do
    wrapping (bytes "insert job") (on_pg (insert_job db (new_job req job_id provider.id)))
    wrapping (bytes "assign job") (on_pg (assign_job db job_id provider.id))
    wrapping (bytes "push job to redis") (on_redis (push_job r provider.id job_id))
    pure (record { job_id = job_id; provider_id = provider.id })

  -- `job_id` is the `uuid.New().String()` of this call
  unfoldable pub submit : Text → DeployRequest → Exec (World r) DeployResult
  submit job_id req = do provider ← found_provider req; submit_to job_id req provider

  unfoldable pub poll_for_provider : Text → ℕ → Exec (World r) (Option Job)
  poll_for_provider provider_id wait_sec = do
    job_id ← on_redis (pop_job r provider_id wait_sec)
    if job_id == [] then pure none else on_pg (next_pending_job db provider_id)
