-- ===== src/Link/Turn.antt =====
-- A turn of the agent's loop over the link: from the server's queue to the server's table of VMs.
use provider_engine.Base.{pos, Text, bytes, ℤ, [], Option, none, some, ◌≡◌}
use provider_engine.Errors.{message}
use provider_engine.Exec.{Result, ok, err}
use provider_engine.Machine.{Os}
use provider_engine.World.{World, on_pg}
use provider_engine.Store.Models.{Job}
use provider_engine.Store.Postgres.{upsert_vm}
use provider_engine.Store.Redis.{Redis}
use provider_engine.Api.Http.{ReportBody, value}
use provider_engine.Api.Requests.{vm_of}
use provider_engine.Api.Server.{Server, Env, Config}
use provider_engine.Provider.Client.{Client, Sent, DeployJob, VmReport, reporting}
use provider_engine.Provider.Keys.{Device}
use provider_engine.Provider.Wireguard.{Keygen}
use provider_engine.Provider.Attestation.{Binary}
use provider_engine.Provider.Vm.Firecracker.{Vmm}
use provider_engine.Provider.Agent.{Agent, mode_of, Spawned, started, failed, panicked, unstarted}
use provider_engine.Provider.Agent.Report.{report_request, due_running, due_failed, spawned}
use provider_engine.Provider.Agent.Starting.{IsSpawned}
use provider_engine.Provider.Run.{Platform, Joined}
use provider_engine.Link.{Wire, network}
use provider_engine.Link.Delivery.{job_of}

-- what the server decodes of a report
abbrev pub body_of : VmReport → ReportBody
body_of v = record {
  job_id = v.job_id;
  provider_id = v.provider_id;
  vm_ip = v.vm_ip;
  port = v.port;
  status = v.status;
  error = v.error;
}

-- The server decodes this report: the names of its fields are the same on both sides.
abbrev pub Reads : Wire → Env → VmReport → Type 0
Reads w env v = env.codec.report_body (w.print (reporting v)) ≡ value (body_of v)

module _ (r : Redis) (env : Env) where
  -- the world after the handler of a report
  abbrev pub recorded : VmReport → World r → World r
  recorded v w = (on_pg (upsert_vm env.db (vm_of env.now (body_of v))) w).1

module _ (w : Wire) (r : Redis) (cfg : Config) (env : Env) (c : Client) (s : Server r) where
  reporting_of : VmReport → Sent
  reporting_of = report_request (network w r cfg env s) c

module _ (r : Redis) (env : Env) (c : Client) (job : DeployJob) where
  -- the world after a row for this job and this provider was written to the table of VMs, or that
  -- statement failed
  abbrev pub written : Text → ℤ → Text → Text → World r → World r
  written ip port status error w =
      (on_pg
        (upsert_vm env.db (record {
          id = job.job_id;
          job_id = job.job_id;
          provider_id = c.provider_id;
          vm_ip = ip;
          port = port;
          status = status;
          error = error;
          created_at = env.now;
        }))
        w).1

  -- What the handling of the job leaves of the agent and the server, by what starting the machine
  -- gave
  abbrev pub IsRecorded : Spawned → Server r → Option Agent × Server r → Type 0
  IsRecorded (started ip port) s (a, s') =
      s' ≡ record s { world = written ip port (bytes "running") [] s.world }
  IsRecorded (failed e) s (a, s') =
      s' ≡ record s { world = written [] (pos 0) (bytes "failed") (message e) s.world }
  IsRecorded unstarted s (a, s') =
      s' ≡ record s { world = written [] (pos 0) (bytes "running") [] s.world }
  IsRecorded panicked s (a, s') = (a ≡ none) × (s' ≡ s)

  -- the server decodes the report that is due
  abbrev pub IsUnderstood : Wire → Spawned → Type 0
  IsUnderstood w (started ip port) = Reads w env (due_running c job ip port)
  IsUnderstood w (failed e) = Reads w env (due_failed c job e)
  IsUnderstood w unstarted = Reads w env (due_running c job [] (pos 0))
  IsUnderstood w panicked = Unit {0}

module _ (w : Wire) (r : Redis) (cfg : Config) (os : Os) (gen : Keygen) (bin : Binary)
    (platform : Platform) (dev : Device) (vmm : Vmm) (ssh_port : ℤ) (env env' : Env) (j : Joined)
    (a : Agent) where
  -- what starting the machine of a job gives in this turn
  abbrev pub started_by : Job → Spawned
  started_by job =
      spawned dev os vmm (job_of job) j.mode j.response.tunnel_port ssh_port j.response.wg_ip
        (record a { sent = [] })

  -- The agent and the server after a turn: the poll has happened, and if its answer, which was lost
  -- with this error or not, delivered a job, then the job's machine was started the way of the mode
  -- and what came of it was recorded.
  abbrev pub IsTurned :
      Server r → Option Text → Result (Option Job) → Option Agent × Server r → Type 0
  IsTurned s (some e) out x = x ≡ (some a, s)
  IsTurned s none (err e) x = x ≡ (some a, s)
  IsTurned s none (ok none) x = x ≡ (some a, s)
  IsTurned s none (ok (some job)) x =
      IsSpawned dev os vmm (job_of job) j.response.tunnel_port ssh_port j.response.wg_ip
        (record a { sent = [] }) (mode_of j.mode) (started_by job)
      × IsRecorded r env' j.client (job_of job) (started_by job) s x

  abbrev pub IsDecoded : Result (Option Job) → Type 0
  IsDecoded (err e) = Unit {0}
  IsDecoded (ok none) = Unit {0}
  IsDecoded (ok (some job)) = IsUnderstood r env' j.client (job_of job) w (started_by job)
