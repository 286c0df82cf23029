-- ===== src/Tests/Runs.antt =====
-- The theorem on runs, with two jobs for one provider.
use provider_engine.Base.{
  Text, bytes, [], ◌∷◌, ◌≡◌, ◌≢◌, refl, arith, ◌==◌, ==_iff, true, false, decimal_ℤ,
}
use provider_engine.World.{World}
use provider_engine.Store.Models.{JobRow}
use provider_engine.Store.Redis.{job_queue_key, wg_ip_of}
use provider_engine.Store.Redis.Memory.{memory, put}
use provider_engine.Api.Http.{Request}
use provider_engine.Api.Server.{Server}
use provider_engine.Api.Runs.{sweep, run, request}
use provider_engine.Api.Runs.Invariant.{IsSound}
use provider_engine.Api.Runs.Lifecycle.{phase_of, delivered, ◌⟶*◌, run-advances, run-withheld}
use provider_engine.Api.Routes.{endpoint, polling}
use provider_engine.Tests.Setting.{
  database, database-IsServer, provider_id, job_id, tables, data_now, one_job, config, env_now,
}

abbrev pub second_id : Text
second_id = bytes "j2"

abbrev pub second_job : JobRow
second_job = record one_job { id = second_id }

abbrev pub two_jobs : World memory
two_jobs = record {
  pg = record tables { jobs = one_job ∷ second_job ∷ [] };
  redis = record data_now {
    lists = put (λ k. []) (job_queue_key provider_id) (job_id ∷ second_id ∷ []);
  };
}

abbrev pub two_jobs_server : Server memory
two_jobs_server = record { world = two_jobs; actions = [] }

pub two_jobs-IsSound : IsSound memory two_jobs
unfolding ◌==◌ job_queue_key wg_ip_of decimal_ℤ
two_jobs-IsSound = record {
  woken = record {
    distinct =
        (((λ e. let same : false ≡ true = (==_iff second_id job_id).1 e in cc same), tt), (tt, tt));
    covered = λ p. ground arith;
  };
  addressed = record {
    taken = 1;
    counter = refl;
    drawn_before = ((1, omega arith, omega arith, refl), tt);
    distinct = (tt, tt);
  };
}

run-advances_example :
    phase_of job_id two_jobs.pg.jobs
    ⟶* phase_of job_id (run memory config two_jobs_server (sweep database ∷ [])).world.pg.jobs
run-advances_example =
    run-advances memory config job_id two_jobs_server (sweep database ∷ [])
      two_jobs-IsSound.woken.distinct (tt, tt)

-- a poll of another provider
abbrev other_poll : Request
other_poll = record {
  method = bytes "GET";
  path = bytes "api" ∷ bytes "v1" ∷ bytes "providers" ∷ bytes "p2" ∷ bytes "jobs" ∷ [];
  authorization = [];
  body = [];
}

other_alone : (p : Text) → endpoint other_poll.method other_poll.path ≡ polling p → p ≢ provider_id
unfolding endpoint ◌==◌
other_alone p e same =
    let named : bytes "p2" ≡ provider_id = cc (e, same) in
    let stuck : false ≡ true = (==_iff (bytes "p2") provider_id).1 named in cc stuck

run-withheld_example :
    phase_of job_id
      (run memory config two_jobs_server (request env_now other_poll ∷ [])).world.pg.jobs
    ≢ delivered provider_id
unfolding ◌==◌
run-withheld_example =
    run-withheld memory config job_id provider_id two_jobs_server (request env_now other_poll ∷ [])
      two_jobs-IsSound.woken.distinct (database-IsServer, tt) (other_alone, tt) (λ e. cc e)
