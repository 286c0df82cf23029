-- ===== src/Tests/Stores.antt =====
-- The theorems on the stores, the scheduler, the registry and the certificates.
use provider_engine.Base.{
  ◌+◌, ◌*◌, ◌/◌, ◌%◌, ◌≤◌, bytes, pos, negsuc, false, some, ◌≡◌, ◌↔◌, refl, arith, Listed, All,
  ◌==◌, decimal_ℤ,
}
use provider_engine.Errors.{no_rows}
use provider_engine.Exec.{ok, err}
use provider_engine.Store.Models.{Provider, Job, second}
use provider_engine.Store.Postgres.{
  eligible, best_provider, scan_best, next_pending_job, scan_job, insert_job, assign_job, start_row,
}
use provider_engine.Store.Best.{IsBest, best_provider-IsBest, best_provider-none_iff}
use provider_engine.Store.Redis.{
  wg_ip_of, port_of, alloc_port, pop_job, push_job, popped, job_queue_key,
}
use provider_engine.Store.Redis.Alloc.{wg_ip_of-IsProviderAddress_iff, IsProviderAddress}
use provider_engine.Store.Redis.Ports.{
  ports, AllApart, IsRelayPort, ports-AllApart, alloc_port-same_iff,
}
use provider_engine.Store.Redis.Memory.{Memory, memory, memory-IsRedis}
use provider_engine.Scheduler.{submit, submit_to, found_provider, poll_for_provider}
use provider_engine.Scheduler.Dispatch.{IsDispatched, submit-IsDispatched, IsLeft, submit-IsLeft}
use provider_engine.Scheduler.Delivery.{IsDelivered, poll-IsDelivered, poll-some}
use provider_engine.Scheduler.Wakeups.{IsWoken}
use provider_engine.Registry.{sweep_offline}
use provider_engine.Registry.Sweep.{Pairwise, IsSwept, sweep_offline-IsSwept}
use provider_engine.Registry.Addresses.{IsAddressed}
use provider_engine.SshCa.{SignRequest, certificate, duration_of_hours}
use provider_engine.SshCa.Window.{certificate-window, certificate-endless}
use provider_engine.Tests.Setting.{
  database, database-IsServer, provider_id, job_id, one_provider, tables, world, world_with_job,
  one_job, request_of, data_now,
}

wg_ip_of-IsProviderAddress_iff_example : IsProviderAddress (wg_ip_of (pos 300)) ↔ (300 ≤ 64516)
wg_ip_of-IsProviderAddress_iff_example = wg_ip_of-IsProviderAddress_iff 300 (omega arith)

ports-AllApart_example :
    All IsRelayPort (ports memory 10000 data_now) × AllApart (ports memory 10000 data_now)
unfolding ◌==◌
ports-AllApart_example = ports-AllApart memory memory-IsRedis 10000 0 data_now refl (omega arith)

-- after ten thousand more
abbrev data_later : Memory
data_later = record data_now { counters = λ k. pos 10000 }

alloc_port-same_iff_example : (pos 40001 ≡ pos 40001) ↔ (10000 % 10000 ≡ 0)
unfolding alloc_port port_of ◌==◌
alloc_port-same_iff_example =
    alloc_port-same_iff memory memory-IsRedis 0 10000 data_now data_later (pos 40001) (pos 40001)
      refl refl refl refl

abbrev sign_request : SignRequest
sign_request = record {
  user_pubkey = bytes "key";
  principal = bytes "root";
  vm_id = bytes "vm";
  ttl = duration_of_hours (pos 2);
}

certificate-window_example :
    ((certificate (pos (100 * second)) (bytes "key") sign_request).valid_after + 30
      ≡ 100 * second / second)
    × ((certificate (pos (100 * second)) (bytes "key") sign_request).valid_before
        ≡ 100 * second / second + 2 * 3600)
certificate-window_example =
    certificate-window (100 * second) 2 (bytes "key") sign_request (omega arith) (omega arith)
      (omega arith) refl

abbrev negative_request : SignRequest
negative_request = record sign_request { ttl = duration_of_hours (negsuc 0) }

certificate-endless_example :
    9223372036854775808
    ≤ (certificate (pos (100 * second)) (bytes "key") negative_request).valid_before
certificate-endless_example =
    certificate-endless (100 * second) 0 (bytes "key") negative_request (omega arith) (omega arith)
      refl

pub IsWoken-world : IsWoken memory tables.jobs world.redis
IsWoken-world = record { distinct = tt; covered = λ p. omega arith }

pub IsWoken-world_with_job : IsWoken memory world_with_job.pg.jobs world_with_job.redis
unfolding ◌==◌ job_queue_key
IsWoken-world_with_job = record { distinct = (tt, tt); covered = λ p. ground (arith) }

pub IsAddressed-world : IsAddressed memory tables.providers world.redis
unfolding wg_ip_of ◌==◌ decimal_ℤ
IsAddressed-world = record {
  taken = 1;
  counter = refl;
  drawn_before = ((1, omega arith, omega arith, refl), tt);
  distinct = (tt, tt);
}

submit-IsDispatched_example :
    IsDispatched memory database job_id
      (request_of (pos 2))
      world
      (record { job_id = job_id; provider_id = provider_id })
      (submit memory database job_id (request_of (pos 2)) world).1
unfolding submit found_provider best_provider submit_to insert_job assign_job push_job
submit-IsDispatched_example =
    submit-IsDispatched memory database job_id (request_of (pos 2)) world memory-IsRedis
      database-IsServer (record { job_id = job_id; provider_id = provider_id }) refl

submit-IsLeft_example :
    IsLeft memory database job_id
      (request_of (pos 2))
      world
      (submit memory database job_id (request_of (pos 2)) world).1
submit-IsLeft_example = submit-IsLeft memory database job_id (request_of (pos 2)) world

best_provider-IsBest_example :
    (row : Provider) × IsBest (pos 2) (pos 512) tables.providers row
    × (scan_best one_provider ≡ scan_best row)
unfolding best_provider
best_provider-IsBest_example =
    best_provider-IsBest database database-IsServer (pos 2) (pos 512) tables
      (scan_best one_provider) refl

best_provider-none_iff_example :
    ((best_provider database (pos 8) (pos 512) tables).0 ≡ err no_rows)
    ↔ ((x : Provider) → Listed x tables.providers → eligible (pos 8) (pos 512) x ≡ false)
best_provider-none_iff_example =
    best_provider-none_iff database database-IsServer (pos 8) (pos 512) tables refl

poll-IsDelivered_example :
    IsDelivered database provider_id world_with_job.pg
      (scan_job database one_job)
      (poll_for_provider memory database provider_id 25 world_with_job).1.pg
unfolding poll_for_provider pop_job popped next_pending_job start_row scan_job ◌==◌ job_queue_key
poll-IsDelivered_example =
    poll-IsDelivered memory memory-IsRedis database database-IsServer provider_id 25 world_with_job
      (scan_job database one_job) refl

poll-some_example :
    (job : Job) × ((poll_for_provider memory database provider_id 25 world_with_job).0
      ≡ ok (some job))
unfolding pop_job popped ◌==◌ job_queue_key
poll-some_example =
    poll-some memory memory-IsRedis database database-IsServer (λ s. refl) (λ id. refl) provider_id
      25 world_with_job IsWoken-world_with_job job_id (λ e. cc) refl

sweep_offline-IsSwept_example :
    Pairwise
      (IsSwept database.now)
      world.pg.providers
      (sweep_offline memory database world).pg.providers
sweep_offline-IsSwept_example = sweep_offline-IsSwept memory database world refl
