-- ===== src/Api/Runs/Once.antt =====
-- How often a job is delivered in a run of the control plane.
use provider_engine.Base.{ℕ, Text, List, some, ◌≡◌, ◌≢◌, sym, ap, ◌∙◌, All, ◌&&◌, true, arith, ◌==◌}
use provider_engine.Exec.{ok}
use provider_engine.World.{World}
use provider_engine.Store.Models.{Job, JobRow, running, Tables}
use provider_engine.Store.Postgres.{Postgres, waits_for, is_scheduled, scan_job}
use provider_engine.Store.Pending.{IsServer}
use provider_engine.Store.Started.{
  status_of, status_of-append, status_of-start, status_of-started, status_of-Listed,
}
use provider_engine.Store.Redis.{Redis}
use provider_engine.Store.Redis.Laws.{IsRedis}
use provider_engine.Scheduler.{poll_for_provider}
use provider_engine.Scheduler.Delivery.{IsDelivered, poll-IsDelivered}
use provider_engine.Api.Server.{Server, Config}
use provider_engine.Api.Runs.Kept.{IsKept, IsPolledBy-any, run-kept}
use provider_engine.Api.Runs.{Event, run}
use provider_engine.Api.Runs.Invariant.{IsSound, IsServed, run-IsSound, poll-IsSound}

module _ (r : Redis) (id : Text) where
  -- the job is running
  abbrev pub IsRunning : World r → Type 0
  IsRunning w = status_of id w.pg.jobs ≡ some running

  running-IsKept : IsKept (λ jobs. status_of id jobs ≡ some running) (λ p. Unit)
  running-IsKept = record {
    of_new = λ rows row fresh new v. status_of-append id rows _ running v;
    of_claim = λ db p t row server q c v. status_of-start id row.id t.jobs v;
  }

delivered_id :
    {db : Postgres} {p : Text} {t t' : Tables} {job : Job}
    → (v : IsDelivered db p t job t') → job.id ≡ v.row.id
unfolding scan_job
delivered_id v = ap (λ j. j.id) v.read

some-injective : {A : Type 0} {a b : A} → some a ≡ some b → a ≡ b
some-injective e = cc

not_running : (p : Text) (row : JobRow) → waits_for p row ≡ true → row.status ≢ running
not_running p row h e =
    let stuck : (row.provider_id == p && is_scheduled running) ≡ true = rw e at h in
    absurd (ground arith)

module _ (r : Redis) (ax : IsRedis r) (cfg : Config) where
  poll-IsRunning :
      (db : Postgres) (server : IsServer db) (p : Text) (wait : ℕ) (w : World r) (job : Job)
      → (poll_for_provider r db p wait w).0 ≡ ok (some job)
      → IsRunning r job.id (poll_for_provider r db p wait w).1
  poll-IsRunning db server p wait w job h =
      let v = poll-IsDelivered r ax db server p wait w job h in
      rw (v.running, delivered_id v) (status_of-started w.pg.jobs v.row v.listed)

  -- A job that a poll has delivered is delivered by no later poll, of any provider, whatever
  -- requests and ticks of SweepOffline come between: the id of a job delivered later differs. It
  -- assumes that at the first poll the ids of the jobs are distinct, no queue is longer than the
  -- jobs scheduled for its provider are many, and the addresses are distinct ones that were given,
  -- that Redis does what the code relies on, and that the queries meet the rows of the tables.
  pub poll_once :
      (db later_db : Postgres)
      → IsServer db
      → IsServer later_db
      → (p q : Text) (wait later_wait : ℕ) (s : Server r) (job later_job : Job) → IsSound r s.world
      → (poll_for_provider r db p wait s.world).0 ≡ ok (some job)
      → (es : List Event) → All IsServed es
      → (poll_for_provider r later_db q later_wait
          (run r cfg (record s { world = (poll_for_provider r db p wait s.world).1 }) es).world).0
        ≡ ok (some later_job)
      → later_job.id ≢ job.id
  poll_once db later_db server later_server p q wait later_wait s job later_job sound got es served
        again same =
      let after = record s { world = (poll_for_provider r db p wait s.world).1 } in
      let running_then =
        run-kept r (λ jobs. status_of job.id jobs ≡ some running) (λ p. Unit)
          (running-IsKept r job.id) cfg after es served (IsPolledBy-any es)
          (poll-IsRunning db server p wait s.world job got) in
      let sound_then =
        run-IsSound r ax cfg after es served (poll-IsSound r ax db server p wait s.world sound) in
      let v =
        poll-IsDelivered r ax later_db later_server q later_wait (run r cfg after es).world
          later_job again in
      let found =
        status_of-Listed (run r cfg after es).world.pg.jobs v.row sound_then.woken.distinct
          v.listed in
      let id : v.row.id ≡ job.id = sym (delivered_id v) ∙ same in
      not_running q v.row v.waiting (some-injective (sym found ∙ rw id running_then))
