-- ===== src/Store/Pending.antt =====
-- Every way in which NextPendingJob can end.
use provider_engine.Base.{
  Text, List, Bool, not, ◌&&◌, Option, none, some, ◌≡◌, ◌↔◌, refl, true, Listed, Listed-select,
  select,
}
use provider_engine.Errors.{Error, driver}
use provider_engine.Exec.{Result, ok, err, continue, pure, ◌>>=◌, ◌>>◌}
use provider_engine.Store.Models.{Job, JobRow, Provider, Tables}
use provider_engine.Store.Sql.{first_by, first_by-Listed, update}
use provider_engine.Store.Postgres.{
  Postgres, Reply, done, refused, unconfirmed, settle, beginning, selecting_pending,
  setting_running, committing, waits_for, older, scan_job, next_pending_job, start_row, exec,
  set_jobs,
}
use provider_engine.Store.Jobs.{has_id, start, Ran, not_done, half_done, all_done, settle-Ran}

-- A query meets every row of a table, in some order.
pub record IsServer (db : Postgres) : Type 0 where
  pub providers_same :
      (rows : List Provider) (x : Provider) → Listed x (db.scan_providers rows) ↔ Listed x rows
  pub jobs_same : (rows : List JobRow) (x : JobRow) → Listed x (db.scan_jobs rows) ↔ Listed x rows

-- The rows that the query of NextPendingJob chooses from.
abbrev pub claimable : Postgres → Text → JobRow → Bool
claimable db p x = waits_for p x && not (db.locked x.id)

abbrev pub started : Tables → JobRow → Tables
started t row = record t { jobs = update (has_id row.id) start t.jobs }

module _ (db : Postgres) (p : Text) (t : Tables) where
  abbrev pub Chosen : Option JobRow → Type 0
  Chosen o = first_by older (select (claimable db p) (db.scan_jobs t.jobs)) ≡ o

  pub data Next : Result (Option Job) × Tables → Type 0 where
    no_job : Chosen none → Next (ok none, t)
    failed : (e : Error) → Next (err e, t)
    claimed : (row : JobRow) → Chosen (some row) → Next (ok (some (scan_job db row)), started t row)
    -- the commit was made, and its answer was lost
    lost : (e : Error) (row : JobRow) → Chosen (some row) → Next (err e, started t row)

  after_commit :
      (row : JobRow) (out : Result (Unit {0}) × Tables)
      → Chosen (some row)
      → Ran t (started t row) out
      → Next (continue (λ _. pure (some (scan_job db row))) out)
  after_commit row out c (not_done e) = failed e
  after_commit row out c (half_done e) = lost e row c
  after_commit row out c all_done = claimed row c

  abbrev set_rest : JobRow → Result (Unit {0}) × Tables → Result (Option Job) × Tables
  set_rest row out =
      continue
        (λ _.
          exec db committing (set_jobs (update (has_id row.id) start))
          >> pure (some (scan_job db row)))
        out

  after_set :
      (row : JobRow) (out : Result (Unit {0}) × Tables)
      → Chosen (some row)
      → Ran t t out
      → Next (set_rest row out)
  after_set row out c (not_done e) = failed e
  after_set row out c (half_done e) = failed e
  after_set row out c all_done =
      after_commit row _ c (settle-Ran (db.reply committing) t (started t row))

  start_row-Next : (o : Option JobRow) → Chosen o → Next (start_row db o t)
  unfolding start_row
  start_row-Next none c = no_job c
  start_row-Next (some row) c = after_set row _ c (settle-Ran (db.reply setting_running) t t)

  abbrev query : Tables → Option JobRow
  query u = first_by older (select (claimable db p) (db.scan_jobs u.jobs))

  abbrev query_rest : Result (Option JobRow) × Tables → Result (Option Job) × Tables
  query_rest = continue (start_row db)

  after_query : (x : Reply) → Next (query_rest (settle x (ok (query t), t) t))
  after_query done = start_row-Next (query t) refl
  after_query (refused e) = failed (driver e)
  after_query (unconfirmed e) = failed (driver e)

  abbrev begin_rest : Result (Unit {0}) × Tables → Result (Option Job) × Tables
  begin_rest out =
      continue (λ _. exec db selecting_pending (λ u. (ok (query u), u)) >>= start_row db) out

  after_begin : (out : Result (Unit {0}) × Tables) → Ran t t out → Next (begin_rest out)
  after_begin out (not_done e) = failed e
  after_begin out (half_done e) = failed e
  after_begin out all_done = after_query (db.reply selecting_pending)

  pub next_pending_job-Next : Next (next_pending_job db p t)
  unfolding next_pending_job
  next_pending_job-Next = after_begin _ (settle-Ran (db.reply beginning) t t)

-- The row that the query chooses is in the table and may be claimed.
pub Chosen-Listed :
    (db : Postgres) (server : IsServer db) (p : Text) (t : Tables) (row : JobRow)
    → Chosen db p t (some row)
    → Listed row t.jobs × (claimable db p row ≡ true)
Chosen-Listed db server p t row c =
    let (listed, good) =
      Listed-select (claimable db p) row (db.scan_jobs t.jobs) (first_by-Listed older _ row c) in
    ((server.jobs_same t.jobs row).0 listed, good)
