-- ===== src/Store/Postgres/Server.antt =====
-- The PostgreSQL server behind dcp-control-plane/pkg/store/postgres.go, and what its statements leave
-- of the tables and return to the driver.
use provider_engine.Base.{ℕ, Text, List, Bool, Option, none, some}
use provider_engine.Errors.{driver, no_rows}
use provider_engine.Exec.{Result, ok, err, Exec}
use provider_engine.Store.Models.{Time, Provider, Env, JobRow, Tables}

pub data Statement : Type 0 where
  upserting_provider updating_heartbeat marking_offline selecting_best inserting_job : Statement
  assigning_job beginning selecting_pending setting_running committing : Statement
  upserting_vm selecting_provider listing_providers : Statement

-- How a statement ends. The error of an `unconfirmed` one, such as a connection that breaks, comes
-- after the server has made the change.
pub data Reply : Type 0 where
  done : Reply
  refused unconfirmed : Text → Reply

pub record Postgres : Type 0 where
  pub reply : Statement → Reply
  pub now : Time
  pub scan_providers : List Provider → List Provider
  pub scan_jobs : List JobRow → List JobRow
  -- FOR UPDATE SKIP LOCKED: the ids of the jobs that another transaction has locked
  pub locked : Text → Bool
  -- the rounding of a float64 to the column type REAL
  pub real : ℕ → ℕ
  -- encoding/json on a map of strings
  pub marshal : Env → Text
  pub unmarshal : Text → Env
  -- the texts of the errors of a PRIMARY KEY and of a REFERENCES constraint
  pub duplicate_key : Text
  pub no_parent : Text

abbrev pub settle : {A : Type 0} → Reply → Result A × Tables → Tables → Result A × Tables
settle done after before = after
settle (refused e) after before = (err (driver e), before)
settle (unconfirmed e) after before = (err (driver e), after.1)

abbrev pub set_providers : (List Provider → List Provider) → Exec Tables (Unit {0})
set_providers f t = (ok tt, record t { providers = f t.providers })

abbrev pub set_jobs : (List JobRow → List JobRow) → Exec Tables (Unit {0})
set_jobs f t = (ok tt, record t { jobs = f t.jobs })

-- a driver's `ErrNoRows` when the query has no row
abbrev pub scan_row : {A : Type 0} → Option A → Tables → Result A × Tables
scan_row none t = (err no_rows, t)
scan_row (some a) t = (ok a, t)
