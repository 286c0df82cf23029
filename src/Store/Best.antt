-- ===== src/Store/Best.antt =====
-- Which provider BestProvider of dcp-control-plane/pkg/store/postgres.go chooses.
use mathlib.Core.Option
use provider_engine.Base.{
  ℤ, ◌≤ℤ◌, leb_ℤ_iff, List, [], true, false, Option, none, some, ◌≡◌, ◌↔◌, refl, Listed,
  Listed-select, select-Listed, select, arith, Option-cases, Bool-cases, inl, inr,
}
use provider_engine.Errors.{no_rows}
use provider_engine.Exec.{ok, err}
use provider_engine.Store.Models.{Provider, Tables}
use provider_engine.Store.Sql.{first_by, IsOrder, first_by-none, first_by-Listed, first_by-le}
use provider_engine.Store.Postgres.{
  Postgres, Reply, done, refused, unconfirmed, settle, scan_row, eligible, more_memory, scan_best,
  best_provider, selecting_best,
}
use provider_engine.Store.Pending.{IsServer}

more_memory-IsOrder : IsOrder more_memory
more_memory-IsOrder = record {
  reflexive = λ x. ground arith;
  total = λ x y h. ground arith;
  transitive = λ x y z h k. ground arith;
}

more_memory_le : (a b : Provider) → more_memory a b ≡ true → b.mem_free_mb ≤ℤ a.mem_free_mb
more_memory_le a b h = (leb_ℤ_iff b.mem_free_mb a.mem_free_mb).0 h

pub scan_row-ok :
    {A : Type 0} (x : Reply) (o : Option A) (t : Tables) (a : A)
    → (settle x (scan_row o t) t).0 ≡ ok a
    → o ≡ some a
scan_row-ok done none t a h = absurd (cc h)
scan_row-ok done (some b) t a h = cc
scan_row-ok (refused e) o t a h = absurd (cc h)
scan_row-ok (unconfirmed e) o t a h = absurd (cc h)

mapped :
    {A B : Type 0} (f : A → B) (o : Option A) (b : B)
    → Option.map f o ≡ some b
    → (a : A) × (o ≡ some a) × (b ≡ f a)
mapped f none b h = absurd (cc h)
mapped f (some a) b h = (a, refl, cc)

-- An eligible row of the table with as much free memory as any.
pub record IsBest (cpu mem : ℤ) (rows : List Provider) (row : Provider) : Type 0 where
  pub listed : Listed row rows
  pub enough : eligible cpu mem row ≡ true
  pub most :
      (x : Provider) → Listed x rows → eligible cpu mem x ≡ true → x.mem_free_mb ≤ℤ row.mem_free_mb

module _ (db : Postgres) (server : IsServer db) (cpu mem : ℤ) (t : Tables) where
  abbrev candidates : List Provider
  candidates = select (eligible cpu mem) (db.scan_providers t.providers)

  first_by-IsBest :
      (row : Provider) → first_by more_memory candidates ≡ some row → IsBest cpu mem t.providers row
  first_by-IsBest row e =
      let (seen, good) =
        Listed-select (eligible cpu mem) row _ (first_by-Listed more_memory _ row e) in
      record {
        listed = (server.providers_same t.providers row).0 seen;
        enough = good;
        most = λ x l able. more_memory_le row x (
            first_by-le more_memory more_memory-IsOrder candidates row x e (
              select-Listed (eligible cpu mem) x _ ((server.providers_same t.providers x).1 l)
                able));
      }

  -- The provider that BestProvider returns is made of a row of the table that is online, has the
  -- cores and the free memory asked for, and has at least as much free memory as any other row
  -- with these; it assumes that the query meets the rows of the table.
  pub best_provider-IsBest :
      (pr : Provider)
      → (best_provider db cpu mem t).0 ≡ ok pr
      → (row : Provider) × IsBest cpu mem t.providers row × (pr ≡ scan_best row)
  unfolding best_provider
  best_provider-IsBest pr h =
      let (row, e, form) = mapped scan_best _ pr (scan_row-ok (db.reply selecting_best) _ t pr h) in
      (row, first_by-IsBest row e, form)

  empty_scan :
      (o : Option Provider) → (scan_row (Option.map scan_best o) t).0 ≡ err no_rows → o ≡ none
  empty_scan none h = refl
  empty_scan (some x) h = absurd (cc h)

  -- When the statement is carried out, BestProvider answers ErrNoRows exactly if no row of the
  -- table is online with the cores and the free memory asked for. It assumes that the
  -- query meets the rows of the table.
  pub best_provider-none_iff :
      db.reply selecting_best ≡ done
      → ((best_provider db cpu mem t).0 ≡ err no_rows)
        ↔ ((x : Provider) → Listed x t.providers → eligible cpu mem x ≡ false)
  unfolding best_provider
  best_provider-none_iff up = rw up (
    (λ h x l. none_able (first_by-none more_memory candidates (empty_scan _ h)) x l),
    (λ h. rw (nothing h) refl),
  )
    where
      none_able :
          candidates ≡ [] → (x : Provider) → Listed x t.providers → eligible cpu mem x ≡ false
      none_able e x l = elim (Bool-cases (eligible cpu mem x)) [
        | inl able ↦ absurd (
            rw e at (
              select-Listed (eligible cpu mem) x _ ((server.providers_same t.providers x).1 l)
                able))
        | inr n ↦ n
      ]

      nothing :
          ((x : Provider) → Listed x t.providers → eligible cpu mem x ≡ false)
          → first_by more_memory candidates ≡ none
      nothing h = elim (Option-cases (first_by more_memory candidates)) [
        | inl e ↦ e
        | inr (row, e) ↦
            let best = first_by-IsBest row e in absurd (cc (best.enough, h row best.listed))
      ]
