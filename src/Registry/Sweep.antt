-- ===== src/Registry/Sweep.antt =====
-- Heartbeats and the sweep of the providers that have stopped sending them.
use provider_engine.Base.{
  ℕ, ◌+◌, ◌*◌, Text, ◌==◌, ==_iff, ℤ, List, [], ◌∷◌, ◌≡◌, ◌≢◌, ap, arith, Bool-cases, inl, inr,
  ◌&&◌, leb, if◌then◌else◌,
}
use provider_engine.World.{World}
use provider_engine.Store.Models.{Provider, Time, second, online, offline, is_online}
use provider_engine.Store.Sql.{update}
use provider_engine.Store.Postgres.{
  Postgres, done, is_stale, marking_offline, updating_heartbeat, mark_offline, update_heartbeat,
}
use provider_engine.Store.Redis.{Redis}
use provider_engine.Registry.{heartbeat, sweep_offline}

-- the threshold of SweepOffline
abbrev pub threshold : Time
threshold = 90 * second

-- The row is online exactly if it was and its last heartbeat is at most the threshold old.
abbrev pub IsSwept : Time → Provider → Provider → Type 0
IsSwept now before after =
    (is_online after.status ≡ (is_online before.status && leb now (before.last_seen + threshold)))
    × (after ≡ record before { status = after.status })

abbrev pub Pairwise : (Provider → Provider → Type 0) → List Provider → List Provider → Type 0
Pairwise R [] [] = Unit
Pairwise R (x ∷ xs) (y ∷ ys) = R x y × Pairwise R xs ys
Pairwise R [] (y ∷ ys) = ⊥
Pairwise R (x ∷ xs) [] = ⊥

sweep_row :
    (now : Time) (x : Provider)
    → IsSwept now x (if is_stale now threshold x then record x { status = offline } else x)
sweep_row now x = ground arith

rows-IsSwept :
    (now : Time) (rows : List Provider)
    → Pairwise
        (IsSwept now)
        rows
        (update (is_stale now threshold) (λ x. record x { status = offline }) rows)
rows-IsSwept now [] = tt
rows-IsSwept now (x ∷ xs) = (sweep_row now x, rows-IsSwept now xs)

module _ (r : Redis) (db : Postgres) (w : World r) where
  -- A tick of SweepOffline whose statement is carried out leaves online exactly the providers that
  -- were online and whose last heartbeat is at most 90 seconds before the database's time, and
  -- changes no other column.
  pub sweep_offline-IsSwept :
      db.reply marking_offline ≡ done
      → Pairwise (IsSwept db.now) w.pg.providers (sweep_offline r db w).pg.providers
  unfolding sweep_offline mark_offline
  sweep_offline-IsSwept up = rw up (rows-IsSwept db.now w.pg.providers)

  module _ (later : Postgres) (id : Text) (vms : ℤ) (load : ℕ) (mem : ℤ) where
    -- What a heartbeat of the provider with this id and a later sweep leave of a row
    abbrev pub IsWatched : Provider → Provider → Type 0
    IsWatched before after =
        (before.id ≡ id
          → (is_online after.status ≡ leb later.now (db.now + threshold))
            × (after.last_seen ≡ db.now)
            × (after.mem_free_mb ≡ mem))
        × (before.id ≢ id → IsSwept later.now before after)

    -- the row of the provider with what a heartbeat writes
    abbrev beaten : Provider → Provider
    beaten x = record x {
      last_seen = db.now;
      active_vms = vms;
      cpu_load = db.real load;
      mem_free_mb = mem;
      status = online;
    }

    beaten-swept :
        (x : Provider)
        → let after =
            if is_stale later.now threshold (beaten x)
            then record (beaten x) { status = offline }
            else beaten x in
          (is_online after.status ≡ leb later.now (db.now + threshold))
          × (after.last_seen ≡ db.now)
          × (after.mem_free_mb ≡ mem)
    beaten-swept x =
        let (seen, same) = sweep_row later.now (beaten x) in
        (seen, ap (λ y. y.last_seen) same, ap (λ y. y.mem_free_mb) same)

    rows-IsWatched :
        (rows : List Provider)
        → Pairwise IsWatched rows (
            update
              (is_stale later.now threshold)
              (λ x. record x { status = offline })
              (update (λ x. x.id == id) beaten rows))
    rows-IsWatched [] = tt
    rows-IsWatched (x ∷ xs) = elim (Bool-cases (x.id == id)) [
      | inl e ↦
          rw e
            ((λ same. beaten-swept x, λ ne. absurd (ne ((==_iff x.id id).0 e))), rows-IsWatched xs)
      | inr e ↦ rw e (
        (λ same. absurd (cc (e, (==_iff x.id id).1 same)), λ ne. sweep_row later.now x),
        rows-IsWatched xs,
      )
    ]

    -- A heartbeat and then a tick of SweepOffline, both carried out, leave the provider of the
    -- heartbeat seen at the time of the heartbeat, with the free memory that was reported, and
    -- online, even if it was swept before, exactly if the tick comes at most 90 seconds later. Of
    -- the other providers, those stay online that were and whose last heartbeat is at most 90
    -- seconds before the tick, and no other column of theirs changes.
    pub heartbeat-IsWatched :
        db.reply updating_heartbeat ≡ done
        → later.reply marking_offline ≡ done
        → Pairwise IsWatched w.pg.providers
            (sweep_offline r later (heartbeat r db id vms load mem w).1).pg.providers
    unfolding heartbeat update_heartbeat sweep_offline mark_offline
    heartbeat-IsWatched up swept = rw (up, swept) (rows-IsWatched w.pg.providers)
