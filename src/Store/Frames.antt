-- ===== src/Store/Frames.antt =====
-- What the statements on the other tables leave alone.
use provider_engine.Base.{ℕ, ℤ, Text, List, ◌==◌, map, ◌≡◌, refl, Bool-cases, inl, inr}
use provider_engine.Exec.{Result}
use provider_engine.Store.Models.{Vm, Tables, Time, online, offline}
use provider_engine.Store.Sql.{exists, map-update}
use provider_engine.Store.Postgres.{
  Postgres, Reply, done, refused, unconfirmed, settle, upserting_vm, update_heartbeat, mark_offline,
  upsert_vm, list_providers, is_stale,
}

-- A statement whose two outcomes agree on a column has that column.
pub settle_column :
    {A B : Type 0} (column : Tables → B) (x : Reply) (out : Result A × Tables) (t : Tables)
    → column out.1 ≡ column t
    → column (settle x out t).1 ≡ column t
settle_column column done out t h = h
settle_column column (refused e) out t h = refl
settle_column column (unconfirmed e) out t h = h

module _ (db : Postgres) (t : Tables) where
  pub jobs-update_heartbeat :
      (id : Text) (vms : ℤ) (load : ℕ) (mem : ℤ)
      → (update_heartbeat db id vms load mem t).1.jobs ≡ t.jobs
  unfolding update_heartbeat
  jobs-update_heartbeat id vms load mem = settle_column (λ u. u.jobs) _ _ t refl

  pub addresses-update_heartbeat :
      (id : Text) (vms : ℤ) (load : ℕ) (mem : ℤ)
      → map (λ x. x.wg_ip) (update_heartbeat db id vms load mem t).1.providers
        ≡ map (λ x. x.wg_ip) t.providers
  unfolding update_heartbeat
  addresses-update_heartbeat id vms load mem =
      settle_column (λ u. map (λ x. x.wg_ip) u.providers) _ _ t
        (map-update (λ x. x.wg_ip) (λ x. x.id == id)
          (λ x. record x {
            last_seen = db.now;
            active_vms = vms;
            cpu_load = db.real load;
            mem_free_mb = mem;
            status = online;
          })
          t.providers (λ x. refl))

  pub jobs-mark_offline : (older : Time) → (mark_offline db older t).1.jobs ≡ t.jobs
  unfolding mark_offline
  jobs-mark_offline older = settle_column (λ u. u.jobs) _ _ t refl

  pub addresses-mark_offline :
      (older : Time)
      → map (λ x. x.wg_ip) (mark_offline db older t).1.providers ≡ map (λ x. x.wg_ip) t.providers
  unfolding mark_offline
  addresses-mark_offline older =
      settle_column (λ u. map (λ x. x.wg_ip) u.providers) _ _ t
        (map-update (λ x. x.wg_ip) (is_stale db.now older) (λ x. record x { status = offline })
          t.providers (λ x. refl))

  upsert_vm_column :
      {B : Type 0} (column : Tables → B) (v : Vm)
      → ((vms : List Vm) → column (record t { vms = vms }) ≡ column t)
      → column (upsert_vm db v t).1 ≡ column t
  unfolding upsert_vm
  upsert_vm_column column v same = elim (Bool-cases (exists (λ x. x.id == v.id) t.vms)) [
    | inl e ↦ rw e (settle_column {A = Unit {0}} column (db.reply upserting_vm) _ t (same _))
    | inr e ↦ rw e (elim (Bool-cases (exists (λ x. x.id == v.provider_id) t.providers)) [
      | inl f ↦ rw f (settle_column {A = Unit {0}} column (db.reply upserting_vm) _ t (same _))
      | inr f ↦ rw f (settle_column {A = Unit {0}} column (db.reply upserting_vm) _ t refl)
    ])
  ]

  pub jobs-upsert_vm : (v : Vm) → (upsert_vm db v t).1.jobs ≡ t.jobs
  jobs-upsert_vm v = upsert_vm_column (λ u. u.jobs) v (λ vms. refl)

  pub providers-upsert_vm : (v : Vm) → (upsert_vm db v t).1.providers ≡ t.providers
  providers-upsert_vm v = upsert_vm_column (λ u. u.providers) v (λ vms. refl)

  pub tables-list_providers : (list_providers db t).1 ≡ t
  unfolding list_providers
  tables-list_providers = settle_column (λ u. u) _ _ t refl
