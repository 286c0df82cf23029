-- ===== src/Registry/Addresses.antt =====
-- The WireGuard addresses of the registered providers.
use provider_engine.Base.{
  ℕ, suc, ◌≤◌, ℤ, pos, Text, ◌==◌, List, [], ◌∷◌, ◌++◌, map, Bool-cases, inl, inr, ◌≡◌, ◌≢◌, refl,
  sym, ◌∙◌, All, All-append, arith, ◌⊎◌,
}
use mathlib.Core.List.{map-append}
use provider_engine.Exec.{Result, ok}
use provider_engine.World.{World}
use provider_engine.Store.Models.{Provider, Time, online}
use provider_engine.Store.Sql.{exists, map-update}
use provider_engine.Store.Postgres.{Postgres, upsert_rows}
use provider_engine.Store.Redis.{Redis, wg_ip_of, alloc_wg_ip, alloc_port}
use provider_engine.Store.Redis.Laws.{IsRedis}
use provider_engine.Store.Redis.Alloc.{wg_ip_of-injective}
use provider_engine.Store.Redis.Counter.{
  drawn, drawn-token_valid, drawn-alloc_port, alloc_wg_ip-ok, drawn-alloc_wg_ip,
}
use provider_engine.Registry.{Config, RegisterRequest, RegisterResult, register, new_provider}
use provider_engine.Registry.Outcome.{
  Registered, unchecked, unknown_token, no_address, no_port, not_stored, half_stored, registered,
  register-Registered, checked,
}

abbrev pub addresses : List Provider → List Text
addresses = map λ x. x.wg_ip

abbrev pub Distinct : List Text → Type 0
Distinct [] = Unit
Distinct (x ∷ xs) = All (λ y. y ≢ x) xs × Distinct xs

-- An address that one of the first `c` values of the counter gives.
abbrev pub IsDrawn : ℕ → Text → Type 0
IsDrawn c ip = (k : ℕ) × (1 ≤ k) × (k ≤ c) × (ip ≡ wg_ip_of (pos k))

-- The addresses are those of values that the counter has taken, and no two rows share one.
pub record IsAddressed (r : Redis) (providers : List Provider) (redis : r.Data) : Type 0 where
  pub taken : ℕ
  pub counter : drawn r redis ≡ pos taken
  pub drawn_before : All (IsDrawn taken) (addresses providers)
  pub distinct : Distinct (addresses providers)

IsDrawn-later : (c : ℕ) (ips : List Text) → All (IsDrawn c) ips → All (IsDrawn (suc c)) ips
IsDrawn-later c [] h = tt
IsDrawn-later c (x ∷ xs) ((k, lo, hi, e), h) = ((k, lo, omega arith, e), IsDrawn-later c xs h)

next_ne :
    (c : ℕ) (ips : List Text) → All (IsDrawn c) ips → All (λ y. y ≢ wg_ip_of (pos (suc c))) ips
next_ne c [] h = tt
next_ne c (x ∷ xs) ((k, lo, hi, e), h) = (
  (λ same. absurd (omega (arith, wg_ip_of-injective k (suc c) lo (omega arith) (sym e ∙ same)))),
  next_ne c xs h,
)

Distinct-snoc :
    (ips : List Text) (ip : Text) → Distinct ips → All (λ y. y ≢ ip) ips → Distinct (ips ++ ip ∷ [])
Distinct-snoc [] ip d n = (tt, tt)
Distinct-snoc (x ∷ xs) ip (h, d) (n, ns) =
    (All-append (λ y. y ≢ x) xs (ip ∷ []) h (λ e. n (sym e), tt), Distinct-snoc xs ip d ns)

-- Storing a row changes no address; a new row adds its own.
addresses-upsert_rows :
    (db : Postgres) (pr : Provider) (rows : List Provider)
    → (addresses (upsert_rows db pr rows) ≡ addresses rows)
      ⊎ (addresses (upsert_rows db pr rows) ≡ addresses rows ++ pr.wg_ip ∷ [])
unfolding upsert_rows
addresses-upsert_rows db pr rows = elim (Bool-cases (exists (λ x. x.id == pr.id) rows)) [
  | inl e ↦ rw e (
      inl (
        map-update (λ x. x.wg_ip) (λ x. x.id == pr.id)
          (λ x. record x { wg_pubkey = pr.wg_pubkey; status = online; last_seen = db.now }) rows
          (λ x. refl)))
  | inr e ↦ rw e (inr (map-append _ rows _))
]

module _ (r : Redis) (ax : IsRedis r) where
  -- The counter moves on, and the rows stay.
  IsAddressed-moved :
      (rows : List Provider) (s s' : r.Data)
      → (v : IsAddressed r rows s) → (drawn r s' ≡ pos v.taken) ⊎ (drawn r s' ≡ pos (suc v.taken))
      → IsAddressed r rows s'
  IsAddressed-moved rows s s' v (inl e) = record {
    taken = v.taken;
    counter = e;
    drawn_before = v.drawn_before;
    distinct = v.distinct;
  }
  IsAddressed-moved rows s s' v (inr e) = record {
    taken = suc v.taken;
    counter = e;
    drawn_before = IsDrawn-later v.taken (addresses rows) v.drawn_before;
    distinct = v.distinct;
  }

  IsAddressed-stored :
      (db : Postgres) (pr : Provider) (rows : List Provider) (s s' : r.Data)
      → (v : IsAddressed r rows s) → pr.wg_ip ≡ wg_ip_of (pos (suc v.taken))
      → drawn r s' ≡ pos (suc v.taken)
      → IsAddressed r (upsert_rows db pr rows) s'
  IsAddressed-stored db pr rows s s' v form e = elim (addresses-upsert_rows db pr rows) [
    | inl same ↦ record {
      taken = suc v.taken;
      counter = e;
      drawn_before = rw same (IsDrawn-later v.taken (addresses rows) v.drawn_before);
      distinct = rw same v.distinct;
    }
    | inr more ↦ record {
      taken = suc v.taken;
      counter = e;
      drawn_before = rw more (
          All-append (IsDrawn (suc v.taken)) (addresses rows) (pr.wg_ip ∷ [])
            (IsDrawn-later v.taken (addresses rows) v.drawn_before)
            ((suc v.taken, omega arith, omega arith, form), tt));
      distinct =
          rw (more, form)
            (Distinct-snoc (addresses rows) _ v.distinct
              (next_ne v.taken (addresses rows) v.drawn_before));
    }
  ]

  module _ (db : Postgres) (cfg : Config) (id : Text) (now : Time) (req : RegisterRequest) where
    Registered-IsAddressed :
        (w : World r) (out : Result RegisterResult × World r)
        → Registered r db cfg id now req w out
        → IsAddressed r w.pg.providers w.redis
        → IsAddressed r out.1.pg.providers out.1.redis
    unfolding new_provider
    Registered-IsAddressed w out end v = go out end
      where
        s1 : r.Data
        s1 = checked r db cfg id now req w

        at_check : drawn r s1 ≡ pos v.taken
        at_check = drawn-token_valid r ax req.token w.redis ∙ v.counter

        at_address :
            (drawn r (alloc_wg_ip r s1).1 ≡ pos v.taken)
            ⊎ (drawn r (alloc_wg_ip r s1).1 ≡ pos (suc v.taken))
        at_address = drawn-alloc_wg_ip r ax s1 v.taken at_check

        at_port :
            (drawn r (alloc_port r (alloc_wg_ip r s1).1).1 ≡ pos v.taken)
            ⊎ (drawn r (alloc_port r (alloc_wg_ip r s1).1).1 ≡ pos (suc v.taken))
        at_port = rw (drawn-alloc_port r ax (alloc_wg_ip r s1).1) at_address

        stored :
            (ip : Text) (port : ℤ)
            → (alloc_wg_ip r s1).0 ≡ ok ip
            → IsAddressed r
                (upsert_rows db (new_provider req id ip port now) w.pg.providers)
                (alloc_port r (alloc_wg_ip r s1).1).1
        stored ip port got =
            let (form, moved) = alloc_wg_ip-ok r ax s1 v.taken ip at_check got in
            IsAddressed-stored db (new_provider req id ip port now) w.pg.providers w.redis _ v form
              (drawn-alloc_port r ax (alloc_wg_ip r s1).1 ∙ moved)

        go :
            (out : Result RegisterResult × World r)
            → Registered r db cfg id now req w out
            → IsAddressed r out.1.pg.providers out.1.redis
        go o (unchecked e f) = IsAddressed-moved w.pg.providers w.redis _ v (inl at_check)
        go o (unknown_token e) = IsAddressed-moved w.pg.providers w.redis _ v (inl at_check)
        go o (no_address e a) = IsAddressed-moved w.pg.providers w.redis _ v at_address
        go o (no_port e a) = IsAddressed-moved w.pg.providers w.redis _ v at_port
        go o (not_stored e a) = IsAddressed-moved w.pg.providers w.redis _ v at_port
        go o (half_stored e ip port a (got, _)) = stored ip port got
        go o (registered ip port a (got, _)) = stored ip port got

    -- However Register ends, an error at any step included, if the addresses of the stored providers
    -- are pairwise distinct addresses of values that the counter has taken, this is still so
    -- afterwards. It assumes that Redis does what the code relies on.
    pub register-IsAddressed :
        (w : World r)
        → IsAddressed r w.pg.providers w.redis
        → IsAddressed r
            (register r db cfg id now req w).1.pg.providers
            (register r db cfg id now req w).1.redis
    register-IsAddressed w v =
        Registered-IsAddressed w _ (register-Registered r db cfg id now req w) v

  -- What moves neither the addresses nor the counter.
  pub IsAddressed-same :
      (rows rows' : List Provider) (s s' : r.Data)
      → addresses rows' ≡ addresses rows
      → drawn r s' ≡ drawn r s
      → IsAddressed r rows s
      → IsAddressed r rows' s'
  IsAddressed-same rows rows' s s' same still v = record {
    taken = v.taken;
    counter = still ∙ v.counter;
    drawn_before = rw same v.drawn_before;
    distinct = rw same v.distinct;
  }
