-- ===== src/Store/Redis/Counter.antt =====
-- What the commands of redis.go do to the counter of addresses.
use provider_engine.Base.{
  ℕ, suc, ℤ, pos, Text, ◌≡◌, ◌≢◌, ◌⊎◌, inl, inr, refl, ap, sym, ◌∙◌, arith, [], ◌==◌, Bool-cases,
}
use provider_engine.Exec.{Result, ok, err, continue, pure}
use provider_engine.Store.Redis.{
  Redis, wg_ip_counter_key, port_counter_key, alloc_wg_ip, alloc_port, token_valid, wg_ip_of,
  port_of,
}
use provider_engine.Store.Redis.Laws.{IsRedis}

keys_ne : port_counter_key ≢ wg_ip_counter_key
keys_ne e = cc

module _ (r : Redis) where
  -- the value of the counter of addresses
  abbrev pub drawn : r.Data → ℤ
  drawn s = r.counter s wg_ip_counter_key

  pub map_state :
      {A B : Type 0} (f : A → B) (x : Result A × r.Data) → (continue (λ a. pure (f a)) x).1 ≡ x.1
  map_state f (ok a, s) = refl
  map_state f (err e, s) = refl

  map_ok :
      {A B : Type 0} (f : A → B) (x : Result A × r.Data) (b : B)
      → (continue (λ a. pure (f a)) x).0 ≡ ok b
      → (a : A) × (x.0 ≡ ok a) × (b ≡ f a)
  map_ok f (ok a, s) b h = (a, refl, sym (cc h))
  map_ok f (err e, s) b h = absurd (cc h)

  module _ (ax : IsRedis r) where
    pub drawn-token_valid : (token : Text) (s : r.Data) → drawn (token_valid r token s).1 ≡ drawn s
    unfolding token_valid
    drawn-token_valid token s = elim (Bool-cases (token == [])) [
      | inl e ↦ rw e refl
      | inr e ↦ rw e (ax.sismember_counter _ _ _ s)
    ]

    pub drawn-alloc_port : (s : r.Data) → drawn (alloc_port r s).1 ≡ drawn s
    unfolding alloc_port
    drawn-alloc_port s =
        rw (map_state port_of (r.incr port_counter_key s)) (ax.incr_other _ _ s keys_ne)

    module _ {B : Type 0} (key : Text) (f : ℤ → B) where
      -- A value that is handed out is that of the next value of the counter, which moves to it.
      pub draw-ok :
          (s : r.Data) (c : ℕ) (b : B)
          → r.counter s key ≡ pos c
          → (continue (λ n. pure (f n)) (r.incr key s)).0 ≡ ok b
          → (b ≡ f (pos (suc c)))
            × (r.counter (continue (λ n. pure (f n)) (r.incr key s)).1 key ≡ pos (suc c))
      draw-ok s c b e h =
          let (n, got, form) = map_ok f (r.incr key s) b h in
          let (next, now) = ax.incr_counter key s n got in
          let value : n ≡ pos (suc c) = ground arith in
          (form ∙ ap f value, ap (λ t. r.counter t key) (map_state f (r.incr key s)) ∙ now ∙ value)

      -- The counter moves by one at most.
      pub draw-either :
          (s : r.Data) (c : ℕ)
          → r.counter s key ≡ pos c
          → (r.counter (continue (λ n. pure (f n)) (r.incr key s)).1 key ≡ pos c)
            ⊎ (r.counter (continue (λ n. pure (f n)) (r.incr key s)).1 key ≡ pos (suc c))
      draw-either s c e = rw (map_state f (r.incr key s)) (elim (ax.incr_either key s) [
        | inl same ↦ inl (same ∙ e)
        | inr next ↦ inr (ground arith)
      ])

    pub alloc_wg_ip-ok :
        (s : r.Data) (c : ℕ) (ip : Text)
        → drawn s ≡ pos c
        → (alloc_wg_ip r s).0 ≡ ok ip
        → (ip ≡ wg_ip_of (pos (suc c))) × (drawn (alloc_wg_ip r s).1 ≡ pos (suc c))
    unfolding alloc_wg_ip
    alloc_wg_ip-ok s c ip e h = draw-ok wg_ip_counter_key wg_ip_of s c ip e h

    pub drawn-alloc_wg_ip :
        (s : r.Data) (c : ℕ)
        → drawn s ≡ pos c
        → (drawn (alloc_wg_ip r s).1 ≡ pos c) ⊎ (drawn (alloc_wg_ip r s).1 ≡ pos (suc c))
    unfolding alloc_wg_ip
    drawn-alloc_wg_ip s c e = draw-either wg_ip_counter_key wg_ip_of s c e
