-- ===== src/Registry/Tokens.antt =====
-- Registration and its tokens.
use provider_engine.Base.{
  Text, ◌==◌, ==_iff, ==_refl, [], true, false, ◌≡◌, ◌≢◌, ◌⊎◌, refl, sym, Bool-cases, inl, inr,
}
use provider_engine.Errors.{invalid_token}
use provider_engine.Exec.{Result, ok, err}
use provider_engine.World.{World}
use provider_engine.Store.Models.{Time}
use provider_engine.Store.Postgres.{Postgres, upsert_rows}
use provider_engine.Store.Redis.{Redis, token_valid, token_set_key}
use provider_engine.Store.Redis.Laws.{IsRedis}
use provider_engine.Registry.{Config, RegisterRequest, RegisterResult, new_provider, register}
use provider_engine.Registry.Outcome.{
  Registered, unchecked, unknown_token, no_address, no_port, not_stored, half_stored, registered,
  register-Registered,
}

module _ (r : Redis) where
  -- A token that Redis refuses: the empty one, or one that is not in the set.
  abbrev pub IsRefused : Text → r.Data → Type 0
  IsRefused token s = (token ≡ []) ⊎ ((r.sismember token_set_key token s).0 ≡ ok false)

  pub token_valid-IsRefused :
      (token : Text) (s : r.Data) → IsRefused token s → (token_valid r token s).0 ≡ ok false
  unfolding token_valid
  token_valid-IsRefused token s (inl e) = rw (e, ==_refl []) refl
  token_valid-IsRefused token s (inr e) = elim (Bool-cases (token == [])) [
    | inl f ↦ rw f refl
    | inr f ↦ rw f e
  ]

  token_valid-member :
      (ax : IsRedis r) (token : Text) (s : r.Data)
      → (token_valid r token s).0 ≡ ok true
      → (token ≢ []) × (r.is_member s token_set_key token ≡ true)
  unfolding token_valid
  token_valid-member ax token s h = elim (Bool-cases (token == [])) [
    | inl e ↦ let stuck : ok false ≡ ok true = rw e at h in absurd (cc stuck)
    | inr e ↦ (
      (λ same. cc (e, (==_iff token []).1 same)),
      sym (ax.sismember_answer token_set_key token s true (rw e at h)),
    )
  ]

  module _ (db : Postgres) (cfg : Config) (id : Text) (now : Time) (req : RegisterRequest) where
    module _ (w : World r) where
      -- The token was in the set, and the row of the new provider is stored.
      pub record IsEnrolled (res : RegisterResult) (w' : World r) : Type 0 where
        pub token : req.token ≢ []
        pub member : r.is_member w.redis token_set_key req.token ≡ true
        pub named : res.provider_id ≡ id
        pub stored : w'.pg ≡ record w.pg {
          providers =
              upsert_rows db (new_provider req id res.wg_ip res.tunnel_port now) w.pg.providers;
        }

      Registered-IsEnrolled :
          IsRedis r
          → {out : Result RegisterResult × World r} → Registered r db cfg id now req w out
          → (res : RegisterResult) → out.0 ≡ ok res
          → IsEnrolled res out.1
      Registered-IsEnrolled ax (unchecked e f) res h = absurd (cc h)
      Registered-IsEnrolled ax (unknown_token e) res h = absurd (cc h)
      Registered-IsEnrolled ax (no_address e a) res h = absurd (cc h)
      Registered-IsEnrolled ax (no_port e a) res h = absurd (cc h)
      Registered-IsEnrolled ax (not_stored e a) res h = absurd (cc h)
      Registered-IsEnrolled ax (half_stored e ip port a got) res h = absurd (cc h)
      Registered-IsEnrolled ax (registered ip port a got) res h =
          let (full, member) = token_valid-member ax req.token w.redis a in
          let same = ok-result _ res h in
          rw (← same) (record { token = full; member = member; named = refl; stored = refl })
        where
          ok-result : (x y : RegisterResult) → ok x ≡ ok y → x ≡ y
          ok-result x y e = cc e

      -- A registration that succeeds had a token that is not empty and that was in Redis's set of
      -- tokens; it returns the new id, and has stored the new provider with the address and the
      -- port that it returns and changed nothing else in the tables. It assumes that Redis does
      -- what the code relies on.
      pub register-IsEnrolled :
          IsRedis r
          → (res : RegisterResult) → (register r db cfg id now req w).0 ≡ ok res
          → IsEnrolled res (register r db cfg id now req w).1
      register-IsEnrolled ax = Registered-IsEnrolled ax (register-Registered r db cfg id now req w)

      Registered-refused :
          {out : Result RegisterResult × World r}
          → Registered r db cfg id now req w out
          → (token_valid r req.token w.redis).0 ≡ ok false
          → (out.0 ≡ err invalid_token) × (out.1.pg ≡ w.pg)
      Registered-refused (unchecked e f) h = absurd (cc (f, h))
      Registered-refused (unknown_token e) h = (refl, refl)
      Registered-refused (no_address e a) h = absurd (cc (a, h))
      Registered-refused (no_port e a) h = absurd (cc (a, h))
      Registered-refused (not_stored e a) h = absurd (cc (a, h))
      Registered-refused (half_stored e ip port a got) h = absurd (cc (a, h))
      Registered-refused (registered ip port a got) h = absurd (cc (a, h))

      -- Register with a refused token ends with ErrInvalidToken and leaves the tables alone.
      pub register-refused :
          IsRefused req.token w.redis
          → ((register r db cfg id now req w).0 ≡ err invalid_token)
            × ((register r db cfg id now req w).1.pg ≡ w.pg)
      register-refused h =
          Registered-refused (register-Registered r db cfg id now req w)
            (token_valid-IsRefused req.token w.redis h)
