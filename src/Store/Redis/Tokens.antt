-- ===== src/Store/Redis/Tokens.antt =====
-- The life of a registration token: AddToken, TokenValid and RevokeToken.
use provider_engine.Base.{
  Text, ◌==◌, ==_iff, [], Bool, true, false, ◌≡◌, ◌≢◌, ◌∙◌, sym, Bool-cases, inl, inr,
}
use provider_engine.Exec.{ok}
use provider_engine.Store.Redis.{Redis, token_set_key, add_token, token_valid, revoke_token}
use provider_engine.Store.Redis.Laws.{IsRedis}
use provider_engine.Store.Redis.Queue.{continue-pure, continue-ok}

module _ (r : Redis) (ax : IsRedis r) (token : Text) where
  ok-injective : {A : Type 0} {a b : A} → ok a ≡ ok b → a ≡ b
  ok-injective e = cc

  -- The answer for a token that is not empty is its membership.
  pub answer-member :
      (s : r.Data) (b : Bool)
      → token ≢ []
      → (token_valid r token s).0 ≡ ok b
      → b ≡ r.is_member s token_set_key token
  unfolding token_valid
  answer-member s b full h = elim (Bool-cases (token == [])) [
    | inl e ↦ absurd (full ((==_iff token []).0 e))
    | inr e ↦ ax.sismember_answer token_set_key token s b (rw e at h)
  ]

  answer_empty : (s : r.Data) (b : Bool) → token ≡ [] → (token_valid r token s).0 ≡ ok b → b ≡ false
  unfolding token_valid
  answer_empty s b e h = sym (ok-injective (rw ((==_iff token []).1 e) at h))

  pub added :
      (s : r.Data)
      → (add_token r token s).0 ≡ ok tt
      → r.is_member (add_token r token s).1 token_set_key token ≡ true
  unfolding add_token
  added s h =
      let (n, e) = continue-ok r tt (r.sadd token_set_key token s) h in
      rw (continue-pure r tt (r.sadd token_set_key token s))
        (ax.sadd_member token_set_key token s n e)

  -- the tokens that were in the set stay in it
  pub member-add_token :
      (s : r.Data) (other : Text)
      → r.is_member s token_set_key other ≡ true
      → r.is_member (add_token r token s).1 token_set_key other ≡ true
  unfolding add_token
  member-add_token s other h =
      rw (continue-pure r tt (r.sadd token_set_key token s))
        (ax.sadd_kept token_set_key token other s h)

  removed :
      (s : r.Data)
      → (revoke_token r token s).0 ≡ ok tt
      → r.is_member (revoke_token r token s).1 token_set_key token ≡ false
  unfolding revoke_token
  removed s h =
      let (n, e) = continue-ok r tt (r.srem token_set_key token s) h in
      rw (continue-pure r tt (r.srem token_set_key token s))
        (ax.srem_member token_set_key token s n e)

  -- A token that is not empty and that AddToken has just added is accepted, if TokenValid answers
  -- at all. It assumes that Redis does what the code relies on.
  token_valid-add_token :
      (s : r.Data) (b : Bool)
      → token ≢ []
      → (add_token r token s).0 ≡ ok tt
      → (token_valid r token (add_token r token s).1).0 ≡ ok b
      → b ≡ true
  token_valid-add_token s b full done h = answer-member _ b full h ∙ added s done

  -- A token that RevokeToken has just removed is not accepted, if TokenValid answers at all. It
  -- assumes that Redis does what the code relies on.
  token_valid-revoke_token :
      (s : r.Data) (b : Bool)
      → (revoke_token r token s).0 ≡ ok tt
      → (token_valid r token (revoke_token r token s).1).0 ≡ ok b
      → b ≡ false
  token_valid-revoke_token s b done h = elim (Bool-cases (token == [])) [
    | inl e ↦ answer_empty _ b ((==_iff token []).0 e) h
    | inr e ↦ answer-member _ b (λ same. cc (e, (==_iff token []).1 same)) h ∙ removed s done
  ]
