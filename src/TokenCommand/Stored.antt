-- ===== src/TokenCommand/Stored.antt =====
-- dcp-control-plane/cmd/tokens.go: the tokens that are printed.
use provider_engine.Base.{
  ℕ, zero, suc, Text, List, [], ◌∷◌, Bool, true, false, Option, none, some, eqb, ◌≡◌, refl, All,
  if◌then◌else◌,
}
use provider_engine.Errors.{wrap}
use provider_engine.Exec.{Result, ok, err, Exec, pure, wrapping, rewrap, continue, ◌>>=◌, ◌>>◌}
use provider_engine.Machine.{Os}
use provider_engine.Store.Redis.{Redis, token_set_key, add_token}
use provider_engine.Store.Redis.Laws.{IsRedis}
use provider_engine.Store.Redis.Tokens.{added, member-add_token}
use provider_engine.TokenCommand.{
  Line, token, spire_token, spire_error, blank, TokenSource, Flags, Session, print, with_redis,
  store_token, spire_line, print_spire, generate_tokens, token_generate,
}

module _ (r : Redis) where
  abbrev pub IsMember : r.Data → Text → Type 0
  IsMember d tok = r.is_member d token_set_key tok ≡ true

  -- a printed token is in the set of the tokens
  abbrev pub IsKnown : r.Data → Line → Type 0
  IsKnown d (token t) = IsMember d t
  IsKnown d (spire_token t) = Unit {0}
  IsKnown d (spire_error t) = Unit {0}
  IsKnown d blank = Unit {0}

  -- every printed token is
  abbrev pub IsStored : Session r → Type 0
  IsStored s = All (IsKnown s.redis) s.printed

  IsKnown-more :
      (d d' : r.Data)
      → ((t : Text) → IsMember d t → IsMember d' t)
      → (l : Line) → IsKnown d l
      → IsKnown d' l
  IsKnown-more d d' h (token t) k = h t k
  IsKnown-more d d' h (spire_token t) k = tt
  IsKnown-more d d' h (spire_error t) k = tt
  IsKnown-more d d' h blank k = tt

  All-more :
      (d d' : r.Data)
      → ((t : Text) → IsMember d t → IsMember d' t)
      → (ls : List Line) → All (IsKnown d) ls
      → All (IsKnown d') ls
  All-more d d' h [] a = tt
  All-more d d' h (l ∷ ls) (k, ks) = (IsKnown-more d d' h l k, All-more d d' h ls ks)

record KeepsStored {A : Type 0} (r : Redis) (x : Exec (Session r) A) : Type 0 where
  pub at : (s : Session r) → IsStored r s → IsStored r (x s).1

module _ {A : Type 0} (r : Redis) where
  KeepsStored-pure : (a : A) → KeepsStored r (pure a)
  KeepsStored-pure a = record { at = λ s h. h }

  KeepsStored-if :
      (b : Bool) (x y : Exec (Session r) A)
      → KeepsStored r x
      → KeepsStored r y
      → KeepsStored r (if b then x else y)
  KeepsStored-if true x y kx ky = kx
  KeepsStored-if false x y kx ky = ky

module _ {A B : Type 0} (r : Redis) where
  KeepsStored-continue :
      (x : Result A × Session r) (f : A → Exec (Session r) B)
      → IsStored r x.1
      → ((a : A) → KeepsStored r (f a))
      → IsStored r (continue f x).1
  KeepsStored-continue (ok a, s) f h k = (k a).at s h
  KeepsStored-continue (err e, s) f h k = h

  KeepsStored-bind :
      (x : Exec (Session r) A) (f : A → Exec (Session r) B)
      → KeepsStored r x
      → ((a : A) → KeepsStored r (f a))
      → KeepsStored r (x >>= f)
  KeepsStored-bind x f k l = record { at = λ s h. KeepsStored-continue (x s) f (k.at s h) l }

module _ (r : Redis) (ax : IsRedis r) where
  print_blank-KeepsStored : KeepsStored r (print r blank)
  print_blank-KeepsStored = record { at = λ s h. (tt, h) }

  -- what is left after the reply of Redis to the new token
  after_reply :
      {B : Type 0} (tok : Text) (text : Text) (next : Exec (Session r) B) (s : Session r)
      (x : Result (Unit {0}) × r.Data)
      → IsStored r (record { machine = s.machine; redis = x.1; printed = s.printed })
      → (x.0 ≡ ok tt → r.is_member x.1 token_set_key tok ≡ true)
      → KeepsStored r next
      → IsStored r
          (continue (λ _. print r (token tok) >> next) (rewrap (wrap text) (with_redis r s x))).1
  after_reply tok text next s (ok _, d) h m k = k.at _ (m refl, h)
  after_reply tok text next s (err e, d) h m k = h

  stored_then_printed :
      {B : Type 0} (tok text : Text) (next : Exec (Session r) B)
      → KeepsStored r next
      → KeepsStored r (wrapping text (store_token r tok) >>= λ _. print r (token tok) >> next)
  stored_then_printed tok text next k = record {
    at = λ s h.
        after_reply tok text next s (add_token r tok s.redis)
          (All-more r s.redis (add_token r tok s.redis).1 (λ t. member-add_token r ax tok s.redis t)
            s.printed h)
          (added r ax tok s.redis) k;
  }

  module _ (os : Os) (src : TokenSource) where
    spire_line-IsKnown : (d : r.Data) (x : Result Text) → IsKnown r d (spire_line r os src x)
    spire_line-IsKnown d (ok t) = tt
    spire_line-IsKnown d (err e) = tt

    print_spire-KeepsStored : KeepsStored r (print_spire r os src)
    unfolding print_spire
    print_spire-KeepsStored = record { at = λ s h. (spire_line-IsKnown s.redis _, h) }

    generate_tokens-KeepsStored :
        (with_spire : Bool) (n : ℕ) → KeepsStored r (generate_tokens r os src with_spire n)
    unfolding generate_tokens
    generate_tokens-KeepsStored with_spire zero = KeepsStored-pure r tt
    generate_tokens-KeepsStored with_spire (suc n) =
        KeepsStored-bind r _ _ (record { at = λ s h. h })
          λ key. stored_then_printed (src.hex key) _ _ (
            KeepsStored-bind r _ _
              (KeepsStored-if r with_spire _ _ print_spire-KeepsStored (KeepsStored-pure r tt))
              λ _.
                KeepsStored-bind r _ _
                  (KeepsStored-if r (eqb n 0) _ _ (KeepsStored-pure r tt) print_blank-KeepsStored)
                  λ _. generate_tokens-KeepsStored with_spire n)

    pub token_generate-IsStored :
        (connection : Option Text) (flags : Flags) (s : Session r)
        → IsStored r s
        → IsStored r (token_generate r os src connection flags s).1
    unfolding token_generate
    token_generate-IsStored (some e) flags s h = h
    token_generate-IsStored none flags s h = (generate_tokens-KeepsStored _ _).at s h
