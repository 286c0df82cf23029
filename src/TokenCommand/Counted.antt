-- ===== src/TokenCommand/Counted.antt =====
-- dcp-control-plane/cmd/tokens.go: how many tokens are printed, and that they are accepted.
use provider_engine.Base.{
  ℕ, zero, suc, ◌++◌, ap, sym, Text, List, [], ◌∷◌, Bool, true, false, Option, none, some, eqb, ◌≡◌,
  ◌≢◌, refl, ◌∙◌, All, if◌then◌else◌,
}
use mathlib.Core.Path.{subst}
use mathlib.Core.List.{append_assoc, append-nil}
use provider_engine.Errors.{wrap}
use provider_engine.Exec.{Result, ok, err, Exec, pure, rewrap, continue, ◌>>=◌}
use provider_engine.Machine.{Os}
use provider_engine.HostSetup.{provider_join_token}
use provider_engine.Store.Redis.{Redis, add_token, token_valid}
use provider_engine.Store.Redis.Laws.{IsRedis}
use provider_engine.Store.Redis.Tokens.{answer-member}
use provider_engine.TokenCommand.{
  Line, token, spire_token, spire_error, blank, TokenSource, Flags, Session, print, with_redis,
  spire_line, turns, print_spire, generate_tokens, token_generate,
}
use provider_engine.TokenCommand.Stored.{IsMember, IsKnown, token_generate-IsStored}

-- the tokens that were printed, the latest first
abbrev pub tokens : List Line → List Text
tokens [] = []
tokens (token t ∷ ls) = t ∷ tokens ls
tokens (spire_token t ∷ ls) = tokens ls
tokens (spire_error t ∷ ls) = tokens ls
tokens (blank ∷ ls) = tokens ls

module _ {r : Redis} {A : Type 0} where
  -- The result of a step that prints these tokens if it returns, after those
  Printed : List Text → List Text → Result A × Session r → Type 0
  Printed ts before (ok a, s) = tokens s.printed ≡ ts ++ before
  Printed ts before (err e, s) = Unit {0}

record Prints {r : Redis} {A : Type 0} (ts : List Text) (x : Exec (Session r) A) : Type 0 where
  pub at : (s : Session r) → Printed ts (tokens s.printed) (x s)

module _ {r : Redis} {A : Type 0} where
  Printed-shift :
      (ts us before mid : List Text) (y : Result A × Session r)
      → Printed us mid y
      → mid ≡ ts ++ before
      → Printed (us ++ ts) before y
  unfolding Printed
  Printed-shift ts us before mid (ok a, s) h e =
      h ∙ ap (λ l. us ++ l) e ∙ sym (append_assoc us ts before)
  Printed-shift ts us before mid (err e, s) h i = tt

  Prints-pure : (a : A) → Prints {r = r} [] (pure a)
  unfolding Printed
  Prints-pure a = record { at = λ s. refl }

  Prints-if :
      (b : Bool) (x y : Exec (Session r) A)
      → Prints [] x
      → Prints [] y
      → Prints [] (if b then x else y)
  Prints-if true x y kx ky = kx
  Prints-if false x y kx ky = ky

module _ {r : Redis} {A B : Type 0} (ts us : List Text) where
  Printed-continue :
      (before : List Text) (x : Result A × Session r) (f : A → Exec (Session r) B)
      → Printed ts before x
      → ((a : A) → Prints us (f a))
      → Printed (us ++ ts) before (continue f x)
  unfolding Printed
  Printed-continue before (ok a, s) f h g =
      Printed-shift ts us before (tokens s.printed) (f a s) ((g a).at s) h
  Printed-continue before (err e, s) f h g = tt

  Prints-bind :
      (x : Exec (Session r) A) (f : A → Exec (Session r) B)
      → Prints ts x
      → ((a : A) → Prints us (f a))
      → Prints (us ++ ts) (x >>= f)
  Prints-bind x f h g = record { at = λ s. Printed-continue _ (x s) f (h.at s) g }

-- after a step that prints no token
Prints-then :
    {r : Redis} {A B : Type 0} (us : List Text) (x : Exec (Session r) A)
    (f : A → Exec (Session r) B)
    → Prints [] x
    → ((a : A) → Prints us (f a))
    → Prints us (x >>= f)
Prints-then us x f h g = subst (λ l. Prints l (x >>= f)) (append-nil us) (Prints-bind [] us x f h g)

module _ (r : Redis) (os : Os) (src : TokenSource) where
  abbrev token_of : Result (List ℕ) → Text
  token_of (ok b) = src.hex b
  token_of (err e) = []

  -- the tokens of n turns, each of the bytes that are read in its own turn, the latest first
  abbrev pub drawn : ℕ → List Text
  drawn zero = []
  drawn (suc n) = drawn n ++ token_of (src.random n) ∷ []

  read-Printed :
      {B : Type 0} (us : List Text) (x : Result (List ℕ)) (f : List ℕ → Exec (Session r) B)
      (s : Session r)
      → ((b : List ℕ) → Prints (us ++ src.hex b ∷ []) (f b))
      → Printed (us ++ token_of x ∷ []) (tokens s.printed) (continue f (x, s))
  unfolding Printed
  read-Printed us (ok b) f s g = (g b).at s
  read-Printed us (err e) f s g = tt

  reply-Printed :
      (text : Text) (s : Session r) (x : Result (Unit {0}) × r.Data)
      → Printed [] (tokens s.printed) (rewrap (wrap text) (with_redis r s x))
  unfolding Printed
  reply-Printed text s (ok _, d) = refl
  reply-Printed text s (err e, d) = tt

  spire_line-tokens :
      (x : Result Text) (ls : List Line) → tokens (spire_line r os src x ∷ ls) ≡ tokens ls
  spire_line-tokens (ok t) ls = refl
  spire_line-tokens (err e) ls = refl

  print_spire-Prints : Prints [] (print_spire r os src)
  unfolding print_spire Printed
  print_spire-Prints = record {
    at = λ s. spire_line-tokens (provider_join_token os s.machine).0 s.printed;
  }

  print_blank-Prints : Prints [] (print r blank)
  unfolding Printed
  print_blank-Prints = record { at = λ s. refl }

  print_token-Prints : (t : Text) → Prints (t ∷ []) (print r (token t))
  unfolding Printed
  print_token-Prints t = record { at = λ s. refl }

  generate_tokens-Prints : (b : Bool) (n : ℕ) → Prints (drawn n) (generate_tokens r os src b n)
  unfolding generate_tokens
  generate_tokens-Prints b zero = Prints-pure tt
  generate_tokens-Prints b (suc n) = record {
    at = λ s. read-Printed (drawn n) (src.random n) _ s λ key.
        Prints-then _ _ _
          (record { at = λ s'. reply-Printed _ s' (add_token r (src.hex key) s'.redis) })
          λ _.
            Prints-bind (src.hex key ∷ []) (drawn n) (print r (token (src.hex key))) _
              (print_token-Prints (src.hex key))
              λ _. Prints-then _ _ _ (Prints-if b _ _ print_spire-Prints (Prints-pure tt)) λ _.
                Prints-then _ _ _ (Prints-if (eqb n 0) _ _ (Prints-pure tt) print_blank-Prints)
                  λ _. generate_tokens-Prints b n;
  }

  -- if the command returns, exactly these tokens were printed
  abbrev pub IsPrinted : List Text → Result (Unit {0}) × Session r → Type 0
  IsPrinted ts (ok a, s) = tokens s.printed ≡ ts
  IsPrinted ts (err e, s) = Unit {0}

  Printed-IsPrinted :
      (ts : List Text) (x : Result (Unit {0}) × Session r) → Printed ts [] x → IsPrinted ts x
  unfolding Printed
  Printed-IsPrinted ts (ok a, s) h = h ∙ append-nil ts
  Printed-IsPrinted ts (err e, s) h = tt

  -- the tokens that were asked for, if it returns
  generate-Printed :
      (connection : Option Text) (flags : Flags) (s : Session r)
      → Printed
          (drawn (turns r os src flags.count))
          (tokens s.printed)
          (token_generate r os src connection flags s)
  unfolding token_generate Printed
  generate-Printed (some e) flags s = tt
  generate-Printed none flags s = (generate_tokens-Prints _ _).at s

-- an answer of TokenValid, if it answers at all
abbrev pub IsYes : Result Bool → Type 0
IsYes (ok b) = b ≡ true
IsYes (err e) = Unit {0}

module _ (r : Redis) where
  -- a printed token that is not empty is accepted
  abbrev pub IsAccepted : r.Data → Line → Type 0
  IsAccepted d (token []) = Unit {0}
  IsAccepted d (token (c ∷ cs)) = IsYes (token_valid r (c ∷ cs) d).0
  IsAccepted d (spire_token t) = Unit {0}
  IsAccepted d (spire_error t) = Unit {0}
  IsAccepted d blank = Unit {0}

  module _ (ax : IsRedis r) (d : r.Data) where
    IsYes-answer :
        (t : Text) (x : Result Bool) → t ≢ [] → IsMember r d t → (token_valid r t d).0 ≡ x → IsYes x
    IsYes-answer t (ok b) full member e = answer-member r ax t d b full e ∙ member
    IsYes-answer t (err e) full member h = tt

    IsKnown-IsAccepted : (l : Line) → IsKnown r d l → IsAccepted d l
    IsKnown-IsAccepted (token []) k = tt
    IsKnown-IsAccepted (token (c ∷ cs)) k = IsYes-answer (c ∷ cs) _ (λ e. absurd (cc e)) k refl
    IsKnown-IsAccepted (spire_token t) k = tt
    IsKnown-IsAccepted (spire_error t) k = tt
    IsKnown-IsAccepted blank k = tt

    All-IsAccepted : (ls : List Line) → All (IsKnown r d) ls → All (IsAccepted d) ls
    All-IsAccepted [] a = tt
    All-IsAccepted (l ∷ ls) (k, ks) = (IsKnown-IsAccepted l k, All-IsAccepted ls ks)

-- The command `token generate`, on which nothing was printed before, prints as many tokens as were
-- asked for if it returns no error (none for a negative number), the token of each turn being that
-- of the random bytes that were read in this turn. However it ends, each token that it printed,
-- unless it is empty, is accepted by TokenValid afterwards, if that answers at all. It assumes that
-- Redis does what the code relies on.
pub token_generate-IsAccepted :
    (r : Redis)
    → IsRedis r
    → (os : Os) (src : TokenSource) (connection : Option Text) (flags : Flags) (s : Session r)
    → s.printed ≡ []
    → let end = token_generate r os src connection flags s in
      IsPrinted r os src (drawn r os src (turns r os src flags.count)) end
      × All (IsAccepted r end.1.redis) end.1.printed
token_generate-IsAccepted r ax os src connection flags s h =
    let end = token_generate r os src connection flags s in
    let asked = drawn r os src (turns r os src flags.count) in
    (
      Printed-IsPrinted r os src asked end (
          subst (λ ls. Printed asked (tokens ls) end) h
            (generate-Printed r os src connection flags s)),
      All-IsAccepted r ax end.1.redis end.1.printed
          (token_generate-IsStored r ax os src connection flags s (rw h tt)),
    )
