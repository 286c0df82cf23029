-- ===== src/Machine/Provides.antt =====
-- Lemmas on the operations of Machine: the steps after which a file is there if they return.
use provider_engine.Base.{Text, ==_refl, Option, none, some, ◌≡◌, refl}
use provider_engine.Errors.{Error}
use provider_engine.Exec.{Result, ok, err, rewrap, map_error, continue, ◌>>=◌}
use provider_engine.Machine.{Machine, Os, Step, if_exists, write_file, written, update}
use provider_engine.Machine.Keeps.{Keeps}

abbrev pub IsThere : Text → Machine → Type 0
IsThere p m = (t : Text) × (m.file p ≡ some t)

-- what is known of a result: the file is there, or the step failed
abbrev pub IsGiven : {A : Type 0} → Text → Result A × Machine → Type 0
IsGiven p (ok a, m) = IsThere p m
IsGiven p (err e, m) = Unit {0}

pub record Provides {A : Type 0} (p : Text) (step : Step A) : Type 0 where
  pub at : (m : Machine) → IsGiven p (step m)

pub update-same : (p : Text) (v : Option Text) (files : Text → Option Text) → update p v files p ≡ v
update-same p v files = rw (==_refl p) refl

module _ {A : Type 0} where
  IsGiven-rewrap :
      (p : Text) (f : Error → Error) (r : Result A × Machine) → IsGiven p r → IsGiven p (rewrap f r)
  IsGiven-rewrap p f (ok a, m) h = h
  IsGiven-rewrap p f (err e, m) h = tt

module _ {A : Type 0} {p : Text} where
  pub Provides-map_error :
      (f : Error → Error) (s : Step A) → Provides p s → Provides p (map_error f s)
  Provides-map_error f s k = record { at = λ m. IsGiven-rewrap p f (s m) (k.at m) }

  IsThere-IsGiven : (r : Result A × Machine) → IsThere p r.1 → IsGiven p r
  IsThere-IsGiven (ok a, m) h = h
  IsThere-IsGiven (err e, m) h = tt

  pub Keeps-IsGiven : (s : Step A) (m : Machine) → Keeps p s → IsThere p m → IsGiven p (s m)
  Keeps-IsGiven s m k (t, h) = IsThere-IsGiven (s m) (t, k.at t m h)

  of_if_exists :
      (s r : Step A) (m : Machine) (o : Option Text)
      → m.file p ≡ o
      → Keeps p s
      → Provides p r
      → IsGiven p (if_exists p s r m)
  of_if_exists s r m none h ks pr = rw h (pr.at m)
  of_if_exists s r m (some t) h ks pr = rw h (Keeps-IsGiven s m ks (t, h))

  pub Provides-if_exists : (s r : Step A) → Keeps p s → Provides p r → Provides p (if_exists p s r)
  Provides-if_exists s r ks pr = record { at = λ m. of_if_exists s r m (m.file p) refl ks pr }

module _ {A B : Type 0} {p : Text} where
  IsGiven-continue :
      (r : Result A × Machine) (f : A → Step B)
      → IsGiven p r
      → ((a : A) → Keeps p (f a))
      → IsGiven p (continue f r)
  IsGiven-continue (ok a, m) f h k = Keeps-IsGiven (f a) m (k a) h
  IsGiven-continue (err e, m) f h k = tt

  -- what an earlier statement has provided, later ones keep
  pub Provides-earlier :
      (s : Step A) (f : A → Step B)
      → Provides p s
      → ((a : A) → Keeps p (f a))
      → Provides p (s >>= f)
  Provides-earlier s f h k = record { at = λ m. IsGiven-continue (s m) f (h.at m) k }

  continue-IsGiven :
      (r : Result A × Machine) (f : A → Step B)
      → ((a : A) → Provides p (f a))
      → IsGiven p (continue f r)
  continue-IsGiven (ok a, m) f k = (k a).at m
  continue-IsGiven (err e, m) f k = tt

  pub Provides-later :
      (s : Step A) (f : A → Step B) → ((a : A) → Provides p (f a)) → Provides p (s >>= f)
  Provides-later s f k = record { at = λ m. continue-IsGiven (s m) f k }

written-IsGiven :
    (e : Option Text) (p text : Text) (left : Option Text) (m : Machine)
    → IsGiven p (written e p text left m)
written-IsGiven none p text left m = (text, update-same p (some text) m.file)
written-IsGiven (some e) p text left m = tt

pub Provides-write_file : (os : Os) (p text : Text) → Provides p (write_file os p text)
unfolding write_file
Provides-write_file os p text = record {
  at = λ m. written-IsGiven (os.write_error p text m) p text (os.leftover p text m) m;
}

pub ruleset provides_rules =
    (Provides-map_error, Provides-if_exists, Provides-earlier, Provides-later, Provides-write_file)
