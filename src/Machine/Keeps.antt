-- ===== src/Machine/Keeps.antt =====
-- Lemmas on the operations of Machine: the steps that leave what a file holds as it is, one rule
-- for each way to build a step.
use provider_engine.Base.{
  ℕ, Text, ==_iff, List, [], ◌∷◌, ◌++◌, Bool, true, false, Option, none, some, ◌≡◌, ◌≢◌, All, arith,
  refl, sym, ◌∙◌, ap, if◌then◌else◌,
}
use mathlib.Core.Bool.{true≢false}
use provider_engine.Errors.{Error}
use provider_engine.Exec.{Result, ok, err, pure, raise, rewrap, map_error, continue, ◌>>=◌}
use provider_engine.Machine.{
  Machine, Os, Step, update, has_file, if_exists, mkdir_all, try_mkdir, write_file, try_write,
  read_file, read_or_empty, run, succeeds, run_output_stdin, run_output, combined, sleep, append_to,
  append_file, append_if_missing, written, run_steps,
}

-- Commands and other processes leave the file alone.
pub record IsQuiet (os : Os) (p : Text) : Type 0 where
  pub of_command :
      (args : List Text) (stdin : Text) (m : Machine) → (os.exec args stdin m).files p ≡ m.file p
  pub of_pause : (d : ℕ) (m : Machine) → os.meanwhile d m p ≡ m.file p

-- If something is under the path before the step, it is there with the same text afterwards,
-- whether the step returns or fails.
pub record Keeps {A : Type 0} (p : Text) (step : Step A) : Type 0 where
  pub at : (t : Text) (m : Machine) → m.file p ≡ some t → (step m).1.file p ≡ some t

pub rewrap-state : {A : Type 0} (f : Error → Error) (r : Result A × Machine) → (rewrap f r).1 ≡ r.1
rewrap-state f (ok a, m) = refl
rewrap-state f (err e, m) = refl

pub update-other :
    (q p : Text) (v : Option Text) (files : Text → Option Text)
    → q ≢ p
    → update q v files p ≡ files p
update-other q p v files q≢p = ground (arith, ==_iff q p)

pub has_file-at : (q p t : Text) (m : Machine) → q ≡ p → m.file p ≡ some t → has_file q m ≡ true
has_file-at q p t m q≡p h = rw q≡p (rw h refl)

module _ {A : Type 0} {p : Text} where
  pub Keeps-pure : (a : A) → Keeps p (pure a)
  Keeps-pure a = record { at = λ t m h. h }

  pub Keeps-raise : (e : Error) → Keeps {A = A} p (raise e)
  Keeps-raise e = record { at = λ t m h. h }

  pub Keeps-map_error : (f : Error → Error) (s : Step A) → Keeps p s → Keeps p (map_error f s)
  Keeps-map_error f s k = record {
    at = λ t m h. ap (λ n. n.file p) (rewrap-state f (s m)) ∙ k.at t m h;
  }

  pub Keeps-if :
      (b : Bool) (s r : Step A)
      → (b ≡ true → Keeps p s)
      → (b ≡ false → Keeps p r)
      → Keeps p (if b then s else r)
  Keeps-if true s r ks kr = ks refl
  Keeps-if false s r ks kr = kr refl

  of_if_exists :
      (q t : Text) (s r : Step A) (m : Machine) (b : Bool)
      → has_file q m ≡ b
      → Keeps p s
      → (q ≢ p → Keeps p r)
      → m.file p ≡ some t
      → (if b then s m else r m).1.file p ≡ some t
  of_if_exists q t s r m true e ks kr h = ks.at t m h
  of_if_exists q t s r m false e ks kr h =
      (kr λ q≡p. true≢false (sym (has_file-at q p t m q≡p h) ∙ e)).at t m h

  pub Keeps-if_exists :
      (q : Text) (s r : Step A) → Keeps p s → (q ≢ p → Keeps p r) → Keeps p (if_exists q s r)
  Keeps-if_exists q s r ks kr = record {
    at = λ t m h. of_if_exists q t s r m (has_file q m) refl ks kr h;
  }

module _ {A B : Type 0} {p : Text} where
  Keeps-continue :
      (r : Result A) (f : A → Step B) → ((a : A) → Keeps p (f a)) → Keeps p (λ m. continue f (r, m))
  Keeps-continue (ok a) f k = k a
  Keeps-continue (err e) f k = Keeps-raise e

  pub Keeps-bind :
      (s : Step A) (f : A → Step B) → Keeps p s → ((a : A) → Keeps p (f a)) → Keeps p (s >>= f)
  Keeps-bind s f k l = record {
    at = λ t m h. let (r, m') = s m in (Keeps-continue r f l).at t m' (k.at t m h);
  }

written-at :
    (e : Option Text) (q p text t : Text) (left : Option Text) (m : Machine)
    → q ≢ p
    → m.file p ≡ some t
    → (written e q text left m).1.file p ≡ some t
written-at none q p text t left m q≢p h = update-other q p (some text) m.file q≢p ∙ h
written-at (some e) q p text t left m q≢p h = update-other q p left m.file q≢p ∙ h

-- A first step of which only its own end is known.
pub bind-file :
    {A B : Type 0} {p : Text} (t : Text) (s : Step A) (f : A → Step B) (m : Machine)
    → (s m).1.file p ≡ some t
    → ((a : A) → Keeps p (f a))
    → ((s >>= f) m).1.file p ≡ some t
bind-file t s f m h k = let (r, m') = s m in (Keeps-continue r f k).at t m' h

pub run_steps-Keeps :
    {p : Text} (ss : List (Text × Step (Unit {0})))
    → All (λ s. Keeps p s.1) ss
    → Keeps p (run_steps ss)
unfolding run_steps
run_steps-Keeps [] h = Keeps-pure tt
run_steps-Keeps ((name, step) ∷ ss) (h, hs) =
    Keeps-bind _ _ (Keeps-map_error _ step h) λ _. run_steps-Keeps ss hs

module _ (os : Os) {p : Text} where
  pub Keeps-mkdir_all : (d : Text) → Keeps p (mkdir_all os d)
  unfolding mkdir_all
  Keeps-mkdir_all d = record { at = λ t m h. h }

  pub Keeps-try_mkdir : (d : Text) → Keeps p (try_mkdir os d)
  unfolding try_mkdir
  Keeps-try_mkdir d = record { at = λ t m h. h }

  pub Keeps-read_file : (q : Text) → Keeps p (read_file os q)
  unfolding read_file
  Keeps-read_file q = record { at = λ t m h. h }

  pub Keeps-read_or_empty : (q : Text) → Keeps p (read_or_empty os q)
  unfolding read_or_empty
  Keeps-read_or_empty q = record { at = λ t m h. h }

  pub Keeps-write_file : (q text : Text) → q ≢ p → Keeps p (write_file os q text)
  unfolding write_file
  Keeps-write_file q text q≢p = record {
    at = λ t m h. written-at (os.write_error q text m) q p text t (os.leftover q text m) m q≢p h;
  }

  pub Keeps-try_write : (q text : Text) → q ≢ p → Keeps p (try_write os q text)
  unfolding try_write
  Keeps-try_write q text q≢p = record { at = λ t m h. (Keeps-write_file q text q≢p).at t m h }

  append_to-at :
      (q text t : Text) (old : Option Text) (m : Machine)
      → q ≢ p
      → m.file p ≡ some t
      → (append_to os q text old m).1.file p ≡ some t
  unfolding append_to
  append_to-at q text t none m q≢p h = h
  append_to-at q text t (some old) m q≢p h = (Keeps-try_write q (old ++ text) q≢p).at t m h

  Keeps-append_file : (q text : Text) → q ≢ p → Keeps p (append_file os q text)
  unfolding append_file
  Keeps-append_file q text q≢p = record { at = λ t m h. append_to-at q text t (m.file q) m q≢p h }

  pub Keeps-append_if_missing : (q line : Text) → q ≢ p → Keeps p (append_if_missing os q line)
  unfolding append_if_missing
  Keeps-append_if_missing q line q≢p =
      search (Keeps-bind, Keeps-if, Keeps-pure, Keeps-read_or_empty, Keeps-append_file)

module _ (os : Os) {p : Text} (quiet : IsQuiet os p) where
  pub Keeps-run : (args : List Text) → Keeps p (run os args)
  unfolding run
  Keeps-run args = record { at = λ t m h. quiet.of_command args [] m ∙ h }

  pub Keeps-succeeds : (args : List Text) → Keeps p (succeeds os args)
  unfolding succeeds
  Keeps-succeeds args = record { at = λ t m h. quiet.of_command args [] m ∙ h }

  pub Keeps-run_output_stdin :
      (stdin : Text) (args : List Text) → Keeps p (run_output_stdin os stdin args)
  unfolding run_output_stdin
  Keeps-run_output_stdin stdin args = record { at = λ t m h. quiet.of_command args stdin m ∙ h }

  pub Keeps-run_output : (args : List Text) → Keeps p (run_output os args)
  unfolding run_output
  Keeps-run_output args = Keeps-run_output_stdin [] args

  pub Keeps-combined : (args : List Text) → Keeps p (combined os args)
  unfolding combined
  Keeps-combined args = record { at = λ t m h. quiet.of_command args [] m ∙ h }

  pub Keeps-sleep : (d : ℕ) → Keeps p (sleep os d)
  unfolding sleep
  Keeps-sleep d = record { at = λ t m h. quiet.of_pause d m ∙ h }

pub ruleset keeps_rules = (
  Keeps-pure, Keeps-raise, Keeps-map_error, Keeps-if, Keeps-if_exists, Keeps-bind, Keeps-mkdir_all,
  Keeps-try_mkdir, Keeps-read_file, Keeps-read_or_empty, Keeps-write_file, Keeps-try_write,
  Keeps-append_if_missing, Keeps-run, Keeps-succeeds, Keeps-run_output_stdin, Keeps-run_output,
  Keeps-combined, Keeps-sleep,
)
