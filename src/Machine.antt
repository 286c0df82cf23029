-- ===== src/Machine.antt =====
-- What dcp-control-plane/internal/setup/setup.go, dcp-provider/internal/setup/setup.go,
-- dcp-provider/internal/wireguard/wg.go and dcp-provider/internal/vm do to the machine they run
-- on. The state is `Machine`; the commands and the file system are the parameter `Os`.
pub mod Keeps
pub mod Provides
use Prim.Native.String.{String}
use provider_engine.Base.{
  ℕ, ◌+◌, Text, bytes, ◌==◌, List, [], ◌∷◌, ◌++◌, Bool, true, false, Option, none, some,
  if◌then◌else◌,
}
use provider_engine.Errors.{driver}
use provider_engine.Exec.{Result, ok, err, Exec, pure, wrapping, ◌>>=◌, ◌>>◌}
use provider_engine.Strings.{fields, contains}

pub data Action : Type 0 where
  -- a command that was run to its end, a process that was started, with its id, and one that Kill
  -- was called on
  command : List Text → Action
  started : ℕ → List Text → Action
  killed : ℕ → Action
  wrote : Text → Text → Action

pub record Machine : Type 0 where
  -- the text under a path where something is (a directory or a socket has any text)
  pub file : Text → Option Text
  -- milliseconds
  pub clock : ℕ
  -- what was done, the latest first
  pub log : List Action

pub record Outcome : Type 0 where
  -- the error text of a command that fails or cannot be started
  pub failure : Option Text
  pub stdout : Text
  -- standard output and standard error as they were written
  pub output : Text
  pub files : Text → Option Text
  pub took : ℕ

pub record Os : Type 0 where
  -- os/exec: a command with its arguments and its standard input
  pub exec : List Text → Text → Machine → Outcome
  -- the error text of os.MkdirAll, of os.WriteFile and of reading what is there
  pub mkdir_error : Text → Machine → Option Text
  pub write_error : Text → Text → Machine → Option Text
  pub read_error : Text → Machine → Option Text
  -- the error text for a path where nothing is
  pub missing : Text → Text
  -- what a write that failed leaves under the path
  pub leftover : Text → Text → Machine → Option Text
  -- what other processes leave during a pause, and by how much the pause is longer than asked
  pub meanwhile : ℕ → Machine → Text → Option Text
  pub delay : ℕ → Machine → ℕ
  pub env : Text → Text

abbrev pub Step : Type 0 → Type 0
Step A = Exec Machine A

abbrev pub update : Text → Option Text → (Text → Option Text) → Text → Option Text
update q v files p = if q == p then v else files p

-- the words of a command
abbrev pub argv : String → List Text
argv s = fields (bytes s)

abbrev set_file : Text → Option Text → Machine → Machine
set_file q v m = record { file = update q v m.file; clock = m.clock; log = m.log }

abbrev pub note : Action → Machine → Machine
note act m = record { file = m.file; clock = m.clock; log = act ∷ m.log }

abbrev after : Action → Outcome → Machine → Machine
after act out m = record { file = out.files; clock = m.clock + out.took; log = act ∷ m.log }

abbrev is_some : Option Text → Bool
is_some none = false
is_some (some t) = true

abbrev read_found : Text → Option Text → Text → Result Text
read_found text none missing = ok text
read_found text (some e) missing = err (driver e)

abbrev read_result : Option Text → Option Text → Text → Result Text
read_result none error missing = err (driver missing)
read_result (some text) error missing = read_found text error missing

abbrev text_or_empty : Result Text → Text
text_or_empty (ok t) = t
text_or_empty (err e) = []

abbrev finished : Option Text → Result (Unit {0})
finished none = ok tt
finished (some e) = err (driver e)

abbrev pub answered : Option Text → Text → Result Text
answered none text = ok text
answered (some e) text = err (driver e)

-- fmt.Errorf("%w: %s", err, out)
abbrev reported : Option Text → Text → Result (Unit {0})
reported none output = ok tt
reported (some e) output = err (driver (e ++ (bytes ": " ++ output)))

abbrev pub written : Option Text → Text → Text → Option Text → Machine → Result (Unit {0}) × Machine
written none q text left m = (ok tt, note (wrote q text) (set_file q (some text) m))
written (some e) q text left m = (err (driver e), note (wrote q text) (set_file q left m))

abbrev pub has_file : Text → Machine → Bool
has_file q m = is_some (m.file q)

module _ {A : Type 0} where
  abbrev pub if_exists : Text → Step A → Step A → Step A
  if_exists q found lacking m = if has_file q m then found m else lacking m

-- the loop over the named steps of a setup, which ends at the first error
unfoldable pub run_steps : List (Text × Step (Unit {0})) → Step (Unit {0})
run_steps [] = pure tt
run_steps ((name, step) ∷ steps) = wrapping name step >> run_steps steps

module _ (os : Os) where
  unfoldable pub mkdir_all : Text → Step (Unit {0})
  mkdir_all dir m = (finished (os.mkdir_error dir m), m)

  -- os.MkdirAll with its error ignored
  unfoldable pub try_mkdir : Text → Step (Unit {0})
  try_mkdir dir m = (ok tt, m)

  unfoldable pub write_file : Text → Text → Step (Unit {0})
  write_file q text m = written (os.write_error q text m) q text (os.leftover q text m) m

  -- writeFile with its error ignored
  unfoldable pub try_write : Text → Text → Step (Unit {0})
  unfolding write_file
  try_write q text m = let (r, m') = write_file q text m in (ok tt, m')

  unfoldable pub read_file : Text → Step Text
  read_file q m = (read_result (m.file q) (os.read_error q m) (os.missing q), m)

  -- `b, _ := os.ReadFile(path)`
  unfoldable pub read_or_empty : Text → Step Text
  read_or_empty q m =
      (ok (text_or_empty (read_result (m.file q) (os.read_error q m) (os.missing q))), m)

  -- exec.Command(…).Run() with its error ignored
  unfoldable pub run : List Text → Step (Unit {0})
  run args m = (ok tt, after (command args) (os.exec args [] m) m)

  -- exec.Command(…).Run() == nil
  unfoldable pub succeeds : List Text → Step Bool
  succeeds args m =
      let out = os.exec args [] m in
      (ok (elim out.failure [ none ↦ true | some e ↦ false ]), after (command args) out m)

  -- the standard output of a command that is given a standard input
  unfoldable pub run_output_stdin : Text → List Text → Step Text
  run_output_stdin stdin args m =
      let out = os.exec args stdin m in
      (answered out.failure out.stdout, after (command args) out m)

  unfoldable pub run_output : List Text → Step Text
  unfolding run_output_stdin
  run_output = run_output_stdin []

  -- exec.Command(…).CombinedOutput(), whose output goes into the error
  unfoldable pub combined : List Text → Step (Unit {0})
  combined args m =
      let out = os.exec args [] m in (reported out.failure out.output, after (command args) out m)

  -- time.Sleep
  unfoldable pub sleep : ℕ → Step (Unit {0})
  sleep d m =
      (ok tt, record { file = os.meanwhile d m; clock = m.clock + d + os.delay d m; log = m.log })

  -- What os.OpenFile without O_CREATE and WriteString do, errors ignored: where nothing is, nothing
  -- is written.
  append_to : Text → Text → Option Text → Step (Unit {0})
  append_to q text none = pure tt
  append_to q text (some old) = try_write q (old ++ text)

  append_file : Text → Text → Step (Unit {0})
  unfolding append_to
  append_file q text m = append_to q text (m.file q) m

  unfoldable pub append_if_missing : Text → Text → Step (Unit {0})
  unfolding append_file
  append_if_missing q line = do
    b ← read_or_empty q
    if contains line b then pure tt else append_file q (10 ∷ line ++ 10 ∷ [])
