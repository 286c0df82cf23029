-- ===== src/Provider/Keys.antt =====
-- dcp-provider/internal/vm/ssh.go. The file ~/.ssh/authorized_keys is the state, none if it does
-- not exist; the package golang.org/x/crypto/ssh and the errors of the file system are the
-- parameter `Device`.
pub mod Lines
use provider_engine.Base.{
  ℕ, Text, bytes, ◌==◌, ℤ, pos, negsuc, List, [], ◌∷◌, ◌++◌, Bool, true, false, ◌||◌, ◌&&◌, Option,
  none, some, eqb, if◌then◌else◌,
}
use provider_engine.Errors.{driver}
use provider_engine.Exec.{Result, ok, err, Exec, pure, raise, wrapping, ◌>>=◌, ◌>>◌}
use provider_engine.Strings.{trim_space, split_lines}

pub record Device : Type 0 where
  -- the canonical line of a key, as MarshalAuthorizedKey prints the parsed key
  pub canonical : Text → Result Text
  -- the errors of the home directory, of MkdirAll, of opening and of writing the file
  pub home_error : Option Text
  pub mkdir_error : Option Text
  pub open_error : Option Text
  pub write_error : Option Text
  -- os.ReadFile of the file that is there succeeds
  pub can_read : Bool
  -- what a write that fails has written of these bytes
  pub partly : Text → Text
  -- `getprop` succeeds
  pub is_android : Bool

abbrev pub File : Type 0
File = Option Text

abbrev pub fail_if : Option Text → Exec File (Unit {0})
fail_if none = pure tt
fail_if (some e) = raise (driver e)

abbrev pub has_line : Text → List Text → Bool
has_line key [] = false
has_line key (l ∷ ls) = trim_space l == key || has_line key ls

unfoldable pub is_authorized : Text → File → Bool
unfolding split_lines
is_authorized key none = false
is_authorized key (some text) = has_line key (split_lines text)

abbrev pub content : File → Text
content none = []
content (some text) = text

-- the append of authorizeKey
abbrev pub add_line : Text → File → File
add_line key f = some (content f ++ (key ++ 10 ∷ []))

-- O_CREATE
abbrev pub create_file : Exec File (Unit {0})
create_file f = (ok tt, some (content f))

module _ (d : Device) where
  abbrev write_line : Option Text → Text → Exec File (Unit {0})
  write_line none key f = (ok tt, add_line key f)
  write_line (some e) key f = (err (driver e), some (content f ++ d.partly (key ++ 10 ∷ [])))

  unfoldable pub append_key : Text → Exec File (Unit {0})
  append_key key = do
    wrapping (bytes "open authorized_keys") (fail_if d.open_error)
    create_file
    wrapping (bytes "write authorized_keys") (write_line d.write_error key)

  unfoldable pub authorize_canonical : Text → Exec File (Unit {0})
  unfolding append_key is_authorized
  authorize_canonical key = do
    wrapping (bytes "resolve home dir") (fail_if d.home_error)
    wrapping (bytes "mkdir ~/.ssh") (fail_if d.mkdir_error)
    λ f. if d.can_read && is_authorized key f then (ok tt, f) else append_key key f

  unfoldable pub authorize_key : Text → Exec File (Unit {0})
  unfolding authorize_canonical
  authorize_key pub_key = do
    line ← wrapping (bytes "reject invalid SSH public key") (λ f. (d.canonical pub_key, f))
    authorize_canonical (trim_space line)

  -- cfg.SSHPort, or the default of the system
  unfoldable pub ssh_port : ℤ → ℤ
  ssh_port port = elim port [
    | pos n ↦ if eqb n 0 then (if d.is_android then pos 8022 else pos 22) else pos n
    | negsuc n ↦ negsuc n
  ]

  -- SpawnSSH, which returns the address and the port
  unfoldable pub spawn_ssh : Text → ℤ → Text → Exec File (Text × ℤ)
  unfolding authorize_key ssh_port
  spawn_ssh wg_ip port key = do
    if key == [] then pure tt else wrapping (bytes "authorize key") (authorize_key key)
    pure (wg_ip, ssh_port port)
