-- ===== src/Provider/Wireguard.antt =====
-- dcp-provider/internal/wireguard/wg.go, over the parameter `Os`. crypto/rand and encoding/base64
-- are the parameter `Keygen`. The variable that is added to the environment of wireguard-go is not
-- in the model.
pub mod Restart
use provider_engine.Base.{
  ℕ, zero, suc, ◌+◌, ◌*◌, ◌/◌, ◌%◌, Text, bytes, ◌==◌, List, [], ◌∷◌, ◌++◌, Bool, true, false, not,
  eqb, Option, none, some, if◌then◌else◌,
}
use provider_engine.Exec.{Result, ok, err, Exec, pure, wrapping, ◌>>=◌, ◌>>◌}
use provider_engine.Strings.{trim_space}
use provider_engine.Machine.{
  Machine, Os, Step, argv, mkdir_all, write_file, read_file, read_or_empty, run, succeeds,
  run_output_stdin, combined,
}

pub record Keygen : Type 0 where
  -- 32 random bytes
  pub random : Machine → Result (List ℕ)
  -- base64.StdEncoding.EncodeToString
  pub encode : List ℕ → Text

pub record Paths : Type 0 where
  pub config : Text
  pub private_key : Text
  pub public_key : Text

abbrev pub base_paths : Text → Paths
base_paths base = record {
  config = base ++ bytes "/wg0.conf";
  private_key = base ++ bytes "/prov_private";
  public_key = base ++ bytes "/prov_public";
}

-- path[:strings.LastIndex(path, "/")], for a path with a slash
has_slash : Text → Bool
has_slash [] = false
has_slash (c ∷ s) = let rest = has_slash s in if eqb c 47 then true else rest

unfoldable pub dir_of : Text → Text
unfolding has_slash
dir_of [] = []
dir_of (c ∷ s) =
    let rest = dir_of s in if has_slash s then c ∷ rest else (if eqb c 47 then [] else c ∷ rest)

set_nth : ℕ → (ℕ → ℕ) → List ℕ → List ℕ
set_nth n f [] = []
set_nth zero f (b ∷ bs) = f b ∷ bs
set_nth (suc n) f (b ∷ bs) = b ∷ set_nth n f bs

-- `priv[0] &= 248` and `priv[31] = (priv[31] & 127) | 64`, on bytes
unfoldable pub clamp : List ℕ → List ℕ
unfolding set_nth
clamp key = set_nth 31 (λ b. b % 64 + 64) (set_nth 0 (λ b. 8 * (b / 8)) key)

module _ (os : Os) where
  unfoldable pub is_termux : Bool
  is_termux = not (os.env (bytes "ANDROID_ROOT") == [])

  unfoldable pub paths : Paths
  unfolding is_termux
  paths = base_paths (
      if is_termux
      then os.env (bytes "HOME") ++ bytes "/.dcp/wireguard"
      else bytes "/etc/wireguard")

  module _ (gen : Keygen) where
    -- the private and the public key, which are made and stored
    unfoldable pub new_keypair : Step (Text × Text)
    unfolding paths clamp
    new_keypair = do
      key ← λ m. (gen.random m, m)
      let private_key = gen.encode (clamp key)
      out ←
          wrapping (bytes "wg pubkey")
            (run_output_stdin os (private_key ++ 10 ∷ []) (argv "wg pubkey"))
      let public_key = trim_space out
      write_file os paths.private_key (private_key ++ 10 ∷ [])
      write_file os paths.public_key (public_key ++ 10 ∷ [])
      pure (private_key, public_key)

    abbrev pub reuse_or_make : Result Text → Step (Text × Text)
    reuse_or_make (ok existing) = do
      private_key ← read_or_empty os paths.private_key
      pure (trim_space private_key, trim_space existing)
    reuse_or_make (err e) = new_keypair

    unfoldable pub generate_keypair : Step (Text × Text)
    unfolding paths dir_of
    generate_keypair = do
      mkdir_all os (dir_of paths.config)
      λ m. let (existing, m') = read_file os paths.public_key m in reuse_or_make existing m'

  unfoldable pub bring_up_userspace : Text → Step (Unit {0})
  bring_up_userspace config = do
    run os (bytes "pkill" ∷ bytes "-f" ∷ bytes "wireguard-go wg0" ∷ [])
    wrapping (bytes "wireguard-go") (combined os (argv "wireguard-go wg0"))
    wrapping (bytes "wg setconf") (combined os (argv "wg setconf wg0" ++ (config ∷ [])))

  unfoldable pub bring_up : Step (Unit {0})
  unfolding paths is_termux bring_up_userspace
  bring_up = if is_termux then bring_up_userspace paths.config else do
    up ← succeeds os (argv "ip link show wg0")
    if up
        then wrapping (bytes "wg syncconf")
            (combined os (argv "wg syncconf wg0" ++ (paths.config ∷ [])))
        else wrapping (bytes "wg-quick up wg0") (combined os (argv "wg-quick up wg0"))

  unfoldable pub write_config : Text → Step (Unit {0})
  unfolding paths dir_of bring_up
  write_config conf = do
    mkdir_all os (dir_of paths.config)
    wrapping (bytes "write " ++ paths.config) (write_file os paths.config conf)
    bring_up
