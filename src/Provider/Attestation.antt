-- ===== src/Provider/Attestation.antt =====
-- dcp-provider/internal/attestation/attest.go, over the parameters `Os` and `Binary`.
use provider_engine.Base.{Text, bytes}
use provider_engine.Exec.{Result, ok, err, pure, wrapping, ◌>>=◌}
use provider_engine.Strings.{trim_space}
use provider_engine.Machine.{Os, Step, read_file}

pub record Info : Type 0 where
  pub machine_id : Text
  pub binary_hash : Text

pub record Binary : Type 0 where
  -- os.Hostname, empty if it fails
  pub hostname : Text
  -- os.Executable, and what opening and reading that file gives
  pub executable : Result Text
  pub content : Text → Result Text
  -- hex.EncodeToString of the SHA-256 of a text
  pub digest : Text → Text

module _ (os : Os) (bin : Binary) where
  abbrev id_or_hostname : Result Text → Text
  id_or_hostname (ok text) = trim_space text
  id_or_hostname (err e) = bin.hostname

  -- machineID, which does not fail
  unfoldable pub machine_id : Step Text
  machine_id m =
      let (r, m') = read_file os (bytes "/etc/machine-id") m in (ok (id_or_hostname r), m')

  abbrev digest_of : Result Text → Result Text
  digest_of (ok text) = ok (bin.digest text)
  digest_of (err e) = err e

  unfoldable pub self_hash : Step Text
  self_hash = do exe ← λ m. (bin.executable, m); λ m. (digest_of (bin.content exe), m)

  unfoldable pub collect : Step Info
  unfolding machine_id self_hash
  collect = do
    id ← wrapping (bytes "machine id") machine_id
    hash ← wrapping (bytes "self hash") self_hash
    pure (record { machine_id = id; binary_hash = hash })
