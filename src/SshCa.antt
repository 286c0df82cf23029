-- ===== src/SshCa.antt =====
-- dcp-control-plane/internal/sshca/sshca.go. The package golang.org/x/crypto/ssh is the parameter
-- `Ssh`. An instant is a number of nanoseconds since 1970, and so is a time.Duration, an int64.
pub mod Window
use provider_engine.Base.{
  ℕ, suc, ◌-◌, ◌*◌, ◌/◌, ◌%◌, Text, bytes, ℤ, pos, negsuc, ◌+ℤ◌, decimal_ℤ, List, [], ◌∷◌, ◌++◌,
  ltb, if◌then◌else◌, zero, ◌-ℤ◌,
}
use provider_engine.Errors.{wrap}
use provider_engine.Exec.{Result, ok, err}
use provider_engine.Store.Models.{second}

abbrev pub hour : ℕ
hour = 3600 * second

-- `int64` and `uint64` conversions keep the low 64 bits.
abbrev pub u64_mod : ℕ
u64_mod = 18446744073709551616

abbrev pub to_u64 : ℤ → ℕ
to_u64 (pos n) = n % u64_mod
to_u64 (negsuc n) = u64_mod - 1 - n % u64_mod

abbrev signed : ℕ → ℤ
signed n = if ltb n 9223372036854775808 then pos n else negsuc (u64_mod - 1 - n)

-- `time.Duration(h) * time.Hour`, which wraps round
unfoldable pub duration_of_hours : ℤ → ℤ
duration_of_hours (pos h) = signed (h * hour % u64_mod)
duration_of_hours (negsuc h) = signed (to_u64 (negsuc (suc h * hour - 1)))

-- `t.Unix()` rounds down.
abbrev pub unix : ℤ → ℤ
unix (pos n) = pos (n / second)
unix (negsuc n) = negsuc (n / second)

pub record SignRequest : Type 0 where
  pub user_pubkey : Text
  pub principal : Text
  pub vm_id : Text
  pub ttl : ℤ

-- The fields of ssh.Certificate that are set; CertType is ssh.UserCert.
pub record Certificate : Type 0 where
  pub key : Text
  pub key_id : Text
  pub valid_principals : List Text
  pub valid_after : ℕ
  pub valid_before : ℕ
  pub extensions : List Text

pub record Ssh : Type 0 where
  -- a key, or the text of the error
  pub parse_authorized_key : Text → Result Text
  pub sign : Certificate → Result Certificate
  pub marshal : Certificate → Text

abbrev or_default : ℤ → ℤ
or_default (pos zero) = pos (8 * hour)
or_default (pos (suc n)) = pos (suc n)
or_default (negsuc n) = negsuc n

-- The three calls of time.Now are taken at one instant.
unfoldable pub certificate : ℤ → Text → SignRequest → Certificate
certificate now key req = record {
  key = key;
  key_id = bytes "dcp-" ++ (req.vm_id ++ (bytes "-" ++ decimal_ℤ (unix now)));
  valid_principals = req.principal ∷ [];
  valid_after = to_u64 (unix (now -ℤ pos (30 * second)));
  valid_before = to_u64 (unix (now +ℤ or_default req.ttl));
  extensions = bytes "permit-pty" ∷ bytes "permit-user-rc" ∷ bytes "permit-port-forwarding" ∷ [];
}

module _ (ssh : Ssh) where
  unfoldable pub issue_cert : ℤ → SignRequest → Result Text
  unfolding certificate
  issue_cert now req = elim (ssh.parse_authorized_key req.user_pubkey) [
    | err e ↦ err (wrap (bytes "parse user pubkey") e)
    | ok key ↦ elim (ssh.sign (certificate now key req)) [
      | err e ↦ err (wrap (bytes "sign cert") e)
      | ok cert ↦ ok (ssh.marshal cert)
    ]
  ]
