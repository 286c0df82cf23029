-- ===== src/TokenCommand.antt =====
-- dcp-control-plane/cmd/tokens.go: `dcp-cp token generate`. crypto/rand and encoding/hex are the
-- parameter `TokenSource`; the machine is the one on which spire-server runs.
pub mod Stored
pub mod Counted
use provider_engine.Base.{
  ℕ, zero, suc, Text, bytes, ℤ, pos, negsuc, List, [], ◌∷◌, ◌++◌, Bool, Option, none, some, eqb,
  if◌then◌else◌,
}
use provider_engine.Errors.{Error, driver, message}
use provider_engine.Exec.{Result, ok, err, Exec, pure, raise, wrapping, ◌>>=◌, ◌>>◌}
use provider_engine.Machine.{Machine, Os}
use provider_engine.HostSetup.{provider_join_token}
use provider_engine.Store.Redis.{Redis, add_token}

-- the lines that are printed
pub data Line : Type 0 where
  -- DCP_TOKEN=%s and SPIRE_JOIN_TOKEN=%s
  token spire_token : Text → Line
  -- the line with the error of the SPIRE token
  spire_error : Text → Line
  blank : Line

pub record TokenSource : Type 0 where
  -- the 32 random bytes that are read in the turn after which this many turns are left
  pub random : ℕ → Result (List ℕ)
  pub hex : List ℕ → Text

pub record Flags : Type 0 where
  pub count : ℤ
  pub with_spire : Bool
  pub redis_addr : Text

pub record Session (r : Redis) : Type 0 where
  pub machine : Machine
  pub redis : r.Data
  -- the latest line first
  pub printed : List Line

module _ (r : Redis) where
  abbrev pub print : Line → Exec (Session r) (Unit {0})
  print line s =
      (ok tt, record { machine = s.machine; redis = s.redis; printed = line ∷ s.printed })

  abbrev with_redis : Session r → Result (Unit {0}) × r.Data → Result (Unit {0}) × Session r
  with_redis s (x, d) = (x, record { machine = s.machine; redis = d; printed = s.printed })

  abbrev pub store_token : Text → Exec (Session r) (Unit {0})
  store_token tok s = with_redis s (add_token r tok s.redis)

  module _ (os : Os) (src : TokenSource) where
    abbrev spire_line : Result Text → Line
    spire_line (ok t) = spire_token t
    spire_line (err e) = spire_error (message e)

    unfoldable pub print_spire : Exec (Session r) (Unit {0})
    print_spire s =
        let (x, m) = provider_join_token os s.machine in
        print (spire_line x) (record { machine = m; redis = s.redis; printed = s.printed })

    -- the loop, by the number of the turns that are left
    unfoldable pub generate_tokens : Bool → ℕ → Exec (Session r) (Unit {0})
    unfolding print_spire
    generate_tokens with_spire zero = pure tt
    generate_tokens with_spire (suc n) = do
      b ← λ s. (src.random n, s)
      wrapping (bytes "store token") (store_token (src.hex b))
      print (token (src.hex b))
      if with_spire then print_spire else pure tt
      if eqb n 0 then pure tt else print blank
      generate_tokens with_spire n

    abbrev pub turns : ℤ → ℕ
    turns (pos n) = n
    turns (negsuc n) = 0

    -- the command: `connection` is the error of store.NewRedis
    unfoldable pub token_generate : Option Text → Flags → Exec (Session r) (Unit {0})
    unfolding generate_tokens
    token_generate (some e) flags =
        wrapping (bytes "connect redis (is it running? --redis " ++ (flags.redis_addr ++ bytes ")"))
          (raise (driver e))
    token_generate none flags = generate_tokens flags.with_spire (turns flags.count)
