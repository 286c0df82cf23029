-- ===== src/ServeCommand/Secret.antt =====
-- What the command `serve` starts with, and where its JWT secret comes from.
use provider_engine.Base.{Text, bytes, Option, none, some, ◌≡◌}
use provider_engine.Errors.{driver}
use provider_engine.Exec.{Result, ok, err}
use provider_engine.Flags.{Cli}
use provider_engine.Relay.{Host}
use provider_engine.Api.Start.{Drivers, Boot, Serving}
use provider_engine.Api.Start.Ending.{IsFailed, IsStarted}
use provider_engine.ServeCommand.{settings}

module _ (cli : Cli) (d : Drivers) (h : Host) (b : Boot) where
  -- How the command ends, by the secret that the command line gives
  abbrev pub IsServed : Option Text → Result Serving × Boot → Type 0
  IsServed none out = out ≡ (err (driver (bytes "required flag(s) \"jwt-secret\" not set")), b)
  IsServed (some s) (err e, b') = IsFailed b b'
  IsServed (some s) (ok sv, b') = IsStarted d h (settings cli) b sv b' × (sv.config.jwt_secret ≡ s)
