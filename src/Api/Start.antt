-- ===== src/Api/Start.antt =====
-- dcp-control-plane/internal/api/server.go, Serve up to its routes, with NewPG, Migrate and NewRedis
-- of dcp-control-plane/pkg/store and Load and PublicKey of dcp-control-plane/internal/sshca. The
-- drivers of the stores and the parser of SSH keys are the parameter `Drivers`.
pub mod Ending
use provider_engine.Base.{Text, bytes, pos, List, [], Option, none, some}
use provider_engine.Errors.{driver}
use provider_engine.Exec.{Result, ok, err, Exec, pure, raise, wrapping, ◌>>=◌, ◌>>◌}
use provider_engine.Store.Models.{Tables, no_tables}
use provider_engine.Store.Postgres.{Reply, settle}
use provider_engine.Relay as Relay
use provider_engine.Relay.{Host, Action, read_file, pub_key, init}
use provider_engine.Registry as Registry
use provider_engine.Api.Server as Server

-- Config of server.go
pub record Settings : Type 0 where
  pub listen_addr : Text
  pub redis_addr : Text
  pub pg_dsn : Text
  pub ssh_ca_path : Text
  pub wg_priv_key : Text
  pub wg_pub_key : Text
  pub wg_endpoint : Text
  pub jwt_secret : Text

pub record Drivers : Type 0 where
  -- the errors of sql.Open and of its Ping, of redis.ParseURL and of its Ping, for an address
  pub open_pg : Text → Option Text
  pub ping_pg : Text → Option Text
  pub parse_redis : Text → Option Text
  pub ping_redis : Text → Option Text
  -- how the server ends the statements of the schema
  pub migration : Reply
  -- ssh.ParsePrivateKey, and the authorized_keys line of the public key of a signer
  pub parse_private_key : Text → Result Text
  pub public_line : Text → Text

-- The database, whose tables may not exist yet, and what was done to the host, the latest first
pub record Boot : Type 0 where
  pub tables : Option Tables
  pub actions : List Action

-- What the handlers and the listener start with; `signer` is what the CA holds.
pub record Serving : Type 0 where
  pub config : Server.Config
  pub signer : Text
  pub listen_addr : Text

abbrev failing : Option Text → Exec Boot (Unit {0})
failing none = pure tt
failing (some e) = raise (driver e)

abbrev on_host : {A : Type 0} → Exec (List Action) A → Exec Boot A
on_host m b = let (x, acts) = m b.actions in (x, record b { actions = acts })

-- a failure is only logged
abbrev warned : Result (Unit {0}) × Boot → Result (Unit {0}) × Boot
warned (x, b) = (ok tt, b)

-- CREATE TABLE IF NOT EXISTS
abbrev created : Option Tables → Option Tables
created none = some no_tables
created (some t) = some t

abbrev migrated : Reply → Option Tables → Result (Unit {0}) × Option Tables
migrated Reply.done t = (ok tt, created t)
migrated (Reply.refused e) t = (err (driver e), t)
migrated (Reply.unconfirmed e) t = (err (driver e), created t)

module _ (d : Drivers) where
  unfoldable pub new_pg : Text → Exec Boot (Unit {0})
  new_pg dsn = do
    failing (d.open_pg dsn)
    wrapping (bytes "postgres ping") (failing (d.ping_pg dsn))

  unfoldable pub migrate : Exec Boot (Unit {0})
  migrate b = let (x, t) = migrated d.migration b.tables in (x, record b { tables = t })

  unfoldable pub new_redis : Text → Exec Boot (Unit {0})
  new_redis addr = do
    wrapping (bytes "redis parse url") (failing (d.parse_redis addr))
    wrapping (bytes "redis ping") (failing (d.ping_redis addr))

  module _ (h : Host) where
    -- sshca.Load
    unfoldable pub load : Text → Exec Boot Text
    load path = do
      text ← wrapping (bytes "read ssh ca key") (on_host (read_file h path))
      wrapping (bytes "parse ssh ca key") (λ b. (d.parse_private_key text, b))

    abbrev pub relay_config : Settings → Relay.Config
    relay_config cfg = record {
      priv_key_path = cfg.wg_priv_key;
      pub_key_path = cfg.wg_pub_key;
      listen_port = pos 51820;
      address = bytes "10.99.0.1/24";
    }

    abbrev pub serving : Settings → Text → Text → Serving
    serving cfg signer cp_pub_key = record {
      config = record {
        registry = record { wg_pub = cp_pub_key; cp_endpoint = cfg.wg_endpoint };
        jwt_secret = cfg.jwt_secret;
      };
      signer = signer;
      listen_addr = cfg.listen_addr;
    }

    -- Serve up to its routes
    unfoldable pub start : Settings → Exec Boot Serving
    unfolding new_pg migrate new_redis load
    start cfg = do
      new_pg cfg.pg_dsn
      migrate
      new_redis cfg.redis_addr
      signer ← load cfg.ssh_ca_path
      cp_pub_key ← on_host (pub_key h cfg.wg_pub_key)
      λ b. warned (on_host (init h (relay_config cfg)) b)
      pure (serving cfg signer cp_pub_key)

  -- PublicKey of the CA
  unfoldable pub public_key : Serving → Text
  public_key s = d.public_line s.signer
