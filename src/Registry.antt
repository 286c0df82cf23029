-- ===== src/Registry.antt =====
-- dcp-control-plane/internal/registry/registry.go
pub mod Outcome
pub mod Addresses
pub mod Sweep
pub mod Tokens
use provider_engine.Base.{ℕ, ◌*◌, ◌/◌, Text, bytes, ℤ, ◌++◌, if◌then◌else◌, not, pos}
use provider_engine.Errors.{invalid_token}
use provider_engine.Exec.{Exec, pure, raise, wrapping, ◌>>=◌, ◌>>◌}
use provider_engine.World.{World, on_pg, on_redis}
use provider_engine.Store.Models.{Time, second, Provider, online}
use provider_engine.Store.Postgres.{Postgres, upsert_provider, update_heartbeat, mark_offline}
use provider_engine.Store.Redis.{Redis, token_valid, alloc_wg_ip, alloc_port}

-- The fields of `Registry` beside the two stores.
pub record Config : Type 0 where
  pub wg_pub : Text
  pub cp_endpoint : Text

pub record RegisterRequest : Type 0 where
  pub token : Text
  pub wg_pubkey : Text
  pub location : Text
  pub mode : Text
  pub cpu_cores : ℤ
  pub memory_mb : ℤ
  pub disk_gb : ℤ
  pub machine_id : Text
  pub binary_hash : Text

pub record RegisterResult : Type 0 where
  pub provider_id : Text
  pub wg_config : Text
  pub tunnel_port : ℤ
  pub wg_ip : Text

unfoldable pub build_wg_config : Text → Text → Text → Text → Text
build_wg_config provider_pubkey provider_ip cp_pubkey cp_endpoint =
    bytes "[Interface]\nAddress = "
    ++ (provider_ip
        ++ (bytes "/32\nPrivateKey = /etc/wireguard/prov_private\n\n[Peer]\nPublicKey = "
            ++ (cp_pubkey
                ++ (bytes "\nEndpoint = "
                    ++ (cp_endpoint
                        ++ bytes "\nAllowedIPs = 10.99.0.0/16\nPersistentKeepalive = 25\n")))))

-- the struct that Register stores
unfoldable pub new_provider : RegisterRequest → Text → Text → ℤ → Time → Provider
new_provider req provider_id wg_ip tunnel_port now = record {
  id = provider_id;
  token = req.token;
  wg_pubkey = req.wg_pubkey;
  wg_ip = wg_ip;
  tunnel_port = tunnel_port;
  location = req.location;
  mode = req.mode;
  cpu_cores = req.cpu_cores;
  memory_mb = req.memory_mb;
  disk_gb = req.disk_gb;
  machine_id = req.machine_id;
  binary_hash = req.binary_hash;
  status = online;
  active_vms = pos 0;
  cpu_load = 0;
  mem_free_mb = pos 0;
  last_seen = 0;
  registered_at = now;
}

module _ (r : Redis) (db : Postgres) where
  unfoldable pub heartbeat : Text → ℤ → ℕ → ℤ → Exec (World r) (Unit {0})
  heartbeat id active_vms cpu_load mem_free =
      on_pg (update_heartbeat db id active_vms cpu_load mem_free)

  -- One tick of SweepOffline; its error is only logged. MarkOffline sends whole seconds.
  unfoldable pub sweep_offline : World r → World r
  sweep_offline w = (on_pg (mark_offline db (90 * second / second * second)) w).1

module _ (r : Redis) (db : Postgres) (cfg : Config) where
  -- Register from the point where the address and the port are allocated
  unfoldable pub store_provider :
      Text → Time → RegisterRequest → Text → ℤ → Exec (World r) RegisterResult
  store_provider provider_id now req wg_ip tunnel_port = do
    let pr = new_provider req provider_id wg_ip tunnel_port now
    wrapping (bytes "upsert provider") (on_pg (upsert_provider db pr))
    pure (record {
      provider_id = provider_id;
      wg_config = build_wg_config req.wg_pubkey wg_ip cfg.wg_pub cfg.cp_endpoint;
      tunnel_port = tunnel_port;
      wg_ip = wg_ip;
    })

  -- Register from the point where the token is accepted
  unfoldable pub enroll : Text → Time → RegisterRequest → Exec (World r) RegisterResult
  enroll provider_id now req = do
    wg_ip ← wrapping (bytes "alloc wg ip") (on_redis (alloc_wg_ip r))
    tunnel_port ← wrapping (bytes "alloc port") (on_redis (alloc_port r))
    store_provider provider_id now req wg_ip tunnel_port

  -- `provider_id` is the `uuid.New().String()` and `now` the `time.Now()` of this call
  unfoldable pub register : Text → Time → RegisterRequest → Exec (World r) RegisterResult
  register provider_id now req = do
    valid ← wrapping (bytes "validate token") (on_redis (token_valid r req.token))
    if not valid then raise invalid_token else enroll provider_id now req
