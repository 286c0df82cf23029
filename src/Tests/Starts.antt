-- ===== src/Tests/Starts.antt =====
-- The theorems on the start of the agent and of the server, at concrete inputs.
use provider_engine.Base.{bytes, ◌==◌, pos, [], ◌∷◌, none, some, true, ◌≡◌, refl, if◌then◌else◌}
use provider_engine.Exec.{ok}
use provider_engine.Store.Models.{no_tables}
use provider_engine.Store.Postgres.{done}
use provider_engine.Store.Redis.{token_valid}
use provider_engine.Store.Redis.Memory.{memory, memory-IsRedis}
use provider_engine.Relay.{Host}
use provider_engine.Flags.{Cli}
use provider_engine.Api.Start.{Settings, Drivers, Boot}
use provider_engine.Base.{decimal, decimal_ℤ}
use provider_engine.Machine.{mkdir_all, write_file, read_file, read_or_empty, run_output_stdin}
use provider_engine.Provider.Agent.{resolve_mode}
use provider_engine.Provider.Meminfo.{resources}
use provider_engine.Provider.Attestation.{collect, machine_id, self_hash}
use provider_engine.Provider.Wireguard.{new_keypair, paths, is_termux, clamp, dir_of}
use provider_engine.Provider.Client.{registering}
use provider_engine.Api.Enrolment.{IsFresh}
use provider_engine.Link.Admission.{body_of, IsAdmitted, ReadsPayload, registering_at}
use provider_engine.Api.Server.{register, after_register}
use provider_engine.Api.Requests.{register_request}
use provider_engine.Store.Redis.{alloc_wg_ip, alloc_port, wg_ip_of, port_of}
use provider_engine.Store.Postgres.{upsert_provider}
use provider_engine.Registry as Registry
use provider_engine.Registry.{build_wg_config, enroll, store_provider}
use provider_engine.Api.Http.{value}
use provider_engine.Api.Server.{Env}
use provider_engine.Provider.Client.{RegisterRequest, RegisterResponse}
use provider_engine.Provider.Wireguard.{generate_keypair}
use provider_engine.Link.{Wire, IsLinked}
use provider_engine.Link.Joining.{registration_of, join_over, join_over-IsAdmitted}
use provider_engine.Tests.Setting.{env_now, codec, config, server, job_id}
use provider_engine.Tests.Hosts.{calm, bare}
use provider_engine.Tests.Machines.{keygen, keyed, binary, platform, agent_config}
use provider_engine.Tests.Links.{wire, wire-IsLinked}

abbrev drivers : Drivers
drivers = record {
  open_pg = λ dsn. none;
  ping_pg = λ dsn. none;
  parse_redis = λ addr. none;
  ping_redis = λ addr. none;
  migration = done;
  parse_private_key = ok;
  public_line = λ signer. signer;
}

-- every file holds a key, and wg0.conf is there
abbrev keyed_host : Host
keyed_host = record {
  run = λ args. none;
  write = λ path. none;
  read = λ path. some (bytes "key\n");
  exists = λ path. true;
  unreadable = λ path. [];
}

abbrev serve_settings : Settings
serve_settings = record {
  listen_addr = bytes ":8080";
  redis_addr = bytes "redis://localhost:6379";
  pg_dsn = bytes "postgres://localhost";
  ssh_ca_path = bytes "/etc/dcp/ssh-ca/platform_ca";
  wg_priv_key = bytes "/etc/wireguard/cp_private";
  wg_pub_key = bytes "/etc/wireguard/cp_public";
  wg_endpoint = bytes "127.0.0.1:51820";
  jwt_secret = bytes "secret";
}

abbrev stopped : Boot
stopped = record { tables = some no_tables; actions = [] }

abbrev cli : Cli
cli = record {
  given = λ name. if name == bytes "jwt-secret" then some (bytes "secret") else none;
  given_int = λ name. none;
  getenv = λ key. bytes "set";
}

abbrev asked : RegisterRequest
asked = record {
  token = bytes "t";
  public_key = bytes "Token: abc";
  resources = record { cpu_cores = pos 4; memory_mb = pos 0; disk_gb = pos 0 };
  location = bytes "eu";
  mode = bytes "container";
  meta =
      (bytes "machine_id", bytes "host")
      ∷ (bytes "binary_hash", bytes "/usr/bin/dcp-provider")
      ∷ (bytes "os", bytes "linux")
      ∷ (bytes "arch", bytes "amd64")
      ∷ [];
}

abbrev given : RegisterResponse
given = record {
  provider_id = job_id;
  wg_config =
      build_wg_config (bytes "Token: abc") (bytes "10.99.1.2") (bytes "cp") (bytes "host:51820");
  tunnel_port = pos 40001;
  wg_ip = bytes "10.99.1.2";
}

abbrev joining : Wire
joining = record wire { read_register = λ t. ok given }

joining-IsLinked : IsLinked joining (bytes "http://cp")
joining-IsLinked = record {
  poll_parses = wire-IsLinked.poll_parses;
  poll_path = wire-IsLinked.poll_path;
  report_parses = wire-IsLinked.report_parses;
  report_path = wire-IsLinked.report_path;
  register_parses = wire-IsLinked.register_parses;
  register_path = wire-IsLinked.register_path;
  beat_parses = wire-IsLinked.beat_parses;
  beat_path = wire-IsLinked.beat_path;
}

abbrev env_joining : Env
env_joining = record env_now { codec = record codec { register_body = λ t. value (body_of asked) } }

keys_made :
    generate_keypair calm keygen bare ≡ (ok (bytes "cHJpdmF0ZQ==", bytes "Token: abc"), keyed)
unfolding generate_keypair new_keypair paths is_termux clamp dir_of ◌==◌ mkdir_all write_file
    read_file read_or_empty run_output_stdin
keys_made = refl

abbrev asking : RegisterRequest
asking =
    registration_of joining memory config env_joining calm keygen binary platform agent_config bare
      keyed server (bytes "Token: abc")

decoded :
    env_joining.codec.register_body (joining.print (registering asking)) ≡ value (body_of asking)
unfolding resolve_mode resources collect machine_id self_hash generate_keypair new_keypair paths
    is_termux clamp dir_of ◌==◌ mkdir_all write_file read_file read_or_empty run_output_stdin
decoded = refl

fresh : IsFresh env_joining server
unfolding ◌==◌
fresh = refl

readable :
    ReadsPayload joining (registering_at joining memory config env_joining asking server).0.body
unfolding register Registry.register register_request token_valid enroll alloc_wg_ip alloc_port
    store_provider upsert_provider decimal_ℤ decimal after_register wg_ip_of port_of ◌==◌
readable = refl

join_over-IsAdmitted_example : IsAdmitted joining memory config env_joining asking server (
    join_over joining memory config env_joining calm keygen binary platform agent_config bare
      server)
join_over-IsAdmitted_example =
    join_over-IsAdmitted joining memory config env_joining calm keygen binary platform agent_config
      memory-IsRedis joining-IsLinked bare keyed (bytes "cHJpdmF0ZQ==", bytes "Token: abc") server
      keys_made decoded fresh readable
