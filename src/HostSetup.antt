-- ===== src/HostSetup.antt =====
-- dcp-control-plane/internal/setup/setup.go: `dcp-cp setup`, over the parameter `Os`.
pub mod Texts
pub mod Kept
pub mod Secrets
use provider_engine.Base.{
  ℕ, zero, suc, Text, bytes, List, [], ◌∷◌, ◌++◌, Bool, true, false, Option, none, some,
  if◌then◌else◌,
}
use provider_engine.Errors.{driver}
use provider_engine.Exec.{Exec, pure, raise, wrapping, ◌>>=◌, ◌>>◌}
use provider_engine.Strings.{trim_space, fields}
use provider_engine.Machine.{
  Machine, Os, Step, argv, if_exists, mkdir_all, try_mkdir, write_file, try_write, read_file,
  read_or_empty, run, succeeds, run_output_stdin, run_output, combined, sleep, run_steps,
  append_if_missing,
}
use Texts.{
  Config, trust_domain, spire_server_sock, wg_conf, sysctl_conf, server_conf, server_unit,
  agent_conf, agent_unit, join_token, pg_pass, pg_dsn, jwt_secret, cp_unit, wg_conf_text,
  server_conf_text, server_unit_text, agent_conf_text, agent_unit_text, dsn_text, cp_unit_text,
}

-- The last of at least two words
last_word : Text → List Text → Text
last_word w [] = w
last_word w (v ∷ vs) = last_word v vs

unfoldable pub token_value : List Text → Option Text
unfolding last_word
token_value [] = none
token_value (w ∷ []) = none
token_value (w ∷ v ∷ vs) = some (last_word v vs)

abbrev or_unexpected : Text → Option Text → Step Text
or_unexpected context (some t) = pure t
or_unexpected context none = raise (driver context)

module _ (os : Os) where
  unfoldable pub setup_ssh_ca : Config → Step (Unit {0})
  setup_ssh_ca cfg = do
    mkdir_all os (bytes "/etc/dcp/ssh-ca")
    if_exists cfg.ssh_ca_path (pure tt) (
        wrapping (bytes "ssh-keygen") (
          combined os (
            argv "ssh-keygen -t ecdsa -b 521 -f"
            ++ (cfg.ssh_ca_path ∷ bytes "-N" ∷ [] ∷ argv "-C dcp-platform-ssh-ca"))))

  unfoldable pub generate_keypair : Config → Step (Unit {0})
  generate_keypair cfg = do
    priv_key ← wrapping (bytes "wg genkey") (run_output os (argv "wg genkey"))
    pub_key ←
        wrapping (bytes "wg pubkey") (run_output_stdin os (trim_space priv_key) (argv "wg pubkey"))
    write_file os cfg.wg_priv_path priv_key
    write_file os cfg.wg_pub_path pub_key

  unfoldable pub write_wg_conf : Config → Step (Unit {0})
  write_wg_conf cfg = do
    priv_key ← read_file os cfg.wg_priv_path
    write_file os wg_conf (wg_conf_text (trim_space priv_key))

  unfoldable pub setup_wireguard : Config → Step (Unit {0})
  unfolding generate_keypair write_wg_conf
  setup_wireguard cfg = do
    mkdir_all os (bytes "/etc/wireguard")
    if_exists cfg.wg_priv_path (pure tt) (generate_keypair cfg)
    if_exists wg_conf (pure tt) (write_wg_conf cfg)
    run os (argv "sysctl -w net.ipv4.ip_forward=1")
    append_if_missing os sysctl_conf (bytes "net.ipv4.ip_forward=1")
    up ← succeeds os (argv "ip link show wg0")
    if up then pure tt else wrapping (bytes "wg-quick up") (combined os (argv "wg-quick up wg0"))
    run os (argv "systemctl enable wg-quick@wg0")

  -- the loop that waits for the socket, at most so many times two seconds
  unfoldable pub wait_for_server : ℕ → Step (Unit {0})
  wait_for_server zero = pure tt
  wait_for_server (suc n) =
      if_exists spire_server_sock (pure tt) (sleep os 2000 >> wait_for_server n)

  generate_token : Text → Text → Text → Step Text
  generate_token context unexpected node = do
    out ← wrapping context (
        run_output os (
          argv "spire-server token generate -socketPath"
          ++ (spire_server_sock
              ∷ bytes "-spiffeID"
              ∷ (bytes "spiffe://" ++ (trust_domain ++ (bytes "/node/" ++ node)))
              ∷ [])))
    or_unexpected unexpected (token_value (fields out))

  -- The error text leaves out the output that the source quotes in it.
  unfoldable pub save_join_token : Step (Unit {0})
  unfolding generate_token
  save_join_token = do
    token ←
        generate_token (bytes "generate join token") (bytes "unexpected token output") (bytes "cp")
    mkdir_all os (bytes "/etc/dcp")
    write_file os join_token (token ++ 10 ∷ [])

  unfoldable pub setup_spire_server : Step (Unit {0})
  unfolding wait_for_server save_join_token
  setup_spire_server = do
    mkdir_all os (bytes "/etc/spire")
    mkdir_all os (bytes "/var/lib/spire/server")
    if_exists server_conf (pure tt) (write_file os server_conf server_conf_text)
    write_file os server_unit server_unit_text
    run os (argv "systemctl daemon-reload")
    run os (argv "systemctl enable --now spire-server")
    wait_for_server 15
    save_join_token

  unfoldable pub setup_spire_agent : Step (Unit {0})
  setup_spire_agent = do
    try_mkdir os (bytes "/var/lib/spire/agent")
    try_mkdir os (bytes "/tmp/spire-agent/public")
    if_exists agent_conf (pure tt)
        (write_file os agent_conf (agent_conf_text (bytes "127.0.0.1") trust_domain))
    write_file os agent_unit (agent_unit_text (bytes "network.target spire-server.service"))
    run os (argv "systemctl daemon-reload")
    run os (argv "systemctl enable --now spire-agent")

  abbrev psql : Text → List Text
  psql statement = argv "sudo -u postgres psql -c" ++ (statement ∷ [])

  unfoldable pub new_password : Step Text
  new_password = do
    p ← run_output os (argv "openssl rand -hex 24")
    write_file os pg_pass (trim_space p ++ 10 ∷ [])
    pure (trim_space p)

  unfoldable pub password : Step Text
  unfolding new_password
  password = if_exists pg_pass (do b ← read_or_empty os pg_pass; pure (trim_space b)) new_password

  unfoldable pub setup_postgres : Step (Unit {0})
  unfolding password
  setup_postgres = do
    try_mkdir os (bytes "/etc/dcp")
    pass ← password
    run os (psql (bytes "CREATE USER dcp WITH PASSWORD '" ++ (pass ++ bytes "';")))
    run os (psql (bytes "CREATE DATABASE dcp_registry OWNER dcp;"))
    try_write os pg_dsn (dsn_text pass ++ 10 ∷ [])

  unfoldable pub new_jwt_secret : Step (Unit {0})
  new_jwt_secret = do
    secret ← run_output os (argv "openssl rand -hex 32")
    write_file os jwt_secret (trim_space secret ++ 10 ∷ [])

  unfoldable pub setup_jwt_secret : Step (Unit {0})
  unfolding new_jwt_secret
  setup_jwt_secret = if_exists jwt_secret (pure tt) new_jwt_secret

  unfoldable pub write_systemd_unit : Config → Step (Unit {0})
  write_systemd_unit cfg = do
    write_file os cp_unit (cp_unit_text cfg)
    run os (argv "systemctl daemon-reload")

  -- the loop over the rules of the firewall
  unfoldable pub allow_all : List Text → Step (Unit {0})
  allow_all [] = pure tt
  allow_all (rule ∷ rules) = run os (argv "ufw allow" ++ (rule ∷ [])) >> allow_all rules

  unfoldable pub setup_firewall : Step (Unit {0})
  unfolding allow_all
  setup_firewall = do
    allow_all (argv "22/tcp 443/tcp 8080/tcp 8081/tcp 51820/udp")
    run os (argv "ufw --force enable")

  abbrev pub steps : Config → List (Text × Step (Unit {0}))
  steps cfg =
      (bytes "SSH CA", setup_ssh_ca cfg)
      ∷ (bytes "WireGuard (CP)", setup_wireguard cfg)
      ∷ (bytes "SPIRE server", setup_spire_server)
      ∷ (bytes "SPIRE agent", setup_spire_agent)
      ∷ (bytes "PostgreSQL", setup_postgres)
      ∷ (bytes "JWT secret", setup_jwt_secret)
      ∷ (bytes "systemd: dcp-cp", write_systemd_unit cfg)
      ∷ (bytes "firewall", setup_firewall)
      ∷ []

  -- Run, less the summary that it prints
  unfoldable pub run_all : Config → Step (Unit {0})
  run_all cfg = run_steps (steps cfg)

  -- GenerateProviderJoinToken
  unfoldable pub provider_join_token : Step Text
  unfolding generate_token
  provider_join_token =
      generate_token (bytes "spire token") (bytes "unexpected output") (bytes "provider")
