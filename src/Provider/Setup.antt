-- ===== src/Provider/Setup.antt =====
-- dcp-provider/internal/setup/setup.go: `dcp-provider setup`, over the parameter `Os`.
pub mod Kept
use provider_engine.Base.{Text, bytes, ◌==◌, List, [], ◌∷◌, ◌++◌, Bool, true, false, if◌then◌else◌}
use provider_engine.Exec.{Exec, pure, wrapping, ◌>>=◌, ◌>>◌}
use provider_engine.Strings.{trim_space}
use provider_engine.Machine.{
  Machine, Os, Step, argv, if_exists, mkdir_all, try_mkdir, write_file, run, run_output_stdin,
  run_output, run_steps,
}
use provider_engine.HostSetup.Texts.{
  trust_domain, agent_conf, agent_unit, join_token, agent_conf_text, agent_unit_text,
}

pub record Config : Type 0 where
  pub cp_ip : Text
  pub spire_token : Text
  pub cp_url : Text
  pub token : Text
  pub location : Text

unfoldable pub prov_private : Text
prov_private = bytes "/etc/wireguard/prov_private"

unfoldable pub prov_public : Text
prov_public = bytes "/etc/wireguard/prov_public"

unfoldable pub provider_env : Text
provider_env = bytes "/etc/dcp/provider.env"

unfoldable pub provider_unit : Text
provider_unit = bytes "/etc/systemd/system/dcp-provider.service"

unfoldable pub env_text : Config → Text
env_text cfg =
    bytes "DCP_CP_URL="
    ++ (cfg.cp_url
        ++ (bytes "\nDCP_TOKEN="
            ++ (cfg.token ++ (bytes "\nDCP_LOCATION=" ++ (cfg.location ++ bytes "\n")))))

unfoldable pub provider_unit_text : Text
provider_unit_text =
    bytes "[Unit]\nDescription=DCP Provider Agent\nAfter=network.target spire-agent.service\n\n"
    ++ (bytes "[Service]\nEnvironmentFile=/etc/dcp/provider.env\n"
        ++ (bytes "ExecStart=/usr/local/bin/dcp-provider \\\n  --cp-url ${DCP_CP_URL} \\\n"
            ++ (bytes "  --token ${DCP_TOKEN} \\\n  --location ${DCP_LOCATION}\nRestart=always\n"
                ++ (bytes "RestartSec=10\nStandardOutput=journal\nStandardError=journal\n\n"
                    ++ bytes "[Install]\nWantedBy=multi-user.target\n"))))

-- the address of the SPIRE server
unfoldable pub server_address : Text → Text
server_address cp_ip = if cp_ip == [] then bytes "127.0.0.1" else cp_ip

module _ (os : Os) where
  unfoldable pub generate_keypair : Step (Unit {0})
  generate_keypair = do
    priv_key ← wrapping (bytes "wg genkey") (run_output os (argv "wg genkey"))
    pub_key ←
        wrapping (bytes "wg pubkey") (run_output_stdin os (trim_space priv_key) (argv "wg pubkey"))
    write_file os prov_private priv_key
    write_file os prov_public pub_key

  unfoldable pub setup_wg_keypair : Step (Unit {0})
  unfolding generate_keypair
  setup_wg_keypair = do
    mkdir_all os (bytes "/etc/wireguard")
    if_exists prov_private (pure tt) generate_keypair

  unfoldable pub setup_spire_agent : Config → Step (Unit {0})
  unfolding server_address
  setup_spire_agent cfg = do
    try_mkdir os (bytes "/var/lib/spire/agent")
    try_mkdir os (bytes "/tmp/spire-agent/public")
    try_mkdir os (bytes "/etc/spire")
    write_file os agent_conf (agent_conf_text (server_address cfg.cp_ip) trust_domain)
    if cfg.spire_token == [] then pure tt else write_file os join_token (cfg.spire_token ++ 10 ∷ [])
    write_file os agent_unit (agent_unit_text (bytes "network.target"))
    run os (argv "systemctl daemon-reload")
    run os (argv "systemctl enable spire-agent")
    if cfg.spire_token == [] then pure tt else run os (argv "systemctl start spire-agent")

  unfoldable pub write_env_file : Config → Step (Unit {0})
  write_env_file cfg = do try_mkdir os (bytes "/etc/dcp"); write_file os provider_env (env_text cfg)

  unfoldable pub write_systemd_unit : Step (Unit {0})
  write_systemd_unit = do
    write_file os provider_unit provider_unit_text
    run os (argv "systemctl daemon-reload")
    run os (argv "systemctl enable dcp-provider")

  unfoldable pub setup_firewall : Step (Unit {0})
  setup_firewall = do
    run os (argv "ufw allow 22/tcp")
    run os (argv "ufw allow 51821/udp")
    run os (argv "ufw --force enable")

  -- the steps after the keypair
  abbrev pub later_steps : Config → List (Text × Step (Unit {0}))
  later_steps cfg =
      (bytes "SPIRE agent", setup_spire_agent cfg)
      ∷ (bytes "env file", write_env_file cfg)
      ∷ (bytes "systemd: dcp-provider", write_systemd_unit)
      ∷ (bytes "firewall", setup_firewall)
      ∷ []

  -- Run, less the summary that it prints
  unfoldable pub run_all : Config → Step (Unit {0})
  run_all cfg = run_steps ((bytes "WireGuard keypair", setup_wg_keypair) ∷ later_steps cfg)
