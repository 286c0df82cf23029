-- ===== src/HostSetup/Texts.antt =====
-- dcp-control-plane/internal/setup/setup.go: the paths and the texts of the files that it writes.
use provider_engine.Base.{Text, bytes, ◌++◌}

pub record Config : Type 0 where
  pub ssh_ca_path : Text
  pub wg_priv_path : Text
  pub wg_pub_path : Text

abbrev pub trust_domain : Text
trust_domain = bytes "dcp.io"

abbrev pub spire_server_sock : Text
spire_server_sock = bytes "/tmp/spire-server/private/api.sock"

unfoldable pub wg_conf : Text
wg_conf = bytes "/etc/wireguard/wg0.conf"

unfoldable pub sysctl_conf : Text
sysctl_conf = bytes "/etc/sysctl.conf"

unfoldable pub server_conf : Text
server_conf = bytes "/etc/spire/server.conf"

unfoldable pub server_unit : Text
server_unit = bytes "/etc/systemd/system/spire-server.service"

unfoldable pub agent_conf : Text
agent_conf = bytes "/etc/spire/agent.conf"

unfoldable pub agent_unit : Text
agent_unit = bytes "/etc/systemd/system/spire-agent.service"

unfoldable pub join_token : Text
join_token = bytes "/etc/spire/join_token"

unfoldable pub pg_pass : Text
pg_pass = bytes "/etc/dcp/pg_pass"

unfoldable pub pg_dsn : Text
pg_dsn = bytes "/etc/dcp/pg_dsn"

unfoldable pub jwt_secret : Text
jwt_secret = bytes "/etc/dcp/jwt_secret"

unfoldable pub cp_unit : Text
cp_unit = bytes "/etc/systemd/system/dcp-cp.service"

unfoldable pub wg_conf_text : Text → Text
wg_conf_text key =
    bytes "[Interface]\nAddress = 10.99.0.1/16\nListenPort = 51820\nPrivateKey = "
    ++ (key ++ bytes "\n")

unfoldable pub server_conf_text : Text
server_conf_text =
    bytes "server {\n  bind_address = \"0.0.0.0\"\n  bind_port    = \"8081\"\n"
    ++ (bytes "  trust_domain = \""
        ++ (trust_domain
            ++ (bytes "\"\n  data_dir     = \"/var/lib/spire/server\"\n  log_level    = \"INFO\"\n"
                ++ (bytes "  ca_ttl                = \"24h\"\n  default_x509_svid_ttl = \"1h\"\n}\n"
                    ++ (bytes "plugins {\n  DataStore \"sql\" {\n    plugin_data {\n"
                        ++ (bytes
                              "      database_type     = \"sqlite3\"\n      connection_string = "
                            ++ (bytes "\"/var/lib/spire/server/datastore.sqlite3\"\n    }\n  }\n"
                                ++ (bytes "  KeyManager \"disk\" {\n    plugin_data { keys_path = "
                                    ++ (bytes "\"/var/lib/spire/server/keys.json\" }\n  }\n"
                                        ++ bytes "  NodeAttestor \"join_token\" {}\n}\n")))))))))

unfoldable pub server_unit_text : Text
server_unit_text =
    bytes "[Unit]\nDescription=SPIRE Server\nAfter=network.target\n\n[Service]\n"
    ++ (bytes "ExecStart=/usr/local/bin/spire-server run -config /etc/spire/server.conf\n"
        ++ (bytes "Restart=always\nRestartSec=5\nStandardOutput=journal\nStandardError=journal\n\n"
            ++ bytes "[Install]\nWantedBy=multi-user.target\n"))

-- the configuration of a SPIRE agent, which both programs write
unfoldable pub agent_conf_text : Text → Text → Text
agent_conf_text address domain =
    bytes "agent {\n  data_dir       = \"/var/lib/spire/agent\"\n  log_level      = \"INFO\"\n"
    ++ (bytes "  server_address = \""
        ++ (address
            ++ (bytes "\"\n  server_port    = \"8081\"\n  trust_domain   = \""
                ++ (domain
                    ++ (bytes "\"\n  socket_path    = \"/tmp/spire-agent/public/api.sock\"\n}\n"
                        ++ (bytes "plugins {\n  NodeAttestor     \"join_token\" {}\n"
                            ++ (bytes "  KeyManager       \"memory\" {}\n"
                                ++ bytes "  WorkloadAttestor \"unix\" {}\n}\n")))))))

-- the unit of a SPIRE agent, which both programs write with a different After
unfoldable pub agent_unit_text : Text → Text
agent_unit_text after =
    bytes "[Unit]\nDescription=SPIRE Agent\nAfter="
    ++ (after
        ++ (bytes "\n\n[Service]\nExecStartPre=/bin/mkdir -p /tmp/spire-agent/public\n"
            ++ (bytes "ExecStart=/bin/bash -c '/usr/local/bin/spire-agent run \\\n"
                ++ (bytes "  -config /etc/spire/agent.conf \\\n"
                    ++ (bytes "  -joinToken $(cat /etc/spire/join_token)'\nRestart=on-failure\n"
                        ++ (bytes "RestartSec=5\nStandardOutput=journal\nStandardError=journal\n\n"
                            ++ bytes "[Install]\nWantedBy=multi-user.target\n"))))))

unfoldable pub dsn_text : Text → Text
dsn_text pass = bytes "postgres://dcp:" ++ (pass ++ bytes "@localhost/dcp_registry?sslmode=disable")

unfoldable pub cp_unit_text : Config → Text
cp_unit_text cfg =
    bytes "[Unit]\nDescription=DCP Control Plane\nAfter=network.target postgresql.service "
    ++ (bytes "redis-server.service spire-agent.service wg-quick@wg0.service\n\n[Service]\n"
        ++ (bytes "ExecStart=/usr/local/bin/dcp-cp serve \\\n"
            ++ (bytes "  --jwt-secret $(cat /etc/dcp/jwt_secret) \\\n"
                ++ (bytes "  --pg $(cat /etc/dcp/pg_dsn) \\\n"
                    ++ (bytes "  --redis redis://localhost:6379 \\\n  --ssh-ca "
                        ++ (cfg.ssh_ca_path
                            ++ (bytes " \\\n  --wg-privkey "
                                ++ (cfg.wg_priv_path
                                    ++ (bytes " \\\n  --wg-pubkey "
                                        ++ (cfg.wg_pub_path
                                            ++ (bytes "\nRestart=always\nRestartSec=5\n"
                                                ++ (bytes "StandardOutput=journal\n"
                                                    ++ (bytes "StandardError=journal\n\n[Install]\n"
                                                        ++ bytes
                                                            "WantedBy=multi-user.target\n")))))))))))))
