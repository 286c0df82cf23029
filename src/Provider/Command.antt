-- ===== src/Provider/Command.antt =====
-- dcp-provider/cmd/root.go and setup.go: the agent's command and its command `setup`.
use provider_engine.Base.{Text, bytes, ℤ, pos, [], ◌∷◌, Option, none, some}
use provider_engine.Errors.{Error}
use provider_engine.Exec.{Result, ok, err}
use provider_engine.Flags.{Cli, env_or, string_flag, int_flag, required}
use provider_engine.Provider.Run.{Config}
use provider_engine.Provider.Setup as Setup

abbrev unless : {A : Type 0} → Option Error → A → Result A
unless (some e) a = err e
unless none a = ok a

module _ (cli : Cli) where
  abbrev env_flag : Text → Text → Text → Text
  env_flag name key fallback = string_flag cli name (env_or cli key fallback)

  -- what Run starts with, and the flag --ssh-port
  unfoldable pub agent_command : Result (Config × ℤ)
  agent_command = unless (required cli (bytes "token" ∷ [])) (
    record {
      control_plane_url =
          env_flag (bytes "cp-url") (bytes "DCP_CP_URL") (bytes "https://api.dcp.internal");
      token = env_flag (bytes "token") (bytes "DCP_TOKEN") [];
      location = env_flag (bytes "location") (bytes "DCP_LOCATION") (bytes "us-east");
      mode = env_flag (bytes "mode") (bytes "DCP_MODE") (bytes "auto");
    },
    int_flag cli (bytes "ssh-port") (pos 0),
  )

  -- what the command `setup` starts with
  unfoldable pub setup_command : Result Setup.Config
  setup_command = unless (required cli (bytes "cp-url" ∷ bytes "token" ∷ [])) (record {
    cp_ip = env_flag (bytes "cp-ip") (bytes "DCP_CP_IP") (bytes "127.0.0.1");
    spire_token = env_flag (bytes "spire-token") (bytes "SPIRE_JOIN_TOKEN") [];
    cp_url = env_flag (bytes "cp-url") (bytes "DCP_CP_URL") [];
    token = env_flag (bytes "token") (bytes "DCP_TOKEN") [];
    location = env_flag (bytes "location") (bytes "DCP_LOCATION") (bytes "unknown");
  })
