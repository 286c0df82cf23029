-- ===== src/Tests/Hosts.antt =====
-- The theorems on the setups, on a machine that carries out every command and changes nothing else.
use provider_engine.Base.{
  Text, bytes, ◌==◌, ==_refl, [], false, none, some, ◌≡◌, ◌≢◌, refl, sym, ◌∙◌, ap, inl,
}
use mathlib.Core.Bool.{true≢false}
use provider_engine.Strings.{fields, contains, strip_prefix}
use provider_engine.Machine.{
  Machine, Os, mkdir_all, try_mkdir, write_file, try_write, read_file, read_or_empty, run, succeeds,
  run_output, run_output_stdin, combined, sleep, run_steps, append_if_missing,
}
use provider_engine.Machine.Keeps.{IsQuiet}
use provider_engine.HostSetup as Cp
use provider_engine.HostSetup.Texts.{
  Config, sysctl_conf, wg_conf, server_conf, server_unit, agent_unit, agent_conf, join_token,
  pg_pass, pg_dsn, jwt_secret, cp_unit,
}
use provider_engine.HostSetup.Kept.{SparesCa, run_all-Keeps}
use provider_engine.HostSetup.Secrets.{run_all-IsStable}
use provider_engine.Provider.Setup as Provider
use provider_engine.Provider.Setup.{prov_private, prov_public, provider_env, provider_unit}
use provider_engine.Provider.Setup.Kept.{run_all-file}

abbrev pub calm : Os
calm = record {
  exec = λ args stdin m. record {
    failure = none;
    stdout = bytes "Token: abc\n";
    output = [];
    files = m.file;
    took = 10;
  };
  mkdir_error = λ dir m. none;
  write_error = λ q text m. none;
  read_error = λ q m. none;
  missing = λ q. bytes "no such file or directory";
  leftover = λ q text m. none;
  meanwhile = λ d m. m.file;
  delay = λ d m. 0;
  env = λ name. [];
}

calm-IsQuiet : (p : Text) → IsQuiet calm p
calm-IsQuiet p = record { of_command = λ args stdin m. refl; of_pause = λ d m. refl }

abbrev cp_config : Config
cp_config = record {
  ssh_ca_path = bytes "/etc/dcp/ssh-ca/platform_ca";
  wg_priv_path = bytes "/etc/wireguard/cp_private";
  wg_pub_path = bytes "/etc/wireguard/cp_public";
}

abbrev provider_config : Provider.Config
provider_config = record {
  cp_ip = [];
  spire_token = [];
  cp_url = bytes "https://1.2.3.4:8080";
  token = bytes "t";
  location = bytes "DE";
}

-- a machine on which every path has the same text
abbrev set_up : Machine
set_up = record { file = λ q. some (bytes "kept"); clock = 0; log = [] }

-- a machine without files
abbrev pub bare : Machine
bare = record { file = λ q. none; clock = 0; log = [] }

apart : (q p : Text) → (q == p) ≡ false → q ≢ p
apart q p h e = true≢false (sym (==_refl p) ∙ ap (λ s. s == p) (sym e) ∙ h)

run_all-Keeps_example :
    ((Cp.run_all calm cp_config set_up).1.file (bytes "/etc/dcp/jwt_secret") ≡ some (bytes "kept"))
    × SparesCa calm cp_config set_up
unfolding ◌==◌ sysctl_conf server_unit agent_unit join_token pg_dsn cp_unit
run_all-Keeps_example =
    run_all-Keeps calm cp_config (bytes "/etc/dcp/jwt_secret") (bytes "kept") set_up
      (calm-IsQuiet (bytes "/etc/dcp/jwt_secret"))
      (
        apart _ _ refl,
        (
          apart _ _ refl,
          (
            apart _ _ refl,
            (apart _ _ refl, (apart _ _ refl, (apart _ _ refl, (apart _ _ refl, tt)))),
          ),
        ),
      )
      refl

run_all-file_example :
    (Provider.run_all calm provider_config set_up).1.file (bytes "/etc/wireguard/prov_public")
    ≡ some (bytes "kept")
unfolding ◌==◌ agent_conf agent_unit provider_env provider_unit
run_all-file_example =
    run_all-file calm provider_config (bytes "/etc/wireguard/prov_public") (bytes "kept")
      (bytes "kept") set_up (calm-IsQuiet (bytes "/etc/wireguard/prov_public")) refl (inl refl)
      (apart _ _ refl, (apart _ _ refl, (apart _ _ refl, (apart _ _ refl, tt)))) refl

run_all-IsStable_example :
    (t : Text) × (((Cp.run_all calm cp_config bare).1.file (bytes "/etc/dcp/jwt_secret") ≡ some t)
      × ((Cp.run_all calm cp_config (Cp.run_all calm cp_config bare).1).1.file
            (bytes "/etc/dcp/jwt_secret")
          ≡ some t))
unfolding ◌==◌ sysctl_conf wg_conf server_conf server_unit agent_unit agent_conf join_token pg_pass
    pg_dsn jwt_secret cp_unit mkdir_all try_mkdir write_file try_write read_file read_or_empty run
    succeeds run_output run_output_stdin combined sleep run_steps append_if_missing Cp.run_all
    Cp.setup_ssh_ca Cp.generate_keypair Cp.write_wg_conf Cp.setup_wireguard Cp.wait_for_server
    Cp.save_join_token Cp.setup_spire_server Cp.setup_spire_agent Cp.new_password Cp.password
    Cp.setup_postgres Cp.new_jwt_secret Cp.setup_jwt_secret Cp.write_systemd_unit Cp.allow_all
    Cp.setup_firewall Cp.token_value fields contains strip_prefix
run_all-IsStable_example =
    run_all-IsStable calm cp_config (bytes "/etc/dcp/jwt_secret") bare
      (Cp.run_all calm cp_config bare).1 (inl refl) (calm-IsQuiet (bytes "/etc/dcp/jwt_secret"))
      (
        apart _ _ refl,
        (
          apart _ _ refl,
          (
            apart _ _ refl,
            (apart _ _ refl, (apart _ _ refl, (apart _ _ refl, (apart _ _ refl, tt)))),
          ),
        ),
      )
      refl
