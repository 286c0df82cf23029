-- ===== src/HostSetup/Kept.antt =====
-- dcp-control-plane/internal/setup/setup.go: what a setup leaves as it was.
use provider_engine.Base.{
  ℕ, zero, suc, Text, List, [], ◌∷◌, Option, none, some, ◌≡◌, ◌≢◌, ◌⊎◌, inl, inr, refl, bytes, All,
}
use provider_engine.Machine.{Machine, Os, mkdir_all}
use provider_engine.Machine.Keeps.{
  IsQuiet, Keeps, run_steps-Keeps, keeps_rules, Keeps-pure, Keeps-if_exists, Keeps-run, Keeps-sleep,
  Keeps-bind,
}
use provider_engine.HostSetup.{
  setup_ssh_ca, generate_keypair, write_wg_conf, setup_wireguard, wait_for_server, generate_token,
  save_join_token, setup_spire_server, setup_spire_agent, new_password, password, setup_postgres,
  new_jwt_secret, setup_jwt_secret, write_systemd_unit, allow_all, setup_firewall, steps, run_all,
  or_unexpected,
}
use provider_engine.HostSetup.Texts.{
  Config, wg_conf, sysctl_conf, server_unit, agent_unit, join_token, pg_dsn, cp_unit,
}

-- the files that a setup writes though they are there
abbrev pub overwritten : Config → List Text
overwritten cfg =
    cfg.wg_pub_path ∷ sysctl_conf ∷ server_unit ∷ join_token ∷ agent_unit ∷ pg_dsn ∷ cp_unit ∷ []

module _ (os : Os) (p : Text) (quiet : IsQuiet os p) where
  pub setup_ssh_ca-Keeps : (cfg : Config) → Keeps p (setup_ssh_ca os cfg)
  unfolding setup_ssh_ca
  setup_ssh_ca-Keeps cfg = search keeps_rules

  pub generate_keypair-Keeps :
      (cfg : Config)
      → cfg.wg_priv_path ≢ p
      → cfg.wg_pub_path ≢ p
      → Keeps p (generate_keypair os cfg)
  unfolding generate_keypair
  generate_keypair-Keeps cfg h i = search keeps_rules

  pub write_wg_conf-Keeps : (cfg : Config) → wg_conf ≢ p → Keeps p (write_wg_conf os cfg)
  unfolding write_wg_conf
  write_wg_conf-Keeps cfg h = search keeps_rules

  pub setup_wireguard-Keeps :
      (cfg : Config) → cfg.wg_pub_path ≢ p → sysctl_conf ≢ p → Keeps p (setup_wireguard os cfg)
  unfolding setup_wireguard
  setup_wireguard-Keeps cfg h i =
      search (keeps_rules, generate_keypair-Keeps, write_wg_conf-Keeps) depth 14

  wait_for_server-Keeps : (n : ℕ) → Keeps p (wait_for_server os n)
  unfolding wait_for_server
  wait_for_server-Keeps zero = Keeps-pure tt
  wait_for_server-Keeps (suc n) =
      Keeps-if_exists _ _ _ (Keeps-pure tt)
        λ _. Keeps-bind _ _ (Keeps-sleep os quiet 2000) λ _. wait_for_server-Keeps n

  or_unexpected-Keeps : (context : Text) (o : Option Text) → Keeps p (or_unexpected context o)
  or_unexpected-Keeps context none = search keeps_rules
  or_unexpected-Keeps context (some t) = search keeps_rules

  save_join_token-Keeps : join_token ≢ p → Keeps p (save_join_token os)
  unfolding save_join_token generate_token
  save_join_token-Keeps h = search (keeps_rules, or_unexpected-Keeps)

  setup_spire_server-Keeps : server_unit ≢ p → join_token ≢ p → Keeps p (setup_spire_server os)
  unfolding setup_spire_server
  setup_spire_server-Keeps h i =
      search (keeps_rules, wait_for_server-Keeps, save_join_token-Keeps) depth 14

  setup_spire_agent-Keeps : agent_unit ≢ p → Keeps p (setup_spire_agent os)
  unfolding setup_spire_agent
  setup_spire_agent-Keeps h = search keeps_rules depth 14

  pub password-Keeps : Keeps p (password os)
  unfolding password new_password
  password-Keeps = search keeps_rules

  setup_postgres-Keeps : pg_dsn ≢ p → Keeps p (setup_postgres os)
  unfolding setup_postgres
  setup_postgres-Keeps h = search (keeps_rules, password-Keeps)

  setup_jwt_secret-Keeps : Keeps p (setup_jwt_secret os)
  unfolding setup_jwt_secret new_jwt_secret
  setup_jwt_secret-Keeps = search keeps_rules

  write_systemd_unit-Keeps : (cfg : Config) → cp_unit ≢ p → Keeps p (write_systemd_unit os cfg)
  unfolding write_systemd_unit
  write_systemd_unit-Keeps cfg h = search keeps_rules

  allow_all-Keeps : (rules : List Text) → Keeps p (allow_all os rules)
  unfolding allow_all
  allow_all-Keeps [] = Keeps-pure tt
  allow_all-Keeps (rule ∷ rules) = Keeps-bind _ _ (Keeps-run os quiet _) λ _. allow_all-Keeps rules

  setup_firewall-Keeps : Keeps p (setup_firewall os)
  unfolding setup_firewall
  setup_firewall-Keeps = search (keeps_rules, allow_all-Keeps)

  pub steps-Keeps :
      (cfg : Config) → All (λ q. q ≢ p) (overwritten cfg) → All (λ s. Keeps p s.1) (steps os cfg)
  steps-Keeps cfg (wg_pub, (sysctl, (server, (token, (agent, (dsn, (cp, _))))))) = search (
    setup_ssh_ca-Keeps, setup_wireguard-Keeps, setup_spire_server-Keeps, setup_spire_agent-Keeps,
    setup_postgres-Keeps, setup_jwt_secret-Keeps, write_systemd_unit-Keeps, setup_firewall-Keeps,
  )

module _ (os : Os) (cfg : Config) (m : Machine) where
  -- The step of the SSH CA leaves the machine alone if the CA is there: ssh-keygen is not run.
  abbrev pub SparesCa : Type 0
  SparesCa = (m.file cfg.ssh_ca_path ≡ none) ⊎ ((setup_ssh_ca os cfg m).1 ≡ m)

  found-SparesCa :
      (t : Text) (e : Option Text)
      → m.file cfg.ssh_ca_path ≡ some t
      → os.mkdir_error (bytes "/etc/dcp/ssh-ca") m ≡ e
      → (setup_ssh_ca os cfg m).1 ≡ m
  unfolding setup_ssh_ca mkdir_all
  found-SparesCa t none h k = rw (k, h) refl
  found-SparesCa t (some e) h k = rw k refl

  setup_ssh_ca-SparesCa : (x : Option Text) → m.file cfg.ssh_ca_path ≡ x → SparesCa
  setup_ssh_ca-SparesCa none h = inl h
  setup_ssh_ca-SparesCa (some t) h = inr (found-SparesCa t _ h refl)

-- A setup of the control plane, run on a machine that may be set up already, leaves every file that
-- is there with its text, however it ends, if no command or other process changes the file and it
-- is none of these: the public WireGuard key, the three units, the join token, the DSN and
-- /etc/sysctl.conf. So the private WireGuard key, the JWT secret, the password of the database and
-- the edited configurations survive. And where the SSH CA is there, the step that would make it
-- runs no command and leaves the machine as it is.
pub run_all-Keeps :
    (os : Os) (cfg : Config) (p t : Text) (m : Machine)
    → IsQuiet os p
    → All (λ q. q ≢ p) (overwritten cfg)
    → m.file p ≡ some t
    → ((run_all os cfg m).1.file p ≡ some t) × SparesCa os cfg m
unfolding run_all
run_all-Keeps os cfg p t m quiet apart h = (
  (run_steps-Keeps (steps os cfg) (steps-Keeps os p quiet cfg apart)).at t m h,
  setup_ssh_ca-SparesCa os cfg m (m.file cfg.ssh_ca_path) refl,
)
