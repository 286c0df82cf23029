-- ===== src/Provider/Setup/Kept.antt =====
-- dcp-provider/internal/setup/setup.go: what a setup leaves as it was.
use provider_engine.Base.{
  Text, bytes, ◌==◌, ==_iff, arith, List, [], ◌∷◌, false, some, ◌≡◌, ◌≢◌, refl, All, ◌⊎◌,
}
use provider_engine.Errors.{wrap}
use provider_engine.Exec.{Result, ok, err, pure, continue, wrapping}
use provider_engine.Machine.{Machine, Os, if_exists, mkdir_all, run_steps}
use provider_engine.Machine.Keeps.{
  IsQuiet, Keeps, run_steps-Keeps, bind-file, rewrap-state, keeps_rules,
}
use provider_engine.HostSetup.Texts.{agent_conf, agent_unit, join_token}
use provider_engine.Provider.Setup.{
  Config, prov_private, provider_env, provider_unit, generate_keypair, setup_wg_keypair,
  later_steps, setup_spire_agent, write_env_file, write_systemd_unit, setup_firewall, run_all,
}

-- the files that a setup writes though they are there
abbrev pub overwritten : List Text
overwritten = agent_conf ∷ agent_unit ∷ provider_env ∷ provider_unit ∷ []

module _ (os : Os) (p : Text) (quiet : IsQuiet os p) where
  setup_spire_agent-Keeps :
      (cfg : Config)
      → (cfg.spire_token ≡ []) ⊎ (join_token ≢ p)
      → agent_conf ≢ p
      → agent_unit ≢ p
      → Keeps p (setup_spire_agent os cfg)
  unfolding setup_spire_agent
  setup_spire_agent-Keeps cfg h i j =
      let join_token-apart : (cfg.spire_token == []) ≡ false → join_token ≢ p =
        λ e. ground (arith, ==_iff cfg.spire_token []) in
      search (keeps_rules, join_token-apart) depth 20

  write_env_file-Keeps : (cfg : Config) → provider_env ≢ p → Keeps p (write_env_file os cfg)
  unfolding write_env_file
  write_env_file-Keeps cfg h = search keeps_rules

  write_systemd_unit-Keeps : provider_unit ≢ p → Keeps p (write_systemd_unit os)
  unfolding write_systemd_unit
  write_systemd_unit-Keeps h = search keeps_rules

  setup_firewall-Keeps : Keeps p (setup_firewall os)
  unfolding setup_firewall
  setup_firewall-Keeps = search keeps_rules

  -- the steps after the keypair
  later_steps-Keeps :
      (cfg : Config)
      → (cfg.spire_token ≡ []) ⊎ (join_token ≢ p)
      → All (λ q. q ≢ p) overwritten
      → All (λ s. Keeps p s.1) (later_steps os cfg)
  later_steps-Keeps cfg h (conf, (unit, (env, (provider, _)))) = search (
    setup_spire_agent-Keeps, write_env_file-Keeps, write_systemd_unit-Keeps, setup_firewall-Keeps,
  )

skip-state :
    (os : Os) (k : Text) (m : Machine) (r : Result (Unit {0}))
    → m.file prov_private ≡ some k
    → (continue (λ _. if_exists prov_private (pure tt) (generate_keypair os)) (r, m)).1 ≡ m
skip-state os k m (ok _) h = rw h refl
skip-state os k m (err e) h = refl

keypair_step-state :
    (os : Os) (k : Text) (m : Machine)
    → m.file prov_private ≡ some k
    → (setup_wg_keypair os m).1 ≡ m
unfolding setup_wg_keypair mkdir_all
keypair_step-state os k m = skip-state os k m (mkdir_all os (bytes "/etc/wireguard") m).0

-- If a private WireGuard key is there, a setup of the provider leaves both keys and every other
-- file that is there with its text, however it ends, if no command or other process changes the
-- file and it is none of the configuration of the SPIRE agent, the environment file and the two
-- units; the join token is left too if no token is given.
pub run_all-file :
    (os : Os) (cfg : Config) (p t k : Text) (m : Machine)
    → IsQuiet os p
    → m.file prov_private ≡ some k
    → (cfg.spire_token ≡ []) ⊎ (join_token ≢ p)
    → All (λ q. q ≢ p) overwritten
    → m.file p ≡ some t
    → (run_all os cfg m).1.file p ≡ some t
unfolding run_all run_steps
run_all-file os cfg p t k m quiet key token apart h =
    bind-file t (wrapping (bytes "WireGuard keypair") (setup_wg_keypair os)) _ m
      (rw (rewrap-state (wrap (bytes "WireGuard keypair")) (setup_wg_keypair os m))
        (rw (keypair_step-state os k m key) h))
      λ _. run_steps-Keeps (later_steps os cfg) (later_steps-Keeps os p quiet cfg token apart)
