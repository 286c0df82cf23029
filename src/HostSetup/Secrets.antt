-- ===== src/HostSetup/Secrets.antt =====
-- dcp-control-plane/internal/setup/setup.go: the secrets that a setup makes.
use provider_engine.Base.{Text, List, [], ◌∷◌, ◌≡◌, ◌≢◌, All, ◌⊎◌, inl, inr, some}
use mathlib.Core.Path.{subst}
use provider_engine.Exec.{ok}
use provider_engine.Machine.{Machine, Os, Step, run_steps}
use provider_engine.Machine.Keeps.{IsQuiet, Keeps, run_steps-Keeps, keeps_rules}
use provider_engine.Machine.Provides.{
  IsGiven, Provides, provides_rules, Provides-earlier, Provides-later, Provides-map_error,
}
use provider_engine.HostSetup.{
  generate_keypair, setup_wireguard, new_password, password, setup_postgres, new_jwt_secret,
  setup_jwt_secret, steps, run_all,
}
use provider_engine.HostSetup.Texts.{Config, sysctl_conf, pg_pass, jwt_secret, pg_dsn}
use provider_engine.HostSetup.Kept.{overwritten, write_wg_conf-Keeps, steps-Keeps, run_all-Keeps}

-- the secrets that a setup makes once: the JWT secret, the password of the database and the
-- private WireGuard key
abbrev pub IsSecret : Config → Text → Type 0
IsSecret cfg p = (jwt_secret ≡ p) ⊎ ((pg_pass ≡ p) ⊎ (cfg.wg_priv_path ≡ p))

module _ (os : Os) where
  setup_jwt_secret-Provides : Provides jwt_secret (setup_jwt_secret os)
  unfolding setup_jwt_secret new_jwt_secret
  setup_jwt_secret-Provides = search (keeps_rules, provides_rules)

  password-Provides : Provides pg_pass (password os)
  unfolding password new_password
  password-Provides = search (keeps_rules, provides_rules)

  setup_postgres-Provides :
      IsQuiet os pg_pass → pg_dsn ≢ pg_pass → Provides pg_pass (setup_postgres os)
  unfolding setup_postgres
  setup_postgres-Provides quiet h = search (keeps_rules, provides_rules, password-Provides) depth 14

  generate_keypair-Provides :
      (cfg : Config)
      → cfg.wg_pub_path ≢ cfg.wg_priv_path
      → Provides cfg.wg_priv_path (generate_keypair os cfg)
  unfolding generate_keypair
  generate_keypair-Provides cfg h = search (keeps_rules, provides_rules)

  setup_wireguard-Provides :
      (cfg : Config)
      → IsQuiet os cfg.wg_priv_path
      → cfg.wg_pub_path ≢ cfg.wg_priv_path
      → sysctl_conf ≢ cfg.wg_priv_path
      → Provides cfg.wg_priv_path (setup_wireguard os cfg)
  unfolding setup_wireguard
  setup_wireguard-Provides cfg quiet h i =
      search (keeps_rules, provides_rules, generate_keypair-Provides, write_wg_conf-Keeps) depth 14

abbrev ProvidedBy : Text → List (Text × Step (Unit {0})) → Type 0
ProvidedBy p [] = ⊥
ProvidedBy p (s ∷ ss) = Provides p s.1 ⊎ ProvidedBy p ss

module _ (os : Os) (p : Text) (quiet : IsQuiet os p) where
  run_steps-Provides :
      (ss : List (Text × Step (Unit {0})))
      → All (λ s. Keeps p s.1) ss
      → ProvidedBy p ss
      → Provides p (run_steps ss)
  unfolding run_steps
  run_steps-Provides [] _ x = elim x [ ]
  run_steps-Provides ((name, step) ∷ ss) (k, ks) (inl h) =
      Provides-earlier _ _ (Provides-map_error _ step h) λ _. run_steps-Keeps ss ks
  run_steps-Provides ((name, step) ∷ ss) (k, ks) (inr h) =
      Provides-later _ _ λ _. run_steps-Provides ss ks h

  steps-ProvidedBy :
      (cfg : Config)
      → IsSecret cfg p
      → All (λ q. q ≢ p) (overwritten cfg)
      → ProvidedBy p (steps os cfg)
  steps-ProvidedBy cfg (inl e) apart =
      let h = subst (λ q. Provides q (setup_jwt_secret os)) e (setup_jwt_secret-Provides os) in
      inr (inr (inr (inr (inr (inl h)))))
  steps-ProvidedBy cfg (inr (inl e)) (_, (_, (_, (_, (_, (dsn, _)))))) =
      let f =
        subst (λ q. IsQuiet os q → pg_dsn ≢ q → Provides q (setup_postgres os)) e
          (setup_postgres-Provides os) in
      inr (inr (inr (inr (inl (f quiet dsn)))))
  steps-ProvidedBy cfg (inr (inr e)) (wg_pub, (sysctl, _)) =
      let f =
        subst
          (λ q.
            IsQuiet os q
            → cfg.wg_pub_path ≢ q
            → sysctl_conf ≢ q
            → Provides q (setup_wireguard os cfg))
          e (setup_wireguard-Provides os cfg) in
      inr (inl (f quiet wg_pub sysctl))

  run_all-Provides :
      (cfg : Config)
      → IsSecret cfg p
      → All (λ q. q ≢ p) (overwritten cfg)
      → Provides p (run_all os cfg)
  unfolding run_all
  run_all-Provides cfg secret apart =
      run_steps-Provides (steps os cfg) (steps-Keeps os p quiet cfg apart)
        (steps-ProvidedBy cfg secret apart)

-- If a setup succeeds, then each secret that it makes (the JWT secret, the password of the
-- database, the private WireGuard key) is there, and setting up again leaves it as it is, however
-- that ends, if no command or other process changes the file and it is none of the files that a
-- setup overwrites.
pub run_all-IsStable :
    (os : Os) (cfg : Config) (p : Text) (m m' : Machine)
    → IsSecret cfg p
    → IsQuiet os p
    → All (λ q. q ≢ p) (overwritten cfg)
    → run_all os cfg m ≡ (ok tt, m')
    → (t : Text) × ((m'.file p ≡ some t) × ((run_all os cfg m').1.file p ≡ some t))
run_all-IsStable os cfg p m m' secret quiet apart e =
    let (t, h) = subst (IsGiven p) e ((run_all-Provides os p quiet cfg secret apart).at m) in
    (t, (h, (run_all-Keeps os cfg p t m' quiet apart h).0))
