-- ===== src/Api/Start/Ending.antt =====
-- How the start of Serve ends, and what it keeps of what is there.
use provider_engine.Base.{Text, Option, none, some, ◌≡◌, refl, ◌⊎◌, inl, inr}
use provider_engine.Errors.{Error}
use provider_engine.Exec.{Result, ok, err, Exec, pure, rewrap, continue}
use provider_engine.Strings.{trim_space}
use provider_engine.Store.Postgres.{Reply}
use provider_engine.Relay.{Host, of_file, read_file, pub_key, init}
use provider_engine.Api.Start.{
  Settings, Drivers, Boot, Serving, failing, on_host, created, migrated, new_pg, migrate, new_redis,
  load, relay_config, start,
}

-- A start that failed did nothing to the host, and the tables are what they were, or created.
abbrev pub IsFailed : Boot → Boot → Type 0
IsFailed b b' = (b'.actions ≡ b.actions) × ((b'.tables ≡ b.tables) ⊎ (b'.tables ≡ created b.tables))

module _ (b : Boot) {A : Type 0} where
  abbrev pub Ends : (A → Boot → Type 0) → Result A × Boot → Type 0
  Ends P (ok a, b') = P a b'
  Ends P (err e, b') = IsFailed b b'

module _ (b : Boot) {A B : Type 0} where
  Ends-bind :
      (P : A → Boot → Type 0) (Q : B → Boot → Type 0) (x : Result A × Boot) (f : A → Exec Boot B)
      → Ends b P x
      → ((a : A) (b' : Boot) → P a b' → Ends b Q (f a b'))
      → Ends b Q (continue f x)
  Ends-bind P Q (ok a, b') f h k = k a b' h
  Ends-bind P Q (err e, b') f h k = h

module _ (b : Boot) {A : Type 0} where
  Ends-rewrap :
      (P : A → Boot → Type 0) (g : Error → Error) (x : Result A × Boot)
      → Ends b P x
      → Ends b P (rewrap g x)
  Ends-rewrap P g (ok a, b') h = h
  Ends-rewrap P g (err e, b') h = h

module _ (b : Boot) where
  -- before Migrate, and after it
  abbrev Same : Unit {0} → Boot → Type 0
  Same _ b' = b' ≡ b

  abbrev ready : Boot
  ready = record b { tables = created b.tables }

  abbrev Ready : Unit {0} → Boot → Type 0
  Ready _ b' = b' ≡ ready

  failing-Same : (e : Option Text) → Ends b Same (failing e b)
  failing-Same none = refl
  failing-Same (some e) = (refl, inl refl)

  failing-Ready : (e : Option Text) → Ends b Ready (failing e ready)
  failing-Ready none = refl
  failing-Ready (some e) = (refl, inr refl)

  module _ (d : Drivers) where
    new_pg-Same : (dsn : Text) → Ends b Same (new_pg d dsn b)
    unfolding new_pg
    new_pg-Same dsn =
        Ends-bind b Same Same (failing (d.open_pg dsn) b) _ (failing-Same (d.open_pg dsn)) λ _ b' h.
          rw h (Ends-rewrap b Same _ (failing (d.ping_pg dsn) b) (failing-Same (d.ping_pg dsn)))

    migrated-Ready :
        (y : Reply)
        → Ends b Ready (let (x, t) = migrated y b.tables in (x, record b { tables = t }))
    migrated-Ready Reply.done = refl
    migrated-Ready (Reply.refused e) = (refl, inl refl)
    migrated-Ready (Reply.unconfirmed e) = (refl, inr refl)

    migrate-Ready : Ends b Ready (migrate d b)
    unfolding migrate
    migrate-Ready = migrated-Ready d.migration

    new_redis-Ready : (addr : Text) → Ends b Ready (new_redis d addr ready)
    unfolding new_redis
    new_redis-Ready addr =
        Ends-bind b Ready Ready _ _ (Ends-rewrap b Ready _ _ (failing-Ready (d.parse_redis addr)))
          λ _ b' h. rw h (Ends-rewrap b Ready _ _ (failing-Ready (d.ping_redis addr)))

    module _ (h : Host) where
      -- the signer is the key of this file
      abbrev pub IsSigner : Text → Text → Type 0
      IsSigner path signer =
          (text : Text) × (h.read path ≡ some text) × (d.parse_private_key text ≡ ok signer)

      abbrev pub IsKeyOf : Text → Text → Type 0
      IsKeyOf path key = (text : Text) × (h.read path ≡ some text) × (key ≡ trim_space text)

      abbrev Loaded : Text → Text → Boot → Type 0
      Loaded path signer b' = (b' ≡ ready) × IsSigner path signer

      abbrev Known : Text → Text → Boot → Type 0
      Known path key b' = (b' ≡ ready) × IsKeyOf path key

      abbrev Held : Text → Text → Boot → Type 0
      Held path text b' = (b' ≡ ready) × (h.read path ≡ some text)

      file-Held :
          (e path : Text) (x : Option Text)
          → h.read path ≡ x
          → Ends b (Held path) (of_file e x, ready)
      file-Held e path none k = (refl, inr refl)
      file-Held e path (some text) k = (refl, k)

      parsed-Loaded :
          (path text : Text) (x : Result Text)
          → h.read path ≡ some text
          → d.parse_private_key text ≡ x
          → Ends b (Loaded path) (x, ready)
      parsed-Loaded path text (ok signer) k e = (refl, (text, k, e))
      parsed-Loaded path text (err _) k e = (refl, inr refl)

      load-Loaded : (path : Text) → Ends b (Loaded path) (load d h path ready)
      unfolding load read_file
      load-Loaded path =
          Ends-bind b (Held path) (Loaded path) _ _
            (Ends-rewrap b (Held path) _ _ (file-Held (h.unreadable path) path (h.read path) refl))
            λ text b' (same, k).
              rw same (Ends-rewrap b (Loaded path) _ _ (parsed-Loaded path text _ k refl))

      key-Known :
          (e path : Text) (x : Option Text)
          → h.read path ≡ x
          → Ends b
              (Known path)
              (on_host (λ acts. continue (λ t. pure (trim_space t)) (of_file e x, acts)) ready)
      key-Known e path none k = (refl, inr refl)
      key-Known e path (some text) k = (refl, (text, k, refl))

      pub_key-Known : (path : Text) → Ends b (Known path) (on_host (pub_key h path) ready)
      unfolding pub_key read_file
      pub_key-Known path = key-Known (h.unreadable path) path (h.read path) refl

module _ (d : Drivers) (h : Host) (cfg : Settings) (b : Boot) where
  -- What the handlers start with: the key of the CA and the public key of the relay are those of
  -- the files, the tables are there, and the relay was initialized, whether or not that worked.
  abbrev pub IsStarted : Serving → Boot → Type 0
  IsStarted sv b' =
      (b'.tables ≡ created b.tables)
      × (b'.actions ≡ (init h (relay_config d h cfg) b.actions).1)
      × IsSigner b d h cfg.ssh_ca_path sv.signer
      × IsKeyOf b d h cfg.wg_pub_key sv.config.registry.wg_pub
      × (sv.config.registry.cp_endpoint ≡ cfg.wg_endpoint)
      × (sv.config.jwt_secret ≡ cfg.jwt_secret)

  -- Serve before its listener. If it fails, no command was run and no file written, and the tables
  -- are what they were or were created; existing tables stay as they are in any case. If it goes on,
  -- the tables are there, the CA's key and the relay's public key are read from the files of the
  -- configuration, and the relay was initialized, which may have failed.
  pub start-IsStarted : Ends b IsStarted (start d h cfg b)
  unfolding start
  start-IsStarted = Ends-bind b (Same b) IsStarted _ _ (new_pg-Same b d cfg.pg_dsn) λ _ b1 h1.
      rw h1 (
        Ends-bind b (Ready b) IsStarted _ _ (migrate-Ready b d) λ _ b2 h2. rw h2 (
          Ends-bind b (Ready b) IsStarted _ _ (new_redis-Ready b d cfg.redis_addr) λ _ b3 h3.
            rw h3 (
              Ends-bind b (Loaded b d h cfg.ssh_ca_path) IsStarted _ _
                (load-Loaded b d h cfg.ssh_ca_path)
                λ signer b4 (h4, signed). rw h4 (
                  Ends-bind b (Known b d h cfg.wg_pub_key) IsStarted _ _
                    (pub_key-Known b d h cfg.wg_pub_key)
                    λ key b5 (h5, known). rw h5 (refl, refl, signed, known, refl, refl)))))
