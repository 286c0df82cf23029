-- ===== src/Relay/Allowed.antt =====
-- dcp-control-plane/internal/wgrelay/relay.go: what AddPeer does to the host.
use provider_engine.Base.{
  Text, bytes, List, [], ◌∷◌, ◌++◌, Option, none, some, ◌≡◌, ◌≢◌, ◌⊎◌, inl, inr, refl,
}
use provider_engine.Relay.{Host, Action, command, run, add_peer}

-- the peer with this key may send from this one address
abbrev pub allow_args : Text → Text → List Text
allow_args key ip =
    bytes "wg"
    ∷ bytes "set"
    ∷ bytes "wg0"
    ∷ bytes "peer"
    ∷ key
    ∷ bytes "allowed-ips"
    ∷ (ip ++ bytes "/32")
    ∷ []

abbrev pub save_args : List Text
save_args = bytes "wg-quick" ∷ bytes "save" ∷ bytes "wg0" ∷ []

-- The command that allows the key this address was run, and if it worked, then the one that saves
-- the configuration; nothing else was done.
abbrev pub IsAllowed : Host → Text → Text → List Action → List Action → Type 0
IsAllowed h key ip before after =
    ((h.run (allow_args key ip) ≢ none) × (after ≡ command (allow_args key ip) ∷ before))
    ⊎ ((h.run (allow_args key ip) ≡ none)
        × (after ≡ command save_args ∷ command (allow_args key ip) ∷ before))

module _ (h : Host) (key ip : Text) (acts : List Action) where
  allowed :
      (x : Option Text)
      → h.run (allow_args key ip) ≡ x
      → IsAllowed h key ip acts (add_peer h key ip acts).1
  unfolding add_peer run
  allowed none e = inr (e, rw e refl)
  allowed (some t) e = inl ((λ worked. cc (e, worked)), rw e refl)

  pub add_peer-IsAllowed : IsAllowed h key ip acts (add_peer h key ip acts).1
  add_peer-IsAllowed = allowed (h.run (allow_args key ip)) refl
