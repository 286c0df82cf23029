-- ===== src/Relay.antt =====
-- dcp-control-plane/internal/wgrelay/relay.go. The host is the parameter `Host`: what its files
-- hold and which commands succeed. The state is the list of what was done to it, the latest first.
pub mod Allowed
use provider_engine.Base.{
  Text, bytes, List, [], ◌∷◌, ◌++◌, Bool, true, false, Option, none, some, ℤ, decimal_ℤ,
  if◌then◌else◌,
}
use provider_engine.Errors.{driver}
use provider_engine.Exec.{Result, ok, err, Exec, pure, wrapping, ◌>>=◌, ◌>>◌}
use provider_engine.Strings.{trim_space}

pub data Action : Type 0 where
  command : List Text → Action
  write_file : Text → Text → Action

pub record Host : Type 0 where
  -- the error text of a command or of a write that fails
  pub run : List Text → Option Text
  pub write : Text → Option Text
  pub read : Text → Option Text
  pub exists : Text → Bool
  -- the error text of a file that cannot be read
  pub unreadable : Text → Text

abbrev of_error : Option Text → Result (Unit {0})
of_error none = ok tt
of_error (some e) = err (driver e)

abbrev pub of_file : Text → Option Text → Result Text
of_file e none = err (driver e)
of_file e (some t) = ok t

abbrev succeeds : Option Text → Bool
succeeds none = true
succeeds (some e) = false

pub record Config : Type 0 where
  pub priv_key_path : Text
  pub pub_key_path : Text
  pub listen_port : ℤ
  pub address : Text

abbrev pub config_path : Text
config_path = bytes "/etc/wireguard/wg0.conf"

module _ (h : Host) where
  unfoldable pub run : List Text → Exec (List Action) (Unit {0})
  run args acts = (of_error (h.run args), command args ∷ acts)

  unfoldable pub read_file : Text → Exec (List Action) Text
  read_file path acts = (of_file (h.unreadable path) (h.read path), acts)

  save_file : Text → Text → Exec (List Action) (Unit {0})
  save_file path text acts = (of_error (h.write path), write_file path text ∷ acts)

  sync_up : Exec (List Action) (Unit {0})
  unfolding run
  sync_up =
      wrapping (bytes "wg syncconf")
        (run (bytes "wg" ∷ bytes "syncconf" ∷ bytes "wg0" ∷ config_path ∷ []))

  abbrev show_link : List Text
  show_link = bytes "ip" ∷ bytes "link" ∷ bytes "show" ∷ bytes "wg0" ∷ []

  is_up : Exec (List Action) Bool
  is_up acts = (ok (succeeds (h.run show_link)), command show_link ∷ acts)

  bring_up : Exec (List Action) (Unit {0})
  unfolding is_up sync_up
  bring_up = do
    up ← is_up
    if up
        then sync_up
        else wrapping (bytes "wg-quick up") (run (bytes "wg-quick" ∷ bytes "up" ∷ bytes "wg0" ∷ []))

  unfoldable pub init : Config → Exec (List Action) (Unit {0})
  unfolding read_file save_file bring_up
  init cfg = do
    priv_key ← wrapping (bytes "read wg privkey") (read_file cfg.priv_key_path)
    if h.exists config_path then sync_up else do
      let conf =
          bytes "[Interface]\nAddress = "
          ++ (cfg.address
              ++ (bytes "\nListenPort = "
                  ++ (decimal_ℤ cfg.listen_port
                      ++ (bytes "\nPrivateKey = " ++ (trim_space priv_key ++ bytes "\n")))))
      wrapping (bytes "write wg0.conf") (save_file config_path conf)
      bring_up

  -- The address that a provider's traffic may come from is its own /32 only.
  unfoldable pub add_peer : Text → Text → Exec (List Action) (Unit {0})
  unfolding run
  add_peer pub_key allowed_ip = do
    wrapping (bytes "wg set peer") (
        run (
          bytes "wg"
          ∷ bytes "set"
          ∷ bytes "wg0"
          ∷ bytes "peer"
          ∷ pub_key
          ∷ bytes "allowed-ips"
          ∷ (allowed_ip ++ bytes "/32")
          ∷ []))
    run (bytes "wg-quick" ∷ bytes "save" ∷ bytes "wg0" ∷ [])

  unfoldable pub pub_key : Text → Exec (List Action) Text
  unfolding read_file
  pub_key path = do text ← read_file path; pure (trim_space text)
