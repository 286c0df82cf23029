-- ===== src/Provider/Run/Joining.antt =====
-- dcp-provider/internal/agent/agent.go: what Run sends before its loop.
use provider_engine.Base.{
  ℕ, Text, bytes, List, [], ◌∷◌, ◌++◌, Bool, true, false, none, leb, ◌≡◌, refl, if◌then◌else◌,
}
use provider_engine.Exec.{Result, ok, err, pure, continue, rewrap}
use provider_engine.Errors.{Error, wrap}
use provider_engine.Machine.{Machine, Os}
use provider_engine.Provider.Client.{
  Network, Client, Sent, registering, Answer, answered, unanswered, RegisterRequest,
  RegisterResponse, send, post_answer, post, register,
}
use provider_engine.Provider.Meminfo.{resources}
use provider_engine.Provider.Wireguard.{Keygen, generate_keypair, write_config}
use provider_engine.Provider.Attestation.{Info, Binary, collect}
use provider_engine.Provider.Run.{
  Config, Platform, Site, Joined, or_empty, mode_for, client_of, apply, enrol, join,
}

abbrev register_path : Text
register_path = bytes "/api/v1/providers/register"

-- this response is what an answer without an error status holds
abbrev pub Holds : Network → Answer → RegisterResponse → Type 0
Holds net (unanswered e) resp = ⊥
Holds net (answered code text) resp = (leb 400 code ≡ false) × (net.read_register text ≡ ok resp)

module _ (net : Network) (c : Client) where
  abbrev pub request_for : RegisterRequest → Sent
  request_for req = record {
    method = bytes "POST";
    url = c.base_url ++ bytes "/api/v1/providers/register";
    authorization = bytes "Bearer " ++ c.token;
    body = registering req;
  }

  -- A result with this log, and with a response only if this answer holds it
  Got : Answer → List Sent → Result RegisterResponse × List Sent → Type 0
  Got a l (ok resp, l') = (l' ≡ l) × Holds net a resp
  Got a l (err e, l') = l' ≡ l

  read-Got :
      (code : ℕ) (text : Text) (l : List Sent) (x : Result RegisterResponse)
      → leb 400 code ≡ false
      → net.read_register text ≡ x
      → Got (answered code text) l (rewrap (wrap (bytes "register")) (x, l))
  unfolding Got
  read-Got code text l (ok resp) h e = (refl, (h, e))
  read-Got code text l (err _) h e = refl

  status-Got :
      (code : ℕ) (text : Text) (l : List Sent) (b : Bool) (e : Error)
      → leb 400 code ≡ b
      → Got (answered code text) l (
          rewrap
            (wrap (bytes "register"))
            (continue (λ t log. (net.read_register t, log)) ((if b then err e else ok text), l)))
  unfolding Got
  status-Got code text l true e h = refl
  status-Got code text l false e h = read-Got code text l (net.read_register text) h refl

  answer-Got :
      (a : Answer) (l : List Sent)
      → Got a l (
          rewrap
            (wrap (bytes "register"))
            (continue (λ t log. (net.read_register t, log)) (post_answer net c register_path a, l)))
  unfolding Got post_answer
  answer-Got (unanswered e) l = refl
  answer-Got (answered code text) l = status-Got code text l (leb 400 code) _ refl

  register-Got :
      (req : RegisterRequest) (l : List Sent)
      → net.bad_url (c.base_url ++ register_path) ≡ none
      → Got (net.answer (request_for req)) (request_for req ∷ l) (register net c req l)
  unfolding register post send
  register-Got req l h = rw h (answer-Got (net.answer (request_for req)) (request_for req ∷ l))

module _ (net : Network) (cfg : Config) (mode : Text) (sent : Sent) (l : List Sent) where
  -- The end of Run's start: the registration is the only request that was sent, and what the loop
  -- goes on with is what its answer holds.
  abbrev pub IsEnrolled : Result Joined × Site → Type 0
  IsEnrolled (ok j, s) =
      (s.sent ≡ sent ∷ l)
      × Holds net (net.answer sent) j.response
      × (j.client.provider_id ≡ j.response.provider_id)
      × (j.mode ≡ mode)
  IsEnrolled (err e, s) = s.sent ≡ sent ∷ l

module _ (os : Os) (gen : Keygen) (bin : Binary) (net : Network) (platform : Platform)
    (cfg : Config) (mode : Text) where
  written-IsEnrolled :
      (sent : Sent) (l : List Sent) (response : RegisterResponse) (s : Site)
      (x : Result (Unit {0}) × Machine)
      → s.sent ≡ sent ∷ l
      → Holds net (net.answer sent) response
      → IsEnrolled net cfg mode sent l (
          continue
            (λ _. pure (record {
              client = client_of os gen bin net platform cfg response.provider_id;
              mode = mode;
              response = response;
            }))
            (x.0, record { machine = x.1; sent = s.sent }))
  written-IsEnrolled sent l response s (ok _, m) h k = (h, k, refl, refl)
  written-IsEnrolled sent l response s (err _, m) h k = h

  apply-IsEnrolled :
      (sent : Sent) (l : List Sent) (response : RegisterResponse) (s : Site)
      → s.sent ≡ sent ∷ l
      → Holds net (net.answer sent) response
      → IsEnrolled net cfg mode sent l (apply os gen bin net platform cfg mode response s)
  unfolding apply
  apply-IsEnrolled sent l response s =
      written-IsEnrolled sent l response s (write_config os response.wg_config s.machine)

  Got-IsEnrolled :
      (client : Client) (sent : Sent) (l : List Sent) (m : Machine)
      (x : Result RegisterResponse × List Sent)
      → Got net client (net.answer sent) (sent ∷ l) x
      → IsEnrolled net cfg mode sent l (
          continue
            (apply os gen bin net platform cfg mode)
            (x.0, record { machine = m; sent = x.1 }))
  unfolding Got
  Got-IsEnrolled client sent l m (ok resp, l') (h, k) = apply-IsEnrolled sent l resp _ h k
  Got-IsEnrolled client sent l m (err e, l') h = h

  -- the registration of this public key that the agent owes
  abbrev pub due_registration : Text → Info → RegisterRequest
  due_registration pub_key attest = record {
    token = cfg.token;
    public_key = pub_key;
    resources = resources platform.num_cpu platform.meminfo;
    location = cfg.location;
    mode = mode;
    meta =
        (bytes "machine_id", attest.machine_id)
        ∷ (bytes "binary_hash", attest.binary_hash)
        ∷ (bytes "os", platform.os)
        ∷ (bytes "arch", platform.arch)
        ∷ [];
  }

  abbrev pub registering_with : Text → Info → Sent
  registering_with pub_key attest =
      request_for net
        (record { base_url = cfg.control_plane_url; token = cfg.token; provider_id = [] })
        (due_registration pub_key attest)

  enrol-IsEnrolled :
      (keys : Text × Text) (s : Site)
      → net.bad_url (cfg.control_plane_url ++ register_path) ≡ none
      → IsEnrolled net cfg mode
          (registering_with keys.1 (or_empty (collect os bin s.machine).0))
          s.sent
          (enrol os gen bin net platform cfg mode keys s)
  unfolding enrol
  enrol-IsEnrolled keys s h =
      Got-IsEnrolled _ _ s.sent _ (register net (client_of os gen bin net platform cfg []) _ s.sent)
        (register-Got net (client_of os gen bin net platform cfg []) _ s.sent h)

module _ (os : Os) (gen : Keygen) (bin : Binary) (net : Network) (platform : Platform)
    (cfg : Config) where
  -- What the start of Run leaves, by what GenerateKeypair gives: its error and no request, or the
  -- end of a registration of the public key
  abbrev pub IsJoined : Text → Site → Result (Text × Text) × Machine → Result Joined × Site → Type 0
  IsJoined mode s (err e, m) out = out ≡ (err e, record { machine = m; sent = s.sent })
  IsJoined mode s (ok keys, m) out =
      IsEnrolled net cfg mode
        (registering_with os gen bin net platform cfg mode keys.1 (or_empty (collect os bin m).0))
        s.sent out

  keyed-IsJoined :
      (mode : Text) (s : Site) (x : Result (Text × Text) × Machine)
      → net.bad_url (cfg.control_plane_url ++ register_path) ≡ none
      → IsJoined mode s x (
          continue
            (enrol os gen bin net platform cfg mode)
            (x.0, record { machine = x.1; sent = s.sent }))
  keyed-IsJoined mode s (ok keys, m) h = enrol-IsEnrolled os gen bin net platform cfg mode keys _ h
  keyed-IsJoined mode s (err e, m) h = refl

  -- The start of the agent sends no request if GenerateKeypair fails, whose error it returns;
  -- otherwise it sends one, a POST of a registration with the configured token and location, the
  -- public key that GenerateKeypair returned, the mode that was resolved, the resources of the
  -- machine and what Collect found (nothing if it failed). If it returns no
  -- error, the answer to that request has no error status and holds the response that the loop goes
  -- on with, whose provider id the client uses from then on. It assumes that the URL can be parsed.
  pub join-IsJoined :
      (s : Site)
      → net.bad_url (cfg.control_plane_url ++ register_path) ≡ none
      → IsJoined
          (mode_for os gen bin net platform cfg s.machine)
          s
          (generate_keypair os gen s.machine)
          (join os gen bin net platform cfg s)
  unfolding join
  join-IsJoined s =
      keyed-IsJoined (mode_for os gen bin net platform cfg s.machine) s
        (generate_keypair os gen s.machine)
