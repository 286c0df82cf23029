-- ===== src/Link/Joining.antt =====
-- The start of the agent over the link: its registration at the server.
use provider_engine.Base.{Option, none, some, ℕ, Text, [], false, leb, ◌≡◌, sym, ap}
use mathlib.Core.Path.{subst}
use provider_engine.Exec.{Result, ok, err}
use provider_engine.Machine.{Machine, Os}
use provider_engine.Store.Redis.{Redis}
use provider_engine.Store.Redis.Laws.{IsRedis}
use provider_engine.Api.Http.{value}
use provider_engine.Api.Enrolment.{IsFresh}
use provider_engine.Api.Server as Server
use provider_engine.Api.Server.{Server, Env, register, after_register}
use provider_engine.Provider.Client.{
  Network, answered, RegisterResponse, RegisterRequest, registering,
}
use provider_engine.Provider.Wireguard.{Keygen, generate_keypair}
use provider_engine.Provider.Attestation.{Binary, collect}
use provider_engine.Provider.Run.{
  Config, Platform, Site, Joined, or_empty, mode_for, client_of, join,
}
use provider_engine.Provider.Run.Joining.{
  Holds, request_for, IsEnrolled, IsJoined, due_registration, registering_with, join-IsJoined,
}
use provider_engine.Link.{Wire, IsLinked, come_back, network, deliver}
use provider_engine.Link.Admission.{
  body_of, ReadsPayload, registering_at, IsAdmitted, serve-register, answered-IsAdmitted,
}

module _ (w : Wire) (r : Redis) (scfg : Server.Config) (env : Env) (os : Os) (gen : Keygen)
    (bin : Binary) (platform : Platform) (cfg : Config) where
  abbrev joined_with : Server r → Result Joined × Site → Result Joined × Server r
  joined_with s (res, site) = (res, deliver w r scfg env site.sent s)

  -- the start of the agent, with the server that its requests leave
  abbrev pub join_over : Machine → Server r → Result Joined × Server r
  join_over m s =
      joined_with s
        (join os gen bin (network w r scfg env s) platform cfg (record { machine = m; sent = [] }))

  -- the registration of this key
  abbrev pub registration_of : Machine → Machine → Server r → Text → RegisterRequest
  registration_of m m' s key =
      let net = network w r scfg env s in
      due_registration os gen bin net platform cfg (mode_for os gen bin net platform cfg m) key
        (or_empty (collect os bin m').0)

  held_back :
      (net : Network) (x : Option Text) (code : ℕ) (text : Text) (resp : RegisterResponse)
      → Holds net (come_back x (answered code text)) resp
      → (leb 400 code ≡ false) × (net.read_register text ≡ ok resp)
  held_back net none code text resp h = h
  held_back net (some e) code text resp h = absurd h

  enrolled-IsAdmitted :
      (ax : IsRedis r) (m m' : Machine) (s : Server r) (key : Text)
      → IsLinked w cfg.control_plane_url
      → let q = registration_of m m' s key in
        env.codec.register_body (w.print (registering q)) ≡ value (body_of q)
        → IsFresh env s
        → ReadsPayload w (registering_at w r scfg env q s).0.body
        → (out : Result Joined × Site)
        → let net = network w r scfg env s in
          let mode = mode_for os gen bin net platform cfg m in
          IsEnrolled net cfg mode
            (registering_with os gen bin net platform cfg mode key (or_empty (collect os bin m').0))
            []
            out
          → IsAdmitted w r scfg env q s (joined_with s out)
  enrolled-IsAdmitted ax m m' s key linked decodes fresh reads (err e, site) h =
      let net = network w r scfg env s in
      let q = registration_of m m' s key in
      let c = client_of os gen bin net platform cfg [] in
      rw h (ap (λ o. o.1) (serve-register w r scfg env s c q linked.register_path))
  enrolled-IsAdmitted ax m m' s key linked decodes fresh reads (ok j, site)
        (h, holds, named, moded) =
      let net = network w r scfg env s in
      let q = registration_of m m' s key in
      let c = client_of os gen bin net platform cfg [] in
      let served = serve-register w r scfg env s c q linked.register_path in
      let arrived = held_back net (w.lost (request_for net c q)) _ _ j.response holds in
      let (fine, read) =
        subst
          (λ o.
            (leb 400 o.0.code ≡ false)
            × (w.read_register (w.print_payload o.0.body) ≡ ok j.response))
          served arrived in
      let left : deliver w r scfg env site.sent s ≡ (registering_at w r scfg env q s).1 =
        rw h (ap (λ o. o.1) served) in
      subst (λ s'. IsAdmitted w r scfg env q s (ok j, s')) (sym left)
        (answered-IsAdmitted w r scfg env q s ax decodes fresh reads j named fine read)

  -- The start of the agent over the link, once GenerateKeypair has returned its keys. The server is
  -- left as its registration handler leaves it on the agent's one request. If the start goes on,
  -- the client uses the id of the response, which is what Register returned; the token was in the
  -- set of tokens; one row was added to the table of providers, under that id, with the agent's
  -- public key and with the address and port of the response; and the command that allows this key
  -- this one address on the relay was run, which may have failed. It assumes that the URLs have the
  -- paths that the agent builds, that both sides decode the other's body, that no stored provider
  -- has the new id, and that Redis does what the code relies on.
  pub join_over-IsAdmitted :
      IsRedis r
      → IsLinked w cfg.control_plane_url
      → (m m' : Machine) (keys : Text × Text) (s : Server r)
      → generate_keypair os gen m ≡ (ok keys, m')
      → let q = registration_of m m' s keys.1 in
        env.codec.register_body (w.print (registering q)) ≡ value (body_of q)
        → IsFresh env s
        → ReadsPayload w (registering_at w r scfg env q s).0.body
        → IsAdmitted w r scfg env q s (join_over m s)
  join_over-IsAdmitted ax linked m m' keys s made decodes fresh reads =
      let net = network w r scfg env s in
      let site : Site = record { machine = m; sent = [] } in
      let joined = join-IsJoined os gen bin net platform cfg site linked.register_parses in
      enrolled-IsAdmitted ax m m' s keys.1 linked decodes fresh reads
        (join os gen bin net platform cfg site)
        (subst
          (λ x.
            IsJoined os gen bin net platform cfg (mode_for os gen bin net platform cfg m) site x
              (join os gen bin net platform cfg site))
          made joined)
