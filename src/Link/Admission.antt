-- ===== src/Link/Admission.antt =====
-- The registration of an agent at the server over the link, and what the server has stored when it
-- accepts it.
use provider_engine.Base.{
  Text, bytes, ◌==◌, [], ◌∷◌, ◌++◌, true, false, leb, ◌≡◌, refl, sym, ap, Bool-cases, inl, inr,
}
use mathlib.Core.Path.{subst}
use provider_engine.Errors.{is_invalid_token}
use provider_engine.Exec.{Result, ok, err}
use provider_engine.Store.Redis.{Redis}
use provider_engine.Store.Redis.Laws.{IsRedis}
use provider_engine.Registry.{RegisterResult}
use provider_engine.Api.Http.{RegisterBody, Response, Payload, registered, value}
use provider_engine.Api.Requests.{register_error}
use provider_engine.Api.Server as Server
use provider_engine.Api.Server.{Server, Env, register, after_register}
use provider_engine.Api.Enrolment.{IsFresh, IsStored, register-IsAnswered}
use provider_engine.Api.Routes.{endpoint, serve}
use provider_engine.Provider.Client.{Client, RegisterRequest, RegisterResponse, registering}
use provider_engine.Provider.Run.{Joined}
use provider_engine.Provider.Run.Joining.{request_for}
use provider_engine.Link.{Wire, api_path, to_request, network}

-- what the server decodes of a registration, and the agent of its answer
abbrev pub body_of : RegisterRequest → RegisterBody
body_of q = record {
  token = q.token;
  wg_pubkey = q.public_key;
  location = q.location;
  mode = q.mode;
  cpu_cores = q.resources.cpu_cores;
  memory_mb = q.resources.memory_mb;
  disk_gb = q.resources.disk_gb;
  meta = q.meta;
}

abbrev pub response_of : RegisterResult → RegisterResponse
response_of res = record {
  provider_id = res.provider_id;
  wg_config = res.wg_config;
  tunnel_port = res.tunnel_port;
  wg_ip = res.wg_ip;
}

module _ (r : Redis) (scfg : Server.Config) (env : Env) (b : RegisterBody) where
  after-accepted :
      (out : Result RegisterResult) (s : Server r)
      → leb 400 (after_register r scfg env b out s).0.code ≡ false
      → (after_register r scfg env b out s).0.code ≡ 200
  unfolding after_register register_error
  after-accepted (ok res) s h = refl
  after-accepted (err e) s h = elim (Bool-cases (is_invalid_token e)) [
    | inl f ↦ let stuck : true ≡ false = rw f at h in absurd (cc stuck)
    | inr f ↦ let stuck : true ≡ false = rw f at h in absurd (cc stuck)
  ]

  register-accepted :
      (body : Text) (s : Server r)
      → env.codec.register_body body ≡ value b
      → leb 400 (register r scfg env body s).0.code ≡ false
      → (register r scfg env body s).0.code ≡ 200
  unfolding register
  register-accepted body s e h = rw e (after-accepted _ _ (rw e at h))

module _ (w : Wire) (r : Redis) (scfg : Server.Config) (env : Env) (s : Server r) where
  pub serve-register :
      (c : Client) (q : RegisterRequest)
      → w.path (c.base_url ++ bytes "/api/v1/providers/register")
        ≡ api_path (bytes "providers" ∷ bytes "register" ∷ [])
      → serve r scfg env (to_request w (request_for (network w r scfg env s) c q)) s
        ≡ register r scfg env (w.print (registering q)) s
  unfolding serve endpoint ◌==◌
  serve-register c q h = rw h refl

-- The agent decodes the fields of this response, if it is that of a registration.
abbrev pub ReadsPayload : Wire → Payload → Type 0
ReadsPayload w (registered res) =
    w.read_register (w.print_payload (registered res)) ≡ ok (response_of res)
ReadsPayload w _ = Unit {0}

module _ (w : Wire) (r : Redis) (scfg : Server.Config) (env : Env) (q : RegisterRequest)
    (s : Server r) where
  -- the registration at the server
  abbrev pub registering_at : Response × Server r
  registering_at = register r scfg env (w.print (registering q)) s

  -- The agent has registered once, and if its start goes on, then with what the server has stored.
  abbrev pub IsAdmitted : Result Joined × Server r → Type 0
  IsAdmitted (err e, s') = s' ≡ registering_at.1
  IsAdmitted (ok j, s') =
      (s' ≡ registering_at.1)
      × (j.client.provider_id ≡ j.response.provider_id)
      × IsStored r env (body_of q) s j.response.provider_id j.response.wg_ip j.response.tunnel_port
          s'

  module _ (ax : IsRedis r)
      (decodes : env.codec.register_body (w.print (registering q)) ≡ value (body_of q))
      (fresh : IsFresh env s) (reads : ReadsPayload w registering_at.0.body) where
    pub answered-IsAdmitted :
        (j : Joined)
        → j.client.provider_id ≡ j.response.provider_id
        → leb 400 registering_at.0.code ≡ false
        → w.read_register (w.print_payload registering_at.0.body) ≡ ok j.response
        → IsAdmitted (ok j, registering_at.1)
    answered-IsAdmitted j named fine read =
        let (res, (answer, stored)) =
          register-IsAnswered r scfg env (body_of q) ax (w.print (registering q)) s decodes fresh
            (register-accepted r scfg env (body_of q) (w.print (registering q)) s decodes fine) in
        let readable : ReadsPayload w (registered res) =
          subst (λ p. ReadsPayload w p) (ap (λ o. o.body) answer) reads in
        let got : w.read_register (w.print_payload (registered res)) ≡ ok j.response =
          subst (λ p. w.read_register (w.print_payload p) ≡ ok j.response) (ap (λ o. o.body) answer)
            read in
        let same : j.response ≡ response_of res = cc (readable, got) in
        (
          refl,
          named,
          subst
              (λ x.
                IsStored r env (body_of q) s x.provider_id x.wg_ip x.tunnel_port registering_at.1)
              (sym same) stored,
        )
