-- ===== src/Link/Delivery.antt =====
-- What the agent's poll and its report make of the server.
use provider_engine.Base.{Text, ◌++◌, bytes, ◌==◌, [], ◌∷◌, Option, none, some, ◌≡◌, refl, ap}
use provider_engine.Exec.{Result, ok, err}
use provider_engine.Errors.{message}
use provider_engine.Provider.Client.Polling.{poll_request}
use provider_engine.World.{World}
use provider_engine.Store.Models.{Job}
use provider_engine.Store.Redis.{Redis}
use provider_engine.Scheduler.{poll_for_provider}
use provider_engine.Api.Http.{deploy_job, http_err}
use provider_engine.Api.Requests.{job_response}
use provider_engine.Api.Server.{Server, Env, Config, poll_jobs}
use provider_engine.Api.Routes.{endpoint, serve}
use provider_engine.Provider.Client as Client
use provider_engine.Provider.Client.{
  Client, Sent, DeployJob, VmReport, reporting, send, poll_answer, empty,
}
use provider_engine.Machine.{Os}
use provider_engine.Provider.Wireguard.{Keygen}
use provider_engine.Provider.Attestation.{Binary}
use provider_engine.Provider.Run.{Platform, Joined, Pass, retry, next, handle, pass_of, poll_pass}
use provider_engine.Link.{
  Wire, IsPlain, IsLinked, poll_url, api_path, to_request, to_answer, come_back, network, exchange,
}

-- the job that the agent reads from what the server writes
abbrev pub job_of : Job → DeployJob
job_of job = record {
  job_id = job.id;
  image_url = job.image_url;
  cpu_cores = job.cpu_cores;
  memory_mb = job.memory_mb;
  disk_gb = job.disk_gb;
  ssh_pubkey = job.ssh_pubkey;
  env = job.env;
}

-- The agent decodes the fields of this job, if there is one: their names are the same on both sides.
abbrev pub IsReadable : Wire → Result (Option Job) → Type 0
IsReadable w (err e) = Unit {0}
IsReadable w (ok none) = Unit {0}
IsReadable w (ok (some job)) = w.read_job (w.print_payload (deploy_job job)) ≡ ok (job_of job)

abbrev pub pass_for : Result (Option Job) → Pass
pass_for (err e) = retry
pass_for (ok none) = next
pass_for (ok (some job)) = handle (job_of job)

-- the same, unless the answer is lost
abbrev pub pass_over : Option Text → Result (Option Job) → Pass
pass_over none out = pass_for out
pass_over (some e) out = retry

-- the poll of an agent with this client
abbrev pub poll_of : Client → Sent
poll_of c = record {
  method = bytes "GET";
  url = poll_url c.base_url c.provider_id;
  authorization = bytes "Bearer " ++ c.token;
  body = empty;
}

module _ (w : Wire) (r : Redis) (cfg : Config) (env : Env) (s : Server r) (c : Client) where
  abbrev polling : Sent
  polling = poll_request (network w r cfg env s) c

  abbrev polled : Result (Option Job) × World r
  polled = poll_for_provider r env.db c.provider_id 25 s.world

  serve-poll :
      w.path (poll_url c.base_url c.provider_id)
        ≡ api_path (bytes "providers" ∷ c.provider_id ∷ bytes "jobs" ∷ [])
      → serve r cfg env (to_request w polling) s ≡ poll_jobs r cfg env c.provider_id s
  unfolding serve endpoint ◌==◌
  serve-poll h = rw h refl

  -- what the client makes of the handler's response
  read-response :
      (x : Option Text) (out : Result (Option Job))
      → IsReadable w out
      → pass_of (
          poll_answer (network w r cfg env s) c (
            come_back x (
              to_answer w (elim out [ ok a ↦ job_response a | err e ↦ http_err (message e) 500 ]))))
        ≡ pass_over x out
  unfolding poll_answer job_response
  read-response (some e) out h = refl
  read-response none (err e) h = refl
  read-response none (ok none) h = refl
  read-response none (ok (some job)) h = rw h refl

  client-poll :
      w.bad_url (poll_url c.base_url c.provider_id) ≡ none
      → Client.poll_jobs (network w r cfg env s) c [] ≡ (
        poll_answer (network w r cfg env s) c ((network w r cfg env s).answer polling),
        polling ∷ [],
      )
  unfolding Client.poll_jobs send
  client-poll h = rw h refl

module _ (w : Wire) (r : Redis) (cfg : Config) (env : Env) (os : Os) (gen : Keygen) (bin : Binary)
    (platform : Platform) (j : Joined) where
  -- A poll of the agent over the link: it goes on with the job that PollForProvider has delivered,
  -- or tries again if the answer is lost, and the server is left as PollForProvider has left it.
  pub exchange-poll :
      IsLinked w j.client.base_url
      → IsPlain j.client.provider_id
      → (s : Server r) → IsReadable w (poll_for_provider r env.db j.client.provider_id 25 s.world).0
      → exchange w r cfg env (λ net. poll_pass os gen bin net platform j) s ≡ (
        pass_over
            (w.lost (poll_of j.client))
            (poll_for_provider r env.db j.client.provider_id 25 s.world).0,
        record s { world = (poll_for_provider r env.db j.client.provider_id 25 s.world).1 },
      )
  unfolding poll_pass poll_jobs serve endpoint
  exchange-poll linked plain s readable =
      let served = serve-poll w r cfg env s j.client (linked.poll_path _ plain) in
      rw (client-poll w r cfg env s j.client (linked.poll_parses _ plain)) (
        rw served (
          ap (λ p. (p, record s { world = (polled w r cfg env s j.client).1 }))
            (read-response w r cfg env s j.client (w.lost (poll_of j.client))
              (polled w r cfg env s j.client).0 readable)))
