-- ===== src/Link/Once.antt =====
-- Turns of agents as runs of the control plane, and how often a job is started.
use provider_engine.Base.{
  Text, ℤ, List, [], ◌∷◌, ◌++◌, Option, none, some, ◌≡◌, ◌≢◌, refl, sym, ap, ◌∙◌, All, All-append,
}
use mathlib.Core.Path.{subst}
use provider_engine.Exec.{Result, ok, err}
use provider_engine.Machine.{Os}
use provider_engine.Store.Models.{Job}
use provider_engine.Store.Pending.{IsServer}
use provider_engine.Store.Redis.{Redis}
use provider_engine.Store.Redis.Laws.{IsRedis}
use provider_engine.Scheduler.{poll_for_provider}
use provider_engine.Api.Server as Server
use provider_engine.Api.Server.{Server, Env}
use provider_engine.Api.Runs.{Event, request, step, run}
use provider_engine.Api.Runs.Invariant.{IsSound, IsServed}
use provider_engine.Api.Runs.Once.{poll_once}
use provider_engine.Provider.Client.{Sent, DeployJob}
use provider_engine.Provider.Keys.{Device}
use provider_engine.Provider.Wireguard.{Keygen}
use provider_engine.Provider.Attestation.{Binary}
use provider_engine.Provider.Vm.Firecracker.{Vmm}
use provider_engine.Provider.Agent.{Agent, handle_job}
use provider_engine.Provider.Run.{Platform, Joined, Pass, retry, next, handle, poll_pass}
use provider_engine.Link.{
  Wire, IsPlain, IsLinked, to_request, network, deliver, exchange, reported, act, turn,
}
use provider_engine.Link.Delivery.{job_of, IsReadable, pass_over, exchange-poll}

module _ (w : Wire) (r : Redis) (cfg : Server.Config) where
  run-snoc :
      (s : Server r) (es : List Event) (e : Event)
      → run r cfg s (es ++ e ∷ []) ≡ step r cfg (run r cfg s es) e
  unfolding run
  run-snoc s [] e = refl
  run-snoc s (x ∷ es) e = run-snoc (step r cfg s x) es e

  run-append :
      (s : Server r) (es fs : List Event) → run r cfg s (es ++ fs) ≡ run r cfg (run r cfg s es) fs
  unfolding run
  run-append s [] fs = refl
  run-append s (x ∷ es) fs = run-append (step r cfg s x) es fs

  -- the server has gone from s to s' by requests whose queries meet the rows of the tables
  abbrev pub Runs : Server r → Server r → Type 0
  Runs s s' = (es : List Event) × All IsServed es × (s' ≡ run r cfg s es)

  Runs-here : (s : Server r) → Runs s s
  unfolding run
  Runs-here s = ([], tt, refl)

  Runs-trans : (s t u : Server r) → Runs s t → Runs t u → Runs s u
  Runs-trans s t u (es, served, e) (fs, served', f) = (
    es ++ fs,
    All-append IsServed es fs served served',
    f ∙ ap (λ x. run r cfg x fs) e ∙ sym (run-append s es fs),
  )

  module _ (env : Env) (server : IsServer env.db) where
    deliver-Runs : (sent : List Sent) (s : Server r) → Runs s (deliver w r cfg env sent s)
    unfolding step
    deliver-Runs [] s = Runs-here s
    deliver-Runs (req ∷ reqs) s =
        let (es, served, e) = deliver-Runs reqs s in
        let last = request env (to_request w req) in
        (
          es ++ last ∷ [],
          All-append IsServed es (last ∷ []) served (server, tt),
          ap (λ x. step r cfg x last) e ∙ sym (run-snoc s es last),
        )

    reported-Runs : (x : Option Agent) (s : Server r) → Runs s (reported w r cfg env s x).1
    reported-Runs none s = Runs-here s
    reported-Runs (some a) s = deliver-Runs a.sent s

handle-job :
    (x : Option Text) (out : Result (Option Job)) (d : DeployJob)
    → pass_over x out ≡ handle d
    → (job : Job) × (out ≡ ok (some job)) × (d ≡ job_of job)
handle-job (some t) out d h = absurd (cc h)
handle-job none (err e) d h = absurd (cc h)
handle-job none (ok none) d h = absurd (cc h)
handle-job none (ok (some job)) d h = (job, refl, cc h)

module _ (w : Wire) (r : Redis) (cfg : Server.Config) (os : Os) (gen : Keygen) (bin : Binary)
    (platform : Platform) (dev : Device) (vmm : Vmm) (ssh_port : ℤ) where
  act-Runs :
      (env : Env)
      → IsServer env.db
      → (j : Joined) (p : Pass) (a : Agent) (s : Server r)
      → Runs w r cfg s (act w r cfg os gen bin platform dev vmm ssh_port env j p a s).1
  unfolding act
  act-Runs env server j retry a s = Runs-here w r cfg s
  act-Runs env server j next a s = Runs-here w r cfg s
  act-Runs env server j (handle job) a s =
      reported-Runs w r cfg env server
        (handle_job (network w r cfg env s) j.client dev os vmm job j.mode j.response.tunnel_port
          ssh_port j.response.wg_ip (record a { sent = [] }))
        s

  -- A turn is for the server a run of the requests that the agent sends.
  turn-Runs :
      (env env' : Env)
      → IsServer env.db
      → IsServer env'.db
      → (j : Joined) (a : Agent) (s : Server r)
      → Runs w r cfg s (turn w r cfg os gen bin platform dev vmm ssh_port env env' j a s).1
  unfolding turn
  turn-Runs env env' server server' j a s =
      let (pass, sent) = poll_pass os gen bin (network w r cfg env s) platform j [] in
      let polled = deliver w r cfg env sent s in
      Runs-trans w r cfg s polled _ (deliver-Runs w r cfg env server sent s)
        (act-Runs env' server' j pass a polled)

  -- the machine that a turn at this server starts is that of this job
  abbrev pub Starts : Env → Joined → Server r → DeployJob → Type 0
  Starts env j s d =
      (exchange w r cfg env (λ net. poll_pass os gen bin net platform j) s).0 ≡ handle d

  -- What a turn meets: a linked agent, a server whose queries meet the rows, a job that is decoded
  pub record Meets (env : Env) (j : Joined) (s : Server r) : Type 0 where
    pub linked : IsLinked w j.client.base_url
    pub plain : IsPlain j.client.provider_id
    pub server : IsServer env.db
    pub readable : IsReadable w (poll_for_provider r env.db j.client.provider_id 25 s.world).0

  -- Two turns, of one agent or of two, never start the machine of the same job, whatever requests
  -- and ticks of SweepOffline come between, turns of any agents among them: the ids of the jobs
  -- differ. It assumes that before the first turn the ids of the jobs are distinct, no queue is
  -- longer than the jobs scheduled for its provider are many, and the addresses are distinct ones
  -- that were given, that Redis does what the code relies on, that the queries meet the rows of the
  -- tables, that the URLs have the paths that the agents build, and that the agents decode the jobs.
  pub turn_once :
      IsRedis r
      → (env env' later : Env) (j k : Joined) (a : Agent) (s : Server r) (d e : DeployJob)
      → IsSound r s.world
      → Meets env j s
      → IsServer env'.db
      → Starts env j s d
      → (es : List Event) → All IsServed es
      → let s' =
          run r cfg (turn w r cfg os gen bin platform dev vmm ssh_port env env' j a s).1 es in
        Meets later k s' → Starts later k s' e → e.job_id ≢ d.job_id
  unfolding turn
  turn_once ax env env' later j k a s d e sound m server' got es served m' again =
      let polled = exchange-poll w r cfg env os gen bin platform j m.linked m.plain s m.readable in
      let s1 = run r cfg (turn w r cfg os gen bin platform dev vmm ssh_port env env' j a s).1 es in
      let polled' =
        exchange-poll w r cfg later os gen bin platform k m'.linked m'.plain s1 m'.readable in
      let (job, out, same) = handle-job _ _ d (sym (ap (λ x. x.0) polled) ∙ got) in
      let (job', out', same') = handle-job _ _ e (sym (ap (λ x. x.0) polled') ∙ again) in
      let after = record s {
        world = (poll_for_provider r env.db j.client.provider_id 25 s.world).1;
      } in
      let first = exchange w r cfg env (λ net. poll_pass os gen bin net platform j) s in
      let (fs, served_first, went) =
        subst
          (λ x.
            Runs w r cfg x
              (act w r cfg os gen bin platform dev vmm ssh_port env' j first.0 a first.1).1)
          (ap (λ x. x.1) polled) (act-Runs env' server' j first.0 a first.1) in
      let whole : s1 ≡ run r cfg after (fs ++ es) =
        ap (λ x. run r cfg x es) went ∙ sym (run-append w r cfg after fs es) in
      let apart =
        poll_once r ax cfg env.db later.db m.server m'.server j.client.provider_id
          k.client.provider_id 25 25 s job job' sound out (fs ++ es)
          (All-append IsServed fs es served_first served)
          (subst
            (λ x. (poll_for_provider r later.db k.client.provider_id 25 x.world).0 ≡ ok (some job'))
            whole out') in
      λ eq. apart (sym (ap (λ x. x.job_id) same') ∙ eq ∙ ap (λ x. x.job_id) same)
