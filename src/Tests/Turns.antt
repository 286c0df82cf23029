-- ===== src/Tests/Turns.antt =====
-- The theorem on two turns, with two jobs for one provider.
use provider_engine.Base.{Text, [], ◌∷◌, ◌≡◌, ◌≢◌, refl, sym, ap, ◌∙◌, some, pos, ◌==◌}
use mathlib.Core.Path.{subst}
use provider_engine.Exec.{ok}
use provider_engine.Api.Http.{
  Payload, empty, plain, error, registered, deploy_job, deployed, certificate, provider_list,
}
use provider_engine.Api.Routes.{serve, endpoint}
use provider_engine.Api.Requests.{job_response, vm_of}
use provider_engine.Api.Server as Server
use provider_engine.Api.Runs.{sweep, run, step}
use provider_engine.Registry.{sweep_offline}
use provider_engine.Scheduler.{poll_for_provider}
use provider_engine.Store.Postgres.{next_pending_job, start_row, scan_job, mark_offline, upsert_vm}
use provider_engine.Store.Redis.{pop_job, popped, job_queue_key}
use provider_engine.Store.Redis.Memory.{memory, memory-IsRedis}
use provider_engine.Provider.Client.{poll_jobs, send, poll_answer, report_vm, post, post_answer}
use provider_engine.Provider.Agent.{spawn, mode_of, handle_job, finish}
use provider_engine.Provider.Keys.{spawn_ssh}
use provider_engine.Provider.Run.{poll_pass}
use provider_engine.Link.{Wire, IsLinked, turn, act}
use provider_engine.Link.Delivery.{IsReadable, pass_for, exchange-poll}
use provider_engine.Link.Once.{Starts, Meets, turn_once}
use provider_engine.Tests.Setting.{database, database-IsServer, config, provider_id}
use provider_engine.Tests.Hosts.{calm}
use provider_engine.Tests.Machines.{keygen, binary, platform}
use provider_engine.Tests.Agents.{device, vmm, agent}
use provider_engine.Tests.Links.{
  wire, wire-IsLinked, base, env_linked, joined, handed, below_path, skip, provider_path,
  until_slash, has_slash,
}
use provider_engine.Tests.Runs.{second_id, second_job, two_jobs_server, two_jobs-IsSound}

abbrev job_name : Payload → Text
job_name (deploy_job job) = job.id
job_name empty = []
job_name (plain t) = []
job_name (error t) = []
job_name (registered res) = []
job_name (deployed res) = []
job_name (certificate c) = []
job_name (provider_list ps) = []

abbrev naming : Wire
naming = record wire { print_payload = job_name; read_job = λ t. ok (record handed { job_id = t }) }

naming-IsLinked : IsLinked naming base
naming-IsLinked = record {
  poll_parses = wire-IsLinked.poll_parses;
  poll_path = wire-IsLinked.poll_path;
  report_parses = wire-IsLinked.report_parses;
  report_path = wire-IsLinked.report_path;
  register_parses = wire-IsLinked.register_parses;
  register_path = wire-IsLinked.register_path;
  beat_parses = wire-IsLinked.beat_parses;
  beat_path = wire-IsLinked.beat_path;
}

abbrev later_server : Server.Server memory
later_server =
    run memory config
      (turn naming memory config calm keygen binary platform device vmm (pos 0) env_linked
        env_linked joined agent two_jobs_server).1
      (sweep database ∷ [])

Starts-first :
    Starts naming memory config calm keygen binary platform device vmm
      (pos 0)
      env_linked
      joined
      two_jobs_server
      handed
unfolding poll_pass poll_jobs send poll_answer serve endpoint Server.poll_jobs job_response
    poll_for_provider pop_job popped next_pending_job start_row scan_job ◌==◌ job_queue_key
    below_path skip provider_path until_slash has_slash
Starts-first = refl

-- what the second turn polls
polled_second :
    (poll_for_provider memory database provider_id 25 later_server.world).0
    ≡ ok (some (scan_job database second_job))
unfolding poll_pass poll_jobs send poll_answer serve endpoint Server.poll_jobs job_response
    poll_for_provider pop_job popped next_pending_job start_row scan_job ◌==◌ job_queue_key
    below_path skip provider_path until_slash has_slash turn act handle_job finish spawn mode_of
    spawn_ssh report_vm post post_answer Server.report_vm upsert_vm run step sweep_offline
    mark_offline vm_of
polled_second = refl

Meets-first :
    Meets naming memory config calm keygen binary platform device vmm
      (pos 0)
      env_linked
      joined
      two_jobs_server
unfolding poll_for_provider pop_job popped next_pending_job start_row scan_job ◌==◌ job_queue_key
Meets-first = record {
  linked = naming-IsLinked;
  plain = ((λ e. cc e), refl);
  server = database-IsServer;
  readable = refl;
}

Meets-second :
    Meets naming memory config calm keygen binary platform device vmm
      (pos 0)
      env_linked
      joined
      later_server
unfolding scan_job
Meets-second = record {
  linked = naming-IsLinked;
  plain = ((λ e. cc e), refl);
  server = database-IsServer;
  readable = subst (IsReadable naming) (sym polled_second) refl;
}

Starts-second :
    Starts naming memory config calm keygen binary platform device vmm
      (pos 0)
      env_linked
      joined
      later_server
      (record handed { job_id = second_id })
unfolding scan_job
Starts-second =
    ap (λ x. x.0)
      (exchange-poll naming memory config env_linked calm keygen binary platform joined
        naming-IsLinked ((λ e. cc e), refl) later_server Meets-second.readable)
    ∙ ap pass_for polled_second

turn_once_example : second_id ≢ handed.job_id
turn_once_example =
    turn_once naming memory config calm keygen binary platform device vmm (pos 0) memory-IsRedis
      env_linked env_linked env_linked joined joined agent two_jobs_server handed
      (record handed { job_id = second_id }) two_jobs-IsSound Meets-first database-IsServer
      Starts-first (sweep database ∷ []) (tt, tt) Meets-second Starts-second
