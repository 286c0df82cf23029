-- ===== src/Link/Beating.antt =====
-- A tick of the agent's heartbeat over the link.
use provider_engine.Base.{pos, Text, bytes, ◌==◌, [], ◌++◌, Option, ◌≡◌, refl, ap, ◌∙◌}
use provider_engine.Machine.{Os}
use provider_engine.Store.Redis.{Redis}
use provider_engine.Store.Postgres.{Postgres, done, updating_heartbeat, marking_offline}
use provider_engine.Registry as Registry
use provider_engine.Registry.{sweep_offline}
use provider_engine.Registry.Sweep.{Pairwise, IsWatched, heartbeat-IsWatched}
use provider_engine.Api.Http.{HeartbeatBody, value}
use provider_engine.Api.Server.{Server, Env, Config, heartbeat}
use provider_engine.Api.Routes.{endpoint, serve}
use provider_engine.Provider.Client as Client
use provider_engine.Provider.Client.{
  HeartbeatRequest, Sent, beating, request_of, post, send, post_answer,
}
use provider_engine.Provider.Agent.Report.{ended, send-sent}
use provider_engine.Provider.Meminfo.{cpu_load, mem_free_mb}
use provider_engine.Provider.Wireguard.{Keygen}
use provider_engine.Provider.Attestation.{Binary}
use provider_engine.Provider.Run.{Platform, Joined, beat}
use provider_engine.Link.{Wire, IsLinked, to_request, network, deliver}

-- what the server decodes of a heartbeat
abbrev pub body_of : HeartbeatRequest → HeartbeatBody
body_of q = record {
  provider_id = q.provider_id;
  active_vms = q.active_vms;
  cpu_load = q.cpu_load;
  mem_free_mb = q.mem_free_mb;
}

module _ (w : Wire) (r : Redis) (cfg : Config) (env : Env) (os : Os) (gen : Keygen) (bin : Binary)
    (platform : Platform) (j : Joined) (loadavg meminfo : Option Text) (s : Server r) where
  -- what the agent reports of its machine
  abbrev pub reading : HeartbeatRequest
  reading = record {
    provider_id = j.client.provider_id;
    active_vms = pos 0;
    cpu_load = cpu_load platform.parse_float loadavg;
    mem_free_mb = mem_free_mb meminfo;
  }

  -- the server after a tick of the agent's heartbeat
  abbrev pub beat_over : Server r
  beat_over =
      deliver w r cfg env (beat os gen bin (network w r cfg env s) platform j loadavg meminfo []) s

  abbrev request : Sent
  request =
      request_of (network w r cfg env s) j.client (bytes "POST")
        (j.client.base_url ++ bytes "/api/v1/providers/heartbeat") (beating reading)

  serve-beat :
      IsLinked w j.client.base_url
      → env.codec.heartbeat_body (w.print (beating reading)) ≡ value (body_of reading)
      → (serve r cfg env (to_request w request) s).1 ≡ record s {
        world =
            (Registry.heartbeat r env.db j.client.provider_id
              (pos 0)
              reading.cpu_load
              reading.mem_free_mb
              s.world).1;
      }
  unfolding serve endpoint heartbeat ◌==◌
  serve-beat linked k = rw linked.beat_path (rw k refl)

  beat_over-served :
      IsLinked w j.client.base_url → beat_over ≡ (serve r cfg env (to_request w request) s).1
  unfolding beat Client.heartbeat post
  beat_over-served linked =
      let net = network w r cfg env s in
      let path = bytes "/api/v1/providers/heartbeat" in
      let url = j.client.base_url ++ path in
      ap (λ sent. deliver w r cfg env sent s)
        (ended net j.client (post_answer net j.client path)
          (send net j.client (bytes "POST") url (beating reading) [])
          (send-sent net j.client (bytes "POST") url (beating reading) [] linked.beat_parses))

  -- A tick of the agent's heartbeat over the link and then a tick of SweepOffline, both carried
  -- out, leave the agent's provider seen at the time of the heartbeat, with the free memory that
  -- the agent has read of /proc/meminfo, and online exactly if the second tick comes at most 90
  -- seconds later; the other providers are swept by their own last heartbeat. It assumes that the
  -- URLs have the paths that the agent builds and that the server decodes the agent's body.
  pub beat_over-IsWatched :
      (later : Postgres)
      → IsLinked w j.client.base_url
      → env.codec.heartbeat_body (w.print (beating reading)) ≡ value (body_of reading)
      → env.db.reply updating_heartbeat ≡ done
      → later.reply marking_offline ≡ done
      → Pairwise
          (IsWatched r env.db s.world later j.client.provider_id
            (pos 0)
            (cpu_load platform.parse_float loadavg)
            (mem_free_mb meminfo))
          s.world.pg.providers
          (sweep_offline r later beat_over.world).pg.providers
  beat_over-IsWatched later linked k up swept = rw (beat_over-served linked ∙ serve-beat linked k) (
      heartbeat-IsWatched r env.db s.world later j.client.provider_id (pos 0)
        (cpu_load platform.parse_float loadavg) (mem_free_mb meminfo) up swept)
