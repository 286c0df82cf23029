-- ===== src/Tests/Beats.antt =====
-- The theorem on a tick of the heartbeat over the link, with a provider that is swept 91 seconds
-- later.
use provider_engine.Base.{◌+◌, ◌*◌, pos, bytes, [], some, refl, Option, Text}
use provider_engine.Store.Models.{second}
use provider_engine.Store.Postgres.{Postgres}
use provider_engine.Store.Redis.Memory.{memory}
use provider_engine.Registry.{sweep_offline}
use provider_engine.Registry.Sweep.{Pairwise, IsWatched}
use provider_engine.Api.Http.{value}
use provider_engine.Api.Server.{Env, Server}
use provider_engine.Provider.Meminfo.{cpu_load, mem_free_mb}
use provider_engine.Link.Beating.{beat_over, reading, body_of, beat_over-IsWatched}
use provider_engine.Tests.Setting.{database, world, provider_id, config}
use provider_engine.Tests.Hosts.{calm}
use provider_engine.Tests.Machines.{keygen, binary, platform}
use provider_engine.Tests.Links.{wire, wire-IsLinked, env_linked, joined}

-- /proc/loadavg and /proc/meminfo
abbrev loadavg : Option Text
loadavg = some (bytes "0.42 0.30 0.25 1/100 4242")

abbrev meminfo : Option Text
meminfo = some (bytes "MemAvailable:    2048000 kB")

abbrev server_up : Server memory
server_up = record { world = world; actions = [] }

abbrev env_beating : Env
env_beating = record env_linked {
  codec = record env_linked.codec {
    heartbeat_body = λ t. value (
        body_of (
          reading wire memory config env_linked calm keygen binary platform joined loadavg meminfo
            server_up));
  };
}

abbrev database_later : Postgres
database_later = record database { now = database.now + 91 * second }

beat_over-IsWatched_example :
    Pairwise
      (IsWatched memory env_beating.db world database_later provider_id
        (pos 0)
        (cpu_load platform.parse_float loadavg)
        (mem_free_mb meminfo))
      world.pg.providers
      (sweep_offline memory database_later
        (beat_over wire memory config env_beating calm keygen binary platform joined loadavg meminfo
          server_up).world).pg.providers
beat_over-IsWatched_example =
    beat_over-IsWatched wire memory config env_beating calm keygen binary platform joined loadavg
      meminfo server_up database_later wire-IsLinked refl refl refl
