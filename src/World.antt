-- ===== src/World.antt =====
-- The state behind the control plane's handlers: the tables and the Redis data, shared by the
-- scheduler and the registry through pointers to one `store.PG` and one `store.Redis`
-- (dcp-control-plane/internal/scheduler/scheduler.go, dcp-control-plane/internal/registry/registry.go).
use provider_engine.Exec.{Result, Exec}
use provider_engine.Store.Models.{Tables}
use provider_engine.Store.Redis.{Redis}

pub record World (r : Redis) : Type 0 where
  pub pg : Tables
  pub redis : r.Data

module _ {r : Redis} {A : Type 0} where
  abbrev pub with_pg : World r → Result A × Tables → Result A × World r
  with_pg w (x, t) = (x, record w { pg = t })

  abbrev pub on_pg : Exec Tables A → Exec (World r) A
  on_pg m w = with_pg w (m w.pg)

  abbrev pub with_redis : World r → Result A × r.Data → Result A × World r
  with_redis w (x, s) = (x, record w { redis = s })

  abbrev pub on_redis : Exec r.Data A → Exec (World r) A
  on_redis m w = with_redis w (m w.redis)
