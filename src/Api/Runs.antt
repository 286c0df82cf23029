-- ===== src/Api/Runs.antt =====
-- A run of the control plane: requests and ticks of SweepOffline, in any order, each with what it
-- meets outside the program.
pub mod Frames
pub mod Invariant
pub mod Kept
pub mod Once
pub mod Lifecycle
use provider_engine.Base.{
  ℕ, Text, List, [], ◌∷◌, ◌≡◌, refl, Option, none, some, Bool-cases, inl, inr, if◌then◌else◌, Bool,
  true, false, length, ◌≤◌, arith,
}
use provider_engine.World.{World}
use provider_engine.Store.Postgres.{Postgres}
use provider_engine.Store.Redis.{Redis}
use provider_engine.Registry.{sweep_offline}
use provider_engine.Api.Http.{Request, Response}
use provider_engine.Api.Server.{Server, Env, Config}
use provider_engine.Api.Routes.{serve}

pub data Event : Type 0 where
  request : Env → Request → Event
  sweep : Postgres → Event

module _ (r : Redis) (cfg : Config) where
  unfoldable pub step : Server r → Event → Server r
  step s (request env req) = (serve r cfg env req s).1
  step s (sweep db) = record s { world = sweep_offline r db s.world }

  unfoldable pub run : Server r → List Event → Server r
  run s [] = s
  run s (e ∷ es) = run (step s e) es
