-- ===== src/Store/Redis.antt =====
-- dcp-control-plane/pkg/store/redis.go. The server and its client package are the parameter
-- `Redis`; `IsRedis` states what their documentation says of the commands that are used.
pub mod Laws
pub mod Memory
pub mod Alloc
pub mod Queue
pub mod Counter
pub mod Ports
pub mod Tokens
use provider_engine.Base.{
  ℕ, ◌*◌, Text, bytes, ◌==◌, ℤ, pos, ◌+ℤ◌, ◌-ℤ◌, quot, rem, decimal_ℤ, List, [], ◌++◌, Bool, false,
  if◌then◌else◌,
}
use provider_engine.Errors.{redis_nil}
use provider_engine.Exec.{Result, ok, err, Exec, pure, ◌>>=◌, ◌>>◌}
use provider_engine.Store.Models.{Time, second}

pub record Redis : Type 1 where
  pub Data : Type 0
  pub incr : Text → Exec Data ℤ
  pub lpush : Text → Text → Exec Data ℤ
  -- the time to wait, and the key; a key and a value
  pub brpop : Time → Text → Exec Data (Text × Text)
  pub sadd : Text → Text → Exec Data ℤ
  pub srem : Text → Text → Exec Data ℤ
  pub sismember : Text → Text → Exec Data Bool
  -- what a client can observe of the three kinds of keys
  pub counter : Data → Text → ℤ
  -- from the head, where LPUSH writes, to the tail, where BRPOP reads
  pub items : Data → Text → List Text
  pub is_member : Data → Text → Text → Bool

-- the arithmetic of AllocPort
unfoldable pub port_of : ℤ → ℤ
port_of n = rem n 10000 +ℤ pos 40000

-- the arithmetic and the format "10.99.%d.%d" of AllocWGIP
abbrev pub third_octet : ℤ → ℤ
third_octet n = quot (n -ℤ pos 1) 254 +ℤ pos 1

abbrev pub fourth_octet : ℤ → ℤ
fourth_octet n = rem (n -ℤ pos 1) 254 +ℤ pos 1

unfoldable pub wg_ip_of : ℤ → Text
wg_ip_of n =
    bytes "10.99." ++ (decimal_ℤ (third_octet n) ++ (bytes "." ++ decimal_ℤ (fourth_octet n)))

abbrev pub port_counter_key : Text
port_counter_key = bytes "dcp:port_counter"

abbrev pub wg_ip_counter_key : Text
wg_ip_counter_key = bytes "dcp:wg_ip_counter"

abbrev pub token_set_key : Text
token_set_key = bytes "dcp:reg_tokens"

unfoldable pub job_queue_key : Text → Text
job_queue_key provider_id = bytes "dcp:jobs:" ++ provider_id

module _ (r : Redis) where
  open r use {Data, incr, lpush, brpop, sadd, srem, sismember}

  unfoldable pub push_job : Text → Text → Exec Data (Unit {0})
  push_job provider_id job_id = do lpush (job_queue_key provider_id) job_id; pure tt

  -- `redis.Nil`, the end of the wait, is the empty text; any other error is passed on.
  unfoldable pub popped : Result (Text × Text) × Data → Result Text × Data
  popped (ok (key, value), s) = (ok value, s)
  popped (err redis_nil, s) = (ok [], s)
  popped (err e, s) = (err e, s)

  unfoldable pub pop_job : Text → ℕ → Exec Data Text
  unfolding popped
  pop_job provider_id wait_sec s = popped (brpop (wait_sec * second) (job_queue_key provider_id) s)

  unfoldable pub alloc_port : Exec Data ℤ
  unfolding port_of
  alloc_port = do n ← incr port_counter_key; pure (port_of n)

  unfoldable pub alloc_wg_ip : Exec Data Text
  unfolding wg_ip_of
  alloc_wg_ip = do n ← incr wg_ip_counter_key; pure (wg_ip_of n)

  unfoldable pub add_token : Text → Exec Data (Unit {0})
  add_token token = do sadd token_set_key token; pure tt

  unfoldable pub token_valid : Text → Exec Data Bool
  token_valid token = if token == [] then pure false else sismember token_set_key token

  unfoldable pub revoke_token : Text → Exec Data (Unit {0})
  revoke_token token = do srem token_set_key token; pure tt
