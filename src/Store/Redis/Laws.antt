-- ===== src/Store/Redis/Laws.antt =====
-- What the code relies on of the Redis commands. An error may come after the server has made the
-- change, so a failed LPUSH or BRPOP may have changed its list.
use provider_engine.Base.{Text, ℤ, pos, ◌+ℤ◌, [], ◌∷◌, ◌++◌, Bool, true, false, ◌≡◌, ◌≢◌, ◌⊎◌}
use provider_engine.Errors.{redis_nil}
use provider_engine.Exec.{ok, err}
use provider_engine.Store.Models.{Time}
use provider_engine.Store.Redis.{Redis}

pub record IsRedis (r : Redis) : Type 0 where
  pub incr_counter :
      (k : Text) (s : r.Data) (n : ℤ)
      → (r.incr k s).0 ≡ ok n
      → (n ≡ r.counter s k +ℤ pos 1) × (r.counter (r.incr k s).1 k ≡ n)
  pub incr_either :
      (k : Text) (s : r.Data)
      → (r.counter (r.incr k s).1 k ≡ r.counter s k)
        ⊎ (r.counter (r.incr k s).1 k ≡ r.counter s k +ℤ pos 1)
  pub incr_other : (k j : Text) (s : r.Data) → k ≢ j → r.counter (r.incr k s).1 j ≡ r.counter s j
  pub incr_items : (k j : Text) (s : r.Data) → r.items (r.incr k s).1 j ≡ r.items s j
  pub incr_member : (k j v : Text) (s : r.Data) → r.is_member (r.incr k s).1 j v ≡ r.is_member s j v
  pub lpush_done :
      (k v : Text) (s : r.Data) (n : ℤ)
      → (r.lpush k v s).0 ≡ ok n
      → r.items (r.lpush k v s).1 k ≡ v ∷ r.items s k
  pub lpush_either :
      (k v : Text) (s : r.Data)
      → (r.items (r.lpush k v s).1 k ≡ v ∷ r.items s k)
        ⊎ (r.items (r.lpush k v s).1 k ≡ r.items s k)
  pub lpush_other : (k j v : Text) (s : r.Data) → k ≢ j → r.items (r.lpush k v s).1 j ≡ r.items s j
  pub lpush_counter : (k v j : Text) (s : r.Data) → r.counter (r.lpush k v s).1 j ≡ r.counter s j
  pub brpop_done :
      (w : Time) (k : Text) (s : r.Data) (key v : Text)
      → (r.brpop w k s).0 ≡ ok (key, v)
      → r.items s k ≡ r.items (r.brpop w k s).1 k ++ v ∷ []
  -- the wait ends only if there is nothing to pop
  pub brpop_nil :
      (w : Time) (k : Text) (s : r.Data) → (r.brpop w k s).0 ≡ err redis_nil → r.items s k ≡ []
  pub brpop_either :
      (w : Time) (k : Text) (s : r.Data)
      → (r.items (r.brpop w k s).1 k ≡ r.items s k)
        ⊎ ((v : Text) × (r.items s k ≡ r.items (r.brpop w k s).1 k ++ v ∷ []))
  pub brpop_other :
      (w : Time) (k j : Text) (s : r.Data) → k ≢ j → r.items (r.brpop w k s).1 j ≡ r.items s j
  pub brpop_counter :
      (w : Time) (k j : Text) (s : r.Data) → r.counter (r.brpop w k s).1 j ≡ r.counter s j
  pub sismember_answer :
      (k v : Text) (s : r.Data) (b : Bool) → (r.sismember k v s).0 ≡ ok b → b ≡ r.is_member s k v
  pub sismember_items : (k v j : Text) (s : r.Data) → r.items (r.sismember k v s).1 j ≡ r.items s j
  pub sismember_counter :
      (k v j : Text) (s : r.Data) → r.counter (r.sismember k v s).1 j ≡ r.counter s j
  pub sadd_member :
      (k v : Text) (s : r.Data) (n : ℤ)
      → (r.sadd k v s).0 ≡ ok n
      → r.is_member (r.sadd k v s).1 k v ≡ true
  -- SADD takes nothing out of the set
  pub sadd_kept :
      (k v w : Text) (s : r.Data)
      → r.is_member s k w ≡ true
      → r.is_member (r.sadd k v s).1 k w ≡ true
  pub srem_member :
      (k v : Text) (s : r.Data) (n : ℤ)
      → (r.srem k v s).0 ≡ ok n
      → r.is_member (r.srem k v s).1 k v ≡ false
