-- ===== src/Errors.antt =====
-- Go's error values as the control plane makes and tests them: the errors that a driver returns,
-- the sentinels `sql.ErrNoRows`, `redis.Nil` and `registry.ErrInvalidToken`, and `fmt.Errorf`.
use provider_engine.Base.{Text, bytes, ℤ, decimal_ℤ, ◌++◌, Bool, true, false}

pub data Error : Type 0 where
  driver : Text → Error
  no_rows redis_nil invalid_token : Error
  -- "no provider available with %d CPU / %d MB RAM"
  no_capacity : ℤ → ℤ → Error
  -- "<context>: %w"
  wrap : Text → Error → Error

-- `errors.Is(err, registry.ErrInvalidToken)` looks through every `%w`.
unfoldable pub is_invalid_token : Error → Bool
is_invalid_token invalid_token = true
is_invalid_token (wrap _ e) = is_invalid_token e
is_invalid_token (driver _) = false
is_invalid_token no_rows = false
is_invalid_token redis_nil = false
is_invalid_token (no_capacity _ _) = false

-- `err.Error()`
unfoldable pub message : Error → Text
message (driver t) = t
message no_rows = bytes "sql: no rows in result set"
message redis_nil = bytes "redis: nil"
message invalid_token = bytes "invalid or unknown registration token"
message (no_capacity cpu mem) =
    bytes "no provider available with "
    ++ (decimal_ℤ cpu ++ (bytes " CPU / " ++ (decimal_ℤ mem ++ bytes " MB RAM")))
message (wrap context e) = context ++ (bytes ": " ++ message e)
