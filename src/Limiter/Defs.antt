-- ===== src/Limiter/Defs.antt =====
-- `check_rate_limit` of backend/src/shared/infrastructure/rate_limiter.py. A counter of Redis belongs to an
-- enterprise and a bucket; INCR and EXPIRE are as documented: INCR makes a key that is missing or
-- expired at 1 and keeps the expiry of another, EXPIRE sets it. Times are milliseconds.
use cadencia_a2a_platform.Prelude.{
  ℕ, ◌+◌, ◌*◌, ◌/◌, Bool, false, ◌&&◌, Option, none, some, ltb, leb, ◌==◌, if◌then◌else◌,
}
use cadencia_a2a_platform.Errors.{rate_limit_error, Result, ok, err}

pub record Counter : Type 0 where
  pub count : ℕ
  pub expires_at : Option ℕ

-- The keys `rate:{enterprise_id}:{bucket}`
abbrev pub Redis : Type 0
Redis = ℕ → ℕ → Option Counter

abbrev pub set_key : ℕ → ℕ → Option Counter → Redis → Redis
set_key id bucket c r =
    λ id' bucket'. if (id' == id) && (bucket' == bucket) then c else r id' bucket'

-- `int(time.time() // window)`
abbrev pub bucket_of : ℕ → ℕ → ℕ
bucket_of window now = now / (window * 1_000)

abbrev pub is_expired : ℕ → Option ℕ → Bool
is_expired now none = false
is_expired now (some at) = leb at now

-- INCR
abbrev pub incremented : ℕ → Option Counter → Counter
incremented now none = record { count = 1; expires_at = none }
incremented now (some c) =
    if is_expired now c.expires_at
    then record { count = 1; expires_at = none }
    else record c { count = c.count + 1 }

-- EXPIRE, on the first request of a window
abbrev pub expiring : ℕ → ℕ → Counter → Counter
expiring window now c =
    if c.count == 1 then record c { expires_at = some (now + (window + 1) * 1_000) } else c

unfoldable pub check_rate_limit : ℕ → ℕ → ℕ → ℕ → Redis → Result (Unit {0}) × Redis
check_rate_limit limit window id now r =
    let c = expiring window now (incremented now (r id (bucket_of window now))) in
    (
      if ltb limit c.count then err rate_limit_error else ok tt,
      set_key id (bucket_of window now) (some c) r,
    )
