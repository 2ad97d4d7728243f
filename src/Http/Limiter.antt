-- ===== src/Http/Limiter.antt =====
-- ratelimit.go: the token bucket of each client. Go counts tokens in float64; here a token is `minute`
-- parts, so that a bucket gains `limit` parts in each nanosecond and every number is exact. Times are those
-- of the monotonic clock, in nanoseconds.
use opendeploy.Common.{
  ℕ, ◌+◌, ◌-◌, ◌*◌, ◌/◌, ◌^◌, min, Bool, true, false, ◌&&◌, not, Option, none, some, [], ◌∷◌,
  String, ltb, if◌then◌else◌,
}
use opendeploy.Common.Keyed.{Keyed, lookup, remove, insert}

-- time.Minute
abbrev pub minute : ℕ
minute = 60 * 10 ^ 9

pub record Bucket : Type 0 where
  -- parts of which `minute` make a token
  pub tokens : ℕ
  pub last_seen : ℕ

pub record ClientLimiter : Type 0 where
  pub buckets : Keyed Bucket
  pub limit : ℕ

unfoldable pub new_client_limiter : ℕ → ClientLimiter
new_client_limiter limit = record { buckets = []; limit = limit }

-- the bucket's capacity, in parts
abbrev pub capacity : ℕ → ℕ
capacity limit = limit * minute

unfoldable pub refilled : ℕ → ℕ → Bucket → ℕ
refilled limit now b = min (capacity limit) (b.tokens + (now - b.last_seen) * limit)

-- math.Ceil((1 - tokens) / rate)
abbrev pub delay : ℕ → ℕ → ℕ
delay limit t = (minute - t + (limit - 1)) / limit

abbrev pub set_bucket : String → ℕ → ℕ → ClientLimiter → ClientLimiter
set_bucket key t now l = record l {
  buckets = insert key (record { tokens = t; last_seen = now }) l.buckets;
}

-- Allow for a bucket that was found
unfoldable pub spend : String → ℕ → ℕ → ClientLimiter → (Bool × ℕ) × ClientLimiter
spend key t now l =
    if ltb t minute
    then ((false, delay l.limit t), set_bucket key t now l)
    else ((true, 0), set_bucket key (t - minute) now l)

unfoldable pub allow_found : String → ℕ → ClientLimiter → Option Bucket → (Bool × ℕ) × ClientLimiter
unfolding spend
allow_found key now l none = ((true, 0), set_bucket key (capacity l.limit - minute) now l)
allow_found key now l (some b) = spend key (refilled l.limit now b) now l

-- Allow
unfoldable pub allow : String → ℕ → ClientLimiter → (Bool × ℕ) × ClientLimiter
unfolding allow_found
allow key now l = allow_found key now l (lookup key l.buckets)

unfoldable pub drop_stale : ℕ → Keyed Bucket → Keyed Bucket
drop_stale now [] = []
drop_stale now ((k, b) ∷ m) =
    let rest = drop_stale now m in
    if ltb (2 * minute) (now - b.last_seen) then remove k rest else (k, b) ∷ rest

-- one round of cleanup
unfoldable pub cleanup : ℕ → ClientLimiter → ClientLimiter
unfolding drop_stale
cleanup now l = record l { buckets = drop_stale now l.buckets }

-- RateLimit: the two limiters of one middleware
pub record Limits : Type 0 where
  pub clients : ClientLimiter
  pub addresses : ClientLimiter

unfoldable pub new_limits : ℕ → Limits
unfolding new_client_limiter
new_limits requests_per_minute =
    let n = if ltb requests_per_minute 1 then 1 else requests_per_minute in
    record { clients = new_client_limiter n; addresses = new_client_limiter (n * 10) }

-- the handler: both limiters are asked, whatever the first one answers; `some` is the delay of a refusal
unfoldable pub rate_limit : String → String → ℕ → Limits → Option ℕ × Limits
unfolding allow
rate_limit ip key now l =
    let by_ip = allow ip now l.addresses in
    let by_client = allow key now l.clients in
    let refused = not (by_ip.0.0 && by_client.0.0) in
    let retry = if ltb by_client.0.1 by_ip.0.1 then by_ip.0.1 else by_client.0.1 in
    ((if refused then some retry else none), record { clients = by_client.1; addresses = by_ip.1 })
