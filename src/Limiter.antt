-- ===== src/Limiter.antt =====
-- perf/pool.go: the token bucket, and the limiter that keeps one for each address in 256 shards. A token is
-- counted as 10 ^ 9 parts, so that a nanosecond at a rate of tokens per second gives that many parts, and the
-- sums are exact where the source rounds a float64. A call is one step, since it holds the lock of its
-- bucket, and its clock is not before the bucket's.
pub mod Bounds
pub mod Sharing
pub mod Cleanup
pub mod Sweeps
mod Tests
use mango_waf.Common.{
  ℕ, zero, ◌+◌, ◌-◌, ◌*◌, ◌<◌, Bool, true, false, not, Option, none, some, List, [], ◌∷◌, ltb, leb,
  min, if◌then◌else◌, value_or,
}
use mango_waf.Common.Bytes.{Str}
use mango_waf.Common.Dict.{Dict}
use mango_waf.Shards.{Sharded, num_shards, load, store, new_sharded, cleanup_upto}

abbrev pub unit : ℕ
unit = 1000000000

pub record TokenBucket : Type 0 where
  pub tokens : ℕ
  pub capacity : ℕ
  pub rate : ℕ
  pub last_time : ℕ

unfoldable pub new_token_bucket : ℕ → ℕ → ℕ → TokenBucket
new_token_bucket now rate capacity = record {
  tokens = capacity * unit;
  capacity = capacity * unit;
  rate = rate;
  last_time = now;
}

-- The tokens at a time, before any is taken.
unfoldable pub refilled : ℕ → TokenBucket → ℕ
refilled now tb =
    let tokens = tb.tokens + (now - tb.last_time) * tb.rate in
    if ltb tb.capacity tokens then tb.capacity else tokens

unfoldable pub allow_n : ℕ → ℕ → TokenBucket → Bool × TokenBucket
unfolding refilled
allow_n now n tb =
    if leb (n * unit) (refilled now tb)
    then (true, record tb { tokens = refilled now tb - n * unit; last_time = now })
    else (false, record tb { tokens = refilled now tb; last_time = now })

unfoldable pub allow : ℕ → TokenBucket → Bool × TokenBucket
unfolding allow_n
allow now tb = allow_n now 1 tb

unfoldable pub with_rate : ℕ → TokenBucket → TokenBucket
with_rate rate tb = record tb { rate = rate }

unfoldable pub last_seen : TokenBucket → ℕ
last_seen tb = tb.last_time

pub record IpRateLimiter : Type 0 where
  pub shards : Sharded TokenBucket
  pub rate : ℕ
  pub capacity : ℕ

unfoldable pub new_ip_rate_limiter : ℕ → ℕ → IpRateLimiter
unfolding new_sharded
new_ip_rate_limiter rps burst = record { shards = new_sharded; rate = rps; capacity = burst }

-- A range that calls a method of each value.
unfoldable pub each : {V : Type 0} → (V → V) → Dict V → Dict V
each f [] = []
each f ((k, v) ∷ m) = (k, f v) ∷ each f m

unfoldable pub each_shard : {V : Type 0} → (V → V) → Sharded V → Sharded V
unfolding each
each_shard f m = record { shard = λ i. each f (m.shard i) }

unfoldable pub set_global_rate : ℕ → IpRateLimiter → IpRateLimiter
unfolding each_shard with_rate
set_global_rate rps rl = record rl { rate = rps; shards = each_shard (with_rate rps) rl.shards }

-- `SetRate` of the limiter; what is not positive is left as it stands.
unfoldable pub set_rate : ℕ → ℕ → IpRateLimiter → IpRateLimiter
unfolding each_shard with_rate
set_rate rps burst rl = record rl {
  rate = if ltb 0 rps then rps else rl.rate;
  capacity = if ltb 0 burst then burst else rl.capacity;
  shards = if ltb 0 rps then each_shard (with_rate rps) rl.shards else rl.shards;
}

abbrev pub ten_minutes : ℕ
ten_minutes = 600 * unit

-- One tick of `cleanupLoop`.
unfoldable pub cleanup : ℕ → IpRateLimiter → IpRateLimiter
unfolding cleanup_upto last_seen
cleanup now rl = record rl {
  shards = (cleanup_upto (λ tb. not (ltb ten_minutes (now - last_seen tb))) num_shards rl.shards).0;
}

module _ (hash : Str → ℕ) where
  unfoldable pub bucket : ℕ → Str → IpRateLimiter → TokenBucket
  unfolding load new_token_bucket
  bucket now ip rl = value_or (new_token_bucket now rl.rate rl.capacity) (load hash ip rl.shards)

  -- `Allow` of the limiter.
  unfoldable pub allow_ip : ℕ → Str → IpRateLimiter → Bool × IpRateLimiter
  unfolding bucket allow store
  allow_ip now ip rl =
      let (allowed, tb) = allow now (bucket now ip rl) in
      (allowed, record rl { shards = store hash ip tb rl.shards })
