-- ===== src/Limiter/Cleanup.antt =====
-- perf/pool.go: the sweep of idle buckets, and the change of the rate.
use native.Mathlib.Nat.{mul-le-mul_right}
use mango_waf.Common.{
  lt→ltb, Option-cases, ℕ, zero, ◌+◌, ◌-◌, ◌*◌, ◌≤◌, ◌<◌, ◌≡◌, refl, ap, sym, ◌∙◌, Bool, true,
  false, not, Option, none, some, List, [], ◌∷◌, ltb, leb, if◌then◌else◌, value_or, arith,
  Bool-cases, inl, inr, suc, ◌++◌, ◌&&◌, ◌||◌, ◌==◌, length, ◌≢◌, ◌↔◌, ◌⊎◌,
}
use mango_waf.Common.Bytes.{str_eq, Str, str_eq_iff}
use mango_waf.Common.Dict.{Dict, lookup, only_if}
use mango_waf.Shards.Sweep.{load-cleanup_upto, get_shard-lt}
use mango_waf.Shards.{get_shard, new_sharded, load, num_shards}
use mango_waf.Shards.Laws.{new_sharded-IsPlaced, store-IsPlaced, load-store, IsPlaced}
use mango_waf.Limiter.{
  each, each_shard, set_rate, with_rate, new_sharded, new_ip_rate_limiter, unit, ten_minutes,
  last_seen, TokenBucket, IpRateLimiter, new_token_bucket, refilled, allow_n, allow, bucket,
  allow_ip, cleanup,
}
use mango_waf.Limiter.Bounds.{call, Ordered}
use mango_waf.Limiter.Sharing.{
  times_of, allowed_alone, allowed_for, allowed_for-alone, OrderedCalls, times_of-Ordered,
}

allow_full :
    (t rate capacity : ℕ) (tb : TokenBucket)
    → tb.rate ≡ rate
    → tb.capacity ≡ capacity * unit
    → tb.capacity ≤ (t - tb.last_time) * tb.rate
    → allow t tb ≡ allow t (new_token_bucket t rate capacity)
unfolding allow allow_n refilled new_token_bucket
allow_full t rate capacity tb r c full = ground (arith, r, c, full)

allowed_alone_full :
    (now rate capacity : ℕ) (tb : TokenBucket) (times : List ℕ)
    → tb.rate ≡ rate
    → tb.capacity ≡ capacity * unit
    → tb.capacity ≤ (now - tb.last_time) * tb.rate
    → Ordered now times
    → allowed_alone rate capacity none times ≡ allowed_alone rate capacity (some tb) times
allowed_alone_full now rate capacity tb [] r c full o = refl
allowed_alone_full now rate capacity tb (t ∷ times) r c full (le, o) =
    let longer : now - tb.last_time ≤ t - tb.last_time = omega (arith, le) in
    let grown = mul-le-mul_right tb.rate longer in
    let same = allow_full t rate capacity tb r c (omega (arith, full, grown)) in rw same refl

-- Every bucket has the limiter's rate and capacity, and stands in its shard.
pub record IsRegular (hash : Str → ℕ) (rl : IpRateLimiter) : Type 0 where
  pub is_placed : IsPlaced hash rl.shards
  pub rate : (ip : Str) (tb : TokenBucket) → load hash ip rl.shards ≡ some tb → tb.rate ≡ rl.rate
  pub capacity :
      (ip : Str) (tb : TokenBucket)
      → load hash ip rl.shards ≡ some tb
      → tb.capacity ≡ rl.capacity * unit

pub new_ip_rate_limiter-IsRegular :
    (hash : Str → ℕ) (rps burst : ℕ) → IsRegular hash (new_ip_rate_limiter rps burst)
unfolding new_ip_rate_limiter new_sharded load mango_waf.Common.Dict.lookup
new_ip_rate_limiter-IsRegular hash rps burst = record {
  is_placed = new_sharded-IsPlaced hash;
  rate = λ ip tb h. cc h;
  capacity = λ ip tb h. cc h;
}

bucket_like :
    (hash : Str → ℕ) (now : ℕ) (ip : Str) (rl : IpRateLimiter)
    → IsRegular hash rl
    → ((bucket hash now ip rl).rate ≡ rl.rate)
      × ((bucket hash now ip rl).capacity ≡ rl.capacity * unit)
unfolding bucket new_token_bucket
bucket_like hash now ip rl h = elim (Option-cases (load hash ip rl.shards)) [
  | inl e ↦ rw e (refl, refl)
  | inr (tb, e) ↦ rw e (h.rate ip tb e, h.capacity ip tb e)
]

pub allow_ip-IsRegular :
    (hash : Str → ℕ) (now : ℕ) (ip : Str) (rl : IpRateLimiter)
    → IsRegular hash rl
    → IsRegular hash (allow_ip hash now ip rl).1
unfolding allow_ip
allow_ip-IsRegular hash now ip rl h =
    let tb = (allow now (bucket hash now ip rl)).1 in
    let like = bucket_like hash now ip rl h in
    let same = call now (bucket hash now ip rl) in
    record {
      is_placed = store-IsPlaced hash ip tb rl.shards h.is_placed;
      rate = λ j b found. ground (
        arith,
        str_eq_iff ip j,
        load-store hash j ip tb rl.shards,
        found,
        same.rate,
        like.0,
        h.rate j b,
      );
      capacity = λ j b found. ground (
        arith,
        str_eq_iff ip j,
        load-store hash j ip tb rl.shards,
        found,
        same.capacity,
        like.1,
        h.capacity j b,
      );
    }

module _ (hash : Str → ℕ) (ip : Str) (now : ℕ) (rl : IpRateLimiter) (h : IsRegular hash rl)
    (enough : rl.capacity ≤ 600 * rl.rate) where
  pub load-cleanup :
      load hash ip (cleanup now rl).shards
      ≡ only_if (λ tb. not (ltb ten_minutes (now - last_seen tb))) (load hash ip rl.shards)
  unfolding cleanup
  load-cleanup =
      load-cleanup_upto hash rl.shards h.is_placed
        (λ tb. not (ltb ten_minutes (now - last_seen tb))) num_shards ip (get_shard-lt hash ip)

  idle :
      (tb : TokenBucket)
      → load hash ip rl.shards ≡ some tb
      → ltb ten_minutes (now - tb.last_time) ≡ true
      → tb.capacity ≤ (now - tb.last_time) * tb.rate
  idle tb found b =
      let r = h.rate ip tb found in
      let c = h.capacity ip tb found in
      let long : ten_minutes ≤ now - tb.last_time = ground (arith, b) in
      let grown = mul-le-mul_right rl.rate long in rw (r, c) (omega (arith, grown, enough))

  kept_alone :
      (times : List ℕ)
      → Ordered now times
      → allowed_alone rl.rate rl.capacity
          (only_if (λ tb. not (ltb ten_minutes (now - last_seen tb))) (load hash ip rl.shards))
          times
        ≡ allowed_alone rl.rate rl.capacity (load hash ip rl.shards) times
  unfolding last_seen
  kept_alone times o = elim (Option-cases (load hash ip rl.shards)) [
    | inl e ↦ rw e refl
    | inr (tb, e) ↦ elim (Bool-cases (ltb ten_minutes (now - tb.last_time))) [
      | inl b ↦
          let full = idle tb e b in
          rw (e, b)
            (allowed_alone_full now rl.rate rl.capacity tb times (h.rate ip tb e)
              (h.capacity ip tb e) full o)
      | inr b ↦ rw (e, b) refl
    ]
  ]

  -- The sweep of the buckets that were idle for ten minutes is not seen by any later run of calls, where
  -- ten minutes fill a bucket and every bucket has the rate and the capacity of the limiter, as from a new
  -- limiter on until SetRate changes them.
  pub allowed_for-cleanup :
      (calls : List (Str × ℕ))
      → OrderedCalls now calls
      → allowed_for hash ip calls (cleanup now rl) ≡ allowed_for hash ip calls rl
  unfolding cleanup
  allowed_for-cleanup calls o =
      let times = times_of ip calls in
      allowed_for-alone hash ip calls (cleanup now rl)
      ∙ ap (λ o. allowed_alone rl.rate rl.capacity o times) load-cleanup
      ∙ kept_alone times (times_of-Ordered ip now calls o)
      ∙ sym (allowed_for-alone hash ip calls rl)

abbrev pub changed : {V : Type 0} → (V → V) → Option V → Option V
changed f none = none
changed f (some v) = some (f v)

lookup-each :
    {V : Type 0} (f : V → V) (k : Str) (m : Dict V) → lookup k (each f m) ≡ changed f (lookup k m)
unfolding lookup each
lookup-each f k [] = refl
lookup-each f k ((j, v) ∷ m) = elim (Bool-cases (str_eq j k)) [
  | inl b ↦ rw b refl
  | inr b ↦ rw b (lookup-each f k m)
]

-- `SetRate` with a positive rate and burst: the buckets that stand get the rate and keep their capacity, and
-- only a new bucket gets both.
pub bucket-set_rate :
    (hash : Str → ℕ) (now rps burst : ℕ) (ip : Str) (rl : IpRateLimiter)
    → 0 < rps
    → 0 < burst
    → bucket hash now ip (set_rate rps burst rl)
      ≡ value_or
          (new_token_bucket now rps burst)
          (changed (λ tb. record tb { rate = rps }) (load hash ip rl.shards))
unfolding bucket set_rate load each_shard with_rate
bucket-set_rate hash now rps burst ip rl p q =
    let each =
      lookup-each (λ (tb : TokenBucket). record tb { rate = rps }) ip
        (rl.shards.shard (get_shard hash ip)) in
    rw (lt→ltb 0 rps p, lt→ltb 0 burst q) (rw each refl)
