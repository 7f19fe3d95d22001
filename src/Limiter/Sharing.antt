-- ===== src/Limiter/Sharing.antt =====
-- perf/pool.go: the limiter of all addresses set beside a bucket for each alone.
use mango_waf.Common.{
  ◌&&◌, ℕ, zero, ◌+◌, ◌-◌, ◌*◌, ◌≤◌, ◌<◌, ◌≡◌, refl, ap, sym, ◌∙◌, Bool, true, false, not, Option,
  none, some, List, [], ◌∷◌, ltb, leb, if◌then◌else◌, value_or, arith, Bool-cases, inl, inr,
}
use mango_waf.Common.Bytes.{str_eq→≡, Str, str_eq}
use mango_waf.Shards.{load, store, new_sharded}
use mango_waf.Shards.Laws.{load-store}
use mango_waf.Limiter.{
  unit, TokenBucket, IpRateLimiter, new_token_bucket, allow, new_ip_rate_limiter, bucket, allow_ip,
}
use mango_waf.Limiter.Bounds.{allowed, last_of, Ordered, allowed_le}

-- The times at which an address calls.
abbrev pub times_of : Str → List (Str × ℕ) → List ℕ
times_of ip [] = []
times_of ip ((j, t) ∷ calls) =
    let rest = times_of ip calls in if str_eq j ip then t ∷ rest else rest

-- The calls of one address alone, on its bucket or on a new one.
abbrev pub allowed_alone : ℕ → ℕ → Option TokenBucket → List ℕ → ℕ
allowed_alone rate capacity o [] = 0
allowed_alone rate capacity o (t ∷ times) =
    allowed (t ∷ times) (value_or (new_token_bucket t rate capacity) o)

abbrev pub span : List ℕ → ℕ
span [] = 0
span (t ∷ times) = last_of t times - t

abbrev pub OrderedCalls : ℕ → List (Str × ℕ) → Type 0
OrderedCalls t [] = Unit
OrderedCalls t ((j, u) ∷ calls) = (t ≤ u) × OrderedCalls u calls

allowed_alone-some :
    (rate capacity : ℕ) (tb : TokenBucket) (times : List ℕ)
    → allowed_alone rate capacity (some tb) times ≡ allowed times tb
allowed_alone-some rate capacity tb [] = refl
allowed_alone-some rate capacity tb (t ∷ times) = refl

Ordered-earlier : (s t : ℕ) (times : List ℕ) → s ≤ t → Ordered t times → Ordered s times
Ordered-earlier s t [] le o = tt
Ordered-earlier s t (u ∷ times) le (more, o) = (omega (arith, le, more), o)

pub times_of-Ordered :
    (ip : Str) (start : ℕ) (calls : List (Str × ℕ))
    → OrderedCalls start calls
    → Ordered start (times_of ip calls)
times_of-Ordered ip start [] o = tt
times_of-Ordered ip start ((j, t) ∷ calls) (le, o) =
    let rest = times_of-Ordered ip t calls o in
    elim (Bool-cases (str_eq j ip)) [
      | inl b ↦ rw b (le, rest)
      | inr b ↦ rw b (Ordered-earlier start t (times_of ip calls) le rest)
    ]

-- A new bucket holds its capacity.
allowed-alone_le :
    (rate capacity : ℕ) (times : List ℕ)
    → Ordered 0 times
    → allowed_alone rate capacity none times * unit ≤ capacity * unit + span times * rate
unfolding new_token_bucket
allowed-alone_le rate capacity [] o = omega arith
allowed-alone_le rate capacity (t ∷ times) (le, o) =
    allowed_le (t ∷ times) (new_token_bucket t rate capacity) (omega arith, o)

module _ (hash : Str → ℕ) (ip : Str) where
  -- The number of an address's calls that the limiter allows in a run of calls of all addresses.
  abbrev pub allowed_for : List (Str × ℕ) → IpRateLimiter → ℕ
  allowed_for [] rl = 0
  allowed_for ((j, t) ∷ calls) rl =
      let (ok, next) = allow_ip hash t j rl in
      let rest = allowed_for calls next in if str_eq j ip && ok then rest + 1 else rest

  -- The calls of the others do not count: an address is allowed as often as if it were alone.
  pub allowed_for-alone :
      (calls : List (Str × ℕ)) (rl : IpRateLimiter)
      → allowed_for calls rl
        ≡ allowed_alone rl.rate rl.capacity (load hash ip rl.shards) (times_of ip calls)
  unfolding allow_ip bucket
  allowed_for-alone [] rl = refl
  allowed_for-alone ((j, t) ∷ calls) rl =
      let tb = (allow t (bucket hash t j rl)).1 in
      let shards = store hash j tb rl.shards in
      let later = allowed_for-alone calls (record rl { shards = shards }) in
      let found = load-store hash ip j tb rl.shards in
      elim (Bool-cases (str_eq j ip)) [
        | inl b ↦
            let own = found ∙ ap (λ c. if c then some tb else load hash ip rl.shards) b in
            let count =
              later
              ∙ ap (λ o. allowed_alone rl.rate rl.capacity o (times_of ip calls)) own
              ∙ allowed_alone-some rl.rate rl.capacity tb (times_of ip calls) in
            let same : bucket hash t j rl ≡ bucket hash t ip rl =
              ap (λ k. bucket hash t k rl) (str_eq→≡ j ip b) in
            rw (b, count, same) refl
        | inr b ↦
            let other = found ∙ ap (λ c. if c then some tb else load hash ip rl.shards) b in
            rw b (later ∙ ap (λ o. allowed_alone rl.rate rl.capacity o (times_of ip calls)) other)
      ]

  -- In a run of Allow calls on a new limiter, with no sweep of the idle buckets and no change of the rate between
  -- them, an address is allowed at most the burst and what is refilled between its first and its last call.
  pub allowed_for-new_ip_rate_limiter :
      (rps burst : ℕ) (calls : List (Str × ℕ))
      → OrderedCalls 0 calls
      → allowed_for calls (new_ip_rate_limiter rps burst) * unit
        ≤ burst * unit + span (times_of ip calls) * rps
  unfolding new_ip_rate_limiter new_sharded load mango_waf.Common.Dict.lookup
  allowed_for-new_ip_rate_limiter rps burst calls o =
      let bound = allowed-alone_le rps burst (times_of ip calls) (times_of-Ordered ip 0 calls o) in
      let alone = allowed_for-alone calls (new_ip_rate_limiter rps burst) in
      ground (arith, bound, alone)
