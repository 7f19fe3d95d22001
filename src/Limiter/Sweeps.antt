-- ===== src/Limiter/Sweeps.antt =====
-- perf/pool.go: the limiter over runs in which its loop sweeps the idle buckets between the calls.
use mango_waf.Common.{
  ℕ, ◌+◌, ◌*◌, ◌≤◌, ◌≡◌, refl, ap, sym, ◌∙◌, Bool, not, ◌&&◌, Option, none, some, List, [], ◌∷◌,
  ltb, if◌then◌else◌, subst, arith, inl, inr, Bool-cases, ◌-◌,
}
use mango_waf.Common.Bytes.{Str, str_eq}
use mango_waf.Common.Dict.{only_if}
use mango_waf.Shards.{load, num_shards}
use mango_waf.Shards.Sweep.{cleanup_upto-IsPlaced}
use mango_waf.Limiter.{
  unit, ten_minutes, last_seen, TokenBucket, IpRateLimiter, new_ip_rate_limiter, allow_ip, cleanup,
}
use mango_waf.Limiter.Sharing.{
  times_of, span, allowed_for, OrderedCalls, allowed_for-new_ip_rate_limiter,
}
use mango_waf.Limiter.Cleanup.{
  IsRegular, new_ip_rate_limiter-IsRegular, allow_ip-IsRegular, load-cleanup, allowed_for-cleanup,
}

-- A call of `Allow` by an address, and a tick of `cleanupLoop`.
pub data Event : Type 0 where
  called : Str → ℕ → Event
  swept : ℕ → Event

abbrev pub calls_of : List Event → List (Str × ℕ)
calls_of [] = []
calls_of (called j t ∷ events) = (j, t) ∷ calls_of events
calls_of (swept t ∷ events) = calls_of events

abbrev pub OrderedEvents : ℕ → List Event → Type 0
OrderedEvents t [] = Unit
OrderedEvents t (called j u ∷ events) = (t ≤ u) × OrderedEvents u events
OrderedEvents t (swept u ∷ events) = (t ≤ u) × OrderedEvents u events

OrderedCalls-earlier :
    (s t : ℕ) (calls : List (Str × ℕ)) → s ≤ t → OrderedCalls t calls → OrderedCalls s calls
OrderedCalls-earlier s t [] le o = tt
OrderedCalls-earlier s t ((j, u) ∷ calls) le (more, o) = (omega (arith, le, more), o)

calls_of-Ordered :
    (t : ℕ) (events : List Event) → OrderedEvents t events → OrderedCalls t (calls_of events)
calls_of-Ordered t [] o = tt
calls_of-Ordered t (called j u ∷ events) (le, o) = (le, calls_of-Ordered u events o)
calls_of-Ordered t (swept u ∷ events) (le, o) =
    OrderedCalls-earlier t u (calls_of events) le (calls_of-Ordered u events o)

only_if-some :
    {V : Type 0} (p : V → Bool) (o : Option V) (v : V) → only_if p o ≡ some v → o ≡ some v
only_if-some p none v h = h
only_if-some p (some w) v h = elim (Bool-cases (p w)) [
  | inl b ↦ subst (λ c. (if c then some w else none) ≡ some v) b h
  | inr b ↦ absurd (cc (subst (λ c. (if c then some w else none) ≡ some v) b h))
]

cleanup-IsRegular :
    (hash : Str → ℕ) (now : ℕ) (rl : IpRateLimiter)
    → IsRegular hash rl
    → rl.capacity ≤ 600 * rl.rate
    → IsRegular hash (cleanup now rl)
unfolding cleanup
cleanup-IsRegular hash now rl h enough =
    let kept = λ (tb : TokenBucket). not (ltb ten_minutes (now - last_seen tb)) in
    let before =
      λ (j : Str) (tb : TokenBucket) (found : load hash j (cleanup now rl).shards ≡ some tb).
        only_if-some kept (load hash j rl.shards) tb
          (sym (load-cleanup hash j now rl h enough) ∙ found) in
    record {
      is_placed = cleanup_upto-IsPlaced hash rl.shards h.is_placed kept num_shards;
      rate = λ j tb found. h.rate j tb (before j tb found);
      capacity = λ j tb found. h.capacity j tb (before j tb found);
    }

module _ (hash : Str → ℕ) (ip : Str) where
  -- The number of an address's calls that the limiter allows in a run of calls and sweeps.
  abbrev pub allowed_in : List Event → IpRateLimiter → ℕ
  allowed_in [] rl = 0
  allowed_in (called j t ∷ events) rl =
      let (ok, next) = allow_ip hash t j rl in
      let rest = allowed_in events next in if str_eq j ip && ok then rest + 1 else rest
  allowed_in (swept t ∷ events) rl = allowed_in events (cleanup t rl)

  allowed_in-unswept :
      (start : ℕ) (events : List Event) (rl : IpRateLimiter)
      → IsRegular hash rl
      → rl.capacity ≤ 600 * rl.rate
      → OrderedEvents start events
      → allowed_in events rl ≡ allowed_for hash ip (calls_of events) rl
  unfolding allow_ip cleanup
  allowed_in-unswept start [] rl h enough o = refl
  allowed_in-unswept start (called j t ∷ events) rl h enough (le, o) =
      let next = (allow_ip hash t j rl).1 in
      let ok = (allow_ip hash t j rl).0 in
      ap (λ (n : ℕ). if str_eq j ip && ok then n + 1 else n)
        (allowed_in-unswept t events next (allow_ip-IsRegular hash t j rl h) enough o)
  allowed_in-unswept start (swept t ∷ events) rl h enough (le, o) =
      allowed_in-unswept t events (cleanup t rl) (cleanup-IsRegular hash t rl h enough) enough o
      ∙ allowed_for-cleanup hash ip t rl h enough (calls_of events) (calls_of-Ordered t events o)

  -- From a new limiter on, whatever the other addresses call and however often the loop sweeps the idle buckets
  -- between the calls, an address is allowed at most the burst and what is refilled between its first and
  -- its last call, where ten minutes fill a bucket and SetRate does not change the rate.
  pub allowed_in-new_ip_rate_limiter :
      (rps burst : ℕ) (events : List Event)
      → burst ≤ 600 * rps
      → OrderedEvents 0 events
      → allowed_in events (new_ip_rate_limiter rps burst) * unit
        ≤ burst * unit + span (times_of ip (calls_of events)) * rps
  unfolding new_ip_rate_limiter
  allowed_in-new_ip_rate_limiter rps burst events enough o =
      let rl = new_ip_rate_limiter rps burst in
      let same =
        allowed_in-unswept 0 events rl (new_ip_rate_limiter-IsRegular hash rps burst) enough o in
      subst (λ n. n * unit ≤ burst * unit + span (times_of ip (calls_of events)) * rps) (sym same)
        (allowed_for-new_ip_rate_limiter hash ip rps burst (calls_of events)
          (calls_of-Ordered 0 events o))
