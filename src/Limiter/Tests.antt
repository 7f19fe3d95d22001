-- ===== src/Limiter/Tests.antt =====
-- Runs of the limiter, and the theorems at concrete inputs.
use mango_waf.Common.{ℕ, ◌+◌, ◌*◌, ◌≤◌, ◌≡◌, refl, List, [], ◌∷◌, arith}
use mango_waf.Common.Bytes.{Str, codes}
use mango_waf.Shards.{fnv32a}
use mango_waf.Limiter.{
  unit, TokenBucket, IpRateLimiter, allow, new_ip_rate_limiter, allow_ip, cleanup,
}
use mango_waf.Limiter.Bounds.{allowed}
use mango_waf.Limiter.Sharing.{times_of, span, allowed_for}
use mango_waf.Limiter.Sweeps.{
  Event, called, swept, calls_of, allowed_in, allowed_in-new_ip_rate_limiter,
}
use mango_waf.Limiter.Cleanup.{
  IsRegular, new_ip_rate_limiter-IsRegular, allow_ip-IsRegular, allowed_for-cleanup,
}

-- Two tokens a second, three at most.
abbrev small_bucket : TokenBucket
small_bucket = record { tokens = 3 * unit; capacity = 3 * unit; rate = 2; last_time = 5 }

abbrev instants : List ℕ
instants = 5 ∷ 6 ∷ 7 ∷ 8 ∷ 500000009 ∷ []

four_allowed : allowed instants small_bucket ≡ 4
unfolding allow
four_allowed = refl

abbrev first_ip : Str
first_ip = codes "10.0.0.1"

abbrev limiter : IpRateLimiter
limiter = new_ip_rate_limiter 2 3

-- Two calls of the first address, with a sweep of the other's idle bucket between them.
abbrev events : List Event
events =
    called first_ip 5
    ∷ called (codes "10.0.0.2") 6
    ∷ swept 700000000000
    ∷ called first_ip 700000000009
    ∷ []

allowed_in-new_ip_rate_limiter_example :
    allowed_in fnv32a first_ip events (new_ip_rate_limiter 2 3) * unit
    ≤ 3 * unit + span (times_of first_ip (calls_of events)) * 2
allowed_in-new_ip_rate_limiter_example =
    allowed_in-new_ip_rate_limiter fnv32a first_ip 2 3 events (omega arith)
      (omega arith, (omega arith, (omega arith, (omega arith, tt))))

abbrev used_limiter : IpRateLimiter
used_limiter = (allow_ip fnv32a 1 first_ip limiter).1

used_limiter-IsRegular : IsRegular fnv32a used_limiter
used_limiter-IsRegular =
    allow_ip-IsRegular fnv32a 1 first_ip limiter (new_ip_rate_limiter-IsRegular fnv32a 2 3)

abbrev late_calls : List (Str × ℕ)
late_calls = (first_ip, 600000000005) ∷ []

allowed_for-cleanup_example :
    allowed_for fnv32a first_ip late_calls (cleanup 600000000003 used_limiter)
    ≡ allowed_for fnv32a first_ip late_calls used_limiter
unfolding allow_ip new_ip_rate_limiter
allowed_for-cleanup_example =
    allowed_for-cleanup fnv32a first_ip 600000000003 used_limiter used_limiter-IsRegular
      (omega arith) late_calls (omega arith, tt)
