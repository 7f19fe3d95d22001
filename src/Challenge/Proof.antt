-- ===== src/Challenge/Proof.antt =====
-- challenge/challenge.go: `VerifyProof`, the cookies it reads and the eviction of the cache.
use mango_waf.Common.{
  ℕ, suc, zero, ◌+◌, ◌-◌, ◌*◌, ◌/◌, ◌^◌, Bool, true, false, not, ◌&&◌, ◌||◌, Option, none, some, [],
  ◌∷◌, ◌++◌, ltb, leb, if◌then◌else◌, drop, ◌==◌,
}
use mango_waf.Common.Int.{ℤ, pos, negsuc, sub_ℕ}
use mango_waf.Common.Bytes.{Str, codes, str_eq, last_index_byte}
use mango_waf.Common.Dict.{lookup, insert, delete, retain}
use mango_waf.Common.Decimal.{print_nat, parse_int, number, bad_syntax, out_of_range}
use mango_waf.Challenge.{second, Manager, HttpRequest, Cookie, ttl}

-- One round of `startEvictionWorker`.
unfoldable pub evict : ℕ → Manager → Manager
unfolding retain
evict now m = record m { verified_ips = retain (λ exp. not (ltb exp now)) m.verified_ips }

-- `strings.SplitN(s, sep, 2)` where it has two parts.
unfoldable pub split_two : ℕ → Str → Option (Str × Str)
split_two sep [] = none
split_two sep (c ∷ s) =
    if c == sep
    then some ([], s)
    else (elim (split_two sep s) [ none ↦ none | some (a, b) ↦ some (c ∷ a, b) ])

abbrev pub nonempty : Option Str → Option Str
nonempty none = none
nonempty (some []) = none
nonempty (some (c ∷ s)) = some (c ∷ s)

-- The value of the proof cookie and `true`, else that of the session cookie and `false`.
unfoldable pub cookie_of : HttpRequest → Option (Str × Bool)
cookie_of r = elim (nonempty (r.cookie (codes "mango_proof"))) [
  | some v ↦ some (v, true)
  | none ↦ elim (nonempty (r.cookie (codes "mango_session"))) [
    | some v ↦ some (v, false)
    | none ↦ none
  ]
]

-- `time.Since(time.Unix(ts, 0)) > ttl`. The last seconds of 64 bits wrap around to a time long ago, since
-- `time.Unix` counts from the year 1.
unfoldable pub is_expired : ℕ → ℕ → ℤ → Bool
is_expired now ttl (pos ts) = leb (2 ^ 63 - 62135596800) ts || ltb (ts * second + ttl) now
is_expired now ttl (negsuc k) = ltb ttl (now + suc k * second)

-- The expiry of a payload: a time stamp that is no number is let through.
unfoldable pub is_current : ℕ → ℕ → Str → Bool
unfolding is_expired parse_int
is_current now ttl payload = elim (last_index_byte b'_' payload) [
  | none ↦ false
  | some zero ↦ false
  | some (suc i) ↦ elim (parse_int (drop (suc (suc i)) payload)) [
    | number ts ↦ not (is_expired now ttl ts)
    | bad_syntax ↦ true
    | out_of_range z ↦ true
  ]
]

abbrev pub payload_of : ℕ → Str → Str
payload_of now ip = ip ++ b'_' ∷ print_nat (now / second)

-- `int(CookieTTL.Seconds())`
abbrev pub max_age : ℤ → ℤ
max_age (pos n) = pos (n / second)
max_age (negsuc n) = sub_ℕ 0 (suc n / second)

module _ (hmac : Str → Str → Str) where
  -- The checks of a cookie's value, once it is split.
  unfoldable pub is_signed_payload : ℕ → Manager → Option (Str × Str) → Bool
  unfolding is_current ttl
  is_signed_payload now m none = false
  is_signed_payload now m (some (payload, sig)) =
      str_eq sig (hmac m.secret payload) && is_current now (ttl m) payload

  unfoldable pub is_signed : ℕ → Manager → Str → Bool
  unfolding split_two is_signed_payload
  is_signed now m value = is_signed_payload now m (split_two b'|' value)

  unfoldable pub verify_cookie : ℕ → Str → Option (Str × Bool) → Manager → Bool × Manager
  unfolding is_signed insert ttl
  verify_cookie now ip none m = (false, m)
  verify_cookie now ip (some (value, is_proof)) m =
      if is_signed now m value
      then (
        true,
        if is_proof then record m { verified_ips = insert ip (now + ttl m) m.verified_ips } else m,
      )
      else (false, m)

  -- `VerifyProof` for what the cache answers of the address.
  unfoldable pub verify_cached : ℕ → HttpRequest → Str → Manager → Option ℕ → Bool × Manager
  unfolding verify_cookie cookie_of delete
  verify_cached now r ip m none = verify_cookie now ip (cookie_of r) m
  verify_cached now r ip m (some exp) =
      if ltb now exp
      then (true, m)
      else verify_cookie now ip (cookie_of r) (record m { verified_ips = delete ip m.verified_ips })

  unfoldable pub verify_proof : ℕ → HttpRequest → Str → Manager → Bool × Manager
  unfolding verify_cached lookup
  verify_proof now r ip m = verify_cached now r ip m (lookup ip m.verified_ips)

  unfoldable pub cookie_with_name : ℕ → Str → Str → Manager → Cookie
  unfolding print_nat
  cookie_with_name now ip name m = record {
    name = name;
    value = payload_of now ip ++ b'|' ∷ hmac m.secret (payload_of now ip);
    max_age = max_age m.cfg.cookie_ttl;
  }

  unfoldable pub set_proof_cookie : ℕ → Str → Manager → Cookie × Manager
  unfolding cookie_with_name insert ttl
  set_proof_cookie now ip m = (
    cookie_with_name now ip (codes "mango_proof") m,
    record m { verified_ips = insert ip (now + ttl m) m.verified_ips },
  )

  unfoldable pub set_session_cookie : ℕ → Str → Manager → Cookie × Manager
  unfolding cookie_with_name
  set_session_cookie now ip m = (cookie_with_name now ip (codes "mango_session") m, m)
