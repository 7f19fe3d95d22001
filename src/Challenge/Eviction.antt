-- ===== src/Challenge/Eviction.antt =====
-- challenge/challenge.go: the eviction of expired entries from the cache of verified addresses.
use mango_waf.Common.Dict.{Dict, Distinct, only_if, lookup, delete, retain, lookup-retain}
use mango_waf.Common.{
  ap, sym, ℕ, ◌≤◌, ◌≡◌, refl, ◌∙◌, Bool, not, false, Option, none, some, ltb, arith, Bool-cases,
  inl, inr,
}
use mango_waf.Common.Bytes.{Str}
use mango_waf.Challenge.{HttpRequest, Manager}
use mango_waf.Challenge.Proof.{
  evict, cookie_of, verify_cookie, verify_cached, verify_proof, is_signed,
}
use mango_waf.Challenge.Laws.{is_signed-cached}

module _ (hmac : Str → Str → Str) (now later : ℕ) (ip : Str) (r : HttpRequest) (m : Manager) where
  verify_cookie-cached :
      (cache : Dict ℕ) (o : Option (Str × Bool))
      → (verify_cookie hmac later ip o (record m { verified_ips = cache })).0
        ≡ (verify_cookie hmac later ip o m).0
  unfolding verify_cookie
  verify_cookie-cached cache none = refl
  verify_cookie-cached cache (some (value, is_proof)) =
      let same = is_signed-cached hmac later value m cache in
      elim (Bool-cases (is_signed hmac later m value)) [
        | inl b ↦ ground (arith, same, b)
        | inr b ↦ ground (arith, same, b)
      ]

  verify_cached-evict :
      (o : Option ℕ)
      → now ≤ later
      → (verify_cached hmac later r ip (evict now m) (only_if (λ exp. not (ltb exp now)) o)).0
        ≡ (verify_cached hmac later r ip m o).0
  unfolding verify_cached evict
  verify_cached-evict none le = verify_cookie-cached (evict now m).verified_ips (cookie_of r)
  verify_cached-evict (some exp) le =
      let evicted = retain (λ exp. not (ltb exp now)) m.verified_ips in
      let first = verify_cookie-cached evicted (cookie_of r) in
      let deleted = verify_cookie-cached (delete ip m.verified_ips) (cookie_of r) in
      let both = verify_cookie-cached (delete ip evicted) (cookie_of r) in
      elim (Bool-cases (ltb exp now)) [
        | inl b ↦
            let past : ltb later exp ≡ false = ground (arith, b, le) in
            rw (b, past) (first ∙ sym deleted)
        | inr b ↦ elim (Bool-cases (ltb later exp)) [
          | inl l ↦ rw (b, l) refl
          | inr l ↦ rw (b, l) (both ∙ sym deleted)
        ]
      ]

  -- What is evicted at a time is not missed at a later one.
  pub verify_proof-evict :
      Distinct m.verified_ips
      → now ≤ later
      → (verify_proof hmac later r ip (evict now m)).0 ≡ (verify_proof hmac later r ip m).0
  unfolding verify_proof evict
  verify_proof-evict d le =
      ap (λ o. (verify_cached hmac later r ip (evict now m) o).0)
        (lookup-retain ip (λ exp. not (ltb exp now)) m.verified_ips d)
      ∙ verify_cached-evict (lookup ip m.verified_ips) le
