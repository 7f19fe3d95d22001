-- ===== src/Challenge/Sound.antt =====
-- challenge/challenge.go: why `VerifyProof` accepts, and what the eviction of the cache changes.
use mango_waf.Common.Dict.{Dict, lookup, delete}
use mango_waf.Common.{
  if◌then◌else◌, ap, sym, ℕ, ◌<◌, ◌≡◌, ◌⊎◌, refl, ◌∙◌, Bool, true, ◌&&◌, Option, none, some, ◌∷◌,
  ◌++◌, ltb, ltb→lt, arith, Option-cases, Bool-cases, inl, inr,
}
use mango_waf.Common.Bytes.{Str, str_eq, str_eq→≡}
use mango_waf.Challenge.{Bool, Bool, Bool, Bool, Bool, Bool, HttpRequest, Manager, ttl}
use mango_waf.Challenge.Proof.{
  cookie_of, verify_cookie, verify_cached, is_signed_payload, verify_proof, split_two, is_current,
  is_signed,
}
use mango_waf.Challenge.Laws.{split_two-some}

module _ (hmac : Str → Str → Str) (now : ℕ) where
  -- The address is in the cache until a later time.
  pub record IsCached (ip : Str) (m : Manager) : Type 0 where
    pub until : ℕ
    pub found : lookup ip m.verified_ips ≡ some until
    pub fresh : now < until

  -- The request carries a payload with the HMAC of it under the manager's secret, and the payload has not
  -- expired.
  pub record IsAuthentic (r : HttpRequest) (m : Manager) : Type 0 where
    pub payload : Str
    pub is_proof : Bool
    pub carried : cookie_of r ≡ some (payload ++ b'|' ∷ hmac m.secret payload, is_proof)
    pub current : is_current now (ttl m) payload ≡ true

  signed_parts :
      (m : Manager) (value : Str)
      → is_signed hmac now m value ≡ true
      → (payload : Str) × (value ≡ payload ++ b'|' ∷ hmac m.secret payload)
        × (is_current now (ttl m) payload ≡ true)
  unfolding is_signed is_signed_payload
  signed_parts m value h = elim (Option-cases (split_two b'|' value)) [
    | inl e ↦ cc (ap (is_signed_payload hmac now m) e, h)
    | inr (p, e) ↦
        let both : (str_eq p.1 (hmac m.secret p.0) && is_current now (ttl m) p.0) ≡ true =
          sym (ap (is_signed_payload hmac now m) e) ∙ h in
        let same = str_eq→≡ p.1 (hmac m.secret p.0) (ground (arith, both)) in
        (p.0, split_two-some b'|' value p e ∙ ap (λ s. p.0 ++ b'|' ∷ s) same, ground (arith, both))
  ]

  verify_cookie-signed_only :
      (ip value : Str) (is_proof : Bool) (m : Manager)
      → (verify_cookie hmac now ip (some (value, is_proof)) m).0 ≡ true
      → is_signed hmac now m value ≡ true
  unfolding verify_cookie
  verify_cookie-signed_only ip value is_proof m h = elim (Bool-cases (is_signed hmac now m value)) [
    | inl b ↦ b
    | inr b ↦ ground (arith, b, h)
  ]

  verify_cookie-true :
      (ip : Str) (r : HttpRequest) (m : Manager)
      → (verify_cookie hmac now ip (cookie_of r) m).0 ≡ true
      → IsAuthentic r m
  unfolding verify_cookie
  verify_cookie-true ip r m h = elim (Option-cases (cookie_of r)) [
    | inl e ↦ cc (ap (λ o. (verify_cookie hmac now ip o m).0) e, h)
    | inr ((value, is_proof), e) ↦
        let ok = sym (ap (λ o. (verify_cookie hmac now ip o m).0) e) ∙ h in
        let (payload, whole, current) =
          signed_parts m value (verify_cookie-signed_only ip value is_proof m ok) in
        record {
          payload = payload;
          is_proof = is_proof;
          carried = e ∙ ap (λ v. some (v, is_proof)) whole;
          current = current;
        }
  ]

  uncached :
      (r : HttpRequest) (m : Manager) (cache : Dict ℕ)
      → IsAuthentic r (record m { verified_ips = cache })
      → IsAuthentic r m
  unfolding ttl
  uncached r m cache a = record {
    payload = a.payload;
    is_proof = a.is_proof;
    carried = a.carried;
    current = a.current;
  }

  verify_cached-true :
      (r : HttpRequest) (ip : Str) (m : Manager) (o : Option ℕ)
      → lookup ip m.verified_ips ≡ o
      → (verify_cached hmac now r ip m o).0 ≡ true
      → IsCached ip m ⊎ IsAuthentic r m
  unfolding verify_cached
  verify_cached-true r ip m none e h = inr (verify_cookie-true ip r m h)
  verify_cached-true r ip m (some exp) e h = elim (Bool-cases (ltb now exp)) [
    | inl b ↦ inl (record { until = exp; found = e; fresh = ltb→lt now exp b })
    | inr b ↦
        let cache = delete ip m.verified_ips in
        let kept = record m { verified_ips = cache } in
        let ok : (verify_cookie hmac now ip (cookie_of r) kept).0 ≡ true =
          sym
            (ap (λ c. (if c then (true, m) else verify_cookie hmac now ip (cookie_of r) kept).0) b)
          ∙ h in
        inr (uncached r m cache (verify_cookie-true ip r kept ok))
  ]

  -- A request is let through only where its address is cached or it carries an authentic cookie.
  pub verify_proof-true :
      (r : HttpRequest) (ip : Str) (m : Manager)
      → (verify_proof hmac now r ip m).0 ≡ true
      → IsCached ip m ⊎ IsAuthentic r m
  unfolding verify_proof
  verify_proof-true r ip m h = verify_cached-true r ip m (lookup ip m.verified_ips) refl h
