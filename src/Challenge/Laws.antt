-- ===== src/Challenge/Laws.antt =====
-- challenge/challenge.go: what `VerifyProof` accepts, and what it keeps.
use mango_waf.Common.Decimal.Roundtrip.{has_byte-print_nat, parse_int-print_nat}
use mango_waf.Common.Dict.{Dict, lookup, insert, delete, lookup-insert}
use mango_waf.Common.{
  Bool, Option, ltb, Bool-cases, if◌then◌else◌, ap, ℕ, suc, ◌+◌, ◌-◌, ◌*◌, ◌/◌, ◌^◌, ◌≤◌, ◌<◌, ◌≡◌,
  refl, ◌∙◌, true, false, ◌||◌, none, some, [], ◌∷◌, ◌++◌, length, drop, arith, Option-cases, inl,
  inr,
}
use mango_waf.Common.Bytes.{Str, codes, is_empty, str_eq_refl, last_index_byte, has_byte}
use mango_waf.Common.Decimal.{print_nat}
use mango_waf.Challenge.{HttpRequest, second, Manager, ttl}
use mango_waf.Challenge.Proof.{
  set_session_cookie, cookie_of, verify_cookie, verify_cached, is_signed_payload, verify_proof,
  split_two, is_expired, is_current, is_signed, payload_of, cookie_with_name,
}

split_two-append :
    (sep : ℕ) (s t : Str) → has_byte sep s ≡ false → split_two sep (s ++ sep ∷ t) ≡ some (s, t)
unfolding split_two has_byte
split_two-append sep [] t h = ground arith
split_two-append sep (c ∷ s) t h = ground (arith, h, split_two-append sep s t)

last_index_byte-none : (c : ℕ) (s : Str) → has_byte c s ≡ false → last_index_byte c s ≡ none
unfolding last_index_byte has_byte
last_index_byte-none c [] h = refl
last_index_byte-none c (a ∷ s) h = ground (arith, h, last_index_byte-none c s)

last_index_byte-append :
    (c : ℕ) (s t : Str) → has_byte c t ≡ false → last_index_byte c (s ++ c ∷ t) ≡ some (length s)
unfolding last_index_byte has_byte
last_index_byte-append c [] t h = ground (arith, h, last_index_byte-none c t h)
last_index_byte-append c (a ∷ s) t h = ground (arith, last_index_byte-append c s t h)

pub split_two-some :
    (sep : ℕ) (v : Str) (p : Str × Str) → split_two sep v ≡ some p → v ≡ p.0 ++ sep ∷ p.1
unfolding split_two
split_two-some sep [] p h = cc
split_two-some sep (c ∷ v) p h = elim (Option-cases (split_two sep v)) [
  | inl e ↦ ground (arith, e, h)
  | inr (q, e) ↦ let whole = split_two-some sep v q e in ground (arith, e, h, whole)
]

drop-after : (s t : Str) (c : ℕ) → drop (suc (length s)) (s ++ c ∷ t) ≡ t
drop-after [] t c = refl
drop-after (a ∷ s) t c = drop-after s t c

has_byte-append : (c : ℕ) (s t : Str) → has_byte c (s ++ t) ≡ (has_byte c s || has_byte c t)
unfolding has_byte
has_byte-append c [] t = refl
has_byte-append c (a ∷ s) t = ground (arith, has_byte-append c s t)

-- The last time stamp that `time.Unix` takes without wrapping around.
abbrev pub unwrapped : ℕ
unwrapped = 2 ^ 63 - 62135596800

-- A payload that was issued no longer ago than a cookie lives.
is_current-payload_of :
    (issued now life c : ℕ) (ip : Str)
    → issued / second < unwrapped
    → now ≤ issued / second * second + life
    → is_current now life (payload_of issued (c ∷ ip)) ≡ true
unfolding is_current is_expired last_index_byte
is_current-payload_of issued now life c ip s f =
    let digits = print_nat (issued / second) in
    let at =
      last_index_byte-append b'_' ip digits (has_byte-print_nat b'_' (issued / second) refl) in
    let read = parse_int-print_nat (issued / second) (omega (arith, s)) in
    rw (at, drop-after ip digits b'_', read) (ground (arith, s, f))

has_byte-payload_of :
    (issued : ℕ) (ip : Str)
    → has_byte b'|' ip ≡ false
    → has_byte b'|' (payload_of issued ip) ≡ false
unfolding has_byte
has_byte-payload_of issued ip h =
    let none_in = has_byte-print_nat b'|' (issued / second) refl in
    has_byte-append b'|' ip (b'_' ∷ print_nat (issued / second)) ∙ ground (arith, h, none_in)

-- An address as the manager is given it: not empty, and without the separator.
pub record IsAddress (ip : Str) : Type 0 where
  pub filled : is_empty ip ≡ false
  pub plain : has_byte b'|' ip ≡ false

is_current_ip :
    (issued now life : ℕ) (ip : Str)
    → is_empty ip ≡ false
    → issued / second < unwrapped
    → now ≤ issued / second * second + life
    → is_current now life (payload_of issued ip) ≡ true
is_current_ip issued now life [] e s f = cc
is_current_ip issued now life (c ∷ ip) e s f = is_current-payload_of issued now life c ip s f

module _ (hmac : Str → Str → Str) where
  is_signed-cookie_with_name :
      (issued now : ℕ) (ip name : Str) (m later : Manager)
      → IsAddress ip
      → later.secret ≡ m.secret
      → issued / second < unwrapped
      → now ≤ issued / second * second + ttl later
      → is_signed hmac now later (cookie_with_name hmac issued ip name m).value ≡ true
  unfolding is_signed is_signed_payload cookie_with_name
  is_signed-cookie_with_name issued now ip name m later a e s f =
      let payload = payload_of issued ip in
      let sig = hmac m.secret payload in
      let parts = split_two-append b'|' payload sig (has_byte-payload_of issued ip a.plain) in
      let fresh = is_current_ip issued now (ttl later) ip a.filled s f in
      ap (is_signed_payload hmac now later) parts ∙ rw (e, str_eq_refl sig, fresh) refl

  nonempty_value :
      (issued : ℕ) (ip name : Str) (m : Manager)
      → IsAddress ip
      → is_empty (cookie_with_name hmac issued ip name m).value ≡ false
  unfolding cookie_with_name
  nonempty_value issued [] name m a = refl
  nonempty_value issued (c ∷ ip) name m a = refl

  proof_first :
      (r : HttpRequest) (value : Str)
      → is_empty value ≡ false
      → r.cookie (codes "mango_proof") ≡ some value
      → cookie_of r ≡ some (value, true)
  unfolding cookie_of
  proof_first r [] h c = cc
  proof_first r (b ∷ value) h c = rw (cookie_of, c) refl

  verify_cookie-signed :
      (now : ℕ) (ip value : Str) (is_proof : Bool) (m : Manager)
      → is_signed hmac now m value ≡ true
      → verify_cookie hmac now ip (some (value, is_proof)) m ≡ (
        true,
        if is_proof then record m { verified_ips = insert ip (now + ttl m) m.verified_ips } else m,
      )
  unfolding verify_cookie
  verify_cookie-signed now ip value is_proof m h = rw h refl

  -- The cache does not matter to a cookie.
  pub is_signed-cached :
      (now : ℕ) (value : Str) (m : Manager) (cache : Dict ℕ)
      → is_signed hmac now (record m { verified_ips = cache }) value ≡ is_signed hmac now m value
  unfolding is_signed is_signed_payload ttl
  is_signed-cached now value m cache = elim (Option-cases (split_two b'|' value)) [
    | inl e ↦ rw e refl
    | inr (p, e) ↦ rw e refl
  ]

  verify_cached-signed :
      (now : ℕ) (ip value : Str) (is_proof : Bool) (r : HttpRequest) (m : Manager) (o : Option ℕ)
      → cookie_of r ≡ some (value, is_proof)
      → is_signed hmac now m value ≡ true
      → (verify_cached hmac now r ip m o).0 ≡ true
  unfolding verify_cached
  verify_cached-signed now ip value is_proof r m none c h =
      rw c (ap (λ p. p.0) (verify_cookie-signed now ip value is_proof m h))
  verify_cached-signed now ip value is_proof r m (some exp) c h =
      let cache = delete ip m.verified_ips in
      let kept = record m { verified_ips = cache } in
      let signed = is_signed-cached now value m cache ∙ h in
      elim (Bool-cases (ltb now exp)) [
        | inl b ↦ rw b refl
        | inr b ↦ rw (b, c) (ap (λ p. p.0) (verify_cookie-signed now ip value is_proof kept signed))
      ]

  -- A cookie that was set for an address is accepted from any address while it lives, whichever of the two
  -- names it was set under and is presented under.
  pub verify_proof-cookie_with_name :
      (issued now : ℕ) (ip current name : Str) (is_proof : Bool) (r : HttpRequest)
      (m later : Manager)
      → IsAddress ip
      → later.secret ≡ m.secret
      → issued / second < unwrapped
      → now ≤ issued / second * second + ttl later
      → cookie_of r ≡ some ((cookie_with_name hmac issued ip name m).value, is_proof)
      → (verify_proof hmac now r current later).0 ≡ true
  unfolding verify_proof
  verify_proof-cookie_with_name issued now ip current name is_proof r m later a e s f c =
      let first = is_signed-cookie_with_name issued now ip name m later a e s f in
      verify_cached-signed now current (cookie_with_name hmac issued ip name m).value is_proof r
        later (lookup current later.verified_ips) c first

  -- The value of a session cookie, presented as the proof of a solved challenge, puts the address that
  -- presents it into the cache of verified addresses.
  pub verify_proof-set_session_cookie :
      (issued now : ℕ) (ip current : Str) (r : HttpRequest) (m later : Manager)
      → IsAddress ip
      → later.secret ≡ m.secret
      → issued / second < unwrapped
      → now ≤ issued / second * second + ttl later
      → r.cookie (codes "mango_proof") ≡ some (set_session_cookie hmac issued ip m).0.value
      → lookup current later.verified_ips ≡ none
      → lookup current (verify_proof hmac now r current later).1.verified_ips
        ≡ some (now + ttl later)
  unfolding verify_proof verify_cached set_session_cookie
  verify_proof-set_session_cookie issued now ip current r m later a e s f c l =
      let name = codes "mango_session" in
      let value = (cookie_with_name hmac issued ip name m).value in
      let shown = proof_first r value (nonempty_value issued ip name m a) c in
      let first = is_signed-cookie_with_name issued now ip name m later a e s f in
      let both = verify_cookie-signed now current value true later first in
      rw (l, shown, both)
        (lookup-insert current current (now + ttl later) later.verified_ips
          ∙ rw (str_eq_refl current) refl)
