-- ===== src/Challenge/Solutions.antt =====
-- challenge/challenge.go: what a posted solution does.
use mango_waf.Common.Dict.{lookup, lookup-insert}
use mango_waf.Common.{
  subst, subst, if◌then◌else◌, ℕ, suc, ◌+◌, ◌/◌, ◌≡◌, ◌⊎◌, refl, ◌∙◌, true, false, ◌||◌, Option,
  none, some, [], ◌++◌, Bool-cases, inl, inr, ◌∷◌, List,
}
use mango_waf.Common.Int.{ℤ, pos, negsuc}
use mango_waf.Common.Bytes.{Str, codes, is_empty, str_eq, str_eq→≡, str_eq_refl, has_prefix}
use mango_waf.Common.Decimal.{atoi}
use mango_waf.Challenge.{HttpRequest, Manager, ttl, second}
use mango_waf.Challenge.Proof.{set_proof_cookie}
use mango_waf.Challenge.Solve.{
  Answer, Callback, on_verify_success, on_verify_failed, accept, refused, zeros, repeat_zero,
  or_default, is_timely, verify_prefix, verify_pow, verify_turnstile, handle_verification,
}

module _ (hmac : Str → Str → Str) (sha256 : Str → Str) (now : ℕ) (r : HttpRequest) (ip : Str) where
  -- The positive number of zeros that a form asks for is what its solution is tested by, whatever the manager is
  -- configured to ask for.
  pub verify_pow-difficulty :
      (m : Manager) (d : ℕ)
      → is_empty (r.form_value (codes "nonce")) ≡ false
      → is_empty (r.form_value (codes "challenge")) ≡ false
      → atoi (r.form_value (codes "difficulty")) ≡ pos (suc d)
      → verify_pow hmac sha256 now r ip m
        ≡ some (
            if has_prefix
              (sha256 (r.form_value (codes "challenge") ++ r.form_value (codes "nonce")))
              (zeros (suc d))
            then accept hmac sha256 now ip m
            else refused ip (codes "pow_invalid_hash") m)
  unfolding verify_pow verify_prefix
  verify_pow-difficulty m d n c f = rw (n, c, f) refl

  -- A form with a negative difficulty makes the server panic.
  pub verify_pow-negative :
      (m : Manager) (k : ℕ)
      → is_empty (r.form_value (codes "nonce")) ≡ false
      → is_empty (r.form_value (codes "challenge")) ≡ false
      → atoi (r.form_value (codes "difficulty")) ≡ negsuc k
      → verify_pow hmac sha256 now r ip m ≡ none
  unfolding verify_pow verify_prefix
  verify_pow-negative m k n c f = rw (n, c, f) refl

  -- A proof of work whose hash starts with as many zeros as the form asks for, or else the configuration.
  pub record IsSolved (m : Manager) : Type 0 where
    pub count : ℕ
    pub asked :
        or_default m.cfg.pow_difficulty (atoi (r.form_value (codes "difficulty"))) ≡ pos count
    pub starts :
        has_prefix
          (sha256 (r.form_value (codes "challenge") ++ r.form_value (codes "nonce")))
          (zeros count)
        ≡ true

  -- A time stamp of the last minutes with the HMAC of it under the manager's secret.
  pub record IsHeld (m : Manager) : Type 0 where
    pub timely : is_timely (now / second) (r.form_value (codes "t_id")) ≡ true
    pub authentic : r.form_value (codes "t_hash") ≡ hmac m.secret (r.form_value (codes "t_id"))

  -- The only callback is at most one of a failure of the address.
  abbrev pub OnlyBlames : List Callback → Type 0
  OnlyBlames [] = Unit
  OnlyBlames (on_verify_failed j reason ∷ []) = j ≡ ip
  OnlyBlames _ = ⊥

  abbrev pub IsAccepted : Manager → Answer → Type 0
  IsAccepted m a =
      (a.accepted ≡ true)
      × (lookup ip a.manager.verified_ips ≡ some (now + ttl m))
      × (a.callbacks ≡ on_verify_success ip ∷ [])

  abbrev pub IsJustified : Manager → Answer → Type 0
  IsJustified m a =
      ((IsSolved m ⊎ IsHeld m) × IsAccepted m a)
      ⊎ ((a.accepted ≡ false) × (a.manager ≡ m) × (a.cookies ≡ []) × OnlyBlames a.callbacks)

  accept-IsAccepted : (m : Manager) → IsAccepted m (accept hmac sha256 now ip m)
  unfolding accept set_proof_cookie
  accept-IsAccepted m =
      (refl, lookup-insert ip ip (now + ttl m) m.verified_ips ∙ rw (str_eq_refl ip) refl, refl)

  verify_turnstile-IsJustified :
      (m : Manager) → IsJustified m (verify_turnstile hmac sha256 now r ip m)
  unfolding verify_turnstile
  verify_turnstile-IsJustified m =
      let ts = r.form_value (codes "t_id") in
      let hash = r.form_value (codes "t_hash") in
      elim (Bool-cases (is_empty ts || is_empty hash || is_empty (r.form_value (codes "t_data")))) [
        | inl b ↦ rw b (inr (refl, refl, refl, refl))
        | inr b ↦ elim (Bool-cases (is_timely (now / second) ts)) [
          | inr t ↦ rw (b, t) (inr (refl, refl, refl, refl))
          | inl t ↦ elim (Bool-cases (str_eq hash (hmac m.secret ts))) [
            | inr h ↦ rw (b, t, h) (inr (refl, refl, refl, refl))
            | inl h ↦
                let same = str_eq→≡ hash (hmac m.secret ts) h in
                rw (b, t, h)
                  (inl (inr (record { timely = t; authentic = same }), accept-IsAccepted m))
          ]
        ]
      ]

  tested :
      (m : Manager) (n : ℕ)
      → or_default m.cfg.pow_difficulty (atoi (r.form_value (codes "difficulty"))) ≡ pos n
      → IsJustified m (
          if has_prefix
            (sha256 (r.form_value (codes "challenge") ++ r.form_value (codes "nonce")))
            (zeros n)
          then accept hmac sha256 now ip m
          else refused ip (codes "pow_invalid_hash") m)
  tested m n asked =
      elim (Bool-cases (
        has_prefix (sha256 (r.form_value (codes "challenge") ++ r.form_value (codes "nonce")))
          (zeros n))) [
            | inl b ↦
                rw b
                  (inl (inl (record { count = n; asked = asked; starts = b }), accept-IsAccepted m))
            | inr b ↦ rw b (inr (refl, refl, refl, refl))
          ]

  abbrev Answers : Manager → Option Answer → Type 0
  Answers m none = Unit
  Answers m (some a) = IsJustified m a

  verify_prefix-IsJustified :
      (m : Manager) (z : ℤ)
      → or_default m.cfg.pow_difficulty (atoi (r.form_value (codes "difficulty"))) ≡ z
      → Answers m (verify_prefix hmac sha256 now r ip m (repeat_zero z))
  unfolding verify_prefix
  verify_prefix-IsJustified m (pos n) asked = tested m n asked
  verify_prefix-IsJustified m (negsuc k) asked = tt

  verify_pow-IsJustified : (m : Manager) → Answers m (verify_pow hmac sha256 now r ip m)
  unfolding verify_pow
  verify_pow-IsJustified m =
      let difficulty = or_default m.cfg.pow_difficulty (atoi (r.form_value (codes "difficulty"))) in
      elim (Bool-cases
        (is_empty (r.form_value (codes "nonce")) || is_empty (r.form_value (codes "challenge")))) [
          | inl b ↦ rw b (inr (refl, refl, refl, refl))
          | inr b ↦ rw b (verify_prefix-IsJustified m difficulty refl)
        ]

  handle_verification-Answers :
      (m : Manager) → Answers m (handle_verification hmac sha256 now r ip m)
  unfolding handle_verification
  handle_verification-Answers m =
      let kind = r.form_value (codes "challenge_type") in
      elim (Bool-cases (str_eq r.method (codes "POST"))) [
        | inr b ↦ rw b (inr (refl, refl, refl, tt))
        | inl b ↦ elim (Bool-cases (str_eq kind (codes "pow"))) [
          | inl k ↦ rw (b, k) (verify_pow-IsJustified m)
          | inr k ↦ elim (Bool-cases (str_eq kind (codes "turnstile"))) [
            | inl t ↦ rw (b, k, t) (verify_turnstile-IsJustified m)
            | inr t ↦ rw (b, k, t) (inr (refl, refl, refl, tt))
          ]
        ]
      ]

  -- Where the verification of a posted solution does not panic, on a negative difficulty, either it is a proof of
  -- work with the zeros it was asked for, or a recent time stamp with its HMAC, and then it is accepted, the
  -- address is cached for the life of a cookie and its success is reported; or it is not accepted, neither the
  -- cache changes nor a cookie is set, and at most a failure of the address is reported.
  pub handle_verification-IsJustified :
      (m : Manager) (a : Answer)
      → handle_verification hmac sha256 now r ip m ≡ some a
      → IsJustified m a
  handle_verification-IsJustified m a h = subst (Answers m) h (handle_verification-Answers m)
