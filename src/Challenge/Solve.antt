-- ===== src/Challenge/Solve.antt =====
-- challenge/challenge.go: the solutions that clients post.
use mango_waf.Common.{
  ℕ, suc, zero, ◌+◌, ◌/◌, Bool, true, false, not, ◌&&◌, ◌||◌, Option, none, some, List, [], ◌∷◌,
  ◌++◌, leb, if◌then◌else◌,
}
use mango_waf.Common.Int.{ℤ, pos, negsuc}
use mango_waf.Common.Bytes.{Str, codes, is_empty, str_eq, has_prefix}
use mango_waf.Common.Decimal.{atoi, parse_int, number, bad_syntax, out_of_range}
use mango_waf.Challenge.{second, Manager, HttpRequest, Cookie}
use mango_waf.Challenge.Proof.{set_proof_cookie}

-- The calls of `OnVerifySuccess` and `OnVerifyFailed`.
pub data Callback : Type 0 where
  on_verify_success : Str → Callback
  on_verify_failed : Str → Str → Callback

-- What a verification answers, with the cookies it sets and the callbacks it makes.
pub record Answer : Type 0 where
  pub accepted : Bool
  pub manager : Manager
  pub cookies : List Cookie
  pub callbacks : List Callback

abbrev pub refused : Str → Str → Manager → Answer
refused ip reason m = record {
  accepted = false;
  manager = m;
  cookies = [];
  callbacks = on_verify_failed ip reason ∷ [];
}

abbrev pub zeros : ℕ → Str
zeros zero = []
zeros (suc n) = b'0' ∷ zeros n

-- `strings.Repeat("0", n)`, which panics on a negative number.
abbrev pub repeat_zero : ℤ → Option Str
repeat_zero (pos n) = some (zeros n)
repeat_zero (negsuc n) = none

abbrev pub or_default : ℤ → ℤ → ℤ
or_default d (pos zero) = d
or_default d (pos (suc n)) = pos (suc n)
or_default d (negsuc n) = negsuc n

-- `-10 ≤ now - ts ≤ 300` in seconds; a difference that wraps around in 64 bits is not within it either.
abbrev pub is_recent : ℕ → ℤ → Bool
is_recent now (pos ts) = leb ts (now + 10) && leb now (ts + 300)
is_recent now (negsuc k) = leb (now + suc k) 300

unfoldable pub is_timely : ℕ → Str → Bool
unfolding parse_int
is_timely now s = elim (parse_int s) [
  | number ts ↦ is_recent now ts
  | bad_syntax ↦ false
  | out_of_range z ↦ false
]

module _ (hmac : Str → Str → Str) (sha256 : Str → Str) where
  unfoldable pub accept : ℕ → Str → Manager → Answer
  unfolding set_proof_cookie
  accept now ip m =
      let (cookie, next) = set_proof_cookie hmac now ip m in
      record {
        accepted = true;
        manager = next;
        cookies = cookie ∷ [];
        callbacks = on_verify_success ip ∷ [];
      }

  -- The test of a proof of work against the prefix, without which `strings.Repeat` has panicked.
  unfoldable pub verify_prefix : ℕ → HttpRequest → Str → Manager → Option Str → Option Answer
  unfolding accept has_prefix
  verify_prefix now r ip m none = none
  verify_prefix now r ip m (some prefix) = some (
      if has_prefix (sha256 (r.form_value (codes "challenge") ++ r.form_value (codes "nonce")))
        prefix
      then accept now ip m
      else refused ip (codes "pow_invalid_hash") m)

  -- `none` is a panic.
  unfoldable pub verify_pow : ℕ → HttpRequest → Str → Manager → Option Answer
  unfolding atoi verify_prefix
  verify_pow now r ip m =
      let difficulty = atoi (r.form_value (codes "difficulty")) in
      if is_empty (r.form_value (codes "nonce")) || is_empty (r.form_value (codes "challenge"))
      then some (refused ip (codes "pow_missing_fields") m)
      else verify_prefix now r ip m (repeat_zero (or_default m.cfg.pow_difficulty difficulty))

  unfoldable pub verify_turnstile : ℕ → HttpRequest → Str → Manager → Answer
  unfolding is_timely accept
  verify_turnstile now r ip m =
      let ts = r.form_value (codes "t_id") in
      let hash = r.form_value (codes "t_hash") in
      let data_value = r.form_value (codes "t_data") in
      if is_empty ts || is_empty hash || is_empty data_value
      then refused ip (codes "captcha_missing_fields") m
      else if not (is_timely (now / second) ts)
      then refused ip (codes "captcha_expired") m
      else if not (str_eq hash (hmac m.secret ts))
      then refused ip (codes "captcha_invalid_hash") m
      else accept now ip m

  abbrev pub ignored : Manager → Answer
  ignored m = record { accepted = false; manager = m; cookies = []; callbacks = [] }

  unfoldable pub handle_verification : ℕ → HttpRequest → Str → Manager → Option Answer
  unfolding verify_pow verify_turnstile
  handle_verification now r ip m =
      let kind = r.form_value (codes "challenge_type") in
      if not (str_eq r.method (codes "POST"))
      then some (ignored m)
      else if str_eq kind (codes "pow")
      then verify_pow now r ip m
      else if str_eq kind (codes "turnstile")
      then some (verify_turnstile now r ip m)
      else some (ignored m)
