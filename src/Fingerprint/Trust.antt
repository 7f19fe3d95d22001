-- ===== src/Fingerprint/Trust.antt =====
-- fingerprint/interceptor.go and fingerprint/early_reject.go with core/pipeline.go: the scores that a request can have.
use mango_waf.Common.{◌<◌, ℕ, ◌≤◌, ◌≡◌, Bool, true, false, ◌&&◌, ◌||◌, leb, ◌==◌, arith}
use mango_waf.Common.Bytes.{Str, to_lower}
use mango_waf.Fingerprint.{BrowserInfo, Ja3Result}
use mango_waf.Fingerprint.Composite.{ua_score_of, check_ua_consistency, calculate_composite}
use mango_waf.Fingerprint.Store.{ConnectionFingerprint}

-- A browser's score is at most 100, and not one of 1 to 4.
abbrev pub fair : ℕ → Bool
fair score = (score == 0 || leb 5 score) && leb score 100

abbrev pub IsFair : BrowserInfo → Type 0
IsFair info = fair info.trust_score ≡ true

ua_score_of_bounds : (name ua : Str) → (5 ≤ ua_score_of name ua) × (ua_score_of name ua ≤ 95)
unfolding ua_score_of
ua_score_of_bounds name ua = ground arith

check_ua_consistency_bounds :
    (r : Ja3Result) (ua : Str) → (5 ≤ check_ua_consistency r ua) × (check_ua_consistency r ua ≤ 95)
unfolding check_ua_consistency
check_ua_consistency_bounds r ua =
    ground (arith, ua_score_of_bounds (to_lower r.browser_id) (to_lower ua))

-- A result that only the JA3 database has filled.
pub record IsPlain (fp : ConnectionFingerprint) : Type 0 where
  pub ja3_fair : fair fp.ja3.trust_score ≡ true
  pub ja4_unknown : fp.ja4.known ≡ false
  pub h2_unknown : fp.h2.known ≡ false

pub calculate_composite_bounds :
    (fp : ConnectionFingerprint) (ua : Str)
    → IsPlain fp
    → ((fp.ja3.known && fp.ja3.trust_score == 0) ≡ false
        → 1500 ≤ (calculate_composite fp.ja3 fp.ja4 fp.h2 ua).total)
      × ((calculate_composite fp.ja3 fp.ja4 fp.h2 ua).total < 7500)
unfolding calculate_composite
calculate_composite_bounds fp ua h = (
  λ k. ground (arith, check_ua_consistency_bounds fp.ja3 ua, k),
  ground (arith, check_ua_consistency_bounds fp.ja3 ua),
)
