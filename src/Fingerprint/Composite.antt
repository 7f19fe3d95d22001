-- ===== src/Fingerprint/Composite.antt =====
-- fingerprint/fingerprint.go: the composite score, in hundredths. At the default scores of JA4 and HTTP/2
-- and any whole score of JA3 the source's floating-point total falls on the same side of each threshold.
use mango_waf.Common.{ℕ, ◌+◌, ◌*◌, not, ◌&&◌, leb, if◌then◌else◌}
use mango_waf.Common.Bytes.{Str, codes, contains, to_lower}
use mango_waf.Http2.{H2Fingerprint}
use mango_waf.Fingerprint.{Ja3Result, Ja4Result}

pub record CompositeScore : Type 0 where
  pub ja3_score : ℕ
  pub ja4_score : ℕ
  pub h2_score : ℕ
  pub ua_score : ℕ
  pub total : ℕ
  pub verdict : Str

-- The browser's name and the User-Agent, both in lower case.
unfoldable pub ua_score_of : Str → Str → ℕ
unfolding contains
ua_score_of browser_name ua =
    if contains browser_name (codes "chrome") && contains ua (codes "chrome")
    then 95
    else if contains browser_name (codes "firefox") && contains ua (codes "firefox")
    then 95
    else if contains browser_name (codes "safari")
        && contains ua (codes "safari")
        && not (contains ua (codes "chrome"))
    then 95
    else if contains browser_name (codes "edge") && contains ua (codes "edg")
    then 90
    else if contains browser_name (codes "bot")
    then 5
    else 20

unfoldable pub check_ua_consistency : Ja3Result → Str → ℕ
unfolding ua_score_of to_lower
check_ua_consistency ja3 ua =
    if not ja3.known then 30 else ua_score_of (to_lower ja3.browser_id) (to_lower ua)

unfoldable pub verdict_of : ℕ → Str
verdict_of total =
    if leb 8000 total
    then codes "trusted"
    else if leb 6000 total
    then codes "normal"
    else if leb 4000 total
    then codes "suspicious"
    else if leb 2000 total
    then codes "likely_bot"
    else codes "malicious"

unfoldable pub calculate_composite : Ja3Result → Ja4Result → H2Fingerprint → Str → CompositeScore
unfolding check_ua_consistency verdict_of
calculate_composite ja3 ja4 h2 ua =
    let ja3_score = if ja3.known then ja3.trust_score else 20 in
    let ja4_score = if ja4.known then ja4.trust_score else 25 in
    let h2_score = if h2.known then h2.trust_score else 30 in
    let ua_score = check_ua_consistency ja3 ua in
    let total = ja3_score * 30 + ja4_score * 25 + h2_score * 20 + ua_score * 25 in
    record {
      ja3_score = ja3_score;
      ja4_score = ja4_score;
      h2_score = h2_score;
      ua_score = ua_score;
      total = total;
      verdict = verdict_of total;
    }
