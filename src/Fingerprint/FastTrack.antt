-- ===== src/Fingerprint/FastTrack.antt =====
-- core/pipeline.go with fingerprint/interceptor.go: what the fingerprint layer of the pipeline does with the
-- fingerprints that the store can hold.
use mango_waf.Fingerprint.Reach.{Reach-ArePlain, Reach}
use mango_waf.Fingerprint.Trust.{IsFair, calculate_composite_bounds, IsPlain}
use mango_waf.Fingerprint.{BrowserInfo}
use mango_waf.Common.Dict.{lookup-Values, lookup, Values, OnSome, Dict}
use mango_waf.Fingerprint.Store.{
  lookup_fp, FingerprintStore, get_composite_for_request, score_entry, ConnectionFingerprint,
}
use mango_waf.Common.Bytes.{codes, Str}
use mango_waf.Common.{
  subst, true, false, none, some, inl, inr, Bool, Option, ◌≡◌, ◌++◌, ◌≤◌, ◌<◌, ◌&&◌, ltb, leb, ◌==◌,
  if◌then◌else◌, Bool-cases, arith,
}
use mango_waf.Pipeline.{Action, drop, Env, Engines, Pipeline, Fingerprint}
use mango_waf.Pipeline.Layers.{check_fingerprint}
use mango_waf.Request.{Request}

-- What the pipeline reads of a connection's fingerprint.
abbrev pub seen : ConnectionFingerprint → Fingerprint
seen fp = record {
  ja3_known = fp.ja3.known;
  ja3_trust = fp.ja3.trust_score;
  ja3_hash = fp.ja3.hash;
  ja3_browser = fp.ja3.browser_id;
  total = fp.composite.total;
  verdict = fp.composite.verdict;
}

abbrev pub zero_trust : ConnectionFingerprint → Bool
zero_trust fp = fp.ja3.known && fp.ja3.trust_score == 0

abbrev pub attack_tool : Str → Action
attack_tool browser = record {
  kind = drop;
  reason = codes "attack_tool_ja3:" ++ browser;
  stage = 0;
  difficulty = 0;
}

module _ (env : Env) (engines : Engines) (r : Request) (ip : Str) (p : Pipeline) where
  check_fingerprint_tool :
      (fp : Fingerprint)
      → (fp.ja3_known && fp.ja3_trust == 0) ≡ true
      → (check_fingerprint env engines r ip fp p).0 ≡ some (attack_tool fp.ja3_browser)
  unfolding check_fingerprint
  check_fingerprint_tool fp h = rw h

  check_fingerprint_middle :
      (fp : Fingerprint)
      → (fp.ja3_known && fp.ja3_trust == 0) ≡ false
      → 1500 ≤ fp.total
      → fp.total < 7500
      → (check_fingerprint env engines r ip fp p).0 ≡ none
  unfolding check_fingerprint
  check_fingerprint_middle fp h lo hi =
      let low : ltb fp.total 1500 ≡ false = ground (arith, lo) in
      let high : leb 7500 fp.total ≡ false = ground (arith, hi) in rw (h, low, high)

abbrev Middling : ConnectionFingerprint → Type 0
Middling fp = (zero_trust fp ≡ false → 1500 ≤ fp.composite.total) × (fp.composite.total < 7500)

score_entry-Middling :
    (addr ua : Str) (fs : FingerprintStore) (o : Option ConnectionFingerprint)
    → OnSome IsPlain o
    → OnSome Middling (score_entry addr ua fs o).0
unfolding score_entry
score_entry-Middling addr ua fs none h = tt
score_entry-Middling addr ua fs (some fp) h = calculate_composite_bounds fp ua h

get_composite-Middling :
    (md5 : Str → Str) (known_ja3 : Dict BrowserInfo) (fs : FingerprintStore) (addr ua : Str)
    → Values IsFair known_ja3
    → Reach md5 known_ja3 fs
    → OnSome Middling (get_composite_for_request addr ua fs).0
unfolding get_composite_for_request lookup_fp
get_composite-Middling md5 known_ja3 fs addr ua f reach =
    score_entry-Middling addr ua fs (lookup addr fs.cache)
      (lookup-Values IsPlain addr fs.cache (Reach-ArePlain md5 known_ja3 f reach))

-- Whatever connections have come, the layer drops a request of a tool of zero trust and passes every other
-- one on: it neither answers "fp_malicious" nor takes the fast track of a trusted browser.
pub check_fingerprint-get_composite :
    (env : Env) (engines : Engines) (r : Request) (ip : Str) (p : Pipeline) (md5 : Str → Str)
    (known_ja3 : Dict BrowserInfo) (fs : FingerprintStore) (addr ua : Str)
    (fp : ConnectionFingerprint)
    → Values IsFair known_ja3
    → Reach md5 known_ja3 fs
    → (get_composite_for_request addr ua fs).0 ≡ some fp
    → (check_fingerprint env engines r ip (seen fp) p).0
      ≡ (if zero_trust fp then some (attack_tool fp.ja3.browser_id) else none)
check_fingerprint-get_composite env engines r ip p md5 known_ja3 fs addr ua fp f reach e =
    let middling : Middling fp =
      subst (OnSome Middling) e (get_composite-Middling md5 known_ja3 fs addr ua f reach) in
    elim (Bool-cases (zero_trust fp)) [
      | inl z ↦ rw z (check_fingerprint_tool env engines r ip p (seen fp) z)
      | inr z ↦
          rw z (check_fingerprint_middle env engines r ip p (seen fp) z (middling.0 z) middling.1)
    ]
