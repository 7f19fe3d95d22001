-- ===== src/Intel.antt =====
-- intelligence/intelligence.go and intelligence/reputation.go: `Evaluate`, with the answers of AbuseIPDB as an
-- input. Scores are in hundredths, where the half points of the source are whole. The score only falls from 70
-- on, so the clamp at 0 is the subtraction of natural numbers and the one at 100 does nothing.
pub mod Geo
pub mod Asn
pub mod Lists
pub mod Expiry
pub mod Feeds
pub mod Score
mod Tests
use mango_waf.Intel.Geo.{lookup_geo, GeoResult}
use mango_waf.Intel.Lists.{is_list_whitelisted, ListManager, is_blacklisted}
use mango_waf.Common.Bytes.{str_eq, Str, codes, to_lower}
use mango_waf.Common.Dict.{insert, Dict, lookup, retain}
use mango_waf.Common.{
  any, is_some, value_or, ℕ, zero, suc, true, false, none, some, [], ◌∷◌, inl, inr, refl, Bool,
  Option, List, ◌≡◌, ◌++◌, ◌+◌, ◌-◌, ◌*◌, ◌≤◌, ◌<◌, ◌&&◌, ◌||◌, not, ltb, leb, ◌==◌, if◌then◌else◌,
  length, Bool-cases, Option-cases, arith, ap, sym, ◌∙◌, ◌≢◌, ◌↔◌, ◌⊎◌,
}
use mango_waf.Pipeline.{Env, Evaluation}
use mango_waf.Intel.Feeds.{ThreatFeedManager, is_known_threat}
use mango_waf.Intel.Asn.{analyze_asn, AsnInfo, high, low, medium, Risk}

pub record ReputationResult : Type 0 where
  pub abuse_score : ℕ
  pub is_known_bad : Bool
  pub is_proxy : Bool
  pub is_tor : Bool
  pub is_vpn : Bool
  pub is_datacenter : Bool
  pub cached_at : ℕ

abbrev pub default_reputation : ReputationResult
default_reputation = record {
  abuse_score = 0;
  is_known_bad = false;
  is_proxy = false;
  is_tor = false;
  is_vpn = false;
  is_datacenter = false;
  cached_at = 0;
}

-- A cached result that is younger than the time to live.
abbrev pub fresh : ℕ → ℕ → Option ReputationResult → Option ReputationResult
fresh now cache_ttl none = none
fresh now cache_ttl (some rep) = if ltb now (rep.cached_at + cache_ttl) then some rep else none

abbrev pub checked :
    ℕ
    → Str
    → Option ReputationResult
    → Dict ReputationResult
    → Option ReputationResult
    → ReputationResult × Dict ReputationResult
checked now ip answer cache (some rep) = (rep, cache)
checked now ip answer cache none =
    let rep = record (value_or default_reputation answer) { cached_at = now } in
    (rep, insert ip rep cache)

-- `Check`, by the answer of the provider, none without a key or on an error.
unfoldable pub check_reputation :
    ℕ
    → ℕ
    → Option ReputationResult
    → Str
    → Dict ReputationResult
    → ReputationResult × Dict ReputationResult
unfolding lookup insert
check_reputation now cache_ttl answer ip cache =
    checked now ip answer cache (fresh now cache_ttl (lookup ip cache))

unfoldable pub cleanup_reputation : ℕ → ℕ → Dict ReputationResult → Dict ReputationResult
unfolding retain
cleanup_reputation now cache_ttl cache =
    retain (λ rep. not (ltb (rep.cached_at + cache_ttl) now)) cache

-- The configuration, and the engine's state. `geo` and `use_reputation` and `use_asn` tell which parts run.
pub record IntelConfig : Type 0 where
  pub blocked_countries : List Str
  pub allowed_countries : List Str
  pub block_datacenter : Bool
  pub cache_ttl : ℕ

pub record Intel : Type 0 where
  pub cfg : IntelConfig
  pub geo : Bool
  pub use_reputation : Bool
  pub use_asn : Bool
  pub feeds : ThreatFeedManager
  pub lists : ListManager
  pub rep_cache : Dict ReputationResult
  pub asn_cache : Dict AsnInfo

-- A layer takes points off and adds an action.
abbrev pub penalty : Bool → ℕ → Str → Evaluation → Evaluation
penalty false points action e = e
penalty true points action e = record e {
  trust_score = e.trust_score - points;
  actions = e.actions ++ action ∷ [];
}

abbrev pub equal_fold : Str → Str → Bool
equal_fold s t = str_eq (to_lower s) (to_lower t)

-- The first blocked country that the place is in.
unfoldable pub blocked_country : Str → List Str → Option Str
unfolding to_lower str_eq
blocked_country code_ [] = none
blocked_country code_ (c ∷ cs) = if equal_fold code_ c then some c else blocked_country code_ cs

unfoldable pub eval_reputation : ReputationResult → Evaluation → Evaluation
eval_reputation rep e =
    let bad = penalty rep.is_known_bad 5000 (codes "known_bad_ip") e in
    let hidden = penalty (rep.is_proxy || rep.is_tor || rep.is_vpn) 2000 (codes "anonymizer") bad in
    let hosted = penalty rep.is_datacenter 1500 (codes "datacenter_ip") hidden in
    record hosted { trust_score = hosted.trust_score - rep.abuse_score * 50 }

abbrev pub is_nil : List Str → Bool
is_nil [] = true
is_nil (_ ∷ _) = false

abbrev pub is_high : Risk → Bool
is_high high = true
is_high _ = false

unfoldable pub eval_asn : Bool → AsnInfo → Evaluation → Evaluation
eval_asn block_datacenter info e = penalty (is_high info.risk_level) 2000 (codes "high_risk_asn") (
    penalty (info.is_hosting && block_datacenter) 2500 (codes "hosting_asn:" ++ info.organization)
      e)

-- From the reputation on, by the place.
unfoldable pub eval_sources :
    Env → Option ReputationResult → Str → Option GeoResult → Evaluation → Intel → Evaluation × Intel
unfolding check_reputation eval_reputation analyze_asn eval_asn
eval_sources env answer ip place e i =
    let rep = check_reputation env.now i.cfg.cache_ttl answer ip i.rep_cache in
    let e' = if i.use_reputation then eval_reputation rep.0 e else e in
    let info = analyze_asn ip place i.asn_cache in
    (
      if i.use_asn then eval_asn i.cfg.block_datacenter info.0 e' else e',
      record i {
        rep_cache = if i.use_reputation then rep.1 else i.rep_cache;
        asn_cache = if i.use_asn then info.1 else i.asn_cache;
      },
    )

abbrev pub geo_blocked : Str → Evaluation → Evaluation
geo_blocked c e = record e {
  trust_score = 0;
  actions = e.actions ++ (codes "geo_blocked:" ++ c) ∷ [];
}

abbrev pub eval_place :
    Env
    → Option ReputationResult
    → Str
    → GeoResult
    → Evaluation
    → Intel
    → Option Str
    → Evaluation × Intel
eval_place env answer ip place e i (some c) = (geo_blocked c e, i)
eval_place env answer ip place e i none =
    eval_sources env answer ip (some place)
      (penalty
        (not (is_nil i.cfg.allowed_countries)
          && not (any (equal_fold place.country_code) i.cfg.allowed_countries))
        3000 (codes "geo_not_allowed:" ++ place.country_code) e)
      i

-- `Evaluate`, by the answer of AbuseIPDB.
unfoldable pub evaluate_ip : Env → Option ReputationResult → Str → Intel → Evaluation × Intel
unfolding is_blacklisted is_list_whitelisted is_known_threat lookup_geo blocked_country eval_sources
    to_lower str_eq
evaluate_ip env answer ip i =
    let neutral : Evaluation = record { trust_score = 7000; actions = [] } in
    let e =
      penalty (is_known_threat ip i.feeds.known_bad) 4000 (codes "threat_feed_match") neutral in
    let place = lookup_geo env ip in
    if is_blacklisted env ip i.lists
    then (record { trust_score = 0; actions = codes "blacklisted" ∷ [] }, i)
    else if is_list_whitelisted env ip i.lists
    then (record { trust_score = 10000; actions = codes "whitelisted" ∷ [] }, i)
    else if i.geo
    then eval_place env answer ip place e i
        (blocked_country place.country_code i.cfg.blocked_countries)
    else eval_sources env answer ip none e i
