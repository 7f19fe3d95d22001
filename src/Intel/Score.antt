-- ===== src/Intel/Score.antt =====
-- intelligence/intelligence.go with core/pipeline.go: the scores, and the layer of the pipeline that reads them.
use mango_waf.Intel.Lists.{is_list_whitelisted, is_blacklisted}
use mango_waf.Intel.Feeds.{is_known_threat}
use mango_waf.Intel.Asn.{analyze_asn, AsnInfo}
use mango_waf.Intel.Geo.{lookup_geo, GeoResult}
use mango_waf.Common.Bytes.{codes, Str}
use mango_waf.Intel.{
  blocked_country, equal_fold, is_nil, is_high, eval_place, check_reputation, penalty, eval_sources,
  Intel, evaluate_ip, ReputationResult, eval_reputation, eval_asn,
}
use mango_waf.Common.{
  any, ℕ, true, false, none, some, [], inl, inr, Bool, Option, ◌≡◌, ◌++◌, ◌≤◌, ◌&&◌, ◌||◌, not,
  if◌then◌else◌, Bool-cases, arith, ltb, ◌==◌, ◌∙◌, ◌∷◌, refl, ap,
}
use mango_waf.Pipeline.{Action, Env, Engines, Pipeline, Evaluation, block}
use mango_waf.Pipeline.Layers.{intel_reason, layer_intel, disabled}
use mango_waf.Request.{Request}

penalty-le :
    (b : Bool) (points : ℕ) (action : Str) (e : Evaluation)
    → (penalty b points action e).trust_score ≤ e.trust_score
penalty-le true points action e = omega arith
penalty-le false points action e = omega arith

eval_reputation-le :
    (rep : ReputationResult) (e : Evaluation) → (eval_reputation rep e).trust_score ≤ e.trust_score
unfolding eval_reputation
eval_reputation-le rep e =
    let bad = penalty rep.is_known_bad 5000 (codes "known_bad_ip") e in
    let hidden = penalty (rep.is_proxy || rep.is_tor || rep.is_vpn) 2000 (codes "anonymizer") bad in
    omega (
      arith,
      penalty-le rep.is_known_bad 5000 (codes "known_bad_ip") e,
      penalty-le (rep.is_proxy || rep.is_tor || rep.is_vpn) 2000 (codes "anonymizer") bad,
      penalty-le rep.is_datacenter 1500 (codes "datacenter_ip") hidden,
    )

eval_asn-le :
    (d : Bool) (info : AsnInfo) (e : Evaluation) → (eval_asn d info e).trust_score ≤ e.trust_score
unfolding eval_asn
eval_asn-le d info e = omega (
  arith,
  penalty-le (is_high info.risk_level) 2000 (codes "high_risk_asn")
      (penalty (info.is_hosting && d) 2500 (codes "hosting_asn:" ++ info.organization) e),
  penalty-le (info.is_hosting && d) 2500 (codes "hosting_asn:" ++ info.organization) e,
)

maybe-le :
    (b : Bool) (e' e : Evaluation)
    → e'.trust_score ≤ e.trust_score
    → (if b then e' else e).trust_score ≤ e.trust_score
maybe-le true e' e h = h
maybe-le false e' e h = omega arith

either-le :
    (b : Bool) (n : ℕ) (x y : Evaluation × Intel)
    → x.0.trust_score ≤ n
    → y.0.trust_score ≤ n
    → (if b then x else y).0.trust_score ≤ n
either-le true n x y h k = h
either-le false n x y h k = k

module _ (env : Env) (answer : Option ReputationResult) (ip : Str) where
  eval_sources-le :
      (place : Option GeoResult) (e : Evaluation) (i : Intel)
      → (eval_sources env answer ip place e i).0.trust_score ≤ e.trust_score
  unfolding eval_sources
  eval_sources-le place e i =
      let rep = (check_reputation env.now i.cfg.cache_ttl answer ip i.rep_cache).0 in
      let e' = if i.use_reputation then eval_reputation rep e else e in
      let info = (analyze_asn ip place i.asn_cache).0 in
      omega (
        arith,
        maybe-le i.use_asn (eval_asn i.cfg.block_datacenter info e') e'
            (eval_asn-le i.cfg.block_datacenter info e'),
        maybe-le i.use_reputation (eval_reputation rep e) e (eval_reputation-le rep e),
      )

  eval_place-le :
      (place : GeoResult) (e : Evaluation) (i : Intel) (o : Option Str)
      → (eval_place env answer ip place e i o).0.trust_score ≤ e.trust_score
  eval_place-le place e i none =
      let outside =
        not (is_nil i.cfg.allowed_countries)
        && not (any (equal_fold place.country_code) i.cfg.allowed_countries) in
      let e' = penalty outside 3000 (codes "geo_not_allowed:" ++ place.country_code) e in
      omega (
        arith,
        eval_sources-le (some place) e' i,
        penalty-le outside 3000 (codes "geo_not_allowed:" ++ place.country_code) e,
      )
  eval_place-le place e i (some c) = omega arith

  -- A blacklisted address has no points, one that is only whitelisted has 100, and any other at most 70:
  -- no layer adds to the score.
  pub evaluate_ip_bounds :
      (i : Intel)
      → (evaluate_ip env answer ip i).0.trust_score ≤ (
          if is_blacklisted env ip i.lists
          then 0
          else if is_list_whitelisted env ip i.lists
          then 10000
          else 7000)
  unfolding evaluate_ip
  evaluate_ip_bounds i =
      let place = lookup_geo env ip in
      let neutral : Evaluation = record { trust_score = 7000; actions = [] } in
      let e =
        penalty (is_known_threat ip i.feeds.known_bad) 4000 (codes "threat_feed_match") neutral in
      let start =
        penalty-le (is_known_threat ip i.feeds.known_bad) 4000 (codes "threat_feed_match")
          neutral in
      elim (Bool-cases (is_blacklisted env ip i.lists)) [
        | inl b ↦ rw b (omega arith)
        | inr b ↦ elim (Bool-cases (is_list_whitelisted env ip i.lists)) [
          | inl w ↦ rw (b, w) (omega arith)
          | inr w ↦
              let far =
                eval_place env answer ip place e i
                  (blocked_country place.country_code i.cfg.blocked_countries) in
              rw (b, w)
                (either-le i.geo 7000 far (eval_sources env answer ip none e i)
                  (omega (
                    arith,
                    start,
                    eval_place-le place e i
                        (blocked_country place.country_code i.cfg.blocked_countries),
                  ))
                  (omega (arith, start, eval_sources-le none e i)))
        ]
      ]

-- The answer that the pipeline takes from this engine.
abbrev pub evaluations : Env → Option ReputationResult → Intel → Str → Evaluation
evaluations env answer i ip = (evaluate_ip env answer ip i).0

layer_intel-evaluated :
    (env : Env) (engines : Engines) (r : Request) (ip : Str) (f : Str → Evaluation) (p : Pipeline)
    → engines.evaluate ≡ some f
    → disabled engines (codes "reputation_lookup") ≡ false
    → (layer_intel env engines r ip p).0 ≡ (
        if (f ip).trust_score == 0
        then some (record {
          kind = block;
          reason = intel_reason (f ip).actions;
          stage = 0;
          difficulty = 0;
        })
        else none)
unfolding layer_intel
layer_intel-evaluated env engines r ip f p e d = elim (Bool-cases ((f ip).trust_score == 0)) [
  | inl z ↦ rw (e, d, z)
  | inr z ↦ elim (Bool-cases (ltb (f ip).trust_score 3000)) [
    | inl low ↦ rw (e, d, z, low)
    | inr far ↦ rw (e, d, z, far)
  ]
]

evaluate_ip-listed :
    (env : Env) (answer : Option ReputationResult) (ip : Str) (i : Intel)
    → (is_blacklisted env ip i.lists || is_list_whitelisted env ip i.lists) ≡ true
    → (evaluate_ip env answer ip i).0 ≡ (
        if is_blacklisted env ip i.lists
        then record { trust_score = 0; actions = codes "blacklisted" ∷ [] }
        else record { trust_score = 10000; actions = codes "whitelisted" ∷ [] })
unfolding evaluate_ip
evaluate_ip-listed env answer ip i l = elim (Bool-cases (is_blacklisted env ip i.lists)) [
  | inl b ↦ rw b
  | inr b ↦ let w : is_list_whitelisted env ip i.lists ≡ true = ground (arith, b, l) in rw (b, w)
]

abbrev verdict : Evaluation → Option Action
verdict e =
    if e.trust_score == 0
    then some (record { kind = block; reason = intel_reason e.actions; stage = 0; difficulty = 0 })
    else none

verdict-listed :
    (b : Bool)
    → verdict (
        if b
        then record { trust_score = 0; actions = codes "blacklisted" ∷ [] }
        else record { trust_score = 10000; actions = codes "whitelisted" ∷ [] })
      ≡ (if b
          then some (record {
            kind = block;
            reason = codes "intel:blacklisted";
            stage = 0;
            difficulty = 0;
          })
          else none)
verdict-listed true = refl
verdict-listed false = refl

-- While the lookup is not shed, the pipeline's layer blocks every request of a blacklisted address and passes
-- every one of an address that is only whitelisted.
pub layer_intel-listed :
    (env : Env) (engines : Engines) (r : Request) (ip : Str) (answer : Option ReputationResult)
    (i : Intel) (p : Pipeline)
    → engines.evaluate ≡ some (evaluations env answer i)
    → disabled engines (codes "reputation_lookup") ≡ false
    → (is_blacklisted env ip i.lists || is_list_whitelisted env ip i.lists) ≡ true
    → (layer_intel env engines r ip p).0 ≡ (
        if is_blacklisted env ip i.lists
        then some
            (record { kind = block; reason = codes "intel:blacklisted"; stage = 0; difficulty = 0 })
        else none)
layer_intel-listed env engines r ip answer i p e d l =
    layer_intel-evaluated env engines r ip (evaluations env answer i) p e d
    ∙ ap verdict (evaluate_ip-listed env answer ip i l)
    ∙ verdict-listed (is_blacklisted env ip i.lists)
