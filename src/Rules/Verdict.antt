-- ===== src/Rules/Verdict.antt =====
-- rules/engine.go: what `Inspect` reports. The loop, which writes hit counters while it runs, is compared
-- with a pure account of the rules that match.
use mango_waf.Common.{
  ℕ, suc, ◌+◌, ◌≡◌, refl, ap, ap₂, ◌∙◌, Bool, true, false, not, ◌||◌, Option, none, some, List, [],
  ◌∷◌, ◌++◌, map, any, get_elem?, append_nil, append_assoc, arith, if◌then◌else◌, Bool-cases, inl,
  inr, sym,
}
use mango_waf.Common.Bytes.{Str}
use mango_waf.Request.{Request}
use mango_waf.Rules.{Rule, MatchResult, InspectResult, Engine}
use mango_waf.Rules.Hits.{
  forget_hits, forget_found, candidate_match-forget, map-set, match_stored-same,
}
use mango_waf.Rules.Inspect.{
  severity_score, skips_inspection, full_payload, blocks, add_match, count_hit, candidate_match,
  apply_match, inspect_rules, empty_result, count_blocked, inspect,
}

abbrev pub Found : Type 0
Found = List (Rule × MatchResult)

add_found : Option (Rule × MatchResult) → Found → Found
add_found none fs = fs
add_found (some f) fs = f ∷ fs

-- The rules of a list of addresses that match, in order.
unfoldable pub found : List Rule → ℕ → Str → Request → List ℕ → Found
unfolding candidate_match add_found
found store level payload r [] = []
found store level payload r (a ∷ rest) =
    add_found (candidate_match store level payload r a) (found store level payload r rest)

unfoldable pub add_matches : Found → InspectResult → InspectResult
unfolding add_match
add_matches [] res = res
add_matches ((rule, m) ∷ fs) res = add_matches fs (add_match rule m res)

unfoldable pub total_score : Found → ℕ
unfolding severity_score
total_score [] = 0
total_score ((rule, _) ∷ fs) = severity_score rule.severity + total_score fs

-- The rules of the engine that match, found before the loop runs.
abbrev pub matching : Str → Request → List ℕ → Engine → Found
matching payload r addresses e =
    found (map forget_hits e.store) e.paranoia_level payload r addresses

apply_match-matching :
    (a : ℕ) (o : Option (Rule × MatchResult)) (payload : Str) (r : Request)
    (s : InspectResult × Engine)
    → o ≡ candidate_match s.1.store s.1.paranoia_level payload r a
    → map forget_hits (apply_match a o s).1.store ≡ map forget_hits s.1.store
unfolding apply_match candidate_match count_hit
apply_match-matching a none payload r s h = refl
apply_match-matching a (some (rule, m)) payload r (res, e) h =
    map-set a rule (suc rule.hits) e.store
      (match_stored-same e.paranoia_level payload r a (get_elem? e.store a) rule m (sym h))

apply_match-level :
    (a : ℕ) (o : Option (Rule × MatchResult)) (s : InspectResult × Engine)
    → (apply_match a o s).1.paranoia_level ≡ s.1.paranoia_level
unfolding apply_match count_hit
apply_match-level a none s = refl
apply_match-level a (some (rule, m)) (res, e) = refl

apply_match-found :
    (a : ℕ) (o : Option (Rule × MatchResult)) (fs : Found) (s : InspectResult × Engine)
    → add_matches fs (apply_match a o s).0 ≡ add_matches (add_found (forget_found o) fs) s.0
unfolding apply_match add_matches add_found forget_found add_match
apply_match-found a none fs s = refl
apply_match-found a (some (rule, m)) fs (res, e) = refl

pub inspect_rules-matching :
    (payload : Str) (r : Request) (addresses : List ℕ) (s : InspectResult × Engine)
    → (inspect_rules payload r addresses s).0 ≡ add_matches (matching payload r addresses s.1) s.0
unfolding inspect_rules found add_matches
inspect_rules-matching payload r [] s = refl
inspect_rules-matching payload r (a ∷ rest) s =
    let o = candidate_match s.1.store s.1.paranoia_level payload r a in
    let s₁ = apply_match a o s in
    inspect_rules-matching payload r rest s₁
    ∙ ap₂ (λ store level. add_matches (found store level payload r rest) s₁.0)
        (apply_match-matching a o payload r s refl) (apply_match-level a o s)
    ∙ apply_match-found a o (matching payload r rest s.1) s
    ∙ ap (λ x. add_matches (add_found x (matching payload r rest s.1)) s.0)
        (sym (candidate_match-forget s.1.store s.1.paranoia_level payload r a))

-- The rules that match a request, when the engine inspects it.
abbrev pub matching_rules : Request → Engine → Found
matching_rules r e = matching (full_payload r) r e.rules e

add_matches-blocked :
    (fs : Found) (res : InspectResult)
    → (add_matches fs res).blocked ≡ (res.blocked || any (λ f. blocks f.0) fs)
unfolding add_matches add_match
add_matches-blocked [] res = ground arith
add_matches-blocked ((rule, m) ∷ fs) res =
    add_matches-blocked fs (add_match rule m res) ∙ ground arith

add_matches-score :
    (fs : Found) (res : InspectResult) → (add_matches fs res).score ≡ res.score + total_score fs
unfolding add_matches add_match total_score
add_matches-score [] res = omega arith
add_matches-score ((rule, m) ∷ fs) res = add_matches-score fs (add_match rule m res) ∙ ground arith

add_match-matches :
    (rule : Rule) (m : MatchResult) (res : InspectResult)
    → (add_match rule m res).matches ≡ res.matches ++ m ∷ []
unfolding add_match
add_match-matches rule m res = ground arith

add_matches-matches :
    (fs : Found) (res : InspectResult)
    → (add_matches fs res).matches ≡ res.matches ++ map (λ f. f.1) fs
unfolding add_matches add_match
add_matches-matches [] res = sym (append_nil res.matches)
add_matches-matches ((rule, m) ∷ fs) res =
    add_matches-matches fs (add_match rule m res)
    ∙ ap (λ ms. ms ++ map (λ f. f.1) fs) (add_match-matches rule m res)
    ∙ append_assoc res.matches (m ∷ []) (map (λ f. f.1) fs)

count_blocked-result : (s : InspectResult × Engine) → (count_blocked s).0 ≡ s.0
unfolding count_blocked
count_blocked-result (res, e) = elim (Bool-cases res.blocked) [
  | inl b ↦ rw b refl
  | inr b ↦ rw b refl
]

third :
    (b c : Bool) (x y z : InspectResult × Engine)
    → b ≡ true
    → c ≡ false
    → (if not b then x else (if c then y else z)) ≡ z
third b c x y z h k = ground arith

inspect-matching :
    (r : Request) (e : Engine)
    → e.waf_enabled ≡ true
    → skips_inspection r.path ≡ false
    → (inspect r e).0 ≡ add_matches (matching_rules r e) empty_result
unfolding inspect
inspect-matching r e w s =
    let e₁ = record e { total_inspected = suc e.total_inspected } in
    let run = inspect_rules (full_payload r) r e.rules (empty_result, e₁) in
    ap (λ p. p.0)
      (third e.waf_enabled (skips_inspection r.path) (empty_result, e) (empty_result, e₁)
        (count_blocked run) w s)
    ∙ count_blocked-result run
    ∙ inspect_rules-matching (full_payload r) r e.rules (empty_result, e₁)

-- With the firewall enabled and a path that is no static asset, `Inspect` reports exactly the rules that
-- match the request, in their order; it blocks when and only when one of them blocks or drops, and its
-- score is the sum of their severities.
pub inspect_lem :
    (r : Request) (e : Engine)
    → e.waf_enabled ≡ true
    → skips_inspection r.path ≡ false
    → ((inspect r e).0.matches ≡ map (λ f. f.1) (matching_rules r e))
      × ((inspect r e).0.blocked ≡ any (λ f. blocks f.0) (matching_rules r e))
      × ((inspect r e).0.score ≡ total_score (matching_rules r e))
inspect_lem r e w s =
    let h = inspect-matching r e w s in
    (
      ap (λ x. x.matches) h ∙ add_matches-matches (matching_rules r e) empty_result,
      ap (λ x. x.blocked) h ∙ add_matches-blocked (matching_rules r e) empty_result,
      ap (λ x. x.score) h ∙ add_matches-score (matching_rules r e) empty_result ∙ omega arith,
    )
