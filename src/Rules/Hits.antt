-- ===== src/Rules/Hits.antt =====
-- rules/engine.go: matching does not read the hit counter of a rule, which `Inspect` writes while it runs.
use mango_waf.Common.{
  ℕ, zero, suc, ◌≡◌, refl, ap, ap₂, ◌∙◌, Bool, true, false, Option, none, some, List, [], ◌∷◌, map,
  get_elem?, set, subst, if◌then◌else◌, Bool-cases, inl, inr, sym,
}
use mango_waf.Common.Bytes.{Str}
use mango_waf.Request.{Request}
use mango_waf.Rules.{Rule, MatchResult}
use mango_waf.Rules.Match.{
  accepts, match_operator, lower_pattern, match_target, match_targets, matched_or, match_rule,
}
use mango_waf.Rules.Inspect.{is_candidate, candidate_match, with_rule, match_stored}

-- A rule with its hit counter put back.
abbrev pub forget_hits : Rule → Rule
forget_hits rule = record rule { hits = 0 }

match_target-forget :
    (rule : Rule) (r : Request) (t : Str)
    → match_target (forget_hits rule) r t ≡ match_target rule r t
unfolding match_target accepts match_operator lower_pattern
match_target-forget rule r t = refl

match_targets-forget :
    (a : ℕ) (rule : Rule) (r : Request) (ts : List Str)
    → match_targets a (forget_hits rule) r ts ≡ match_targets a rule r ts
unfolding match_targets
match_targets-forget a rule r [] = refl
match_targets-forget a rule r (t ∷ ts) =
    ap₂ (matched_or a t) (match_target-forget rule r t) (match_targets-forget a rule r ts)

unfoldable pub forget_found : Option (Rule × MatchResult) → Option (Rule × MatchResult)
forget_found none = none
forget_found (some (rule, m)) = some (forget_hits rule, m)

match_rule-forget :
    (a : ℕ) (rule : Rule) (r : Request) → match_rule a (forget_hits rule) r ≡ match_rule a rule r
unfolding match_rule
match_rule-forget a rule r = match_targets-forget a rule r rule.targets

is_candidate-forget :
    (level : ℕ) (payload : Str) (rule : Rule)
    → is_candidate level payload (forget_hits rule) ≡ is_candidate level payload rule
unfolding is_candidate
is_candidate-forget level payload rule = refl

with_rule-forget :
    (rule : Rule) (o : Option MatchResult)
    → with_rule (forget_hits rule) o ≡ forget_found (with_rule rule o)
unfolding with_rule forget_found
with_rule-forget rule none = refl
with_rule-forget rule (some m) = refl

forget_found-if :
    (b : Bool) (o : Option (Rule × MatchResult))
    → forget_found (if b then o else none) ≡ (if b then forget_found o else none)
unfolding forget_found
forget_found-if true o = refl
forget_found-if false o = refl

forget_rule : Option Rule → Option Rule
forget_rule none = none
forget_rule (some rule) = some (forget_hits rule)

match_stored-forget :
    (level : ℕ) (payload : Str) (r : Request) (a : ℕ) (o : Option Rule)
    → match_stored level payload r a (forget_rule o)
      ≡ forget_found (match_stored level payload r a o)
unfolding match_stored forget_rule forget_found
match_stored-forget level payload r a none = refl
match_stored-forget level payload r a (some rule) =
    ap₂ (λ b o. if b then o else none) (is_candidate-forget level payload rule)
      (ap (with_rule (forget_hits rule)) (match_rule-forget a rule r)
        ∙ with_rule-forget rule (match_rule a rule r))
    ∙ sym (forget_found-if (is_candidate level payload rule) (with_rule rule (match_rule a rule r)))

get_elem?-map :
    (a : ℕ) (store : List Rule)
    → get_elem? (map forget_hits store) a ≡ forget_rule (get_elem? store a)
unfolding forget_rule
get_elem?-map a [] = refl
get_elem?-map zero (x ∷ store) = refl
get_elem?-map (suc a) (x ∷ store) = get_elem?-map a store

pub candidate_match-forget :
    (store : List Rule) (level : ℕ) (payload : Str) (r : Request) (a : ℕ)
    → candidate_match (map forget_hits store) level payload r a
      ≡ forget_found (candidate_match store level payload r a)
unfolding candidate_match
candidate_match-forget store level payload r a =
    ap (match_stored level payload r a) (get_elem?-map a store)
    ∙ match_stored-forget level payload r a (get_elem? store a)

pub map-set :
    (a : ℕ) (rule : Rule) (n : ℕ) (store : List Rule)
    → get_elem? store a ≡ some rule
    → map forget_hits (set store a (record rule { hits = n })) ≡ map forget_hits store
map-set a rule n [] h = refl
map-set zero rule n (x ∷ store) h =
    let e : rule ≡ x = cc h in ap (λ y. forget_hits y ∷ map forget_hits store) e
map-set (suc a) rule n (x ∷ store) h = ap (◌∷◌ (forget_hits x)) (map-set a rule n store h)

rule_or : Rule → Option (Rule × MatchResult) → Rule
rule_or d none = d
rule_or d (some (x, _)) = x

with_rule-same :
    (x rule : Rule) (o : Option MatchResult) (m : MatchResult)
    → with_rule x o ≡ some (rule, m)
    → x ≡ rule
unfolding with_rule rule_or
with_rule-same x rule none m h = cc
with_rule-same x rule (some n) m h =
    let l : Option (Rule × MatchResult) = some (x, n) in
    let e : l ≡ some (rule, m) = h in ap (rule_or x) e

pub match_stored-same :
    (level : ℕ) (payload : Str) (r : Request) (a : ℕ) (o : Option Rule) (rule : Rule)
    (m : MatchResult)
    → match_stored level payload r a o ≡ some (rule, m)
    → o ≡ some rule
unfolding match_stored
match_stored-same level payload r a none rule m h = cc
match_stored-same level payload r a (some x) rule m h =
    elim (Bool-cases (is_candidate level payload x)) [
      | inl c ↦ ap some (
          with_rule-same x rule (match_rule a x r) m (
            subst (λ b. (if b then with_rule x (match_rule a x r) else none) ≡ some (rule, m)) c h))
      | inr c ↦
          cc
            (subst (λ b. (if b then with_rule x (match_rule a x r) else none) ≡ some (rule, m)) c h)
    ]
