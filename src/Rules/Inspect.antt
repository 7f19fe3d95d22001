-- ===== src/Rules/Inspect.antt =====
-- rules/engine.go: `Inspect`.
use mango_waf.Common.{
  ℕ, suc, ◌+◌, Bool, true, false, ◌&&◌, ◌||◌, not, Option, none, some, List, [], ◌∷◌, ◌++◌,
  if◌then◌else◌, ltb, get_elem?, set,
}
use mango_waf.Common.Bytes.{
  Str, codes, str_eq, is_empty, to_lower, contains, has_prefix, has_suffix,
}
use mango_waf.Request.{Request, header}
use mango_waf.Rules.{Rule, MatchResult, InspectResult, Engine}
use mango_waf.Rules.Match.{header_values, match_rule}

unfoldable pub severity_score : Str → ℕ
severity_score severity =
    if str_eq severity (codes "critical")
    then 25
    else (if str_eq severity (codes "high")
        then 15
        else (if str_eq severity (codes "medium")
            then 10
            else (if str_eq severity (codes "low") then 5 else 1)))

unfoldable pub skips_inspection : Str → Bool
unfolding has_prefix has_suffix
skips_inspection path =
    has_prefix path (codes "/_next/static/")
    || has_suffix path (codes ".png")
    || has_suffix path (codes ".jpg")
    || has_suffix path (codes ".css")
    || has_suffix path (codes ".js")
    || has_suffix path (codes ".woff2")
    || has_suffix path (codes ".svg")

unfoldable pub header_payload : List Str → Str
header_payload [] = []
header_payload (v ∷ vs) = to_lower v ++ (codes "|" ++ header_payload vs)

-- An empty Cookie header adds the empty string.
unfoldable pub full_payload : Request → Str
unfolding header_payload header_values header
full_payload r =
    to_lower r.path
    ++ (codes "|"
        ++ (to_lower r.raw_query
            ++ (codes "|"
                ++ (to_lower r.method
                    ++ (codes "|"
                        ++ (header_payload (header_values r.headers)
                            ++ to_lower (header (codes "Cookie") r)))))))

-- The guards of the loop over the rules.
unfoldable pub is_candidate : ℕ → Str → Rule → Bool
unfolding contains
is_candidate level payload rule =
    rule.enabled
    && not (ltb level rule.paranoia)
    && not (not (is_empty rule.required_keyword) && not (contains payload rule.required_keyword))

unfoldable pub blocks : Rule → Bool
blocks rule = str_eq rule.action (codes "block") || str_eq rule.action (codes "drop")

unfoldable pub add_match : Rule → MatchResult → InspectResult → InspectResult
unfolding severity_score blocks
add_match rule m res =
    if blocks rule
    then record {
      blocked = true;
      matches = res.matches ++ m ∷ [];
      score = res.score + severity_score rule.severity;
      action = rule.action;
      top_rule = rule.id;
    }
    else record res {
      matches = res.matches ++ m ∷ [];
      score = res.score + severity_score rule.severity;
    }

unfoldable pub count_hit : ℕ → Rule → Engine → Engine
count_hit address rule e = record e {
  store = set e.store address (record rule { hits = suc rule.hits });
  total_matched = suc e.total_matched;
}

unfoldable pub with_rule : Rule → Option MatchResult → Option (Rule × MatchResult)
with_rule rule none = none
with_rule rule (some m) = some (rule, m)

unfoldable pub match_stored : ℕ → Str → Request → ℕ → Option Rule → Option (Rule × MatchResult)
unfolding is_candidate match_rule with_rule
match_stored level payload r address none = none
match_stored level payload r address (some rule) =
    if is_candidate level payload rule then with_rule rule (match_rule address rule r) else none

-- What the rule at an address matches in the request, with the rule.
unfoldable pub candidate_match : List Rule → ℕ → Str → Request → ℕ → Option (Rule × MatchResult)
unfolding match_stored
candidate_match store level payload r address =
    match_stored level payload r address (get_elem? store address)

unfoldable pub apply_match :
    ℕ → Option (Rule × MatchResult) → InspectResult × Engine → InspectResult × Engine
unfolding add_match count_hit
apply_match address none s = s
apply_match address (some (rule, m)) (res, e) = (add_match rule m res, count_hit address rule e)

unfoldable pub inspect_rules :
    Str → Request → List ℕ → InspectResult × Engine → InspectResult × Engine
unfolding candidate_match apply_match
inspect_rules payload r [] s = s
inspect_rules payload r (a ∷ rest) s =
    inspect_rules payload r rest
      (apply_match a (candidate_match s.1.store s.1.paranoia_level payload r a) s)

abbrev pub empty_result : InspectResult
empty_result = record { blocked = false; matches = []; score = 0; action = []; top_rule = [] }

unfoldable pub count_blocked : InspectResult × Engine → InspectResult × Engine
count_blocked (res, e) =
    if res.blocked then (res, record e { total_blocked = suc e.total_blocked }) else (res, e)

unfoldable pub inspect : Request → Engine → InspectResult × Engine
unfolding skips_inspection full_payload inspect_rules count_blocked
inspect r e =
    let e₁ = record e { total_inspected = suc e.total_inspected } in
    if not e.waf_enabled
    then (empty_result, e)
    else (if skips_inspection r.path
        then (empty_result, e₁)
        else count_blocked (inspect_rules (full_payload r) r e.rules (empty_result, e₁)))
