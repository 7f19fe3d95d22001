-- ===== src/Rules/Match.antt =====
-- rules/engine.go: `requestData`, `matchOperator` and `matchRule`.
use mango_waf.Common.{
  ℕ, Bool, false, ◌&&◌, not, Option, none, some, List, [], ◌∷◌, ◌++◌, if◌then◌else◌,
}
use mango_waf.Common.Bytes.{
  Str, codes, str_eq, is_empty, to_lower, contains, has_prefix, has_suffix,
}
use mango_waf.Common.Dict.{Dict}
use mango_waf.Request.{Request, header, user_agent}
use mango_waf.Rules.{Rule, Regexp, MatchResult}
use mango_waf.Rules.Text.{for_each_query_arg, for_each_cookie_value, truncate}

-- `getHeaders`: every value of every header.
unfoldable pub header_values : Dict (List Str) → List Str
header_values [] = []
header_values ((_, vals) ∷ hs) = vals ++ header_values hs

unfoldable pub lower_pattern : Rule → Str
lower_pattern rule =
    if is_empty rule.pattern_lower then to_lower rule.pattern else rule.pattern_lower

unfoldable pub matches_rx : Rule → Option Regexp → Str → Str → Bool
unfolding contains
matches_rx rule none value value_lower = false
matches_rx rule (some rx) value value_lower =
    if not (is_empty rule.required_keyword) && not (contains value_lower rule.required_keyword)
    then false
    else rx value

lacks_rx : Option Regexp → Str → Bool
lacks_rx none value = false
lacks_rx (some rx) value = not (rx value)

unfoldable pub match_operator : Rule → Str → Str → Bool
unfolding lower_pattern matches_rx lacks_rx
match_operator rule value value_lower =
    let op = rule.operator in
    if str_eq op (codes "rx")
    then matches_rx rule rule.compiled value value_lower
    else (if str_eq op (codes "!rx")
        then lacks_rx rule.compiled value
        else (if str_eq op (codes "contains")
            then contains value_lower (lower_pattern rule)
            else (if str_eq op (codes "eq")
                then str_eq (to_lower value) (to_lower rule.pattern)
                else (if str_eq op (codes "beginsWith")
                    then has_prefix value_lower (lower_pattern rule)
                    else str_eq op (codes "endsWith")
                      && has_suffix value_lower (lower_pattern rule)))))

-- `matchOperator` on a value and its lower-case form, which each caller computes.
unfoldable pub accepts : Rule → Str → Bool
unfolding match_operator
accepts rule value = match_operator rule value (to_lower value)

unfoldable pub find_value : (Str → Bool) → List Str → Option Str
find_value p [] = none
find_value p (v ∷ vs) = let rest = find_value p vs in if p v then some v else rest

unfoldable pub when_accepted : Rule → Str → Option Str
unfolding accepts
when_accepted rule value = if accepts rule value then some value else none

-- The value of one target that the rule matches.
unfoldable pub match_target : Rule → Request → Str → Option Str
unfolding when_accepted accepts header_values find_value for_each_query_arg for_each_cookie_value
    header user_agent
match_target rule r target =
    if str_eq target (codes "URL")
    then when_accepted rule r.url
    else (if str_eq target (codes "PATH")
        then when_accepted rule r.path
        else (if str_eq target (codes "QUERY")
            then when_accepted rule r.raw_query
            else (if str_eq target (codes "METHOD")
                then when_accepted rule r.method
                else (if str_eq target (codes "UA")
                    then when_accepted rule (user_agent r)
                    else (if str_eq target (codes "HEADERS")
                        then find_value (accepts rule) (header_values r.headers)
                        else (if str_eq target (codes "ARGS")
                            then (if is_empty r.raw_query
                                then none
                                else for_each_query_arg r.raw_query (accepts rule))
                            else (if str_eq target (codes "COOKIES")
                                then (if is_empty (header (codes "Cookie") r)
                                    then none
                                    else for_each_cookie_value (header (codes "Cookie") r)
                                        (accepts rule))
                                else none)))))))

unfoldable pub matched_or : ℕ → Str → Option Str → Option MatchResult → Option MatchResult
unfolding truncate
matched_or address target none rest = rest
matched_or address target (some v) rest =
    some (record { rule = address; matched_val = truncate v 100; target = target })

unfoldable pub match_targets : ℕ → Rule → Request → List Str → Option MatchResult
unfolding match_target matched_or
match_targets address rule r [] = none
match_targets address rule r (target ∷ ts) =
    matched_or address target (match_target rule r target) (match_targets address rule r ts)

unfoldable pub match_rule : ℕ → Rule → Request → Option MatchResult
unfolding match_targets
match_rule address rule r = match_targets address rule r rule.targets
