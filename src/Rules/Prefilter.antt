-- ===== src/Rules/Prefilter.antt =====
-- rules/engine.go: the keyword filter of `Inspect` set beside the rule it stands for.
use mango_waf.Common.{
  ℕ, ◌≡◌, refl, subst, Bool, true, false, not, ◌&&◌, inl, inr, Option, none, some, List, [], ◌∷◌,
  ◌++◌, if◌then◌else◌, is_some, ltb, arith, Bool-cases, Option-cases,
}
use mango_waf.Common.Bytes.{Str, codes, str_eq, is_empty, to_lower, contains}
use mango_waf.Common.Infix.{contains_nil, contains-append_left, contains-append_right}
use mango_waf.Request.{Request, header, user_agent}
use mango_waf.Rules.{Rule, Regexp, MatchResult}
use mango_waf.Rules.Match.{
  header_values, match_operator, matches_rx, accepts, find_value, when_accepted, match_target,
  matched_or, match_targets, match_rule,
}
use mango_waf.Rules.Payload.{
  payload-path, payload-query, payload-method, payload-headers, value-header_payload,
}
use mango_waf.Rules.Inspect.{header_payload, full_payload, is_candidate, with_rule, match_stored}

filtered :
    (keyword l : Str) (b : Bool)
    → (if not (is_empty keyword) && not (contains l keyword) then false else b) ≡ true
    → contains l keyword ≡ true
filtered [] l b h = contains_nil l
filtered (c ∷ k) l b h = ground arith

matches_rx-keyword :
    (rule : Rule) (o : Option Regexp) (v l : Str)
    → matches_rx rule o v l ≡ true
    → contains l rule.required_keyword ≡ true
unfolding matches_rx
matches_rx-keyword rule none v l h = cc
matches_rx-keyword rule (some rx) v l h = filtered rule.required_keyword l (rx v) h

accepts-keyword :
    (rule : Rule) (v : Str)
    → rule.operator ≡ codes "rx"
    → accepts rule v ≡ true
    → contains (to_lower v) rule.required_keyword ≡ true
unfolding accepts match_operator str_eq
accepts-keyword rule v o h =
    matches_rx-keyword rule rule.compiled v (to_lower v)
      (subst (λ op. match_operator (record rule { operator = op }) v (to_lower v) ≡ true) o h)

contains-header_payload :
    (vs : List Str) (rule : Rule)
    → rule.operator ≡ codes "rx"
    → is_some (find_value (accepts rule) vs) ≡ true
    → contains (header_payload vs) rule.required_keyword ≡ true
unfolding find_value header_payload
contains-header_payload [] rule o h = cc
contains-header_payload (v ∷ vs) rule o h = elim (Bool-cases (accepts rule v)) [
  | inl a ↦
      contains-append_left (to_lower v) (codes "|" ++ header_payload vs) rule.required_keyword
        (accepts-keyword rule v o a)
  | inr a ↦
      contains-append_right (to_lower v) (codes "|" ++ header_payload vs) rule.required_keyword (
        contains-append_right (codes "|") (header_payload vs) rule.required_keyword (
          contains-header_payload vs rule o
            (subst (λ b. is_some (if b then some v else find_value (accepts rule) vs) ≡ true) a h)))
]

when_accepted-keyword :
    (rule : Rule) (v : Str)
    → rule.operator ≡ codes "rx"
    → is_some (when_accepted rule v) ≡ true
    → contains (to_lower v) rule.required_keyword ≡ true
unfolding when_accepted
when_accepted-keyword rule v o h = ground (arith, accepts-keyword rule v o)

-- The targets whose values stand in the payload as they are matched.
pub data IsPlain : Str → Type 0 where
  path_plain : IsPlain (codes "PATH")
  query_plain : IsPlain (codes "QUERY")
  method_plain : IsPlain (codes "METHOD")
  ua_plain : IsPlain (codes "UA")
  headers_plain : IsPlain (codes "HEADERS")

-- A target a regular-expression rule matches, of those in the payload as they stand, shows the required keyword there.
match_target-keyword :
    (rule : Rule) (r : Request) (t : Str)
    → rule.operator ≡ codes "rx"
    → IsPlain t
    → is_some (match_target rule r t) ≡ true
    → contains (full_payload r) rule.required_keyword ≡ true
unfolding match_target str_eq header user_agent
match_target-keyword rule r _ o path_plain h =
    payload-path r rule.required_keyword (when_accepted-keyword rule r.path o h)
match_target-keyword rule r _ o query_plain h =
    payload-query r rule.required_keyword (when_accepted-keyword rule r.raw_query o h)
match_target-keyword rule r _ o method_plain h =
    payload-method r rule.required_keyword (when_accepted-keyword rule r.method o h)
match_target-keyword rule r _ o ua_plain h = payload-headers r rule.required_keyword (
    value-header_payload (codes "User-Agent") r.headers rule.required_keyword
      (when_accepted-keyword rule (user_agent r) o h))
match_target-keyword rule r _ o headers_plain h =
    payload-headers r rule.required_keyword
      (contains-header_payload (header_values r.headers) rule o h)

pub data AllPlain : List Str → Type 0 where
  none_left : AllPlain []
  next_plain : {t : Str} {ts : List Str} → IsPlain t → AllPlain ts → AllPlain (t ∷ ts)

match_targets-keyword :
    (a : ℕ) (rule : Rule) (r : Request) (ts : List Str)
    → rule.operator ≡ codes "rx"
    → AllPlain ts
    → is_some (match_targets a rule r ts) ≡ true
    → contains (full_payload r) rule.required_keyword ≡ true
unfolding match_targets matched_or
match_targets-keyword a rule r [] o p h = cc
match_targets-keyword a rule r (t ∷ ts) o (next_plain q p) h =
    elim (Option-cases (match_target rule r t)) [
      | inl e ↦
          match_targets-keyword a rule r ts o p
            (subst (λ x. is_some (matched_or a t x (match_targets a rule r ts)) ≡ true) e h)
      | inr (v, e) ↦ match_target-keyword rule r t o q (rw e refl)
    ]

kept_match :
    (b c : Bool) (u s : Str) (rule : Rule) (o : Option MatchResult)
    → (is_some o ≡ true → contains s u ≡ true)
    → (if b && not c && not (not (is_empty u) && not (contains s u))
        then with_rule rule o
        else none)
      ≡ (if b && not c then with_rule rule o else none)
unfolding with_rule
kept_match b c u s rule none h = ground arith
kept_match b c u s rule (some m) h = ground (arith, h refl)

-- For a regular-expression rule on the path, the query, the method, the user agent or the headers, the keyword
-- filter of Inspect over the whole payload never decides: matchRule repeats the test of the keyword on each
-- target, so what the filter hides does not match there either.
pub match_stored-unfiltered :
    (level a : ℕ) (r : Request) (rule : Rule)
    → rule.operator ≡ codes "rx"
    → AllPlain rule.targets
    → match_stored level (full_payload r) r a (some rule) ≡ (
        if rule.enabled && not (ltb level rule.paranoia)
        then with_rule rule (match_rule a rule r)
        else none)
unfolding match_stored is_candidate match_rule
match_stored-unfiltered level a r rule o p =
    kept_match rule.enabled (ltb level rule.paranoia) rule.required_keyword (full_payload r) rule
      (match_targets a rule r rule.targets) (match_targets-keyword a rule r rule.targets o p)
