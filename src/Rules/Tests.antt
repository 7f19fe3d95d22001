-- ===== src/Rules/Tests.antt =====
-- The rules engine with two rules of one id. A regular expression stands for the text it contains.
use mango_waf.Common.{
  ◌≡◌, refl, true, false, Option, some, [], ◌∷◌, map, any, none, ◌&&◌, if◌then◌else◌, length,
}
use mango_waf.Common.Bytes.{Str, codes, str_eq, to_lower, contains, has_prefix, has_suffix}
use mango_waf.Common.Dict.{lookup}
use mango_waf.Request.{Request}
use mango_waf.Rules.{Rule, Regexp, Engine}
use mango_waf.Rules.Inspect.{skips_inspection, blocks, inspect}
use mango_waf.Rules.Registry.{
  remove_rule, disable_rule, enable_rule, add_rule, register, get_rule, has_id, remove_first,
}
use mango_waf.Rules.Verdict.{matching_rules, total_score, inspect_lem}
use mango_waf.Rules.Registration.{indexed_as, IsIndexed, register-IsIndexed, operations-IsIndexed}

-- The expression "(?i)text" as its literal text, in lower case.
literal : Str → Option Regexp
literal pattern = some (λ value. contains (to_lower value) (codes "union"))

abbrev quick : Rule
quick = record {
  id = codes "q1";
  name = codes "Quick Rule: q1";
  description = [];
  category = codes "sqli";
  severity = codes "high";
  phase = 1;
  targets = codes "QUERY" ∷ [];
  operator = codes "rx";
  pattern = codes "union";
  pattern_lower = codes "union";
  required_keyword = codes "union";
  compiled = literal (codes "(?i)union");
  action = codes "block";
  enabled = true;
  tags = [];
  paranoia = 1;
  hits = 0;
}

abbrev empty_engine : Engine
empty_engine = record {
  waf_enabled = true;
  paranoia_level = 1;
  store = [];
  rules = [];
  rule_index = [];
  total_inspected = 0;
  total_blocked = 0;
  total_matched = 0;
}

abbrev twins : Engine
twins = record empty_engine {
  store = quick ∷ quick ∷ [];
  rules = 0 ∷ 1 ∷ [];
  rule_index = (codes "q1", 1) ∷ [];
}

abbrev request : Request
request = record {
  method = codes "GET";
  host = codes "a.example";
  path = codes "/list";
  raw_query = codes "id=1+UNION+select";
  url = codes "/list?id=1+UNION+select";
  request_uri = codes "/list?id=1+UNION+select";
  headers = [];
  form = [];
  content_length = 0;
}

request_inspected : skips_inspection request.path ≡ false
unfolding skips_inspection has_prefix has_suffix
request_inspected = refl

inspect_lem_example :
    ((inspect request twins).0.matches ≡ map (λ f. f.1) (matching_rules request twins))
    × ((inspect request twins).0.blocked ≡ any (λ f. blocks f.0) (matching_rules request twins))
    × ((inspect request twins).0.score ≡ total_score (matching_rules request twins))
inspect_lem_example = inspect_lem request twins refl request_inspected

empty_engine-IsIndexed : IsIndexed empty_engine
unfolding lookup indexed_as
empty_engine-IsIndexed id = refl

abbrev one_rule : Engine
one_rule = register quick empty_engine

operations-IsIndexed_example :
    (IsIndexed (add_rule literal quick one_rule).1
      × IsIndexed (enable_rule (codes "q1") one_rule).1
      × IsIndexed (disable_rule (codes "q1") one_rule).1
      × IsIndexed (remove_rule (codes "q1") one_rule).1)
    × (get_rule (codes "q1") (add_rule literal quick one_rule).1 ≡ (
        if (add_rule literal quick one_rule).0 && str_eq quick.id (codes "q1")
        then some (length one_rule.store)
        else get_rule (codes "q1") one_rule))
    × (get_rule (codes "q1") (enable_rule (codes "q1") one_rule).1 ≡ get_rule (codes "q1") one_rule)
    × (get_rule (codes "q1") (disable_rule (codes "q1") one_rule).1
        ≡ get_rule (codes "q1") one_rule)
    × (get_rule (codes "q1") (remove_rule (codes "q1") one_rule).1
        ≡ (if str_eq (codes "q1") (codes "q1") then none else get_rule (codes "q1") one_rule))
operations-IsIndexed_example =
    operations-IsIndexed literal quick (codes "q1") (codes "q1") one_rule
      (register-IsIndexed quick empty_engine empty_engine-IsIndexed)

twins-get_rule : get_rule (codes "q1") twins ≡ some 1
unfolding get_rule lookup str_eq
twins-get_rule = refl

twins-remove_first : remove_first (codes "q1") twins.store twins.rules ≡ some (1 ∷ [])
unfolding remove_first has_id str_eq
twins-remove_first = refl
