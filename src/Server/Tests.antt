-- ===== src/Server/Tests.antt =====
-- Runs of the request handler, and the theorems at concrete inputs.
use mango_waf.Server.Effects.{outputs-handle_request}
use mango_waf.Server.Guard.{handle_request-inspect, delivered}
use mango_waf.Server.{handle_request, split_first, extract_ip, Outside, Counts, ignored}
use mango_waf.Pipeline.BanLaws.{outputs}
use mango_waf.Server.Accounts.{handle_request-Counted, Counted}
use mango_waf.Common.Bytes.{Str, codes, str_eq, to_lower, has_prefix, has_suffix, contains}
use mango_waf.Common.Dict.{lookup}
use mango_waf.Request.{Request}
use mango_waf.Rules.{Rule, Engine}
use mango_waf.Rules.Inspect.{
  skips_inspection, is_candidate, blocks, with_rule, match_stored, candidate_match,
}
use mango_waf.Rules.Match.{
  lower_pattern, match_operator, accepts, when_accepted, match_target, matched_or, match_targets,
  match_rule,
}
use mango_waf.Rules.Verdict.{found, matching_rules}
use mango_waf.Pipeline.{Engines}
use mango_waf.Pipeline.Bans.{check_is_trusted_proxy, is_trusted_proxy, is_whitelisted}
use mango_waf.Pipeline.State.{get_or_create}
use mango_waf.Shards.{load, new_sharded}
use mango_waf.Pipeline.Samples.{friend, attacker, env_at, pipeline, engines, request}
use mango_waf.Pipeline.Firewall.{inspection}
use mango_waf.Common.{any, true, false, none, some, [], ◌∷◌, refl, Option, ◌≡◌}

abbrev union_rule : Rule
union_rule = record {
  id = codes "942100";
  name = codes "SQL union";
  description = [];
  category = codes "sqli";
  severity = codes "critical";
  phase = 1;
  targets = codes "QUERY" ∷ [];
  operator = codes "contains";
  pattern = codes "union";
  pattern_lower = codes "union";
  required_keyword = [];
  compiled = none;
  action = codes "block";
  enabled = true;
  tags = [];
  paranoia = 1;
  hits = 0;
}

abbrev engine : Engine
engine = record {
  waf_enabled = true;
  paranoia_level = 1;
  store = union_rule ∷ [];
  rules = 0 ∷ [];
  rule_index = (codes "942100", 0) ∷ [];
  total_inspected = 0;
  total_blocked = 0;
  total_matched = 0;
}

abbrev attack : Request
attack = record request { raw_query = codes "id=union" }

abbrev guarded : Engines
guarded = record engines { inspect = some (inspection engine) }

attack-skips_inspection : skips_inspection attack.path ≡ false
unfolding skips_inspection has_prefix has_suffix
attack-skips_inspection = refl

attack-matching_rules : any (λ f. blocks f.0) (matching_rules attack engine) ≡ true
unfolding found candidate_match match_stored is_candidate match_rule match_targets matched_or
    match_target when_accepted accepts match_operator lower_pattern with_rule blocks str_eq contains
    has_prefix to_lower
attack-matching_rules = refl

abbrev outside : Outside
outside = record { verify_form = λ r ip. ignored; cached = λ r. false; has_upstreams = true }

-- An address up to its port.
abbrev host_of : Str → Option Str
host_of s = some (split_first s b':')

abbrev no_counts : Counts
no_counts = record {
  total_requests = 0;
  passed_requests = 0;
  blocked_requests = 0;
  domain_reqs = [];
  challenge_fails = [];
}

-- A client that is no proxy cannot choose its address by a header.
unspoofed :
    (extract_ip
      (env_at 0)
      host_of
      (codes "203.0.113.9:4000")
      (record request { headers = (codes "X-Forwarded-For", codes "192.0.2.1" ∷ []) ∷ [] })
      pipeline).0
    ≡ attacker
unfolding extract_ip lookup str_eq is_trusted_proxy split_first get_or_create load new_sharded
    check_is_trusted_proxy
unspoofed = refl

friend-extract_ip :
    (extract_ip (env_at 0) host_of (codes "192.0.2.1:4000") request pipeline).0 ≡ friend
unfolding extract_ip lookup str_eq is_trusted_proxy split_first get_or_create load new_sharded
    check_is_trusted_proxy
friend-extract_ip = refl

friend-is_whitelisted : is_whitelisted friend pipeline ≡ true
unfolding is_whitelisted str_eq
friend-is_whitelisted = refl

outputs-handle_request_example :
    outputs
      (handle_request
        (env_at 0)
        engines
        outside
        host_of
        (codes "192.0.2.1:4000")
        request
        none
        no_counts
        pipeline).1
    ≡ outputs pipeline
outputs-handle_request_example =
    outputs-handle_request (env_at 0) engines outside host_of (codes "192.0.2.1:4000") request none
      no_counts friend pipeline friend-extract_ip (λ form e. cc) friend-is_whitelisted

handle_request-inspect_example :
    delivered
      (handle_request
        (env_at 0)
        guarded
        outside
        host_of
        (codes "203.0.113.9:4000")
        attack
        none
        no_counts
        pipeline).0.0
    ≡ false
handle_request-inspect_example =
    handle_request-inspect (env_at 0) guarded outside host_of (codes "203.0.113.9:4000") attack none
      no_counts engine pipeline refl refl refl refl attack-skips_inspection attack-matching_rules

handle_request-Counted_example :
    Counted request no_counts
      (handle_request
        (env_at 0)
        engines
        outside
        host_of
        (codes "192.0.2.1:4000")
        request
        none
        no_counts
        pipeline).0
handle_request-Counted_example =
    handle_request-Counted (env_at 0) engines outside host_of (codes "192.0.2.1:4000") request none
      no_counts pipeline
