-- ===== src/Pipeline/Samples.antt =====
-- A concrete configuration, with the address functions of Go's packages and the other engines given by
-- concrete functions.
use mango_waf.Common.{ℕ, true, false, none, some, [], ◌∷◌, if◌then◌else◌}
use mango_waf.Common.Int.{pos}
use mango_waf.Common.Bytes.{Str, codes, str_eq}
use mango_waf.Request.{Request}
use mango_waf.Shards.{Sharded, new_sharded, fnv32a, store}
use mango_waf.Pipeline.{Config, IpState, Pipeline, Env, Engines}

abbrev pub attacker : Str
attacker = codes "203.0.113.9"

abbrev pub friend : Str
friend = codes "192.0.2.1"

abbrev pub env_at : ℕ → Env
env_at t = record {
  now = t;
  now_sec = t;
  parse_addr = λ s. if str_eq s attacker then some (203 ∷ 0 ∷ 113 ∷ 9 ∷ []) else none;
  parse_ip = λ s. none;
  to4 = λ s. none;
  parse_cidr = λ s. none;
}

abbrev pub config : Config
config = record {
  domains = record { name = codes "a.example"; protection_mode = codes "auto" } ∷ [];
  mode = codes "auto";
  waf_enabled = true;
  auto_enable = true;
  rps_threshold = 1000;
  max_per_ip = 50;
  ban_duration = 600;
  ja3_enabled = false;
  rate_limit_enabled = false;
  requests_per_second = 100;
  pow_difficulty = 4;
  pow_adaptive = false;
  bot_classifier_enabled = false;
  cloudflare_enabled = false;
  trusted_proxies = [];
  whitelist_ips = friend ∷ [];
}

abbrev pub bans : Sharded ℕ
bans = store fnv32a attacker 10 new_sharded

abbrev pub pipeline : Pipeline
pipeline = record {
  cfg = config;
  domain_mode_map = [];
  valid_host_map = [];
  ip_states = new_sharded;
  banned = bans;
  whitelist = new_sharded;
  ban_queue = [];
  xdp = none;
  mesh = none;
  cf_bans = none;
  cf_unbans = none;
  banned_ips = pos 1;
}

-- The firewall blocks every request, and every proof is valid.
abbrev pub engines : Engines
engines = record {
  domain_under_attack = λ host. false;
  domain_rps = λ host. 0;
  current_rps = 0;
  is_under_attack = false;
  feature_disabled = none;
  inspect = some (λ r. record { blocked = true; top_rule = codes "942100" });
  validate = none;
  evaluate = none;
  rate_allow = none;
  analyze = none;
  classify = none;
  check_rate_limit = none;
  challenge_level = none;
  verify_proof = some (λ r ip. true);
}

abbrev pub request : Request
request = record {
  method = codes "GET";
  host = codes "a.example";
  path = codes "/login";
  raw_query = codes "id=1";
  url = codes "/login?id=1";
  request_uri = codes "/login?id=1";
  headers = [];
  form = [];
  content_length = 0;
}

abbrev pub first_state : IpState
first_state = record {
  rps = 0;
  last_reset = none;
  last_seen = 0;
  first_seen = 0;
  trust_score = 5000;
  ja3_hash = [];
  total_requests = 0;
  rate_limit_hits = 0;
  challenge_hits = 0;
  cps = 0;
  conn_last_reset = none;
  is_trusted_proxy = false;
  active_conns = 0;
}
