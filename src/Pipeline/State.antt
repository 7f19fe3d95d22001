-- ===== src/Pipeline/State.antt =====
-- core/pipeline.go: the per-IP states in their 256 shards, the domain maps and the tests on a request
-- that need no other engine.
use mango_waf.Common.{
  ℕ, zero, suc, ◌+◌, ◌-◌, ◌*◌, ◌/◌, ◌%◌, ◌^◌, bit_xor, Bool, true, false, not, ◌||◌, Option, none,
  some, List, [], ◌∷◌, reverse, ltb, ◌==◌, if◌then◌else◌, any, take, get_or,
}
use mango_waf.Common.Bytes.{
  Str, codes, str_eq, is_empty, to_lower, has_prefix, contains, last_index_byte,
}
use mango_waf.Common.Dict.{Dict, lookup, insert, retain}
use mango_waf.Request.{Request, user_agent}
use mango_waf.Shards.{Sharded, load, store, num_shards, update}
use mango_waf.Pipeline.{DomainConfig, IpState, Pipeline, Env}

unfoldable pub zero_key : Str
zero_key = 0 ∷ 0 ∷ 0 ∷ 0 ∷ 0 ∷ 0 ∷ 0 ∷ 0 ∷ 0 ∷ 0 ∷ 0 ∷ 0 ∷ 0 ∷ 0 ∷ 0 ∷ 0 ∷ []

unfoldable pub parse_ip_fast : Env → Str → Str
parse_ip_fast env ip = elim (env.parse_addr ip) [ some addr ↦ addr | none ↦ zero_key ]

abbrev mix : ℕ → ℕ → ℕ
mix hash c = bit_xor hash c * 16777619 % 2 ^ 32

-- The unrolled hash of the 16 bytes.
unfoldable pub fnv32_ip : Str → ℕ
fnv32_ip key =
    let h0 = mix 2166136261 (get_or key 0 0) in
    let h1 = mix h0 (get_or key 1 0) in
    let h2 = mix h1 (get_or key 2 0) in
    let h3 = mix h2 (get_or key 3 0) in
    let h4 = mix h3 (get_or key 4 0) in
    let h5 = mix h4 (get_or key 5 0) in
    let h6 = mix h5 (get_or key 6 0) in
    let h7 = mix h6 (get_or key 7 0) in
    let h8 = mix h7 (get_or key 8 0) in
    let h9 = mix h8 (get_or key 9 0) in
    let h10 = mix h9 (get_or key 10 0) in
    let h11 = mix h10 (get_or key 11 0) in
    let h12 = mix h11 (get_or key 12 0) in
    let h13 = mix h12 (get_or key 13 0) in
    let h14 = mix h13 (get_or key 14 0) in mix h14 (get_or key 15 0)

unfoldable pub new_state : ℕ → Bool → IpState
new_state now is_trusted = record {
  rps = 0;
  last_reset = some now;
  last_seen = now;
  first_seen = now;
  trust_score = if is_trusted then 10000 else 5000;
  ja3_hash = [];
  total_requests = 0;
  rate_limit_hits = 0;
  challenge_hits = 0;
  cps = 0;
  conn_last_reset = none;
  is_trusted_proxy = is_trusted;
  active_conns = 0;
}

-- The state of the key after `GetOrCreate`: the one that is there, seen now, or a new one.
unfoldable pub found_state : ℕ → Bool → Option IpState → IpState
unfolding new_state
found_state now is_trusted (some s) = record s { last_seen = now }
found_state now is_trusted none = new_state now is_trusted

unfoldable pub get_or_create : Env → Str → Bool → Sharded IpState → IpState × Sharded IpState
unfolding found_state
get_or_create env ip is_trusted m =
    let key = parse_ip_fast env ip in
    let s = found_state env.now is_trusted (load fnv32_ip key m) in (s, store fnv32_ip key s m)

-- `IPStateMap.Cleanup`: the states idle for longer than the timeout are deleted, shard by shard.
unfoldable pub cleanup_states_upto : ℕ → ℕ → ℕ → Sharded IpState → Sharded IpState
cleanup_states_upto now idle zero m = m
cleanup_states_upto now idle (suc n) m =
    let m' = cleanup_states_upto now idle n m in
    record {
      shard = update m'.shard n (retain (λ s. not (ltb idle (now - s.last_seen))) (m'.shard n));
    }

unfoldable pub cleanup_states : ℕ → ℕ → Sharded IpState → Sharded IpState
unfolding cleanup_states_upto
cleanup_states now idle m = cleanup_states_upto now idle num_shards m

-- `buildDomainMaps`: the later of two domains of one name wins.
unfoldable pub build_host_map : List DomainConfig → Dict Bool → Dict Bool
build_host_map [] hosts = hosts
build_host_map (d ∷ ds) hosts = build_host_map ds (insert (to_lower d.name) true hosts)

unfoldable pub build_mode_map : List DomainConfig → Dict Str → Dict Str
build_mode_map [] modes = modes
build_mode_map (d ∷ ds) modes =
    build_mode_map ds (
      if is_empty d.protection_mode
      then modes
      else insert (to_lower d.name) d.protection_mode modes)

-- The host in lower case, less the port.
unfoldable pub cut_port : Str → Option ℕ → Str
cut_port host (some (suc i)) = take (suc i) host
cut_port host _ = host

unfoldable pub strip_port : Str → Str
unfolding cut_port
strip_port host = let h = to_lower host in cut_port h (last_index_byte b':' h)

unfoldable pub resolve_domain_mode : Pipeline → Request → Str
resolve_domain_mode p r = elim (lookup (strip_port r.host) p.domain_mode_map) [
  | some mode ↦ mode
  | none ↦ p.cfg.mode
]

abbrev is_true : Option Bool → Bool
is_true (some true) = true
is_true _ = false

unfoldable pub valid_host : Pipeline → Request → Bool
valid_host p r =
    let host = strip_port r.host in
    is_true (lookup host p.valid_host_map) || any (λ e. contains host e.0) p.valid_host_map

unfoldable pub bad_agents : List Str
bad_agents =
    codes "curl"
    ∷ codes "wget"
    ∷ codes "python"
    ∷ codes "java"
    ∷ codes "go-http-client"
    ∷ codes "node-fetch"
    ∷ codes "axios"
    ∷ codes "httpie"
    ∷ codes "scrapy"
    ∷ codes "crawler"
    ∷ codes "spider"
    ∷ codes "scan"
    ∷ codes "masscan"
    ∷ codes "nikto"
    ∷ codes "sqlmap"
    ∷ codes "nmap"
    ∷ codes "dirbuster"
    ∷ codes "gobuster"
    ∷ []

unfoldable pub is_bad_ua : Request → Bool
unfolding bad_agents
is_bad_ua r =
    let ua = user_agent r in
    is_empty ua || any (λ keyword. contains (to_lower ua) keyword) bad_agents

-- filepath.Ext over the reversed path: from the last dot of the last element.
ext_from : Str → Str → Str
ext_from acc [] = []
ext_from acc (c ∷ s) =
    let more = ext_from (c ∷ acc) s in if c == b'/' then [] else if c == b'.' then c ∷ acc else more

unfoldable pub ext : Str → Str
unfolding ext_from
ext path = ext_from [] (reverse path)

unfoldable pub static_extensions : List Str
static_extensions =
    codes ".css"
    ∷ codes ".js"
    ∷ codes ".png"
    ∷ codes ".jpg"
    ∷ codes ".jpeg"
    ∷ codes ".gif"
    ∷ codes ".svg"
    ∷ codes ".ico"
    ∷ codes ".woff"
    ∷ codes ".woff2"
    ∷ codes ".ttf"
    ∷ codes ".eot"
    ∷ []

unfoldable pub is_static_asset : Str → Bool
unfolding ext static_extensions
is_static_asset path =
    has_prefix path (codes "/api/")
    || str_eq path (codes "/api")
    || any (str_eq (to_lower (ext path))) static_extensions
    || str_eq path (codes "/favicon.ico")

-- `LastReset.Unix()` against the cached second. (A time that was never set is long before it.)
unfoldable pub same_second : ℕ → Option ℕ → Bool
same_second now_sec none = false
same_second now_sec (some t) = now_sec == t / 10 ^ 9

unfoldable pub start_of : ℕ → ℕ
start_of sec = sec * 10 ^ 9

-- `updateRPS` on the state that the pointer names.
unfoldable pub updated_rps : Env → IpState → IpState
unfolding same_second start_of
updated_rps env s =
    if same_second env.now_sec s.last_reset
    then record s { total_requests = s.total_requests + 1; rps = s.rps + 1 }
    else record s {
      total_requests = s.total_requests + 1;
      rps = 1;
      last_reset = some (start_of env.now_sec);
    }
