-- ===== src/Center/Load.antt =====
-- config/config.go: `setDefaults`, `validate` and `Load`, and config/center.go: `ValidateConfig`. An error is none or
-- the name of the check that fails.
use mango_waf.Center.{
  ConfigRevision, ConfigBackup, Settings, ServerConfig, ProxyConfig, ProtectionConfig, Site,
  Endpoint, seconds,
}
use mango_waf.Common.Bytes.{Str, codes, is_empty, str_eq, to_lower, trim_space, has_byte}
use mango_waf.Common.Int.{ℤ, pos, negsuc, ltb_ℤ}
use mango_waf.Common.{
  any, true, false, none, some, [], ◌∷◌, Bool, Option, List, ◌++◌, ◌&&◌, ◌||◌, not, ◌==◌,
  if◌then◌else◌, ℕ,
}

-- What the packages outside give: yaml.v3, viper, encoding/json, net, path/filepath, time's Format, crypto/rand and the file system.
pub record Libraries : Type 0 where
  pub unmarshal : Str → Option Settings
  pub marshal : Settings → Option Str
  pub read_config : Str → Option Settings
  pub parses_cidr : Str → Bool
  pub join : Str → Str → Str
  pub format_time : ℕ → Str
  pub revisions_json : List ConfigRevision → Str
  pub backups_json : List ConfigBackup → Str
  pub read_revisions : Str → List ConfigRevision
  pub read_backups : Str → List ConfigBackup
  pub cookie_secret : Str
  pub jwt_secret : Str
  pub can_write : Str → Bool

-- `if x == 0 { x = d }` and `if s == "" { s = d }`.
abbrev pub or_int : ℤ → ℤ → ℤ
or_int (pos n) d = if n == 0 then d else pos n
or_int (negsuc n) d = negsuc n

abbrev pub or_str : Str → Str → Str
or_str [] d = d
or_str (c ∷ s) d = c ∷ s

abbrev default_server : ServerConfig → ServerConfig
default_server s = record {
  listen = or_str s.listen (codes "0.0.0.0:443");
  http_listen = or_str s.http_listen (codes "0.0.0.0:80");
  read_timeout = or_int s.read_timeout (seconds 10);
  write_timeout = or_int s.write_timeout (seconds 30);
  idle_timeout = or_int s.idle_timeout (seconds 30);
  max_header_bytes = or_int s.max_header_bytes (pos 65536);
}

abbrev default_proxy : ProxyConfig → ProxyConfig
default_proxy p = record {
  connect_timeout = or_int p.connect_timeout (seconds 3);
  response_timeout = or_int p.response_timeout (seconds 5);
  max_idle_conns = or_int p.max_idle_conns (pos 20000);
  max_idle_conns_per_host = or_int p.max_idle_conns_per_host (pos 5000);
  idle_conn_timeout = or_int p.idle_conn_timeout (seconds 90);
  buffer_size_kb = or_int p.buffer_size_kb (pos 64);
}

abbrev default_protection : Str → ProtectionConfig → ProtectionConfig
default_protection secret p = record {
  mode = or_str p.mode (codes "auto");
  trusted_proxies = p.trusted_proxies;
  rate_limit = record {
    requests_per_second = or_int p.rate_limit.requests_per_second (pos 50);
    burst = or_int p.rate_limit.burst (pos 100);
  };
  connection_limit = record {
    max_per_ip = or_int p.connection_limit.max_per_ip (pos 50);
    max_total = or_int p.connection_limit.max_total (pos 10000);
  };
  challenge = record {
    pow_difficulty = or_int p.challenge.pow_difficulty (pos 3);
    cookie_ttl = or_int p.challenge.cookie_ttl (seconds 1800);
    cookie_secret = or_str p.challenge.cookie_secret secret;
  };
  ban = record {
    duration = or_int p.ban.duration (seconds 7200);
    max_fails = or_int p.ban.max_fails (pos 3);
  };
  emergency = record {
    rps_threshold = or_int p.emergency.rps_threshold (pos 200);
    duration = or_int p.emergency.duration (seconds 30);
  };
}

unfoldable pub set_defaults : Libraries → Settings → Settings
set_defaults o cfg = record {
  server = default_server cfg.server;
  domains = cfg.domains;
  proxy = default_proxy cfg.proxy;
  protection = default_protection o.cookie_secret cfg.protection;
  detection = record {
    sensitivity = or_int cfg.detection.sensitivity (pos 70);
    learning_period = or_int cfg.detection.learning_period (seconds 86400);
    session_ttl = or_int cfg.detection.session_ttl (seconds 1800);
  };
  logging = record {
    level = or_str cfg.logging.level (codes "info");
    format = or_str cfg.logging.format (codes "json");
    max_size_mb = or_int cfg.logging.max_size_mb (pos 100);
    max_backups = or_int cfg.logging.max_backups (pos 5);
  };
  dashboard = record {
    username = or_str cfg.dashboard.username (codes "admin");
    password = or_str cfg.dashboard.password (codes "admin123_change_in_production");
    jwt_secret = or_str cfg.dashboard.jwt_secret o.jwt_secret;
  };
  paranoia_level = or_int cfg.paranoia_level (pos 1);
  xdp = record {
    interface = or_str cfg.xdp.interface (codes "eth0");
    mode = or_str cfg.xdp.mode (codes "skb");
    map_pin_path = or_str cfg.xdp.map_pin_path (codes "/sys/fs/bpf/mango_blacklist");
  };
  http3_port = or_int cfg.http3_port (pos 443);
  cluster = cfg.cluster;
}

abbrev pub no_upstreams : List Endpoint → Bool
no_upstreams [] = true
no_upstreams (_ ∷ _) = false

abbrev pub no_sites : List Site → Bool
no_sites [] = true
no_sites (_ ∷ _) = false

abbrev pub outside_of : ℤ → ℤ → ℤ → Bool
outside_of low high n = ltb_ℤ n low || ltb_ℤ high n

abbrev pub valid_modes : List Str
valid_modes =
    codes "auto"
    ∷ codes "challenge"
    ∷ codes "captcha"
    ∷ codes "block"
    ∷ codes "monitor"
    ∷ codes "emergency"
    ∷ codes "off"
    ∷ codes "silent"
    ∷ codes "under_attack"
    ∷ []

abbrev pub as_network : Str → Str
as_network proxy = if has_byte b'/' proxy then proxy else proxy ++ codes "/32"

-- `validate`, true without an error.
unfoldable pub is_loadable : Libraries → Settings → Bool
unfolding to_lower str_eq has_byte
is_loadable o cfg =
    not (no_sites cfg.domains)
    && (not (any (λ (d : Site). is_empty d.name || no_upstreams d.upstreams) cfg.domains)
        && (not (ltb_ℤ cfg.protection.emergency.rps_threshold (pos 10))
            && (any (str_eq (to_lower cfg.protection.mode)) valid_modes
                && (not (
                      any (λ (p : Str). not (o.parses_cidr (as_network p)))
                        cfg.protection.trusted_proxies)
                    && not (outside_of (pos 1) (pos 10) cfg.protection.challenge.pow_difficulty)))))

abbrev pub only_loadable : Libraries → Option Settings → Option Settings
only_loadable o none = none
only_loadable o (some cfg) = if is_loadable o cfg then some cfg else none

abbrev pub defaulted : Libraries → Option Settings → Option Settings
defaulted o none = none
defaulted o (some cfg) = some (set_defaults o cfg)

-- `Load`, by the contents of the file.
unfoldable pub load_config : Libraries → Str → Option Settings
unfolding set_defaults is_loadable
load_config o contents = only_loadable o (defaulted o (o.read_config contents))

abbrev pub bad_site : Site → Bool
bad_site d =
    is_empty (trim_space d.name)
    || (no_upstreams d.upstreams
        || any (λ (up : Endpoint). is_empty (trim_space up.url)) d.upstreams)

-- `ValidateConfig`, true without an error.
unfoldable pub validate_config : Settings → Bool
unfolding trim_space
validate_config cfg =
    not (is_empty cfg.server.listen)
    && (not (outside_of (pos 1) (pos 4) cfg.paranoia_level) && not (any bad_site cfg.domains))

abbrev pub only_valid : Option Settings → Option Settings
only_valid none = none
only_valid (some cfg) = if validate_config cfg then some cfg else none

-- `ValidateYAML`
unfoldable pub validate_yaml : Libraries → Str → Option Settings
unfolding validate_config
validate_yaml o raw = only_valid (o.unmarshal raw)
