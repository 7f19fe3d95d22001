-- ===== src/Center.antt =====
-- config/config.go and config/center.go: the configuration, as far as the two files look into it. Integers and
-- durations may be negative; the sensitivity is in hundredths. The sections of Detection stand in one record, the
-- paranoia level for the section WAF and the port for HTTP3; fields that are only carried along are left out.
pub mod Load
pub mod Store
pub mod Save
pub mod Operations
pub mod Diff
pub mod Atomic
pub mod InForce
pub mod History
pub mod Apart
pub mod Restore
pub mod Restart
pub mod Sides
mod Tests
use mango_waf.Common.Bytes.{Str, codes}
use mango_waf.Common.Int.{ℤ, pos}
use mango_waf.Common.{
  ℕ, true, false, [], ◌∷◌, Bool, List, zero, suc, none, some, inl, inr, refl, Option, ◌≡◌, ◌++◌,
  ◌+◌, ◌-◌, ◌*◌, ◌≤◌, ◌<◌, ◌&&◌, ◌||◌, not, ltb, leb, ◌==◌, if◌then◌else◌, length, Bool-cases,
  Option-cases, arith, ap, sym, ◌∙◌, ◌≢◌, ◌↔◌, ◌⊎◌,
}

pub record ServerConfig : Type 0 where
  pub listen : Str
  pub http_listen : Str
  pub read_timeout : ℤ
  pub write_timeout : ℤ
  pub idle_timeout : ℤ
  pub max_header_bytes : ℤ

pub record Endpoint : Type 0 where
  pub url : Str
  pub weight : ℤ

pub record Site : Type 0 where
  pub name : Str
  pub upstreams : List Endpoint
  pub owner : Str

pub record ProxyConfig : Type 0 where
  pub connect_timeout : ℤ
  pub response_timeout : ℤ
  pub max_idle_conns : ℤ
  pub max_idle_conns_per_host : ℤ
  pub idle_conn_timeout : ℤ
  pub buffer_size_kb : ℤ

pub record RateLimitConfig : Type 0 where
  pub requests_per_second : ℤ
  pub burst : ℤ

pub record ConnLimitConfig : Type 0 where
  pub max_per_ip : ℤ
  pub max_total : ℤ

pub record ChallengeSettings : Type 0 where
  pub pow_difficulty : ℤ
  pub cookie_ttl : ℤ
  pub cookie_secret : Str

pub record BanConfig : Type 0 where
  pub duration : ℤ
  pub max_fails : ℤ

pub record EmergencyConfig : Type 0 where
  pub rps_threshold : ℤ
  pub duration : ℤ

pub record ProtectionConfig : Type 0 where
  pub mode : Str
  pub trusted_proxies : List Str
  pub rate_limit : RateLimitConfig
  pub connection_limit : ConnLimitConfig
  pub challenge : ChallengeSettings
  pub ban : BanConfig
  pub emergency : EmergencyConfig

pub record DetectionConfig : Type 0 where
  pub sensitivity : ℤ
  pub learning_period : ℤ
  pub session_ttl : ℤ

pub record LoggingConfig : Type 0 where
  pub level : Str
  pub format : Str
  pub max_size_mb : ℤ
  pub max_backups : ℤ

pub record DashboardConfig : Type 0 where
  pub username : Str
  pub password : Str
  pub jwt_secret : Str

pub record XdpConfig : Type 0 where
  pub interface : Str
  pub mode : Str
  pub map_pin_path : Str

pub record ClusterConfig : Type 0 where
  pub enabled : Bool
  pub node_name : Str
  pub bind_port : ℤ
  pub advertise_ip : Str
  pub cname_target : Str
  pub join_peers : List Str
  pub secret_key : Str

pub record Settings : Type 0 where
  pub server : ServerConfig
  pub domains : List Site
  pub proxy : ProxyConfig
  pub protection : ProtectionConfig
  pub detection : DetectionConfig
  pub logging : LoggingConfig
  pub dashboard : DashboardConfig
  pub paranoia_level : ℤ
  pub xdp : XdpConfig
  pub http3_port : ℤ
  pub cluster : ClusterConfig

pub record ConfigRevision : Type 0 where
  pub version : ℕ
  pub timestamp : ℕ
  pub author : Str
  pub role : Str
  pub description : Str
  pub file_path : Str

pub record ConfigBackup : Type 0 where
  pub id : Str
  pub name : Str
  pub timestamp : ℕ
  pub author : Str
  pub description : Str
  pub file_path : Str

abbrev pub seconds : ℕ → ℤ
seconds n = pos (n * 1000000000)

abbrev local_site : Str → Str → Site
local_site name url = record {
  name = name;
  upstreams = record { url = url; weight = pos 1 } ∷ [];
  owner = codes "admin";
}

-- `DefaultConfig`
abbrev pub default_config : Settings
default_config = record {
  server = record {
    listen = codes "0.0.0.0:443";
    http_listen = codes "0.0.0.0:80";
    read_timeout = seconds 10;
    write_timeout = seconds 30;
    idle_timeout = seconds 60;
    max_header_bytes = pos 1048576;
  };
  domains =
      local_site (codes "waf.local") (codes "http://127.0.0.1:1234")
      ∷ local_site (codes "app.local") (codes "http://127.0.0.1:8080")
      ∷ local_site (codes "localhost") (codes "http://127.0.0.1:8080")
      ∷ [];
  proxy = record {
    connect_timeout = pos 0;
    response_timeout = pos 0;
    max_idle_conns = pos 0;
    max_idle_conns_per_host = pos 0;
    idle_conn_timeout = pos 0;
    buffer_size_kb = pos 0;
  };
  protection = record {
    mode = codes "auto";
    trusted_proxies = [];
    rate_limit = record { requests_per_second = pos 100; burst = pos 200 };
    connection_limit = record { max_per_ip = pos 0; max_total = pos 0 };
    challenge = record { pow_difficulty = pos 0; cookie_ttl = pos 0; cookie_secret = [] };
    ban = record { duration = seconds 900; max_fails = pos 10 };
    emergency = record { rps_threshold = pos 0; duration = pos 0 };
  };
  detection = record { sensitivity = pos 0; learning_period = pos 0; session_ttl = pos 0 };
  logging = record { level = []; format = []; max_size_mb = pos 0; max_backups = pos 0 };
  dashboard = record {
    username = codes "admin";
    password = codes "admin123";
    jwt_secret = codes "mango_super_secret_jwt_key_2026";
  };
  paranoia_level = pos 2;
  xdp = record { interface = []; mode = []; map_pin_path = [] };
  http3_port = pos 0;
  cluster = record {
    enabled = true;
    node_name = codes "mango-node-1";
    bind_port = pos 7946;
    advertise_ip = [];
    cname_target = [];
    join_peers = [];
    secret_key = [];
  };
}
