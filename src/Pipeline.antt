-- ===== src/Pipeline.antt =====
-- core/pipeline.go: the state of the protection pipeline, the answers that it takes from the other
-- engines, and the state monad of its methods. A request is handled at one instant: `now` is the one
-- reading of the clock, and `now_sec` the cached second of core/server.go. Logging is left out.
pub mod State
pub mod Bans
pub mod Stage
pub mod Layers
pub mod Process
pub mod BanLaws
pub mod BanSafety
pub mod StageLaws
pub mod Totality
pub mod Counters
pub mod Banning
pub mod Safety
pub mod Firewall
pub mod Samples
mod Tests
use mango_waf.Common.{ℕ, ◌*◌, ◌/◌, ◌^◌, Bool, Option, none, some, List}
use mango_waf.Common.Bytes.{Str}
use mango_waf.Common.Dict.{Dict}
use mango_waf.Common.Int.{ℤ}
use mango_waf.Request.{Request}
use mango_waf.Shards.{Sharded}

-- `ActionType`
pub data ActionType : Type 0 where
  allow challenge block rate_limit drop : ActionType

pub record Action : Type 0 where
  pub kind : ActionType
  pub reason : Str
  pub stage : ℕ
  pub difficulty : ℕ

pub record DomainConfig : Type 0 where
  pub name : Str
  pub protection_mode : Str

-- The fields of `config.Config` that the pipeline reads. Durations are in nanoseconds; the numbers
-- of the configuration are not negative.
pub record Config : Type 0 where
  pub domains : List DomainConfig
  pub mode : Str
  pub waf_enabled : Bool
  pub auto_enable : Bool
  pub rps_threshold : ℕ
  pub max_per_ip : ℕ
  pub ban_duration : ℕ
  pub ja3_enabled : Bool
  pub rate_limit_enabled : Bool
  pub requests_per_second : ℕ
  pub pow_difficulty : ℕ
  pub pow_adaptive : Bool
  pub bot_classifier_enabled : Bool
  pub cloudflare_enabled : Bool
  pub trusted_proxies : List Str
  pub whitelist_ips : List Str

-- The fields of `IpState` that some code reads. A trust score is in hundredths; a time that was
-- never set is `none`.
pub record IpState : Type 0 where
  pub rps : ℕ
  pub last_reset : Option ℕ
  pub last_seen : ℕ
  pub first_seen : ℕ
  pub trust_score : ℕ
  pub ja3_hash : Str
  pub total_requests : ℕ
  pub rate_limit_hits : ℕ
  pub challenge_hits : ℕ
  pub cps : ℕ
  pub conn_last_reset : Option ℕ
  pub is_trusted_proxy : Bool
  pub active_conns : ℕ

pub record BanRequest : Type 0 where
  pub ip : Str
  pub duration : ℕ

-- What the node puts on the mesh's broadcast queue.
pub data Broadcast : Type 0 where
  ban : Str → ℕ → Broadcast
  unban : Str → Broadcast

-- `xdp` is the kernel map of drop counters by IPv4 address, if it is enabled; `mesh` the broadcast
-- queue, if the node is in a cluster; `cf_bans` and `cf_unbans` Cloudflare's queues, if there is a
-- manager.
pub record Pipeline : Type 0 where
  pub cfg : Config
  pub domain_mode_map : Dict Str
  pub valid_host_map : Dict Bool
  pub ip_states : Sharded IpState
  pub banned : Sharded ℕ
  pub whitelist : Sharded ℕ
  pub ban_queue : List BanRequest
  pub xdp : Option (Dict ℕ)
  pub mesh : Option (List Broadcast)
  pub cf_bans : Option (List Str)
  pub cf_unbans : Option (List Str)
  pub banned_ips : ℤ

-- The clock, and the address functions of packages net and net/netip: `ParseAddr(s).As16()`,
-- `ParseIP`, `To4` of a parsed address, and `ParseCIDR` with the network's `Contains`.
pub record Env : Type 0 where
  pub now : ℕ
  pub now_sec : ℕ
  pub parse_addr : Str → Option Str
  pub parse_ip : Str → Option Str
  pub to4 : Str → Option Str
  pub parse_cidr : Str → Option (Str → Bool)

pub record Fingerprint : Type 0 where
  pub ja3_known : Bool
  pub ja3_trust : ℕ
  pub ja3_hash : Str
  pub ja3_browser : Str
  pub total : ℕ
  pub verdict : Str

pub record Inspection : Type 0 where
  pub blocked : Bool
  pub top_rule : Str

pub record Evaluation : Type 0 where
  pub trust_score : ℕ
  pub actions : List Str

pub record Verdict : Type 0 where
  pub is_bot : Bool
  pub score : ℕ

pub record Classification : Type 0 where
  pub is_bot : Bool
  pub threat : Str
  pub bot_type : Str

-- What the other engines answer while the request is handled; `none` is a nil pointer. Their own
-- state is theirs (`Rules` models one of them).
pub record Engines : Type 0 where
  pub domain_under_attack : Str → Bool
  pub domain_rps : Str → ℕ
  pub current_rps : ℕ
  pub is_under_attack : Bool
  pub feature_disabled : Option (Str → ℕ → Bool)
  pub inspect : Option (Request → Inspection)
  pub validate : Option (Request → Bool × Str)
  pub evaluate : Option (Str → Evaluation)
  pub rate_allow : Option (Str → Bool)
  pub analyze : Option (Str → Request → Verdict)
  pub classify : Option (Str → Request → Option Verdict → Option Fingerprint → Classification)
  pub check_rate_limit : Option (Str → ℕ)
  pub challenge_level : Option (ℕ → ℕ)
  pub verify_proof : Option (Request → Str → Bool)

abbrev pub M : Type 0 → Type 0
M A = Pipeline → A × Pipeline

infixl 5 ◌>>=◌ ◌>>◌
abbrev pub ◌>>=◌ : {A B : Type 0} → M A → (A → M B) → M B
◌>>=◌ m f p = let r = m p in f r.0 r.1

abbrev pub ◌>>◌ : {A B : Type 0} → M A → M B → M B
◌>>◌ m k p = k (m p).1

abbrev pub pure : {A : Type 0} → A → M A
pure a p = (a, p)

abbrev pub modify : (Pipeline → Pipeline) → M (Unit {0})
modify f p = (tt, f p)

-- A layer that returns an action ends the request; otherwise the next layer runs.
abbrev pub or_rest : Option Action → M (Option Action) → M (Option Action)
or_rest (some a) k = pure (some a)
or_rest none k = k

infixr 6 ◌or_else◌
abbrev pub ◌or_else◌ : M (Option Action) → M (Option Action) → M (Option Action)
m or_else k = m >>= λ r. or_rest r k

abbrev pub pass : M (Option Action)
pass = pure none

abbrev pub reply : ActionType → Str → M (Option Action)
reply kind reason = pure (some (record { kind = kind; reason = reason; stage = 0; difficulty = 0 }))

-- `if p.engine != nil { … }`
abbrev pub when_some : {B : Type 0} → Option B → (B → M (Option Action)) → M (Option Action)
when_some none f = pass
when_some (some b) f = f b

-- One reading of the pipeline's own fields.
abbrev pub read : {A : Type 0} → (Pipeline → A) → M A
read f p = (f p, p)
