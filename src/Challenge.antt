-- ===== src/Challenge.antt =====
-- challenge/challenge.go: the manager of challenges, its cache of verified addresses and the requests it
-- looks at. Times are in nanoseconds, as is the life of a cookie. HMAC-SHA256 and SHA-256, each given in hexadecimal,
-- are parameters of the operations that use them.
pub mod Proof
pub mod Solve
pub mod Laws
pub mod Sound
pub mod Eviction
pub mod Solutions
mod Tests
use mango_waf.Common.{ℕ, suc, zero, ◌*◌, Bool, true, Option, List, [], if◌then◌else◌, ◌||◌}
use mango_waf.Common.Int.{ℤ, pos, negsuc}
use mango_waf.Common.Bytes.{Str, codes, is_empty, has_prefix}
use mango_waf.Common.Dict.{Dict}

abbrev pub second : ℕ
second = 1000000000

-- `Protection.Challenge` of the configuration.
pub record ChallengeConfig : Type 0 where
  pub cookie_secret : Str
  pub cookie_ttl : ℤ
  pub pow_difficulty : ℤ

pub record Manager : Type 0 where
  pub cfg : ChallengeConfig
  pub secret : Str
  pub verified_ips : Dict ℕ

-- What the manager reads of a request: the value of a form field is empty where there is none.
pub record HttpRequest : Type 0 where
  pub method : Str
  pub form_value : Str → Str
  pub cookie : Str → Option Str

pub record Cookie : Type 0 where
  pub name : Str
  pub value : Str
  pub max_age : ℤ

unfoldable pub new_manager : ChallengeConfig → Manager
new_manager cfg = record {
  cfg = cfg;
  secret =
      if is_empty cfg.cookie_secret || has_prefix cfg.cookie_secret (codes "${")
      then codes "mango-shield-enterprise-cookie-hmac-secret-v2-cluster-sync"
      else cfg.cookie_secret;
  verified_ips = [];
}

unfoldable pub clear_cache : Manager → Manager
clear_cache m = record m { verified_ips = [] }

unfoldable pub update_config : ChallengeConfig → Manager → Manager
unfolding clear_cache
update_config cfg m = clear_cache (record m { cfg = cfg })

-- The life of a cookie in nanoseconds, an hour where it is not positive.
unfoldable pub ttl : Manager → ℕ
ttl m = elim m.cfg.cookie_ttl [
  | pos zero ↦ 3600 * second
  | pos (suc n) ↦ suc n
  | negsuc n ↦ 3600 * second
]
