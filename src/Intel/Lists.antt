-- ===== src/Intel/Lists.antt =====
-- intelligence/intelligence.go: `ListManager`. A network is its `Contains`; the zero time is none.
use mango_waf.Common.Bytes.{has_byte, codes, Str}
use mango_waf.Common.Dict.{insert, delete, retain, Dict, lookup}
use mango_waf.Common.{
  any, ℕ, false, none, some, [], ◌∷◌, Bool, Option, List, ◌++◌, ◌+◌, not, ltb, if◌then◌else◌,
}
use mango_waf.Pipeline.{Env}

pub record ListEntry : Type 0 where
  pub value : Str
  pub reason : Str
  pub added_at : ℕ
  pub expires_at : Option ℕ
  pub source : Str

pub record ListManager : Type 0 where
  pub blacklist : Dict ListEntry
  pub whitelist : Dict ListEntry
  pub cidr_black : List (Str → Bool)
  pub cidr_white : List (Str → Bool)

abbrev pub new_list_manager : ListManager
new_list_manager = record { blacklist = []; whitelist = []; cidr_black = []; cidr_white = [] }

-- `!entry.ExpiresAt.IsZero() && time.Now().After(entry.ExpiresAt)`
abbrev pub is_past : ℕ → Option ℕ → Bool
is_past now none = false
is_past now (some expiry) = ltb expiry now

abbrev pub in_networks : List (Str → Bool) → Option Str → Bool
in_networks cidrs none = false
in_networks cidrs (some addr) = any (λ (contains : Str → Bool). contains addr) cidrs

-- The test of both lists: a direct entry decides, else the networks do.
abbrev pub listed : Env → Str → List (Str → Bool) → Option ListEntry → Bool
listed env ip cidrs (some entry) = not (is_past env.now entry.expires_at)
listed env ip cidrs none = in_networks cidrs (env.parse_ip ip)

unfoldable pub is_blacklisted : Env → Str → ListManager → Bool
unfolding lookup
is_blacklisted env ip lm = listed env ip lm.cidr_black (lookup ip lm.blacklist)

unfoldable pub is_list_whitelisted : Env → Str → ListManager → Bool
unfolding lookup
is_list_whitelisted env ip lm = listed env ip lm.cidr_white (lookup ip lm.whitelist)

abbrev pub add_network : Option (Str → Bool) → List (Str → Bool) → List (Str → Bool)
add_network none cidrs = cidrs
add_network (some network) cidrs = cidrs ++ network ∷ []

abbrev pub new_list_entry : Env → Str → Str → Str → ℕ → ListEntry
new_list_entry env value reason source ttl = record {
  value = value;
  reason = reason;
  added_at = env.now;
  expires_at = if ltb 0 ttl then some (env.now + ttl) else none;
  source = source;
}

unfoldable pub add_blacklist : Env → Str → Str → Str → ℕ → ListManager → ListManager
unfolding insert has_byte
add_blacklist env value reason source ttl lm =
    if has_byte b'/' value
    then record lm { cidr_black = add_network (env.parse_cidr value) lm.cidr_black }
    else record lm {
      blacklist = insert value (new_list_entry env value reason source ttl) lm.blacklist;
    }

unfoldable pub add_whitelist : Env → Str → Str → Str → ℕ → ListManager → ListManager
unfolding insert has_byte
add_whitelist env value reason source ttl lm =
    if has_byte b'/' value
    then record lm { cidr_white = add_network (env.parse_cidr value) lm.cidr_white }
    else record lm {
      whitelist = insert value (new_list_entry env value reason source ttl) lm.whitelist;
    }

abbrev pub reserved : List Str
reserved =
    codes "127.0.0.0/8"
    ∷ codes "10.0.0.0/8"
    ∷ codes "172.16.0.0/12"
    ∷ codes "192.168.0.0/16"
    ∷ codes "::1/128"
    ∷ codes "fe80::/10"
    ∷ codes "fc00::/7"
    ∷ []

unfoldable pub load_reserved : Env → List Str → ListManager → ListManager
load_reserved env [] lm = lm
load_reserved env (cidr ∷ cidrs) lm =
    load_reserved env cidrs
      (record lm { cidr_white = add_network (env.parse_cidr cidr) lm.cidr_white })

unfoldable pub load_reserved_ips : Env → ListManager → ListManager
unfolding load_reserved
load_reserved_ips env lm = load_reserved env reserved lm

unfoldable pub remove_blacklist : Str → ListManager → ListManager
unfolding delete
remove_blacklist ip lm = record lm { blacklist = delete ip lm.blacklist }

unfoldable pub remove_whitelist : Str → ListManager → ListManager
unfolding delete
remove_whitelist ip lm = record lm { whitelist = delete ip lm.whitelist }

abbrev pub is_live : Env → ListEntry → Bool
is_live env entry = not (is_past env.now entry.expires_at)

unfoldable pub cleanup_expired : Env → ListManager → ListManager
unfolding retain
cleanup_expired env lm = record lm {
  blacklist = retain (is_live env) lm.blacklist;
  whitelist = retain (is_live env) lm.whitelist;
}
