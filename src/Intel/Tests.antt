-- ===== src/Intel/Tests.antt =====
-- intelligence/intelligence.go: an engine with one listed address.
use mango_waf.Intel.{Intel}
use mango_waf.Intel.Feeds.{new_threat_feed_manager}
use mango_waf.Intel.Lists.{ListManager, ListEntry, is_blacklisted}
use mango_waf.Intel.Score.{layer_intel-listed, evaluations}
use mango_waf.Pipeline.Samples.{env_at, engines, request, pipeline, attacker}
use mango_waf.Pipeline.{Engines, block}
use mango_waf.Pipeline.Layers.{layer_intel}
use mango_waf.Common.Bytes.{str_eq, codes}
use mango_waf.Common.{true, false, none, some, [], ◌∷◌, refl, ◌≡◌, if◌then◌else◌}

abbrev listed_entry : ListEntry
listed_entry = record {
  value = attacker;
  reason = codes "manual";
  added_at = 0;
  expires_at = some 5;
  source = codes "api";
}

abbrev lists : ListManager
lists = record {
  blacklist = (attacker, listed_entry) ∷ [];
  whitelist = [];
  cidr_black = [];
  cidr_white = [];
}

abbrev intel : Intel
intel = record {
  cfg = record {
    blocked_countries = codes "KP" ∷ [];
    allowed_countries = [];
    block_datacenter = true;
    cache_ttl = 3600;
  };
  geo = false;
  use_reputation = true;
  use_asn = false;
  feeds = new_threat_feed_manager;
  lists = lists;
  rep_cache = [];
  asn_cache = [];
}

abbrev with_intel : Engines
with_intel = record engines { evaluate = some (evaluations (env_at 4) none intel) }

layer_intel-listed_example : (layer_intel (env_at 4) with_intel request attacker pipeline).0 ≡ (
    if is_blacklisted (env_at 4) attacker lists
    then some
        (record { kind = block; reason = codes "intel:blacklisted"; stage = 0; difficulty = 0 })
    else none)
unfolding is_blacklisted str_eq
layer_intel-listed_example =
    layer_intel-listed (env_at 4) with_intel request attacker none intel pipeline refl refl refl
