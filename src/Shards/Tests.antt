-- ===== src/Shards/Tests.antt =====
-- The sharded map at concrete keys.
use mango_waf.Common.{ℕ}
use mango_waf.Common.Bytes.{Str, codes}
use mango_waf.Shards.{Sharded, new_sharded, fnv32a, store}
use mango_waf.Shards.Laws.{IsPlaced, new_sharded-IsPlaced, store-IsPlaced}

abbrev ip_a : Str
ip_a = codes "203.0.113.9"

abbrev ip_b : Str
ip_b = codes "198.51.100.7"

-- Two bans, one to 10 and one to 30.
abbrev bans : Sharded ℕ
bans = store fnv32a ip_b 30 (store fnv32a ip_a 10 new_sharded)

bans-IsPlaced : IsPlaced fnv32a bans
bans-IsPlaced =
    store-IsPlaced fnv32a ip_b 30 (store fnv32a ip_a 10 new_sharded)
      (store-IsPlaced fnv32a ip_a 10 new_sharded (new_sharded-IsPlaced fnv32a))
