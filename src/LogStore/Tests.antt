-- ===== src/LogStore/Tests.antt =====
-- Runs of the log store, and the theorems at concrete inputs.
use mango_waf.Common.{
  ℕ, ◌≡◌, refl, [], ◌∷◌, map, take, keep, arith, zero, suc, true, false, none, some, inl, inr, Bool,
  Option, List, ◌++◌, ◌+◌, ◌-◌, ◌*◌, ◌≤◌, ◌<◌, ◌&&◌, ◌||◌, not, ltb, leb, ◌==◌, if◌then◌else◌,
  length, Bool-cases, Option-cases, ap, sym, ◌∙◌, ◌≢◌, ◌↔◌, ◌⊎◌,
}
use mango_waf.Common.Bytes.{Str, codes, to_lower, to_upper, trim_space}
use mango_waf.LogStore.{Event, LogStore}
use mango_waf.LogStore.Ring.{worker_step, is_wanted, query_logs}
use mango_waf.LogStore.Newest.{newest, IsRing, worker_step-newest, query_logs_lem}

abbrev event : ℕ → Str → Event
event n domain = record {
  id = n;
  timestamp = [];
  kind = codes "SECURITY";
  client_ip = codes "10.0.0.1";
  domain = domain;
  method = codes "GET";
  path = codes "/";
  status = 403;
  action = codes "BLOCKED";
  rule = codes "sqli";
  desc = [];
  country_code = codes "XX";
  country_name = codes "Unknown";
}

-- A full buffer of three, whose oldest event is the second of its list.
abbrev full_store : LogStore
full_store = record {
  events =
      event 4 (codes "shop.test") ∷ event 2 (codes "shop.test") ∷ event 3 (codes "blog.test") ∷ [];
  head = 1;
  max_cap = 3;
  channel = [];
}

full_store-IsRing : IsRing full_store
full_store-IsRing = record {
  room = omega arith;
  fits = omega arith;
  bounded = omega arith;
  unmoved = λ h. cc h;
}

worker_step-newest_example :
    (newest (worker_step (event 5 (codes "shop.test")) full_store)
      ≡ take full_store.max_cap (event 5 (codes "shop.test") ∷ newest full_store))
    × IsRing (worker_step (event 5 (codes "shop.test")) full_store)
worker_step-newest_example =
    worker_step-newest (event 5 (codes "shop.test")) full_store full_store-IsRing

query_logs_lem_example :
    query_logs (codes "all") [] (codes " SHOP ") full_store
    ≡ take 500 (
        keep
          (is_wanted
            (to_upper (trim_space (codes "all")))
            (to_lower (trim_space []))
            (to_lower (trim_space (codes " SHOP "))))
          (newest full_store))
query_logs_lem_example =
    query_logs_lem (codes "all") [] (codes " SHOP ") full_store full_store-IsRing

shop_numbers :
    map (λ (e : Event). e.id) (query_logs (codes "all") [] (codes " SHOP ") full_store) ≡ 4 ∷ 2 ∷ []
unfolding query_logs to_upper trim_space mango_waf.Common.Bytes.str_eq to_lower
    mango_waf.Common.Bytes.contains
shop_numbers = refl
