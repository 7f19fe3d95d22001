-- ===== src/Attack/Tests.antt =====
-- Runs of the attack detector, and the theorems at concrete inputs.
use mango_waf.Attack.Recent.{first, later, currently_under_attack-after_ticks, after_ticks}
use mango_waf.Attack.Detector.{
  is_domain_attack, detect_domain, new_detector, detect, WatchedDomain, Tick,
  currently_under_attack,
}
use mango_waf.Common.Bytes.{codes, str_eq, contains, to_lower}
use mango_waf.Attack.{Rates, normalize_host}
use mango_waf.Attack.Announce.{detect_domain-Announces, Announces}
use mango_waf.Common.{any, take, ℕ, true, false, some, [], ◌∷◌, refl, ◌≡◌}

abbrev shop : WatchedDomain
shop = record { name = codes "Shop.example"; rate_limit_rps = 0 }

abbrev blog : WatchedDomain
blog = record { name = codes "blog.example"; rate_limit_rps = 50 }

abbrev rates_of : ℕ → Rates
rates_of n = record {
  last_total = 0;
  current_rps = n;
  peak_rps = n;
  domain_last_reqs = [];
  domain_rps = (codes "shop.example", n) ∷ [];
}

abbrev tick_at : ℕ → ℕ → Tick
tick_at now n = record {
  now = now;
  rates = rates_of n;
  active_conns = 4;
  blocked_requests = 0;
  mesh = some (record { domain_metrics = λ d. (150, 3); is_leader = true });
}

-- 100 requests a second here and 150 at the peers, above the threshold of 200.
started :
    currently_under_attack
      (codes "shop.example")
      (after_ticks 0 (blog ∷ shop ∷ []) (tick_at 1 100 ∷ []))
    ≡ true
unfolding currently_under_attack detect str_eq
started = refl

port_cut : normalize_host (codes "Shop.Example:8443") ≡ codes "shop.example"
unfolding normalize_host
port_cut = refl

other_name : str_eq (to_lower (codes "blog.example")) (to_lower (codes "Shop.example")) ≡ false
unfolding str_eq to_lower
other_name = refl

no_ban : contains (to_lower (codes "Shop.example")) (codes "ban_") ≡ false
unfolding contains to_lower
no_ban = refl

currently_under_attack-after_ticks_example :
    currently_under_attack
      (to_lower (codes "Shop.example"))
      (after_ticks 0 (blog ∷ shop ∷ []) (tick_at 2 10 ∷ tick_at 1 100 ∷ []))
    ≡ any (λ (t : Tick). is_domain_attack 0 t shop) (take 10 (tick_at 2 10 ∷ tick_at 1 100 ∷ []))
currently_under_attack-after_ticks_example =
    currently_under_attack-after_ticks 0 shop (blog ∷ shop ∷ []) (tick_at 2 10 ∷ tick_at 1 100 ∷ [])
      (later blog other_name (first [] refl))

detect_domain-Announces_example :
    Announces
      (tick_at 1 100)
      (to_lower (codes "Shop.example"))
      new_detector
      (detect_domain 0 (tick_at 1 100) shop new_detector)
detect_domain-Announces_example =
    detect_domain-Announces 0 (tick_at 1 100) shop new_detector
      (record { heard = refl; past = tt; plain = no_ban; room = refl })
