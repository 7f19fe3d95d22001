-- ===== src/Attack.antt =====
-- core/server.go: the counters of requests, and the attack detector that runs once a second. A counter of
-- requests only grows, so the differences are natural numbers; times are in nanoseconds.
pub mod Alerts
pub mod Detector
pub mod Recent
pub mod Announce
mod Tests
use mango_waf.Pipeline.State.{cut_port}
use mango_waf.Common.Dict.{lookup, insert, Dict}
use mango_waf.Common.{
  value_or, take, ℕ, zero, suc, true, false, none, some, [], ◌∷◌, inl, inr, refl, Bool, Option,
  List, ◌≡◌, ◌++◌, ◌+◌, ◌-◌, ◌*◌, ◌≤◌, ◌<◌, ◌&&◌, ◌||◌, not, ltb, leb, ◌==◌, if◌then◌else◌, length,
  Bool-cases, Option-cases, arith, ap, sym, ◌∙◌, ◌≢◌, ◌↔◌, ◌⊎◌,
}
use mango_waf.Common.Bytes.{last_index_byte, to_lower, Str}

unfoldable pub normalize_host : Str → Str
unfolding to_lower last_index_byte cut_port
normalize_host host = cut_port (to_lower host) (last_index_byte b':' (to_lower host))

-- What the counter of requests per second keeps.
pub record Rates : Type 0 where
  pub last_total : ℕ
  pub current_rps : ℕ
  pub peak_rps : ℕ
  pub domain_last_reqs : Dict ℕ
  pub domain_rps : Dict ℕ

-- One domain of a tick of `rpsCounter`, by the count of its requests.
unfoldable pub count_domain : Str → Option ℕ → Rates → Rates
unfolding insert lookup
count_domain d none rates = rates
count_domain d (some curr) rates = record rates {
  domain_last_reqs = insert d curr rates.domain_last_reqs;
  domain_rps = insert d (curr - value_or 0 (lookup d rates.domain_last_reqs)) rates.domain_rps;
}

unfoldable pub count_domains : List Str → Dict ℕ → Rates → Rates
unfolding count_domain to_lower
count_domains [] domain_reqs rates = rates
count_domains (name ∷ names) domain_reqs rates =
    count_domains names domain_reqs
      (count_domain (to_lower name) (lookup (to_lower name) domain_reqs) rates)

-- A tick of `rpsCounter`.
unfoldable pub count_tick : List Str → ℕ → Dict ℕ → Rates → Rates
unfolding count_domains
count_tick names total domain_reqs rates =
    let rps = total - rates.last_total in
    count_domains names domain_reqs (record rates {
      last_total = total;
      current_rps = rps;
      peak_rps = if ltb rates.peak_rps rps then rps else rates.peak_rps;
    })

unfoldable pub get_domain_rps : Rates → Str → ℕ
unfolding normalize_host lookup
get_domain_rps rates host = value_or 0 (lookup (normalize_host host) rates.domain_rps)
