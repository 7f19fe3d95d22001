-- ===== src/Intel/Expiry.antt =====
-- intelligence/intelligence.go: expired entries of the lists.
use mango_waf.Common.Dict.{lookup, lookup-retain, lookup-retain, Distinct, only_if}
use mango_waf.Intel.Lists.{
  is_past, in_networks, is_live, ListManager, cleanup_expired, listed, is_list_whitelisted,
  ListEntry, is_blacklisted,
}
use mango_waf.Common.Bytes.{Str}
use mango_waf.Common.{
  true, false, none, some, inl, inr, refl, Bool, Option, List, ◌≡◌, ◌||◌, not, Bool-cases, ap, ◌∙◌,
}
use mango_waf.Pipeline.{Env}

listed-live :
    (env : Env) (ip : Str) (cidrs : List (Str → Bool)) (o : Option ListEntry)
    → listed env ip cidrs (only_if (is_live env) o)
      ≡ (listed env ip cidrs o || in_networks cidrs (env.parse_ip ip))
listed-live env ip cidrs none = or_self (in_networks cidrs (env.parse_ip ip))
  where
    or_self : (b : Bool) → b ≡ (b || b)
    or_self true = refl
    or_self false = refl
listed-live env ip cidrs (some entry) = elim (Bool-cases (is_past env.now entry.expires_at)) [
  | inl past ↦ rw past
  | inr live ↦ rw live (ap not live)
]

-- The sweep of the lists changes the answers: behind it an address is listed when it was listed before or
-- when a network of the list holds it. Until then an expired entry of its own hides the network.
pub cleanup_expired-listed :
    (env : Env) (ip : Str) (lm : ListManager)
    → Distinct lm.blacklist
    → Distinct lm.whitelist
    → (is_blacklisted env ip (cleanup_expired env lm)
        ≡ (is_blacklisted env ip lm || in_networks lm.cidr_black (env.parse_ip ip)))
      × (is_list_whitelisted env ip (cleanup_expired env lm)
          ≡ (is_list_whitelisted env ip lm || in_networks lm.cidr_white (env.parse_ip ip)))
unfolding is_blacklisted is_list_whitelisted cleanup_expired
cleanup_expired-listed env ip lm b w = (
  ap (listed env ip lm.cidr_black) (lookup-retain ip (is_live env) lm.blacklist b)
      ∙ listed-live env ip lm.cidr_black (lookup ip lm.blacklist),
  ap (listed env ip lm.cidr_white) (lookup-retain ip (is_live env) lm.whitelist w)
      ∙ listed-live env ip lm.cidr_white (lookup ip lm.whitelist),
)
