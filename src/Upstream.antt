-- ===== src/Upstream.antt =====
-- core/upstream.go: the pools of backends, the health of a backend and the choice of the next one. The
-- probes of the health checks are not modelled, only what they write (Health).
pub mod RoundRobin
pub mod Health
mod Tests
use mango_waf.Common.{
  ℕ, zero, suc, ◌+◌, ◌%◌, Bool, true, false, ◌&&◌, ◌||◌, Option, none, some, List, [], ◌∷◌, ◌++◌,
  map, get_elem?, length, if◌then◌else◌, ◌==◌,
}
use mango_waf.Common.Bytes.{Str, codes, is_empty, to_lower, has_suffix, contains}
use mango_waf.Common.Dict.{Dict, lookup, insert}
use mango_waf.Pipeline.State.{strip_port}

pub record UpstreamBackend : Type 0 where
  pub url : Str
  pub weight : ℕ
  pub is_alive : Bool
  pub failures : ℕ

pub record UpstreamPool : Type 0 where
  pub backends : List UpstreamBackend
  pub current : ℕ

-- `config.UpstreamConfig` and a domain with its upstreams.
pub record UpstreamConfig : Type 0 where
  pub url : Str
  pub weight : ℕ

pub record Domain : Type 0 where
  pub name : Str
  pub upstreams : List UpstreamConfig

abbrev pub new_backend : UpstreamConfig → UpstreamBackend
new_backend u = record {
  url = u.url;
  weight = if u.weight == 0 then 1 else u.weight;
  is_alive = true;
  failures = 0;
}

-- The later of two domains of one name wins.
unfoldable pub add_domains : List Domain → Dict UpstreamPool → Dict UpstreamPool
unfolding to_lower insert
add_domains [] pools = pools
add_domains (d ∷ ds) pools = add_domains ds (
    if is_empty d.name
    then pools
    else insert (to_lower d.name) (record { backends = map new_backend d.upstreams; current = 0 })
        pools)

unfoldable pub update_domains : List Domain → Dict UpstreamPool
unfolding add_domains
update_domains domains = add_domains domains []

abbrev pub serves : Str → Str → Bool
serves host name = has_suffix host (codes "." ++ name) || contains host name || contains name host

-- The first pool in the map's order whose name fits.
unfoldable pub similar_pool : Str → Dict UpstreamPool → Option Str
similar_pool host [] = none
similar_pool host ((name, _) ∷ pools) =
    let rest = similar_pool host pools in if serves host name then some name else rest

only_pool : Dict UpstreamPool → Option Str
only_pool ((name, _) ∷ []) = some name
only_pool _ = none

or_only : Dict UpstreamPool → Option Str → Option Str
unfolding only_pool
or_only pools none = only_pool pools
or_only pools (some name) = some name

named_or_similar : Str → Dict UpstreamPool → Option UpstreamPool → Option Str
unfolding similar_pool or_only
named_or_similar host pools none = or_only pools (similar_pool host pools)
named_or_similar host pools (some _) = some host

-- The name of the pool for a host.
unfoldable pub pool_name : Str → Dict UpstreamPool → Option Str
unfolding named_or_similar lookup strip_port
pool_name host pools = let h = strip_port host in named_or_similar h pools (lookup h pools)

abbrev pub alive_at : List UpstreamBackend → ℕ → Bool
alive_at bs i = elim (get_elem? bs i) [ none ↦ false | some b ↦ b.is_alive ]

-- The loop over the backends from `start + i` on, with `left` rounds to go.
unfoldable pub scan : List UpstreamBackend → ℕ → ℕ → ℕ → Option ℕ
scan bs start zero i = none
scan bs start (suc left) i =
    let idx = (start + i) % length bs in
    let later = scan bs start left (suc i) in if alive_at bs idx then some idx else later

-- The index a pool gives, and the pointer before it is taken modulo the number of backends.
unfoldable pub chosen : UpstreamPool → Option ℕ → ℕ × ℕ
chosen pool (some idx) = (idx, idx + 1)
chosen pool none = (pool.current % length pool.backends, pool.current + 1)

-- What a pool with backends gives next, and the pool afterwards.
unfoldable pub next_backend : UpstreamPool → ℕ × UpstreamPool
unfolding scan chosen
next_backend pool =
    let n = length pool.backends in
    let (idx, next) = chosen pool (scan pool.backends pool.current n 0) in
    (idx, record pool { current = next % n })

url_at : List UpstreamBackend → ℕ → Str
url_at bs i = elim (get_elem? bs i) [ none ↦ [] | some b ↦ b.url ]

next_of : Str → Dict UpstreamPool → Option UpstreamPool → Option (Str × Dict UpstreamPool)
unfolding next_backend insert url_at
next_of name pools none = none
next_of name pools (some pool) =
    let (idx, after) = next_backend pool in
    if length pool.backends == 0
    then none
    else some (url_at pool.backends idx, insert name after pools)

named_next : Dict UpstreamPool → Option Str → Option (Str × Dict UpstreamPool)
unfolding next_of lookup
named_next pools none = none
named_next pools (some name) = next_of name pools (lookup name pools)

-- `none` is the error that no upstream is configured.
unfoldable pub get_next : Str → Dict UpstreamPool → Option (Str × Dict UpstreamPool)
unfolding pool_name named_next
get_next host pools = named_next pools (pool_name host pools)
