-- ===== src/Pipeline/Bans.antt =====
-- core/pipeline.go: trust, the two whitelists, bans and their expiry, and the counters of connections.
-- core/xdp.go: `BanIP` and `UnbanIP` on the kernel map.
use mango_waf.Common.{
  ℕ, ◌+◌, ◌-◌, ◌*◌, ◌^◌, Bool, true, false, not, ◌&&◌, ◌||◌, Option, none, some, List, [], ◌∷◌,
  ◌++◌, ltb, leb, if◌then◌else◌, is_some, any, length,
}
use mango_waf.Common.Int.{pos, negsuc, ◌+ℤ◌}
use mango_waf.Common.Bytes.{Str, codes, str_eq, is_empty}
use mango_waf.Common.Dict.{Dict, lookup, insert, delete}
use mango_waf.Shards.{fnv32a, load, store, remove, load_or_store, cleanup, clear, snapshot}
use mango_waf.Pipeline.{
  IpState, Broadcast, ban, unban, Pipeline, Env, Engines, M, ◌>>=◌, ◌>>◌, pure, modify, read,
}
use mango_waf.Pipeline.State.{parse_ip_fast, fnv32_ip, get_or_create, cleanup_states}

unfoldable pub default_cloudflare_cidrs : List Str
default_cloudflare_cidrs =
    codes "173.245.48.0/20"
    ∷ codes "103.21.244.0/22"
    ∷ codes "103.22.200.0/22"
    ∷ codes "103.31.4.0/22"
    ∷ codes "141.101.64.0/18"
    ∷ codes "108.162.192.0/18"
    ∷ codes "190.93.240.0/20"
    ∷ codes "188.114.96.0/20"
    ∷ codes "197.234.240.0/22"
    ∷ codes "198.41.128.0/17"
    ∷ codes "162.158.0.0/15"
    ∷ codes "104.16.0.0/13"
    ∷ codes "104.24.0.0/14"
    ∷ codes "172.64.0.0/13"
    ∷ codes "131.0.72.0/22"
    ∷ codes "2400:cb00::/32"
    ∷ codes "2606:4700::/32"
    ∷ codes "2803:f800::/32"
    ∷ codes "2405:b500::/32"
    ∷ codes "2405:8100::/32"
    ∷ codes "2a06:98c0::/29"
    ∷ codes "2c0f:f248::/32"
    ∷ []

module _ (env : Env) where
  unfoldable pub in_cidr : Str → Str → Bool
  in_cidr addr cidr = elim (env.parse_cidr cidr) [ some contains ↦ contains addr | none ↦ false ]

  unfoldable pub check_is_trusted_proxy : Str → Pipeline → Bool
  check_is_trusted_proxy ip p = if is_empty ip then false else (elim (env.parse_ip ip) [
    | none ↦ false
    | some addr ↦
        (p.cfg.cloudflare_enabled && any (in_cidr addr) default_cloudflare_cidrs)
        || any (λ trusted. str_eq trusted ip || in_cidr addr trusted) p.cfg.trusted_proxies
  ])

  -- `getState`: the state of the address, which is made if there is none.
  unfoldable pub get_state : Str → M IpState
  get_state ip p =
      let r = get_or_create env ip (check_is_trusted_proxy ip p) p.ip_states in
      (r.0, record p { ip_states = r.1 })

  -- A write through the pointer that `getState` returned.
  unfoldable pub put_state : Str → IpState → Pipeline → Pipeline
  put_state ip s p = record p { ip_states = store fnv32_ip (parse_ip_fast env ip) s p.ip_states }

  unfoldable pub is_trusted_proxy : Str → M Bool
  unfolding get_state
  is_trusted_proxy ip =
      if is_empty ip then pure false else (do s ← get_state ip; pure s.is_trusted_proxy)

  unfoldable pub get_conn_count : Str → M ℕ
  get_conn_count ip = do s ← get_state ip; pure s.active_conns

  unfoldable pub increment_conn_count : Str → M ℕ
  increment_conn_count ip = do
    s ← get_state ip
    modify (put_state ip (record s { active_conns = s.active_conns + 1 }))
    pure (s.active_conns + 1)

  -- The count does not fall below 0.
  unfoldable pub decrement_conn_count : Str → M ℕ
  decrement_conn_count ip = do
    s ← get_state ip
    modify (put_state ip (record s { active_conns = s.active_conns - 1 }))
    pure (s.active_conns - 1)

unfoldable pub is_whitelisted : Str → Pipeline → Bool
is_whitelisted ip p = any (str_eq ip) p.cfg.whitelist_ips

module _ (env : Env) where
  -- `time.Now().After(expiry)` deletes the entry.
  unfoldable pub drop_expired_ban : Str → M Bool
  drop_expired_ban ip p = elim (load fnv32a ip p.banned) [
    | none ↦ (false, p)
    | some expiry ↦
        if ltb expiry env.now
        then (false, record p { banned = remove fnv32a ip p.banned })
        else (true, p)
  ]

  unfoldable pub is_banned : Str → M Bool
  is_banned ip = do
    trusted ← is_trusted_proxy env ip
    whitelisted ← read (is_whitelisted ip)
    (if trusted || whitelisted then pure false else drop_expired_ban ip)

  unfoldable pub has_dynamic_whitelist : Str → M Bool
  has_dynamic_whitelist ip p = elim (load fnv32a ip p.whitelist) [
    | none ↦ (false, p)
    | some expiry ↦
        if ltb expiry env.now
        then (false, record p { whitelist = remove fnv32a ip p.whitelist })
        else (true, p)
  ]

  unfoldable pub whitelist_ip : Str → ℕ → Pipeline → Pipeline
  whitelist_ip ip duration p = record p {
    whitelist = store fnv32a ip (env.now + duration) p.whitelist;
  }

  -- The IPv4 key of an address, if it is one.
  unfoldable pub xdp_key : Str → Option Str
  xdp_key ip = elim (env.parse_ip ip) [ none ↦ none | some addr ↦ env.to4 addr ]

  -- `UpdateNoExist`: a counter that is there is kept.
  unfoldable pub xdp_ban : Str → Dict ℕ → Dict ℕ
  xdp_ban ip m = elim (xdp_key ip) [
    | none ↦ m
    | some key ↦ if is_some (lookup key m) then m else insert key 0 m
  ]

  unfoldable pub xdp_unban : Str → Dict ℕ → Dict ℕ
  xdp_unban ip m = elim (xdp_key ip) [ none ↦ m | some key ↦ delete key m ]

abbrev pub ban_queue_size : ℕ
ban_queue_size = 100000

abbrev pub cf_queue_size : ℕ
cf_queue_size = 1000

-- A send that does not wait: a full queue drops the item.
abbrev pub offer : {A : Type 0} → ℕ → A → List A → List A
offer size a queue = if ltb (length queue) size then queue ++ a ∷ [] else queue

abbrev pub offer_to : {A : Type 0} → ℕ → A → Option (List A) → Option (List A)
offer_to size a none = none
offer_to size a (some queue) = some (offer size a queue)

abbrev pub map_xdp : (Dict ℕ → Dict ℕ) → Option (Dict ℕ) → Option (Dict ℕ)
map_xdp f none = none
map_xdp f (some m) = some (f m)

module _ (env : Env) where
  -- The first half of `banIP`: the entry with its expiry, and the counter for a new one.
  unfoldable pub record_ban : Str → ℕ → Pipeline → Pipeline
  record_ban ip duration p =
      let r = load_or_store fnv32a ip (env.now + duration) p.banned in
      if r.1
      then record p { banned = store fnv32a ip (env.now + duration) r.2 }
      else record p { banned = r.2; banned_ips = p.banned_ips +ℤ pos 1 }

  -- The kernel map if it is enabled and the address is no trusted proxy, or the worker's queue.
  unfoldable pub push_xdp : Str → Pipeline → Pipeline
  push_xdp ip p = record p { xdp = map_xdp (xdp_ban env ip) p.xdp }

  unfoldable pub push_queue : Str → ℕ → Pipeline → Pipeline
  push_queue ip duration p = record p {
    ban_queue = offer ban_queue_size (record { ip = ip; duration = duration }) p.ban_queue;
  }

  unfoldable pub push_ban : Str → ℕ → M (Unit {0})
  push_ban ip duration = do
    enabled ← read (λ p. is_some p.xdp)
    trusted ← (if enabled then is_trusted_proxy env ip else pure false)
    (if enabled && not trusted then modify (push_xdp ip) else modify (push_queue ip duration))

  unfoldable pub push_cloudflare : Str → Pipeline → Pipeline
  push_cloudflare ip p = record p { cf_bans = offer_to cf_queue_size ip p.cf_bans }

  unfoldable pub ban_ip : Str → ℕ → M (Unit {0})
  ban_ip ip duration = do
    trusted ← is_trusted_proxy env ip
    whitelisted ← read (is_whitelisted ip)
    (if trusted || whitelisted then pure tt else (do
      modify (record_ban ip duration)
      push_ban ip duration
      modify (push_cloudflare ip)))

  unfoldable pub broadcast : Broadcast → Pipeline → Pipeline
  broadcast b p = elim p.mesh [ none ↦ p | some queue ↦ record p { mesh = some (queue ++ b ∷ []) } ]

  unfoldable pub ban_ip_local : Str → ℕ → M (Unit {0})
  ban_ip_local ip duration = do
    trusted ← is_trusted_proxy env ip
    spared ←
        read (λ p. is_empty ip || trusted || check_is_trusted_proxy env ip p || is_whitelisted ip p)
    (if spared then pure tt else (do ban_ip ip duration; modify (broadcast (ban ip duration))))

  unfoldable pub ban_ip_remote : Str → ℕ → M (Unit {0})
  ban_ip_remote ip duration = do
    trusted ← is_trusted_proxy env ip
    whitelisted ← read (is_whitelisted ip)
    (if trusted || whitelisted then pure tt else ban_ip ip duration)

  unfoldable pub unban_ip : Str → Pipeline → Pipeline
  unban_ip ip p =
      let q = record p {
        banned = remove fnv32a ip p.banned;
        xdp = map_xdp (xdp_unban env ip) p.xdp;
      } in
      let q' = broadcast (unban ip) q in
      record q' { cf_unbans = offer_to cf_queue_size ip q'.cf_unbans }

-- `for key := range snapshot { p.xdpMgr.UnbanIP(key) }`
unfoldable pub xdp_unban_all : Env → Dict ℕ → Dict ℕ → Dict ℕ
xdp_unban_all env [] m = m
xdp_unban_all env ((ip, _) ∷ snap) m = xdp_unban_all env snap (xdp_unban env ip m)

unfoldable pub unban_all_ips : Env → Pipeline → Pipeline
unban_all_ips env p =
    let q = record p {
      banned = clear p.banned;
      xdp = map_xdp (xdp_unban_all env (snapshot p.banned)) p.xdp;
    } in
    record (broadcast env (unban (codes "all")) q) { banned_ips = pos 0 }

-- `Cleanup` over the snapshot: each expired ban is deleted and taken off the counter.
unfoldable pub cleanup_bans : Env → Dict ℕ → Pipeline → Pipeline
cleanup_bans env [] p = p
cleanup_bans env ((ip, expiry) ∷ snap) p = cleanup_bans env snap (
    if ltb expiry env.now
    then record p {
      banned = remove fnv32a ip p.banned;
      banned_ips = p.banned_ips +ℤ negsuc 0;
      xdp = map_xdp (xdp_unban env ip) p.xdp;
    }
    else p)

unfoldable pub cleanup_pipeline : Env → Pipeline → Pipeline
cleanup_pipeline env p =
    let q = cleanup_bans env (snapshot p.banned) p in
    record q {
      whitelist = (cleanup env.now q.whitelist).0;
      ip_states = cleanup_states env.now (600 * 10 ^ 9) q.ip_states;
    }

-- The counter of `CheckConnRate`, and its limit.
unfoldable pub updated_cps : Env → IpState → IpState
updated_cps env s =
    let fresh = record s { cps = 1; conn_last_reset = some env.now } in
    elim s.conn_last_reset [
      | none ↦ fresh
      | some t ↦ if leb (10 ^ 9) (env.now - t) then fresh else record s { cps = s.cps + 1 }
    ]

unfoldable pub check_conn_rate : Env → Engines → Str → M Bool
check_conn_rate env engines ip = do
  trusted ← is_trusted_proxy env ip
  whitelisted ← read (is_whitelisted ip)
  (if trusted || whitelisted then pure true else (do
    s ← get_state env ip
    modify (put_state env ip (updated_cps env s))
    pure (leb (updated_cps env s).cps (if engines.is_under_attack then 25 else 50))))
