-- ===== src/Pipeline/Counters.antt =====
-- Bans and their expiry, the sweep of `Cleanup`, and the counters kept beside them.
use mango_waf.Common.{
  ℕ, ◌+◌, ◌<◌, ◌≡◌, refl, sym, ◌∙◌, ap, Bool, false, Option, none, some, List, [], ◌∷◌, arith, ltb,
  if◌then◌else◌, lt→ltb, length, Bool-cases, inl, inr, value_or, is_some,
}
use mango_waf.Common.Int.{pos, negsuc, ◌+ℤ◌}
use mango_waf.Common.Bytes.{Str, str_eq_iff, str_eq_refl}
use mango_waf.Common.Dict.{Dict, lookup, Distinct}
use mango_waf.Shards.{fnv32a, load, remove, load_or_store, snapshot}
use mango_waf.Shards.Laws.{IsPlaced, load-store, load-remove, load-load_or_store}
use mango_waf.Shards.Sweep.{lookup-snapshot, snapshot-Distinct}
use mango_waf.Pipeline.{IpState, Pipeline, Env}
use mango_waf.Pipeline.State.{parse_ip_fast, zero_key, fnv32_ip, found_state, get_or_create}
use mango_waf.Pipeline.Bans.{
  get_state, put_state, increment_conn_count, drop_expired_ban, record_ban, cleanup_bans,
  cleanup_pipeline, map_xdp, xdp_unban,
}

-- The unrolled hash of a 16-byte key is the hash that the string shards use.
pub fnv32_ip-eq-fnv32a : (key : Str) → length key ≡ 16 → fnv32_ip key ≡ fnv32a key
unfolding fnv32_ip fnv32a
fnv32_ip-eq-fnv32a (a ∷ b ∷ c ∷ d ∷ e ∷ f ∷ g ∷ h ∷ i ∷ j ∷ k ∷ l ∷ m ∷ n ∷ o ∷ q ∷ []) size = refl
fnv32_ip-eq-fnv32a key size = absurd (omega arith)

-- A ban is recorded with its full duration from now, whether or not there was one, and counted exactly
-- if there was none.
pub record_ban_lem :
    (env : Env) (ip : Str) (duration : ℕ) (p : Pipeline)
    → (load fnv32a ip (record_ban env ip duration p).banned ≡ some (env.now + duration))
      × ((record_ban env ip duration p).banned_ips
          ≡ (if is_some (load fnv32a ip p.banned) then p.banned_ips else p.banned_ips +ℤ pos 1))
unfolding record_ban
record_ban_lem env ip duration p =
    let fact = load-load_or_store fnv32a ip ip (env.now + duration) p.banned in
    let r = load_or_store fnv32a ip (env.now + duration) p.banned in
    let same = str_eq_refl ip in
    elim (Bool-cases r.1) [
      | inl old ↦ rw old (
        load-store fnv32a ip ip _ r.2 ∙ rw same refl,
        sym (ap (λ b. if b then p.banned_ips else p.banned_ips +ℤ pos 1) (sym fact.1 ∙ old)),
      )
      | inr new ↦ rw new (
        fact.0 ∙ rw same (ap some (fact.2 ∙ absent (sym fact.1 ∙ new))),
        sym (ap (λ b. if b then p.banned_ips else p.banned_ips +ℤ pos 1) (sym fact.1 ∙ new)),
      )
    ]
  where
    absent :
        is_some (load fnv32a ip p.banned) ≡ false
        → value_or (env.now + duration) (load fnv32a ip p.banned) ≡ env.now + duration
    absent h = ground arith

abbrev pub expired : Env → Option ℕ → Bool
expired env none = false
expired env (some t) = ltb t env.now

-- The sweep over a list of bans deletes those of its entries that have expired.
load-cleanup_bans :
    (env : Env) (snap : Dict ℕ) (p : Pipeline) (ip : Str)
    → Distinct snap
    → load fnv32a ip (cleanup_bans env snap p).banned
      ≡ (if expired env (lookup ip snap) then none else load fnv32a ip p.banned)
unfolding cleanup_bans lookup
load-cleanup_bans env [] p ip d = refl
load-cleanup_bans env ((j, t) ∷ snap) p ip d = elim (Bool-cases (ltb t env.now)) [
  | inl late ↦
      let q = record p {
        banned = remove fnv32a j p.banned;
        banned_ips = p.banned_ips +ℤ negsuc 0;
        xdp = map_xdp (xdp_unban env j) p.xdp;
      } in
      ground (
        arith,
        d.0,
        str_eq_iff j ip,
        load-cleanup_bans env snap q ip d.1,
        load-remove fnv32a ip j p.banned,
      )
  | inr early ↦ ground (arith, d.0, str_eq_iff j ip, load-cleanup_bans env snap p ip d.1)
]

-- The periodic `Cleanup` deletes exactly the bans that have expired.
pub load-cleanup_pipeline :
    (env : Env) (p : Pipeline) (ip : Str)
    → IsPlaced fnv32a p.banned
    → load fnv32a ip (cleanup_pipeline env p).banned
      ≡ (if expired env (load fnv32a ip p.banned) then none else load fnv32a ip p.banned)
unfolding cleanup_pipeline
load-cleanup_pipeline env p ip h =
    load-cleanup_bans env (snapshot p.banned) p ip (snapshot-Distinct fnv32a p.banned h)
    ∙ rw (lookup-snapshot fnv32a p.banned h ip) refl

-- A request that finds its ban expired deletes it and leaves the counter, so a ban, its expiry, a
-- request and a new ban count one address twice.
pub expired_ban_recounted :
    (env later : Env) (ip : Str) (duration t : ℕ) (p : Pipeline)
    → load fnv32a ip p.banned ≡ some t
    → t < env.now
    → (record_ban later ip duration (drop_expired_ban env ip p).1).banned_ips
      ≡ p.banned_ips +ℤ pos 1
unfolding drop_expired_ban
expired_ban_recounted env later ip duration t p e h =
    let gone : load fnv32a ip (remove fnv32a ip p.banned) ≡ none =
      load-remove fnv32a ip ip p.banned ∙ rw (str_eq_refl ip) refl in
    rw (e, drop_expired_ban, lt→ltb t env.now h)
      ((record_ban_lem later ip duration (record p { banned = remove fnv32a ip p.banned })).1
        ∙ ap (λ o. if is_some o then p.banned_ips else p.banned_ips +ℤ pos 1) gone)

abbrev conns : Option IpState → ℕ
conns none = 0
conns (some s) = s.active_conns

-- The connections counted for a key.
abbrev pub key_count : Str → Pipeline → ℕ
key_count key p = conns (load fnv32_ip key p.ip_states)

increment_lem :
    (env : Env) (ip : Str) (p : Pipeline)
    → let r = increment_conn_count env ip p in
      (r.0 ≡ key_count (parse_ip_fast env ip) p + 1) × (key_count (parse_ip_fast env ip) r.1 ≡ r.0)
unfolding increment_conn_count get_state get_or_create put_state found_state
increment_lem env ip p =
    let key = parse_ip_fast env ip in
    (ground arith, rw (load-store fnv32_ip key key, str_eq_refl key) refl)

-- `IncrementConnCount` on each name.
pub increments : Env → List Str → Pipeline → Pipeline
increments env [] p = p
increments env (ip ∷ ips) p = increments env ips (increment_conn_count env ip p).1

abbrev pub NoAddress : Env → List Str → Type 0
NoAddress env [] = Unit
NoAddress env (ip ∷ ips) = (env.parse_addr ip ≡ none) × NoAddress env ips

parse_ip_fast-none :
    (env : Env) (ip : Str) → env.parse_addr ip ≡ none → parse_ip_fast env ip ≡ zero_key
unfolding parse_ip_fast
parse_ip_fast-none env ip h = rw (h, parse_ip_fast) refl

-- All names that are no addresses share one counter, the one of the zero key.
pub increments_shared :
    (env : Env) (ips : List Str) (p : Pipeline)
    → NoAddress env ips
    → key_count zero_key (increments env ips p) ≡ key_count zero_key p + length ips
unfolding increments
increments_shared env [] p h = omega arith
increments_shared env (ip ∷ ips) p (h, hs) =
    let q = (increment_conn_count env ip p).1 in
    let (counted, kept) = rw (parse_ip_fast-none env ip h) at (increment_lem env ip p) in
    omega (arith, increments_shared env ips q hs, counted, kept)
