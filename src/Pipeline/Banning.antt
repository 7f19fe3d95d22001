-- ===== src/Pipeline/Banning.antt =====
-- A ban of an ordinary address holds until it expires.
use mango_waf.Common.{
  ℕ, ◌+◌, ◌≡◌, refl, ◌∙◌, ap, Bool, true, false, not, ◌&&◌, Option, none, some, arith, ltb,
  if◌then◌else◌, is_some,
}
use mango_waf.Common.Bytes.{Str, str_eq_refl, is_empty}
use mango_waf.Shards.{fnv32a, load}
use mango_waf.Shards.Laws.{load-store}
use mango_waf.Pipeline.{IpState, Broadcast, ban, Pipeline, Env, M, pure, modify}
use mango_waf.Pipeline.State.{parse_ip_fast, fnv32_ip, found_state, get_or_create}
use mango_waf.Pipeline.Bans.{
  in_cidr, check_is_trusted_proxy, get_state, is_trusted_proxy, is_whitelisted, drop_expired_ban,
  is_banned, record_ban, push_xdp, push_queue, push_ban, push_cloudflare, ban_ip, broadcast,
  ban_ip_local, ban_ip_remote,
}
use mango_waf.Pipeline.Counters.{record_ban_lem}
use mango_waf.Pipeline.BanLaws.{whitelisted-eq}

-- The answer of `isTrustedProxy`, which is cached in the state of the address.
abbrev pub trusted_flag : Env → Str → Pipeline → Bool
trusted_flag env ip p = (is_trusted_proxy env ip p).0

-- The clock of a later call.
abbrev pub at_time : ℕ → Env → Env
at_time t env = record env { now = t }

flag_of : Bool → Option IpState → Bool
flag_of checked none = checked
flag_of checked (some s) = s.is_trusted_proxy

found_state-flag :
    (now : ℕ) (checked : Bool) (o : Option IpState)
    → (found_state now checked o).is_trusted_proxy ≡ flag_of checked o
unfolding found_state flag_of
found_state-flag now checked none = refl
found_state-flag now checked (some s) = refl

trusted_flag_lem :
    (env : Env) (ip : Str) (p : Pipeline)
    → trusted_flag env ip p ≡ (
        if is_empty ip
        then false
        else flag_of
            (check_is_trusted_proxy env ip p)
            (load fnv32_ip (parse_ip_fast env ip) p.ip_states))
unfolding is_trusted_proxy get_state get_or_create
trusted_flag_lem env ip p = ground (
  arith,
  found_state-flag env.now (check_is_trusted_proxy env ip p)
      (load fnv32_ip (parse_ip_fast env ip) p.ip_states),
)

check_again :
    (t : ℕ) (env : Env) (ip : Str) (p q : Pipeline)
    → q.cfg ≡ p.cfg
    → check_is_trusted_proxy (at_time t env) ip q ≡ check_is_trusted_proxy env ip p
unfolding check_is_trusted_proxy in_cidr
check_again t env ip p q c = ap (λ cfg. check_is_trusted_proxy env ip (record p { cfg = cfg })) c

key_again : (t : ℕ) (env : Env) (ip : Str) → parse_ip_fast (at_time t env) ip ≡ parse_ip_fast env ip
unfolding parse_ip_fast
key_again t env ip = refl

module _ (env : Env) (ip : Str) where
  -- What the steps of a ban leave alone, read at any later time.
  record Calm (p q : Pipeline) : Type 0 where
    cfg : q.cfg ≡ p.cfg
    banned : q.banned ≡ p.banned
    flag : (t : ℕ) → trusted_flag (at_time t env) ip q ≡ trusted_flag env ip p

  same_flag :
      (t : ℕ) (p q : Pipeline)
      → q.cfg ≡ p.cfg
      → q.ip_states ≡ p.ip_states
      → trusted_flag (at_time t env) ip q ≡ trusted_flag env ip p
  same_flag t p q c s = ground (
    arith,
    trusted_flag_lem (at_time t env) ip q,
    trusted_flag_lem env ip p,
    check_again t env ip p q c,
    key_again t env ip,
  )

  stored_flag :
      (p : Pipeline)
      → is_empty ip ≡ false
      → flag_of
          (check_is_trusted_proxy env ip p)
          (load fnv32_ip (parse_ip_fast env ip) (is_trusted_proxy env ip p).1.ip_states)
        ≡ trusted_flag env ip p
  unfolding is_trusted_proxy get_state get_or_create flag_of
  stored_flag p full =
      let key = parse_ip_fast env ip in
      let checked = check_is_trusted_proxy env ip p in
      let s = found_state env.now checked (load fnv32_ip key p.ip_states) in
      ground (arith, load-store fnv32_ip key key s p.ip_states, str_eq_refl key)

  trusted-cfg : (p : Pipeline) → (is_trusted_proxy env ip p).1.cfg ≡ p.cfg
  unfolding is_trusted_proxy get_state
  trusted-cfg p = ground arith

  trusted-banned : (p : Pipeline) → (is_trusted_proxy env ip p).1.banned ≡ p.banned
  unfolding is_trusted_proxy get_state
  trusted-banned p = ground arith

  trusted_again :
      (t : ℕ) (p : Pipeline)
      → trusted_flag (at_time t env) ip (is_trusted_proxy env ip p).1 ≡ trusted_flag env ip p
  trusted_again t p =
      let q = (is_trusted_proxy env ip p).1 in
      ground (
        arith,
        trusted_flag_lem (at_time t env) ip q,
        trusted_flag_lem env ip p,
        check_again t env ip p q (trusted-cfg p),
        key_again t env ip,
        stored_flag p,
      )

  trusted-later :
      (t : ℕ) (p : Pipeline)
      → let q = (is_trusted_proxy (at_time t env) ip p).1 in (q.cfg ≡ p.cfg) × (q.banned ≡ p.banned)
  unfolding is_trusted_proxy get_state
  trusted-later t p = ground arith

  trusted-Calm : (p : Pipeline) → Calm p (is_trusted_proxy env ip p).1
  trusted-Calm p = record {
    cfg = trusted-cfg p;
    banned = trusted-banned p;
    flag = λ t. trusted_again t p;
  }

  Calm-trans : (p q r : Pipeline) → Calm p q → Calm q r → Calm p r
  Calm-trans p q r h k = record {
    cfg = k.cfg ∙ h.cfg;
    banned = k.banned ∙ h.banned;
    flag = λ t. k.flag t ∙ h.flag env.now;
  }

  quiet-Calm :
      (p q : Pipeline) → q.cfg ≡ p.cfg → q.banned ≡ p.banned → q.ip_states ≡ p.ip_states → Calm p q
  quiet-Calm p q c b s = record { cfg = c; banned = b; flag = λ t. same_flag t p q c s }

  abbrev finish : ℕ → Bool → Bool → M (Unit {0})
  finish duration enabled trusted =
      if enabled && not trusted
      then modify (push_xdp env ip)
      else modify (push_queue env ip duration)

  finish-Calm :
      (duration : ℕ) (enabled trusted : Bool) (p : Pipeline)
      → Calm p (finish duration enabled trusted p).1
  unfolding push_xdp push_queue
  finish-Calm duration true false p = quiet-Calm p _ refl refl refl
  finish-Calm duration true true p = quiet-Calm p _ refl refl refl
  finish-Calm duration false trusted p = quiet-Calm p _ refl refl refl

  pushed-Calm :
      (duration : ℕ) (enabled : Bool) (p : Pipeline)
      → let r = (if enabled then is_trusted_proxy env ip else pure false) p in
        Calm p (finish duration enabled r.0 r.1).1
  pushed-Calm duration true p =
      let r = is_trusted_proxy env ip p in
      Calm-trans p r.1 _ (trusted-Calm p) (finish-Calm duration true r.0 r.1)
  pushed-Calm duration false p = finish-Calm duration false false p

  push_ban-Calm : (duration : ℕ) (p : Pipeline) → Calm p (push_ban env ip duration p).1
  unfolding push_ban
  push_ban-Calm duration p = pushed-Calm duration (is_some p.xdp) p

  -- An address that may be banned: no proxy that is trusted, and not on the static whitelist.
  pub record IsOrdinary (p : Pipeline) : Type 0 where
    pub named : is_empty ip ≡ false
    pub untrusted : trusted_flag env ip p ≡ false
    pub unchecked : check_is_trusted_proxy env ip p ≡ false
    pub unlisted : is_whitelisted ip p ≡ false

  record IsRecorded (duration : ℕ) (p q : Pipeline) : Type 0 where
    cfg : q.cfg ≡ p.cfg
    flag : (t : ℕ) → trusted_flag (at_time t env) ip q ≡ trusted_flag env ip p
    entry : load fnv32a ip q.banned ≡ some (env.now + duration)

  record_ban-cfg : (duration : ℕ) (p : Pipeline) → (record_ban env ip duration p).cfg ≡ p.cfg
  unfolding record_ban
  record_ban-cfg duration p = ground arith

  record_ban-ip_states :
      (duration : ℕ) (p : Pipeline) → (record_ban env ip duration p).ip_states ≡ p.ip_states
  unfolding record_ban
  record_ban-ip_states duration p = ground arith

  -- Calm steps, the record of the ban, and calm steps again.
  IsRecorded-between :
      (duration : ℕ) (p q s : Pipeline)
      → Calm p q
      → Calm (record_ban env ip duration q) s
      → IsRecorded duration p s
  IsRecorded-between duration p q s h c =
      let r = record_ban env ip duration q in
      record {
        cfg = c.cfg ∙ record_ban-cfg duration q ∙ h.cfg;
        flag = λ t.
            c.flag t
            ∙ same_flag env.now q r (record_ban-cfg duration q) (record_ban-ip_states duration q)
            ∙ h.flag env.now;
        entry = rw c.banned (record_ban_lem env ip duration q).0;
      }

  ban_ip-IsRecorded :
      (duration : ℕ) (p : Pipeline)
      → IsOrdinary p
      → IsRecorded duration p (ban_ip env ip duration p).1
  unfolding ban_ip push_cloudflare
  ban_ip-IsRecorded duration p h =
      let q = (is_trusted_proxy env ip p).1 in
      let r = record_ban env ip duration q in
      let s = (push_ban env ip duration r).1 in
      rw (h.untrusted, whitelisted-eq ip p q (trusted-cfg p) ∙ h.unlisted)
        (IsRecorded-between duration p q _ (trusted-Calm p)
          (Calm-trans r s _ (push_ban-Calm duration r) (quiet-Calm s _ refl refl refl)))

  trusted-IsOrdinary : (p : Pipeline) → IsOrdinary p → IsOrdinary (is_trusted_proxy env ip p).1
  trusted-IsOrdinary p h =
      let q = (is_trusted_proxy env ip p).1 in
      record {
        named = h.named;
        untrusted = trusted_again env.now p ∙ h.untrusted;
        unchecked = check_again env.now env ip p q (trusted-cfg p) ∙ h.unchecked;
        unlisted = whitelisted-eq ip p q (trusted-cfg p) ∙ h.unlisted;
      }

  broadcast-Calm : (b : Broadcast) (p : Pipeline) → Calm p (broadcast env b p)
  unfolding broadcast
  broadcast-Calm b p = quiet-Calm p _ (ground arith) (ground arith) (ground arith)

  ban_ip_local-IsRecorded :
      (duration : ℕ) (p : Pipeline)
      → IsOrdinary p
      → IsRecorded duration p (ban_ip_local env ip duration p).1
  unfolding ban_ip_local
  ban_ip_local-IsRecorded duration p h =
      let q = (is_trusted_proxy env ip p).1 in
      let k = trusted-IsOrdinary p h in
      let done = ban_ip-IsRecorded duration q k in
      let s = (ban_ip env ip duration q).1 in
      let c = broadcast-Calm (ban ip duration) s in
      rw (h.untrusted, h.named, k.unchecked, k.unlisted)
        (record {
          cfg = c.cfg ∙ done.cfg ∙ trusted-cfg p;
          flag = λ t. c.flag t ∙ done.flag env.now ∙ trusted_again env.now p;
          entry = rw c.banned done.entry;
        })

  drop_expired_lem :
      (t expiry : ℕ) (p : Pipeline)
      → load fnv32a ip p.banned ≡ some expiry
      → (drop_expired_ban (at_time t env) ip p).0 ≡ not (ltb expiry t)
  unfolding drop_expired_ban
  drop_expired_lem t expiry p e = rw (e, drop_expired_ban) (ground arith)

  recorded-is_banned :
      (duration t : ℕ) (p q : Pipeline)
      → IsOrdinary p
      → IsRecorded duration p q
      → (is_banned (at_time t env) ip q).0 ≡ not (ltb (env.now + duration) t)
  unfolding is_banned
  recorded-is_banned duration t p q h done =
      let r = (is_trusted_proxy (at_time t env) ip q).1 in
      let flag = done.flag t ∙ h.untrusted in
      let c = trusted-later t q in
      rw (flag, whitelisted-eq ip p r (c.0 ∙ done.cfg) ∙ h.unlisted)
        (drop_expired_lem t _ r (rw c.1 done.entry))

  -- After `BanIPLocal` of an ordinary address every `isBanned` up to the end of the duration answers
  -- true, and each later one answers false.
  pub is_banned-ban_ip_local :
      (duration t : ℕ) (p : Pipeline)
      → IsOrdinary p
      → (is_banned (at_time t env) ip (ban_ip_local env ip duration p).1).0
        ≡ not (ltb (env.now + duration) t)
  is_banned-ban_ip_local duration t p h =
      recorded-is_banned duration t p (ban_ip_local env ip duration p).1 h
        (ban_ip_local-IsRecorded duration p h)

  ban_ip_remote-IsRecorded :
      (duration : ℕ) (p : Pipeline)
      → IsOrdinary p
      → IsRecorded duration p (ban_ip_remote env ip duration p).1
  unfolding ban_ip_remote
  ban_ip_remote-IsRecorded duration p h =
      let q = (is_trusted_proxy env ip p).1 in
      let k = trusted-IsOrdinary p h in
      let done = ban_ip-IsRecorded duration q k in
      rw (h.untrusted, k.unlisted)
        (record {
          cfg = done.cfg ∙ trusted-cfg p;
          flag = λ t. done.flag t ∙ trusted_again env.now p;
          entry = done.entry;
        })

  pub is_banned-ban_ip_remote :
      (duration t : ℕ) (p : Pipeline)
      → IsOrdinary p
      → (is_banned (at_time t env) ip (ban_ip_remote env ip duration p).1).0
        ≡ not (ltb (env.now + duration) t)
  is_banned-ban_ip_remote duration t p h =
      recorded-is_banned duration t p (ban_ip_remote env ip duration p).1 h
        (ban_ip_remote-IsRecorded duration p h)
