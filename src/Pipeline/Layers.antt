-- ===== src/Pipeline/Layers.antt =====
-- core/pipeline.go: the layers of `ProcessWithFingerprint` up to the static whitelist. A layer
-- answers `some` action to end the request.
use mango_waf.Common.{
  ℕ, ◌+◌, ◌*◌, ◌^◌, Bool, false, not, ◌&&◌, ◌||◌, Option, none, some, List, [], ◌∷◌, ◌++◌, ltb, leb,
  ◌==◌, if◌then◌else◌,
}
use mango_waf.Common.Bytes.{Str, codes, str_eq, is_empty}
use mango_waf.Request.{Request, header, form_value}
use mango_waf.Pipeline.{
  Action, allow, block, drop, IpState, Env, Engines, Fingerprint, M, ◌>>=◌, ◌>>◌, pure, modify,
  pass, reply, when_some, read,
}
use mango_waf.Pipeline.State.{
  resolve_domain_mode, valid_host, is_bad_ua, is_static_asset, same_second, start_of,
}
use mango_waf.Pipeline.Bans.{
  is_trusted_proxy, is_whitelisted, is_banned, ban_ip, ban_ip_local, get_conn_count, get_state,
  put_state,
}

abbrev pub disabled : Engines → Str → Bool
disabled engines feature = elim engines.feature_disabled [
  | none ↦ false
  | some off ↦ off feature engines.current_rps
]

-- `if !p.isTrustedProxy(ip) { p.BanIPLocal(ip, d) }`
unfoldable pub ban_unless_trusted : Env → Str → ℕ → M (Unit {0})
ban_unless_trusted env ip duration = do
  trusted ← is_trusted_proxy env ip
  (if trusted then pure tt else ban_ip_local env ip duration)

-- `IsTrusted` of a fingerprint: a total of at least 75.
abbrev pub fp_trusted : Fingerprint → Bool
fp_trusted fp = leb 7500 fp.total

abbrev pub fast_track_mode : Str → Bool
fast_track_mode mode =
    str_eq mode (codes "off")
    || str_eq mode (codes "auto")
    || str_eq mode (codes "monitor")
    || is_empty mode

abbrev pub intel_reason : List Str → Str
intel_reason [] = codes "intel_blocked"
intel_reason (a ∷ _) = codes "intel:" ++ a

-- The requests of this second, on the state that `getState` returned.
unfoldable pub updated_hits : Env → IpState → IpState
unfolding same_second start_of
updated_hits env s =
    if same_second env.now_sec s.conn_last_reset
    then record s { rate_limit_hits = s.rate_limit_hits + 1 }
    else record s { rate_limit_hits = 1; conn_last_reset = some (start_of env.now_sec) }

module _ (env : Env) (engines : Engines) (r : Request) (ip : Str) where
  unfoldable pub layer_banned : M (Option Action)
  layer_banned = do
    banned ← is_banned env ip
    (if banned then reply drop (codes "banned") else pass)

  unfoldable pub layer_waf : M (Option Action)
  layer_waf = when_some engines.inspect λ inspect. do
    enabled ← read (λ p. p.cfg.waf_enabled)
    duration ← read (λ p. p.cfg.ban_duration)
    (if enabled && not (disabled engines (codes "waf_deep_inspect")) && (inspect r).blocked
        then (do
          ban_unless_trusted env ip duration
          reply block (codes "waf:" ++ (inspect r).top_rule))
        else pass)

  unfoldable pub layer_static : M (Option Action)
  layer_static = if is_static_asset r.path then reply allow (codes "static_asset") else pass

  unfoldable pub layer_emergency : M (Option Action)
  layer_emergency = do
    hit ← read (λ p.
        engines.domain_under_attack r.host
        && p.cfg.auto_enable
        && not (is_whitelisted ip p)
        && (str_eq (resolve_domain_mode p r) (codes "emergency")
            || str_eq p.cfg.mode (codes "emergency")))
    (if hit then reply block (codes "emergency_mode") else pass)

  unfoldable pub layer_conn_limit : M (Option Action)
  layer_conn_limit = do
    count ← get_conn_count env ip
    most ← read (λ p. p.cfg.max_per_ip)
    duration ← read (λ p. p.cfg.ban_duration)
    (if ltb most count then (do ban_ip env ip duration; reply block (codes "conn_limit")) else pass)

  unfoldable pub layer_validator : M (Option Action)
  layer_validator = when_some engines.validate λ validate. if (validate r).0 then pass else (do
    ban_ip_local env ip (3600 * 10 ^ 9)
    reply block (codes "validation:" ++ (validate r).1))

  -- `validateRequest`
  unfoldable pub layer_validate : M (Option Action)
  layer_validate = do
    known ← read (λ p. valid_host p r)
    (if not known
        then reply block (codes "invalid_host")
        else if is_bad_ua r
        then reply block (codes "bad_ua")
        else pass)

  unfoldable pub check_fingerprint : Fingerprint → M (Option Action)
  check_fingerprint fp = do
    duration ← read (λ p. p.cfg.ban_duration)
    mode ← read (λ p. resolve_domain_mode p r)
    (if fp.ja3_known && fp.ja3_trust == 0
        then (do
          ban_ip_local env ip (duration * 6)
          reply drop (codes "attack_tool_ja3:" ++ fp.ja3_browser))
        else if ltb fp.total 1500
        then (do ban_ip_local env ip (duration * 3); reply block (codes "fp_malicious"))
        else if fp_trusted fp && not (engines.domain_under_attack r.host) && fast_track_mode mode
        then reply allow (codes "fp_trusted:" ++ fp.verdict)
        else (do
          s ← get_state env ip
          modify (put_state env ip (record s { trust_score = fp.total; ja3_hash = fp.ja3_hash }))
          pass))

  unfoldable pub layer_fingerprint : Option Fingerprint → M (Option Action)
  layer_fingerprint none = pass
  layer_fingerprint (some fp) = do
    enabled ← read (λ p. p.cfg.ja3_enabled)
    (if enabled then check_fingerprint fp else pass)

  unfoldable pub layer_intel : M (Option Action)
  layer_intel = when_some engines.evaluate λ evaluate. do
    duration ← read (λ p. p.cfg.ban_duration)
    (if disabled engines (codes "reputation_lookup")
        then pass
        else if (evaluate ip).trust_score == 0
        then (do ban_ip_local env ip duration; reply block (intel_reason (evaluate ip).actions))
        else if ltb (evaluate ip).trust_score 3000
        then (do
          s ← get_state env ip
          modify (put_state env ip (record s { trust_score = (evaluate ip).trust_score }))
          pass)
        else pass)

  unfoldable pub is_verification_post : Bool
  is_verification_post =
      str_eq r.method (codes "POST")
      && not (is_empty (header (codes "Content-Type") r))
      && not (is_empty (form_value (codes "challenge_type") r))

  -- Layer 3.5, the flood protection of a domain under attack.
  unfoldable pub layer_flood : M (Option Action)
  layer_flood = do
    strict ← read (λ p.
        p.cfg.rate_limit_enabled
        && (engines.domain_under_attack r.host || ltb 200 (engines.domain_rps r.host))
        && not (is_whitelisted ip p)
        && not is_verification_post)
    (if not strict then pass else (do
      s ← get_state env ip
      modify (put_state env ip (updated_hits env s))
      rate ← read (λ p. p.cfg.requests_per_second)
      duration ← read (λ p. p.cfg.ban_duration)
      (if ltb (if rate == 0 then 50 else rate) (updated_hits env s).rate_limit_hits
          then (do ban_unless_trusted env ip duration; reply drop (codes "ddos_flood_xdp"))
          else pass)))

  -- Layer 3.5, the token buckets.
  unfoldable pub layer_limiter : M (Option Action)
  layer_limiter = when_some engines.rate_allow λ rate_allow. do
    enabled ← read (λ p. p.cfg.rate_limit_enabled)
    duration ← read (λ p. p.cfg.ban_duration)
    (if enabled && not (rate_allow ip)
        then (do ban_unless_trusted env ip duration; reply drop (codes "rate_limited"))
        else pass)

  unfoldable pub layer_whitelist : M (Option Action)
  layer_whitelist = do
    listed ← read (is_whitelisted ip)
    (if listed then reply allow (codes "whitelisted") else pass)
