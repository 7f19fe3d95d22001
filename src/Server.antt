-- ===== src/Server.antt =====
-- core/server.go: `handleRequest` and `extractIP`. The state of the pipeline is threaded through; the
-- outcome of a form's verification, the cache and `net.SplitHostPort` are answers from outside. A page is what its
-- status and text are chosen by; header lines, logging and the log store are left out.
pub mod Guard
pub mod Effects
pub mod Accounts
mod Tests
use mango_waf.Pipeline.Stage.{has_valid_proof}
use mango_waf.Pipeline.Bans.{
  increment_conn_count, is_whitelisted, check_is_trusted_proxy, ban_ip_local, is_trusted_proxy,
  unban_ip,
}
use mango_waf.Common.Dict.{lookup, insert, delete, Dict}
use mango_waf.Common.Bytes.{codes, Str, has_prefix, is_empty, contains, str_eq}
use mango_waf.Common.{
  ◌^◌, value_or, any, reverse, ℕ, zero, suc, true, false, none, some, [], ◌∷◌, inl, inr, refl, Bool,
  Option, List, ◌≡◌, ◌++◌, ◌+◌, ◌-◌, ◌*◌, ◌≤◌, ◌<◌, ◌&&◌, ◌||◌, not, ltb, leb, ◌==◌, if◌then◌else◌,
  length, Bool-cases, Option-cases, arith, ap, sym, ◌∙◌, ◌≢◌, ◌↔◌, ◌⊎◌,
}
use mango_waf.Pipeline.{
  ActionType, Action, allow, challenge, block, rate_limit, drop, Env, Engines, Fingerprint,
  Inspection, M, ◌>>=◌, ◌>>◌, pure, modify, read,
}
use mango_waf.Attack.{normalize_host}
use mango_waf.Request.{Request, header, form_value}
use mango_waf.Pipeline.Process.{process}
use mango_waf.Pipeline.Layers.{ban_unless_trusted}

-- `trimSpace` of this file cuts blanks only.
cut_left : Str → Str
cut_left [] = []
cut_left (c ∷ s) = if c == 32 then cut_left s else c ∷ s

unfoldable pub trim_blanks : Str → Str
unfolding cut_left
trim_blanks s = reverse (cut_left (reverse (cut_left s)))

unfoldable pub split_first : Str → ℕ → Str
split_first [] sep = []
split_first (c ∷ s) sep = if c == sep then [] else c ∷ split_first s sep

-- The address that the headers of a trusted proxy name.
unfoldable pub forwarded_ip : Request → Str → Str
unfolding header trim_blanks split_first
forwarded_ip r peer =
    let cf = header (codes "Cf-Connecting-Ip") r in
    let xff = header (codes "X-Forwarded-For") r in
    let xri = header (codes "X-Real-Ip") r in
    if not (is_empty cf)
    then trim_blanks cf
    else if not (is_empty (trim_blanks (split_first xff b',')))
    then trim_blanks (split_first xff b',')
    else if not (is_empty (trim_blanks xri))
    then trim_blanks xri
    else peer

-- `split_host_port` is `net.SplitHostPort`, none for its error.
unfoldable pub peer_host : (Str → Option Str) → Str → Str
peer_host split_host_port remote_addr = value_or remote_addr (split_host_port remote_addr)

module _ (env : Env) (split_host_port : Str → Option Str) where
  unfoldable pub extract_ip : Str → Request → M Str
  unfolding peer_host
  extract_ip remote_addr r = do
    let peer = peer_host split_host_port remote_addr
    trusted ← is_trusted_proxy env peer
    listed ← read (check_is_trusted_proxy env peer)
    pure (if trusted || listed then forwarded_ip r peer else peer)

-- How the answer to a refused request goes on after its first page: under load a dropped connection is aborted,
-- or answered when it comes from Cloudflare, and others get a short page; else a second block page.
pub data Ending : Type 0 where
  aborted cloudflare_page short_page second_page : Ending

pub data Reply : Type 0 where
  logo : Reply
  redirected : Str → Reply
  server_error : Reply
  rate_limit_page : Reply
  exploit_page : Str → Reply
  from_cache upstream no_upstream : Reply
  challenge_page : (stage difficulty : ℕ) → Reply
  turned_away : ActionType → Str → Ending → Reply

-- `Stats`, the requests of the domains among them, and the failed challenges of each address.
pub record Counts : Type 0 where
  pub total_requests : ℕ
  pub passed_requests : ℕ
  pub blocked_requests : ℕ
  pub domain_reqs : Dict ℕ
  pub challenge_fails : Dict ℕ

-- What `HandleVerification` does with a posted form: it calls `OnVerifySuccess` and returns true, calls
-- `OnVerifyFailed` and returns false, returns false alone, or panics before either call.
pub data Verified : Type 0 where
  solved refused ignored crashed : Verified

-- The answers from outside.
pub record Outside : Type 0 where
  pub verify_form : Request → Str → Verified
  pub cached : Request → Bool
  pub has_upstreams : Bool

abbrev pub logo_paths : List Str
logo_paths =
    codes "/logo-mango.png"
    ∷ codes "/logo-mango-small.png"
    ∷ codes "/assets/logo-mango.png"
    ∷ codes "/favicon.ico"
    ∷ codes "/apple-touch-icon.png"
    ∷ []

unfoldable pub is_logo : Str → Bool
unfolding str_eq
is_logo path = any (str_eq path) logo_paths

unfoldable pub count_request : Request → Counts → Counts
unfolding has_prefix insert lookup normalize_host
count_request r c =
    let host = normalize_host r.host in
    if has_prefix r.path (codes "/api/") then c else record c {
      total_requests = c.total_requests + 1;
      domain_reqs = insert host (value_or 0 (lookup host c.domain_reqs) + 1) c.domain_reqs;
    }

abbrev pub passed : Counts → Counts
passed c = record c { passed_requests = c.passed_requests + 1 }

abbrev pub blocked : Counts → Counts
blocked c = record c { blocked_requests = c.blocked_requests + 1 }

unfoldable pub deliver : Outside → Request → Reply
deliver o r = if o.cached r then from_cache else if o.has_upstreams then upstream else no_upstream

unfoldable pub is_form : Request → Bool
unfolding header contains str_eq form_value
is_form r =
    str_eq r.method (codes "POST")
    && contains (header (codes "Content-Type") r) (codes "application/x-www-form-urlencoded")
    && not (is_empty (form_value (codes "challenge_type") r))

unfoldable pub ending_of : Engines → ℕ → Request → ActionType → Ending
unfolding header
ending_of engines rps_threshold r kind =
    let most = if rps_threshold == 0 then 100 else rps_threshold * 2 in
    if engines.is_under_attack || ltb most engines.current_rps
    then (elim kind [
      | drop ↦
          if is_empty (header (codes "Cf-Connecting-Ip") r) && is_empty (header (codes "Cf-Ray") r)
          then aborted
          else cloudflare_page
      | _ ↦ short_page
    ])
    else second_page

-- The rules engine on the fast path, and the delivery behind it.
abbrev pub inspected_reply :
    Outside → Request → Option (Request → Inspection) → Counts → Reply × Counts
inspected_reply o r none c = (deliver o r, passed c)
inspected_reply o r (some inspect) c =
    if (inspect r).blocked
    then (exploit_page (inspect r).top_rule, blocked c)
    else (deliver o r, passed c)

-- `CheckRateLimit`: 0 within the limit, 1 limited, 2 to be banned.
abbrev pub rate_status : Engines → Str → ℕ
rate_status engines ip = elim engines.check_rate_limit [ none ↦ 0 | some check ↦ check ip ]

module _ (env : Env) (engines : Engines) (o : Outside) (r : Request) (ip : Str) where
  -- The fast path of a visitor with a valid proof.
  unfoldable pub serve_verified : Counts → M (Reply × Counts)
  unfolding ban_ip_local deliver
  serve_verified c = do
    let status = rate_status engines ip
    enabled ← read (λ p. p.cfg.waf_enabled)
    (if ltb 0 status
        then (if status == 2
            then (do ban_ip_local env ip (3600 * 10 ^ 9); pure (rate_limit_page, blocked c))
            else pure (rate_limit_page, blocked c))
        else pure
            (if enabled then inspected_reply o r engines.inspect c else (deliver o r, passed c)))

  -- The escalation of an address that asks for challenge pages.
  unfoldable pub escalate : M (Unit {0})
  unfolding is_trusted_proxy is_whitelisted increment_conn_count ban_ip_local
  escalate = do
    trusted ← is_trusted_proxy env ip
    listed ← read (is_whitelisted ip)
    duration ← read (λ p. p.cfg.ban_duration)
    (if trusted || listed then pure tt else (do
      hits ← increment_conn_count env (ip ++ codes "_ch")
      (if ltb 2 hits || engines.is_under_attack then ban_ip_local env ip duration else pure tt)))

  unfoldable pub refuse : Action → Counts → M (Reply × Counts)
  unfolding ban_unless_trusted ending_of
  refuse a c = do
    duration ← read (λ p. p.cfg.ban_duration)
    most ← read (λ p. p.cfg.rps_threshold)
    ban_unless_trusted env ip duration
    pure (turned_away a.kind a.reason (ending_of engines most r a.kind), blocked c)

  unfoldable pub act_as : ActionType → Action → Counts → M (Reply × Counts)
  unfolding escalate refuse deliver
  act_as allow a c = pure (deliver o r, passed c)
  act_as challenge a c = escalate >> pure (challenge_page a.stage a.difficulty, blocked c)
  act_as block a c = refuse a c
  act_as rate_limit a c = refuse a c
  act_as drop a c = refuse a c

  -- The pipeline always answers.
  unfoldable pub act_on_answer : Option Action → Counts → M (Reply × Counts)
  unfolding act_as
  act_on_answer none c = pure (no_upstream, c)
  act_on_answer (some a) c = act_as a.kind a c

  -- `OnVerifyFailed`: the third failure of an address bans it and starts its count again.
  unfoldable pub on_verify_failed : Counts → M Counts
  unfolding lookup insert delete ban_ip_local
  on_verify_failed c = do
    duration ← read (λ p. p.cfg.ban_duration)
    let fails = value_or 0 (lookup ip c.challenge_fails) + 1
    (if leb 3 fails
        then (do
          ban_ip_local env ip duration
          pure (record c { challenge_fails = delete ip c.challenge_fails }))
        else pure (record c { challenge_fails = insert ip fails c.challenge_fails }))

  -- Behind the forms: the fast path of a valid proof, and the pipeline.
  unfoldable pub handle_checked : Option Fingerprint → Counts → M (Reply × Counts)
  unfolding serve_verified act_on_answer has_valid_proof process
  handle_checked fp c = do
    proved ← has_valid_proof env engines r ip
    (if proved
        then serve_verified c
        else (do answer ← process env engines r ip fp; act_on_answer answer c))

  -- A posted form, `OnVerifySuccess` among it. The panic of a verification is recovered by the handler.
  unfoldable pub handle_form : Verified → Option Fingerprint → Counts → M (Reply × Counts)
  unfolding on_verify_failed handle_checked unban_ip delete
  handle_form solved fp c = do
    modify (unban_ip env ip)
    pure (
      redirected (if is_empty r.path then codes "/" else r.path),
      record c { challenge_fails = delete ip c.challenge_fails },
    )
  handle_form refused fp c = on_verify_failed c >>= handle_checked fp
  handle_form ignored fp c = handle_checked fp c
  handle_form crashed fp c = pure (server_error, c)

  -- From the client's address on, with the fingerprint of the connection.
  unfoldable pub handle_from : Option Fingerprint → Counts → M (Reply × Counts)
  unfolding handle_form handle_checked count_request is_logo is_form
  handle_from fp c =
      if is_logo r.path
      then pure (logo, count_request r c)
      else if is_form r
      then handle_form (o.verify_form r ip) fp (count_request r c)
      else handle_checked fp (count_request r c)

unfoldable pub handle_request :
    Env
    → Engines
    → Outside
    → (Str → Option Str)
    → Str
    → Request
    → Option Fingerprint
    → Counts
    → M (Reply × Counts)
unfolding extract_ip handle_from
handle_request env engines o split_host_port remote_addr r fp c = do
  ip ← extract_ip env split_host_port remote_addr r
  handle_from env engines o r ip fp c
