-- ===== src/Server/Accounts.antt =====
-- core/server.go: the counters of `handleRequest`.
use mango_waf.Common.Dict.{lookup}
use mango_waf.Pipeline.Process.{process}
use mango_waf.Pipeline.Totality.{process_answers}
use mango_waf.Pipeline.Stage.{has_valid_proof}
use mango_waf.Common.Bytes.{is_empty, codes, has_prefix, Str}
use mango_waf.Request.{Request}
use mango_waf.Server.{
  handle_checked, on_verify_failed, handle_form, is_form, logo, is_logo, extract_ip, redirected,
  count_request, handle_request, act_on_answer, handle_from, deliver, Reply, rate_status,
  inspected_reply, refuse, serve_verified, act_as, passed, Outside, Counts, server_error, Verified,
  solved, refused, ignored, crashed,
}
use mango_waf.Common.{
  value_or, ℕ, none, some, inl, inr, refl, Option, ◌≡◌, ◌+◌, ltb, ◌==◌, Bool-cases, arith, true,
  false, Bool, if◌then◌else◌, ap, ◌∙◌, leb,
}
use mango_waf.Pipeline.{
  Fingerprint, Action, Inspection, Pipeline, Engines, Env, ActionType, allow, challenge, block,
  rate_limit, drop,
}

abbrev pub settled : Counts → ℕ
settled c = c.passed_requests + c.blocked_requests

-- The replies that count for nothing: the logos, the redirect behind a solved form, and the answer to a panic
-- of a form's verification.
abbrev pub uncounted : Reply → Bool
uncounted logo = true
uncounted (redirected to) = true
uncounted server_error = true
uncounted _ = false

-- One more request is passed or blocked.
abbrev OneMore : Counts → Reply × Counts → Type 0
OneMore c (reply, c') =
    (c'.total_requests ≡ c.total_requests)
    × (uncounted reply ≡ false)
    × (settled c' ≡ settled c + 1)

-- The request in the total, and the reply in the other two counters.
abbrev pub Counted : Request → Counts → Reply × Counts → Type 0
Counted r c (reply, c') =
    (c'.total_requests ≡ c.total_requests + (if has_prefix r.path (codes "/api/") then 0 else 1))
    × (settled c' ≡ settled c + (if uncounted reply then 0 else 1))

module _ (env : Env) (engines : Engines) (o : Outside) (r : Request) (ip : Str) where
  deliver-OneMore : (c : Counts) → OneMore c (deliver o r, passed c)
  unfolding deliver
  deliver-OneMore c = (refl, ground arith, omega arith)

  act_as-OneMore :
      (k : ActionType) (a : Action) (c : Counts) (p : Pipeline)
      → OneMore c (act_as env engines o r ip k a c p).0
  unfolding act_as refuse
  act_as-OneMore allow a c p = deliver-OneMore c
  act_as-OneMore challenge a c p = (refl, refl, omega arith)
  act_as-OneMore block a c p = (refl, refl, omega arith)
  act_as-OneMore rate_limit a c p = (refl, refl, omega arith)
  act_as-OneMore drop a c p = (refl, refl, omega arith)

  serve_verified-OneMore :
      (c : Counts) (p : Pipeline) → OneMore c (serve_verified env engines o r ip c p).0
  unfolding serve_verified
  serve_verified-OneMore c p = elim (Bool-cases (ltb 0 (rate_status engines ip))) [
    | inl over ↦ elim (Bool-cases (rate_status engines ip == 2)) [
      | inl ban ↦ rw (over, ban) (refl, refl, omega arith)
      | inr warn ↦ rw (over, warn) (refl, refl, omega arith)
    ]
    | inr under ↦ elim (Bool-cases p.cfg.waf_enabled) [
      | inl on ↦ rw (under, on) (inspected-OneMore engines.inspect)
      | inr off ↦ rw (under, off) (deliver-OneMore c)
    ]
  ]
    where
      inspected-OneMore : (i : Option (Request → Inspection)) → OneMore c (inspected_reply o r i c)
      inspected-OneMore none = deliver-OneMore c
      inspected-OneMore (some inspect) = elim (Bool-cases (inspect r).blocked) [
        | inl b ↦ rw b (refl, refl, omega arith)
        | inr b ↦ rw b (deliver-OneMore c)
      ]

  act_on_answer-OneMore :
      (answer : Option Action) (a : Action) (c : Counts) (p : Pipeline)
      → answer ≡ some a
      → OneMore c (act_on_answer env engines o r ip answer c p).0
  unfolding act_on_answer
  act_on_answer-OneMore none a c p e = cc
  act_on_answer-OneMore (some b) a c p e = act_as-OneMore b.kind b c p

  count_request-counts :
      (c : Counts)
      → ((count_request r c).total_requests
          ≡ c.total_requests + (if has_prefix r.path (codes "/api/") then 0 else 1))
        × (settled (count_request r c) ≡ settled c)
  unfolding count_request
  count_request-counts c = elim (Bool-cases (has_prefix r.path (codes "/api/"))) [
    | inl e ↦ rw e (omega arith, refl)
    | inr e ↦ rw e (refl, refl)
  ]

  free-Counted :
      (c : Counts) (reply : Reply) → uncounted reply ≡ true → Counted r c (reply, count_request r c)
  free-Counted c reply h =
      ((count_request-counts c).0, rw h ((count_request-counts c).1 ∙ omega arith))

  one-Counted :
      (c : Counts) (result : Reply × Counts)
      → OneMore (count_request r c) result
      → Counted r c result
  one-Counted c (reply, c') (t, h, s) =
      (t ∙ (count_request-counts c).0, rw h (s ∙ ap (λ (n : ℕ). n + 1) (count_request-counts c).1))

  handle_checked-OneMore :
      (fp : Option Fingerprint) (c : Counts) (p : Pipeline)
      → OneMore c (handle_checked env engines o r ip fp c p).0
  unfolding handle_checked
  handle_checked-OneMore fp c p =
      let q = (has_valid_proof env engines r ip p).1 in
      elim (Bool-cases (has_valid_proof env engines r ip p).0) [
        | inl proved ↦ rw proved (serve_verified-OneMore c q)
        | inr unproved ↦
            let (a, e, b) = process_answers env engines r ip fp q in
            rw unproved (
              act_on_answer-OneMore (process env engines r ip fp q).0 a c
                (process env engines r ip fp q).1 e)
      ]

  on_verify_failed-counts :
      (c : Counts) (p : Pipeline)
      → ((on_verify_failed env engines o r ip c p).0.total_requests ≡ c.total_requests)
        × (settled (on_verify_failed env engines o r ip c p).0 ≡ settled c)
  unfolding on_verify_failed
  on_verify_failed-counts c p =
      elim (Bool-cases (leb 3 (value_or 0 (lookup ip c.challenge_fails) + 1))) [
        | inl third ↦ rw third (refl, refl)
        | inr early ↦ rw early (refl, refl)
      ]

  handle_form-Counted :
      (v : Verified) (fp : Option Fingerprint) (c : Counts) (p : Pipeline)
      → Counted r c (handle_form env engines o r ip v fp (count_request r c) p).0
  unfolding handle_form
  handle_form-Counted solved fp c p =
      free-Counted c (redirected (if is_empty r.path then codes "/" else r.path)) refl
  handle_form-Counted refused fp c p =
      let q = on_verify_failed env engines o r ip (count_request r c) p in
      let same = on_verify_failed-counts (count_request r c) p in
      let (t, h, s) = handle_checked-OneMore fp q.0 q.1 in
      one-Counted c (handle_checked env engines o r ip fp q.0 q.1).0
        (t ∙ same.0, h, s ∙ ap (λ (n : ℕ). n + 1) same.1)
  handle_form-Counted ignored fp c p =
      one-Counted c (handle_checked env engines o r ip fp (count_request r c) p).0
        (handle_checked-OneMore fp (count_request r c) p)
  handle_form-Counted crashed fp c p = free-Counted c server_error refl

  handle_from-Counted :
      (fp : Option Fingerprint) (c : Counts) (p : Pipeline)
      → Counted r c (handle_from env engines o r ip fp c p).0
  unfolding handle_from
  handle_from-Counted fp c p = elim (Bool-cases (is_logo r.path)) [
    | inl l ↦ rw l (free-Counted c logo refl)
    | inr l ↦ elim (Bool-cases (is_form r)) [
      | inl f ↦ rw (l, f) (handle_form-Counted (o.verify_form r ip) fp c p)
      | inr f ↦
          rw (l, f)
            (one-Counted c (handle_checked env engines o r ip fp (count_request r c) p).0
              (handle_checked-OneMore fp (count_request r c) p))
    ]
  ]

-- Every request but those under /api/ is counted once in the total, and every reply but a logo, the redirect
-- behind a solved form and the error page behind a panic of a form's verification adds exactly one to the
-- requests passed and blocked.
pub handle_request-Counted :
    (env : Env) (engines : Engines) (o : Outside) (split_host_port : Str → Option Str)
    (remote_addr : Str) (r : Request) (fp : Option Fingerprint) (c : Counts) (p : Pipeline)
    → Counted r c (handle_request env engines o split_host_port remote_addr r fp c p).0
unfolding handle_request
handle_request-Counted env engines o split_host_port remote_addr r fp c p =
    handle_from-Counted env engines o r _ fp c (extract_ip env split_host_port remote_addr r p).1
