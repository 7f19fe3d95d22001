-- ===== src/Server/Guard.antt =====
-- core/server.go: what `handleRequest` lets through.
use mango_waf.Server.Effects.{extract_ip-Safe, on_verify_failed-Safe}
use mango_waf.Rules.Verdict.{inspect_lem, matching_rules}
use mango_waf.Rules.Inspect.{blocks, skips_inspection}
use mango_waf.Rules.{Engine}
use mango_waf.Pipeline.BanSafety.{is_banned-Safe}
use mango_waf.Pipeline.Firewall.{
  inspection, layer_waf-block, or_else-none, layer_banned-pass, or_else-some, waf_block,
}
use mango_waf.Pipeline.Safety.{has_valid_proof-Safe}
use mango_waf.Pipeline.Stage.{has_valid_proof}
use mango_waf.Pipeline.Process.{late_layers, early_layers, process}
use mango_waf.Pipeline.Layers.{layer_waf, layer_banned, disabled}
use mango_waf.Common.Bytes.{codes, Str}
use mango_waf.Request.{Request}
use mango_waf.Server.{
  on_verify_failed, handle_checked, handle_form, extract_ip, handle_request, rate_status,
  count_request, is_form, is_logo, serve_verified, act_as, handle_from, Counts, act_on_answer,
  Outside, Reply,
}
use mango_waf.Server.{
  Reply, from_cache, upstream, no_upstream, Verified, solved, refused, ignored, crashed,
}
use mango_waf.Common.{
  any, subst, true, false, none, some, inl, inr, refl, Bool, Option, ◌≡◌, ltb, ◌==◌, if◌then◌else◌,
  Bool-cases, ap, sym, ◌∙◌,
}
use mango_waf.Pipeline.{
  pass, Config, Fingerprint, Pipeline, Inspection, Engines, Action, Env, reply, ActionType, allow,
  challenge, block, rate_limit, drop,
}
use mango_waf.Pipeline.Bans.{is_banned}

-- The replies that hand the request on, or its answer out.
abbrev pub delivered : Reply → Bool
delivered from_cache = true
delivered upstream = true
delivered no_upstream = true
delivered _ = false

abbrev refusal : ActionType → Bool
refusal block = true
refusal rate_limit = true
refusal drop = true
refusal _ = false

abbrev banned_action : Action
banned_action = record { kind = drop; reason = codes "banned"; stage = 0; difficulty = 0 }

abbrev RefusesWith : Option Action → Type 0
RefusesWith none = ⊥
RefusesWith (some a) = refusal a.kind ≡ true

module _ (env : Env) (engines : Engines) (o : Outside) (r : Request) (ip : Str) where
  act_on_answer-refusal :
      (answer : Option Action) (c : Counts) (p : Pipeline)
      → RefusesWith answer
      → delivered (act_on_answer env engines o r ip answer c p).0.0 ≡ false
  unfolding act_on_answer
  act_on_answer-refusal none c p h = absurd h
  act_on_answer-refusal (some a) c p h = act_as-refusal a.kind a c p h
    where
      act_as-refusal :
          (k : ActionType) (a : Action) (c : Counts) (p : Pipeline)
          → refusal k ≡ true
          → delivered (act_as env engines o r ip k a c p).0.0 ≡ false
      act_as-refusal allow a c p h = cc
      act_as-refusal challenge a c p h = cc
      act_as-refusal block a c p h = refl
      act_as-refusal rate_limit a c p h = refl
      act_as-refusal drop a c p h = refl

  module _ (inspect : Request → Inspection) (engine : engines.inspect ≡ some inspect)
      (deep : disabled engines (codes "waf_deep_inspect") ≡ false)
      (exploit : (inspect r).blocked ≡ true) where
    answer-banned :
        (fp : Option Fingerprint) (p : Pipeline)
        → (is_banned env ip p).0 ≡ true
        → (process env engines r ip fp p).0 ≡ some banned_action
    unfolding process early_layers layer_banned
    answer-banned fp p banned =
        or_else-some (early_layers env engines r ip fp) (late_layers env engines r ip fp) p
          banned_action
          (or_else-some (layer_banned env engines r ip) _ p banned_action (
            ap
              (λ (b : Bool).
                ((if b then reply drop (codes "banned") else pass) (is_banned env ip p).1).0)
              banned))

    answer-exploit :
        (fp : Option Fingerprint) (p : Pipeline)
        → p.cfg.waf_enabled ≡ true
        → (is_banned env ip p).0 ≡ false
        → (process env engines r ip fp p).0 ≡ some (waf_block (inspect r))
    unfolding process early_layers
    answer-exploit fp p enabled free =
        let q = (layer_banned env engines r ip p).1 in
        let through = layer_banned-pass env engines r ip fp p free in
        let same : q.cfg ≡ p.cfg =
          ap (λ (x : Pipeline). x.cfg) through.1 ∙ ((is_banned-Safe env ip).keeps p).cfg in
        or_else-some (early_layers env engines r ip fp) (late_layers env engines r ip fp) p
          (waf_block (inspect r))
          (or_else-none (layer_banned env engines r ip) _ p through.0
            ∙ or_else-some (layer_waf env engines r ip) _ q (waf_block (inspect r)) (
                layer_waf-block env engines r ip fp inspect q engine
                  (ap (λ (c : Config). c.waf_enabled) same ∙ enabled) deep exploit))

    process-refuses :
        (fp : Option Fingerprint) (p : Pipeline)
        → p.cfg.waf_enabled ≡ true
        → RefusesWith (process env engines r ip fp p).0
    process-refuses fp p enabled = elim (Bool-cases (is_banned env ip p).0) [
      | inl banned ↦ subst RefusesWith (sym (answer-banned fp p banned)) refl
      | inr free ↦ subst RefusesWith (sym (answer-exploit fp p enabled free)) refl
    ]

    serve_verified-refuses :
        (c : Counts) (p : Pipeline)
        → p.cfg.waf_enabled ≡ true
        → delivered (serve_verified env engines o r ip c p).0.0 ≡ false
    unfolding serve_verified
    serve_verified-refuses c p enabled = elim (Bool-cases (ltb 0 (rate_status engines ip))) [
      | inl over ↦ elim (Bool-cases (rate_status engines ip == 2)) [
        | inl ban ↦ rw (over, ban)
        | inr warn ↦ rw (over, warn)
      ]
      | inr under ↦ rw (under, enabled, engine, exploit)
    ]

    handle_checked-refuses :
        (fp : Option Fingerprint) (c : Counts) (p : Pipeline)
        → p.cfg.waf_enabled ≡ true
        → delivered (handle_checked env engines o r ip fp c p).0.0 ≡ false
    unfolding handle_checked
    handle_checked-refuses fp c p enabled =
        let q = (has_valid_proof env engines r ip p).1 in
        let still : q.cfg.waf_enabled ≡ true =
          ap (λ (x : Config). x.waf_enabled) ((has_valid_proof-Safe env engines r ip).keeps p).cfg
          ∙ enabled in
        elim (Bool-cases (has_valid_proof env engines r ip p).0) [
          | inl proved ↦ rw proved (serve_verified-refuses c q still)
          | inr unproved ↦ rw unproved (
              act_on_answer-refusal (process env engines r ip fp q).0 c
                (process env engines r ip fp q).1 (process-refuses fp q still))
        ]

    handle_form-refuses :
        (v : Verified) (fp : Option Fingerprint) (c : Counts) (p : Pipeline)
        → p.cfg.waf_enabled ≡ true
        → delivered (handle_form env engines o r ip v fp c p).0.0 ≡ false
    unfolding handle_form
    handle_form-refuses solved fp c p enabled = refl
    handle_form-refuses refused fp c p enabled =
        let q = on_verify_failed env engines o r ip c p in
        handle_checked-refuses fp q.0 q.1 (
          ap (λ (x : Config). x.waf_enabled)
            ((on_verify_failed-Safe env engines o r ip c).keeps p).cfg
          ∙ enabled)
    handle_form-refuses ignored fp c p enabled = handle_checked-refuses fp c p enabled
    handle_form-refuses crashed fp c p enabled = refl

    handle_from-refuses :
        (fp : Option Fingerprint) (c : Counts) (p : Pipeline)
        → p.cfg.waf_enabled ≡ true
        → delivered (handle_from env engines o r ip fp c p).0.0 ≡ false
    unfolding handle_from
    handle_from-refuses fp c p enabled = elim (Bool-cases (is_logo r.path)) [
      | inl l ↦ rw l
      | inr l ↦ elim (Bool-cases (is_form r)) [
        | inl f ↦
            rw (l, f) (handle_form-refuses (o.verify_form r ip) fp (count_request r c) p enabled)
        | inr f ↦ rw (l, f) (handle_checked-refuses fp (count_request r c) p enabled)
      ]
    ]

-- A request that a rule of the engine blocks is never handed on, be its client verified, banned, trusted or
-- new: where the firewall and its deep inspection are on and the path is inspected, no reply comes
-- from upstream or the cache.
pub handle_request-inspect :
    (env : Env) (engines : Engines) (o : Outside) (split_host_port : Str → Option Str)
    (remote_addr : Str) (r : Request) (fp : Option Fingerprint) (c : Counts) (e : Engine)
    (p : Pipeline)
    → engines.inspect ≡ some (inspection e)
    → p.cfg.waf_enabled ≡ true
    → disabled engines (codes "waf_deep_inspect") ≡ false
    → e.waf_enabled ≡ true
    → skips_inspection r.path ≡ false
    → any (λ f. blocks f.0) (matching_rules r e) ≡ true
    → delivered (handle_request env engines o split_host_port remote_addr r fp c p).0.0 ≡ false
unfolding handle_request
handle_request-inspect env engines o split_host_port remote_addr r fp c e p i w d we sk m =
    let first = extract_ip env split_host_port remote_addr r p in
    let kept = ((extract_ip-Safe first.0 env split_host_port remote_addr r).keeps p).cfg in
    handle_from-refuses env engines o r first.0 (inspection e) i d ((inspect_lem r e we sk).1 ∙ m)
      fp c first.1 (ap (λ (x : Config). x.waf_enabled) kept ∙ w)
