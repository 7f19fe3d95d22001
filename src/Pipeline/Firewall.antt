-- ===== src/Pipeline/Firewall.antt =====
-- core/pipeline.go: the verdict of the rules engine in `ProcessWithFingerprint`. The engine of Rules is put
-- where the pipeline takes an inspection.
use mango_waf.Common.{
  ◌≡◌, ap, ◌∙◌, true, false, Option, none, some, ◌++◌, any, if◌then◌else◌, arith,
}
use mango_waf.Common.Bytes.{Str, codes}
use mango_waf.Request.{Request}
use mango_waf.Rules.{Engine}
use mango_waf.Rules.Inspect.{inspect, skips_inspection, blocks}
use mango_waf.Rules.Verdict.{matching_rules, inspect_lem}
use mango_waf.Pipeline.{
  Action, block, drop, Inspection, Pipeline, Env, Engines, Fingerprint, M, ◌or_else◌, or_rest,
  reply, pass,
}
use mango_waf.Pipeline.Bans.{is_banned}
use mango_waf.Pipeline.Layers.{disabled, layer_banned, layer_waf}
use mango_waf.Pipeline.Process.{early_layers, late_layers, process}
use mango_waf.Pipeline.BanSafety.{is_banned-Safe}

pub or_else-some :
    (m k : M (Option Action)) (p : Pipeline) (a : Action)
    → (m p).0 ≡ some a
    → ((m or_else k) p).0 ≡ some a
or_else-some m k p a h = ap (λ o. (or_rest o k (m p).1).0) h

pub or_else-none :
    (m k : M (Option Action)) (p : Pipeline) → (m p).0 ≡ none → ((m or_else k) p).0 ≡ (k (m p).1).0
or_else-none m k p h = ap (λ o. (or_rest o k (m p).1).0) h

-- What the rules engine answers the pipeline.
abbrev pub inspection : Engine → Request → Inspection
inspection e r = record { blocked = (inspect r e).0.blocked; top_rule = (inspect r e).0.top_rule }

abbrev pub waf_block : Inspection → Action
waf_block i = record {
  kind = block;
  reason = codes "waf:" ++ i.top_rule;
  stage = 0;
  difficulty = 0;
}

module _ (env : Env) (engines : Engines) (r : Request) (ip : Str) (fp : Option Fingerprint) where
  pub layer_banned-pass :
      (p : Pipeline)
      → (is_banned env ip p).0 ≡ false
      → ((layer_banned env engines r ip p).0 ≡ none)
        × ((layer_banned env engines r ip p).1 ≡ (is_banned env ip p).1)
  unfolding layer_banned
  layer_banned-pass p h = (
    ap (λ b. ((if b then reply drop (codes "banned") else pass) (is_banned env ip p).1).0) h,
    ap (λ b. ((if b then reply drop (codes "banned") else pass) (is_banned env ip p).1).1) h,
  )

  pub layer_waf-block :
      (i : Request → Inspection) (p : Pipeline)
      → engines.inspect ≡ some i
      → p.cfg.waf_enabled ≡ true
      → disabled engines (codes "waf_deep_inspect") ≡ false
      → (i r).blocked ≡ true
      → (layer_waf env engines r ip p).0 ≡ some (waf_block (i r))
  unfolding layer_waf
  layer_waf-block i p e w d b = ground (arith, e, w, d, b)

  -- A request from an address that is not banned, while deep inspection is on, is blocked with the top rule's
  -- id as soon as one of the rules that match it blocks or drops, whatever the other layers would say.
  pub process-inspect :
      (e : Engine) (p : Pipeline)
      → engines.inspect ≡ some (inspection e)
      → p.cfg.waf_enabled ≡ true
      → disabled engines (codes "waf_deep_inspect") ≡ false
      → (is_banned env ip p).0 ≡ false
      → e.waf_enabled ≡ true
      → skips_inspection r.path ≡ false
      → any (λ f. blocks f.0) (matching_rules r e) ≡ true
      → (process env engines r ip fp p).0 ≡ some (waf_block (inspection e r))
  unfolding process early_layers
  process-inspect e p i w d b we sk m =
      let q = (layer_banned env engines r ip p).1 in
      let passed = layer_banned-pass p b in
      let same : q.cfg ≡ p.cfg = ap (λ x. x.cfg) passed.1 ∙ ((is_banned-Safe env ip).keeps p).cfg in
      let blocked : (inspection e r).blocked ≡ true = (inspect_lem r e we sk).1 ∙ m in
      or_else-some (early_layers env engines r ip fp) (late_layers env engines r ip fp) p
        (waf_block (inspection e r))
        (or_else-none (layer_banned env engines r ip) _ p passed.0
          ∙ or_else-some (layer_waf env engines r ip) _ q (waf_block (inspection e r))
              (layer_waf-block (inspection e) q i (ap (λ c. c.waf_enabled) same ∙ w) d blocked))
