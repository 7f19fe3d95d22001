-- ===== src/Pipeline/Process.antt =====
-- core/pipeline.go: the last layers of `ProcessWithFingerprint`, and the method itself.
use mango_waf.Common.{
  ℕ, ◌+◌, ◌*◌, Bool, ◌&&◌, Option, none, some, List, [], ◌∷◌, ◌++◌, ltb, ◌==◌, if◌then◌else◌,
  get_or,
}
use mango_waf.Common.Bytes.{Str, codes, str_eq}
use mango_waf.Request.{Request}
use mango_waf.Pipeline.{
  Action, allow, challenge, block, drop, IpState, Env, Engines, Fingerprint, Verdict,
  Classification, M, ◌>>=◌, ◌>>◌, pure, modify, pass, reply, ◌or_else◌, when_some, read,
}
use mango_waf.Pipeline.State.{resolve_domain_mode, updated_rps}
use mango_waf.Pipeline.Bans.{ban_ip_local, get_state, put_state}
use mango_waf.Pipeline.Stage.{has_valid_proof, determine_stage}
use mango_waf.Pipeline.Layers.{
  ban_unless_trusted, layer_banned, layer_waf, layer_static, layer_emergency, layer_conn_limit,
  layer_validator, layer_validate, layer_fingerprint, layer_intel, layer_flood, layer_limiter,
  layer_whitelist,
}

abbrev pub at_most : ℕ → ℕ → ℕ
at_most most n = if ltb most n then most else n

abbrev low_trust : Option Fingerprint → ℕ
low_trust none = 0
low_trust (some f) = if ltb f.total 4000 then 1 else 0

-- The work asked for, from the configured one, the address's rate and its fingerprint.
unfoldable pub difficulty_of : ℕ → Bool → ℕ → Option Fingerprint → ℕ
difficulty_of base adaptive rps fp =
    let fast = (if ltb 50 rps then 1 else 0) + (if ltb 100 rps then 2 else 0) in
    at_most 6 (at_most 4 (if adaptive then base + fast + low_trust fp else base))

unfoldable pub stage_names : List Str
stage_names =
    codes "stage_0"
    ∷ codes "stage_1"
    ∷ codes "stage_2"
    ∷ codes "stage_3"
    ∷ codes "stage_4"
    ∷ codes "stage_5"
    ∷ codes "stage_6"
    ∷ []

unfoldable pub stage_name : ℕ → Str
unfolding stage_names
stage_name stage = get_or stage_names stage (codes "stage_0")

-- The adaptive learner may raise the stage.
unfoldable pub raised_stage : Option (ℕ → ℕ) → ℕ → ℕ → ℕ
raised_stage none rps stage = stage
raised_stage (some level) rps stage = if ltb stage (level rps) then level rps else stage

module _ (env : Env) (engines : Engines) (r : Request) (ip : Str) (fp : Option Fingerprint) where
  unfoldable pub behavior_verdict : Option Verdict
  behavior_verdict = elim engines.analyze [ none ↦ none | some analyze ↦ some (analyze ip r) ]

  unfoldable pub layer_behavior : M (Option Action)
  layer_behavior = when_some behavior_verdict λ v. do
    duration ← read (λ p. p.cfg.ban_duration)
    (if v.is_bot && ltb v.score 2000
        then (do ban_ip_local env ip duration; reply block (codes "behavior_ddos"))
        else pass)

  unfoldable pub act_on_class : Classification → M (Option Action)
  act_on_class c = do
    duration ← read (λ p. p.cfg.ban_duration)
    base ← read (λ p. p.cfg.pow_difficulty)
    (if c.is_bot && str_eq c.threat (codes "critical")
        then (do ban_ip_local env ip (duration * 6); reply drop (codes "bot:" ++ c.bot_type))
        else if c.is_bot && str_eq c.threat (codes "high")
        then (do
          proved ← has_valid_proof env engines r ip
          (if proved
              then pass
              else pure (
                  some (record {
                    kind = challenge;
                    reason = codes "bot_suspicious";
                    stage = 2;
                    difficulty = at_most 4 (base + 1);
                  }))))
        else pass)

  unfoldable pub layer_classify : M (Option Action)
  layer_classify = when_some engines.classify λ classify. do
    enabled ← read (λ p. p.cfg.bot_classifier_enabled)
    (if enabled then act_on_class (classify ip r behavior_verdict fp) else pass)

  unfoldable pub layer_detection : M (Option Action)
  layer_detection = when_some engines.check_rate_limit λ check. do
    enabled ← read (λ p. p.cfg.rate_limit_enabled)
    duration ← read (λ p. p.cfg.ban_duration)
    (if enabled && ltb 0 (check ip)
        then (do
          proved ← has_valid_proof env engines r ip
          (if proved
              then pass
              else (do ban_unless_trusted env ip duration; reply drop (codes "det_rate_limited"))))
        else pass)

  -- The action of a stage.
  unfoldable pub act_on_stage : IpState → ℕ → M (Option Action)
  act_on_stage s stage = do
    duration ← read (λ p. p.cfg.ban_duration)
    base ← read (λ p. p.cfg.pow_difficulty)
    adaptive ← read (λ p. p.cfg.pow_adaptive)
    (if stage == 4
        then (do ban_unless_trusted env ip duration; reply drop (codes "auto_l7_drop"))
        else if ltb 0 stage
        then (let raised = raised_stage engines.challenge_level s.rps stage in
            pure (
              some (record {
                kind = challenge;
                reason = stage_name raised;
                stage = raised;
                difficulty = difficulty_of base adaptive s.rps fp;
              })))
        else reply allow (codes "clean"))

  unfoldable pub layer_stage : M (Option Action)
  layer_stage = do
    s ← get_state env ip
    modify (put_state env ip (updated_rps env s))
    mode ← read (λ p. resolve_domain_mode p r)
    stage ←
        determine_stage env engines ip r fp mode (engines.domain_under_attack r.host)
          (updated_rps env s)
    act_on_stage (updated_rps env s) stage

  -- The layers behind the whitelist.
  unfoldable pub late_layers : M (Option Action)
  late_layers = layer_behavior or_else layer_classify or_else layer_detection or_else layer_stage

  -- The layers in front of it.
  unfoldable pub early_layers : M (Option Action)
  early_layers =
      layer_banned env engines r ip
      or_else layer_waf env engines r ip
      or_else layer_static env engines r ip
      or_else layer_emergency env engines r ip
      or_else layer_conn_limit env engines r ip
      or_else layer_validator env engines r ip
      or_else layer_validate env engines r ip
      or_else layer_fingerprint env engines r ip fp
      or_else layer_intel env engines r ip
      or_else layer_flood env engines r ip
      or_else layer_limiter env engines r ip
      or_else layer_whitelist env engines r ip

  unfoldable pub process : M (Option Action)
  process = early_layers or_else late_layers
