-- ===== src/Pipeline/Totality.antt =====
-- Every request gets an action from `ProcessWithFingerprint`, and every challenge is bounded.
use mango_waf.Common.{
  ℕ, ◌+◌, ◌≤◌, ◌<◌, ◌≡◌, refl, Bool, Option, none, some, arith, ltb, ◌==◌, Bool-cases, ltb→lt, inl,
  inr,
}
use mango_waf.Common.Bytes.{Str}
use mango_waf.Request.{Request}
use mango_waf.Pipeline.{
  Action, challenge, IpState, Pipeline, Env, Engines, Fingerprint, Classification,
}
use mango_waf.Pipeline.Layers.{
  layer_banned, layer_waf, layer_static, layer_emergency, layer_conn_limit, layer_validator,
  layer_validate, check_fingerprint, layer_fingerprint, layer_intel, layer_flood, layer_limiter,
  layer_whitelist,
}
use mango_waf.Pipeline.Process.{
  difficulty_of, at_most, raised_stage, act_on_stage, layer_stage, layer_behavior, act_on_class,
  layer_classify, layer_detection, late_layers, early_layers, process,
}
use mango_waf.Pipeline.StageLaws.{
  IsBounded, Answers, Finals, answer-Answers, pass-Answers, or_else-Answers, or_else-Finals,
  answer_rules,
}

-- Work above 4 is never asked for.
pub difficulty_of-le :
    (base : ℕ) (adaptive : Bool) (rps : ℕ) (fp : Option Fingerprint)
    → difficulty_of base adaptive rps fp ≤ 4
unfolding difficulty_of
difficulty_of-le base adaptive rps fp = ground arith

raised_stage_pos :
    (level : Option (ℕ → ℕ)) (rps stage : ℕ) → 0 < stage → 0 < raised_stage level rps stage
unfolding raised_stage
raised_stage_pos none rps stage h = h
raised_stage_pos (some level) rps stage h = ground arith

module _ (env : Env) (engines : Engines) (r : Request) (ip : Str) (fp : Option Fingerprint) where
  layer_banned-Answers : Answers (layer_banned env engines r ip)
  unfolding layer_banned
  layer_banned-Answers = search answer_rules depth 14

  layer_waf-Answers : Answers (layer_waf env engines r ip)
  unfolding layer_waf
  layer_waf-Answers = search answer_rules depth 14

  layer_static-Answers : Answers (layer_static env engines r ip)
  unfolding layer_static
  layer_static-Answers = search answer_rules depth 14

  layer_emergency-Answers : Answers (layer_emergency env engines r ip)
  unfolding layer_emergency
  layer_emergency-Answers = search answer_rules depth 14

  layer_conn_limit-Answers : Answers (layer_conn_limit env engines r ip)
  unfolding layer_conn_limit
  layer_conn_limit-Answers = search answer_rules depth 14

  layer_validator-Answers : Answers (layer_validator env engines r ip)
  unfolding layer_validator
  layer_validator-Answers = search answer_rules depth 14

  layer_validate-Answers : Answers (layer_validate env engines r ip)
  unfolding layer_validate
  layer_validate-Answers = search answer_rules depth 14

  layer_intel-Answers : Answers (layer_intel env engines r ip)
  unfolding layer_intel
  layer_intel-Answers = search answer_rules depth 14

  layer_flood-Answers : Answers (layer_flood env engines r ip)
  unfolding layer_flood
  layer_flood-Answers = search answer_rules depth 14

  layer_limiter-Answers : Answers (layer_limiter env engines r ip)
  unfolding layer_limiter
  layer_limiter-Answers = search answer_rules depth 14

  layer_whitelist-Answers : Answers (layer_whitelist env engines r ip)
  unfolding layer_whitelist
  layer_whitelist-Answers = search answer_rules depth 14

  check_fingerprint-Answers : (f : Fingerprint) → Answers (check_fingerprint env engines r ip f)
  unfolding check_fingerprint
  check_fingerprint-Answers f = search answer_rules depth 14

  layer_fingerprint-Answers :
      (f : Option Fingerprint) → Answers (layer_fingerprint env engines r ip f)
  unfolding layer_fingerprint
  layer_fingerprint-Answers none = pass-Answers
  layer_fingerprint-Answers (some f) = search (answer_rules, check_fingerprint-Answers)

  layer_behavior-Answers : Answers (layer_behavior env engines r ip fp)
  unfolding layer_behavior
  layer_behavior-Answers = search answer_rules depth 14

  suspicious-IsBounded :
      (reason : Str) (base : ℕ)
      → IsBounded (record {
        kind = challenge;
        reason = reason;
        stage = 2;
        difficulty = at_most 4 (base + 1);
      })
  suspicious-IsBounded reason base = record { work = ground arith; staged = λ e. omega arith }

  act_on_class-Answers : (c : Classification) → Answers (act_on_class env engines r ip fp c)
  unfolding act_on_class
  act_on_class-Answers c = search (answer_rules, answer-Answers, suspicious-IsBounded) depth 14

  layer_classify-Answers : Answers (layer_classify env engines r ip fp)
  unfolding layer_classify
  layer_classify-Answers = search (answer_rules, act_on_class-Answers) depth 14

  layer_detection-Answers : Answers (layer_detection env engines r ip fp)
  unfolding layer_detection
  layer_detection-Answers = search answer_rules depth 14

  act_on_stage-Finals :
      (s : IpState) (stage : ℕ) → Finals (act_on_stage env engines r ip fp s stage)
  unfolding act_on_stage
  act_on_stage-Finals s stage = record {
    finals = λ p. elim (Bool-cases (stage == 4)) [
      | inl last ↦ rw last (_, refl, record { work = omega arith; staged = λ e. cc })
      | inr other ↦ elim (Bool-cases (ltb 0 stage)) [
        | inl some_stage ↦
            rw (other, some_stage)
              (
                _,
                refl,
                record {
                  work = difficulty_of-le p.cfg.pow_difficulty p.cfg.pow_adaptive s.rps fp;
                  staged = λ e.
                      raised_stage_pos engines.challenge_level s.rps stage
                        (ltb→lt 0 stage some_stage);
                },
              )
        | inr no_stage ↦
            rw (other, no_stage) (_, refl, record { work = omega arith; staged = λ e. cc })
      ]
    ];
  }

  layer_stage-Finals : Finals (layer_stage env engines r ip fp)
  unfolding layer_stage
  layer_stage-Finals = record { finals = λ p. (act_on_stage-Finals _ _).finals _ }

  early_layers-Answers : Answers (early_layers env engines r ip fp)
  unfolding early_layers
  early_layers-Answers =
      search
        (
          or_else-Answers, layer_banned-Answers, layer_waf-Answers, layer_static-Answers,
          layer_emergency-Answers, layer_conn_limit-Answers, layer_validator-Answers,
          layer_validate-Answers, layer_fingerprint-Answers, layer_intel-Answers,
          layer_flood-Answers, layer_limiter-Answers, layer_whitelist-Answers,
        )
        depth 14

  late_layers-Finals : Finals (late_layers env engines r ip fp)
  unfolding late_layers
  late_layers-Finals =
      search
        (
          or_else-Finals, layer_behavior-Answers, layer_classify-Answers, layer_detection-Answers,
          layer_stage-Finals,
        )
        depth 14

  -- Every request gets exactly one action; its proof of work is at most 4, whatever is configured,
  -- and a challenge has a stage above 0.
  pub process_answers :
      (p : Pipeline) → (a : Action) × ((process env engines r ip fp p).0 ≡ some a) × IsBounded a
  unfolding process
  process_answers p = (or_else-Finals _ _ early_layers-Answers late_layers-Finals).finals p
