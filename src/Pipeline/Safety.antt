-- ===== src/Pipeline/Safety.antt =====
-- What a request may do to the bans, through every layer of `ProcessWithFingerprint`.
use mango_waf.Common.{ℕ, ◌≡◌, Bool, true, false, Option, none, some}
use mango_waf.Common.Bytes.{Str, str_eq}
use mango_waf.Shards.{fnv32a, load}
use mango_waf.Request.{Request}
use mango_waf.Pipeline.{IpState, Pipeline, Env, Engines, Fingerprint, Classification}
use mango_waf.Pipeline.Bans.{is_whitelisted}
use mango_waf.Pipeline.Stage.{has_valid_proof, auto_stage, determine_stage}
use mango_waf.Pipeline.Layers.{
  ban_unless_trusted, layer_banned, layer_waf, layer_static, layer_emergency, layer_conn_limit,
  layer_validator, layer_validate, check_fingerprint, layer_fingerprint, layer_intel, layer_flood,
  layer_limiter, layer_whitelist,
}
use mango_waf.Pipeline.Process.{
  layer_behavior, act_on_class, layer_classify, layer_detection, act_on_stage, layer_stage,
  late_layers, early_layers, process,
}
use mango_waf.Pipeline.BanLaws.{
  outputs, Keeps, Safe, pure-Safe, read-Safe, bind-Safe, then-Safe, if-Safe, when_some-Safe,
  or_else-Safe,
}
use mango_waf.Pipeline.BanSafety.{
  get_state-Safe, put_state-Safe, is_trusted_proxy-Safe, get_conn_count-Safe,
  has_dynamic_whitelist-Safe, is_banned-Safe, ban_ip-Safe, ban_ip_local-Safe,
}

ruleset steps = (
  pure-Safe, read-Safe, bind-Safe, then-Safe, if-Safe, when_some-Safe, get_state-Safe,
  put_state-Safe, is_trusted_proxy-Safe, get_conn_count-Safe, has_dynamic_whitelist-Safe,
  is_banned-Safe, ban_ip-Safe, ban_ip_local-Safe,
)

module _ (env : Env) (engines : Engines) (r : Request) (ip : Str) where
  pub ban_unless_trusted-Safe : (duration : ℕ) → Safe ip (ban_unless_trusted env ip duration)
  unfolding ban_unless_trusted
  ban_unless_trusted-Safe duration = search steps depth 8

  layer_banned-Safe : Safe ip (layer_banned env engines r ip)
  unfolding layer_banned
  layer_banned-Safe = search steps depth 8

  ruleset rules = (steps, ban_unless_trusted-Safe)

  layer_waf-Safe : Safe ip (layer_waf env engines r ip)
  unfolding layer_waf
  layer_waf-Safe = search rules depth 14

  layer_static-Safe : Safe ip (layer_static env engines r ip)
  unfolding layer_static
  layer_static-Safe = search rules depth 14

  layer_emergency-Safe : Safe ip (layer_emergency env engines r ip)
  unfolding layer_emergency
  layer_emergency-Safe = search rules depth 14

  layer_conn_limit-Safe : Safe ip (layer_conn_limit env engines r ip)
  unfolding layer_conn_limit
  layer_conn_limit-Safe = search rules depth 14

  layer_validator-Safe : Safe ip (layer_validator env engines r ip)
  unfolding layer_validator
  layer_validator-Safe = search rules depth 14

  layer_validate-Safe : Safe ip (layer_validate env engines r ip)
  unfolding layer_validate
  layer_validate-Safe = search rules depth 14

  layer_intel-Safe : Safe ip (layer_intel env engines r ip)
  unfolding layer_intel
  layer_intel-Safe = search rules depth 14

  layer_flood-Safe : Safe ip (layer_flood env engines r ip)
  unfolding layer_flood
  layer_flood-Safe = search rules depth 14

  layer_limiter-Safe : Safe ip (layer_limiter env engines r ip)
  unfolding layer_limiter
  layer_limiter-Safe = search rules depth 14

  layer_whitelist-Safe : Safe ip (layer_whitelist env engines r ip)
  unfolding layer_whitelist
  layer_whitelist-Safe = search rules depth 14

  check_fingerprint-Safe : (fp : Fingerprint) → Safe ip (check_fingerprint env engines r ip fp)
  unfolding check_fingerprint
  check_fingerprint-Safe fp = search rules depth 14

  layer_fingerprint-Safe :
      (fp : Option Fingerprint) → Safe ip (layer_fingerprint env engines r ip fp)
  unfolding layer_fingerprint
  layer_fingerprint-Safe none = pure-Safe ip none
  layer_fingerprint-Safe (some fp) = search (rules, check_fingerprint-Safe)

  pub has_valid_proof-Safe : Safe ip (has_valid_proof env engines r ip)
  unfolding has_valid_proof
  has_valid_proof-Safe = search rules

  auto_stage-Safe :
      (fp : Option Fingerprint) (attack : Bool) (s : IpState)
      → Safe ip (auto_stage env engines ip fp attack s)
  unfolding auto_stage
  auto_stage-Safe fp attack s = search rules depth 14

  determine_stage-Safe :
      (fp : Option Fingerprint) (mode : Str) (attack : Bool) (s : IpState)
      → Safe ip (determine_stage env engines ip r fp mode attack s)
  unfolding determine_stage
  determine_stage-Safe fp mode attack s =
      search (rules, has_valid_proof-Safe, auto_stage-Safe) depth 20

module _ (env : Env) (engines : Engines) (r : Request) (ip : Str) (fp : Option Fingerprint) where
  ruleset late_rules = (steps, ban_unless_trusted-Safe, has_valid_proof-Safe, determine_stage-Safe)

  layer_behavior-Safe : Safe ip (layer_behavior env engines r ip fp)
  unfolding layer_behavior
  layer_behavior-Safe = search late_rules depth 14

  act_on_class-Safe : (c : Classification) → Safe ip (act_on_class env engines r ip fp c)
  unfolding act_on_class
  act_on_class-Safe c = search late_rules depth 14

  layer_classify-Safe : Safe ip (layer_classify env engines r ip fp)
  unfolding layer_classify
  layer_classify-Safe = search (late_rules, act_on_class-Safe) depth 14

  layer_detection-Safe : Safe ip (layer_detection env engines r ip fp)
  unfolding layer_detection
  layer_detection-Safe = search late_rules depth 14

  act_on_stage-Safe : (s : IpState) (stage : ℕ) → Safe ip (act_on_stage env engines r ip fp s stage)
  unfolding act_on_stage
  act_on_stage-Safe s stage = search late_rules depth 14

  layer_stage-Safe : Safe ip (layer_stage env engines r ip fp)
  unfolding layer_stage
  layer_stage-Safe = search (late_rules, act_on_stage-Safe) depth 14

  late_layers-Safe : Safe ip (late_layers env engines r ip fp)
  unfolding late_layers
  late_layers-Safe = search (
    or_else-Safe, layer_behavior-Safe, layer_classify-Safe, layer_detection-Safe, layer_stage-Safe,
  )

  early_layers-Safe : Safe ip (early_layers env engines r ip fp)
  unfolding early_layers
  early_layers-Safe =
      search
        (
          or_else-Safe, layer_banned-Safe, layer_waf-Safe, layer_static-Safe, layer_emergency-Safe,
          layer_conn_limit-Safe, layer_validator-Safe, layer_validate-Safe, layer_fingerprint-Safe,
          layer_intel-Safe, layer_flood-Safe, layer_limiter-Safe, layer_whitelist-Safe,
        )
        depth 14

  -- A request leaves the configuration alone. If its address is on the static whitelist, nothing
  -- leaves the pipeline for it: no entry in the ban map, the kernel map, the worker's queue, the
  -- mesh's queue or Cloudflare's, and the counter stays. And whatever the address is, the ban of
  -- every other address stays as it was.
  pub process-Keeps : (p : Pipeline) → Keeps ip p (process env engines r ip fp p).1
  unfolding process
  process-Keeps p = (or_else-Safe ip _ _ early_layers-Safe late_layers-Safe).keeps p

  -- Whatever a request of a whitelisted address does, nothing leaves the pipeline for it: the ban map, the
  -- kernel map, the worker's queue, the mesh's queue, Cloudflare's queue and the counter stay as they were.
  pub outputs-process :
      (p : Pipeline)
      → is_whitelisted ip p ≡ true
      → outputs (process env engines r ip fp p).1 ≡ outputs p
  outputs-process p h = (process-Keeps p).spared h

  -- A request leaves the configuration and the ban of every other address as they were.
  pub banned-process :
      (p : Pipeline) (j : Str)
      → str_eq ip j ≡ false
      → (load fnv32a j (process env engines r ip fp p).1.banned ≡ load fnv32a j p.banned)
        × ((process env engines r ip fp p).1.cfg ≡ p.cfg)
  banned-process p j h = ((process-Keeps p).others j h, (process-Keeps p).cfg)
