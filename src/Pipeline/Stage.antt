-- ===== src/Pipeline/Stage.antt =====
-- core/pipeline.go: `hasValidProof` and `determineStageWithFP`, the choice of a challenge stage:
-- 0 none, 1 proof of work, 2 captcha, 3 silent, 4 drop.
use mango_waf.Common.{
  ℕ, ◌+◌, ◌*◌, ◌/◌, Bool, true, false, ◌||◌, Option, none, some, ltb, leb, ◌==◌, if◌then◌else◌,
}
use mango_waf.Common.Bytes.{Str, codes, str_eq}
use mango_waf.Request.{Request}
use mango_waf.Pipeline.{IpState, Env, Engines, Fingerprint, M, ◌>>=◌, ◌>>◌, pure, modify, read}
use mango_waf.Pipeline.State.{same_second, start_of}
use mango_waf.Pipeline.Bans.{has_dynamic_whitelist, put_state}

unfoldable pub has_valid_proof : Env → Engines → Request → Str → M Bool
has_valid_proof env engines r ip = do
  listed ← has_dynamic_whitelist env ip
  pure (
      if listed
      then true
      else (elim engines.verify_proof [ none ↦ false | some verify ↦ verify r ip ]))

-- The challenge pages that the address asked for in this second.
unfoldable pub updated_challenge : Env → IpState → IpState
unfolding same_second start_of
updated_challenge env s =
    if same_second env.now_sec s.conn_last_reset
    then record s { challenge_hits = s.challenge_hits + 1 }
    else record s { challenge_hits = 1; conn_last_reset = some (start_of env.now_sec) }

-- The third part of mode "auto": no attack. `limit` is the configured rate.
unfoldable pub baseline_stage : ℕ → ℕ → Option Fingerprint → ℕ
baseline_stage limit rps (some fp) =
    if leb 6000 fp.total
    then if ltb (limit * 4) rps then 2 else if ltb (limit * 2) rps then 1 else 0
    else if leb 3000 fp.total
    then if ltb (limit * 3) rps then 2 else if ltb (limit * 3 / 2) rps then 1 else 0
    else if ltb limit rps
    then 4
    else if ltb (limit / 2) rps
    then 2
    else 1
baseline_stage limit rps none = if ltb limit rps then 2 else if ltb (limit / 2) rps then 1 else 0

-- The second part: the stage of an attack, from the hits of this second.
unfoldable pub attack_stage : ℕ → ℕ → ℕ → ℕ
attack_stage limit rps hits = if ltb 3 hits then 4 else if ltb (limit * 2) rps then 2 else 1

abbrev pub threshold_of : ℕ → ℕ
threshold_of configured = if configured == 0 then 1000 else configured

module _ (env : Env) (engines : Engines) where
  -- Mode "auto" for a request without proof.
  unfoldable pub auto_stage : Str → Option Fingerprint → Bool → IpState → M ℕ
  auto_stage ip fp attack s = do
    limit ← read (λ p. p.cfg.requests_per_second)
    threshold ← read (λ p. threshold_of p.cfg.rps_threshold)
    (if ltb (threshold * 2) engines.current_rps
        then pure (if ltb (limit * 2) s.rps then 4 else 2)
        else if attack || ltb threshold engines.current_rps
        then (do
          modify (put_state env ip (updated_challenge env s))
          pure (attack_stage limit s.rps (updated_challenge env s).challenge_hits))
        else pure (baseline_stage limit s.rps fp))

  unfoldable pub determine_stage : Str → Request → Option Fingerprint → Str → Bool → IpState → M ℕ
  determine_stage ip r fp mode attack s =
      if str_eq mode (codes "off") || str_eq mode (codes "monitor")
      then pure 0
      else if str_eq mode (codes "silent")
      then (do proved ← has_valid_proof env engines r ip; (if proved then pure 0 else pure 3))
      else if str_eq mode (codes "challenge")
      then (do proved ← has_valid_proof env engines r ip; (if proved then pure 0 else pure 1))
      else if str_eq mode (codes "captcha")
      then (do proved ← has_valid_proof env engines r ip; (if proved then pure 0 else pure 2))
      else if str_eq mode (codes "emergency")
      then (do proved ← has_valid_proof env engines r ip; (if proved then pure 0 else pure 4))
      else if str_eq mode (codes "under_attack")
      then (do proved ← has_valid_proof env engines r ip; (if proved then pure 0 else pure 2))
      else if str_eq mode (codes "auto")
      then (do
        proved ← has_valid_proof env engines r ip
        (if proved then pure 0 else auto_stage ip fp attack s))
      else pure 0
