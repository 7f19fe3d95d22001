-- ===== src/Pipeline/Tests.antt =====
-- The pipeline at a concrete configuration.
use mango_waf.Common.{◌+◌, ◌≡◌, refl, true, false, none, some, List, [], ◌∷◌, not, ltb, arith}
use mango_waf.Common.Bytes.{Str, codes, str_eq}
use mango_waf.Common.Dict.{lookup, insert}
use mango_waf.Shards.{new_sharded, get_shard, fnv32a, load, store}
use mango_waf.Shards.Laws.{IsPlaced, new_sharded-IsPlaced, store-IsPlaced}
use mango_waf.Pipeline.{Action, Env}
use mango_waf.Pipeline.State.{get_or_create, found_state, new_state}
use mango_waf.Pipeline.Bans.{
  check_is_trusted_proxy, is_trusted_proxy, is_whitelisted, is_banned, ban_ip_local,
  has_dynamic_whitelist,
}
use mango_waf.Pipeline.Stage.{has_valid_proof, determine_stage}
use mango_waf.Pipeline.Process.{process}
use mango_waf.Pipeline.Safety.{banned-process}
use mango_waf.Pipeline.StageLaws.{IsBounded, determine_stage_proved}
use mango_waf.Pipeline.Totality.{process_answers}
use mango_waf.Pipeline.Counters.{NoAddress}
use mango_waf.Pipeline.Banning.{IsOrdinary, at_time, is_banned-ban_ip_local}
use mango_waf.Pipeline.Samples.{
  attacker, friend, env_at, bans, pipeline, engines, request, first_state,
}

bans-IsPlaced : IsPlaced fnv32a bans
bans-IsPlaced = store-IsPlaced fnv32a attacker 10 new_sharded (new_sharded-IsPlaced fnv32a)

friend-is_whitelisted : is_whitelisted friend pipeline ≡ true
unfolding is_whitelisted str_eq
friend-is_whitelisted = refl

friend_differs : str_eq friend attacker ≡ false
unfolding str_eq
friend_differs = refl

banned-process_example :
    (load fnv32a attacker (process (env_at 0) engines request friend none pipeline).1.banned
      ≡ load fnv32a attacker pipeline.banned)
    × ((process (env_at 0) engines request friend none pipeline).1.cfg ≡ pipeline.cfg)
banned-process_example =
    banned-process (env_at 0) engines request friend none pipeline attacker friend_differs

process_answers_example :
    (a : Action) × ((process (env_at 0) engines request attacker none pipeline).0 ≡ some a)
    × IsBounded a
process_answers_example = process_answers (env_at 0) engines request attacker none pipeline

request-has_valid_proof : (has_valid_proof (env_at 0) engines request attacker pipeline).0 ≡ true
unfolding has_valid_proof has_dynamic_whitelist
request-has_valid_proof = ground arith

determine_stage_proved_example :
    (determine_stage
      (env_at 0)
      engines
      attacker
      request
      none
      (codes "emergency")
      true
      first_state
      pipeline).0
    ≡ 0
determine_stage_proved_example =
    determine_stage_proved (env_at 0) engines attacker none request (codes "emergency") true
      first_state pipeline request-has_valid_proof

-- Four visits, an hour apart.
abbrev hours : List Env
hours = env_at 0 ∷ env_at 3600 ∷ env_at 7200 ∷ env_at 10800 ∷ []

abbrev mapped_key : Str
mapped_key = 0 ∷ 0 ∷ 0 ∷ 0 ∷ 0 ∷ 0 ∷ 0 ∷ 0 ∷ 0 ∷ 0 ∷ 255 ∷ 255 ∷ 203 ∷ 0 ∷ 113 ∷ 9 ∷ []

attacker_ban : load fnv32a attacker bans ≡ some 10
unfolding load store fnv32a lookup get_shard insert new_sharded str_eq
attacker_ban = refl

abbrev challenge_names : List Str
challenge_names = codes "203.0.113.9_ch" ∷ codes "192.0.2.1_ch" ∷ codes "198.51.100.7_ch" ∷ []

no_challenge_addresses : NoAddress (env_at 0) challenge_names
unfolding str_eq
no_challenge_addresses = (refl, (refl, (refl, tt)))

attacker-IsOrdinary : IsOrdinary (env_at 0) attacker pipeline
unfolding is_trusted_proxy check_is_trusted_proxy is_whitelisted str_eq get_or_create found_state
    new_state load lookup new_sharded
attacker-IsOrdinary = record { named = refl; untrusted = refl; unchecked = refl; unlisted = refl }

is_banned-ban_ip_local_example :
    (is_banned
      (at_time 700 (env_at 0))
      attacker
      (ban_ip_local (env_at 0) attacker 600 pipeline).1).0
    ≡ not (ltb (0 + 600) 700)
is_banned-ban_ip_local_example =
    is_banned-ban_ip_local (env_at 0) attacker 600 700 pipeline attacker-IsOrdinary
