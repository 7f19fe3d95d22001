-- ===== src/Pipeline/StageLaws.antt =====
-- The challenge stage and the action of a request: bounds, proofs of work, and totality.
use mango_waf.Common.{
  ℕ, ◌+◌, ◌≤◌, ◌<◌, ◌≢◌, ◌≡◌, refl, Bool, true, false, Option, none, some, List, [], ◌∷◌, arith,
  if◌then◌else◌, length,
}
use mango_waf.Common.Bytes.{Str}
use mango_waf.Request.{Request}
use mango_waf.Pipeline.{
  Action, challenge, IpState, Pipeline, Env, Engines, Fingerprint, M, ◌>>=◌, ◌>>◌, pure, pass,
  reply, ◌or_else◌, or_rest, when_some, ActionType, allow, block, drop,
}
use mango_waf.Pipeline.State.{updated_rps}
use mango_waf.Pipeline.Stage.{
  has_valid_proof, updated_challenge, baseline_stage, attack_stage, auto_stage, determine_stage,
}
use mango_waf.Pipeline.Layers.{updated_hits}

baseline_stage-le : (limit rps : ℕ) (fp : Option Fingerprint) → baseline_stage limit rps fp ≤ 4
unfolding baseline_stage
baseline_stage-le limit rps none = ground arith
baseline_stage-le limit rps (some fp) = ground arith

attack_stage-le : (limit rps hits : ℕ) → attack_stage limit rps hits ≤ 4
unfolding attack_stage
attack_stage-le limit rps hits = ground arith

module _ (env : Env) (engines : Engines) (ip : Str) (fp : Option Fingerprint) where
  auto_stage-le :
      (attack : Bool) (s : IpState) (p : Pipeline) → (auto_stage env engines ip fp attack s p).0 ≤ 4
  unfolding auto_stage
  auto_stage-le attack s p = ground (
    arith,
    baseline_stage-le p.cfg.requests_per_second s.rps fp,
    attack_stage-le p.cfg.requests_per_second s.rps (updated_challenge env s).challenge_hits,
  )

  module _ (r : Request) where
    -- The stage of a request is one of the five, in every mode.
    pub determine_stage-le :
        (mode : Str) (attack : Bool) (s : IpState) (p : Pipeline)
        → (determine_stage env engines ip r fp mode attack s p).0 ≤ 4
    unfolding determine_stage
    determine_stage-le mode attack s p =
        let proved = has_valid_proof env engines r ip p in
        ground (arith, auto_stage-le attack s proved.1)

    -- A request with a valid proof is asked for nothing, in every mode and under every load.
    pub determine_stage_proved :
        (mode : Str) (attack : Bool) (s : IpState) (p : Pipeline)
        → (has_valid_proof env engines r ip p).0 ≡ true
        → (determine_stage env engines ip r fp mode attack s p).0 ≡ 0
    unfolding determine_stage
    determine_stage_proved mode attack s p h = ground arith

-- What one request of a domain under attack does to the counters of its address: layer 3.5, the
-- request rate of layer 10 and its stage, all in one second.
abbrev pub visit : Env → IpState → IpState
visit env s = updated_challenge env (updated_rps env (updated_hits env s))

pub visits : List Env → IpState → IpState
visits [] s = s
visits (env ∷ envs) s = visits envs (visit env s)

visit-challenge_hits :
    (env : Env) (s : IpState) → (visit env s).challenge_hits ≡ s.challenge_hits + 1
unfolding updated_challenge updated_rps updated_hits
visit-challenge_hits env s = ground arith

visits-challenge_hits :
    (envs : List Env) (s : IpState)
    → (visits envs s).challenge_hits ≡ s.challenge_hits + length envs
unfolding visits
visits-challenge_hits [] s = omega arith
visits-challenge_hits (env ∷ envs) s =
    omega (arith, visits-challenge_hits envs (visit env s), visit-challenge_hits env s)

-- Layer 3.5 refreshes the time that both counters share, so the count of challenge pages is never
-- reset: whatever the times of four or more visits are, the last of them is dropped.
pub visits_drop :
    (envs : List Env) (s : IpState) (limit rps : ℕ)
    → 4 ≤ length envs
    → attack_stage limit rps (visits envs s).challenge_hits ≡ 4
unfolding attack_stage
visits_drop envs s limit rps h = ground (arith, visits-challenge_hits envs s)

-- The work of an action is bounded, and a challenge names a stage.
pub record IsBounded (a : Action) : Type 0 where
  pub work : a.difficulty ≤ 4
  pub staged : a.kind ≡ challenge → 0 < a.stage

pub record Answers (m : M (Option Action)) : Type 0 where
  pub answers : (p : Pipeline) (a : Action) → (m p).0 ≡ some a → IsBounded a

pub record Finals (m : M (Option Action)) : Type 0 where
  pub finals : (p : Pipeline) → (a : Action) × ((m p).0 ≡ some a) × IsBounded a

pub pass-Answers : Answers pass
pass-Answers = record { answers = λ p a e. cc }

pub answer-Answers : (b : Action) → IsBounded b → Answers (pure (some b))
answer-Answers b h = record { answers = λ p a e. ground arith }

pub bind-Answers :
    {A : Type 0} (m : M A) (f : A → M (Option Action))
    → ((x : A) → Answers (f x))
    → Answers (m >>= f)
bind-Answers m f h = record { answers = λ p a e. (h (m p).0).answers (m p).1 a e }

pub then-Answers : {A : Type 0} (m : M A) (k : M (Option Action)) → Answers k → Answers (m >> k)
then-Answers m k h = record { answers = λ p a e. h.answers (m p).1 a e }

pub if-Answers :
    (b : Bool) (m k : M (Option Action)) → Answers m → Answers k → Answers (if b then m else k)
if-Answers true m k h g = h
if-Answers false m k h g = g

pub when_some-Answers :
    {B : Type 0} (o : Option B) (f : B → M (Option Action))
    → ((b : B) → Answers (f b))
    → Answers (when_some o f)
when_some-Answers none f h = pass-Answers
when_some-Answers (some b) f h = h b

or_rest-IsBounded :
    (o : Option Action) (k : M (Option Action)) (p : Pipeline) (a : Action)
    → ((b : Action) → o ≡ some b → IsBounded b)
    → Answers k
    → (or_rest o k p).0 ≡ some a
    → IsBounded a
or_rest-IsBounded (some b) k p a h g e = h a e
or_rest-IsBounded none k p a h g e = g.answers p a e

pub or_else-Answers : (m k : M (Option Action)) → Answers m → Answers k → Answers (m or_else k)
or_else-Answers m k h g = record {
  answers = λ p a e. or_rest-IsBounded (m p).0 k (m p).1 a (h.answers p) g e;
}

or_rest-Finals :
    (o : Option Action) (k : M (Option Action)) (p : Pipeline)
    → ((b : Action) → o ≡ some b → IsBounded b)
    → Finals k
    → (a : Action) × ((or_rest o k p).0 ≡ some a) × IsBounded a
or_rest-Finals (some b) k p h g = (b, refl, h b refl)
or_rest-Finals none k p h g = g.finals p

pub or_else-Finals : (m k : M (Option Action)) → Answers m → Finals k → Finals (m or_else k)
or_else-Finals m k h g = record { finals = λ p. or_rest-Finals (m p).0 k (m p).1 (h.answers p) g }

reply-Answers : (kind : ActionType) (reason : Str) → kind ≢ challenge → Answers (reply kind reason)
reply-Answers kind reason h =
    answer-Answers _ (record { work = omega arith; staged = λ e. absurd (h e) })

pub drop-reply : (reason : Str) → Answers (reply drop reason)
drop-reply reason = reply-Answers drop reason (λ e. cc)

pub block_reply : (reason : Str) → Answers (reply block reason)
block_reply reason = reply-Answers block reason (λ e. cc)

pub allow-reply : (reason : Str) → Answers (reply allow reason)
allow-reply reason = reply-Answers allow reason (λ e. cc)

pub ruleset answer_rules = (
  pass-Answers, bind-Answers, then-Answers, if-Answers, when_some-Answers, drop-reply, block_reply,
  allow-reply,
)
