-- ===== src/Limiter/Bounds.antt =====
-- perf/pool.go: what a token bucket lets through in a stretch of time.
use native.Mathlib.Nat.{add-mul}
use mango_waf.Common.{
  ap₂, ℕ, ◌+◌, ◌-◌, ◌*◌, ◌≤◌, ◌≡◌, refl, ap, sym, ◌∙◌, true, List, [], ◌∷◌, if◌then◌else◌, arith,
}
use mango_waf.Limiter.{unit, TokenBucket, refilled, allow_n, allow}

-- The number of the calls of `Allow` at these times that are allowed.
abbrev pub allowed : List ℕ → TokenBucket → ℕ
allowed [] tb = 0
allowed (t ∷ times) tb =
    let (ok, next) = allow t tb in let rest = allowed times next in if ok then rest + 1 else rest

abbrev pub last_of : ℕ → List ℕ → ℕ
last_of t [] = t
last_of t (u ∷ times) = last_of u times

-- Times that do not go back, from t on.
abbrev pub Ordered : ℕ → List ℕ → Type 0
Ordered t [] = Unit
Ordered t (u ∷ times) = (t ≤ u) × Ordered u times

pub last_of-le : (t : ℕ) (times : List ℕ) → Ordered t times → t ≤ last_of t times
last_of-le t [] o = omega arith
last_of-le t (u ∷ times) (le, o) = omega (arith, le, last_of-le u times o)

-- What one call does to the bucket: a token it gives is taken from those held and those refilled.
pub record Effect (t : ℕ) (tb : TokenBucket) : Type 0 where
  pub paid :
      (if (allow t tb).0 then unit else 0) + (allow t tb).1.tokens
      ≤ tb.tokens + (t - tb.last_time) * tb.rate
  pub rate : (allow t tb).1.rate ≡ tb.rate
  pub capacity : (allow t tb).1.capacity ≡ tb.capacity
  pub last : (allow t tb).1.last_time ≡ t

pub call : (t : ℕ) (tb : TokenBucket) → Effect t tb
unfolding allow allow_n refilled
call t tb = record {
  paid = ground arith;
  rate = ground arith;
  capacity = ground arith;
  last = ground arith;
}

gained_add : (a b c r : ℕ) → a ≤ b → b ≤ c → (b - a) * r + (c - b) * r ≡ (c - a) * r
gained_add a b c r h k =
    let sum : (b - a) + (c - b) ≡ c - a = omega (arith, h, k) in
    sym (add-mul (b - a) (c - b) r) ∙ ap (λ d. d * r) sum

allowed_upto :
    (times : List ℕ) (start r : ℕ) (tb : TokenBucket)
    → tb.last_time ≡ start
    → tb.rate ≡ r
    → Ordered start times
    → allowed times tb * unit ≤ tb.tokens + (last_of start times - start) * r
allowed_upto [] start r tb e f o = omega arith
allowed_upto (t ∷ times) start r tb e f (le, o) =
    let c = call t tb in
    let later = allowed_upto times t r (allow t tb).1 c.last (c.rate ∙ f) o in
    let gain : (t - tb.last_time) * tb.rate ≡ (t - start) * r = ap₂ (λ a b. (t - a) * b) e f in
    let paid = c.paid in
    let both = gained_add start t (last_of t times) r le (last_of-le t times o) in
    ground (arith, later, paid, gain, both)

-- However the calls are timed, no more tokens are given than were held at the start and refilled since.
pub allowed_le :
    (times : List ℕ) (tb : TokenBucket)
    → Ordered tb.last_time times
    → allowed times tb * unit ≤ tb.tokens + (last_of tb.last_time times - tb.last_time) * tb.rate
allowed_le times tb o = allowed_upto times tb.last_time tb.rate tb refl refl o

-- A caller that waits until one token is refilled is let through, whatever came before, where the bucket
-- can hold a token.
pub allow-waited :
    (t : ℕ) (tb : TokenBucket)
    → unit ≤ tb.capacity
    → unit ≤ (t - tb.last_time) * tb.rate
    → (allow t tb).0 ≡ true
unfolding allow allow_n refilled
allow-waited t tb c w = ground (arith, c, w)
