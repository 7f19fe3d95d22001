-- ===== src/Upstream/RoundRobin.antt =====
-- core/upstream.go: the round robin of a pool.
use mango_waf.Common.{
  ℕ, zero, suc, ◌+◌, ◌-◌, ◌%◌, ◌<◌, ◌≡◌, refl, ap, sym, subst, ◌∙◌, true, false, Option, none, some,
  List, [], ◌∷◌, any, length, if◌then◌else◌, leb, leb→le, arith, Bool-cases, inl, inr,
}
use native.Mathlib.Nat.{mod-lt, mod-eq_of_lt, mod-add-mod, add-mod_right}
use mango_waf.Upstream.{UpstreamBackend, UpstreamPool, alive_at, scan, chosen, next_backend}

any-alive_at :
    (bs : List UpstreamBackend) (i : ℕ) → alive_at bs i ≡ true → any (λ b. b.is_alive) bs ≡ true
any-alive_at [] i h = cc
any-alive_at (b ∷ bs) zero h = ground (arith, h)
any-alive_at (b ∷ bs) (suc i) h = ground (arith, any-alive_at bs i h)

alive_index :
    (bs : List UpstreamBackend)
    → any (λ b. b.is_alive) bs ≡ true
    → (i : ℕ) × (i < length bs) × (alive_at bs i ≡ true)
alive_index [] h = absurd (ground (arith, h))
alive_index (b ∷ bs) h = elim (Bool-cases b.is_alive) [
  | inl a ↦ (0, omega arith, a)
  | inr a ↦ let r = alive_index bs (ground (arith, h, a)) in (suc r.0, omega (arith, r.1), r.2)
]

-- Every index is met on one round from any start.
round_index : (start n j : ℕ) → j < n → (i : ℕ) × (i < n) × ((start + i) % n ≡ j)
round_index start n j h = elim (Bool-cases (leb (start % n) j)) [
  | inl b ↦
      let le = leb→le (start % n) j b in
      let sum : start % n + (j - start % n) ≡ j = omega (arith, le) in
      (
        j - start % n,
        omega (arith, h),
        sym (mod-add-mod start n (j - start % n)) ∙ ap (λ x. x % n) sum ∙ mod-eq_of_lt h,
      )
  | inr b ↦
      let gt : j < start % n = ground (arith, b) in
      let below : start % n < n = mod-lt start (omega (arith, h)) in
      let sum : start % n + (j + n - start % n) ≡ j + n = omega (arith, below) in
      (
        j + n - start % n,
        omega (arith, gt, below),
        sym (mod-add-mod start n (j + n - start % n))
            ∙ ap (λ x. x % n) sum
            ∙ add-mod_right j n
            ∙ mod-eq_of_lt h,
      )
]

scan-alive :
    (bs : List UpstreamBackend) (start left i idx : ℕ)
    → scan bs start left i ≡ some idx
    → alive_at bs idx ≡ true
unfolding scan
scan-alive bs start zero i idx h = cc
scan-alive bs start (suc left) i idx h =
    let here = (start + i) % length bs in
    elim (Bool-cases (alive_at bs here)) [
      | inl a ↦
          let e : here ≡ idx =
            cc
              (subst (λ b. (if b then some here else scan bs start left (suc i)) ≡ some idx) a h) in
          subst (λ x. alive_at bs x ≡ true) e a
      | inr a ↦
          scan-alive bs start left (suc i) idx
            (subst (λ b. (if b then some here else scan bs start left (suc i)) ≡ some idx) a h)
    ]

scan_missed :
    (bs : List UpstreamBackend) (start left i : ℕ)
    → scan bs start (suc left) i ≡ none
    → (alive_at bs ((start + i) % length bs) ≡ false) × (scan bs start left (suc i) ≡ none)
unfolding scan
scan_missed bs start left i h =
    let here = (start + i) % length bs in
    elim (Bool-cases (alive_at bs here)) [
      | inl a ↦ cc (subst (λ b. (if b then some here else scan bs start left (suc i)) ≡ none) a h)
      | inr a ↦ (a, subst (λ b. (if b then some here else scan bs start left (suc i)) ≡ none) a h)
    ]

scan-none :
    (bs : List UpstreamBackend) (start left i k : ℕ)
    → scan bs start left i ≡ none
    → k < left
    → alive_at bs ((start + (i + k)) % length bs) ≡ false
unfolding scan
scan-none bs start zero i k h l = absurd (omega (arith, l))
scan-none bs start (suc left) i zero h l =
    let e : i ≡ i + 0 = omega arith in
    subst (λ x. alive_at bs ((start + x) % length bs) ≡ false) e (scan_missed bs start left i h).0
scan-none bs start (suc left) i (suc k) h l =
    let e : suc i + k ≡ i + suc k = omega arith in
    subst (λ x. alive_at bs ((start + x) % length bs) ≡ false) e
      (scan-none bs start left (suc i) k (scan_missed bs start left i h).1 (omega (arith, l)))

any-scan-none :
    (bs : List UpstreamBackend) (start : ℕ)
    → scan bs start (length bs) 0 ≡ none
    → any (λ b. b.is_alive) bs ≡ false
any-scan-none bs start h = elim (Bool-cases (any (λ b. b.is_alive) bs)) [
  | inl a ↦
      let (j, below, alive) = alive_index bs a in
      let (i, round, e) = round_index start (length bs) j below in
      let first : 0 + i ≡ i = omega arith in
      let met : (start + (0 + i)) % length bs ≡ j = ap (λ x. (start + x) % length bs) first ∙ e in
      cc
        (subst (λ x. alive_at bs x ≡ false) met (scan-none bs start (length bs) 0 i h round), alive)
  | inr a ↦ a
]

alive_at-false :
    (bs : List UpstreamBackend) (i : ℕ) → any (λ b. b.is_alive) bs ≡ false → alive_at bs i ≡ false
alive_at-false bs i h = elim (Bool-cases (alive_at bs i)) [
  | inl a ↦ cc (any-alive_at bs i a, h)
  | inr a ↦ a
]

alive_at-chosen :
    (pool : UpstreamPool) (o : Option ℕ)
    → scan pool.backends pool.current (length pool.backends) 0 ≡ o
    → alive_at pool.backends (chosen pool o).0 ≡ any (λ b. b.is_alive) pool.backends
unfolding chosen
alive_at-chosen pool (some idx) h =
    let a = scan-alive pool.backends pool.current (length pool.backends) 0 idx h in
    a ∙ sym (any-alive_at pool.backends idx a)
alive_at-chosen pool none h =
    let a = any-scan-none pool.backends pool.current h in
    alive_at-false pool.backends (pool.current % length pool.backends) a ∙ sym a

-- A pool with backends gives a backend that is alive exactly when one is, and its pointer stays
-- within the backends.
pub next_backend_lem :
    (pool : UpstreamPool)
    → 0 < length pool.backends
    → (alive_at pool.backends (next_backend pool).0 ≡ any (λ b. b.is_alive) pool.backends)
      × ((next_backend pool).1.current < length pool.backends)
unfolding next_backend chosen
next_backend_lem pool h = (
  alive_at-chosen pool (scan pool.backends pool.current (length pool.backends) 0) refl,
  mod-lt (chosen pool (scan pool.backends pool.current (length pool.backends) 0)).1 h,
)
