-- ===== src/Common/Slices.antt =====
-- Lists cut at an index, read from the end, and written in the middle.
use mathlib.Core.List.{reverse-cons}
use mango_waf.Common.{
  inr, ltb→lt, inl, ltb, Bool-cases, ℕ, zero, suc, ◌+◌, ◌-◌, ◌≤◌, ◌<◌, ◌≡◌, refl, ap, ◌∙◌, some,
  List, [], ◌∷◌, ◌++◌, reverse, length, length-append, get_elem?, set, take, drop, arith,
}

module _ {ℓ} {A : Type ℓ} where
  pub take-append : (s t : List A) → take (length s) (s ++ t) ≡ s
  take-append [] t = refl
  take-append (c ∷ s) t = ap (◌∷◌ c) (take-append s t)

  pub drop-append : (s t : List A) → drop (length s) (s ++ t) ≡ t
  drop-append [] t = refl
  drop-append (c ∷ s) t = drop-append s t

  pub take-all : (n : ℕ) (s : List A) → length s ≤ n → take n s ≡ s
  take-all zero [] h = refl
  take-all (suc n) [] h = refl
  take-all zero (c ∷ s) h = absurd (omega (arith, h))
  take-all (suc n) (c ∷ s) h = ap (◌∷◌ c) (take-all n s (omega (arith, h)))

  pub length-reverse : (s : List A) → length (reverse s) ≡ length s
  length-reverse [] = refl
  length-reverse (c ∷ s) =
      ap length (reverse-cons c s)
      ∙ length-append (reverse s) (c ∷ [])
      ∙ omega (arith, length-reverse s)

  pub set-append : (s t : List A) (x y : A) → set (s ++ x ∷ t) (length s) y ≡ s ++ y ∷ t
  set-append [] t x y = refl
  set-append (c ∷ s) t x y = ap (◌∷◌ c) (set-append s t x y)

  -- A list around its element at an index.
  pub record Around (xs : List A) (i : ℕ) : Type ℓ where
    pub before : List A
    pub here : A
    pub after : List A
    pub whole : xs ≡ before ++ here ∷ after
    pub index : length before ≡ i

  pub around : (xs : List A) (i : ℕ) → i < length xs → Around xs i
  around [] i h = absurd (omega (arith, h))
  around (x ∷ xs) zero h = record { before = []; here = x; after = xs; whole = refl; index = refl }
  around (x ∷ xs) (suc i) h =
      let a = around xs i (omega (arith, h)) in
      record {
        before = x ∷ a.before;
        here = a.here;
        after = a.after;
        whole = ap (◌∷◌ x) a.whole;
        index = ap suc a.index;
      }

  pub get_elem?-append_left :
      (s t : List A) (i : ℕ) → i < length s → get_elem? (s ++ t) i ≡ get_elem? s i
  get_elem?-append_left [] t i h = absurd (omega (arith, h))
  get_elem?-append_left (c ∷ s) t zero h = refl
  get_elem?-append_left (c ∷ s) t (suc i) h = get_elem?-append_left s t i (omega (arith, h))

  pub get_elem?-append_right :
      (s t : List A) (i : ℕ) → get_elem? (s ++ t) (length s + i) ≡ get_elem? t i
  get_elem?-append_right [] t i = let e : 0 + i ≡ i = omega arith in ap (get_elem? t) e
  get_elem?-append_right (c ∷ s) t i =
      let e : suc (length s) + i ≡ suc (length s + i) = omega arith in
      ap (get_elem? (c ∷ (s ++ t))) e ∙ get_elem?-append_right s t i

  pub get_elem?-reverse :
      (s : List A) (i : ℕ) → i < length s → get_elem? (reverse s) i ≡ get_elem? s (length s - 1 - i)
  get_elem?-reverse [] i h = absurd (omega (arith, h))
  get_elem?-reverse (c ∷ s) i h = elim (Bool-cases (ltb i (length s))) [
    | inl b ↦
        let lt = ltb→lt i (length s) b in
        let below : i < length (reverse s) = omega (arith, lt, length-reverse s) in
        let e : suc (length s - 1 - i) ≡ suc (length s) - 1 - i = omega (arith, lt) in
        ap (λ l. get_elem? l i) (reverse-cons c s)
        ∙ get_elem?-append_left (reverse s) (c ∷ []) i below
        ∙ get_elem?-reverse s i lt
        ∙ ap (get_elem? (c ∷ s)) e
    | inr b ↦
        let last : i ≡ length (reverse s) + 0 = ground (arith, b, h, length-reverse s) in
        let e : 0 ≡ suc (length s) - 1 - i = ground (arith, b, h) in
        ap (λ l. get_elem? l i) (reverse-cons c s)
        ∙ ap (get_elem? (reverse s ++ c ∷ [])) last
        ∙ get_elem?-append_right (reverse s) (c ∷ []) 0
        ∙ ap (get_elem? (c ∷ s)) e
  ]

  pub drop-get_elem? :
      (s : List A) (i : ℕ) (x : A) → get_elem? s i ≡ some x → drop i s ≡ x ∷ drop (suc i) s
  drop-get_elem? [] i x h = cc
  drop-get_elem? (c ∷ s) zero x h = let e : c ≡ x = cc h in ap (λ y. y ∷ s) e
  drop-get_elem? (c ∷ s) (suc i) x h = drop-get_elem? s i x h

  pub get_elem?-some : (s : List A) (i : ℕ) → i < length s → (x : A) × (get_elem? s i ≡ some x)
  get_elem?-some [] i h = absurd (omega (arith, h))
  get_elem?-some (c ∷ s) zero h = (c, refl)
  get_elem?-some (c ∷ s) (suc i) h = get_elem?-some s i (omega (arith, h))

  pub take-drop : (n : ℕ) (s : List A) → take n s ++ drop n s ≡ s
  take-drop zero s = refl
  take-drop (suc n) [] = refl
  take-drop (suc n) (c ∷ s) = ap (◌∷◌ c) (take-drop n s)

  pub drop-beyond : (n : ℕ) (s : List A) → length s ≤ n → drop n s ≡ []
  drop-beyond zero [] h = refl
  drop-beyond (suc n) [] h = refl
  drop-beyond zero (c ∷ s) h = absurd (omega (arith, h))
  drop-beyond (suc n) (c ∷ s) h = drop-beyond n s (omega (arith, h))
