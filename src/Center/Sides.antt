-- ===== src/Center/Sides.antt =====
-- config/center.go: both texts stand in the diff.
use mango_waf.Center.Diff.{
  DiffLine, both, added, removed, diff_from, diff_lines, split_lines, cons_line, has_line,
}
use mango_waf.Common.Bytes.{Str, str_eq, str_eq→≡, join}
use mango_waf.Common.{
  ==_iff, ap₂, ℕ, zero, suc, true, false, [], ◌∷◌, inl, inr, refl, Bool, List, ◌≡◌, ◌+◌, ◌≤◌, ◌==◌,
  length, Bool-cases, arith, ap, sym, ◌∙◌,
}

-- The lines that are not marked as added, and those that are not marked as removed.
abbrev pub old_side : List DiffLine → List Str
old_side [] = []
old_side (both line ∷ lines) = line ∷ old_side lines
old_side (added line ∷ lines) = old_side lines
old_side (removed line ∷ lines) = line ∷ old_side lines

abbrev pub new_side : List DiffLine → List Str
new_side [] = []
new_side (both line ∷ lines) = line ∷ new_side lines
new_side (added line ∷ lines) = line ∷ new_side lines
new_side (removed line ∷ lines) = new_side lines

join-cons_line :
    (c : ℕ) (lines : List Str) → join (b'\n' ∷ []) (cons_line c lines) ≡ c ∷ join (b'\n' ∷ []) lines
unfolding join
join-cons_line c [] = refl
join-cons_line c (line ∷ []) = refl
join-cons_line c (line ∷ next ∷ lines) = refl

join_one : join (b'\n' ∷ []) ([] ∷ []) ≡ []
unfolding join
join_one = refl

abbrev is_full : List Str → Bool
is_full [] = false
is_full (line ∷ lines) = true

split_lines-is_full : (text : Str) → is_full (split_lines text) ≡ true
unfolding split_lines
split_lines-is_full [] = refl
split_lines-is_full (c ∷ text) = elim (Bool-cases (c == b'\n')) [
  | inl y ↦ rw y
  | inr n ↦ rw n (full (split_lines text))
]
  where
    full : (lines : List Str) → is_full (cons_line c lines) ≡ true
    full [] = refl
    full (line ∷ lines) = refl

join-newline :
    (lines : List Str)
    → is_full lines ≡ true
    → join (b'\n' ∷ []) ([] ∷ lines) ≡ b'\n' ∷ join (b'\n' ∷ []) lines
unfolding join
join-newline [] h = absurd (ground (arith, h))
join-newline (line ∷ lines) h = refl

join-split_lines : (text : Str) → join (b'\n' ∷ []) (split_lines text) ≡ text
unfolding split_lines
join-split_lines [] = join_one
join-split_lines (c ∷ text) = elim (Bool-cases (c == b'\n')) [
  | inl y ↦ rw y (
      join-newline (split_lines text) (split_lines-is_full text)
      ∙ ap₂ (λ (d : ℕ) t. d ∷ t) (sym ((==_iff c b'\n').0 y)) (join-split_lines text))
  | inr n ↦ rw n (join-cons_line c (split_lines text) ∙ ap (λ t. c ∷ t) (join-split_lines text))
]

module _ (m1 m2 : List Str) where
  diff_from-sides :
      (fuel : ℕ) (olds news : List Str)
      → length olds + length news ≤ fuel
      → (old_side (diff_from fuel m1 m2 olds news) ≡ olds)
        × (new_side (diff_from fuel m1 m2 olds news) ≡ news)
  unfolding diff_from
  diff_from-sides zero [] [] h = (refl, refl)
  diff_from-sides zero (old ∷ olds) news h = absurd (omega arith)
  diff_from-sides zero [] (new ∷ news) h = absurd (omega arith)
  diff_from-sides (suc fuel) [] [] h = (refl, refl)
  diff_from-sides (suc fuel) (old ∷ olds) [] h =
      let rest = diff_from-sides fuel olds [] (omega arith) in (ap (λ l. old ∷ l) rest.0, rest.1)
  diff_from-sides (suc fuel) [] (new ∷ news) h =
      let rest = diff_from-sides fuel [] news (omega arith) in (rest.0, ap (λ l. new ∷ l) rest.1)
  diff_from-sides (suc fuel) (old ∷ olds) (new ∷ news) h =
      let further = diff_from-sides fuel olds news (omega arith) in
      let without_new = diff_from-sides fuel (old ∷ olds) news (omega arith) in
      let without_old = diff_from-sides fuel olds (new ∷ news) (omega arith) in
      elim (Bool-cases (str_eq old new)) [
        | inl e ↦
            rw e (
              ap (λ l. old ∷ l) further.0,
              ap₂ (λ (x : Str) l. x ∷ l) (str_eq→≡ old new e) further.1,
            )
        | inr e ↦ elim (Bool-cases (has_line m1 new)) [
          | inr a ↦ rw (e, a) (without_new.0, ap (λ l. new ∷ l) without_new.1)
          | inl a ↦ elim (Bool-cases (has_line m2 old)) [
            | inr b ↦ rw (e, a, b) (ap (λ l. old ∷ l) without_old.0, without_old.1)
            | inl b ↦ rw (e, a, b) (ap (λ l. old ∷ l) further.0, ap (λ l. new ∷ l) further.1)
          ]
        ]
      ]

-- The diff is complete: joined by newlines, the lines that it does not mark as added are the old text and
-- those that it does not mark as removed the new one, for every two texts.
pub diff_lines-sides :
    (old_text new_text : Str)
    → (join (b'\n' ∷ []) (old_side (diff_lines old_text new_text)) ≡ old_text)
      × (join (b'\n' ∷ []) (new_side (diff_lines old_text new_text)) ≡ new_text)
unfolding diff_lines
diff_lines-sides old_text new_text =
    let olds = split_lines old_text in
    let news = split_lines new_text in
    let sides = diff_from-sides olds news (length olds + length news) olds news (omega arith) in
    (
      ap (join (b'\n' ∷ [])) sides.0 ∙ join-split_lines old_text,
      ap (join (b'\n' ∷ [])) sides.1 ∙ join-split_lines new_text,
    )
