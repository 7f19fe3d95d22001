-- ===== src/Rules/Keyword.antt =====
-- rules/engine.go: the keyword that `extractRequiredKeyword` takes from a pattern.
use mango_waf.Common.{
  ◌≤◌, ◌≡◌, refl, ap, sym, subst, ◌∙◌, Bool, true, false, ◌⊎◌, inl, inr, [], ◌∷◌, ◌++◌, length, leb,
  leb→le, append_nil, append_assoc, if◌then◌else◌, arith, Bool-cases,
}
use mango_waf.Common.Bytes.{Str, codes, contains, contains_any}
use mango_waf.Common.Infix.{
  contains_nil, contains-append_left, contains-append_right, contains_refl,
}
use mango_waf.Rules.Text.{is_keyword_byte, longer, longest_run, extract_required_keyword}

longer-cases :
    (current longest : Str)
    → (longer current longest ≡ current) ⊎ (longer current longest ≡ longest)
unfolding longer
longer-cases current longest = ground arith

contains-longer :
    (seen current longest : Str)
    → contains seen current ≡ true
    → contains seen longest ≡ true
    → contains seen (longer current longest) ≡ true
contains-longer seen current longest c l = elim (longer-cases current longest) [
  | inl e ↦ subst (λ x. contains seen x ≡ true) (sym e) c
  | inr e ↦ subst (λ x. contains seen x ≡ true) (sym e) l
]

contains_if :
    (b : Bool) (s x y : Str)
    → contains s x ≡ true
    → contains s y ≡ true
    → contains s (if b then x else y) ≡ true
contains_if true s x y h k = h
contains_if false s x y h k = k

long_or_empty :
    (b : Bool) (s : Str)
    → ((if b then [] else (if leb 4 (length s) then s else [])) ≡ [])
      ⊎ (4 ≤ length (if b then [] else (if leb 4 (length s) then s else [])))
long_or_empty true s = inl refl
long_or_empty false s = elim (Bool-cases (leb 4 (length s))) [
  | inl h ↦ inr (rw h (leb→le 4 (length s) h))
  | inr h ↦ inl (rw h refl)
]

-- The text read so far is `before ++ current`, with the longest run inside it.
contains-longest_run :
    (s before current longest : Str)
    → contains (before ++ current) longest ≡ true
    → contains ((before ++ current) ++ s) (longest_run s current longest) ≡ true
unfolding longest_run
contains-longest_run [] before current longest h =
    subst (λ x. contains x (longer current longest) ≡ true) (sym (append_nil (before ++ current)))
      (contains-longer (before ++ current) current longest
        (contains-append_right before current current (contains_refl current)) h)
contains-longest_run (ch ∷ s) before current longest h =
    contains_if (is_keyword_byte ch) ((before ++ current) ++ ch ∷ s)
      (longest_run s (current ++ ch ∷ []) longest) (longest_run s [] (longer current longest))
      (subst (λ x. contains x (longest_run s (current ++ ch ∷ []) longest) ≡ true)
        (ap (λ x. x ++ s) (sym (append_assoc before current (ch ∷ [])))
          ∙ append_assoc (before ++ current) (ch ∷ []) s)
        (contains-longest_run s before (current ++ ch ∷ []) longest (
          subst (λ x. contains x longest ≡ true) (append_assoc before current (ch ∷ []))
            (contains-append_left (before ++ current) (ch ∷ []) longest h))))
      (subst (λ x. contains x (longest_run s [] (longer current longest)) ≡ true)
        (ap (λ x. x ++ s) (append_nil ((before ++ current) ++ ch ∷ []))
          ∙ append_assoc (before ++ current) (ch ∷ []) s)
        (contains-longest_run s ((before ++ current) ++ ch ∷ []) [] (longer current longest) (
          subst (λ x. contains x (longer current longest) ≡ true)
            (sym (append_nil ((before ++ current) ++ ch ∷ [])))
            (contains-append_left (before ++ current) (ch ∷ []) (longer current longest) (
              contains-longer (before ++ current) current longest
                (contains-append_right before current current (contains_refl current)) h)))))

-- The keyword taken from a pattern is part of the pattern; it is empty or has at least four bytes.
pub extract_required_keyword_lem :
    (pat : Str)
    → (contains pat (extract_required_keyword pat) ≡ true)
      × ((extract_required_keyword pat ≡ []) ⊎ (4 ≤ length (extract_required_keyword pat)))
unfolding extract_required_keyword
extract_required_keyword_lem pat =
    let inside : contains pat (longest_run pat [] []) ≡ true =
      contains-longest_run pat [] [] [] (contains_nil []) in
    (
      contains_if (contains_any pat (codes "|[]()?*+^$")) pat []
          (if leb 4 (length (longest_run pat [] [])) then longest_run pat [] [] else [])
          (contains_nil pat)
          (contains_if (leb 4 (length (longest_run pat [] []))) pat (longest_run pat [] []) []
            inside (contains_nil pat)),
      long_or_empty (contains_any pat (codes "|[]()?*+^$")) (longest_run pat [] []),
    )
