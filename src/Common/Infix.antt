-- ===== src/Common/Infix.antt =====
-- `contains` in a concatenation.
use mango_waf.Common.{◌≡◌, refl, true, [], ◌∷◌, ◌++◌, arith}
use mango_waf.Common.Bytes.{Str, has_prefix, contains}

has_prefix-append : (s t u : Str) → has_prefix s u ≡ true → has_prefix (s ++ t) u ≡ true
unfolding has_prefix
has_prefix-append s t [] h = refl
has_prefix-append [] t (c ∷ u) h = cc
has_prefix-append (b ∷ s) t (c ∷ u) h = ground (arith, has_prefix-append s t u)

has_prefix_refl : (s : Str) → has_prefix s s ≡ true
unfolding has_prefix
has_prefix_refl [] = refl
has_prefix_refl (c ∷ s) = ground (arith, has_prefix_refl s)

contains-has_prefix : (s u : Str) → has_prefix s u ≡ true → contains s u ≡ true
unfolding contains
contains-has_prefix [] u h = h
contains-has_prefix (c ∷ s) u h = ground arith

pub contains_refl : (s : Str) → contains s s ≡ true
contains_refl s = contains-has_prefix s s (has_prefix_refl s)

pub contains-append_right : (s t u : Str) → contains t u ≡ true → contains (s ++ t) u ≡ true
unfolding contains
contains-append_right [] t u h = h
contains-append_right (c ∷ s) t u h = ground (arith, contains-append_right s t u h)

has_prefix_nil : (t u : Str) → has_prefix [] u ≡ true → contains t u ≡ true
unfolding has_prefix contains
has_prefix_nil [] u h = h
has_prefix_nil (b ∷ t) [] h = refl
has_prefix_nil (b ∷ t) (c ∷ u) h = cc

pub contains-append_left : (s t u : Str) → contains s u ≡ true → contains (s ++ t) u ≡ true
unfolding contains
contains-append_left [] t u h = has_prefix_nil t u h
contains-append_left (c ∷ s) t u h =
    ground (arith, has_prefix-append (c ∷ s) t u, contains-append_left s t u)

pub contains_nil : (s : Str) → contains s [] ≡ true
unfolding contains has_prefix
contains_nil [] = refl
contains_nil (c ∷ s) = refl
