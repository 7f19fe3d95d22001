-- ===== src/Common/Bytes.antt =====
-- Go strings as lists of bytes, with the functions of package `strings` that the program calls.
-- `to_lower` and `to_upper` map the ASCII letters; Go maps other letters by its Unicode tables.
use mango_waf.Common.{
  ℕ, suc, true, false, none, some, [], ◌∷◌, refl, Bool, Option, List, ◌≡◌, ◌++◌, ◌+◌, ◌-◌, ◌&&◌,
  ◌||◌, leb, ◌==◌, if◌then◌else◌, arith, ap, ◌↔◌,
}
use Prim.Native.Nat.{ℕ, suc, ◌+◌, ◌-◌}
use Prim.Native.Char.{code}
use Prim.Native.String.{String}
use mathlib.Core.Path.{◌≡◌, refl, ap, ap₂}
use mathlib.Core.Logic.{◌↔◌}
use mathlib.Core.Bool.{Bool, true, false, ◌&&◌, ◌||◌}
use mathlib.Core.Option.{Option, none, some}
use mathlib.Core.List.{List, [], ◌∷◌, ◌++◌, map, reverse}
use native.Mathlib.Omega.{arith}
use mango_waf.Common.Tests.{leb, ◌==◌, if◌then◌else◌}

abbrev pub Str : Type 0
Str = List ℕ

-- The bytes of an ASCII literal.
abbrev pub codes : String → Str
codes String.[] = []
codes (String.◌∷◌ c s) = code c ∷ codes s

unfoldable pub str_eq : Str → Str → Bool
str_eq [] [] = true
str_eq [] (_ ∷ _) = false
str_eq (_ ∷ _) [] = false
str_eq (a ∷ s) (b ∷ t) = a == b && str_eq s t

pub str_eq→≡ : (s t : Str) → str_eq s t ≡ true → s ≡ t
unfolding str_eq
str_eq→≡ [] [] h = refl
str_eq→≡ [] (b ∷ t) h = cc
str_eq→≡ (a ∷ s) [] h = cc
str_eq→≡ (a ∷ s) (b ∷ t) h = ground (arith, str_eq→≡ s t)

pub str_eq_refl : (s : Str) → str_eq s s ≡ true
unfolding str_eq
str_eq_refl [] = refl
str_eq_refl (a ∷ s) = ground (arith, str_eq_refl s)

pub str_eq_iff : (s t : Str) → (str_eq s t ≡ true) ↔ (s ≡ t)
str_eq_iff s t = (str_eq→≡ s t, λ e. cc (str_eq_refl s, ap (str_eq s) e))

abbrev pub is_empty : Str → Bool
is_empty [] = true
is_empty (_ ∷ _) = false

lower : ℕ → ℕ
lower c = if leb b'A' c && leb c b'Z' then c + 32 else c

upper : ℕ → ℕ
upper c = if leb b'a' c && leb c b'z' then c - 32 else c

unfoldable pub to_lower : Str → Str
unfolding lower
to_lower s = map lower s

unfoldable pub to_upper : Str → Str
unfolding upper
to_upper s = map upper s

lower_idem : (c : ℕ) → lower (lower c) ≡ lower c
unfolding lower
lower_idem c = ground arith

pub to_lower_idem : (s : Str) → to_lower (to_lower s) ≡ to_lower s
unfolding to_lower
to_lower_idem [] = refl
to_lower_idem (c ∷ s) = ap₂ ◌∷◌ (lower_idem c) (to_lower_idem s)

-- strings.HasPrefix, HasSuffix and Contains.
unfoldable pub has_prefix : Str → Str → Bool
has_prefix s [] = true
has_prefix [] (_ ∷ _) = false
has_prefix (a ∷ s) (b ∷ t) = a == b && has_prefix s t

unfoldable pub has_suffix : Str → Str → Bool
unfolding has_prefix
has_suffix s t = has_prefix (reverse s) (reverse t)

unfoldable pub contains : Str → Str → Bool
unfolding has_prefix
contains [] t = has_prefix [] t
contains (a ∷ s) t = has_prefix (a ∷ s) t || contains s t

-- strings.IndexByte and LastIndexByte; `none` is -1.
unfoldable pub index_byte : ℕ → Str → Option ℕ
index_byte c [] = none
index_byte c (a ∷ s) =
    if a == c then some 0 else (elim (index_byte c s) [ none ↦ none | some i ↦ some (suc i) ])

unfoldable pub last_index_byte : ℕ → Str → Option ℕ
last_index_byte c [] = none
last_index_byte c (a ∷ s) = elim (last_index_byte c s) [
  | none ↦ if a == c then some 0 else none
  | some i ↦ some (suc i)
]

-- strings.ContainsAny.
unfoldable pub has_byte : ℕ → Str → Bool
has_byte c [] = false
has_byte c (a ∷ s) = a == c || has_byte c s

unfoldable pub contains_any : Str → Str → Bool
unfolding has_byte
contains_any [] set = false
contains_any (a ∷ s) set = has_byte a set || contains_any s set

-- strings.TrimSpace: the ASCII white space.
unfoldable pub is_space : ℕ → Bool
is_space c = leb 9 c && leb c 13 || c == 32

unfoldable pub trim_left : Str → Str
unfolding is_space
trim_left [] = []
trim_left (c ∷ s) = if is_space c then trim_left s else c ∷ s

unfoldable pub trim_space : Str → Str
unfolding trim_left
trim_space s = reverse (trim_left (reverse (trim_left s)))

unfoldable pub join : Str → List Str → Str
join sep [] = []
join sep (s ∷ []) = s
join sep (s ∷ t ∷ r) = s ++ (sep ++ join sep (t ∷ r))
