-- ===== src/Tls/Slices.antt =====
-- fingerprint/tls_parser.go: when the parser panics, and the fuel of the loop over the extensions.
use mango_waf.Common.{
  ℕ, zero, suc, ◌+◌, ◌-◌, ◌%◌, ◌≤◌, ◌≡◌, refl, sym, ◌∙◌, Bool, true, false, Option, none, some,
  List, [], ◌∷◌, is_some, leb, leb→le, length, take, drop, arith, Bool-cases, inl, inr,
}
use mango_waf.Common.Bytes.{Str}
use mango_waf.Tls.{ClientHelloInfo, uint16}
use mango_waf.Tls.Hello.{
  Parsed, panicked, failed, parsed, cons_suite, read_suites, parse_extensions, add_extension,
}

abbrev pub panics : Parsed → Bool
panics panicked = true
panics failed = false
panics (parsed _) = false

is_some-cons_suite : (s : ℕ) (o : Option (List ℕ)) → is_some (cons_suite s o) ≡ is_some o
unfolding cons_suite
is_some-cons_suite s none = refl
is_some-cons_suite s (some ss) = refl

-- The loop over the cipher suites stays within the capacity exactly when their length, rounded up to an even
-- number, does.
pub read_suites_lem : (n : ℕ) (s : Str) → is_some (read_suites n s) ≡ leb (n + n % 2) (length s)
unfolding read_suites
read_suites_lem zero s = ground arith
read_suites_lem (suc zero) [] = ground arith
read_suites_lem (suc zero) (a ∷ []) = ground arith
read_suites_lem (suc zero) (a ∷ b ∷ s) = ground arith
read_suites_lem (suc (suc n)) [] = ground arith
read_suites_lem (suc (suc n)) (a ∷ []) = ground arith
read_suites_lem (suc (suc n)) (a ∷ b ∷ s) =
    is_some-cons_suite (uint16 a b) (read_suites n s) ∙ read_suites_lem n s ∙ ground arith

no_bytes_left :
    (f left : ℕ) (bytes : Str) (info : ClientHelloInfo)
    → left ≤ 0
    → parse_extensions f left bytes info ≡ info
unfolding parse_extensions
no_bytes_left zero left bytes info h = refl
no_bytes_left (suc f) left [] info h = refl
no_bytes_left (suc f) left (a ∷ []) info h = refl
no_bytes_left (suc f) left (a ∷ b ∷ []) info h = refl
no_bytes_left (suc f) left (a ∷ b ∷ c ∷ []) info h = refl
no_bytes_left (suc f) left (a ∷ b ∷ c ∷ d ∷ rest) info h = ground (arith, h)

-- Any fuel from the number of bytes left on gives the same extensions.
pub parse_extensions_fuel :
    (f g left : ℕ) (bytes : Str) (info : ClientHelloInfo)
    → left ≤ f
    → left ≤ g
    → parse_extensions f left bytes info ≡ parse_extensions g left bytes info
unfolding parse_extensions
parse_extensions_fuel zero zero left bytes info h k = refl
parse_extensions_fuel zero (suc g) left bytes info h k =
    sym (no_bytes_left (suc g) left bytes info h)
parse_extensions_fuel (suc f) zero left bytes info h k = no_bytes_left (suc f) left bytes info k
parse_extensions_fuel (suc f) (suc g) left [] info h k = refl
parse_extensions_fuel (suc f) (suc g) left (a ∷ []) info h k = refl
parse_extensions_fuel (suc f) (suc g) left (a ∷ b ∷ []) info h k = refl
parse_extensions_fuel (suc f) (suc g) left (a ∷ b ∷ c ∷ []) info h k = refl
parse_extensions_fuel (suc f) (suc g) left (t₁ ∷ t₂ ∷ l₁ ∷ l₂ ∷ rest) info h k =
    elim (Bool-cases (leb 4 left)) [
      | inl b ↦ rw b (
          parse_extensions_fuel f g (left - 4 - uint16 l₁ l₂) (drop (uint16 l₁ l₂) rest)
            (add_extension (uint16 t₁ t₂) (take (uint16 l₁ l₂) rest) info)
            (omega (arith, h, leb→le 4 left b)) (omega (arith, k, leb→le 4 left b)))
      | inr b ↦ rw b refl
    ]
