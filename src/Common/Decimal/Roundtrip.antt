-- ===== src/Common/Decimal/Roundtrip.antt =====
-- A printed number is read back, and holds digits only.
use mango_waf.Common.{
  ℕ, zero, suc, ◌+◌, ◌/◌, ◌%◌, ◌^◌, ◌≤◌, ◌<◌, ◌≡◌, refl, ap, ◌∙◌, false, [], ◌∷◌, arith,
}
use mango_waf.Common.Int.{pos}
use mango_waf.Common.Bytes.{Str, has_byte, is_empty}
use mango_waf.Common.Decimal.{
  digits_upto, print_nat, number, unsigned, is_digit, scan_digits, parse_uint, positive, parse_int,
}

scan-last :
    (n : ℕ) (out : Str)
    → n < 2 ^ 64
    → scan_digits ((b'0' + n % 10) ∷ out) (n / 10) ≡ scan_digits out n
unfolding scan_digits
scan-last n out h = ground arith

scan-digits_upto :
    (fuel n : ℕ) (out : Str)
    → n ≤ fuel
    → n < 2 ^ 64
    → scan_digits (digits_upto fuel n out) 0 ≡ scan_digits out n
unfolding digits_upto
scan-digits_upto zero n out le h = let e : 0 ≡ n = omega (arith, le) in ap (scan_digits out) e
scan-digits_upto (suc fuel) n out le h =
    ground (arith, le, h, scan-digits_upto fuel (n / 10) ((b'0' + n % 10) ∷ out), scan-last n out h)

has_byte-digits_upto :
    (c fuel n : ℕ) (out : Str)
    → is_digit c ≡ false
    → has_byte c out ≡ false
    → has_byte c (digits_upto fuel n out) ≡ false
unfolding digits_upto has_byte
has_byte-digits_upto c zero n out d h = h
has_byte-digits_upto c (suc fuel) n out d h =
    ground (arith, d, h, has_byte-digits_upto c fuel (n / 10) ((b'0' + n % 10) ∷ out) d)

-- A byte that is no digit does not stand in a printed number.
pub has_byte-print_nat : (c n : ℕ) → is_digit c ≡ false → has_byte c (print_nat n) ≡ false
unfolding print_nat has_byte
has_byte-print_nat c n d = ground (arith, d, has_byte-digits_upto c n n [] d refl)

scan-print_nat : (n : ℕ) → n < 2 ^ 64 → scan_digits (print_nat n) 0 ≡ unsigned n
unfolding print_nat scan_digits
scan-print_nat n h = ground (arith, h, scan-digits_upto n n [] (omega arith) h)

is_empty-digits_upto : (fuel n c : ℕ) (out : Str) → is_empty (digits_upto fuel n (c ∷ out)) ≡ false
unfolding digits_upto
is_empty-digits_upto zero n c out = refl
is_empty-digits_upto (suc fuel) n c out =
    ground (arith, is_empty-digits_upto fuel (n / 10) (b'0' + n % 10) (c ∷ out))

is_empty-print_nat : (n : ℕ) → is_empty (print_nat n) ≡ false
unfolding print_nat digits_upto
is_empty-print_nat zero = refl
is_empty-print_nat (suc n) =
    ground (arith, is_empty-digits_upto n (suc n / 10) (b'0' + suc n % 10) [])

parse_uint-scan : (s : Str) → is_empty s ≡ false → parse_uint s ≡ scan_digits s 0
unfolding parse_uint
parse_uint-scan [] h = cc
parse_uint-scan (c ∷ s) h = refl

parse_uint-print_nat : (n : ℕ) → n < 2 ^ 64 → parse_uint (print_nat n) ≡ unsigned n
parse_uint-print_nat n h = parse_uint-scan (print_nat n) (is_empty-print_nat n) ∙ scan-print_nat n h

positive_small : (n : ℕ) → n < 2 ^ 63 → positive (unsigned n) ≡ number (pos n)
unfolding positive
positive_small n h = ground (arith, h)

unsigned_first :
    (s : Str) (n : ℕ)
    → has_byte b'+' s ≡ false
    → has_byte b'-' s ≡ false
    → parse_uint s ≡ unsigned n
    → n < 2 ^ 63
    → parse_int s ≡ number (pos n)
unfolding parse_int parse_uint has_byte
unsigned_first [] n p m h l = cc
unsigned_first (c ∷ s) n p m h l = ground (arith, p, m, ap positive h ∙ positive_small n l)

-- A natural number of 63 bits is read back from its print.
pub parse_int-print_nat : (n : ℕ) → n < 2 ^ 63 → parse_int (print_nat n) ≡ number (pos n)
parse_int-print_nat n h =
    unsigned_first (print_nat n) n (has_byte-print_nat b'+' n refl) (has_byte-print_nat b'-' n refl)
      (parse_uint-print_nat n (omega (arith, h))) h
