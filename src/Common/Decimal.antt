-- ===== src/Common/Decimal.antt =====
-- strconv's decimal numbers: `Itoa`, `FormatInt` and `%d` of a natural number, and `ParseInt` and `Atoi` of
-- 64 bits in base ten.
pub mod Roundtrip
use mango_waf.Common.{
  ℕ, zero, suc, ◌+◌, ◌-◌, ◌*◌, ◌/◌, ◌%◌, ◌^◌, ◌≤◌, ◌<◌, ◌≡◌, refl, ap, sym, ◌∙◌, Bool, true, false,
  ◌||◌, ◌&&◌, List, [], ◌∷◌, ◌++◌, ltb, leb, ◌==◌, if◌then◌else◌, arith,
}
use mango_waf.Common.Int.{ℤ, pos, negsuc, sub_ℕ}
use mango_waf.Common.Bytes.{Str, codes, has_byte}

-- The digits of a positive number before `out`; the number is fuel enough, since each round divides it by ten.
unfoldable pub digits_upto : ℕ → ℕ → Str → Str
digits_upto zero n out = out
digits_upto (suc fuel) n out =
    let more = digits_upto fuel (n / 10) ((b'0' + n % 10) ∷ out) in if n == 0 then out else more

unfoldable pub print_nat : ℕ → Str
unfolding digits_upto
print_nat n = if n == 0 then b'0' ∷ [] else digits_upto n n []

-- `out_of_range` carries the nearest 64-bit number, which `Atoi` returns beside its error.
pub data Number : Type 0 where
  number : ℤ → Number
  bad_syntax : Number
  out_of_range : ℤ → Number

pub data Unsigned : Type 0 where
  unsigned : ℕ → Unsigned
  not_digits too_large : Unsigned

abbrev pub is_digit : ℕ → Bool
is_digit c = leb b'0' c && leb c b'9'

unfoldable pub scan_digits : Str → ℕ → Unsigned
scan_digits [] n = unsigned n
scan_digits (c ∷ s) n =
    let m = n * 10 + (c - 48) in
    let rest = scan_digits s m in
    if is_digit c then (if ltb m (2 ^ 64) then rest else too_large) else not_digits

unfoldable pub parse_uint : Str → Unsigned
unfolding scan_digits
parse_uint [] = not_digits
parse_uint (c ∷ s) = scan_digits (c ∷ s) 0

unfoldable pub positive : Unsigned → Number
positive not_digits = bad_syntax
positive too_large = out_of_range (pos (2 ^ 63 - 1))
positive (unsigned n) = if ltb n (2 ^ 63) then number (pos n) else out_of_range (pos (2 ^ 63 - 1))

unfoldable pub negative : Unsigned → Number
negative not_digits = bad_syntax
negative too_large = out_of_range (negsuc (2 ^ 63 - 1))
negative (unsigned n) =
    if leb n (2 ^ 63) then number (sub_ℕ 0 n) else out_of_range (negsuc (2 ^ 63 - 1))

unfoldable pub parse_int : Str → Number
unfolding parse_uint positive negative
parse_int [] = bad_syntax
parse_int (c ∷ s) =
    if c == b'+'
    then positive (parse_uint s)
    else if c == b'-'
    then negative (parse_uint s)
    else positive (parse_uint (c ∷ s))

-- The value of `Atoi`, where the error is ignored.
unfoldable pub atoi : Str → ℤ
unfolding parse_int
atoi s = elim (parse_int s) [ number z ↦ z | bad_syntax ↦ pos 0 | out_of_range z ↦ z ]
