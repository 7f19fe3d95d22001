-- ===== src/Rules/Text.antt =====
-- rules/engine.go: how a query and a Cookie header are cut into values, the keyword a pattern requires,
-- and `url.QueryUnescape`.
use mango_waf.Common.{
  ℕ, suc, ◌+◌, ◌-◌, ◌*◌, Bool, ◌&&◌, ◌||◌, Option, none, some, List, [], ◌∷◌, ◌++◌, reverse, ltb,
  leb, ◌==◌, if◌then◌else◌, length, take, drop,
}
use mango_waf.Common.Bytes.{
  Str, codes, is_empty, contains, contains_any, has_byte, index_byte, trim_space,
}

add_byte : ℕ → List Str → List Str
add_byte c [] = (c ∷ []) ∷ []
add_byte c (p ∷ ps) = (c ∷ p) ∷ ps

-- The parts between the bytes of `seps`.
unfoldable pub parts : Str → Str → List Str
unfolding add_byte has_byte
parts seps [] = [] ∷ []
parts seps (c ∷ s) = if has_byte c seps then [] ∷ parts seps s else add_byte c (parts seps s)

-- What follows the first '=', or the whole part.
unfoldable pub after_equals : Str → Str
unfolding index_byte
after_equals part = elim (index_byte b'=' part) [ none ↦ part | some i ↦ drop (suc i) part ]

unfoldable pub hex_digit : ℕ → Option ℕ
hex_digit c =
    if leb b'0' c && leb c b'9'
    then some (c - 48)
    else (if leb b'a' c && leb c b'f'
        then some (c - 87)
        else (if leb b'A' c && leb c b'F' then some (c - 55) else none))

byte_then : Option ℕ → Option ℕ → Option Str → Option Str
byte_then (some h) (some l) (some s) = some ((h * 16 + l) ∷ s)
byte_then _ _ _ = none

keep_byte : ℕ → Option Str → Option Str
keep_byte c none = none
keep_byte c (some s) = some (c ∷ s)

-- `none` is the error of a '%' that two hexadecimal digits do not follow.
unfoldable pub query_unescape : Str → Option Str
unfolding hex_digit byte_then keep_byte
query_unescape [] = some []
query_unescape (c ∷ []) = if c == b'%' then none else some ((if c == b'+' then b' ' else c) ∷ [])
query_unescape (c ∷ h ∷ []) =
    let rest = query_unescape (h ∷ []) in
    if c == b'%' then none else keep_byte (if c == b'+' then b' ' else c) rest
query_unescape (c ∷ h ∷ l ∷ s) =
    let skipped = query_unescape s in
    let rest = query_unescape (h ∷ l ∷ s) in
    if c == b'%'
    then byte_then (hex_digit h) (hex_digit l) skipped
    else keep_byte (if c == b'+' then b' ' else c) rest

unfoldable pub decoded_arg : Str → Str
unfolding contains query_unescape
decoded_arg val =
    if contains val (codes "%")
    then (elim (query_unescape val) [ none ↦ val | some d ↦ d ])
    else val

-- The first value the callback accepts; the loop stops there.
unfoldable pub first_arg : (Str → Bool) → List Str → Option Str
unfolding after_equals decoded_arg
first_arg cb [] = none
first_arg cb (part ∷ ps) =
    let rest = first_arg cb ps in
    let val = decoded_arg (after_equals part) in
    if is_empty part then rest else (if cb val then some val else rest)

unfoldable pub for_each_query_arg : Str → (Str → Bool) → Option Str
unfolding parts first_arg
for_each_query_arg query cb = first_arg cb (parts (codes "&;") query)

-- `val[1 : len(val)-1]` of a value in double quotes.
unfoldable pub unquoted : Str → Str
unquoted [] = []
unquoted (c ∷ s) = elim (reverse s) [
  | [] ↦ c ∷ []
  | d ∷ t ↦ if c == b'"' && d == b'"' then reverse t else c ∷ s
]

unfoldable pub first_cookie : (Str → Bool) → List Str → Option Str
unfolding after_equals unquoted
first_cookie cb [] = none
first_cookie cb (raw ∷ ps) =
    let rest = first_cookie cb ps in
    let part = trim_space raw in
    let val = unquoted (after_equals part) in
    if is_empty part then rest else (if cb val then some val else rest)

unfoldable pub for_each_cookie_value : Str → (Str → Bool) → Option Str
unfolding parts first_cookie
for_each_cookie_value cookie_header cb = first_cookie cb (parts (codes ";") cookie_header)

unfoldable pub truncate : Str → ℕ → Str
truncate s max_len = if leb (length s) max_len then s else take max_len s ++ codes "..."

unfoldable pub is_keyword_byte : ℕ → Bool
is_keyword_byte ch =
    leb b'a' ch && leb ch b'z' || leb b'0' ch && leb ch b'9' || ch == b'_' || ch == b'-'

unfoldable pub longer : Str → Str → Str
longer current longest = if ltb (length longest) (length current) then current else longest

unfoldable pub longest_run : Str → Str → Str → Str
unfolding is_keyword_byte longer
longest_run [] current longest = longer current longest
longest_run (ch ∷ s) current longest =
    let grown = longest_run s (current ++ ch ∷ []) longest in
    let cut = longest_run s [] (longer current longest) in if is_keyword_byte ch then grown else cut

unfoldable pub extract_required_keyword : Str → Str
unfolding contains_any longest_run
extract_required_keyword pat =
    let longest = longest_run pat [] [] in
    if contains_any pat (codes "|[]()?*+^$")
    then []
    else (if leb 4 (length longest) then longest else [])
