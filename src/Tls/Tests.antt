-- ===== src/Tls/Tests.antt =====
-- The ClientHello parser at concrete bytes.
use mango_waf.Common.{ℕ, ◌≡◌, refl, List, [], ◌∷◌, ◌++◌, leb→le}
use mango_waf.Common.Bytes.{Str, codes}
use mango_waf.Tls.Hello.{empty_info, parse_extensions}
use mango_waf.Tls.Slices.{parse_extensions_fuel}

-- A ClientHello with one cipher suite and no extensions, and one byte behind it.
abbrev hello_record : Str
hello_record =
    22 ∷ 3 ∷ 1 ∷ 0 ∷ 45 ∷ 1 ∷ 0 ∷ 0 ∷ 41 ∷ 3 ∷ 3 ∷ codes "0123456789abcdef0123456789abcdef"
    ++ 0 ∷ 0 ∷ 2 ∷ 19 ∷ 1 ∷ 1 ∷ 0 ∷ 0 ∷ []

-- An empty extension 23 and the supported version 1.3.
abbrev two_extensions : Str
two_extensions = 0 ∷ 23 ∷ 0 ∷ 0 ∷ 0 ∷ 43 ∷ 0 ∷ 3 ∷ 2 ∷ 3 ∷ 4 ∷ []

parse_extensions_fuel_example :
    parse_extensions 11 11 two_extensions empty_info
    ≡ parse_extensions 40 11 two_extensions empty_info
parse_extensions_fuel_example =
    parse_extensions_fuel 11 40 11 two_extensions empty_info (leb→le 11 11 refl) (leb→le 11 40 refl)

-- A GREASE value, 1.3 and 1.2.
abbrev versions : List ℕ
versions = 2570 ∷ 772 ∷ 771 ∷ []

abbrev groups : List ℕ
groups = 29 ∷ 23 ∷ 24 ∷ []

abbrev protos : List Str
protos = codes "h2" ∷ codes "http/1.1" ∷ []
