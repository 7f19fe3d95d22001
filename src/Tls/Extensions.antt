-- ===== src/Tls/Extensions.antt =====
-- fingerprint/tls_parser.go: the parsers of the extensions that are read.
use mango_waf.Common.{ℕ, zero, suc, ◌-◌, List, [], ◌∷◌, if◌then◌else◌, ltb, leb, length, take, drop}
use mango_waf.Common.Bytes.{Str}
use mango_waf.Tls.{uint16}

unfoldable pub parse_server_name : Str → Str
parse_server_name (_ ∷ _ ∷ _ ∷ high ∷ low ∷ rest) =
    if ltb (length rest) (uint16 high low) then [] else take (uint16 high low) rest
parse_server_name _ = []

-- The 16-bit values of a list, as long as two bytes are left of `budget` and of the data.
unfoldable pub uint16_values : ℕ → Str → List ℕ
uint16_values (suc (suc budget)) (high ∷ low ∷ rest) = uint16 high low ∷ uint16_values budget rest
uint16_values _ _ = []

unfoldable pub parse_supported_groups : Str → List ℕ
unfolding uint16_values
parse_supported_groups (high ∷ low ∷ rest) = uint16_values (uint16 high low) rest
parse_supported_groups _ = []

unfoldable pub parse_ec_point_formats : Str → List ℕ
parse_ec_point_formats [] = []
parse_ec_point_formats (fmt_len ∷ rest) = take fmt_len rest

unfoldable pub parse_signature_algorithms : Str → List ℕ
unfolding uint16_values
parse_signature_algorithms (high ∷ low ∷ rest) = uint16_values (uint16 high low) rest
parse_signature_algorithms _ = []

-- The loop of `parseALPN`; each round reads a byte, so the number of bytes is fuel enough.
unfoldable pub protocols : ℕ → ℕ → Str → List Str
protocols zero budget bytes = []
protocols (suc fuel) budget [] = []
protocols (suc fuel) budget (p_len ∷ rest) =
    let later = protocols fuel (budget - 1 - p_len) (drop p_len rest) in
    if leb budget 0 then [] else (if ltb (length rest) p_len then [] else take p_len rest ∷ later)

unfoldable pub parse_alpn : Str → List Str
unfolding protocols
parse_alpn (high ∷ low ∷ rest) = protocols (length rest) (uint16 high low) rest
parse_alpn _ = []

unfoldable pub parse_supported_versions : Str → List ℕ
unfolding uint16_values
parse_supported_versions [] = []
parse_supported_versions (list_len ∷ rest) = uint16_values list_len rest
