-- ===== src/Tls/Roundtrip.antt =====
-- fingerprint/tls_parser.go: the parsers of the extensions, set beside the wire format of RFC 8446, RFC 6066
-- and RFC 7301.
use mango_waf.Common.{
  ℕ, zero, suc, ◌+◌, ◌-◌, ◌*◌, ◌/◌, ◌%◌, ◌≤◌, ◌≡◌, refl, ap, ap₂, sym, subst, List, [], ◌∷◌, ◌++◌,
  length, take, drop, length-append, arith,
}
use mango_waf.Common.Bytes.{Str}
use mango_waf.Tls.{uint16}
use mango_waf.Tls.Extensions.{
  parse_server_name, uint16_values, parse_supported_groups, parse_signature_algorithms, protocols,
  parse_alpn,
}

take-append : (s t : Str) → take (length s) (s ++ t) ≡ s
take-append [] t = refl
take-append (c ∷ s) t = ap (◌∷◌ c) (take-append s t)

drop-append : (s t : Str) → drop (length s) (s ++ t) ≡ t
drop-append [] t = refl
drop-append (c ∷ s) t = drop-append s t

take-all : (s : Str) → take (length s) s ≡ s
take-all [] = refl
take-all (c ∷ s) = ap (◌∷◌ c) (take-all s)

-- A length or value in two bytes.
abbrev pub high_byte : ℕ → ℕ
high_byte n = n / 256

abbrev pub low_byte : ℕ → ℕ
low_byte n = n % 256

uint16-bytes : (n : ℕ) → uint16 (high_byte n) (low_byte n) ≡ n
uint16-bytes n = omega arith

-- The list of one host name.
abbrev pub server_name_bytes : Str → Str
server_name_bytes name =
    high_byte (length name + 3)
    ∷ low_byte (length name + 3)
    ∷ 0
    ∷ high_byte (length name)
    ∷ low_byte (length name)
    ∷ name

pub values_bytes : List ℕ → Str
values_bytes [] = []
values_bytes (v ∷ vs) = high_byte v ∷ low_byte v ∷ values_bytes vs

abbrev pub list_bytes : List ℕ → Str
list_bytes vs = high_byte (2 * length vs) ∷ low_byte (2 * length vs) ∷ values_bytes vs

pub names_bytes : List Str → Str
names_bytes [] = []
names_bytes (p ∷ ps) = length p ∷ (p ++ names_bytes ps)

abbrev pub alpn_bytes : List Str → Str
alpn_bytes ps =
    high_byte (length (names_bytes ps)) ∷ low_byte (length (names_bytes ps)) ∷ names_bytes ps

-- A host name comes back from its extension.
pub parse_server_name-bytes : (name : Str) → parse_server_name (server_name_bytes name) ≡ name
unfolding parse_server_name
parse_server_name-bytes name = ground (arith, uint16-bytes (length name), take-all name)

uint16_values-bytes : (vs : List ℕ) → uint16_values (2 * length vs) (values_bytes vs) ≡ vs
unfolding uint16_values values_bytes
uint16_values-bytes [] = refl
uint16_values-bytes (v ∷ vs) =
    let twice : 2 * suc (length vs) ≡ suc (suc (2 * length vs)) = omega arith in
    subst (λ k. uint16_values k (high_byte v ∷ low_byte v ∷ values_bytes vs) ≡ v ∷ vs) (sym twice)
      (ap₂ ◌∷◌ (uint16-bytes v) (uint16_values-bytes vs))

-- The groups and the signature algorithms come back from their extensions.
pub parse_lists-bytes :
    (vs : List ℕ)
    → (parse_supported_groups (list_bytes vs) ≡ vs)
      × (parse_signature_algorithms (list_bytes vs) ≡ vs)
unfolding parse_supported_groups parse_signature_algorithms
parse_lists-bytes vs =
    rw (uint16-bytes (2 * length vs)) (uint16_values-bytes vs, uint16_values-bytes vs)

protocols-bytes :
    (ps : List Str) (fuel : ℕ)
    → length (names_bytes ps) ≤ fuel
    → protocols fuel (length (names_bytes ps)) (names_bytes ps) ≡ ps
unfolding protocols names_bytes
protocols-bytes [] zero h = refl
protocols-bytes [] (suc fuel) h = refl
protocols-bytes (p ∷ ps) zero h = absurd (omega arith)
protocols-bytes (p ∷ ps) (suc fuel) h =
    let names = names_bytes ps in
    let size = length-append p names in
    let budget : suc (length (p ++ names)) - 1 - length p ≡ length names = omega (arith, size) in
    let later = protocols-bytes ps fuel (omega (arith, h, size)) in
    ground (arith, size, budget, later, take-append p names, drop-append p names)

-- The protocols come back from the extension in their order.
pub parse_alpn-bytes : (ps : List Str) → parse_alpn (alpn_bytes ps) ≡ ps
unfolding parse_alpn
parse_alpn-bytes ps =
    rw (uint16-bytes (length (names_bytes ps)))
      (protocols-bytes ps (length (names_bytes ps)) (omega arith))
