-- ===== src/Tls/Hello.antt =====
-- fingerprint/tls_parser.go: `ParseClientHello` and `parseClientHelloBody`. A slice is the array it stands
-- on, from its first byte to the end of the capacity, and its length.
use mango_waf.Common.{
  ℕ, zero, suc, ◌+◌, ◌-◌, ◌*◌, min, bit_and, Bool, not, ◌&&◌, Option, none, some, List, [], ◌∷◌,
  ◌++◌, ◌==◌, if◌then◌else◌, ltb, leb, length, take, drop, get_or,
}
use mango_waf.Common.Bytes.{Str}
use mango_waf.Tls.{ClientHelloInfo, uint16, uint16_at}
use mango_waf.Tls.Extensions.{
  parse_server_name, parse_supported_groups, parse_ec_point_formats, parse_signature_algorithms,
  parse_alpn, parse_supported_versions,
}

-- `panicked` is an index past the length or a slice past the capacity, `failed` an error value.
pub data Parsed : Type 0 where
  panicked failed : Parsed
  parsed : ClientHelloInfo → Parsed

unfoldable pub is_grease : ℕ → Bool
is_grease val = bit_and val 3855 == 2570

unfoldable pub max_version : ℕ → List ℕ → ℕ
unfolding is_grease
max_version max_ver [] = max_ver
max_version max_ver (v ∷ vs) =
    max_version (if ltb max_ver v && not (is_grease v) then v else max_ver) vs

unfoldable pub real_version : ClientHelloInfo → ClientHelloInfo
unfolding max_version
real_version info =
    let max_ver = max_version 0 info.supported_versions in
    if ltb 0 max_ver then record info { tls_version = max_ver } else info

unfoldable pub add_extension : ℕ → Str → ClientHelloInfo → ClientHelloInfo
unfolding parse_server_name parse_supported_groups parse_ec_point_formats parse_signature_algorithms
    parse_alpn parse_supported_versions
add_extension ext_type bytes info =
    let seen = record info { extensions = info.extensions ++ ext_type ∷ [] } in
    if ext_type == 0
    then record seen { server_name = parse_server_name bytes }
    else (if ext_type == 10
        then record seen { elliptic_curves = parse_supported_groups bytes }
        else (if ext_type == 11
            then record seen { ec_point_formats = parse_ec_point_formats bytes }
            else (if ext_type == 13
                then record seen { signature_algs = parse_signature_algorithms bytes }
                else (if ext_type == 16
                    then record seen { alpn = parse_alpn bytes }
                    else (if ext_type == 43
                        then record seen { supported_versions = parse_supported_versions bytes }
                        else seen)))))

-- The loop over the extensions: `left` bytes up to `extEnd`, which lies within the data, and the data from the
-- position on. Each round takes four of the bytes left, so their number is fuel enough.
unfoldable pub parse_extensions : ℕ → ℕ → Str → ClientHelloInfo → ClientHelloInfo
unfolding add_extension
parse_extensions zero left bytes info = info
parse_extensions (suc fuel) left (t₁ ∷ t₂ ∷ l₁ ∷ l₂ ∷ rest) info =
    let ext_len = uint16 l₁ l₂ in
    let next =
      parse_extensions fuel (left - 4 - ext_len) (drop ext_len rest)
        (add_extension (uint16 t₁ t₂) (take ext_len rest) info) in
    if leb 4 left then next else info
parse_extensions (suc fuel) left _ info = info

unfoldable pub cons_suite : ℕ → Option (List ℕ) → Option (List ℕ)
cons_suite s none = none
cons_suite s (some ss) = some (s ∷ ss)

-- The loop over the cipher suites reads two bytes at a time, the last of which may lie past the length;
-- `none` when they lie past the capacity.
unfoldable pub read_suites : ℕ → Str → Option (List ℕ)
unfolding cons_suite
read_suites zero bytes = some []
read_suites (suc zero) (high ∷ low ∷ rest) = some (uint16 high low ∷ [])
read_suites (suc (suc n)) (high ∷ low ∷ rest) = cons_suite (uint16 high low) (read_suites n rest)
read_suites (suc n) _ = none

abbrev pub empty_info : ClientHelloInfo
empty_info = record {
  tls_version = 0;
  cipher_suites = [];
  extensions = [];
  elliptic_curves = [];
  ec_point_formats = [];
  signature_algs = [];
  alpn = [];
  server_name = [];
  supported_versions = [];
}

-- `data[i]` panics from the length on.
unfoldable pub at_byte : Str → ℕ → ℕ → (ℕ → Parsed) → Parsed
at_byte array len i k = if ltb i len then k (get_or array i 0) else panicked

-- `binary.BigEndian.Uint16(data[i : i+2])` panics when the slice ends past the capacity.
unfoldable pub at_uint16 : Str → ℕ → (ℕ → Parsed) → Parsed
at_uint16 array i k = if leb (i + 2) (length array) then k (uint16_at array i) else panicked

-- `data[i : j]`, with the array from `i` on; it panics when `j` lies past the capacity.
unfoldable pub at_slice : Str → ℕ → ℕ → (Str → Parsed) → Parsed
at_slice array i j k = if leb j (length array) then k (drop i array) else panicked

-- From the extensions' length on.
unfoldable pub with_extensions : Str → ℕ → ℕ → ClientHelloInfo → Parsed
unfolding parse_extensions real_version at_uint16
with_extensions array len pos info =
    if ltb len (pos + 2)
    then parsed info
    else at_uint16 array pos (λ total.
      let start = pos + 2 in
      let left = min total (len - start) in
      parsed (real_version (parse_extensions left left (drop start (take len array)) info)))

-- From the compression methods on.
unfoldable pub after_suites : Str → ℕ → ℕ → ClientHelloInfo → Parsed
unfolding with_extensions at_byte
after_suites array len pos info =
    if leb len pos
    then failed
    else at_byte array len pos (λ comp_len. with_extensions array len (pos + 1 + comp_len) info)

unfoldable pub with_suites : Str → ℕ → ℕ → ℕ → Option (List ℕ) → Parsed
unfolding after_suites
with_suites array len version pos none = panicked
with_suites array len version pos (some suites) =
    after_suites array len pos (record empty_info { tls_version = version; cipher_suites = suites })

-- From the length of the cipher suites on.
unfoldable pub after_session : Str → ℕ → ℕ → ℕ → Parsed
unfolding read_suites with_suites at_uint16
after_session array len version pos =
    if ltb len (pos + 2)
    then failed
    else at_uint16 array pos (λ cs_len.
      if ltb len (pos + 2 + cs_len)
      then failed
      else with_suites array len version (pos + 2 + cs_len)
          (read_suites cs_len (drop (pos + 2) array)))

unfoldable pub parse_client_hello_body : Str → ℕ → Parsed
unfolding after_session at_byte at_uint16
parse_client_hello_body array len =
    if ltb len 34
    then failed
    else at_uint16 array 0 (λ version.
      if leb len 34
      then failed
      else at_byte array len 34
          (λ session_id_len. after_session array len version (35 + session_id_len)))

-- The handshake inside the record, a slice of the same array.
unfoldable pub parse_handshake : Str → ℕ → Parsed
unfolding parse_client_hello_body at_byte at_slice
parse_handshake hs len =
    if ltb len 4
    then failed
    else at_byte hs len 0 (λ hs_type.
      if not (hs_type == 1)
      then failed
      else at_byte hs len 1 (λ b₁. at_byte hs len 2 (λ b₂. at_byte hs len 3 (λ b₃.
        let hs_len = b₁ * 65536 + b₂ * 256 + b₃ in
        if ltb len (4 + hs_len)
        then failed
        else at_slice hs 4 (4 + hs_len) (λ ch. parse_client_hello_body ch hs_len)))))

unfoldable pub parse_client_hello : Str → ℕ → Parsed
unfolding parse_handshake at_byte at_uint16 at_slice
parse_client_hello array len =
    if ltb len 5
    then failed
    else at_byte array len 0 (λ content_type.
      if not (content_type == 22)
      then failed
      else at_uint16 array 3 (λ record_len.
        if ltb len (5 + record_len)
        then failed
        else at_slice array 5 (5 + record_len) (λ hs. parse_handshake hs record_len)))
