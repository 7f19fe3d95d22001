-- ===== src/Fingerprint.antt =====
-- fingerprint/fingerprint.go: the JA3 and JA4 fingerprints of a TLS client. MD5 in hexadecimal is a
-- parameter. Scores are whole numbers, as in the tables of the source.
pub mod Database
pub mod Composite
pub mod Store
pub mod Sniff
pub mod Order
pub mod Grease
pub mod Alpn
pub mod Trust
pub mod Reach
pub mod Seeded
pub mod Overwrite
pub mod FastTrack
pub mod Eviction
pub mod Rejection
mod Tests
use mango_waf.Common.{
  ℕ, ◌+◌, ◌-◌, Bool, true, false, not, Option, none, some, List, [], ◌∷◌, ◌++◌, map, ltb, leb, ◌==◌,
  if◌then◌else◌, length, take,
}
use mango_waf.Common.Bytes.{Str, codes, str_eq, is_empty, join}
use mango_waf.Common.Decimal.{print_nat}
use mango_waf.Common.Dict.{Dict, lookup}
use mango_waf.Tls.{ClientHelloInfo}
use mango_waf.Tls.Hello.{is_grease}

pub record BrowserInfo : Type 0 where
  pub name : Str
  pub platform : Str
  pub trust_score : ℕ

pub record Ja3Result : Type 0 where
  pub hash : Str
  pub raw : Str
  pub tls_version : ℕ
  pub known : Bool
  pub browser_id : Str
  pub trust_score : ℕ

pub record Ja4Result : Type 0 where
  pub hash : Str
  pub raw : Str
  pub tls_version : Str
  pub sni : Str
  pub known : Bool
  pub trust_score : ℕ

unfoldable pub filter_grease16 : List ℕ → List ℕ
unfolding is_grease
filter_grease16 [] = []
filter_grease16 (v ∷ vs) = if is_grease v then filter_grease16 vs else v ∷ filter_grease16 vs

unfoldable pub join_uint16 : List ℕ → Str → Str
unfolding join print_nat
join_uint16 values sep = join sep (map print_nat values)

unfoldable pub ja3_raw : ℕ → List ℕ → List ℕ → List ℕ → List ℕ → Str
unfolding filter_grease16 join_uint16
ja3_raw version suites extensions curves formats = join (codes ",") (
    print_nat version
    ∷ join_uint16 (filter_grease16 suites) (codes "-")
    ∷ join_uint16 (filter_grease16 extensions) (codes "-")
    ∷ join_uint16 (filter_grease16 curves) (codes "-")
    ∷ join_uint16 formats (codes "-")
    ∷ [])

-- The result for a browser of the database, and for none.
abbrev pub ja3_result : Str → Str → ℕ → Option BrowserInfo → Ja3Result
ja3_result hash raw version none = record {
  hash = hash;
  raw = raw;
  tls_version = version;
  known = false;
  browser_id = [];
  trust_score = 0;
}
ja3_result hash raw version (some info) = record {
  hash = hash;
  raw = raw;
  tls_version = version;
  known = true;
  browser_id = info.name;
  trust_score = info.trust_score;
}

unfoldable pub ja3 :
    (Str → Str) → Dict BrowserInfo → ℕ → List ℕ → List ℕ → List ℕ → List ℕ → Ja3Result
unfolding ja3_raw lookup
ja3 md5 known_ja3 version suites extensions curves formats =
    let raw = ja3_raw version suites extensions curves formats in
    ja3_result (md5 raw) raw version (lookup (md5 raw) known_ja3)

unfoldable pub truncated_hash : (Str → Str) → Str → ℕ → Str
truncated_hash md5 input size =
    if ltb size (length (md5 input)) then take size (md5 input) else md5 input

-- `sort.Slice` by the order of the numbers.
unfoldable pub insert_sorted : ℕ → List ℕ → List ℕ
insert_sorted x [] = x ∷ []
insert_sorted x (y ∷ ys) = if leb x y then x ∷ y ∷ ys else y ∷ insert_sorted x ys

unfoldable pub sort : List ℕ → List ℕ
unfolding insert_sorted
sort [] = []
sort (x ∷ xs) = insert_sorted x (sort xs)

-- `%02d`
unfoldable pub two_digits : ℕ → Str
unfolding print_nat
two_digits n = if ltb n 10 then b'0' ∷ print_nat n else print_nat n

abbrev pub proto_code : Str → Str
proto_code proto = if str_eq proto (codes "quic") then codes "q" else codes "t"

abbrev pub version_code : ℕ → Str
version_code v =
    if v == 0x0304
    then codes "13"
    else if v == 0x0303
    then codes "12"
    else if v == 0x0302
    then codes "11"
    else if v == 0x0301
    then codes "10"
    else codes "00"

-- The first two bytes of the protocol; `none` is the panic of `alpn[:2]` on a name of one byte.
abbrev pub alpn_code : Str → Option Str
alpn_code [] = some (codes "00")
alpn_code (a ∷ []) = none
alpn_code (a ∷ b ∷ s) = some (a ∷ b ∷ [])

-- The parts up to the two hashes.
abbrev pub ja4_head : Str → ℕ → Str → List ℕ → List ℕ → Str → List Str
ja4_head proto version sni suites extensions alpn =
    proto_code proto
    ∷ version_code version
    ∷ (if is_empty sni then codes "i" else codes "d")
    ∷ two_digits (length suites)
    ∷ two_digits (length extensions)
    ∷ alpn
    ∷ []

abbrev pub ja4_result : List Str → Str → Str → Str → Str → Ja4Result
ja4_result head version sni suites_hash extensions_hash = record {
  hash = join [] head ++ (codes "_" ++ (suites_hash ++ (codes "_" ++ extensions_hash)));
  raw = join (codes "_") (head ++ suites_hash ∷ extensions_hash ∷ []);
  tls_version = version;
  sni = sni;
  known = false;
  trust_score = 0;
}

-- From the first two bytes of the protocol on, with the lists free of GREASE values.
unfoldable pub ja4_filtered :
    (Str → Str) → Str → ℕ → Str → List ℕ → List ℕ → Option Str → Option Ja4Result
unfolding two_digits join join_uint16 sort truncated_hash
ja4_filtered md5 proto version sni cs ext none = none
ja4_filtered md5 proto version sni cs ext (some alpn) = some (
    ja4_result (ja4_head proto version sni cs ext alpn) (version_code version) sni
      (truncated_hash md5 (join_uint16 (sort cs) (codes ",")) 12)
      (truncated_hash md5 (join_uint16 (sort ext) (codes ",")) 12))

-- The source reads `sigAlgs` nowhere.
unfoldable pub ja4 : (Str → Str) → Str → ℕ → Str → List ℕ → List ℕ → List ℕ → Str → Option Ja4Result
unfolding ja4_filtered filter_grease16
ja4 md5 proto version sni suites extensions sig_algs alpn =
    ja4_filtered md5 proto version sni (filter_grease16 suites) (filter_grease16 extensions)
      (alpn_code alpn)

-- fingerprint/tls_parser.go: the fingerprints of a parsed ClientHello.
unfoldable pub compute_ja3_from_client_hello :
    (Str → Str) → Dict BrowserInfo → ClientHelloInfo → Ja3Result
unfolding ja3
compute_ja3_from_client_hello md5 known_ja3 info =
    ja3 md5 known_ja3 info.tls_version info.cipher_suites info.extensions info.elliptic_curves
      info.ec_point_formats

abbrev pub first_alpn : List Str → Str
first_alpn [] = []
first_alpn (a ∷ _) = a

unfoldable pub compute_ja4_from_client_hello : (Str → Str) → ClientHelloInfo → Option Ja4Result
unfolding ja4
compute_ja4_from_client_hello md5 info =
    ja4 md5 (codes "tcp") info.tls_version info.server_name info.cipher_suites info.extensions
      info.signature_algs (first_alpn info.alpn)

unfoldable pub ja3_raw_string : (Str → Str) → ClientHelloInfo → Str
unfolding ja3_raw
ja3_raw_string md5 info =
    let raw =
      ja3_raw info.tls_version info.cipher_suites info.extensions info.elliptic_curves
        info.ec_point_formats in
    codes "JA3: " ++ (md5 raw ++ (codes " | Raw: " ++ raw))
