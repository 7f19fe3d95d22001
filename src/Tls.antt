-- ===== src/Tls.antt =====
-- fingerprint/tls_parser.go: what a TLS ClientHello tells about a client, by extension and as a whole.
pub mod Extensions
pub mod Hello
pub mod Slices
pub mod Roundtrip
pub mod Versions
mod Tests
use mango_waf.Common.{ℕ, ◌+◌, ◌*◌, List, get_or}
use mango_waf.Common.Bytes.{Str}

-- `ClientHelloInfo`
pub record ClientHelloInfo : Type 0 where
  pub tls_version : ℕ
  pub cipher_suites : List ℕ
  pub extensions : List ℕ
  pub elliptic_curves : List ℕ
  pub ec_point_formats : List ℕ
  pub signature_algs : List ℕ
  pub alpn : List Str
  pub server_name : Str
  pub supported_versions : List ℕ

-- `binary.BigEndian.Uint16`
abbrev pub uint16 : ℕ → ℕ → ℕ
uint16 high low = high * 256 + low

-- A read at a position that the source has checked.
abbrev pub uint16_at : Str → ℕ → ℕ
uint16_at bytes i = uint16 (get_or bytes i 0) (get_or bytes (i + 1) 0)
