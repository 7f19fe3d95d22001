-- ===== src/Fingerprint/Store.antt =====
-- fingerprint/interceptor.go: the fingerprints of the connections, and what the TLS stack's callback
-- stores in them. The map holds pointers: a request updates the entry that it returns.
use mango_waf.Common.{
  ℕ, ◌+◌, ◌/◌, Bool, false, Option, none, some, List, [], ◌∷◌, ltb, leb, if◌then◌else◌, length,
}
use mango_waf.Common.Bytes.{Str}
use mango_waf.Common.Dict.{Dict, lookup, insert, delete}
use mango_waf.Http2.{H2Fingerprint}
use mango_waf.Tls.{ClientHelloInfo}
use mango_waf.Tls.Hello.{empty_info, max_version}
use mango_waf.Fingerprint.{
  BrowserInfo, Ja3Result, Ja4Result, compute_ja3_from_client_hello, compute_ja4_from_client_hello,
}
use mango_waf.Fingerprint.Composite.{CompositeScore, calculate_composite}

pub record ConnectionFingerprint : Type 0 where
  pub remote_addr : Str
  pub ja3 : Ja3Result
  pub ja4 : Ja4Result
  pub h2 : H2Fingerprint
  pub composite : CompositeScore
  pub user_agent : Str
  pub raw : ClientHelloInfo

-- Go's zero values.
abbrev pub no_h2 : H2Fingerprint
no_h2 = record {
  settings_order = [];
  window_update = 0;
  priority_frames = [];
  hash = [];
  known = false;
  trust_score = 0;
}

abbrev pub no_composite : CompositeScore
no_composite = record {
  ja3_score = 0;
  ja4_score = 0;
  h2_score = 0;
  ua_score = 0;
  total = 0;
  verdict = [];
}

pub record FingerprintStore : Type 0 where
  pub cache : Dict ConnectionFingerprint

abbrev pub new_fingerprint_store : FingerprintStore
new_fingerprint_store = record { cache = [] }

unfoldable pub store : Str → ConnectionFingerprint → FingerprintStore → FingerprintStore
unfolding insert
store addr fp fs = record fs { cache = insert addr fp fs.cache }

unfoldable pub lookup_fp : Str → FingerprintStore → Option ConnectionFingerprint
unfolding lookup
lookup_fp addr fs = lookup addr fs.cache

unfoldable pub remove_fp : Str → FingerprintStore → FingerprintStore
unfolding delete
remove_fp addr fs = record fs { cache = delete addr fs.cache }

unfoldable pub size : FingerprintStore → ℕ
size fs = length fs.cache

-- The range that deletes: its test reads the length of the map as it shrinks.
unfoldable pub evict_some : ℕ → Dict ConnectionFingerprint → Dict ConnectionFingerprint
evict_some count [] = []
evict_some count (e ∷ cache) =
    if leb (length cache / 2) (count + 1) then cache else evict_some (count + 1) cache

unfoldable pub cleanup_fp : ℕ → FingerprintStore → FingerprintStore
unfolding evict_some
cleanup_fp max_entries fs =
    if ltb max_entries (length fs.cache) then record fs { cache = evict_some 0 fs.cache } else fs

-- `tls.ClientHelloInfo` of Go's TLS stack, as far as it is read.
pub record StdHello : Type 0 where
  pub remote_addr : Str
  pub server_name : Str
  pub cipher_suites : List ℕ
  pub supported_versions : List ℕ
  pub supported_curves : List ℕ
  pub supported_points : List ℕ
  pub supported_protos : List Str
  pub signature_schemes : List ℕ

unfoldable pub convert_hello : StdHello → ClientHelloInfo
unfolding max_version
convert_hello hello = record empty_info {
  server_name = hello.server_name;
  cipher_suites = hello.cipher_suites;
  supported_versions = hello.supported_versions;
  tls_version = max_version 0 hello.supported_versions;
  elliptic_curves = hello.supported_curves;
  ec_point_formats = hello.supported_points;
  alpn = hello.supported_protos;
  signature_algs = hello.signature_schemes;
}

-- An entry without HTTP/2, score and User-Agent, and what its JA4 decides: `none` is its panic.
abbrev pub new_entry : Str → Ja3Result → ClientHelloInfo → Ja4Result → ConnectionFingerprint
new_entry addr ja3 info ja4 = record {
  remote_addr = addr;
  ja3 = ja3;
  ja4 = ja4;
  h2 = no_h2;
  composite = no_composite;
  user_agent = [];
  raw = info;
}

abbrev pub with_ja4 :
    (Ja4Result → ConnectionFingerprint) → Option Ja4Result → Option ConnectionFingerprint
with_ja4 build none = none
with_ja4 build (some ja4) = some (build ja4)

unfoldable pub store_extracted :
    Str → FingerprintStore → Option ConnectionFingerprint → Option FingerprintStore
unfolding store
store_extracted addr fs none = none
store_extracted addr fs (some fp) = some (store addr fp fs)

module _ (md5 : Str → Str) (known_ja3 : Dict BrowserInfo) where
  unfoldable pub extract_from_stdlib_hello : StdHello → Option ConnectionFingerprint
  unfolding convert_hello compute_ja3_from_client_hello compute_ja4_from_client_hello
  extract_from_stdlib_hello hello =
      let info = convert_hello hello in
      with_ja4 (new_entry hello.remote_addr (compute_ja3_from_client_hello md5 known_ja3 info) info)
        (compute_ja4_from_client_hello md5 info)

  -- The callback that `NewTLSInterceptor` installs, up to the configuration that it asks the former one for;
  -- `none` is the panic.
  unfoldable pub intercept : StdHello → FingerprintStore → Option FingerprintStore
  unfolding extract_from_stdlib_hello store_extracted
  intercept hello fs = store_extracted hello.remote_addr fs (extract_from_stdlib_hello hello)

-- The entry of a request, and the store in which it is updated.
abbrev pub scored : Str → ConnectionFingerprint → ConnectionFingerprint
scored ua fp = record fp { user_agent = ua; composite = calculate_composite fp.ja3 fp.ja4 fp.h2 ua }

unfoldable pub score_entry :
    Str
    → Str
    → FingerprintStore
    → Option ConnectionFingerprint
    → Option ConnectionFingerprint × FingerprintStore
unfolding insert calculate_composite
score_entry addr ua fs none = (none, fs)
score_entry addr ua fs (some fp) =
    (some (scored ua fp), record fs { cache = insert addr (scored ua fp) fs.cache })

unfoldable pub get_composite_for_request :
    Str → Str → FingerprintStore → Option ConnectionFingerprint × FingerprintStore
unfolding lookup_fp score_entry
get_composite_for_request addr ua fs = score_entry addr ua fs (lookup_fp addr fs)

unfoldable pub is_suspicious : ConnectionFingerprint → Bool
is_suspicious fp = ltb fp.composite.total 4000

unfoldable pub is_trusted : ConnectionFingerprint → Bool
is_trusted fp = leb 7500 fp.composite.total

unfoldable pub get_trust_level : ConnectionFingerprint → Str
get_trust_level fp = fp.composite.verdict
