-- ===== src/Fingerprint/Overwrite.antt =====
-- fingerprint/interceptor.go: the callback of the TLS stack after the sniff of the same connection.
use mango_waf.Fingerprint.Alpn.{compute_ja4_from_client_hello-none}
use mango_waf.Tls.Hello.{max_version}
use mango_waf.Common.Dict.{lookup-insert}
use mango_waf.Common.Bytes.{str_eq_refl, Str}
use mango_waf.Fingerprint.{
  compute_ja4_from_client_hello, ja3, first_alpn, BrowserInfo, Ja4Result, Dict,
  compute_ja3_from_client_hello,
}
use mango_waf.Fingerprint.Store.{
  new_entry, with_ja4, ConnectionFingerprint, StdHello, FingerprintStore, lookup_fp, convert_hello,
  extract_from_stdlib_hello, store, store_extracted, intercept,
}
use mango_waf.Common.{none, some, [], refl, Option, ◌≡◌, length, ◌∙◌, ◌≢◌}

stored_entry :
    (addr : Str) (fs : FingerprintStore) (build : Ja4Result → ConnectionFingerprint)
    (o : Option Ja4Result)
    → o ≢ none
    → (ja4 : Ja4Result) × (store_extracted addr fs (with_ja4 build o)
        ≡ some (store addr (build ja4) fs))
      × (lookup_fp addr (store addr (build ja4) fs) ≡ some (build ja4))
unfolding store_extracted store lookup_fp
stored_entry addr fs build none h = absurd (h refl)
stored_entry addr fs build (some ja4) h =
    (ja4, refl, lookup-insert addr addr (build ja4) fs.cache ∙ rw (str_eq_refl addr))

-- Whatever was stored for the connection before, the callback leaves an entry whose JA3 is that of a hello with
-- no extension at all, where the first protocol has not a name of one byte.
pub intercept-no_extensions :
    (md5 : Str → Str) (known_ja3 : Dict BrowserInfo) (hello : StdHello) (fs : FingerprintStore)
    → length (first_alpn hello.supported_protos) ≢ 1
    → (fs' : FingerprintStore) × (fp : ConnectionFingerprint) × (intercept md5 known_ja3 hello fs
        ≡ some fs')
      × (lookup_fp hello.remote_addr fs' ≡ some fp)
      × (fp.ja3
          ≡ ja3 md5 known_ja3
              (max_version 0 hello.supported_versions)
              hello.cipher_suites
              []
              hello.supported_curves
              hello.supported_points)
unfolding intercept extract_from_stdlib_hello convert_hello compute_ja3_from_client_hello
intercept-no_extensions md5 known_ja3 hello fs h =
    let info = convert_hello hello in
    let (ja4, stored, found) =
      stored_entry hello.remote_addr fs
        (new_entry hello.remote_addr (compute_ja3_from_client_hello md5 known_ja3 info) info)
        (compute_ja4_from_client_hello md5 info)
        (λ e. h ((compute_ja4_from_client_hello-none md5 info).0 e)) in
    (
      store hello.remote_addr
          (new_entry hello.remote_addr (compute_ja3_from_client_hello md5 known_ja3 info) info ja4)
          fs,
      new_entry hello.remote_addr (compute_ja3_from_client_hello md5 known_ja3 info) info ja4,
      stored,
      found,
      refl,
    )
