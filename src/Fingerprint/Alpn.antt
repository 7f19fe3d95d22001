-- ===== src/Fingerprint/Alpn.antt =====
-- fingerprint/fingerprint.go: the slice `alpn[:2]` of JA4.
use mango_waf.Fingerprint.{
  filter_grease16, codes, first_alpn, alpn_code, ClientHelloInfo, Str, ja4, ja4_filtered,
  compute_ja4_from_client_hello,
}
use mango_waf.Common.{ℕ, none, [], ◌∷◌, refl, List, ◌≡◌, length, arith, ◌↔◌}

ja4_filtered-none :
    (md5 : Str → Str) (proto : Str) (version : ℕ) (sni : Str) (cs ext : List ℕ) (alpn : Str)
    → (ja4_filtered md5 proto version sni cs ext (alpn_code alpn) ≡ none) ↔ (length alpn ≡ 1)
unfolding ja4_filtered
ja4_filtered-none md5 proto version sni cs ext [] = (λ e. cc e, λ e. absurd (omega (arith, e)))
ja4_filtered-none md5 proto version sni cs ext (a ∷ []) = (λ e. refl, λ e. refl)
ja4_filtered-none md5 proto version sni cs ext (a ∷ b ∷ s) =
    (λ e. cc e, λ e. absurd (omega (arith, e)))

-- JA4 panics exactly on the clients whose first protocol has a name of one byte.
pub compute_ja4_from_client_hello-none :
    (md5 : Str → Str) (info : ClientHelloInfo)
    → (compute_ja4_from_client_hello md5 info ≡ none) ↔ (length (first_alpn info.alpn) ≡ 1)
unfolding compute_ja4_from_client_hello ja4
compute_ja4_from_client_hello-none md5 info =
    ja4_filtered-none md5 (codes "tcp") info.tls_version info.server_name
      (filter_grease16 info.cipher_suites) (filter_grease16 info.extensions) (first_alpn info.alpn)
