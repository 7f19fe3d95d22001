-- ===== src/Fingerprint/Reach.antt =====
-- fingerprint/interceptor.go and fingerprint/early_reject.go: what the store of fingerprints can hold.
use mango_waf.Tls.{uint16_at}
use mango_waf.Fingerprint.Database.{lookup_ja3}
use mango_waf.Tls.Hello.{parse_client_hello, panicked, failed, parsed, parsed, Parsed}
use mango_waf.Fingerprint.Sniff.{
  crashed, no_hello, full, low_trust_tool, full_with, full_fingerprint_from_raw, full, sniff_record,
  act_on_full, Full, fingerprint_parsed, perform_sniff, read_conn, Sniffing, Conn,
}
use mango_waf.Fingerprint.{
  first_alpn, alpn_code, filter_grease16, ja4, Ja3Result, ja4_filtered,
  compute_ja4_from_client_hello, ja3_result, ja3, Ja4Result, ClientHelloInfo,
  compute_ja3_from_client_hello, BrowserInfo,
}
use mango_waf.Common.Dict.{delete-Values, insert-Values, lookup-Values, OnSome, Dict, Values}
use mango_waf.Common.Bytes.{codes, Str}
use mango_waf.Fingerprint.Store.{
  convert_hello, scored, lookup_fp, score_entry, store_extracted, extract_from_stdlib_hello, store,
  cleanup_fp, remove_fp, get_composite_for_request, intercept, StdHello, new_entry, with_ja4,
  new_fingerprint_store, ConnectionFingerprint, evict_some, FingerprintStore,
}
use mango_waf.Common.{
  get_or, min, subst, ◌/◌, some, false, true, Bool, Option, ℕ, ◌≡◌, none, [], ◌∷◌, inl, inr, refl,
  ◌+◌, leb, length, Bool-cases, List, ◌&&◌, ltb, ◌==◌, sym,
}
use mango_waf.Fingerprint.Trust.{fair, IsFair, IsPlain}

ja3_result-fair :
    (hash raw : Str) (version : ℕ) (o : Option BrowserInfo)
    → OnSome IsFair o
    → fair (ja3_result hash raw version o).trust_score ≡ true
ja3_result-fair hash raw version none h = refl
ja3_result-fair hash raw version (some info) h = h

-- One change of the store, by the code that has it.
pub data Step (md5 : Str → Str) (known_ja3 : Dict BrowserInfo)
    : FingerprintStore → FingerprintStore → Type 0 where
  sniffed :
      (under_attack : Bool) (c : Conn) (s : Sniffing) {fs fs' : FingerprintStore}
      → s.kept ≡ fs
      → (read_conn md5 known_ja3 under_attack c s).1.kept ≡ fs'
      → Step md5 known_ja3 fs fs'
  intercepted :
      (hello : StdHello) {fs fs' : FingerprintStore}
      → intercept md5 known_ja3 hello fs ≡ some fs'
      → Step md5 known_ja3 fs fs'
  asked :
      (addr ua : Str) {fs fs' : FingerprintStore}
      → (get_composite_for_request addr ua fs).1 ≡ fs'
      → Step md5 known_ja3 fs fs'
  dropped :
      (addr : Str) {fs fs' : FingerprintStore} → remove_fp addr fs ≡ fs' → Step md5 known_ja3 fs fs'
  cleaned :
      (max_entries : ℕ) {fs fs' : FingerprintStore}
      → cleanup_fp max_entries fs ≡ fs'
      → Step md5 known_ja3 fs fs'

pub data Reach (md5 : Str → Str) (known_ja3 : Dict BrowserInfo) : FingerprintStore → Type 0 where
  start : Reach md5 known_ja3 new_fingerprint_store
  next :
      {fs fs' : FingerprintStore}
      → Reach md5 known_ja3 fs
      → Step md5 known_ja3 fs fs'
      → Reach md5 known_ja3 fs'

abbrev pub ArePlain : FingerprintStore → Type 0
ArePlain fs = Values IsPlain fs.cache

evict_some-ArePlain :
    (count : ℕ) (cache : Dict ConnectionFingerprint)
    → Values IsPlain cache
    → Values IsPlain (evict_some count cache)
unfolding evict_some
evict_some-ArePlain count [] h = h
evict_some-ArePlain count ((k, fp) ∷ cache) h =
    elim (Bool-cases (leb (length cache / 2) (count + 1))) [
      | inl e ↦ rw e h.1
      | inr e ↦ rw e (evict_some-ArePlain (count + 1) cache h.1)
    ]

module _ (md5 : Str → Str) (known_ja3 : Dict BrowserInfo) (f : Values IsFair known_ja3) where
  compute_ja3-fair :
      (info : ClientHelloInfo)
      → fair (compute_ja3_from_client_hello md5 known_ja3 info).trust_score ≡ true
  unfolding compute_ja3_from_client_hello ja3
  compute_ja3-fair info = ja3_result-fair _ _ _ _ (lookup-Values IsFair _ known_ja3 f)

  with_ja4-IsPlain :
      (addr : Str) (info : ClientHelloInfo) (o : Option Ja4Result)
      → OnSome (λ (r : Ja4Result). r.known ≡ false) o
      → OnSome IsPlain
          (with_ja4 (new_entry addr (compute_ja3_from_client_hello md5 known_ja3 info) info) o)
  with_ja4-IsPlain addr info none h = tt
  with_ja4-IsPlain addr info (some ja4) h = record {
    ja3_fair = compute_ja3-fair info;
    ja4_unknown = h;
    h2_unknown = refl;
  }

ja4_filtered-unknown :
    (md5 : Str → Str) (proto : Str) (version : ℕ) (sni : Str) (cs ext : List ℕ) (alpn : Option Str)
    → OnSome (λ (r : Ja4Result). r.known ≡ false) (ja4_filtered md5 proto version sni cs ext alpn)
unfolding ja4_filtered
ja4_filtered-unknown md5 proto version sni cs ext none = tt
ja4_filtered-unknown md5 proto version sni cs ext (some alpn) = refl

compute_ja4-unknown :
    (md5 : Str → Str) (info : ClientHelloInfo)
    → OnSome (λ (r : Ja4Result). r.known ≡ false) (compute_ja4_from_client_hello md5 info)
unfolding compute_ja4_from_client_hello ja4
compute_ja4-unknown md5 info =
    ja4_filtered-unknown md5 (codes "tcp") info.tls_version info.server_name
      (filter_grease16 info.cipher_suites) (filter_grease16 info.extensions)
      (alpn_code (first_alpn info.alpn))

abbrev PlainFull : Full → Type 0
PlainFull crashed = Unit
PlainFull no_hello = Unit
PlainFull (full info ja3 ja4) = (fair ja3.trust_score ≡ true) × (ja4.known ≡ false)

full_with-PlainFull :
    (info : ClientHelloInfo) (ja3 : Ja3Result) (o : Option Ja4Result)
    → fair ja3.trust_score ≡ true
    → OnSome (λ (r : Ja4Result). r.known ≡ false) o
    → PlainFull (full_with info ja3 o)
full_with-PlainFull info ja3 none h k = tt
full_with-PlainFull info ja3 (some ja4) h k = (h, k)

module _ (md5 : Str → Str) (known_ja3 : Dict BrowserInfo) (f : Values IsFair known_ja3) where
  fingerprint_parsed-PlainFull : (p : Parsed) → PlainFull (fingerprint_parsed md5 known_ja3 p)
  unfolding fingerprint_parsed
  fingerprint_parsed-PlainFull panicked = tt
  fingerprint_parsed-PlainFull failed = tt
  fingerprint_parsed-PlainFull (parsed info) =
      full_with-PlainFull info _ (compute_ja4_from_client_hello md5 info)
        (compute_ja3-fair md5 known_ja3 f info) (compute_ja4-unknown md5 info)

  module _ (under_attack : Bool) (c : Conn) where
    act_on_full-ArePlain :
        (x : Full) (s : Sniffing)
        → PlainFull x
        → ArePlain s.kept
        → ArePlain (act_on_full md5 known_ja3 under_attack c x s).kept
    unfolding act_on_full store
    act_on_full-ArePlain crashed s h a = a
    act_on_full-ArePlain no_hello s h a = a
    act_on_full-ArePlain (full info ja3 ja4) s (h, k) a =
        let stored =
          insert-Values IsPlain c.remote_addr (new_entry c.remote_addr ja3 info ja4) s.kept.cache
            (record { ja3_fair = h; ja4_unknown = k; h2_unknown = refl }) a in
        elim (Bool-cases (under_attack && low_trust_tool (lookup_ja3 ja3.hash known_ja3))) [
          | inl e ↦ rw e stored
          | inr e ↦ rw e stored
        ]

    sniff_record-ArePlain :
        (header : Str) (s : Sniffing)
        → ArePlain s.kept
        → ArePlain (sniff_record md5 known_ja3 under_attack c header s).kept
    unfolding sniff_record full_fingerprint_from_raw
    sniff_record-ArePlain header s a =
        let p = c.peek (min (uint16_at header 3 + 5) 2048) in
        elim (Bool-cases (
          get_or header 0 0 == 22
          && (ltb 0 (uint16_at header 3) && ltb (uint16_at header 3) 16384))) [
            | inr e ↦ rw e a
            | inl e ↦ rw e (elim (Bool-cases p.failed_read) [
              | inl e' ↦ rw e' a
              | inr e' ↦ rw e' (
                  act_on_full-ArePlain _ s
                    (fingerprint_parsed-PlainFull (parse_client_hello p.buffer p.len)) a)
            ])
          ]

    perform_sniff-ArePlain :
        (o : Option Str) (s : Sniffing)
        → ArePlain s.kept
        → ArePlain (perform_sniff md5 known_ja3 under_attack c o s).kept
    unfolding perform_sniff
    perform_sniff-ArePlain none s a = a
    perform_sniff-ArePlain (some header) s a =
        sniff_record-ArePlain header (record s { buffered = true }) a

    read_conn-ArePlain :
        (s : Sniffing)
        → ArePlain s.kept
        → ArePlain (read_conn md5 known_ja3 under_attack c s).1.kept
    unfolding read_conn
    read_conn-ArePlain s a = elim (Bool-cases s.sniffed) [
      | inl e ↦ rw e a
      | inr e ↦ rw e (perform_sniff-ArePlain c.header (record s { sniffed = true }) a)
    ]

  store_extracted-ArePlain :
      (addr : Str) (fs : FingerprintStore) (o : Option ConnectionFingerprint)
      → OnSome IsPlain o
      → ArePlain fs
      → OnSome ArePlain (store_extracted addr fs o)
  unfolding store_extracted store
  store_extracted-ArePlain addr fs none h a = tt
  store_extracted-ArePlain addr fs (some fp) h a = insert-Values IsPlain addr fp fs.cache h a

  score_entry-ArePlain :
      (addr ua : Str) (fs : FingerprintStore) (o : Option ConnectionFingerprint)
      → OnSome IsPlain o
      → ArePlain fs
      → ArePlain (score_entry addr ua fs o).1
  unfolding score_entry
  score_entry-ArePlain addr ua fs none h a = a
  score_entry-ArePlain addr ua fs (some fp) h a =
      insert-Values IsPlain addr (scored ua fp) fs.cache
        (record { ja3_fair = h.ja3_fair; ja4_unknown = h.ja4_unknown; h2_unknown = h.h2_unknown }) a

  Step-ArePlain :
      {fs fs' : FingerprintStore} → Step md5 known_ja3 fs fs' → ArePlain fs → ArePlain fs'
  unfolding intercept extract_from_stdlib_hello get_composite_for_request lookup_fp remove_fp
      cleanup_fp
  Step-ArePlain (sniffed under_attack c s e e') a =
      subst ArePlain e' (read_conn-ArePlain under_attack c s (subst ArePlain (sym e) a))
  Step-ArePlain (intercepted hello {fs} e) a = subst (OnSome ArePlain) e (
      store_extracted-ArePlain hello.remote_addr fs _
        (with_ja4-IsPlain md5 known_ja3 f hello.remote_addr (convert_hello hello)
          (compute_ja4_from_client_hello md5 (convert_hello hello))
          (compute_ja4-unknown md5 (convert_hello hello)))
        a)
  Step-ArePlain (asked addr ua {fs} e) a =
      subst ArePlain e (score_entry-ArePlain addr ua fs _ (lookup-Values IsPlain addr fs.cache a) a)
  Step-ArePlain (dropped addr {fs} e) a = subst ArePlain e (delete-Values IsPlain addr fs.cache a)
  Step-ArePlain (cleaned max_entries {fs} e) a =
      subst ArePlain e (elim (Bool-cases (ltb max_entries (length fs.cache))) [
        | inl big ↦ rw big (evict_some-ArePlain 0 fs.cache a)
        | inr small ↦ rw small a
      ])

  pub Reach-ArePlain : {fs : FingerprintStore} → Reach md5 known_ja3 fs → ArePlain fs
  Reach-ArePlain start = tt
  Reach-ArePlain (next r st) = Step-ArePlain st (Reach-ArePlain r)
