-- ===== src/Fingerprint/Rejection.antt =====
-- fingerprint/early_reject.go: which connections are rejected.
use mango_waf.Tls.{uint16_at}
use mango_waf.Fingerprint.Database.{lookup_ja3}
use mango_waf.Tls.Hello.{panicked, failed, Parsed, parsed, parse_client_hello}
use mango_waf.Fingerprint.Sniff.{
  read_conn, perform_sniff, full_with, full_fingerprint_from_raw, fingerprint_parsed, sniff_record,
  low_trust_tool, Sniffing, act_on_full, Conn, sniff_error, underlying,
}
use mango_waf.Fingerprint.{
  compute_ja4_from_client_hello, Ja4Result, Ja3Result, compute_ja3_from_client_hello,
  ClientHelloInfo, BrowserInfo,
}
use mango_waf.Common.Dict.{Dict}
use mango_waf.Common.Bytes.{Str}
use mango_waf.Common.{
  subst, get_or, min, ltb→lt, ℕ, some, ◌≡◌, ◌<◌, true, false, none, inl, inr, refl, Bool, Option,
  ◌+◌, ◌&&◌, ltb, ◌==◌, if◌then◌else◌, Bool-cases, arith, ap, sym, ◌∙◌,
}

-- The bytes that the sniff reads are a ClientHello whose JA3 the database lists with less than ten points.
pub record IsLowTrust (md5 : Str → Str) (known_ja3 : Dict BrowserInfo) (c : Conn) (header : Str)
    : Type 0 where
  pub asked : ℕ
  pub info : ClientHelloInfo
  pub browser : BrowserInfo
  pub arrived : c.header ≡ some header
  pub is_hello : parse_client_hello (c.peek asked).buffer (c.peek asked).len ≡ parsed info
  pub listed :
      lookup_ja3 (compute_ja3_from_client_hello md5 known_ja3 info).hash known_ja3 ≡ some browser
  pub low : browser.trust_score < 10

low_trust_tool-some :
    (o : Option BrowserInfo)
    → low_trust_tool o ≡ true
    → (browser : BrowserInfo) × (o ≡ some browser) × (browser.trust_score < 10)
low_trust_tool-some none h = cc
low_trust_tool-some (some info) h = (info, refl, ltb→lt _ _ h)

module _ (md5 : Str → Str) (known_ja3 : Dict BrowserInfo) (under_attack : Bool) (c : Conn) where
  -- What a rejection changes, and the test that it passed.
  abbrev Rejected : Ja3Result → Sniffing → Sniffing → Type 0
  Rejected ja3 s s' =
      (under_attack ≡ true)
      × (low_trust_tool (lookup_ja3 ja3.hash known_ja3) ≡ true)
      × (s'.closed ≡ true)
      × (s'.total_rejected ≡ s.total_rejected + 1)

  act_on_full_with-Rejected :
      (info : ClientHelloInfo) (ja3 : Ja3Result) (o : Option Ja4Result) (s : Sniffing)
      → s.sniff_err ≡ false
      → (act_on_full md5 known_ja3 under_attack c (full_with info ja3 o) s).sniff_err ≡ true
      → Rejected ja3 s (act_on_full md5 known_ja3 under_attack c (full_with info ja3 o) s)
  unfolding act_on_full
  act_on_full_with-Rejected info ja3 none s h e = cc
  act_on_full_with-Rejected info ja3 (some ja4) s h e = ground arith

  act_on_parsed-Rejected :
      (p : Parsed) (s : Sniffing)
      → s.sniff_err ≡ false
      → (act_on_full md5 known_ja3 under_attack c (fingerprint_parsed md5 known_ja3 p) s).sniff_err
        ≡ true
      → (info : ClientHelloInfo) × (p ≡ parsed info)
        × Rejected
            (compute_ja3_from_client_hello md5 known_ja3 info)
            s
            (act_on_full md5 known_ja3 under_attack c (fingerprint_parsed md5 known_ja3 p) s)
  unfolding fingerprint_parsed act_on_full
  act_on_parsed-Rejected panicked s h e = cc
  act_on_parsed-Rejected failed s h e = cc
  act_on_parsed-Rejected (parsed info) s h e =
      (info, refl, act_on_full_with-Rejected info _ (compute_ja4_from_client_hello md5 info) s h e)

  -- The outcome of a sniff that rejects.
  abbrev pub Explained : Sniffing → Sniffing → Type 0
  Explained s s' =
      (under_attack ≡ true)
      × (s'.closed ≡ true)
      × (s'.total_rejected ≡ s.total_rejected + 1)
      × ((header : Str) × IsLowTrust md5 known_ja3 c header)

  act-Explained :
      (header : Str) (asked : ℕ) (s : Sniffing)
      → c.header ≡ some header
      → s.sniff_err ≡ false
      → (act_on_full md5 known_ja3 under_attack c
          (full_fingerprint_from_raw md5 known_ja3 (c.peek asked).buffer (c.peek asked).len)
          s).sniff_err
        ≡ true
      → Explained s (
          act_on_full md5 known_ja3 under_attack c
            (full_fingerprint_from_raw md5 known_ja3 (c.peek asked).buffer (c.peek asked).len)
            s)
  unfolding full_fingerprint_from_raw
  act-Explained header asked s arrived h e =
      let (info, is_hello, (attack, tool, shut, counted)) =
        act_on_parsed-Rejected (parse_client_hello (c.peek asked).buffer (c.peek asked).len) s h
          e in
      let (browser, listed, low) = low_trust_tool-some _ tool in
      (
        attack,
        shut,
        counted,
        (
          header,
          record {
            asked = asked;
            info = info;
            browser = browser;
            arrived = arrived;
            is_hello = is_hello;
            listed = listed;
            low = low;
          },
        ),
      )

  sniff_record-Explained :
      (header : Str) (s : Sniffing)
      → c.header ≡ some header
      → s.sniff_err ≡ false
      → (sniff_record md5 known_ja3 under_attack c header s).sniff_err ≡ true
      → Explained s (sniff_record md5 known_ja3 under_attack c header s)
  unfolding sniff_record
  sniff_record-Explained header s arrived h e =
      let asked = min (uint16_at header 3 + 5) 2048 in
      elim (Bool-cases (
        get_or header 0 0 == 22
        && (ltb 0 (uint16_at header 3) && ltb (uint16_at header 3) 16384))) [
          | inr no_tls ↦ let e' : s.sniff_err ≡ true = rw no_tls at e in cc
          | inl tls ↦ elim (Bool-cases (c.peek asked).failed_read) [
            | inl bad ↦ let e' : s.sniff_err ≡ true = rw (tls, bad) at e in cc
            | inr fine ↦
                rw (tls, fine) (act-Explained header asked s arrived h (rw (tls, fine) at e))
          ]
        ]

  perform_sniff-Explained :
      (o : Option Str) (s : Sniffing)
      → c.header ≡ o
      → s.sniff_err ≡ false
      → (perform_sniff md5 known_ja3 under_attack c o s).sniff_err ≡ true
      → Explained s (perform_sniff md5 known_ja3 under_attack c o s)
  unfolding perform_sniff
  perform_sniff-Explained none s a h e = cc
  perform_sniff-Explained (some header) s a h e =
      sniff_record-Explained header (record s { buffered = true }) a h e

failed_sniff :
    (failing : Bool) (count : ℕ) (error : Option Str)
    → (if failing then sniff_error else underlying count error) ≡ sniff_error
    → failing ≡ true
failed_sniff true count error e = refl
failed_sniff false count error e = cc

-- A first read that returns the error of the sniff, and not what the underlying read returns, is a rejection under
-- attack of a connection whose first bytes are a ClientHello with a JA3 that the database lists with less
-- than ten points; the connection is closed and counted once.
pub read_conn-rejects :
    (md5 : Str → Str) (known_ja3 : Dict BrowserInfo) (under_attack : Bool) (c : Conn) (s : Sniffing)
    → s.sniffed ≡ false
    → s.sniff_err ≡ false
    → (read_conn md5 known_ja3 under_attack c s).0 ≡ sniff_error
    → Explained md5 known_ja3 under_attack c s (read_conn md5 known_ja3 under_attack c s).1
unfolding read_conn
read_conn-rejects md5 known_ja3 under_attack c s fresh h e =
    let started = record s { sniffed = true } in
    let outcome : Sniffing → Sniffing = λ s'. if s.sniffed then s else s' in
    let first : outcome (perform_sniff md5 known_ja3 under_attack c c.header started)
        ≡ perform_sniff md5 known_ja3 under_attack c c.header started =
      ap
        (λ (b : Bool). if b then s else perform_sniff md5 known_ja3 under_attack c c.header started)
        fresh in
    let failing = failed_sniff _ _ _ e in
    subst (Explained md5 known_ja3 under_attack c s) (sym first) (
      perform_sniff-Explained md5 known_ja3 under_attack c c.header started refl h
        (sym (ap (λ (s' : Sniffing). s'.sniff_err) first) ∙ failing))
