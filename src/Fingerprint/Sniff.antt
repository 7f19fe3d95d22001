-- ===== src/Fingerprint/Sniff.antt =====
-- fingerprint/early_reject.go: the look at a connection's first bytes, and `FullFingerprintFromRaw` of
-- fingerprint/tls_parser.go. What the buffered reader shows and what a read returns are part of the connection.
use mango_waf.Common.{
  ℕ, ◌+◌, Bool, true, false, ◌&&◌, Option, none, some, ltb, ◌==◌, if◌then◌else◌, get_or, min,
}
use mango_waf.Common.Bytes.{Str}
use mango_waf.Common.Dict.{Dict}
use mango_waf.Tls.{ClientHelloInfo, uint16_at}
use mango_waf.Tls.Hello.{Parsed, panicked, failed, parsed, parse_client_hello}
use mango_waf.Fingerprint.{
  BrowserInfo, Ja3Result, Ja4Result, compute_ja3_from_client_hello, compute_ja4_from_client_hello,
}
use mango_waf.Fingerprint.Database.{lookup_ja3}
use mango_waf.Fingerprint.Store.{FingerprintStore, new_entry, store}

-- `FullFingerprint`, less the fields that no code fills; `crashed` is a panic.
pub data Full : Type 0 where
  crashed no_hello : Full
  full : ClientHelloInfo → Ja3Result → Ja4Result → Full

abbrev pub full_with : ClientHelloInfo → Ja3Result → Option Ja4Result → Full
full_with info ja3 none = crashed
full_with info ja3 (some ja4) = full info ja3 ja4

unfoldable pub fingerprint_parsed : (Str → Str) → Dict BrowserInfo → Parsed → Full
unfolding compute_ja3_from_client_hello compute_ja4_from_client_hello
fingerprint_parsed md5 known_ja3 panicked = crashed
fingerprint_parsed md5 known_ja3 failed = no_hello
fingerprint_parsed md5 known_ja3 (parsed info) =
    full_with info (compute_ja3_from_client_hello md5 known_ja3 info)
      (compute_ja4_from_client_hello md5 info)

unfoldable pub full_fingerprint_from_raw : (Str → Str) → Dict BrowserInfo → Str → ℕ → Full
unfolding fingerprint_parsed parse_client_hello
full_fingerprint_from_raw md5 known_ja3 array len =
    fingerprint_parsed md5 known_ja3 (parse_client_hello array len)

-- `Peek`: the buffer from its first byte on, how many bytes of it were asked for and are there, and whether the
-- error is one other than the end of the stream.
pub record Peeked : Type 0 where
  pub buffer : Str
  pub len : ℕ
  pub failed_read : Bool

pub record Conn : Type 0 where
  pub remote_addr : Str
  -- `none` when fewer than five bytes came, and whether any are buffered
  pub header : Option Str
  pub has_buffered : Bool
  pub peek : ℕ → Peeked
  -- `Read`, of the buffered reader where the flag is set: how many bytes came, and its error
  pub read : Bool → ℕ × Option Str

-- What a `Read` returns: the error of the sniff, or what the underlying `Read` returns.
pub data ReadResult : Type 0 where
  sniff_error : ReadResult
  underlying : (count : ℕ) (error : Option Str) → ReadResult

-- `SniffingConn` with what it shares: the store and the count of rejections.
pub record Sniffing : Type 0 where
  pub sniffed : Bool
  pub buffered : Bool
  pub sniff_err : Bool
  pub closed : Bool
  pub panicking : Bool
  pub kept : FingerprintStore
  pub total_rejected : ℕ

abbrev pub low_trust_tool : Option BrowserInfo → Bool
low_trust_tool none = false
low_trust_tool (some info) = ltb info.trust_score 10

module _ (md5 : Str → Str) (known_ja3 : Dict BrowserInfo) (under_attack : Bool) (c : Conn) where
  -- What is done with the fingerprint.
  unfoldable pub act_on_full : Full → Sniffing → Sniffing
  unfolding store lookup_ja3
  act_on_full crashed s = record s { panicking = true }
  act_on_full no_hello s = s
  act_on_full (full info ja3 ja4) s =
      let stored = record s {
        kept = store c.remote_addr (new_entry c.remote_addr ja3 info ja4) s.kept;
      } in
      if under_attack && low_trust_tool (lookup_ja3 ja3.hash known_ja3)
      then record stored { total_rejected = s.total_rejected + 1; closed = true; sniff_err = true }
      else stored

  unfoldable pub sniff_record : Str → Sniffing → Sniffing
  unfolding act_on_full full_fingerprint_from_raw
  sniff_record header s =
      let record_len = uint16_at header 3 in
      let p = c.peek (min (record_len + 5) 2048) in
      if get_or header 0 0 == 22 && (ltb 0 record_len && ltb record_len 16384)
      then (if p.failed_read
          then s
          else act_on_full (full_fingerprint_from_raw md5 known_ja3 p.buffer p.len) s)
      else s

  unfoldable pub perform_sniff : Option Str → Sniffing → Sniffing
  unfolding sniff_record
  perform_sniff none s = record s { buffered = c.has_buffered }
  perform_sniff (some header) s = sniff_record header (record s { buffered = true })

  unfoldable pub read_conn : Sniffing → ReadResult × Sniffing
  unfolding perform_sniff
  read_conn s =
      let s' = if s.sniffed then s else perform_sniff c.header (record s { sniffed = true }) in
      let (count, error) = c.read s'.buffered in
      (if s'.sniff_err then sniff_error else underlying count error, s')
