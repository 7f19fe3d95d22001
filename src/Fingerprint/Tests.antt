-- ===== src/Fingerprint/Tests.antt =====
-- Runs of the fingerprints, and the theorems at concrete inputs.
use mathlib.Core.List.Perm
use mango_waf.Fingerprint.Reach.{Reach, intercepted}
use mango_waf.Fingerprint.Seeded.{init_known_browsers-IsFair}
use mango_waf.Fingerprint.FastTrack.{check_fingerprint-get_composite, attack_tool, zero_trust, seen}
use mango_waf.Fingerprint.Database.{init_known_browsers}
use mango_waf.Fingerprint.Grease.{done, keep_value, add_grease, ja3_ja4-Greased}
use mango_waf.Fingerprint.Order.{compute_ja4_from_client_hello-perm}
use mango_waf.Pipeline.Samples.{pipeline, attacker, request, engines, env_at}
use mango_waf.Tls.{ClientHelloInfo}
use mango_waf.Common.Bytes.{str_eq, codes, Str}
use mango_waf.Common.Dict.{Dict}
use mango_waf.Pipeline.Layers.{check_fingerprint}
use mango_waf.Tls.Hello.{empty_info, is_grease}
use mango_waf.Fingerprint.Rejection.{read_conn-rejects, Explained}
use mango_waf.Fingerprint.Store.{
  convert_hello, scored, new_entry, new_fingerprint_store, ConnectionFingerprint, intercept,
  StdHello, get_composite_for_request, FingerprintStore,
}
use mango_waf.Fingerprint.Sniff.{Conn, Sniffing, read_conn, sniff_error}
use mango_waf.Fingerprint.{
  ja4_result, BrowserInfo, compute_ja4_from_client_hello, compute_ja3_from_client_hello, ja3,
}
use mango_waf.Common.{
  value_or, ℕ, true, false, none, some, [], ◌∷◌, refl, List, ◌≡◌, ◌++◌, if◌then◌else◌, arith,
}

-- A stand-in for MD5 that gives the hash under which the database has curl.
abbrev curl_hash : Str → Str
curl_hash s = codes "6734f37431670b3ab4292b8f60f29984"

abbrev hello_info : ClientHelloInfo
hello_info = record empty_info {
  tls_version = 0x0303;
  cipher_suites = 4866 ∷ 4865 ∷ [];
  extensions = 10 ∷ 0 ∷ [];
  elliptic_curves = 29 ∷ [];
  alpn = codes "h2" ∷ [];
}

raw_printed :
    (ja3 (λ s. s) [] 771 (2570 ∷ 4866 ∷ []) (10 ∷ 0 ∷ []) (29 ∷ []) (0 ∷ [])).raw
    ≡ codes "771,4866,10-0,29,0"
unfolding ja3
raw_printed = refl

ja4_printed :
    compute_ja4_from_client_hello (λ s. s) hello_info
    ≡ some (record {
      hash = codes "t12i0202h2_4865,4866_0,10";
      raw = codes "t_12_i_02_02_h2_4865,4866_0,10";
      tls_version = codes "12";
      sni = [];
      known = false;
      trust_score = 0;
    })
unfolding compute_ja4_from_client_hello str_eq
ja4_printed = refl

-- The mask also takes values that RFC 8701 does not reserve, such as 0x0A1A.
mixed_value : is_grease 0x0a1a ≡ true
unfolding is_grease
mixed_value = refl

compute_ja4_from_client_hello-perm_example :
    compute_ja4_from_client_hello curl_hash
      (record hello_info { cipher_suites = 4865 ∷ 4866 ∷ []; extensions = 0 ∷ 10 ∷ [] })
    ≡ compute_ja4_from_client_hello curl_hash hello_info
compute_ja4_from_client_hello-perm_example =
    compute_ja4_from_client_hello-perm curl_hash hello_info (4865 ∷ 4866 ∷ []) (0 ∷ 10 ∷ [])
      (Perm.swap 4865 4866 []) (Perm.swap 0 10 [])

abbrev mixed : List ℕ
mixed = 2570 ∷ 4866 ∷ 64250 ∷ 4865 ∷ []

ja3_ja4-Greased_example :
    (compute_ja3_from_client_hello curl_hash [] (record hello_info {
      cipher_suites = mixed;
      extensions = 10 ∷ 0 ∷ [];
      elliptic_curves = 6682 ∷ 29 ∷ [];
    })
      ≡ compute_ja3_from_client_hello curl_hash [] hello_info)
    × (compute_ja4_from_client_hello curl_hash (record hello_info {
      cipher_suites = mixed;
      extensions = 10 ∷ 0 ∷ [];
      elliptic_curves = 6682 ∷ 29 ∷ [];
    })
        ≡ compute_ja4_from_client_hello curl_hash hello_info)
ja3_ja4-Greased_example =
    ja3_ja4-Greased curl_hash [] hello_info mixed (10 ∷ 0 ∷ []) (6682 ∷ 29 ∷ [])
      (add_grease 2570 (0, omega arith, refl)
        (keep_value 4866 (add_grease 64250 (15, omega arith, refl) (keep_value 4865 done))))
      (keep_value 10 (keep_value 0 done))
      (add_grease 6682 (1, omega arith, refl) (keep_value 29 done))

abbrev hello : StdHello
hello = record {
  remote_addr = codes "198.51.100.7:50000";
  server_name = codes "a.example";
  cipher_suites = 4866 ∷ 4865 ∷ [];
  supported_versions = 772 ∷ 771 ∷ [];
  supported_curves = 29 ∷ [];
  supported_points = 0 ∷ [];
  supported_protos = codes "h2" ∷ codes "http/1.1" ∷ [];
  signature_schemes = 1027 ∷ [];
}

abbrev known : Dict BrowserInfo
known = init_known_browsers []

abbrev curl_entry : ConnectionFingerprint
curl_entry =
    new_entry hello.remote_addr
      (compute_ja3_from_client_hello curl_hash known (convert_hello hello)) (convert_hello hello)
      (value_or (ja4_result [] [] [] [] [])
        (compute_ja4_from_client_hello curl_hash (convert_hello hello)))

abbrev curl_store : FingerprintStore
curl_store = record { cache = (hello.remote_addr, curl_entry) ∷ [] }

curl_stored : intercept curl_hash known hello new_fingerprint_store ≡ some curl_store
unfolding intercept compute_ja4_from_client_hello
curl_stored = refl

curl_scored :
    (get_composite_for_request hello.remote_addr (codes "curl/8") curl_store).0
    ≡ some (scored (codes "curl/8") curl_entry)
unfolding get_composite_for_request str_eq
curl_scored = refl

check_fingerprint-get_composite_example :
    (check_fingerprint
      (env_at 0)
      engines
      request
      attacker
      (seen (scored (codes "curl/8") curl_entry))
      pipeline).0
    ≡ (if zero_trust (scored (codes "curl/8") curl_entry)
        then some (attack_tool (scored (codes "curl/8") curl_entry).ja3.browser_id)
        else none)
check_fingerprint-get_composite_example =
    check_fingerprint-get_composite (env_at 0) engines request attacker pipeline curl_hash known
      curl_store hello.remote_addr (codes "curl/8") (scored (codes "curl/8") curl_entry)
      (init_known_browsers-IsFair [] tt) (Reach.next Reach.start (intercepted hello curl_stored))
      curl_scored

abbrev five : FingerprintStore
five = record {
  cache =
      (codes "a", curl_entry)
      ∷ (codes "b", curl_entry)
      ∷ (codes "c", curl_entry)
      ∷ (codes "d", curl_entry)
      ∷ (codes "e", curl_entry)
      ∷ [];
}

-- A ClientHello with one cipher suite and nothing else.
abbrev hello_bytes : Str
hello_bytes =
    22 ∷ 3 ∷ 1 ∷ 0 ∷ 45 ∷ 1 ∷ 0 ∷ 0 ∷ 41 ∷ 3 ∷ 3 ∷ codes "0123456789abcdef0123456789abcdef"
    ++ 0 ∷ 0 ∷ 2 ∷ 19 ∷ 1 ∷ 1 ∷ 0 ∷ []

abbrev conn : Conn
conn = record {
  remote_addr = codes "198.51.100.7:50000";
  header = some (22 ∷ 3 ∷ 1 ∷ 0 ∷ 45 ∷ []);
  has_buffered = true;
  peek = λ n. record { buffer = hello_bytes; len = n; failed_read = false };
  read = λ buffered. (45, none);
}

abbrev fresh_conn : Sniffing
fresh_conn = record {
  sniffed = false;
  buffered = false;
  sniff_err = false;
  closed = false;
  panicking = false;
  kept = new_fingerprint_store;
  total_rejected = 0;
}

rejected : (read_conn curl_hash known true conn fresh_conn).0 ≡ sniff_error
unfolding read_conn str_eq init_known_browsers
rejected = refl

read_conn-rejects_example :
    Explained curl_hash known true conn fresh_conn
      (read_conn curl_hash known true conn fresh_conn).1
read_conn-rejects_example =
    read_conn-rejects curl_hash known true conn fresh_conn refl refl rejected
