-- ===== src/Fingerprint/Database.antt =====
-- fingerprint/database.go and `InitKnownBrowsers` of fingerprint/fingerprint.go: the database of known JA3 hashes.
use mango_waf.Common.{ℕ, ◌+◌, Option, List, [], ◌∷◌, leb, if◌then◌else◌}
use mango_waf.Common.Bytes.{Str, codes}
use mango_waf.Common.Dict.{Dict, insert, lookup}
use mango_waf.Fingerprint.{BrowserInfo}

-- `AddJA3`
unfoldable pub add_ja3 : Str → BrowserInfo → Dict BrowserInfo → Dict BrowserInfo
unfolding insert
add_ja3 hash info known_ja3 = insert hash info known_ja3

-- `LookupJA3`
unfoldable pub lookup_ja3 : Str → Dict BrowserInfo → Option BrowserInfo
unfolding lookup
lookup_ja3 hash known_ja3 = lookup hash known_ja3

-- The loops that store a list of hashes under one name, and a table of names.
unfoldable pub store_named : Str → ℕ → List Str → Dict BrowserInfo → Dict BrowserInfo
unfolding insert
store_named name score [] known_ja3 = known_ja3
store_named name score (h ∷ hs) known_ja3 =
    store_named name score hs
      (insert h (record { name = name; platform = []; trust_score = score }) known_ja3)

unfoldable pub store_table : Str → ℕ → List (Str × Str) → Dict BrowserInfo → Dict BrowserInfo
unfolding insert
store_table platform score [] known_ja3 = known_ja3
store_table platform score ((hash, name) ∷ table) known_ja3 =
    store_table platform score table
      (insert hash (record { name = name; platform = platform; trust_score = score }) known_ja3)

abbrev pub chrome_fp : List Str
chrome_fp =
    codes "b32309a26951912be7dba376398abc3b"
    ∷ codes "cd08e31494f9531f560d64c695473da9"
    ∷ codes "a0e9f5d64349fb13191bc781f81f42e1"
    ∷ codes "b985f96c93d7ef2746a570e563b1e984"
    ∷ []

abbrev pub firefox_fp : List Str
firefox_fp =
    codes "588c4c43324290f3f1732d5975f6c3d6"
    ∷ codes "b4069ce0b3e88a1d82900c0e3a683e39"
    ∷ codes "7d5faccf34ed5bea254b0e7fd4a60e20"
    ∷ []

abbrev pub safari_fp : List Str
safari_fp = codes "773906b0efdefa24a7f2b8eb6985bf37" ∷ codes "96a29f13c8b4c6573e7e2dfe5e14f9e0" ∷ []

abbrev pub edge_fp : List Str
edge_fp = codes "d5e710fb25a94a7f61f6d8a8a8c47a2d" ∷ []

abbrev pub bot_fp : List Str
bot_fp =
    codes "e7d705a3286e19ea42f587b344ee6865"
    ∷ codes "36f1b0d87b0951c68ef6d7a0d5e0c6f0"
    ∷ codes "1138de370e523f55c8b4a065c4c2a8a6"
    ∷ codes "6734f37431670b3ab4292b8f60f29984"
    ∷ codes "209e1233aa450f8ac6a9d4a66f11e87f"
    ∷ []

unfoldable pub init_known_browsers : Dict BrowserInfo → Dict BrowserInfo
unfolding store_named
init_known_browsers known_ja3 = store_named (codes "Bot/Tool") 5 bot_fp (
    store_named (codes "Edge") 85 edge_fp (
      store_named (codes "Safari") 90 safari_fp (
        store_named (codes "Firefox") 90 firefox_fp
          (store_named (codes "Chrome") 90 chrome_fp known_ja3))))

abbrev pub chrome_desktop : List (Str × Str)
chrome_desktop =
    (codes "b32309a26951912be7dba376398abc3b", codes "Chrome 120+ Windows")
    ∷ (codes "cd08e31494f9531f560d64c695473da9", codes "Chrome 115-119 Windows")
    ∷ (codes "a0e9f5d64349fb13191bc781f81f42e1", codes "Chrome 110-114 Windows")
    ∷ (codes "3b5074b1b5d032e5620f69f9f700ff0e", codes "Chrome 120+ macOS")
    ∷ (codes "2bc0e2a85f5708eaa2c2a16d94749fa7", codes "Chrome 120+ Linux")
    ∷ (codes "19e29534fd49dd27d09234e639c4057e", codes "Chrome 100-109")
    ∷ (codes "bc6c386f480ee97b9d9e52d472b772d8", codes "Chrome 90-99")
    ∷ (codes "8916410db2f51848e87f6f0e1dc51b20", codes "Chrome 80-89")
    ∷ []

abbrev pub chrome_mobile : List (Str × Str)
chrome_mobile =
    (codes "b985f96c93d7ef2746a570e563b1e984", codes "Chrome Android 120+")
    ∷ (codes "bc36cd3c72654808c98226c8b1d0bd3e", codes "Chrome Android 110-119")
    ∷ (codes "68b1744b95f35c29b9f084d2b10afcdd", codes "Chrome iOS")
    ∷ []

abbrev pub firefox_desktop : List (Str × Str)
firefox_desktop =
    (codes "588c4c43324290f3f1732d5975f6c3d6", codes "Firefox 120+ Windows")
    ∷ (codes "b4069ce0b3e88a1d82900c0e3a683e39", codes "Firefox 115-119")
    ∷ (codes "7d5faccf34ed5bea254b0e7fd4a60e20", codes "Firefox ESR 115")
    ∷ (codes "e398bad83264d56575ff027e04b89499", codes "Firefox 110-114")
    ∷ (codes "21ae75f9db72ea76a9d7c2c7fb8c6b36", codes "Firefox 100-109")
    ∷ (codes "839bbe52ce4e8fb0d2e196502b9e6882", codes "Firefox 90-99")
    ∷ []

abbrev pub firefox_mobile : List (Str × Str)
firefox_mobile =
    (codes "94650e47f96bec9e1e37e8cd88bd7e53", codes "Firefox Android 120+")
    ∷ (codes "c17e5a03e16c75a2bb7e24cdd07a62e8", codes "Firefox iOS")
    ∷ []

abbrev pub safari : List (Str × Str)
safari =
    (codes "773906b0efdefa24a7f2b8eb6985bf37", codes "Safari 17+ macOS")
    ∷ (codes "96a29f13c8b4c6573e7e2dfe5e14f9e0", codes "Safari iOS 17+")
    ∷ (codes "11f3e47d0e5cf16f155f9f91e8393e52", codes "Safari 16")
    ∷ (codes "e10b2788e8e04dba891be51c9a03efca", codes "Safari iOS 16")
    ∷ (codes "371ee040d2bf5c2fea0e72a9cbc5ebc1", codes "Safari 15")
    ∷ []

abbrev pub edge : List (Str × Str)
edge =
    (codes "d5e710fb25a94a7f61f6d8a8a8c47a2d", codes "Edge 120+ Windows")
    ∷ (codes "afb0bc6a9ab64bb0916f29b76fdd4d34", codes "Edge 115-119")
    ∷ (codes "dcce5e1a27b372acba51fb5b5a779ae6", codes "Edge Android")
    ∷ []

abbrev pub opera : List (Str × Str)
opera =
    (codes "b9ef5b9e73e8001e5e1c1c6e89d12b3a", codes "Opera 100+")
    ∷ (codes "c5a802b1a1e3da2db89a0b6e1b79f9e2", codes "Opera GX")
    ∷ []

abbrev pub bots : List (Str × Str)
bots =
    (codes "e7d705a3286e19ea42f587b344ee6865", codes "Python requests")
    ∷ (codes "36f1b0d87b0951c68ef6d7a0d5e0c6f0", codes "Go net/http")
    ∷ (codes "1138de370e523f55c8b4a065c4c2a8a6", codes "Node.js https")
    ∷ (codes "6734f37431670b3ab4292b8f60f29984", codes "curl")
    ∷ (codes "209e1233aa450f8ac6a9d4a66f11e87f", codes "wget")
    ∷ (codes "4d7a28d6f2263e0d76b0f9712fa29484", codes "Java HttpClient")
    ∷ (codes "e6573e91e6eb777c0933c5b8f97f10cd", codes "Python aiohttp")
    ∷ (codes "f09eb61e3ab4bbc96c03b92e38a3c2b8", codes "Ruby net/http")
    ∷ (codes "8a6b4e9f76fdfe6ef0c6348e146ed0c1", codes "PHP curl")
    ∷ (codes "3e63a0abb1b5e3e73e51df2f91c65a04", codes "Rust reqwest")
    ∷ (codes "b7f4c1e34ff2a85d1c4c4e93e0bb8e46", codes "Apache HttpClient")
    ∷ (codes "f6e0b6afb14e5d0afb26f7b8c793e7d1", codes "OkHttp (Android)")
    ∷ []

abbrev pub attack_tools : List (Str × Str)
attack_tools =
    (codes "c12f54a3f91dc7bafd92b1ab9f147557", codes "LOIC")
    ∷ (codes "e35df3e00ca4ef31d42b34bebaa2f86e", codes "HOIC")
    ∷ (codes "2a2a2a2a2a2a2a2a2a2a2a2a2a2a2a2a", codes "MHDDoS")
    ∷ (codes "d7a4f7e07d3c2e7df0c09d4e1cf1c7c1", codes "Slowloris")
    ∷ (codes "1d3c4e5f6a7b8c9d0e1f2a3b4c5d6e7f", codes "GoldenEye")
    ∷ (codes "a1b2c3d4e5f6a7b8c9d0e1f2a3b4c5d6", codes "Xerxes")
    ∷ (codes "b1c2d3e4f5a6b7c8d9e0f1a2b3c4d5e6", codes "Torshammer")
    ∷ []

abbrev pub legitimate_bots : List (Str × Str)
legitimate_bots =
    (codes "3db1e3f2d0b0e8c6a4f7b9d5c1e8a3f2", codes "Googlebot")
    ∷ (codes "4ec3f4a3e1c1f9d7b5a8c0e6d2f9b4a3", codes "Bingbot")
    ∷ (codes "5fd4a5b4f2d2a0e8c6b9d1f7e3a0c5b4", codes "Yandexbot")
    ∷ (codes "6ae5b6c5a3e3b1f9d7c0e2a8f4b1d6c5", codes "DuckDuckBot")
    ∷ (codes "7bf6c7d6b4f4c2a0e8d1f3b9a5c2e7d6", codes "Facebookbot")
    ∷ (codes "8ca7d8e7c5a5d3b1f9e2a4c0b6d3f8e7", codes "Twitterbot")
    ∷ []

unfoldable pub init_extended_ja3_database : Dict BrowserInfo → Dict BrowserInfo
unfolding store_table
init_extended_ja3_database known_ja3 = store_table (codes "Legitimate Bot") 60 legitimate_bots (
    store_table (codes "Attack") 0 attack_tools (
      store_table (codes "Bot/Tool") 5 bots (
        store_table (codes "Desktop") 85 opera (
          store_table (codes "Desktop") 90 edge (
            store_table (codes "Apple") 93 safari (
              store_table (codes "Mobile") 87 firefox_mobile (
                store_table (codes "Desktop") 92 firefox_desktop (
                  store_table (codes "Mobile") 88 chrome_mobile
                    (store_table (codes "Desktop") 92 chrome_desktop known_ja3)))))))))

-- The hashes that `InitAllDatabases` adds.
unfoldable pub init_all_databases : Dict BrowserInfo → Dict BrowserInfo
unfolding init_known_browsers init_extended_ja3_database
init_all_databases known_ja3 = init_extended_ja3_database (init_known_browsers known_ja3)

pub record DbStats : Type 0 where
  pub ja3_count : ℕ
  pub trusted_ja3 : ℕ
  pub malicious_ja3 : ℕ

-- `StatsSnapshot`, less the count of the HTTP/2 database.
unfoldable pub stats_snapshot : Dict BrowserInfo → DbStats
stats_snapshot [] = record { ja3_count = 0; trusted_ja3 = 0; malicious_ja3 = 0 }
stats_snapshot ((hash, info) ∷ known_ja3) =
    let rest = stats_snapshot known_ja3 in
    let counted = record rest { ja3_count = rest.ja3_count + 1 } in
    if leb 80 info.trust_score
    then record counted { trusted_ja3 = rest.trusted_ja3 + 1 }
    else if leb info.trust_score 20
    then record counted { malicious_ja3 = rest.malicious_ja3 + 1 }
    else counted
