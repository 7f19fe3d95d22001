-- ===== src/Fingerprint/Seeded.antt =====
-- fingerprint/database.go: the scores of the built-in database.
use mango_waf.Fingerprint.Trust.{IsFair, fair}
use mango_waf.Fingerprint.{BrowserInfo}
use mango_waf.Common.Dict.{insert-Values, Values, Dict}
use mango_waf.Common.Bytes.{codes, Str}
use mango_waf.Fingerprint.Database.{
  chrome_desktop, chrome_mobile, firefox_desktop, firefox_mobile, safari, chrome_fp, edge, opera,
  firefox_fp, bots, safari_fp, attack_tools, edge_fp, bot_fp, legitimate_bots,
  init_extended_ja3_database, init_all_databases, store_table, init_known_browsers, store_named,
}
use mango_waf.Common.{ℕ, true, [], ◌∷◌, refl, List, ◌≡◌}

store_named-IsFair :
    (name : Str) (score : ℕ) (hashes : List Str) (known_ja3 : Dict BrowserInfo)
    → fair score ≡ true
    → Values IsFair known_ja3
    → Values IsFair (store_named name score hashes known_ja3)
unfolding store_named
store_named-IsFair name score [] known_ja3 h a = a
store_named-IsFair name score (x ∷ hashes) known_ja3 h a =
    store_named-IsFair name score hashes _ h (insert-Values IsFair x _ known_ja3 h a)

store_table-IsFair :
    (platform : Str) (score : ℕ) (table : List (Str × Str)) (known_ja3 : Dict BrowserInfo)
    → fair score ≡ true
    → Values IsFair known_ja3
    → Values IsFair (store_table platform score table known_ja3)
unfolding store_table
store_table-IsFair platform score [] known_ja3 h a = a
store_table-IsFair platform score ((x, name) ∷ table) known_ja3 h a =
    store_table-IsFair platform score table _ h (insert-Values IsFair x _ known_ja3 h a)

pub init_known_browsers-IsFair :
    (known_ja3 : Dict BrowserInfo)
    → Values IsFair known_ja3
    → Values IsFair (init_known_browsers known_ja3)
unfolding init_known_browsers
init_known_browsers-IsFair known_ja3 a = store_named-IsFair (codes "Bot/Tool") 5 bot_fp _ refl (
    store_named-IsFair (codes "Edge") 85 edge_fp _ refl (
      store_named-IsFair (codes "Safari") 90 safari_fp _ refl (
        store_named-IsFair (codes "Firefox") 90 firefox_fp _ refl
          (store_named-IsFair (codes "Chrome") 90 chrome_fp known_ja3 refl a))))

init_extended_ja3_database-IsFair :
    (known_ja3 : Dict BrowserInfo)
    → Values IsFair known_ja3
    → Values IsFair (init_extended_ja3_database known_ja3)
unfolding init_extended_ja3_database
init_extended_ja3_database-IsFair known_ja3 a =
    store_table-IsFair (codes "Legitimate Bot") 60 legitimate_bots _ refl (
      store_table-IsFair (codes "Attack") 0 attack_tools _ refl (
        store_table-IsFair (codes "Bot/Tool") 5 bots _ refl (
          store_table-IsFair (codes "Desktop") 85 opera _ refl (
            store_table-IsFair (codes "Desktop") 90 edge _ refl (
              store_table-IsFair (codes "Apple") 93 safari _ refl (
                store_table-IsFair (codes "Mobile") 87 firefox_mobile _ refl (
                  store_table-IsFair (codes "Desktop") 92 firefox_desktop _ refl (
                    store_table-IsFair (codes "Mobile") 88 chrome_mobile _ refl (
                      store_table-IsFair (codes "Desktop") 92 chrome_desktop known_ja3 refl
                        a)))))))))

pub init_all_databases-IsFair :
    (known_ja3 : Dict BrowserInfo)
    → Values IsFair known_ja3
    → Values IsFair (init_all_databases known_ja3)
unfolding init_all_databases
init_all_databases-IsFair known_ja3 a =
    init_extended_ja3_database-IsFair _ (init_known_browsers-IsFair known_ja3 a)
