-- ===== src/Fingerprint/Grease.antt =====
-- fingerprint/fingerprint.go: the GREASE values of RFC 8701, which clients mix into their lists.
use mango_waf.Tls.Hello.{is_grease}
use mango_waf.Fingerprint.{
  ClientHelloInfo, BrowserInfo, Dict, Str, ja4, compute_ja4_from_client_hello, ja3_raw, ja3,
  filter_grease16, compute_ja3_from_client_hello,
}
use mango_waf.Common.{
  ℕ, zero, suc, true, [], ◌∷◌, inl, inr, refl, Bool, List, ◌≡◌, ◌+◌, ◌*◌, ◌<◌, ◌&&◌, Bool-cases,
  arith, ap,
}

-- The values 0x0A0A, 0x1A1A, … 0xFAFA.
abbrev pub IsGreaseValue : ℕ → Type 0
IsGreaseValue v = (k : ℕ) × (k < 16) × (v ≡ 2570 + 4112 * k)

-- The second list is the first one with GREASE values put in anywhere.
pub data Greased : List ℕ → List ℕ → Type 0 where
  done : Greased [] []
  keep_value : (v : ℕ) {xs ys : List ℕ} → Greased xs ys → Greased (v ∷ xs) (v ∷ ys)
  add_grease : (v : ℕ) {xs ys : List ℕ} → IsGreaseValue v → Greased xs ys → Greased xs (v ∷ ys)

all_below : ℕ → (ℕ → Bool) → Bool
all_below zero p = true
all_below (suc n) p = p n && all_below n p

all_below_sound : (n : ℕ) (p : ℕ → Bool) (k : ℕ) → all_below n p ≡ true → k < n → p k ≡ true
unfolding all_below
all_below_sound zero p k h lt = absurd (omega arith)
all_below_sound (suc n) p k h lt = ground (arith, all_below_sound n p k)

sixteen_values : all_below 16 (λ k. is_grease (2570 + 4112 * k)) ≡ true
unfolding all_below is_grease
sixteen_values = refl

is_grease_value : (v : ℕ) → IsGreaseValue v → is_grease v ≡ true
is_grease_value v (k, lt, e) =
    rw e (all_below_sound 16 (λ (k : ℕ). is_grease (2570 + 4112 * k)) k sixteen_values lt)

filter_grease16-Greased : {xs ys : List ℕ} → Greased xs ys → filter_grease16 ys ≡ filter_grease16 xs
unfolding filter_grease16
filter_grease16-Greased done = refl
filter_grease16-Greased (keep_value v g) = elim (Bool-cases (is_grease v)) [
  | inl e ↦ rw e (filter_grease16-Greased g)
  | inr e ↦ rw e (ap (◌∷◌ v) (filter_grease16-Greased g))
]
filter_grease16-Greased (add_grease v h g) = rw (is_grease_value v h) (filter_grease16-Greased g)

-- A client that mixes GREASE values into its cipher suites, extensions and curves keeps its JA3 and its JA4.
pub ja3_ja4-Greased :
    (md5 : Str → Str) (known_ja3 : Dict BrowserInfo) (info : ClientHelloInfo)
    (suites extensions curves : List ℕ)
    → Greased info.cipher_suites suites
    → Greased info.extensions extensions
    → Greased info.elliptic_curves curves
    → (compute_ja3_from_client_hello md5 known_ja3 (record info {
      cipher_suites = suites;
      extensions = extensions;
      elliptic_curves = curves;
    })
        ≡ compute_ja3_from_client_hello md5 known_ja3 info)
      × (compute_ja4_from_client_hello md5 (record info {
        cipher_suites = suites;
        extensions = extensions;
        elliptic_curves = curves;
      })
          ≡ compute_ja4_from_client_hello md5 info)
unfolding compute_ja3_from_client_hello ja3 ja3_raw compute_ja4_from_client_hello ja4
ja3_ja4-Greased md5 known_ja3 info suites extensions curves s e c = (
  rw (filter_grease16-Greased s, filter_grease16-Greased e, filter_grease16-Greased c),
  rw (filter_grease16-Greased s, filter_grease16-Greased e),
)
