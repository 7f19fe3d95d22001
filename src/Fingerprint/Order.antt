-- ===== src/Fingerprint/Order.antt =====
-- fingerprint/fingerprint.go: the order of the cipher suites and extensions, which JA4 sorts.
use mathlib.Core.Logic.{∥∥₁_elim}
use mathlib.Core.List.{Perm, Permᴰ}
use native.Mathlib.Omega.{arith}
use mango_waf.Common.{
  ℕ, suc, ◌≡◌, refl, ap, ap₂, sym, ◌∙◌, Option, none, some, List, [], ◌∷◌, length, Bool-cases, inl,
  inr,
}
use mango_waf.Common.Bytes.{Str, codes}
use mango_waf.Tls.{ClientHelloInfo}
use mango_waf.Tls.Hello.{is_grease}
use mango_waf.Fingerprint.{
  Ja4Result, filter_grease16, insert_sorted, sort, ja4, ja4_filtered, compute_ja4_from_client_hello,
}

insert_sorted_comm :
    (x y : ℕ) (l : List ℕ)
    → insert_sorted x (insert_sorted y l) ≡ insert_sorted y (insert_sorted x l)
unfolding insert_sorted
insert_sorted_comm x y [] = ground arith
insert_sorted_comm x y (z ∷ l) = ground (arith, insert_sorted_comm x y l)

sort-eq_of_Permᴰ : {xs ys : List ℕ} → Permᴰ xs ys → sort xs ≡ sort ys
unfolding sort
sort-eq_of_Permᴰ Permᴰ.nil = refl
sort-eq_of_Permᴰ (Permᴰ.cons e p) = ap₂ insert_sorted e (sort-eq_of_Permᴰ p)
sort-eq_of_Permᴰ (Permᴰ.swap {a} {b} {a'} {b'} {l} e f) =
    insert_sorted_comm a b (sort l)
    ∙ ap₂ (λ (x y : ℕ). insert_sorted x (insert_sorted y (sort l))) f e
sort-eq_of_Permᴰ (Permᴰ.trans p q) = sort-eq_of_Permᴰ p ∙ sort-eq_of_Permᴰ q

Permᴰ_refl : (xs : List ℕ) → Permᴰ xs xs
Permᴰ_refl [] = Permᴰ.nil
Permᴰ_refl (x ∷ xs) = Permᴰ.cons refl (Permᴰ_refl xs)

filter_grease16-Permᴰ :
    {xs ys : List ℕ} → Permᴰ xs ys → Permᴰ (filter_grease16 xs) (filter_grease16 ys)
unfolding filter_grease16
filter_grease16-Permᴰ Permᴰ.nil = Permᴰ.nil
filter_grease16-Permᴰ (Permᴰ.cons {b = b} e p) = rw e (elim (Bool-cases (is_grease b)) [
  | inl g ↦ rw g (filter_grease16-Permᴰ p)
  | inr g ↦ rw g (Permᴰ.cons refl (filter_grease16-Permᴰ p))
])
filter_grease16-Permᴰ (Permᴰ.swap {a' = a} {b' = b} {l = l} e f) =
    rw (e, f)
      (elim (Bool-cases (is_grease a)) [
        | inl g ↦ rw g (Permᴰ_refl (filter_grease16 (b ∷ l)))
        | inr g ↦ rw g (elim (Bool-cases (is_grease b)) [
          | inl h ↦ rw h (Permᴰ_refl (a ∷ filter_grease16 l))
          | inr h ↦ rw h (Permᴰ.swap refl refl)
        ])
      ])
filter_grease16-Permᴰ (Permᴰ.trans p q) =
    Permᴰ.trans (filter_grease16-Permᴰ p) (filter_grease16-Permᴰ q)

length-Permᴰ : {xs ys : List ℕ} → Permᴰ xs ys → length xs ≡ length ys
length-Permᴰ Permᴰ.nil = refl
length-Permᴰ (Permᴰ.cons e p) = ap suc (length-Permᴰ p)
length-Permᴰ (Permᴰ.swap e f) = refl
length-Permᴰ (Permᴰ.trans p q) = length-Permᴰ p ∙ length-Permᴰ q

ja4_filtered-Permᴰ :
    (md5 : Str → Str) (proto : Str) (version : ℕ) (sni : Str) {cs cs' ext ext' : List ℕ}
    (alpn : Option Str)
    → Permᴰ cs cs'
    → Permᴰ ext ext'
    → ja4_filtered md5 proto version sni cs ext alpn
      ≡ ja4_filtered md5 proto version sni cs' ext' alpn
unfolding ja4_filtered
ja4_filtered-Permᴰ md5 proto version sni none p q = refl
ja4_filtered-Permᴰ md5 proto version sni (some alpn) p q =
    rw (length-Permᴰ p, length-Permᴰ q, sort-eq_of_Permᴰ p, sort-eq_of_Permᴰ q)

Ja4Result-set : IsSet (Option Ja4Result)
Ja4Result-set = hlevel

-- A client that sends its cipher suites and extensions in another order keeps its JA4.
pub compute_ja4_from_client_hello-perm :
    (md5 : Str → Str) (info : ClientHelloInfo) (suites extensions : List ℕ)
    → Perm info.cipher_suites suites
    → Perm info.extensions extensions
    → compute_ja4_from_client_hello md5
        (record info { cipher_suites = suites; extensions = extensions })
      ≡ compute_ja4_from_client_hello md5 info
unfolding compute_ja4_from_client_hello ja4
compute_ja4_from_client_hello-perm md5 info suites extensions p q =
    ∥∥₁_elim p (Ja4Result-set _ _) λ p. ∥∥₁_elim q (Ja4Result-set _ _) λ q. sym (
      ja4_filtered-Permᴰ md5 (codes "tcp") info.tls_version info.server_name _
        (filter_grease16-Permᴰ p) (filter_grease16-Permᴰ q))
