-- ===== src/Tls/Versions.antt =====
-- fingerprint/tls_parser.go: the version taken from the supported versions.
use mango_waf.Common.{
  ℕ, ◌≤◌, ◌≡◌, refl, false, not, ◌&&◌, ◌⊎◌, inl, List, [], ◌∷◌, if◌then◌else◌, ltb, any, arith,
}
use mango_waf.Tls.Hello.{is_grease, max_version}

max_version-le : (m : ℕ) (vs : List ℕ) → m ≤ max_version m vs
unfolding max_version
max_version-le m [] = omega arith
max_version-le m (v ∷ vs) =
    ground (arith, max_version-le (if ltb m v && not (is_grease v) then v else m) vs)

-- No listed version but a GREASE value is above the version taken, which is the one given or no GREASE value.
pub max_version_lem :
    (m : ℕ) (vs : List ℕ)
    → (any (λ v. ltb (max_version m vs) v && not (is_grease v)) vs ≡ false)
      × ((max_version m vs ≡ m) ⊎ (is_grease (max_version m vs) ≡ false))
unfolding max_version
max_version_lem m [] = (refl, inl refl)
max_version_lem m (v ∷ vs) =
    let n = if ltb m v && not (is_grease v) then v else m in
    let rest = max_version_lem n vs in
    (ground (arith, rest.0, max_version-le n vs), ground (arith, rest.1))
