-- ===== src/Http2/Known.antt =====
-- fingerprint/h2_parser.go: the database of known fingerprints.
use mango_waf.Common.{
  List, ap, ℕ, ◌≡◌, refl, ◌∙◌, Bool, true, false, none, [], ◌∷◌, if◌then◌else◌, is_some, arith,
  Bool-cases, inl, inr,
}
use mango_waf.Common.Bytes.{Str, str_eq, str_eq→≡, has_byte}
use mango_waf.Common.Dict.{Dict, lookup}
use mango_waf.Http2.{H2Frame, known_h2, extract_h2_fingerprint}

abbrev all_have : {V : Type 0} → ℕ → Dict V → Bool
all_have c [] = true
all_have c ((k, v) ∷ m) = if has_byte c k then all_have c m else false

lookup-all_have :
    {V : Type 0} (c : ℕ) (k : Str) (m : Dict V)
    → all_have c m ≡ true
    → has_byte c k ≡ false
    → lookup k m ≡ none
unfolding lookup
lookup-all_have c k [] a h = refl
lookup-all_have c k ((j, v) ∷ m) a h = elim (Bool-cases (str_eq j k)) [
  | inl b ↦
      let absent : has_byte c j ≡ false = ap (has_byte c) (str_eq→≡ j k b) ∙ h in
      absurd (ground (arith, a, absent))
  | inr b ↦
      let others : all_have c m ≡ true = ground (arith, a) in rw b (lookup-all_have c k m others h)
]

-- No fingerprint is known, where MD5 gives hexadecimal digits: the names in the database hold an underscore.
pub extract_h2_fingerprint_unknown :
    (md5 : Str → Str) (frames : List H2Frame)
    → ((s : Str) → has_byte b'_' (md5 s) ≡ false)
    → (extract_h2_fingerprint md5 frames).known ≡ false
unfolding extract_h2_fingerprint has_byte
extract_h2_fingerprint_unknown md5 frames h =
    ap is_some (lookup-all_have b'_' (extract_h2_fingerprint md5 frames).hash known_h2 refl (h _))
