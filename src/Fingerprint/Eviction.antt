-- ===== src/Fingerprint/Eviction.antt =====
-- fingerprint/interceptor.go: how much `Cleanup` deletes.
use mango_waf.Common.Dict.{Dict}
use mango_waf.Fingerprint.Store.{
  FingerprintStore, ConnectionFingerprint, size, evict_some, cleanup_fp,
}
use mango_waf.Common.{
  ltb→lt, leb→le, ◌/◌, ℕ, [], ◌∷◌, inl, inr, ◌≡◌, ◌+◌, ◌-◌, ◌*◌, ◌≤◌, ◌<◌, ltb, leb, if◌then◌else◌,
  length, Bool-cases, arith, ◌∙◌,
}

-- After `count` deletions.
length-evict_some :
    (count : ℕ) (cache : Dict ConnectionFingerprint)
    → 3 * count + 2 ≤ length cache + count
    → length (evict_some count cache) ≡ length cache + count - (length cache + count + 1) / 3
unfolding evict_some
length-evict_some count [] h = absurd (omega (arith, h))
length-evict_some count (e ∷ cache) h = elim (Bool-cases (leb (length cache / 2) (count + 1))) [
  | inl stop ↦
      let enough : length cache / 2 ≤ count + 1 = leb→le _ _ stop in
      rw stop (omega (arith, h, enough))
  | inr more ↦
      let left : count + 1 < length cache / 2 = ground (arith, more) in
      rw more (length-evict_some (count + 1) cache (omega (arith, left)) ∙ omega arith)
]

-- `Cleanup` leaves a store of at most the given size alone, and takes a third of the entries from a larger
-- one, whatever the given size, which is positive.
pub size-cleanup_fp :
    (max_entries : ℕ) (fs : FingerprintStore)
    → 0 < max_entries
    → size (cleanup_fp max_entries fs)
      ≡ (if ltb max_entries (size fs) then size fs - (size fs + 1) / 3 else size fs)
unfolding cleanup_fp size
size-cleanup_fp max_entries fs h = elim (Bool-cases (ltb max_entries (length fs.cache))) [
  | inl big ↦
      let more : max_entries < length fs.cache = ltb→lt _ _ big in
      rw big (length-evict_some 0 fs.cache (omega (arith, h, more)) ∙ omega arith)
  | inr small ↦ rw small
]
