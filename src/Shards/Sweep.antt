-- ===== src/Shards/Sweep.antt =====
-- The methods that walk over all shards: `Cleanup`, `Clear` and `Snapshot`.
use mango_waf.Common.{
  ℕ, zero, suc, ◌<◌, ◌≡◌, refl, Bool, not, Option, none, some, [], ◌∷◌, arith, ltb, if◌then◌else◌,
  lt→ltb, Option-cases, inl, inr, true, false, ◌≢◌, ◌∙◌, ap, sym, subst,
}
use mango_waf.Common.Bytes.{Str, str_eq_iff}
use mango_waf.Common.Dict.{
  Dict, lookup, insert, retain, only_if, Distinct, lookup-insert, lookup-retain, insert-Distinct,
  retain-Distinct,
}
use mango_waf.Shards.{
  Sharded, get_shard, load, cleanup_upto, cleanup, clear_upto, clear, insert_all, snapshot_upto,
  snapshot, num_shards,
}
use mango_waf.Shards.Laws.{IsPlaced}

-- The shards below n are swept, the others are left alone.
cleanup_upto-shard :
    {V : Type 0} (p : V → Bool) (n : ℕ) (m : Sharded V) (i : ℕ)
    → (cleanup_upto p n m).0.shard i ≡ (if ltb i n then retain p (m.shard i) else m.shard i)
unfolding cleanup_upto
cleanup_upto-shard p zero m i = ground arith
cleanup_upto-shard p (suc n) m i = ground (arith, cleanup_upto-shard p n m i)

clear_upto-shard :
    {V : Type 0} (n : ℕ) (m : Sharded V) (i : ℕ)
    → (clear_upto n m).shard i ≡ (if ltb i n then [] else m.shard i)
unfolding clear_upto
clear_upto-shard zero m i = ground arith
clear_upto-shard (suc n) m i = ground (arith, clear_upto-shard n m i)

abbrev or_else : {V : Type 0} → Option V → Option V → Option V
or_else none o = o
or_else (some v) o = some v

lookup-insert_all :
    {V : Type 0} (k : Str) (m out : Dict V)
    → Distinct m
    → lookup k (insert_all m out) ≡ or_else (lookup k m) (lookup k out)
unfolding insert_all lookup
lookup-insert_all k [] out d = refl
lookup-insert_all k ((j, v) ∷ m) out d =
    ground
      (arith, lookup-insert_all k m (insert j v out) d.1, lookup-insert k j v out, str_eq_iff j k)

pub get_shard-lt : (hash : Str → ℕ) (k : Str) → get_shard hash k < num_shards
unfolding get_shard
get_shard-lt hash k = omega arith

module _ {V : Type 0} (hash : Str → ℕ) (m : Sharded V) (h : IsPlaced hash m) where
  snapshot_upto-lookup :
      (n : ℕ) (k : Str)
      → lookup k (snapshot_upto n m) ≡ (if ltb (get_shard hash k) n then load hash k m else none)
  unfolding snapshot_upto lookup load
  snapshot_upto-lookup zero k = ground arith
  snapshot_upto-lookup (suc n) k = elim (Option-cases (lookup k (m.shard n))) [
    | inl e ↦ ground (
      arith,
      e,
      lookup-insert_all k (m.shard n) (snapshot_upto n m) (h.distinct n),
      snapshot_upto-lookup n k,
    )
    | inr (v, e) ↦ ground (
      arith,
      e,
      lookup-insert_all k (m.shard n) (snapshot_upto n m) (h.distinct n),
      h.placed n k (λ q. cc (q, e)),
    )
  ]

  insert_all-Distinct : (src out : Dict V) → Distinct out → Distinct (insert_all src out)
  unfolding insert_all
  insert_all-Distinct [] out d = d
  insert_all-Distinct ((k, v) ∷ src) out d =
      insert_all-Distinct src (insert k v out) (insert-Distinct k v out d)

  snapshot_upto-Distinct : (n : ℕ) → Distinct (snapshot_upto n m)
  unfolding snapshot_upto
  snapshot_upto-Distinct zero = tt
  snapshot_upto-Distinct (suc n) =
      insert_all-Distinct (m.shard n) (snapshot_upto n m) (snapshot_upto-Distinct n)

  pub snapshot-Distinct : Distinct (snapshot m)
  unfolding snapshot
  snapshot-Distinct = snapshot_upto-Distinct num_shards

  -- The copy that `Snapshot` returns answers every key as `Load` does.
  pub lookup-snapshot : (k : Str) → lookup k (snapshot m) ≡ load hash k m
  unfolding snapshot
  lookup-snapshot k = ground (arith, snapshot_upto-lookup num_shards k, get_shard-lt hash k)

  pub load-clear : (k : Str) → load hash k (clear m) ≡ none
  unfolding load clear lookup
  load-clear k =
      ground (arith, clear_upto-shard num_shards m (get_shard hash k), get_shard-lt hash k)

  retained :
      (p : V → Bool) (b : Bool) (k : Str) (d : Dict V)
      → Distinct d
      → lookup k (if b then retain p d else d) ≢ none
      → lookup k d ≢ none
  retained p true k d distinct found e = found (lookup-retain k p d distinct ∙ ap (only_if p) e)
  retained p false k d distinct found e = found e

  -- A sweep leaves every key in its shard.
  pub cleanup_upto-IsPlaced : (p : V → Bool) (n : ℕ) → IsPlaced hash (cleanup_upto p n m).0
  cleanup_upto-IsPlaced p n = record {
    distinct = λ i. subst Distinct (sym (cleanup_upto-shard p n m i)) (if_Distinct i (ltb i n));
    placed = λ i k found. h.placed i k (
        retained p (ltb i n) k (m.shard i) (h.distinct i)
          (subst (λ d. lookup k d ≢ none) (cleanup_upto-shard p n m i) found));
  }
    where
      if_Distinct : (i : ℕ) (b : Bool) → Distinct (if b then retain p (m.shard i) else m.shard i)
      if_Distinct i true = retain-Distinct p (m.shard i) (h.distinct i)
      if_Distinct i false = h.distinct i

  pub load-cleanup_upto :
      (p : V → Bool) (n : ℕ) (k : Str)
      → get_shard hash k < n
      → load hash k (cleanup_upto p n m).0 ≡ only_if p (load hash k m)
  unfolding load
  load-cleanup_upto p n k lt =
      rw (cleanup_upto-shard p n m (get_shard hash k), lt→ltb _ _ lt)
        (lookup-retain k p (m.shard (get_shard hash k)) (h.distinct (get_shard hash k)))

module _ (hash : Str → ℕ) (m : Sharded ℕ) (h : IsPlaced hash m) (now : ℕ) where
  -- `Cleanup` deletes exactly the entries before `now`.
  pub load-cleanup :
      (k : Str) → load hash k (cleanup now m).0 ≡ only_if (λ v. not (ltb v now)) (load hash k m)
  unfolding cleanup
  load-cleanup k =
      load-cleanup_upto hash m h (λ v. not (ltb v now)) num_shards k (get_shard-lt hash k)
