-- ===== src/Shards.antt =====
-- core/sharded_map.go: `ShardedTimeMap`, 256 maps behind their locks, and the FNV-1a hash that picks
-- one of them. The values are generic, since core/pipeline.go and perf/pool.go shard in the same way.
-- Each method holds one shard's lock at a time, so a call is one step; a time is in nanoseconds.
pub mod Laws
pub mod Sweep
mod Tests
use mango_waf.Common.{
  ℕ, zero, suc, ◌+◌, ◌-◌, ◌*◌, ◌%◌, ◌^◌, bit_xor, Bool, true, false, not, Option, none, some, List,
  [], ◌∷◌, ltb, ◌==◌, if◌then◌else◌, length,
}
use mango_waf.Common.Bytes.{Str}
use mango_waf.Common.Dict.{Dict, lookup, insert, delete, retain}

abbrev pub num_shards : ℕ
num_shards = 256

-- One round of the hash over uint32.
unfoldable pub fnv_step : ℕ → ℕ → ℕ
fnv_step hash c = bit_xor hash c * 16777619 % 2 ^ 32

unfoldable pub fnv_from : ℕ → Str → ℕ
fnv_from hash [] = hash
fnv_from hash (c ∷ key) = fnv_from (fnv_step hash c) key

unfoldable pub fnv32a : Str → ℕ
unfolding fnv_from fnv_step
fnv32a key = fnv_from 2166136261 key

-- The array of shards, by index.
pub record Sharded (V : Type 0) : Type 0 where
  pub shard : ℕ → Dict V

unfoldable pub new_sharded : {V : Type 0} → Sharded V
new_sharded = record { shard = λ i. [] }

abbrev pub update : {A : Type 0} → (ℕ → A) → ℕ → A → ℕ → A
update f i a j = if i == j then a else f j

unfoldable pub get_shard : (Str → ℕ) → Str → ℕ
get_shard hash key = hash key % num_shards

module _ {V : Type 0} (hash : Str → ℕ) where
  unfoldable pub load : Str → Sharded V → Option V
  load key m = lookup key (m.shard (get_shard hash key))

  unfoldable pub store : Str → V → Sharded V → Sharded V
  store key v m = record {
    shard = update m.shard (get_shard hash key) (insert key v (m.shard (get_shard hash key)));
  }

  unfoldable pub remove : Str → Sharded V → Sharded V
  remove key m = record {
    shard = update m.shard (get_shard hash key) (delete key (m.shard (get_shard hash key)));
  }

  -- The value that stands after the call, whether it was there before, and the new map.
  unfoldable pub load_or_store : Str → V → Sharded V → V × Bool × Sharded V
  unfolding load store
  load_or_store key v m = elim (load key m) [
    | some old ↦ (old, true, m)
    | none ↦ (v, false, store key v m)
  ]

-- `Cleanup` up to shard n: the entries for which the test fails are deleted and counted.
unfoldable pub cleanup_upto : {V : Type 0} → (V → Bool) → ℕ → Sharded V → Sharded V × ℕ
cleanup_upto p zero m = (m, 0)
cleanup_upto p (suc n) m =
    let (m', count) = cleanup_upto p n m in
    let kept = retain p (m'.shard n) in
    (record { shard = update m'.shard n kept }, count + (length (m'.shard n) - length kept))

-- `v.Before(now)` is deleted.
unfoldable pub cleanup : ℕ → Sharded ℕ → Sharded ℕ × ℕ
unfolding cleanup_upto
cleanup now m = cleanup_upto (λ v. not (ltb v now)) num_shards m

unfoldable pub clear_upto : {V : Type 0} → ℕ → Sharded V → Sharded V
clear_upto zero m = m
clear_upto (suc n) m = record { shard = update (clear_upto n m).shard n [] }

unfoldable pub clear : {V : Type 0} → Sharded V → Sharded V
unfolding clear_upto
clear m = clear_upto num_shards m

-- `for k, v := range items { snapshot[k] = v }`
unfoldable pub insert_all : {V : Type 0} → Dict V → Dict V → Dict V
insert_all [] out = out
insert_all ((k, v) ∷ m) out = insert_all m (insert k v out)

unfoldable pub snapshot_upto : {V : Type 0} → ℕ → Sharded V → Dict V
unfolding insert_all
snapshot_upto zero m = []
snapshot_upto (suc n) m = insert_all (m.shard n) (snapshot_upto n m)

unfoldable pub snapshot : {V : Type 0} → Sharded V → Dict V
unfolding snapshot_upto
snapshot m = snapshot_upto num_shards m
