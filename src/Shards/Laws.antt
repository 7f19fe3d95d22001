-- ===== src/Shards/Laws.antt =====
-- What `Load` answers after each method, and the invariant of the sharded map.
use mango_waf.Common.{ℕ, ◌≡◌, refl, ◌≢◌, none, some, arith, if◌then◌else◌, value_or, is_some}
use mango_waf.Common.Bytes.{Str, str_eq, str_eq_iff}
use mango_waf.Common.Dict.{
  lookup, Distinct, lookup-insert, lookup-delete, insert-Distinct, delete-Distinct,
}
use mango_waf.Shards.{Sharded, new_sharded, get_shard, load, store, remove, load_or_store}

module _ {V : Type 0} (hash : Str → ℕ) where
  -- Every key stands once, in the shard that its hash names.
  pub record IsPlaced (m : Sharded V) : Type 0 where
    pub distinct : (i : ℕ) → Distinct (m.shard i)
    pub placed : (i : ℕ) (k : Str) → lookup k (m.shard i) ≢ none → get_shard hash k ≡ i

  pub new_sharded-IsPlaced : IsPlaced new_sharded
  unfolding new_sharded lookup
  new_sharded-IsPlaced = record { distinct = λ i. tt; placed = λ i k h. absurd (h refl) }

  pub load-store :
      (j k : Str) (v : V) (m : Sharded V)
      → load hash j (store hash k v m) ≡ (if str_eq k j then some v else load hash j m)
  unfolding load store
  load-store j k v m =
      ground (arith, str_eq_iff k j, lookup-insert j k v (m.shard (get_shard hash k)))

  pub load-remove :
      (j k : Str) (m : Sharded V)
      → load hash j (remove hash k m) ≡ (if str_eq k j then none else load hash j m)
  unfolding load remove
  load-remove j k m = ground (arith, str_eq_iff k j, lookup-delete j k (m.shard (get_shard hash k)))

  pub store-IsPlaced : (k : Str) (v : V) (m : Sharded V) → IsPlaced m → IsPlaced (store hash k v m)
  unfolding store
  store-IsPlaced k v m h = record {
    distinct = λ i. ground (arith, h.distinct i, insert-Distinct k v (m.shard i) (h.distinct i));
    placed =
        λ i j e. ground (arith, e, h.placed i j, str_eq_iff k j, lookup-insert j k v (m.shard i));
  }

  pub remove-IsPlaced : (k : Str) (m : Sharded V) → IsPlaced m → IsPlaced (remove hash k m)
  unfolding remove
  remove-IsPlaced k m h = record {
    distinct = λ i. ground (arith, h.distinct i, delete-Distinct k (m.shard i) (h.distinct i));
    placed =
        λ i j e. ground (arith, e, h.placed i j, str_eq_iff k j, lookup-delete j k (m.shard i));
  }

  -- `LoadOrStore` keeps a value that is there, and stores the given one otherwise; the value that it
  -- returns is the one that `Load` answers afterwards, its flag says whether the key was there, and no
  -- other key is touched.
  pub load-load_or_store :
      (j k : Str) (v : V) (m : Sharded V)
      → let r = load_or_store hash k v m in
        (load hash j r.2 ≡ (if str_eq k j then some r.0 else load hash j m))
        × (r.1 ≡ is_some (load hash k m))
        × (r.0 ≡ value_or v (load hash k m))
  unfolding load_or_store
  load-load_or_store j k v m =
      (ground (arith, load-store j k v m, str_eq_iff k j), ground arith, ground arith)
