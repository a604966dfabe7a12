-- ===== src/Util/Hashmap/Tests.antt =====
-- Runs of the hash map.
use os.Prelude.{
  ◌⊎◌, ℕ, ◌+◌, ◌*◌, ◌≡◌, refl, true, false, List, [], ◌∷◌, Option, none, some, arith, zero, suc,
  get_elem?,
}
use os.Alloc.{Mem, plenty}
use os.Prelude.Int.{pos}
use os.Util.Hashmap.{
  Ptr, null, Hashmap, hashmap_create, hashmap_set, hashmap_get, hashmap_has, hashmap_remove, Bucket,
  IsValid, chain_at, int_keys, hashmap_int_hash, hashmap_int_comp, hashmap_int_dupe,
  hashmap_string_hash, chain_set, chain_get, chain_has, hashmap_is_empty,
}
use os.Util.Hashmap.Chain.{lonely}
use os.Util.Hashmap.Laws.{hashmap_create-IsValid, Stored}
use os.Util.Hashmap.Remove.{hashmap_remove-Removes, hashmap_set-Sets, Removed}

abbrev sample : Hashmap ℕ
sample = record { size = 2; entries = ((4, 40) ∷ (6, 60) ∷ []) ∷ ((3, 30) ∷ []) ∷ [] }

buckets-sample :
    (i : ℕ) (c : List (ℕ × Ptr)) → get_elem? sample.entries i ≡ some c → Bucket int_keys 2 i c
unfolding Bucket chain_has hashmap_int_hash hashmap_int_comp
buckets-sample zero c h = ground arith
buckets-sample (suc zero) c h = ground arith
buckets-sample (suc (suc i)) c h = cc

sample-IsValid : IsValid int_keys sample
sample-IsValid = record {
  positive = omega arith;
  fits = omega arith;
  slots = refl;
  buckets = buckets-sample;
}

-- "ab" by h = c + 65599 * h
string_hash_ab : hashmap_string_hash (97 ∷ 98 ∷ []) ≡ 98 + 65599 * 97
unfolding hashmap_string_hash
string_hash_ab = refl

session :
    elim (hashmap_set int_keys sample 8 80 (plenty 1)) as (λ x. Option Ptr) [
      | none ↦ none
      | some (map, old, m) ↦ hashmap_get int_keys map 8
    ]
    ≡ some 80
unfolding hashmap_set hashmap_get chain_at hashmap_int_hash hashmap_int_comp hashmap_int_dupe
    chain_set chain_get
session = refl

full_map_is_not_empty : hashmap_is_empty sample ≡ false
unfolding hashmap_is_empty
full_map_is_not_empty = refl

hashmap_create-IsValid_example :
    (map : Hashmap ℕ) × ((hashmap_create (pos 16) (true ∷ true ∷ [])).0 ≡ some map)
    × IsValid int_keys map
    × ((key : ℕ) → hashmap_get int_keys map key ≡ some null)
hashmap_create-IsValid_example = hashmap_create-IsValid int_keys 16 0 (omega arith) (omega arith)

hashmap_set-Sets_example :
    ((map' : Hashmap ℕ) × (old : Ptr) × (m' : Mem) × (hashmap_set int_keys sample 8 80 (true ∷ [])
        ≡ some (map', old, m'))
      × Stored int_keys sample 8 80 map' old)
    × ((hashmap_has int_keys sample 8 ≡ some true)
        ⊎ (hashmap_set int_keys sample 8 80 (false ∷ []) ≡ some (sample, null, [])))
hashmap_set-Sets_example = hashmap_set-Sets int_keys sample 8 80 [] sample-IsValid

hashmap_remove-Removes_example :
    ((lonely int_keys 5 ((3, 30) ∷ []) ≡ false)
      × ((old : Ptr) × (map' : Hashmap ℕ) × (hashmap_remove int_keys sample 5 ≡ some (old, map'))
          × Removed int_keys sample 5 old map'))
    ⊎ ((lonely int_keys 5 ((3, 30) ∷ []) ≡ true) × (hashmap_remove int_keys sample 5 ≡ none))
unfolding chain_at hashmap_int_hash
hashmap_remove-Removes_example =
    hashmap_remove-Removes int_keys sample 5 ((3, 30) ∷ []) sample-IsValid refl
