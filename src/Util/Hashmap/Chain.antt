-- ===== src/Util/Hashmap/Chain.antt =====
-- One bucket of the hash map: setting, reading and unlinking an entry.
use os.Prelude.{
  ℕ, ◌≡◌, refl, Bool, true, false, List, [], ◌∷◌, none, some, if◌then◌else◌, arith, Bool-cases, inl,
  inr,
}
use os.Alloc.{Mem}
use os.Util.Hashmap.{
  Ptr, null, KeyOps, bucket, chain_set, chain_get, chain_has, unlink, chain_remove, Fresh, Bucket,
}

module _ {K : Type 0} (ops : KeyOps K) where
  open ops use {hash, comp, dup, comp_iff, dup_lem}

  -- the call of `malloc` that an absent key makes succeeds
  module _ (key : K) (value : Ptr) (m : Mem) where
    pub chain_get-set :
        (c : List (K × Ptr)) (j : K)
        → chain_get ops (chain_set ops c key value (true ∷ m)).0 j
          ≡ (if comp key j then value else chain_get ops c j)
    unfolding chain_get chain_set
    chain_get-set [] j = rw dup_lem
    chain_get-set ((k, v) ∷ c) j =
        ground (arith, comp_iff k key, comp_iff k j, comp_iff key j, chain_get-set c j)

    pub chain_has-set :
        (c : List (K × Ptr)) (j : K)
        → chain_has ops (chain_set ops c key value (true ∷ m)).0 j
          ≡ (if comp key j then true else chain_has ops c j)
    unfolding chain_has chain_set
    chain_has-set [] j = rw dup_lem
    chain_has-set ((k, v) ∷ c) j =
        ground (arith, comp_iff k key, comp_iff k j, comp_iff key j, chain_has-set c j)

    pub chain_set-result :
        (c : List (K × Ptr)) → (chain_set ops c key value (true ∷ m)).1 ≡ chain_get ops c key
    unfolding chain_get chain_set
    chain_set-result [] = refl
    chain_set-result ((k, v) ∷ c) = ground (arith, chain_set-result c)

    pub chain_set-Bucket :
        (size : ℕ) (i : ℕ) (c : List (K × Ptr))
        → bucket ops size key ≡ i
        → Bucket ops size i c
        → Bucket ops size i (chain_set ops c key value (true ∷ m)).0
    unfolding Bucket chain_set chain_has
    chain_set-Bucket size i [] e b = rw dup_lem (e, refl, tt)
    chain_set-Bucket size i ((k, v) ∷ c) e b = elim (Bool-cases (comp k key)) [
      | inl same ↦ rw same b
      | inr other ↦ rw other (
        b.0,
        ground (arith, chain_has-set c k, comp_iff k key, comp_iff key k, b.1),
        chain_set-Bucket size i c e b.2,
      )
    ]

  -- Where the call fails, an absent key changes nothing.
  pub chain_set_failed :
      (key : K) (value : Ptr) (m : Mem) (c : List (K × Ptr))
      → chain_has ops c key ≡ false
      → chain_set ops c key value (false ∷ m) ≡ (c, null, m)
  unfolding chain_set chain_has
  chain_set_failed key value m [] h = refl
  chain_set_failed key value m ((k, v) ∷ c) h = ground (arith, chain_set_failed key value m c)

  pub chain_get-fresh :
      (c : List (K × Ptr)) (key : K) → chain_has ops c key ≡ false → chain_get ops c key ≡ null
  unfolding chain_get chain_has
  chain_get-fresh [] key h = refl
  chain_get-fresh ((k, v) ∷ c) key h = ground (arith, chain_get-fresh c key)

  module _ (key : K) where
    pub unlink-result : (c : List (K × Ptr)) → (unlink ops c key).0 ≡ chain_get ops c key
    unfolding unlink chain_get
    unlink-result [] = refl
    unlink-result ((k, v) ∷ c) = ground (arith, unlink-result c)

    pub chain_has-unlink :
        (c : List (K × Ptr)) (j : K)
        → comp key j ≡ false
        → chain_has ops (unlink ops c key).1 j ≡ chain_has ops c j
    unfolding unlink chain_has
    chain_has-unlink [] j h = refl
    chain_has-unlink ((k, v) ∷ c) j h =
        ground (arith, comp_iff k key, comp_iff k j, comp_iff key j, chain_has-unlink c j h)

    pub chain_get-unlink :
        (c : List (K × Ptr)) (j : K)
        → comp key j ≡ false
        → chain_get ops (unlink ops c key).1 j ≡ chain_get ops c j
    unfolding unlink chain_get
    chain_get-unlink [] j h = refl
    chain_get-unlink ((k, v) ∷ c) j h =
        ground (arith, comp_iff k key, comp_iff k j, comp_iff key j, chain_get-unlink c j h)

    pub chain_has-unlink_self :
        (size : ℕ) (i : ℕ) (c : List (K × Ptr))
        → Bucket ops size i c
        → chain_has ops (unlink ops c key).1 key ≡ false
    unfolding unlink chain_has Bucket
    chain_has-unlink_self size i [] b = refl
    chain_has-unlink_self size i ((k, v) ∷ c) b =
        ground (arith, comp_iff k key, chain_has-unlink_self size i c b.2, b.1)

    Fresh-unlink : (c : List (K × Ptr)) (j : K) → Fresh ops j c → Fresh ops j (unlink ops c key).1
    unfolding unlink chain_has
    Fresh-unlink [] j h = refl
    Fresh-unlink ((k, v) ∷ c) j h = ground (arith, Fresh-unlink c j)

    pub unlink-Bucket :
        (size : ℕ) (i : ℕ) (c : List (K × Ptr))
        → Bucket ops size i c
        → Bucket ops size i (unlink ops c key).1
    unfolding unlink Bucket
    unlink-Bucket size i [] b = tt
    unlink-Bucket size i ((k, v) ∷ c) b = elim (Bool-cases (comp k key)) [
      | inl same ↦ rw same b.2
      | inr other ↦ rw other (b.0, Fresh-unlink c k b.1, unlink-Bucket size i c b.2)
    ]

    -- The removal is defined unless the bucket holds a single entry, of another key.
    abbrev pub lonely : List (K × Ptr) → Bool
    lonely [] = false
    lonely ((k, v) ∷ []) = if comp k key then false else true
    lonely ((k, v) ∷ e ∷ c) = false

    pub chain_remove-unlink :
        (c : List (K × Ptr))
        → chain_remove ops c key ≡ (if lonely c then none else some (unlink ops c key))
    unfolding chain_remove
    chain_remove-unlink [] = refl
    chain_remove-unlink ((k, v) ∷ []) = ground arith
    chain_remove-unlink ((k, v) ∷ e ∷ c) = ground arith
