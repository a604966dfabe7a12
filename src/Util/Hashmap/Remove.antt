-- ===== src/Util/Hashmap/Remove.antt =====
-- `hashmap_remove` on valid maps, `hashmap_has`, and `hashmap_set` without memory.
use native.Mathlib.Decide.{ℕ_discrete}
use os.Prelude.{
  Bool-cases, ℕ, zero, suc, ◌≡◌, ◌≢◌, refl, Bool, true, false, ◌⊎◌, inl, inr, List, [], ◌∷◌, none,
  some, arith, ◌∙◌, sym, ap, get_elem?, set, get_elem?-set_self, get_elem?-set_ne,
}
use os.Alloc.{Mem}
use os.Util.Hashmap.{
  Ptr, null, KeyOps, Hashmap, bucket, chain_at, put_chain, chain_has, unlink, chain_remove,
  hashmap_set, hashmap_get, hashmap_has, hashmap_remove, Bucket, IsValid, find,
}
use os.Util.Hashmap.Chain.{
  chain_get-unlink, chain_has-unlink, chain_has-unlink_self, unlink-result, unlink-Bucket, lonely,
  chain_remove-unlink, chain_get-fresh, chain_set_failed,
}
use os.Util.Hashmap.Laws.{
  bucket-lt, inside, put_chain-IsValid, find-put_chain, hashmap_get-find, find-chain, Stored,
  hashmap_set-Stored,
}

set_same : {A : Type 0} (xs : List A) (i : ℕ) {a : A} → get_elem? xs i ≡ some a → set xs i a ≡ xs
set_same [] i h = refl
set_same (x ∷ xs) zero h = cc
set_same (x ∷ xs) (suc i) h = ap (◌∷◌ x) (set_same xs i h)

module _ {K : Type 0} (ops : KeyOps K) where
  open ops use {hash, comp, comp_iff}

  -- whether the key is in its bucket
  unfoldable pub holds : Hashmap K → K → Bool
  holds map key = elim (get_elem? map.entries (bucket ops map.size key)) [
    | none ↦ false
    | some c ↦ chain_has ops c key
  ]

  hashmap_has-holds :
      (map : Hashmap K) (key : K) → IsValid ops map → hashmap_has ops map key ≡ some (holds map key)
  unfolding hashmap_has holds
  hashmap_has-holds map key v = let (c, e, f, b) = inside ops map key v in ground (arith, e, f)

  holds-chain :
      (map : Hashmap K) (key : K) (c : List (K × Ptr))
      → get_elem? map.entries (bucket ops map.size key) ≡ some c
      → holds map key ≡ chain_has ops c key
  unfolding holds
  holds-chain map key c e = ground (arith, e)

  -- A key that a valid map does not have looks up as NULL.
  pub absent_get :
      (map : Hashmap K) (key : K)
      → IsValid ops map
      → hashmap_has ops map key ≡ some false
      → hashmap_get ops map key ≡ some null
  absent_get map key v h =
      let (c, e, f, b) = inside ops map key v in
      ground (
        arith,
        hashmap_has-holds map key v,
        holds-chain map key c e,
        hashmap_get-find ops map key v,
        find-chain ops map key c e,
        chain_get-fresh ops c key,
      )

  -- what `hashmap_remove` leaves, whose caller finds the old value in the result
  pub record Removed (map : Hashmap K) (key : K) (old : Ptr) (map' : Hashmap K) : Type 0 where
    pub valid : IsValid ops map'
    pub old_value : hashmap_get ops map key ≡ some old
    pub gone : hashmap_has ops map' key ≡ some false
    pub others :
        (j : K)
        → comp key j ≡ false
        → (hashmap_get ops map' j ≡ hashmap_get ops map j)
          × (hashmap_has ops map' j ≡ hashmap_has ops map j)

  module _ (map : Hashmap K) (key : K) (v : IsValid ops map) (c : List (K × Ptr))
      (e : get_elem? map.entries (bucket ops map.size key) ≡ some c)
      (b : Bucket ops map.size (bucket ops map.size key) c) where
    abbrev left : Hashmap K
    left = put_chain ops map key (unlink ops c key).1

    left-IsValid : IsValid ops left
    left-IsValid =
        put_chain-IsValid ops map key (unlink ops c key).1 v (unlink-Bucket ops key map.size _ c b)

    left-chain :
        (j : K)
        → bucket ops map.size key ≡ bucket ops map.size j
        → get_elem? left.entries (bucket ops left.size j) ≡ some (unlink ops c key).1
    left-chain j same =
        rw (← same)
          (get_elem?-set_self map.entries _ (unlink ops c key).1 (bucket-lt ops map key v))

    left-find : (j : K) → comp key j ≡ false → find ops left j ≡ find ops map j
    left-find j ne = ground (
      arith,
      find-put_chain ops map key j (unlink ops c key).1 v,
      chain_get-unlink ops key c j,
      find-chain ops map j c,
    )

    left-holds : (j : K) → comp key j ≡ false → holds left j ≡ holds map j
    left-holds j ne = elim (ℕ_discrete (bucket ops map.size key) (bucket ops map.size j)) [
      | yes same ↦ ground (
        arith,
        holds-chain left j (unlink ops c key).1 (left-chain j same),
        chain_has-unlink ops key c j,
        holds-chain map j c,
      )
      | no apart ↦
          let kept = get_elem?-set_ne map.entries (unlink ops c key).1 apart in
          unfold holds in (rw (kept, holds))
    ]

    left-Removed : Removed map key (unlink ops c key).0 left
    left-Removed = record {
      valid = left-IsValid;
      old_value =
          hashmap_get-find ops map key v
          ∙ ap some (find-chain ops map key c e ∙ sym (unlink-result ops key c));
      gone =
          hashmap_has-holds left key left-IsValid
          ∙ ap some (
              holds-chain left key (unlink ops c key).1 (left-chain key refl)
              ∙ chain_has-unlink_self ops key map.size _ c b);
      others = λ j ne. (
        hashmap_get-find ops left j left-IsValid
            ∙ ap some (left-find j ne)
            ∙ sym (hashmap_get-find ops map j v),
        hashmap_has-holds left j left-IsValid
            ∙ ap some (left-holds j ne)
            ∙ sym (hashmap_has-holds map j v),
      );
    }

  -- On a valid map `hashmap_remove` is defined unless the key's bucket is a single entry of another
  -- key. It returns the value that the key had, and leaves a valid map that lacks the key, and in
  -- which every other key is found and looks up as before.
  pub hashmap_remove-Removed :
      (map : Hashmap K) (key : K) (c : List (K × Ptr))
      → IsValid ops map
      → chain_at ops map key ≡ some c
      → lonely ops key c ≡ false
      → (old : Ptr) × (map' : Hashmap K) × (hashmap_remove ops map key ≡ some (old, map'))
        × Removed map key old map'
  unfolding hashmap_remove
  hashmap_remove-Removed map key d v at one =
      let (c, e, f, b) = inside ops map key v in
      let same : d ≡ c = cc in
      (
        (unlink ops c key).0,
        put_chain ops map key (unlink ops c key).1,
        ground (arith, chain_remove-unlink ops key c),
        left-Removed map key v c e b,
      )

  -- `hashmap_remove` of a key whose bucket is a single entry of another key reads through NULL.
  pub hashmap_remove_faults :
      (map : Hashmap K) (key k : K) (value : Ptr)
      → chain_at ops map key ≡ some ((k, value) ∷ [])
      → k ≢ key
      → hashmap_remove ops map key ≡ none
  unfolding hashmap_remove chain_remove
  hashmap_remove_faults map key k value h ne = ground (arith, comp_iff k key)

  hashmap_remove-lonely :
      (map : Hashmap K) (key : K) (c : List (K × Ptr))
      → chain_at ops map key ≡ some c
      → lonely ops key c ≡ true
      → hashmap_remove ops map key ≡ none
  unfolding hashmap_remove
  hashmap_remove-lonely map key c at e = ground (arith, at, e, chain_remove-unlink ops key c)

  -- Without memory, `hashmap_set` of a key that a valid map lacks changes nothing, and returns NULL.
  pub hashmap_set_failed :
      (map : Hashmap K) (key : K) (value : Ptr) (m : Mem)
      → IsValid ops map
      → hashmap_has ops map key ≡ some false
      → hashmap_set ops map key value (false ∷ m) ≡ some (map, null, m)
  unfolding hashmap_set
  hashmap_set_failed map key value m v h =
      let (c, e, f, b) = inside ops map key v in
      let absent : chain_has ops c key ≡ false =
        ground (arith, hashmap_has-holds map key v, holds-chain map key c e) in
      ground (
        arith,
        f,
        chain_set_failed ops key value m c absent,
        set_same map.entries (bucket ops map.size key) e,
      )

  -- On a valid map, with memory for an entry, `hashmap_set` returns the value that the key had, and
  -- leaves a valid map in which the key has the new value and every other key looks up as before;
  -- without memory, where the map lacks the key, it changes nothing and returns NULL.
  pub hashmap_set-Sets :
      (map : Hashmap K) (key : K) (value : Ptr) (m : Mem)
      → IsValid ops map
      → ((map' : Hashmap K) × (old : Ptr) × (m' : Mem) × (hashmap_set ops map key value (true ∷ m)
            ≡ some (map', old, m'))
          × Stored ops map key value map' old)
        × ((hashmap_has ops map key ≡ some true)
            ⊎ (hashmap_set ops map key value (false ∷ m) ≡ some (map, null, m)))
  hashmap_set-Sets map key value m v = (
    hashmap_set-Stored ops map key value m v,
    without (holds map key) (hashmap_has-holds map key v),
  )
    where
      without :
          (b : Bool)
          → hashmap_has ops map key ≡ some b
          → (hashmap_has ops map key ≡ some true)
            ⊎ (hashmap_set ops map key value (false ∷ m) ≡ some (map, null, m))
      without true e = inl e
      without false e = inr (hashmap_set_failed map key value m v e)

  -- On a valid map, unless the key's bucket is a single entry of another key, `hashmap_remove`
  -- returns the value that the key had, and leaves a valid map without the key in which every other
  -- key looks up as before; where the bucket is such an entry, it reads through NULL.
  pub hashmap_remove-Removes :
      (map : Hashmap K) (key : K) (c : List (K × Ptr))
      → IsValid ops map
      → chain_at ops map key ≡ some c
      → ((lonely ops key c ≡ false)
          × ((old : Ptr) × (map' : Hashmap K) × (hashmap_remove ops map key ≡ some (old, map'))
              × Removed map key old map'))
        ⊎ ((lonely ops key c ≡ true) × (hashmap_remove ops map key ≡ none))
  hashmap_remove-Removes map key c v at = elim (Bool-cases (lonely ops key c)) [
    | inl e ↦ inr (e, hashmap_remove-lonely map key c at e)
    | inr e ↦ inl (e, hashmap_remove-Removed map key c v at e)
  ]
