-- ===== src/Util/Hashmap/Laws.antt =====
-- `hashmap_create`, `hashmap_set`, `hashmap_get` and `hashmap_has` on valid maps.
use native.Mathlib.Nat.{mod-lt, mod-eq_of_lt}
use os.Prelude.{
  ℕ, zero, suc, ◌%◌, ◌^◌, ◌<◌, ◌≡◌, refl, true, List, [], ◌∷◌, some, if◌then◌else◌, arith,
  Option-cases, inl, inr, ◌∙◌, sym, ap, length, get_elem?, replicate, length-set, length-replicate,
  get_elem?-set_self, get_elem?-set_ne, ◌==◌,
}
use native.Mathlib.Decide.{ℕ_discrete}
use os.Alloc.{Mem, malloc}
use os.Prelude.Int.{pos}
use os.Util.Hashmap.{
  Ptr, null, KeyOps, Hashmap, hashmap_create, bucket, chain_at, put_chain, chain_set, chain_get,
  hashmap_set, hashmap_get, Bucket, IsValid, find,
}
use os.Util.Hashmap.Chain.{chain_get-set, chain_set-result, chain_set-Bucket}

get_elem?-below :
    {A : Type 0} (xs : List A) (i : ℕ) → i < length xs → (x : A) × (get_elem? xs i ≡ some x)
get_elem?-below [] i h = absurd (omega arith)
get_elem?-below (x ∷ xs) zero h = (x, refl)
get_elem?-below (x ∷ xs) (suc i) h = get_elem?-below xs i (omega arith)

get_elem?-replicate :
    {A : Type 0} (n i : ℕ) (a : A) {b : A} → get_elem? (replicate n a) i ≡ some b → b ≡ a
get_elem?-replicate zero i a h = cc
get_elem?-replicate (suc n) zero a h = cc
get_elem?-replicate (suc n) (suc i) a h = get_elem?-replicate n i a h

some-inj : {A : Type 0} {a b : A} → some a ≡ some b → a ≡ b
some-inj h = cc

module _ {K : Type 0} (ops : KeyOps K) where
  open ops use {hash, comp, comp_iff}

  pub bucket-lt :
      (map : Hashmap K) (key : K) → IsValid ops map → bucket ops map.size key < length map.entries
  bucket-lt map key v =
      let a : hash key % map.size < map.size = mod-lt (hash key) v.positive in
      omega (
        arith,
        v.slots,
        mod-eq_of_lt {n = hash key % map.size} {m = 2 ^ 32} (omega (arith, v.fits)),
      )

  -- Every key has its bucket.
  pub inside :
      (map : Hashmap K) (key : K)
      → IsValid ops map
      → (c : List (K × Ptr)) × (get_elem? map.entries (bucket ops map.size key) ≡ some c)
        × (chain_at ops map key ≡ some c)
        × Bucket ops map.size (bucket ops map.size key) c
  unfolding chain_at
  inside map key v =
      let (c, e) = get_elem?-below map.entries (bucket ops map.size key) (bucket-lt map key v) in
      let p = v.positive in (c, e, ground (arith, e), v.buckets _ c e)

  -- A valid bucket in place of another keeps the map valid.
  pub put_chain-IsValid :
      (map : Hashmap K) (key : K) (c : List (K × Ptr))
      → IsValid ops map
      → Bucket ops map.size (bucket ops map.size key) c
      → IsValid ops (put_chain ops map key c)
  put_chain-IsValid map key c v b =
      let j = bucket ops map.size key in
      record {
        positive = v.positive;
        fits = v.fits;
        slots = length-set map.entries j c ∙ v.slots;
        buckets = λ i d h. elim (ℕ_discrete j i) [
          | yes e ↦
              let same : c ≡ d =
                some-inj (
                  sym (get_elem?-set_self map.entries j c (bucket-lt map key v)) ∙ rw (← e) at h) in
              rw (← same, ← e) b
          | no ne ↦ v.buckets i d (sym (get_elem?-set_ne map.entries c ne) ∙ h)
        ];
      }

  -- What a key finds behind a change of one bucket.
  pub find-put_chain :
      (map : Hashmap K) (key j : K) (c : List (K × Ptr))
      → IsValid ops map
      → find ops (put_chain ops map key c) j ≡ (
          if bucket ops map.size key == bucket ops map.size j
          then chain_get ops c j
          else find ops map j)
  unfolding find
  find-put_chain map key j c v =
      let k = bucket ops map.size key in
      elim (ℕ_discrete k (bucket ops map.size j)) [
        | yes e ↦ ground (arith, get_elem?-set_self map.entries k c (bucket-lt map key v))
        | no ne ↦ ground (arith, get_elem?-set_ne map.entries c ne)
      ]

  -- On a valid map a look-up is defined, and gives what the key's bucket holds.
  pub hashmap_get-find :
      (map : Hashmap K) (key : K)
      → IsValid ops map
      → hashmap_get ops map key ≡ some (find ops map key)
  unfolding hashmap_get find
  hashmap_get-find map key v = let (c, e, f, b) = inside map key v in ground (arith, e, f)

  find-empty :
      (size : ℕ) (key : K)
      → find ops (record { size = size; entries = replicate size [] }) key ≡ null
  unfolding find chain_get
  find-empty size key =
      elim (Option-cases
        (get_elem? (replicate {A = List (K × Ptr)} size []) (bucket ops size key))) [
          | inl e ↦ ground arith
          | inr (c, e) ↦ ground (arith, get_elem?-replicate size (bucket ops size key) [] e)
        ]

  -- If both calls of `malloc` succeed, `hashmap_create` returns a valid map in which every key
  -- looks up as NULL, for each size from 1 to 2 ^ 31 - 1, the positive values of its `int`.
  pub hashmap_create-IsValid :
      (size n : ℕ)
      → 0 < size
      → size < 2 ^ 31
      → (map : Hashmap K) × ((hashmap_create (pos size) (true ∷ true ∷ replicate n true)).0
          ≡ some map)
        × IsValid ops map
        × ((key : K) → hashmap_get ops map key ≡ some null)
  unfolding hashmap_create malloc Bucket
  hashmap_create-IsValid size n p f = (
    record { size = size; entries = replicate size [] },
    refl,
    valid,
    λ key. hashmap_get-find _ key valid ∙ ap some (find-empty size key),
  )
    where
      valid : IsValid ops (record { size = size; entries = replicate size [] })
      valid = record {
        positive = p;
        fits = omega (arith, f);
        slots = length-replicate size [];
        buckets = λ i c h. rw (get_elem?-replicate size i [] h) tt;
      }

  pub find-chain :
      (map : Hashmap K) (key : K) (c : List (K × Ptr))
      → get_elem? map.entries (bucket ops map.size key) ≡ some c
      → find ops map key ≡ chain_get ops c key
  unfolding find
  find-chain map key c e = ground (arith, e)

  find-set :
      (map : Hashmap K) (key : K) (value : Ptr) (m : Mem) (c : List (K × Ptr))
      → IsValid ops map
      → get_elem? map.entries (bucket ops map.size key) ≡ some c
      → (j : K)
      → find ops (put_chain ops map key (chain_set ops c key value (true ∷ m)).0) j
        ≡ (if comp key j then value else find ops map j)
  find-set map key value m c v e j = ground (
    arith,
    find-put_chain map key j (chain_set ops c key value (true ∷ m)).0 v,
    chain_get-set ops key value m c j,
    comp_iff key j,
    find-chain map j c,
  )

  -- what `hashmap_set` leaves, whose caller finds the old value in the result
  pub record Stored (map : Hashmap K) (key : K) (value : Ptr) (map' : Hashmap K) (old : Ptr)
      : Type 0 where
    pub valid : IsValid ops map'
    pub old_value : hashmap_get ops map key ≡ some old
    pub reads :
        (j : K)
        → hashmap_get ops map' j ≡ (if comp key j then some value else hashmap_get ops map j)

  -- On a valid map, with memory for an entry, `hashmap_set` is defined. It returns the value that
  -- the key had, and leaves a valid map in which the key has the new value and every other key
  -- looks up as before.
  pub hashmap_set-Stored :
      (map : Hashmap K) (key : K) (value : Ptr) (m : Mem)
      → IsValid ops map
      → (map' : Hashmap K) × (old : Ptr) × (m' : Mem) × (hashmap_set ops map key value (true ∷ m)
          ≡ some (map', old, m'))
        × Stored map key value map' old
  unfolding hashmap_set
  hashmap_set-Stored map key value m v =
      let (c, e, f, b) = inside map key v in
      let r = chain_set ops c key value (true ∷ m) in
      let valid =
        put_chain-IsValid map key r.0 v (chain_set-Bucket ops key value m map.size _ c refl b) in
      (
        put_chain ops map key r.0,
        r.1,
        r.2,
        ground (arith, f),
        record {
          valid = valid;
          old_value =
              hashmap_get-find map key v
              ∙ ap some (find-chain map key c e ∙ sym (chain_set-result ops key value m c));
          reads = λ j. ground (
            arith,
            hashmap_get-find (put_chain ops map key r.0) j valid,
            hashmap_get-find map j v,
            find-set map key value m c v e j,
          );
        },
      )
