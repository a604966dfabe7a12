-- ===== src/Util/Hashmap.antt =====
-- The chained hash map, kernel/src/util/hashmap.c. An entry is its key and its value; a bucket is
-- the list of its entries in `next` order. Values are addresses, with 0 for NULL. An operation
-- returns `none` where the code has no defined behaviour: a division by a size of 0, or a read
-- through a NULL pointer.
pub mod Chain
pub mod Laws
pub mod Remove
mod Tests
use os.Prelude.{
  ℕ, zero, suc, ◌+◌, ◌-◌, ◌*◌, ◌%◌, ◌^◌, ◌≡◌, ◌↔◌, Bool, true, false, List, [], ◌∷◌, ◌++◌, Option,
  none, some, if◌then◌else◌, ◌==◌, ==_iff, ltb, get_elem?, set, replicate, refl, length, ◌<◌, ◌≤◌,
}
use os.Prelude.Int.{ℤ, pos, negsuc}
use os.Alloc.{Mem, malloc}

abbrev pub Ptr : Type 0
Ptr = ℕ

abbrev pub null : Ptr
null = 0

-- The functions that a map carries for its keys. `hash_key_dup` returns a key of equal content.
pub record KeyOps (K : Type 0) : Type 0 where
  pub hash : K → ℕ
  pub comp : K → K → Bool
  pub dup : K → K
  pub comp_iff : (a b : K) → (comp a b ≡ true) ↔ (a ≡ b)
  pub dup_lem : (a : K) → dup a ≡ a

-- `hashmap_int_hash`, `hashmap_int_comp` and `hashmap_int_dupe`, for keys of 64 bits
pub hashmap_int_hash : ℕ → ℕ
hashmap_int_hash key = key

pub hashmap_int_comp : ℕ → ℕ → Bool
hashmap_int_comp a b = a == b

pub hashmap_int_dupe : ℕ → ℕ
hashmap_int_dupe key = key

pub hashmap_int_comp_iff : (a b : ℕ) → (hashmap_int_comp a b ≡ true) ↔ (a ≡ b)
unfolding hashmap_int_comp
hashmap_int_comp_iff a b = ==_iff a b

pub hashmap_int_dupe_lem : (a : ℕ) → hashmap_int_dupe a ≡ a
unfolding hashmap_int_dupe
hashmap_int_dupe_lem a = refl

abbrev pub int_keys : KeyOps ℕ
int_keys = record {
  hash = hashmap_int_hash;
  comp = hashmap_int_comp;
  dup = hashmap_int_dupe;
  comp_iff = hashmap_int_comp_iff;
  dup_lem = hashmap_int_dupe_lem;
}

-- `hashmap_string_hash` over the bytes of the text. A byte of 128 or more is a negative `char`.
string_hash_from : ℕ → List ℕ → ℕ
string_hash_from h [] = h
string_hash_from h (b ∷ bs) =
    let c = if ltb b 128 then b else b + 2 ^ 64 - 256 in
    string_hash_from ((c + h * 2 ^ 6 + h * 2 ^ 16 + 2 ^ 64 - h) % 2 ^ 64) bs

pub hashmap_string_hash : List ℕ → ℕ
unfolding string_hash_from
hashmap_string_hash bs = string_hash_from 0 bs

pub record Hashmap (K : Type 0) : Type 0 where
  pub size : ℕ
  pub entries : List (List (K × Ptr))

-- an `int` as a `size_t`: -(n + 1) is 2 ^ 64 - (n + 1)
abbrev pub size_of_int : ℤ → ℕ
size_of_int (pos n) = n
size_of_int (negsuc n) = 2 ^ 64 - 1 - n

module _ {K : Type 0} where
  -- `hashmap_create` and `hashmap_create_int`, which differ in the key functions alone
  pub hashmap_create : ℤ → Mem → Option (Hashmap K) × Mem
  unfolding malloc
  hashmap_create size m =
      let n = size_of_int size in
      let (got, m1) = malloc m in
      if got
      then (let (got', m2) = malloc m1 in
          (if got' then some (record { size = n; entries = replicate n [] }) else none, m2))
      else (none, m1)

module _ {K : Type 0} (ops : KeyOps K) where
  open ops use {hash, comp, dup}

  -- `unsigned int hash = map->hash_func(key) % map->size`
  abbrev pub bucket : ℕ → K → ℕ
  bucket size key = hash key % size % 2 ^ 32

  -- `map->entries[hash]`
  pub chain_at : Hashmap K → K → Option (List (K × Ptr))
  chain_at map key = if map.size == 0 then none else get_elem? map.entries (bucket map.size key)

  abbrev pub put_chain : Hashmap K → K → List (K × Ptr) → Hashmap K
  put_chain map key c = record map { entries = set map.entries (bucket map.size key) c }

  -- Behind the last entry a new one is made; where `malloc` fails the bucket stays.
  unfoldable pub chain_set : List (K × Ptr) → K → Ptr → Mem → List (K × Ptr) × Ptr × Mem
  unfolding malloc
  chain_set [] key value m =
      let (got, m') = malloc m in (if got then (dup key, value) ∷ [] else [], null, m')
  chain_set ((k, v) ∷ c) key value m =
      let (c', out, m') = chain_set c key value m in
      if comp k key then ((k, value) ∷ c, v, m) else ((k, v) ∷ c', out, m')

  pub hashmap_set : Hashmap K → K → Ptr → Mem → Option (Hashmap K × Ptr × Mem)
  hashmap_set map key value m = elim (chain_at map key) [
    | none ↦ none
    | some c ↦ let (c', out, m') = chain_set c key value m in some (put_chain map key c', out, m')
  ]

  unfoldable pub chain_get : List (K × Ptr) → K → Ptr
  chain_get [] key = null
  chain_get ((k, v) ∷ c) key = if comp k key then v else chain_get c key

  pub hashmap_get : Hashmap K → K → Option Ptr
  hashmap_get map key = elim (chain_at map key) [ none ↦ none | some c ↦ some (chain_get c key) ]

  unfoldable pub chain_has : List (K × Ptr) → K → Bool
  chain_has [] key = false
  chain_has ((k, v) ∷ c) key = if comp k key then true else chain_has c key

  pub hashmap_has : Hashmap K → K → Option Bool
  hashmap_has map key = elim (chain_at map key) [ none ↦ none | some c ↦ some (chain_has c key) ]

  -- the rounds of the `do` loop of `hashmap_remove`, at an entry or behind the last one
  unfoldable pub unlink : List (K × Ptr) → K → Ptr × List (K × Ptr)
  unlink [] key = (null, [])
  unlink ((k, v) ∷ c) key =
      let (out, c') = unlink c key in if comp k key then (v, c) else (out, (k, v) ∷ c')

  -- The loop reads `x->key` before it tests `x`, so the second entry has to exist.
  unfoldable pub chain_remove : List (K × Ptr) → K → Option (Ptr × List (K × Ptr))
  unfolding unlink
  chain_remove [] key = some (null, [])
  chain_remove ((k, v) ∷ []) key = if comp k key then some (v, []) else none
  chain_remove ((k, v) ∷ e ∷ c) key =
      let (out, c') = unlink (e ∷ c) key in
      if comp k key then some (v, e ∷ c) else some (out, (k, v) ∷ c')

  pub hashmap_remove : Hashmap K → K → Option (Ptr × Hashmap K)
  hashmap_remove map key = elim (chain_at map key) [
    | none ↦ none
    | some c ↦ elim (chain_remove c key) [
      | none ↦ none
      | some (out, c') ↦ some (out, put_chain map key c')
    ]
  ]

  -- A bucket of the map: its keys hash to its index, and are distinct.
  abbrev pub Fresh : K → List (K × Ptr) → Type 0
  Fresh key c = chain_has c key ≡ false

  unfoldable pub Bucket : ℕ → ℕ → List (K × Ptr) → Type 0
  Bucket size i [] = Unit
  Bucket size i ((k, v) ∷ c) = (bucket size k ≡ i) × Fresh k c × Bucket size i c

  pub record IsValid (map : Hashmap K) : Type 0 where
    pub positive : 0 < map.size
    pub fits : map.size ≤ 2 ^ 32
    pub slots : length map.entries ≡ map.size
    pub buckets :
        (i : ℕ) (c : List (K × Ptr)) → get_elem? map.entries i ≡ some c → Bucket map.size i c

  -- the value that a valid map holds for a key, by its buckets
  unfoldable pub find : Hashmap K → K → Ptr
  find map key = elim (get_elem? map.entries (bucket map.size key)) [
    | none ↦ null
    | some c ↦ chain_get c key
  ]

-- the loop of `hashmap_is_empty`
all_empty : {K : Type 0} → List (List (K × Ptr)) → Bool
all_empty [] = true
all_empty ([] ∷ cs) = all_empty cs
all_empty ((e ∷ c) ∷ cs) = false

pub hashmap_is_empty : {K : Type 0} → Hashmap K → Bool
unfolding all_empty
hashmap_is_empty map = all_empty map.entries
