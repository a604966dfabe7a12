-- ===== src/Util/Bitset/Laws.antt =====
-- `bitset_set`, `bitset_clear` and `bitset_test` act on single bits.
use Prim.Native.Nat.{bit_and, bit_or}
use native.Mathlib.Nat.{mod-eq_of_lt, mod-lt}
use native.Mathlib.Decide.{ℕ_discrete}
use os.Prelude.{
  ℕ, zero, suc, ◌-◌, ◌/◌, ◌%◌, ◌^◌, ◌<◌, ◌≡◌, refl, sym, ap, ◌∙◌, ◌&&◌, Bool, true, false, not,
  List, [], ◌∷◌, none, some, if◌then◌else◌, ◌==◌, get_elem?, set, length, arith, get_elem?-set_self,
  get_elem?-set_ne, length-set,
}
use os.Prelude.Bits.{
  bit, bit-bit_or, bit-bit_and, bit-pow, bit-complement, bit_or-lt, bit_and-le, bit_and-pow_iff,
  bit_lt_two,
}
use os.Util.Bitset.{Bitset, bitset_set, bitset_clear, bitset_test}

-- every element is a byte
abbrev pub Bytes : List ℕ → Type 0
Bytes [] = Unit
Bytes (b ∷ bs) = (b < 2 ^ 8) × Bytes bs

-- whether bit `i` is in the set
unfoldable pub member : List ℕ → ℕ → Bool
member bs i = elim (get_elem? bs (i / 8)) [ none ↦ false | some b ↦ not (bit b (i % 8) == 0) ]

pub byte_at :
    (bs : List ℕ) (i : ℕ)
    → Bytes bs
    → i < length bs
    → (b : ℕ) × (get_elem? bs i ≡ some b) × (b < 2 ^ 8)
byte_at [] i h lt = absurd (omega arith)
byte_at (b ∷ bs) zero h lt = (b, refl, h.0)
byte_at (b ∷ bs) (suc i) h lt = byte_at bs i h.1 (omega arith)

Bytes-set : (bs : List ℕ) (i b : ℕ) → Bytes bs → b < 2 ^ 8 → Bytes (set bs i b)
Bytes-set [] i b h lt = tt
Bytes-set (c ∷ bs) zero b h lt = (lt, h.1)
Bytes-set (c ∷ bs) (suc i) b h lt = (h.0, Bytes-set bs i b h.1 lt)

pow-lt_byte : (k : ℕ) → k < 8 → 2 ^ k < 2 ^ 8
pow-lt_byte zero h = omega arith
pow-lt_byte (suc zero) h = omega arith
pow-lt_byte (suc (suc zero)) h = omega arith
pow-lt_byte (suc (suc (suc zero))) h = omega arith
pow-lt_byte (suc (suc (suc (suc zero)))) h = omega arith
pow-lt_byte (suc (suc (suc (suc (suc zero))))) h = omega arith
pow-lt_byte (suc (suc (suc (suc (suc (suc zero)))))) h = omega arith
pow-lt_byte (suc (suc (suc (suc (suc (suc (suc zero))))))) h = omega arith
pow-lt_byte (suc (suc (suc (suc (suc (suc (suc (suc k)))))))) h = absurd (omega arith)

-- the byte that each operation writes
module _ (b k : ℕ) (lt : b < 2 ^ 8) (in_byte : k < 8) where
  pub set_byte : bit_or b (2 ^ k) % 2 ^ 8 ≡ bit_or b (2 ^ k)
  set_byte = mod-eq_of_lt (bit_or-lt 8 b (2 ^ k) lt (pow-lt_byte k in_byte))

  bit-set_byte : (j : ℕ) → bit (bit_or b (2 ^ k) % 2 ^ 8) j ≡ (if k == j then 1 else bit b j)
  bit-set_byte j = rw set_byte (ground (arith, bit-bit_or b (2 ^ k) j, bit-pow k j, bit_lt_two b j))

  clear_byte : bit_and b (2 ^ 32 - 1 - 2 ^ k) % 2 ^ 8 ≡ bit_and b (2 ^ 32 - 1 - 2 ^ k)
  clear_byte = mod-eq_of_lt (omega (arith, bit_and-le b (2 ^ 32 - 1 - 2 ^ k)))

  bit-clear_byte :
      (j : ℕ)
      → j < 8
      → bit (bit_and b (2 ^ 32 - 1 - 2 ^ k) % 2 ^ 8) j ≡ (if k == j then 0 else bit b j)
  bit-clear_byte j h =
      let small : 2 ^ k < 2 ^ 32 = omega (arith, pow-lt_byte k in_byte) in
      rw clear_byte (
        ground (
          arith,
          bit-bit_and b (2 ^ 32 - 1 - 2 ^ k) j,
          bit-complement 32 (2 ^ k) j small,
          bit-pow k j,
          bit_lt_two b j,
        ))

-- Membership behind the write of one byte.
member-set :
    (bs : List ℕ) (i j b : ℕ)
    → i < length bs
    → member (set bs i b) j ≡ (if i == j / 8 then not (bit b (j % 8) == 0) else member bs j)
unfolding member
member-set bs i j b lt = elim (ℕ_discrete i (j / 8)) [
  | yes e ↦ ground (arith, get_elem?-set_self bs i b lt)
  | no ne ↦ ground (arith, get_elem?-set_ne bs b ne)
]

-- The set is well formed: each element is a byte.
pub record IsBitset (s : Bitset) : Type 0 where
  pub bytes : Bytes s.bytes
  pub size : length s.bytes ≡ s.size

-- what an operation leaves, that gives bit `i` the value `v`
pub record Changed (s : Bitset) (i : ℕ) (v : Bool) (s' : Bitset) : Type 0 where
  pub valid : IsBitset s'
  pub size : s'.size ≡ s.size
  pub bits : (j : ℕ) → member s'.bytes j ≡ (if i == j then v else member s.bytes j)

split_index : (i j : ℕ) → (i == j) ≡ (i / 8 == j / 8 && i % 8 == j % 8)
split_index i j = ground arith

module _ (s : Bitset) (i : ℕ) (v : IsBitset s) (inside : i / 8 < s.size) where
  here : (b : ℕ) × (get_elem? s.bytes (i / 8) ≡ some b) × (b < 2 ^ 8)
  here = byte_at s.bytes (i / 8) v.bytes (omega (arith, v.size))

  member_here :
      (b : ℕ)
      → get_elem? s.bytes (i / 8) ≡ some b
      → (j : ℕ) → i / 8 ≡ j / 8
      → member s.bytes j ≡ not (bit b (j % 8) == 0)
  unfolding member
  member_here b e j same = ground (arith, e)

  written :
      (w : ℕ) (val : Bool) (b : ℕ)
      → get_elem? s.bytes (i / 8) ≡ some b
      → w < 2 ^ 8
      → ((k : ℕ) → k < 8 → (not (bit w k == 0)) ≡ (if i % 8 == k then val else not (bit b k == 0)))
      → Changed s i val (record s { bytes = set s.bytes (i / 8) w })
  written w val b e lt bits = record {
    valid = record {
      bytes = Bytes-set s.bytes (i / 8) w v.bytes lt;
      size = length-set s.bytes (i / 8) w ∙ v.size;
    };
    size = refl;
    bits = λ j. ground (
      arith,
      member-set s.bytes (i / 8) j w (omega (arith, v.size)),
      split_index i j,
      bits (j % 8) (omega arith),
      member_here b e j,
    );
  }

  -- `bitset_set` puts the bit into the set, and leaves the others as they are.
  pub bitset_set-Changed : (s' : Bitset) × (bitset_set s i ≡ some s') × Changed s i true s'
  unfolding bitset_set
  bitset_set-Changed =
      let (b, e, lt) = here in
      let w = bit_or b (2 ^ (i % 8)) % 2 ^ 8 in
      (
        record s { bytes = set s.bytes (i / 8) w },
        ground (arith, e),
        written w true b e (mod-lt _ (omega arith))
            λ k h. ground (arith, bit-set_byte b (i % 8) lt (omega arith) k),
      )

  -- `bitset_clear` takes the bit out of the set, and leaves the others as they are.
  pub bitset_clear-Changed : (s' : Bitset) × (bitset_clear s i ≡ some s') × Changed s i false s'
  unfolding bitset_clear
  bitset_clear-Changed =
      let (b, e, lt) = here in
      let w = bit_and b (2 ^ 32 - 1 - 2 ^ (i % 8)) % 2 ^ 8 in
      (
        record s { bytes = set s.bytes (i / 8) w },
        ground (arith, e),
        written w false b e (mod-lt _ (omega arith))
            λ k h. ground (arith, bit-clear_byte b (i % 8) lt (omega arith) k),
      )

  -- `bitset_test` is defined, and not 0 just where the bit is in the set.
  pub bitset_test-member : (r : ℕ) × (bitset_test s i ≡ some r) × (not (r == 0) ≡ member s.bytes i)
  unfolding bitset_test
  bitset_test-member =
      let (b, e, lt) = here in
      (
        bit_and b (2 ^ (i % 8)),
        ground (arith, e),
        ap not (bit_and-pow_iff b (i % 8)) ∙ sym (member_here b e i refl),
      )

  -- Where the index lies in a well-formed set, `bitset_set` puts the bit into the set and
  -- `bitset_clear` takes it out, both leave the others as they are, and `bitset_test` is not 0 just
  -- where the bit is in the set.
  pub bitset-bits :
      ((s' : Bitset) × (bitset_set s i ≡ some s') × Changed s i true s')
      × (((s' : Bitset) × (bitset_clear s i ≡ some s') × Changed s i false s')
          × ((r : ℕ) × (bitset_test s i ≡ some r) × (not (r == 0) ≡ member s.bytes i)))
  bitset-bits = (bitset_set-Changed, (bitset_clear-Changed, bitset_test-member))
