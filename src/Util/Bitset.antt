-- ===== src/Util/Bitset.antt =====
-- The bit set, kernel/src/util/bitset.c: an array of bytes. `none` is an access outside of it.
pub mod Laws
pub mod Search
mod Tests
use Prim.Native.Nat.{bit_and, bit_or}
use os.Prelude.{
  ℕ, zero, suc, ◌+◌, ◌-◌, ◌*◌, ◌/◌, ◌%◌, ◌^◌, Bool, true, false, not, List, [], ◌∷◌, Option, none,
  some, if◌then◌else◌, ◌==◌, get_elem?, set, replicate, ltb,
}
use os.Prelude.Int.{ℤ, pos, negsuc}

pub record Bitset : Type 0 where
  pub size : ℕ
  pub bytes : List ℕ

-- `bitset_init`, with what `malloc` gives; a NULL there is written through
pub bitset_init : Bool → ℕ → Option Bitset
bitset_init got size =
    let n = bit_and ((size + 7) % 2 ^ 64) (2 ^ 64 - 8) in
    if got then some (record { size = n; bytes = replicate n 0 }) else none

-- `set->data[bit / 8] = f (set->data[bit / 8])`
abbrev pub update : Bitset → ℕ → (ℕ → ℕ) → Option Bitset
update s bit f = elim (get_elem? s.bytes (bit / 8)) [
  | none ↦ none
  | some b ↦ some (record s { bytes = set s.bytes (bit / 8) (f b) })
]

-- A byte is widened to `int`, and the result is cut to a byte.
unfoldable pub bitset_set : Bitset → ℕ → Option Bitset
bitset_set s bit = update s bit (λ b. bit_or b (2 ^ (bit % 8)) % 2 ^ 8)

unfoldable pub bitset_clear : Bitset → ℕ → Option Bitset
bitset_clear s bit = update s bit (λ b. bit_and b (2 ^ 32 - 1 - 2 ^ (bit % 8)) % 2 ^ 8)

unfoldable pub bitset_test : Bitset → ℕ → Option ℕ
bitset_test s bit = elim (get_elem? s.bytes (bit / 8)) [
  | none ↦ none
  | some b ↦ some (bit_and b (2 ^ (bit % 8)))
]

-- the inner loop of `bitset_ffub` at the byte `b`, for the `n` bits up to 8
unfoldable pub free_bit : ℕ → ℕ → Option ℕ
free_bit zero b = none
free_bit (suc n) b =
    let rest = free_bit n b in if bit_and b (2 ^ (7 - n)) == 0 then some (7 - n) else rest

-- The outer loop, at the bytes from index `i` on; a byte with no free bit below 8 goes on. The
-- result is the bytes that are left, and the bit, or `none` for -1.
unfoldable pub ffub_from : ℕ → List ℕ → List ℕ × Option ℕ
unfolding free_bit
ffub_from i [] = ([], none)
ffub_from i (b ∷ bs) =
    let rest = ffub_from (suc i) bs in
    let (bs', r) = rest in
    elim (if b == 0xff then none else free_bit 8 b) [
      | none ↦ (b ∷ bs', r)
      | some j ↦ (bit_or b (2 ^ j) ∷ bs, some (8 * i + j))
    ]

-- a `size_t` as an `int`: its lower 32 bits, with a sign
abbrev pub int_of : ℕ → ℤ
int_of n = let m = n % 2 ^ 32 in if ltb m (2 ^ 31) then pos m else negsuc (2 ^ 32 - 1 - m)

-- the result, with -1 where no bit is free
abbrev pub ffub_result : Option ℕ → ℤ
ffub_result none = negsuc 0
ffub_result (some n) = int_of n

-- `bitset_ffub`, for a set whose array has `size` bytes: the code counts the bytes of `data` by
-- `size`, so 8 * size bits are searched. The result is an `int`.
unfoldable pub bitset_ffub : Bitset → Bitset × ℤ
unfolding ffub_from
bitset_ffub s = let (bs, r) = ffub_from 0 s.bytes in (record s { bytes = bs }, ffub_result r)
