-- ===== src/Mm/Phys.antt =====
-- The physical memory manager, kernel/src/mm/phys_mem.c, and its bitmap, kernel/src/mm/mm_bitmap.c:
-- words of 64 bits, a set bit for each block in use. `1 << bit` is a shift of an `int`: it is
-- undefined from bit 31 on, and the functions that make it are `none` there, as they are outside
-- of the bitmap. NULL is `none` for a bitmap, and 0 for a block.
pub mod First
pub mod Marks
pub mod Blocks
mod Tests
use Prim.Native.Nat.{bit_and, bit_or}
use os.Prelude.{
  ℕ, zero, suc, ◌+◌, ◌-◌, ◌*◌, ◌/◌, ◌%◌, ◌^◌, Bool, true, false, ◌||◌, List, [], ◌∷◌, Option, none,
  some, if◌then◌else◌, ◌==◌, ltb,
}

-- `mm_bitmap_t`
abbrev pub Bitmap : Type 0
Bitmap = Option (List ℕ)

-- a word with no free bit, which as a `uint64_t` result is -1
abbrev pub all_ones : ℕ
all_ones = 0xFFFFFFFFFFFFFFFF

-- `1 << bit`
abbrev pub one_at : ℕ → Option ℕ
one_at b = if ltb b 31 then some (2 ^ b) else none

-- an assignment to the word at an index
abbrev pub write_word : (ℕ → ℕ) → List ℕ → ℕ → Option (List ℕ)
write_word f [] i = none
write_word f (w ∷ ws) zero = some (f w ∷ ws)
write_word f (w ∷ ws) (suc i) = elim (write_word f ws i) [ none ↦ none | some ws' ↦ some (w ∷ ws') ]

abbrev pub as_bitmap : Option (List ℕ) → Option Bitmap
as_bitmap none = none
as_bitmap (some ws) = some (some ws)

abbrev pub set_one : List ℕ → ℕ → Option ℕ → Option Bitmap
set_one ws i none = none
set_one ws i (some v) = as_bitmap (write_word (λ w. bit_or w v) ws i)

abbrev pub clear_one : List ℕ → ℕ → Option ℕ → Option Bitmap
clear_one ws i none = none
clear_one ws i (some v) = as_bitmap (write_word (λ w. bit_and w (2 ^ 64 - 1 - v)) ws i)

unfoldable pub mm_bitmap_set : Bitmap → ℕ → Option Bitmap
mm_bitmap_set none b = some none
mm_bitmap_set (some ws) b = set_one ws (b / 64) (one_at (b % 64))

unfoldable pub mm_bitmap_clear : Bitmap → ℕ → Option Bitmap
mm_bitmap_clear none b = some none
mm_bitmap_clear (some ws) b = clear_one ws (b / 64) (one_at (b % 64))

-- the inner loop of `mm_bitmap_first_free`, at the bit `b` with `n` bits left
unfoldable pub first_bit : ℕ → ℕ → ℕ → Option (Option ℕ)
first_bit zero b w = some none
first_bit (suc n) b w =
    let rest = first_bit n (b + 1) w in
    if ltb b 31 then (if bit_and w (2 ^ b) == 0 then some (some b) else rest) else none

-- what the inner loop gives for the word at the index `e`, before the words behind it
abbrev pub or_next : ℕ → Option (Option ℕ) → Option ℕ → Option ℕ
or_next e none next = none
or_next e (some none) next = next
or_next e (some (some b)) next = some (e * 64 + b)

-- the outer loop, at the entry `e` with `n` entries left
unfoldable pub first_from : ℕ → ℕ → List ℕ → Option ℕ
unfolding first_bit
first_from zero e ws = some all_ones
first_from (suc n) e [] = none
first_from (suc n) e (w ∷ ws) =
    let next = first_from n (e + 1) ws in
    if w == all_ones then next else or_next e (first_bit 64 0 w) next

unfoldable pub mm_bitmap_first_free : Bitmap → ℕ → Option ℕ
unfolding first_from
mm_bitmap_first_free none size = some all_ones
mm_bitmap_first_free (some ws) size = first_from (size / 64) 0 ws

pub record PhysMem : Type 0 where
  pub memory_size : ℕ
  pub max_blocks : ℕ
  pub used_blocks : ℕ
  pub bitmap : Bitmap

-- PHYS_MEM_BLOCK_SIZE
abbrev pub block_size : ℕ
block_size = 4096

-- the block of `frame`, from the bitmap in which it is set
abbrev pub taken : PhysMem → ℕ → Option Bitmap → Option (ℕ × PhysMem)
taken s frame none = none
taken s frame (some bs) = some (
  frame * block_size % 2 ^ 64,
  record s { bitmap = bs; used_blocks = (s.used_blocks + 1) % 2 ^ 64 },
)

-- `phys_mem_alloc_block` behind the search; the tests are of an `int` of 32 bits
unfoldable pub take_frame : PhysMem → Option ℕ → Option (ℕ × PhysMem)
unfolding mm_bitmap_set
take_frame s none = none
take_frame s (some frame) =
    if frame % 2 ^ 32 == 2 ^ 32 - 1 || frame % 2 ^ 32 == 0
    then some (0, s)
    else taken s frame (mm_bitmap_set s.bitmap frame)

unfoldable pub phys_mem_alloc_block : PhysMem → Option (ℕ × PhysMem)
unfolding mm_bitmap_first_free take_frame
phys_mem_alloc_block s =
    if s.max_blocks == 0
    then some (0, s)
    else take_frame s (mm_bitmap_first_free s.bitmap s.max_blocks)

abbrev pub given_back : PhysMem → Option Bitmap → Option PhysMem
given_back s none = none
given_back s (some bs) =
    some (record s { bitmap = bs; used_blocks = (s.used_blocks + 2 ^ 64 - 1) % 2 ^ 64 })

unfoldable pub phys_mem_free_block : ℕ → PhysMem → Option PhysMem
unfolding mm_bitmap_clear
phys_mem_free_block base s = given_back s (mm_bitmap_clear s.bitmap (base / block_size))
