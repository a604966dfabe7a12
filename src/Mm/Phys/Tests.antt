-- ===== src/Mm/Phys/Tests.antt =====
-- Runs of the physical memory manager.
use os.Prelude.{ℕ, ◌*◌, List, [], ◌∷◌, none, some, ◌≡◌, refl, arith}
use os.Mm.Phys.{
  PhysMem, phys_mem_alloc_block, mm_bitmap_first_free, first_from, first_bit, take_frame,
  mm_bitmap_set, phys_mem_free_block,
}
use os.Mm.Phys.Blocks.{Allocates, phys_mem_alloc_block-Allocates, phys_mem_free_block-alloc}

-- 128 blocks, of which the first 66 are in use
abbrev words : List ℕ
words = 0xFFFFFFFFFFFFFFFF ∷ 3 ∷ []

abbrev half : PhysMem
half = record { memory_size = 0x80000; max_blocks = 128; used_blocks = 66; bitmap = some words }

abbrev half_and_one : PhysMem
half_and_one = record half { used_blocks = 67; bitmap = some (0xFFFFFFFFFFFFFFFF ∷ 7 ∷ []) }

phys_mem_alloc_block-Allocates_example : Allocates half words (phys_mem_alloc_block half)
phys_mem_alloc_block-Allocates_example =
    phys_mem_alloc_block-Allocates half words refl (omega arith) (omega arith)

first_free_block : phys_mem_alloc_block half ≡ some (66 * 4096, half_and_one)
unfolding phys_mem_alloc_block mm_bitmap_first_free first_from first_bit take_frame mm_bitmap_set
first_free_block = refl

phys_mem_free_block-alloc_example : phys_mem_free_block (66 * 4096) half_and_one ≡ some half
phys_mem_free_block-alloc_example =
    phys_mem_free_block-alloc half half_and_one words (66 * 4096) refl (omega arith) (omega arith)
      (omega arith) (omega arith) first_free_block (omega arith)

-- With 31 blocks in use the search shifts an `int` by 31.
wide_shift : phys_mem_alloc_block (record half { bitmap = some (0x7FFFFFFF ∷ 0 ∷ []) }) ≡ none
unfolding phys_mem_alloc_block mm_bitmap_first_free first_from first_bit take_frame mm_bitmap_set
wide_shift = refl
