-- ===== src/Mm/Heap/Tests.antt =====
-- A heap of three regions: a block of 64 bytes, 100 free bytes and a block of 32.
use os.Prelude.{
  ℕ, ◌+◌, ◌%◌, ◌^◌, ◌≤◌, ◌<◌, ◌≡◌, refl, ◌⊎◌, true, false, List, [], ◌∷◌, Option, none, some, arith,
}
use os.Mm.Heap.{
  Region, region, Heap, heap_start, kmalloc, kmalloc_imp, try_regions, settle, scan, fits, place,
  take_region, align_up, heap_grow, last_res, extend_last, growth, max, kfree, overruns,
  free_region, free_behind, release, join, krealloc, find_allocated_size, size_from,
}
use os.Mm.Heap.Blocks.{total, all_res, Spaced}
use os.Mm.Heap.Valid.{IsValid, held}
use os.Mm.Heap.Kmalloc.{Gives, Few, kmalloc-Gives}
use os.Mm.Heap.Release.{NoBlock}
use os.Mm.Heap.Kfree.{Gone, leaves_table, kfree-Gone}
use os.Mm.Heap.Grow.{growth-pages}
use os.Mm.Heap.Apart.{Apart, kmalloc-Apart}

abbrev three : Heap
three = record {
  regions = region true 64 0 ∷ region false 100 0 ∷ region true 32 1 ∷ [];
  max_count = 1000;
  first_free_region = 1;
  first_free_addr = 0xFD0200040;
  heap_size = 196;
  consecutive_number = 2;
  frames = 100;
}

three-IsValid : IsValid three
unfolding total all_res Spaced
three-IsValid = record {
  hint_in = omega arith;
  hint_res = refl;
  hint_addr = refl;
  spaced = (refl, (refl, (refl, tt)));
  whole = refl;
  bounded = omega arith;
}

kmalloc-Gives_example :
    (p : ℕ) × (h' : Heap) × (kmalloc 40 three ≡ some (p, h')) × Gives (Few 40 three) 40 three p h'
kmalloc-Gives_example = kmalloc-Gives 40 three (omega arith) three-IsValid

kmalloc-Apart_example :
    (p : ℕ) × (h' : Heap) × (kmalloc 40 three ≡ some (p, h'))
    × ((p ≡ 0)
        ⊎ ((given : ℕ) × (40 ≤ given)
            × (heap_start ≤ p)
            × (p + given ≤ heap_start + h'.heap_size)
            × Apart p given (held three)))
kmalloc-Apart_example = kmalloc-Apart 40 three (omega arith) three-IsValid

kfree-Gone_example :
    ((leaves_table 0xFD0200000 three ≡ true) × (kfree 0xFD0200000 three ≡ none))
    ⊎ ((leaves_table 0xFD0200000 three ≡ false)
        × ((h' : Heap) × (kfree 0xFD0200000 three ≡ some h')
            × IsValid h'
            × ((NoBlock 0xFD0200000 (held three) × (h' ≡ three))
                ⊎ Gone 0xFD0200000 (held three) (held h'))))
kfree-Gone_example = kfree-Gone 0xFD0200000 three refl three-IsValid

growth-pages_example :
    (100000 ≤ growth 100000) × (growth 100000 % 4096 ≡ 0) × (growth 100000 < 2 ^ 63)
growth-pages_example = growth-pages 100000 (omega arith)

abbrev regions_of : Option Heap → List Region
regions_of none = []
regions_of (some h) = h.regions

-- The block goes where the free bytes were, and joins the others when it is freed.
kmalloc_free_again :
    (λ (h : Heap). regions_of (kfree 0xFD0200040 h))
      (record three {
        regions = region true 64 0 ∷ region true 40 2 ∷ region false 60 0 ∷ region true 32 1 ∷ [];
      })
    ≡ region true 64 0 ∷ region false 100 0 ∷ region true 32 1 ∷ []
unfolding kfree overruns free_region free_behind release join
kmalloc_free_again = refl

-- what `krealloc` gives, the bytes that it copies, and the table it leaves
abbrev copied : Option (ℕ × ℕ × Heap) → ℕ × ℕ × List Region
copied (some (p, n, h)) = (p, n, h.regions)
copied _ = (0, 0, [])

-- To shrink a block of 64 bytes to 8, `krealloc` copies 64 bytes into the new block of 8.
krealloc_shrinks : copied (krealloc 0xFD0200000 8 three) ≡ (
  0xFD0200040,
  64,
  region false 64 0 ∷ region true 8 2 ∷ region false 92 0 ∷ region true 32 1 ∷ [],
)
unfolding krealloc find_allocated_size size_from kmalloc kmalloc_imp try_regions settle scan fits
    place take_region align_up heap_grow last_res extend_last growth max kfree overruns free_region
    free_behind release join
krealloc_shrinks = refl
