-- ===== src/Mm/Heap/Grown.antt =====
-- The heap behind `heap_grow`.
use os.Prelude.{
  ℕ, ◌+◌, ◌-◌, ◌/◌, ◌%◌, ◌^◌, ◌≤◌, ◌<◌, ◌≡◌, refl, sym, ap, ◌∙◌, Bool, true, false, ◌&&◌, List, [],
  ◌∷◌, ◌++◌, leb, ltb, length, take, drop, take-append-drop, length-append, arith, Bool-cases, ◌⊎◌,
  inl, inr,
}
use os.Mm.Heap.{Region, Heap, heap_start, heap_grow, extend_last, last_res}
use os.Mm.Heap.Blocks.{total, all_res}
use os.Mm.Heap.Valid.{IsValid, held, taken_part, rest_part, take-replaced, length-taken}
use os.Mm.Heap.Grow.{total-extend_last, blocks-extend_last, extend_last-Spaced, extend_last-append}

drop-append_exact : (xs ys : List Region) → drop (length xs) (xs ++ ys) ≡ ys
drop-append_exact [] ys = refl
drop-append_exact (x ∷ xs) ys = drop-append_exact xs ys

-- a heap whose last region is longer, or new
abbrev pub grown : ℕ → Heap → Heap
grown size h = record h {
  regions = extend_last size h.regions;
  heap_size = (h.heap_size + size) % 2 ^ 64;
  frames = h.frames - (size + 4096 - 1) / 4096;
}

module _ (size : ℕ) (h : Heap) (v : IsValid h) (pages : (size + 4096 - 1) / 4096 ≤ h.frames) where
  pub grown-parts : extend_last size h.regions ≡ taken_part h ++ extend_last size (rest_part h)
  grown-parts =
      ap (λ l. extend_last size l) (sym (take-append-drop h.first_free_region h.regions))
      ∙ extend_last-append size (taken_part h) (rest_part h) v.hint_res

  pub grown-taken : taken_part (grown size h) ≡ taken_part h
  grown-taken =
      ap (λ l. take h.first_free_region l) grown-parts
      ∙ take-replaced h (extend_last size (rest_part h)) v

  pub grown-rest : rest_part (grown size h) ≡ extend_last size (rest_part h)
  grown-rest =
      ap (λ l. drop h.first_free_region l) grown-parts
      ∙ ap (λ n. drop n (taken_part h ++ extend_last size (rest_part h))) (sym (length-taken h v))
      ∙ drop-append_exact (taken_part h) (extend_last size (rest_part h))

  pub grown-held : held (grown size h) ≡ held h
  grown-held = blocks-extend_last size heap_start h.regions

  pub grown-IsValid : IsValid (grown size h)
  grown-IsValid = record {
    hint_in = omega (
      arith,
      ap length grown-parts,
      length-append (taken_part h) (extend_last size (rest_part h)),
      length-taken h v,
    );
    hint_res = ap all_res grown-taken ∙ v.hint_res;
    hint_addr = v.hint_addr ∙ ap (λ l. heap_start + total l) (sym grown-taken);
    spaced = extend_last-Spaced size h.regions v.spaced;
    whole = omega (arith, total-extend_last size h.regions, v.whole, v.bounded);
    bounded = omega (arith, v.bounded);
  }

spent-IsValid : (h : Heap) → IsValid h → IsValid (record h { frames = 0 })
spent-IsValid h v = record {
  hint_in = v.hint_in;
  hint_res = v.hint_res;
  hint_addr = v.hint_addr;
  spaced = v.spaced;
  whole = v.whole;
  bounded = omega (arith, v.bounded);
}

-- what `heap_grow` returns on a valid heap
abbrev pub Grows : ℕ → Heap → Bool × Heap → Type 0
Grows size h (false, h') =
    IsValid h'
    × (h'.regions ≡ h.regions)
    × ((h.max_count ≤ length h'.regions) ⊎ (h.frames < (size + 4096 - 1) / 4096))
Grows size h (true, h') = (h' ≡ grown size h) × ((size + 4096 - 1) / 4096 ≤ h.frames)

pub heap_grow-Grows : (size : ℕ) (h : Heap) → IsValid h → Grows size h (heap_grow size h)
unfolding heap_grow
heap_grow-Grows size h v =
    elim (Bool-cases (last_res h.regions && leb h.max_count (length h.regions))) [
      | inl full ↦ rw full (v, refl, inl (ground arith))
      | inr room ↦ elim (Bool-cases (ltb h.frames ((size + 4096 - 1) / 4096))) [
        | inl few ↦ rw (room, few) (spent-IsValid h v, refl, inr (ground arith))
        | inr enough ↦ rw (room, enough) (refl, ground arith)
      ]
    ]
