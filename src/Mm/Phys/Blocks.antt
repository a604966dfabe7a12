-- ===== src/Mm/Phys/Blocks.antt =====
-- A block that is allocated, and one that is given back.
use Prim.Native.Nat.{bit_or}
use os.Prelude.{
  ℕ, zero, suc, ◌+◌, ◌-◌, ◌*◌, ◌/◌, ◌%◌, ◌^◌, ◌≤◌, ◌<◌, ◌≡◌, ◌≢◌, refl, sym, ap, subst, ◌∙◌, true,
  false, List, [], ◌∷◌, ◌++◌, Option, none, some, ◌==◌, take, length, arith, Bool-cases, ◌⊎◌, inl,
  inr,
}
use os.Prelude.Bits.{bit}
use os.Mm.Phys.{
  Bitmap, all_ones, first_from, mm_bitmap_first_free, PhysMem, take_frame, phys_mem_alloc_block,
  phys_mem_free_block,
}
use os.Mm.Phys.First.{all_used, Full, FirstWord, first_from-FirstWord}
use os.Mm.Phys.Marks.{mm_bitmap_set-bit, mm_bitmap_clear-bit, clear_set_bit}

-- the memory with the bit `j` of the word between `before` and `behind` set
abbrev pub marked : PhysMem → List ℕ → ℕ → List ℕ → ℕ → PhysMem
marked s before w behind j = record s {
  bitmap = some (before ++ bit_or w (2 ^ j) ∷ behind);
  used_blocks = (s.used_blocks + 1) % 2 ^ 64;
}

-- What `phys_mem_alloc_block` gives: NULL where no word has a free bit or the first free one is bit
-- 0 of the bitmap; the block of the first free bit, which is set; or a shift of an `int` by 31.
abbrev pub Allocates : PhysMem → List ℕ → Option (ℕ × PhysMem) → Type 0
Allocates s ws out =
    ((out ≡ some (0, s))
      × (Full (take (s.max_blocks / 64) ws)
          ⊎ ((w : ℕ) × (behind : List ℕ) × (ws ≡ w ∷ behind) × (bit w 0 ≡ 0))))
    ⊎ ((before : List ℕ) × (w : ℕ) × (behind : List ℕ) × (ws ≡ before ++ w ∷ behind)
        × Full before
        × (length before < s.max_blocks / 64)
        × (w ≢ all_ones)
        × (((j : ℕ) × (j < 31)
              × (all_used j w ≡ true)
              × (bit w j ≡ 0)
              × (0 < length before * 64 + j)
              × (out ≡ some ((length before * 64 + j) * 4096, marked s before w behind j)))
            ⊎ ((all_used 31 w ≡ true) × (out ≡ none))))

take_frame-word :
    (s : PhysMem) (before behind : List ℕ) (w j : ℕ)
    → s.bitmap ≡ some (before ++ w ∷ behind)
    → j < 31
    → 0 < length before * 64 + j
    → length before * 64 + j < 2 ^ 32
    → take_frame s (some (length before * 64 + j))
      ≡ some ((length before * 64 + j) * 4096, marked s before w behind j)
unfolding take_frame
take_frame-word s before behind w j m h k l =
    let a : ((length before * 64 + j) % 2 ^ 32 == 2 ^ 32 - 1) ≡ false = ground arith in
    let b : ((length before * 64 + j) % 2 ^ 32 == 0) ≡ false = ground arith in
    let c : (length before * 64 + j) * 4096 % 2 ^ 64 ≡ (length before * 64 + j) * 4096 =
      omega arith in
    rw (a, b, m, mm_bitmap_set-bit before behind w j h, c) refl

take_frame-zero : (s : PhysMem) → take_frame s (some 0) ≡ some (0, s)
unfolding take_frame
take_frame-zero s = refl

take_frame-ones : (s : PhysMem) → take_frame s (some all_ones) ≡ some (0, s)
unfolding take_frame
take_frame-ones s = refl

-- the searched bitmap
found-Allocates :
    (s : PhysMem) (ws : List ℕ) (out : Option ℕ)
    → s.bitmap ≡ some ws
    → s.max_blocks < 2 ^ 32
    → FirstWord (s.max_blocks / 64) 0 ws out
    → Allocates s ws (take_frame s out)
found-Allocates s ws out m h (inl (o, f)) = inl (ap (take_frame s) o ∙ take_frame-ones s, inl f)
found-Allocates s ws out m h (inr (before, w, behind, q, f, l, na, inr (o, u))) =
    inr (before, w, behind, q, f, l, na, inr (u, ap (take_frame s) o ∙ (unfold take_frame in refl)))
found-Allocates s ws out m h (inr ([], w, behind, q, f, l, na, inl (zero, o, k, u, b))) =
    inl (ap (take_frame s) (o ∙ ap some (omega arith)) ∙ take_frame-zero s, inr (w, behind, q, b))
found-Allocates s ws out m h (inr ([], w, behind, q, f, l, na, inl (suc j, o, k, u, b))) =
    let p : 0 < length {A = ℕ} [] * 64 + suc j = omega arith in
    inr (
      [],
      w,
      behind,
      q,
      f,
      l,
      na,
      inl (
        suc j,
        k,
        u,
        b,
        p,
        ap (take_frame s) (o ∙ ap some (omega arith))
            ∙ take_frame-word s [] behind w (suc j) (m ∙ ap some q) k p (omega arith),
      ),
    )
found-Allocates s ws out m h (inr (x ∷ before, w, behind, q, f, l, na, inl (j, o, k, u, b))) =
    let p : 0 < length (x ∷ before) * 64 + j = omega arith in
    inr (
      x ∷ before,
      w,
      behind,
      q,
      f,
      l,
      na,
      inl (
        j,
        k,
        u,
        b,
        p,
        ap (take_frame s) (o ∙ ap some (omega arith))
            ∙ take_frame-word s (x ∷ before) behind w j (m ∙ ap some q) k p (omega arith),
      ),
    )

-- Where the bitmap has a bit for each block and there are fewer than 2 ^ 32 blocks,
-- `phys_mem_alloc_block` looks for the first bit that is clear in the words that the blocks fill.
-- It returns NULL and changes nothing where there is none, or where it is the bit of block 0; it
-- returns the block's address and sets that bit alone; or it shifts an `int` by 31, where the first of
-- these words that is not all ones has its low 31 bits set.
pub phys_mem_alloc_block-Allocates :
    (s : PhysMem) (ws : List ℕ)
    → s.bitmap ≡ some ws
    → s.max_blocks / 64 ≤ length ws
    → s.max_blocks < 2 ^ 32
    → Allocates s ws (phys_mem_alloc_block s)
unfolding phys_mem_alloc_block mm_bitmap_first_free
phys_mem_alloc_block-Allocates s ws m h k = elim (Bool-cases (s.max_blocks == 0)) [
  | inl z ↦ let q : s.max_blocks / 64 ≡ 0 = ground (arith, z) in rw z (inl (refl, inl (rw q tt)))
  | inr z ↦
      let found =
        found-Allocates s ws (first_from (s.max_blocks / 64) 0 ws) m k
          (first_from-FirstWord (s.max_blocks / 64) 0 ws h) in
      rw z (
        subst (λ (b : Bitmap). Allocates s ws (take_frame s (mm_bitmap_first_free b s.max_blocks)))
          (sym m) found)
]

abbrev pub Words : List ℕ → Type 0
Words [] = Unit
Words (w ∷ ws) = (w < 2 ^ 64) × Words ws

Words-at : (before behind : List ℕ) (w : ℕ) → Words (before ++ w ∷ behind) → w < 2 ^ 64
Words-at [] behind w (h, _) = h
Words-at (x ∷ before) behind w (_, h) = Words-at before behind w h

abbrev block_of : Option (ℕ × PhysMem) → ℕ
block_of none = 0
block_of (some (p, s)) = p

free-marked :
    (s : PhysMem) (before behind : List ℕ) (w j : ℕ)
    → s.bitmap ≡ some (before ++ w ∷ behind)
    → s.used_blocks < 2 ^ 64
    → w < 2 ^ 64
    → j < 31
    → bit w j ≡ 0
    → phys_mem_free_block ((length before * 64 + j) * 4096) (marked s before w behind j) ≡ some s
unfolding phys_mem_free_block
free-marked s before behind w j m u h k b =
    let q : (length before * 64 + j) * 4096 / 4096 ≡ length before * 64 + j = omega arith in
    let n : ((s.used_blocks + 1) % 2 ^ 64 + 2 ^ 64 - 1) % 2 ^ 64 ≡ s.used_blocks = omega arith in
    rw (q, mm_bitmap_clear-bit before behind (bit_or w (2 ^ j)) j k, clear_set_bit w j h k b, n)
      (ap (λ (o : Bitmap). some (record s { bitmap = o })) (sym m))

-- Under the same conditions, with words of 64 bits, `phys_mem_free_block` of a block that
-- `phys_mem_alloc_block` has just returned puts everything back as it was.
pub phys_mem_free_block-alloc :
    (s s' : PhysMem) (ws : List ℕ) (p : ℕ)
    → s.bitmap ≡ some ws
    → s.max_blocks / 64 ≤ length ws
    → s.max_blocks < 2 ^ 32
    → s.used_blocks < 2 ^ 64
    → Words ws
    → phys_mem_alloc_block s ≡ some (p, s')
    → 0 < p
    → phys_mem_free_block p s' ≡ some s
phys_mem_free_block-alloc s s' ws p m h k u words e pos =
    elim (phys_mem_alloc_block-Allocates s ws m h k) [
      | inl (o, _) ↦ let q : 0 ≡ p = ap block_of (sym o ∙ e) in absurd (omega (arith, q))
      | inr (before, w, behind, q, f, _, _, inr (_, o)) ↦ absurd (cc (sym o ∙ e))
      | inr (before, w, behind, q, f, _, _, inl (j, l, _, b, _, o)) ↦
          subst (λ x. freed x ≡ some s) (sym o ∙ e)
            (free-marked s before behind w j (m ∙ ap some q) u
              (Words-at before behind w (subst Words q words)) l b)
    ]
  where
    freed : Option (ℕ × PhysMem) → Option PhysMem
    freed none = none
    freed (some (p, s)) = phys_mem_free_block p s
