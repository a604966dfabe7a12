-- ===== src/Mm/Phys/Marks.antt =====
-- One bit of the bitmap, set and cleared.
use Prim.Native.Nat.{bit_and, bit_or}
use os.Prelude.{
  ℕ, ◌+◌, ◌-◌, ◌*◌, ◌/◌, ◌%◌, ◌^◌, ◌<◌, ◌≡◌, refl, subst, true, List, [], ◌∷◌, ◌++◌, some, ◌==◌,
  ltb, length, arith, Bool-cases, inl, inr,
}
use os.Prelude.Bits.{
  holds_under, holds_under_at, bit, bit_lt_two, bit-bit_or, bit-bit_and, eq_of_bits, bit-pow,
  bit-complement, bit_or-lt, bit_and-le,
}
use os.Mm.Phys.{write_word, mm_bitmap_set, mm_bitmap_clear}

write_word-append :
    (f : ℕ → ℕ) (before behind : List ℕ) (w : ℕ)
    → write_word f (before ++ w ∷ behind) (length before) ≡ some (before ++ f w ∷ behind)
write_word-append f [] behind w = refl
write_word-append f (x ∷ before) behind w = rw (write_word-append f before behind w) refl

-- the word and the bit of a frame
frame_word : (n j : ℕ) → j < 31 → (n * 64 + j) / 64 ≡ n
frame_word n j h = omega arith

frame_bit : (n j : ℕ) → j < 31 → (n * 64 + j) % 64 ≡ j
frame_bit n j h = omega arith

pub mm_bitmap_set-bit :
    (before behind : List ℕ) (w j : ℕ)
    → j < 31
    → mm_bitmap_set (some (before ++ w ∷ behind)) (length before * 64 + j)
      ≡ some (some (before ++ bit_or w (2 ^ j) ∷ behind))
unfolding mm_bitmap_set
mm_bitmap_set-bit before behind w j h =
    let l : ltb j 31 ≡ true = ground (arith, h) in
    rw
      (
        frame_word (length before) j h,
        frame_bit (length before) j h,
        l,
        write_word-append (λ w. bit_or w (2 ^ j)) before behind w,
      )
      refl

pub mm_bitmap_clear-bit :
    (before behind : List ℕ) (w j : ℕ)
    → j < 31
    → mm_bitmap_clear (some (before ++ w ∷ behind)) (length before * 64 + j)
      ≡ some (some (before ++ bit_and w (2 ^ 64 - 1 - 2 ^ j) ∷ behind))
unfolding mm_bitmap_clear
mm_bitmap_clear-bit before behind w j h =
    let l : ltb j 31 ≡ true = ground (arith, h) in
    rw
      (
        frame_word (length before) j h,
        frame_bit (length before) j h,
        l,
        write_word-append (λ w. bit_and w (2 ^ 64 - 1 - 2 ^ j)) before behind w,
      )
      refl

pow-lt_word : (j : ℕ) → j < 31 → 2 ^ j < 2 ^ 64
unfolding holds_under
pow-lt_word j h = ground (arith, holds_under_at (λ j. ltb (2 ^ j) (2 ^ 64)) 31 j h refl)

-- to clear a bit that was set gives the word back
pub clear_set_bit :
    (w j : ℕ)
    → w < 2 ^ 64
    → j < 31
    → bit w j ≡ 0
    → bit_and (bit_or w (2 ^ j)) (2 ^ 64 - 1 - 2 ^ j) ≡ w
clear_set_bit w j h k e =
    let p = pow-lt_word j k in
    let b = bit_or-lt 64 w (2 ^ j) h p in
    eq_of_bits 64 (bit_and (bit_or w (2 ^ j)) (2 ^ 64 - 1 - 2 ^ j)) w
      (omega (arith, b, bit_and-le (bit_or w (2 ^ j)) (2 ^ 64 - 1 - 2 ^ j))) h
      (λ i l. elim (Bool-cases (j == i)) [
        | inl q ↦
            let ji : j ≡ i = ground (arith, q) in
            let e' : bit w i ≡ 0 = subst (λ i. bit w i ≡ 0) ji e in
            ground (
              arith,
              bit-bit_and (bit_or w (2 ^ j)) (2 ^ 64 - 1 - 2 ^ j) i,
              bit-complement 64 (2 ^ j) i p,
              bit-pow j i,
              e',
              q,
            )
        | inr q ↦ ground (
          arith,
          bit-bit_and (bit_or w (2 ^ j)) (2 ^ 64 - 1 - 2 ^ j) i,
          bit-bit_or w (2 ^ j) i,
          bit-complement 64 (2 ^ j) i p,
          bit-pow j i,
          bit_lt_two w i,
          q,
        )
      ])
