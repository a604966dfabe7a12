-- ===== src/Mm/Phys/First.antt =====
-- The search for a free block in the bitmap.
use Prim.Native.Nat.{bit_and}
use os.Prelude.{
  ℕ, zero, suc, ◌+◌, ◌*◌, ◌^◌, ◌≤◌, ◌<◌, ◌≡◌, ◌≢◌, refl, sym, ap, subst, ◌&&◌, ◌∙◌, Bool, true,
  List, [], ◌∷◌, ◌++◌, Option, none, some, ◌==◌, ltb, take, length, arith, Bool-cases, ◌⊎◌, inl,
  inr,
}
use os.Prelude.Bits.{bit, bit_lt_two, bit_and-pow_iff}
use os.Mm.Phys.{all_ones, first_bit, first_from}

-- whether the bits below `j` are set
unfoldable pub all_used : ℕ → ℕ → Bool
all_used zero w = true
all_used (suc j) w = all_used j w && bit w j == 1

abbrev pub Full : List ℕ → Type 0
Full [] = Unit
Full (w ∷ ws) = (w ≡ all_ones) × Full ws

-- what the search of a word gives: its first free bit, or a shift of an `int` by 31
abbrev pub FirstBit : ℕ → Option (Option ℕ) → Type 0
FirstBit w out =
    ((j : ℕ) × (out ≡ some (some j)) × (j < 31) × (all_used j w ≡ true) × (bit w j ≡ 0))
    ⊎ ((out ≡ none) × (all_used 31 w ≡ true))

all_used-more : (b w : ℕ) → all_used b w ≡ true → bit w b ≡ 1 → all_used (b + 1) w ≡ true
all_used-more b w u e =
    let q : suc b ≡ b + 1 = omega arith in
    subst (λ n. all_used n w ≡ true) q (unfold all_used in ground (arith, u, e))

first_bit-FirstBit :
    (n b w : ℕ) → 31 < b + n → b ≤ 31 → all_used b w ≡ true → FirstBit w (first_bit n b w)
unfolding first_bit
first_bit-FirstBit zero b w h k u = absurd (omega arith)
first_bit-FirstBit (suc n) b w h k u = elim (Bool-cases (ltb b 31)) [
  | inl l ↦ elim (Bool-cases (bit_and w (2 ^ b) == 0)) [
    | inl z ↦
        inl (b, rw (l, z) refl, ground (arith, l), u, ground (arith, sym (bit_and-pow_iff w b) ∙ z))
    | inr z ↦
        rw (l, z)
          (first_bit-FirstBit n (b + 1) w (omega arith) (ground (arith, l))
            (all_used-more b w u (ground (arith, sym (bit_and-pow_iff w b) ∙ z, bit_lt_two w b))))
  ]
  | inr l ↦ inr (rw l refl, subst (λ n. all_used n w ≡ true) (ground (arith, l, k)) u)
]

-- What the search of the words gives, from the word `e` on: none of `n` words has a free bit, or
-- the first free bit of the first word that has one, or a shift of an `int` by 31 in that word.
abbrev pub FirstWord : ℕ → ℕ → List ℕ → Option ℕ → Type 0
FirstWord n e ws out =
    ((out ≡ some all_ones) × Full (take n ws))
    ⊎ ((before : List ℕ) × (w : ℕ) × (behind : List ℕ) × (ws ≡ before ++ w ∷ behind)
        × Full before
        × (length before < n)
        × (w ≢ all_ones)
        × (((j : ℕ) × (out ≡ some ((e + length before) * 64 + j))
              × (j < 31)
              × (all_used j w ≡ true)
              × (bit w j ≡ 0))
            ⊎ ((out ≡ none) × (all_used 31 w ≡ true))))

pub first_from-FirstWord :
    (n e : ℕ) (ws : List ℕ) → n ≤ length ws → FirstWord n e ws (first_from n e ws)
unfolding first_from
first_from-FirstWord zero e ws h = inl (refl, tt)
first_from-FirstWord (suc n) e [] h = absurd (omega arith)
first_from-FirstWord (suc n) e (w ∷ ws) h = elim (Bool-cases (w == all_ones)) [
  | inl z ↦
      let q : w ≡ all_ones = ground (arith, z) in
      elim (first_from-FirstWord n (e + 1) ws (omega arith)) [
        | inl (o, f) ↦ inl (rw z o, (q, f))
        | inr (before, w', behind, s, f, l, na, inl (j, o, small, u, b)) ↦ inr (
          w ∷ before,
          w',
          behind,
          ap (λ l. w ∷ l) s,
          (q, f),
          omega arith,
          na,
          inl (j, rw z (o ∙ ap some (omega arith)), small, u, b),
        )
        | inr (before, w', behind, s, f, l, na, inr (o, u)) ↦
            inr
              (w ∷ before, w', behind, ap (λ l. w ∷ l) s, (q, f), omega arith, na, inr (rw z o, u))
      ]
  | inr z ↦
      let na : w ≢ all_ones = ground (arith, z) in
      elim (first_bit-FirstBit 64 0 w (omega arith) (omega arith) (unfold all_used in refl)) [
        | inl (j, o, l, u, b) ↦ inr (
          [],
          w,
          ws,
          refl,
          tt,
          omega arith,
          na,
          inl (j, rw (z, o) (ap some (omega arith)), l, u, b),
        )
        | inr (o, u) ↦ inr ([], w, ws, refl, tt, omega arith, na, inr (rw (z, o) refl, u))
      ]
]
