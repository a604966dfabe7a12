-- ===== src/Util/Bitset/Search.antt =====
-- `bitset_ffub` finds the first bit that is not in the set, and puts it in.
use Prim.Native.Nat.{bit_or}
use os.Prelude.{
  ℕ, zero, suc, ◌+◌, ◌-◌, ◌*◌, ◌/◌, ◌%◌, ◌^◌, ◌<◌, ◌≤◌, ◌≡◌, refl, sym, ap, ap₂, subst, ◌∙◌, Bool,
  true, false, not, List, [], ◌∷◌, Option, none, some, if◌then◌else◌, ◌==◌, ltb, get_elem?, set,
  length, arith, inl, inr, ◌⊎◌, Bool-cases, ==_iff,
}
use os.Prelude.Int.{ℤ, pos, negsuc}
use os.Prelude.Bits.{bit, bit_and-pow_iff}
use os.Util.Bitset.{Bitset, free_bit, ffub_from, bitset_ffub, bitset_set, int_of, ffub_result}
use os.Util.Bitset.Laws.{Bytes, member, IsBitset, Changed, bitset_set-Changed, set_byte}

abbrev at : List ℕ → ℕ → ℕ → Bool
at bs q r = elim (get_elem? bs q) [ none ↦ false | some b ↦ not (bit b r == 0) ]

member-at : (bs : List ℕ) (k : ℕ) → member bs k ≡ at bs (k / 8) (k % 8)
unfolding member
member-at bs k = refl

member-cons :
    (b : ℕ) (bs : List ℕ) (k : ℕ)
    → member (b ∷ bs) k ≡ (if ltb k 8 then not (bit b k == 0) else member bs (k - 8))
member-cons b bs k = elim (Bool-cases (ltb k 8)) [
  | inl e ↦
      let z : k / 8 ≡ zero = ground arith in
      let m : k % 8 ≡ k = ground arith in member-at (b ∷ bs) k ∙ ap₂ (at (b ∷ bs)) z m ∙ rw e
  | inr e ↦
      let z : k / 8 ≡ suc ((k - 8) / 8) = ground arith in
      let m : k % 8 ≡ (k - 8) % 8 = ground arith in
      member-at (b ∷ bs) k ∙ ap₂ (at (b ∷ bs)) z m ∙ rw e (sym (member-at bs (k - 8)))
]

-- the first bit of a byte, from bit 8 - n on, that is 0
abbrev First : ℕ → ℕ → Option ℕ → Type 0
First n b none = (k : ℕ) → 8 ≤ k + n → k < 8 → (bit b k == 0) ≡ false
First n b (some j) =
    (8 ≤ j + n)
    × (j < 8)
    × ((bit b j == 0) ≡ true)
    × ((k : ℕ) → 8 ≤ k + n → k < j → (bit b k == 0) ≡ false)

First-wider :
    (n b : ℕ) (r : Option ℕ)
    → suc n ≤ 8
    → (bit b (7 - n) == 0) ≡ false
    → First n b r
    → First (suc n) b r
First-wider n b none h e f = λ k p q. elim (Bool-cases (k == 7 - n)) [
  | inl same ↦ rw ((==_iff k (7 - n)).0 same) e
  | inr other ↦ f k (ground arith) q
]
First-wider n b (some j) h e f = (
  omega (arith, f.0),
  f.1,
  f.2,
  λ k p q. elim (Bool-cases (k == 7 - n)) [
    | inl same ↦ rw ((==_iff k (7 - n)).0 same) e
    | inr other ↦ f.3 k (ground arith) q
  ],
)

free_bit-First : (n b : ℕ) → n ≤ 8 → First n b (free_bit n b)
unfolding free_bit
free_bit-First zero b h = λ k p q. absurd (omega arith)
free_bit-First (suc n) b h = elim (Bool-cases (bit b (7 - n) == 0)) [
  | inl e ↦ rw (bit_and-pow_iff, e) (omega arith, omega arith, e, λ k p q. absurd (omega arith))
  | inr e ↦
      rw (bit_and-pow_iff, e)
        (First-wider n b (free_bit n b) h e (free_bit-First n b (omega arith)))
]

full_byte : (k : ℕ) → k < 8 → bit 0xff k ≡ 1
unfolding bit
full_byte zero h = refl
full_byte (suc zero) h = refl
full_byte (suc (suc zero)) h = refl
full_byte (suc (suc (suc zero))) h = refl
full_byte (suc (suc (suc (suc zero)))) h = refl
full_byte (suc (suc (suc (suc (suc zero))))) h = refl
full_byte (suc (suc (suc (suc (suc (suc zero)))))) h = refl
full_byte (suc (suc (suc (suc (suc (suc (suc zero))))))) h = refl
full_byte (suc (suc (suc (suc (suc (suc (suc (suc k)))))))) h = absurd (omega arith)

-- the choice of a byte by the outer loop
abbrev choice : ℕ → Option ℕ
choice b = if b == 0xff then none else free_bit 8 b

choice-First : (b : ℕ) → First 8 b (choice b)
choice-First b = elim (Bool-cases (b == 0xff)) [
  | inl e ↦ rw ((==_iff b 0xff).0 e) (λ k p q. rw (full_byte k q))
  | inr e ↦ rw e (free_bit-First 8 b (omega arith))
]

-- what `ffub_from` gives from byte `i` on, for the bytes `bs`
abbrev Ffub : ℕ → List ℕ → List ℕ × Option ℕ → Type 0
Ffub i bs (bs', none) = (bs' ≡ bs) × ((k : ℕ) → k < 8 * length bs → member bs k ≡ true)
Ffub i bs (bs', some r) =
    (k : ℕ) × (b : ℕ) × (r ≡ 8 * i + k)
    × (get_elem? bs (k / 8) ≡ some b)
    × (bs' ≡ set bs (k / 8) (bit_or b (2 ^ (k % 8))))
    × (member bs k ≡ false)
    × ((j : ℕ) → j < k → member bs j ≡ true)

Ffub-cons :
    (i b : ℕ) (bs bs' : List ℕ) (r : Option ℕ)
    → ((k : ℕ) → k < 8 → (bit b k == 0) ≡ false)
    → Ffub (suc i) bs (bs', r)
    → Ffub i (b ∷ bs) (b ∷ bs', r)
Ffub-cons i b bs bs' none full (e, all) =
    (ap (◌∷◌ b) e, λ k h. ground (arith, member-cons b bs k, full k, all (k - 8)))
Ffub-cons i b bs bs' (some r) full (k, c, e, at, w, free, below) =
    let q : (k + 8) / 8 ≡ suc (k / 8) = omega arith in
    let m : (k + 8) % 8 ≡ k % 8 = omega arith in
    (
      k + 8,
      c,
      omega (arith, e),
      rw q at,
      rw (q, m, w),
      ground (arith, member-cons b bs (k + 8), free),
      λ j h. ground (arith, member-cons b bs j, full j, below (j - 8)),
    )

ffub_from-Ffub : (i : ℕ) (bs : List ℕ) → Ffub i bs (ffub_from i bs)
unfolding ffub_from
ffub_from-Ffub i [] = (refl, λ k h. absurd (omega arith))
ffub_from-Ffub i (b ∷ bs) = step (choice b) (choice-First b) (ffub_from-Ffub (suc i) bs)
  where
    step :
        (r : Option ℕ)
        → First 8 b r
        → Ffub (suc i) bs (ffub_from (suc i) bs)
        → Ffub i (b ∷ bs) (elim r [
          | none ↦ (b ∷ (ffub_from (suc i) bs).0, (ffub_from (suc i) bs).1)
          | some j ↦ (bit_or b (2 ^ j) ∷ bs, some (8 * i + j))
        ])
    step none f rest =
        Ffub-cons i b bs (ffub_from (suc i) bs).0 (ffub_from (suc i) bs).1
          (λ k h. f k (omega arith) h) rest
    step (some j) (low, lt, free, below) rest =
        let q : j / 8 ≡ 0 = omega arith in
        let m : j % 8 ≡ j = omega arith in
        (
          j,
          b,
          refl,
          rw q,
          rw (q, m),
          ground (arith, member-cons b bs j),
          λ k h. ground (arith, member-cons b bs k, below k),
        )

member-size : (bs : List ℕ) (k b : ℕ) → get_elem? bs k ≡ some b → k < length bs
member-size [] k b e = cc
member-size (c ∷ bs) zero b e = omega arith
member-size (c ∷ bs) (suc k) b e = omega (arith, member-size bs k b e)

byte-lt : (bs : List ℕ) (k b : ℕ) → Bytes bs → get_elem? bs k ≡ some b → b < 2 ^ 8
byte-lt [] k b h e = cc
byte-lt (c ∷ bs) zero b h e = let lt = h.0 in ground arith
byte-lt (c ∷ bs) (suc k) b h e = byte-lt bs k b h.1 e

-- What `bitset_ffub` gives: -1 and no change where every bit is in the set, and else the first bit
-- that is not, with the set that `bitset_set` of that bit leaves.
abbrev pub Found : Bitset → Bitset × ℤ → Type 0
Found s (s', r) =
    ((r ≡ negsuc 0) × (s' ≡ s) × ((k : ℕ) → k < 8 * s.size → member s.bytes k ≡ true))
    ⊎ ((n : ℕ) × (r ≡ pos n)
        × (n < 8 * s.size)
        × (member s.bytes n ≡ false)
        × ((k : ℕ) → k < n → member s.bytes k ≡ true)
        × (bitset_set s n ≡ some s')
        × Changed s n true s')

int_of_small : (n : ℕ) → n < 2 ^ 31 → int_of n ≡ pos n
int_of_small n h = let e : n % 2 ^ 32 ≡ n = omega arith in rw e (ground arith)

found :
    (s : Bitset) (bs : List ℕ) (r : Option ℕ)
    → IsBitset s
    → s.size ≤ 2 ^ 28
    → Ffub 0 s.bytes (bs, r)
    → Found s (record s { bytes = bs }, ffub_result r)
found s bs none v h (e, all) =
    inl (refl, ap (λ x. record s { bytes = x }) e, λ k lt. all k (omega (arith, v.size, lt)))
found s bs (some r) v h (k, b, e, at, w, free, below) =
    let same : r ≡ k = omega (arith, e) in
    let lt = byte-lt s.bytes (k / 8) b v.bytes at in
    let inside : k / 8 < s.size = omega (arith, v.size, member-size s.bytes (k / 8) b at) in
    let (s', done, changed) = bitset_set-Changed s k v inside in
    let here : bitset_set s k ≡ some (record s { bytes = bs }) =
      unfold bitset_set in (ground (arith, at, w, set_byte b (k % 8) lt)) in
    let eq : s' ≡ record s { bytes = bs } = cc in
    inr (
      k,
      ap int_of same ∙ int_of_small k (omega arith),
      omega arith,
      free,
      below,
      here,
      subst (Changed s k true) eq changed,
    )

-- On a well-formed set of at most 2 ^ 28 bytes `bitset_ffub` searches the 8 * size bits of its
-- `size` bytes. It returns -1 just where every one of them is in the set, and changes nothing then;
-- else it returns the first bit that is not in it, and leaves the set that `bitset_set` of that bit
-- gives. The bound keeps each bit inside an `int`.
pub bitset_ffub-Found : (s : Bitset) → IsBitset s → s.size ≤ 2 ^ 28 → Found s (bitset_ffub s)
unfolding bitset_ffub
bitset_ffub-Found s v h =
    found s (ffub_from 0 s.bytes).0 (ffub_from 0 s.bytes).1 v h (ffub_from-Ffub 0 s.bytes)
