-- ===== src/Mm/Heap/Kfree.antt =====
-- `kfree`: the block at the address goes, and the others stay.
use os.Prelude.{
  ℕ, zero, suc, ◌+◌, ◌≤◌, ◌<◌, ◌≡◌, refl, sym, ap, subst, ◌∙◌, true, false, List, [], ◌∷◌, ◌++◌,
  Option, none, some, if◌then◌else◌, ◌==◌, ltb, take, length, arith, Bool, Bool-cases, ◌⊎◌, inl,
  inr,
}
use os.Mm.Heap.{Region, Heap, heap_start, free_region, kfree, settled, overruns}
use os.Mm.Heap.Blocks.{total, all_res}
use os.Mm.Heap.Valid.{IsValid, held, taken_part}
use os.Mm.Heap.Release.{NoBlock, Freed}
use os.Mm.Heap.Search.{Out, free_region-Out}

all_res-take :
    (m n : ℕ) (rs : List Region) → m ≤ n → all_res (take n rs) ≡ true → all_res (take m rs) ≡ true
unfolding all_res
all_res-take zero n rs h e = refl
all_res-take (suc m) zero rs h e = absurd (omega arith)
all_res-take (suc m) (suc n) [] h e = refl
all_res-take (suc m) (suc n) (r ∷ rs) h e = ground (arith, all_res-take m n rs)

take-take : (m n : ℕ) (rs : List Region) → m ≤ n → take m (take n rs) ≡ take m rs
take-take zero n rs h = refl
take-take (suc m) zero rs h = absurd (omega arith)
take-take (suc m) (suc n) [] h = refl
take-take (suc m) (suc n) (r ∷ rs) h = ap (λ l. r ∷ l) (take-take m n rs (omega arith))

-- The block at the address is the first one there, and goes.
abbrev pub Gone : ℕ → List (ℕ × ℕ) → List (ℕ × ℕ) → Type 0
Gone addr was is =
    (given : ℕ) × (before : List (ℕ × ℕ)) × (behind : List (ℕ × ℕ)) × (was
      ≡ before ++ (addr, given) ∷ behind)
    × NoBlock addr before
    × (is ≡ before ++ behind)

-- the heap that `kfree` leaves, where it frees
abbrev without : ℕ → Heap → List Region → ℕ → Heap
without addr h rs j = record h {
  regions = rs;
  first_free_region = if ltb j h.first_free_region then j else h.first_free_region;
  first_free_addr = if ltb j h.first_free_region then addr else h.first_free_addr;
}

module _ (addr : ℕ) (h : Heap) (v : IsValid h) (rs : List Region) (d : ℕ)
    (f : Freed addr heap_start false h.regions rs d) where
  low-IsValid :
      d < h.first_free_region
      → IsValid (record h { regions = rs; first_free_region = d; first_free_addr = addr })
  low-IsValid low = record {
    hint_in = omega (arith, f.inside);
    hint_res =
        ap all_res f.prefix ∙ all_res-take d h.first_free_region h.regions (omega arith) v.hint_res;
    hint_addr = elim f.place [
      | inl e ↦ e ∙ ap (λ l. heap_start + total l) (sym f.prefix)
      | inr e ↦
          absurd
            (cc (e, all_res-take (suc d) h.first_free_region h.regions (omega arith) v.hint_res))
    ];
    spaced = f.spaced;
    whole = f.same ∙ v.whole;
    bounded = v.bounded;
  }

  high-taken : h.first_free_region ≤ d → take h.first_free_region rs ≡ taken_part h
  high-taken high =
      sym (take-take h.first_free_region d rs high)
      ∙ ap (λ l. take h.first_free_region l) f.prefix
      ∙ take-take h.first_free_region d h.regions high

  high-IsValid : h.first_free_region ≤ d → IsValid (record h { regions = rs })
  high-IsValid high = record {
    hint_in = omega (arith, f.inside);
    hint_res = ap all_res (high-taken high) ∙ v.hint_res;
    hint_addr = v.hint_addr ∙ ap (λ l. heap_start + total l) (sym (high-taken high));
    spaced = f.spaced;
    whole = f.same ∙ v.whole;
    bounded = v.bounded;
  }

  without-IsValid : IsValid (without addr h rs d)
  without-IsValid = elim (Bool-cases (ltb d h.first_free_region)) [
    | inl e ↦ rw e (low-IsValid (ground arith))
    | inr e ↦ rw e (high-IsValid (ground arith))
  ]

settled-Gone :
    (addr : ℕ) (h : Heap) (out : Option (List Region × ℕ))
    → IsValid h
    → Out addr heap_start false 0 h.regions out
    → IsValid (settled addr h out)
      × ((NoBlock addr (held h) × (settled addr h out ≡ h))
          ⊎ Gone addr (held h) (held (settled addr h out)))
settled-Gone addr h none v o = (v, inl (o, refl))
settled-Gone addr h (some (rs, j)) v (d, q, f) =
    let e : j ≡ d = omega arith in
    (
      subst (λ n. IsValid (without addr h rs n)) (sym e) (without-IsValid addr h v rs d f),
      inr (f.given, f.before, f.behind, f.was, f.first, f.is),
    )

-- whether freeing the block at the address moves entries from behind the table
abbrev pub leaves_table : ℕ → Heap → Bool
leaves_table addr h = overruns addr h.max_count (length h.regions) 0 heap_start h.regions

-- On a valid heap, `kfree` of an address that is not NULL goes wrong just where it moves entries from
-- behind the table, which it does when the region behind the block is free and the block's index and
-- the number of regions together exceed the room of the table. Otherwise it leaves a valid heap: the
-- first block at the address goes and every other block stays, or there is none and the heap stays as
-- it is.
pub kfree-Gone :
    (addr : ℕ) (h : Heap)
    → (addr == 0) ≡ false
    → IsValid h
    → ((leaves_table addr h ≡ true) × (kfree addr h ≡ none))
      ⊎ ((leaves_table addr h ≡ false)
          × ((h' : Heap) × (kfree addr h ≡ some h')
              × IsValid h'
              × ((NoBlock addr (held h) × (h' ≡ h)) ⊎ Gone addr (held h) (held h'))))
unfolding kfree
kfree-Gone addr h e v = elim (Bool-cases (leaves_table addr h)) [
  | inl o ↦ inl (o, rw (e, o) refl)
  | inr o ↦
      let (valid, gone) =
        settled-Gone addr h (free_region addr h.regions) v
          (free_region-Out addr h.regions v.spaced (omega (arith, v.whole, v.bounded))) in
      inr (o, (settled addr h (free_region addr h.regions), rw (e, o) refl, valid, gone))
]
