-- ===== src/Mm/Heap/Search.antt =====
-- The loop of `kfree`.
use os.Prelude.{
  ℕ, suc, ◌+◌, ◌^◌, ◌<◌, ◌≡◌, refl, sym, subst, Bool, true, false, not, ◌&&◌, List, [], ◌∷◌, Option,
  none, some, ◌==◌, arith, Bool-cases, inl, inr,
}
use os.Mm.Heap.{Region, heap_start, release, join, free_behind, free_region}
use os.Mm.Heap.Blocks.{total, blocks, Spaced}
use os.Mm.Heap.Release.{NoBlock, NoBlock-behind, Freed, Freed-behind, Freed-head, Freed-joined}

-- What the loop leaves: nothing to free, or a table without the block.
abbrev pub Out : ℕ → ℕ → Bool → ℕ → List Region → Option (List Region × ℕ) → Type 0
Out addr cur free i rs none = NoBlock addr (blocks cur rs)
Out addr cur free i rs (some (rs', j)) = (d : ℕ) × (j ≡ i + d) × Freed addr cur free rs rs' d

abbrev onto : Region → Option (List Region × ℕ) → Option (List Region × ℕ)
onto p none = none
onto p (some (rs, j)) = some (p ∷ rs, j)

module _ (addr : ℕ) where
  free_behind-miss :
      (p : Region) (i cur : ℕ) (r : Region) (rs : List Region)
      → (cur == addr && r.res) ≡ false
      → free_behind addr p i cur (r ∷ rs) ≡ onto p (free_behind addr r (i + 1) (cur + r.size) rs)
  unfolding free_behind
  free_behind-miss p i cur r rs e = ground (arith, e)

  free_behind-hit :
      (p : Region) (i cur : ℕ) (r : Region) (rs : List Region)
      → (cur == addr && r.res) ≡ true
      → free_behind addr p i cur (r ∷ rs) ≡ some (join p i (release r rs))
  unfolding free_behind
  free_behind-hit p i cur r rs e = ground (arith, e)

  join-reserved :
      (p : Region) (i : ℕ) (r : Region) (rs : List Region)
      → p.res ≡ true
      → join p i (release r rs) ≡ (p ∷ release r rs, i + 1)
  unfolding join release
  join-reserved p i r [] u = ground (arith, u)
  join-reserved p i r (n ∷ rs) u = ground (arith, u)

  join-free :
      (p : Region) (i : ℕ) (r : Region) (rs : List Region)
      → p.res ≡ false
      → join p i (release r rs) ≡ ((join p 0 (release r rs)).0, i)
  unfolding join release
  join-free p i r [] u = ground (arith, u)
  join-free p i r (n ∷ rs) u = ground (arith, u)

  hit-Out :
      (p : Region) (i cur : ℕ) (free : Bool) (r : Region) (rs : List Region)
      → (cur + p.size == addr && r.res) ≡ true
      → (cur == addr && p.res) ≡ false
      → (free && not p.res) ≡ false
      → Spaced (not p.res) (r ∷ rs)
      → p.size + (r.size + total rs) < 2 ^ 63
      → Out addr cur free i (p ∷ r ∷ rs) (some (join p i (release r rs)))
  unfolding Spaced
  hit-Out p i cur free r rs e miss gap sp h =
      let here : cur + p.size ≡ addr = ground arith in
      let taken : r.res ≡ true = ground arith in
      let sp' : Spaced false rs = subst (λ b. Spaced (not b) rs) taken sp.1 in
      elim (Bool-cases p.res) [
        | inl u ↦
            let head = Freed-head addr (cur + p.size) r rs here taken (omega arith) sp' in
            let moved =
              subst (λ b. Freed addr (cur + p.size) (not b) (r ∷ rs) (release r rs) 0) (sym u)
                head in
            rw (join-reserved p i r rs u)
              (1, refl, Freed-behind addr cur free p (r ∷ rs) (release r rs) 0 miss gap moved)
        | inr u ↦
            rw (join-free p i r rs u)
              (0, omega arith, Freed-joined addr cur free p r rs here u taken h gap sp')
      ]

  miss-Out :
      (p : Region) (i cur : ℕ) (free : Bool) (r : Region) (rs : List Region)
      (out : Option (List Region × ℕ))
      → (cur == addr && p.res) ≡ false
      → (free && not p.res) ≡ false
      → Out addr (cur + p.size) (not p.res) (i + 1) (r ∷ rs) out
      → Out addr cur free i (p ∷ r ∷ rs) (onto p out)
  unfolding blocks
  miss-Out p i cur free r rs none miss gap o = NoBlock-behind addr cur p _ miss o
  miss-Out p i cur free r rs (some (rs', j)) miss gap (d, q, f) =
      (suc d, omega (arith, q), Freed-behind addr cur free p (r ∷ rs) rs' d miss gap f)

  free_behind-Out :
      (p : Region) (i cur : ℕ) (free : Bool) (rs : List Region)
      → (cur == addr && p.res) ≡ false
      → Spaced free (p ∷ rs)
      → p.size + total rs < 2 ^ 63
      → Out addr cur free i (p ∷ rs) (free_behind addr p i (cur + p.size) rs)
  unfolding free_behind Spaced total blocks
  free_behind-Out p i cur free [] miss sp h = NoBlock-behind addr cur p [] miss tt
  free_behind-Out p i cur free (r ∷ rs) miss sp h =
      elim (Bool-cases (cur + p.size == addr && r.res)) [
        | inl e ↦
            rw (free_behind-hit p i (cur + p.size) r rs e)
              (hit-Out p i cur free r rs e miss sp.0 sp.1 h)
        | inr e ↦ rw (free_behind-miss p i (cur + p.size) r rs e) (
            miss-Out p i cur free r rs _ miss sp.0
              (free_behind-Out r (i + 1) (cur + p.size) (not p.res) rs e sp.1 (omega arith)))
      ]

free_region-hit :
    (addr : ℕ) (r : Region) (rs : List Region)
    → (heap_start == addr && r.res) ≡ true
    → free_region addr (r ∷ rs) ≡ some (release r rs, 0)
unfolding free_region
free_region-hit addr r rs e = ground (arith, e)

free_region-miss :
    (addr : ℕ) (r : Region) (rs : List Region)
    → (heap_start == addr && r.res) ≡ false
    → free_region addr (r ∷ rs) ≡ free_behind addr r 0 (heap_start + r.size) rs
unfolding free_region
free_region-miss addr r rs e = ground (arith, e)

pub free_region-Out :
    (addr : ℕ) (rs : List Region)
    → Spaced false rs
    → total rs < 2 ^ 63
    → Out addr heap_start false 0 rs (free_region addr rs)
unfolding Spaced total free_region blocks
free_region-Out addr [] sp h = tt
free_region-Out addr (r ∷ rs) sp h = elim (Bool-cases (heap_start == addr && r.res)) [
  | inl e ↦
      let taken : r.res ≡ true = ground arith in
      rw (free_region-hit addr r rs e) (
        0,
        refl,
        Freed-head addr heap_start r rs (ground arith) taken h
            (subst (λ b. Spaced (not b) rs) taken sp.1),
      )
  | inr e ↦ rw (free_region-miss addr r rs e) (free_behind-Out addr r 0 heap_start false rs e sp h)
]
