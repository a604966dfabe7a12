-- ===== src/Mm/Heap/Apart.antt =====
-- Blocks do not overlap.
use os.Prelude.{
  ℕ, ◌+◌, ◌^◌, ◌≤◌, ◌<◌, ◌≡◌, sym, subst, List, [], ◌∷◌, ◌++◌, some, arith, ◌⊎◌, inl, inr,
  Bool-cases,
}
use os.Mm.Heap.{Region, Heap, heap_start, kmalloc}
use os.Mm.Heap.Blocks.{total, blocks}
use os.Mm.Heap.Valid.{IsValid, held}
use os.Mm.Heap.Kmalloc.{kmalloc-Gives}

-- blocks one behind another from `cur` to `end`
abbrev Chain : ℕ → ℕ → List (ℕ × ℕ) → Type 0
Chain cur end [] = cur ≤ end
Chain cur end ((a, s) ∷ l) = (cur ≤ a) × Chain (a + s) end l

Chain-lower :
    (cur cur' end : ℕ) (l : List (ℕ × ℕ)) → cur ≤ cur' → Chain cur' end l → Chain cur end l
Chain-lower cur cur' end [] h c = omega arith
Chain-lower cur cur' end ((a, s) ∷ l) h (k, c) = (omega arith, c)

blocks-Chain : (cur : ℕ) (rs : List Region) → Chain cur (cur + total rs) (blocks cur rs)
unfolding blocks total
blocks-Chain cur [] = omega arith
blocks-Chain cur (r ∷ rs) =
    let e : cur + r.size + total rs ≡ cur + (r.size + total rs) = omega arith in
    let c =
      subst (λ n. Chain (cur + r.size) n (blocks (cur + r.size) rs)) e
        (blocks-Chain (cur + r.size) rs) in
    elim (Bool-cases r.res) [
      | inl u ↦ rw u (omega arith, c)
      | inr u ↦ rw u (Chain-lower cur (cur + r.size) _ (blocks (cur + r.size) rs) (omega arith) c)
    ]

-- every block of the list is apart from the `s` bytes at `a`, and within the heap
abbrev pub Apart : ℕ → ℕ → List (ℕ × ℕ) → Type 0
Apart a s [] = Unit
Apart a s ((b, t) ∷ l) = ((a + s ≤ b) ⊎ (b + t ≤ a)) × Apart a s l

behind-Apart : (a s cur end : ℕ) (l : List (ℕ × ℕ)) → a + s ≤ cur → Chain cur end l → Apart a s l
behind-Apart a s cur end [] h c = tt
behind-Apart a s cur end ((b, t) ∷ l) h (k, c) =
    (inl (omega arith), behind-Apart a s (b + t) end l (omega arith) c)

Chain-Apart :
    (a s cur end : ℕ) (l m : List (ℕ × ℕ))
    → Chain cur end (l ++ (a, s) ∷ m)
    → (cur ≤ a) × (a + s ≤ end) × Apart a s (l ++ m)
Chain-Apart a s cur end [] m (k, c) =
    (k, Chain-end (a + s) end m c, behind-Apart a s (a + s) end m (omega arith) c)
  where
    Chain-end : (cur end : ℕ) (m : List (ℕ × ℕ)) → Chain cur end m → cur ≤ end
    Chain-end cur end [] c = c
    Chain-end cur end ((b, t) ∷ m) (k, c) = omega (arith, Chain-end (b + t) end m c)
Chain-Apart a s cur end ((b, t) ∷ l) m (k, c) =
    let (low, high, rest) = Chain-Apart a s (b + t) end l m c in
    (omega (arith, low), high, (inr low, rest))

-- What `kmalloc` of fewer than 2 ^ 62 bytes returns on a valid heap is NULL, or begins a block of as
-- many bytes or more, which lies in the heap and overlaps no other block.
pub kmalloc-Apart :
    (size : ℕ) (h : Heap)
    → size < 2 ^ 62
    → IsValid h
    → (p : ℕ) × (h' : Heap) × (kmalloc size h ≡ some (p, h'))
      × ((p ≡ 0)
          ⊎ ((given : ℕ) × (size ≤ given)
              × (heap_start ≤ p)
              × (p + given ≤ heap_start + h'.heap_size)
              × Apart p given (held h)))
kmalloc-Apart size h small v =
    let (p, h', e, (w, out)) = kmalloc-Gives size h small v in
    (
      p,
      h',
      e,
      elim out [
        | inl (z, _, _) ↦ inl z
        | inr (low, (given, before, behind, enough, was, is)) ↦
            let end = heap_start + h'.heap_size in
            let c =
              subst (λ n. Chain heap_start (heap_start + n) (held h')) w.whole
                (blocks-Chain heap_start h'.regions) in
            let (_, high, apart) =
              Chain-Apart p given heap_start end before behind
                (subst (λ l. Chain heap_start end l) is c) in
            inr (given, enough, low, high, subst (λ l. Apart p given l) (sym was) apart)
      ],
    )
