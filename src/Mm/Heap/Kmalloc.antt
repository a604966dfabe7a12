-- ===== src/Mm/Heap/Kmalloc.antt =====
-- `kmalloc`: a new block, or NULL and the blocks as they were.
use os.Prelude.{
  ℕ, suc, ◌+◌, ◌-◌, ◌/◌, ◌^◌, ◌≤◌, ◌<◌, ◌≡◌, refl, sym, ap, subst, ◌∙◌, Bool, true, false, List,
  ◌∷◌, ◌++◌, Option, none, some, if◌then◌else◌, length, take-append-drop, arith, ◌⊎◌, inl, inr,
}
use os.Mm.Heap.{
  Heap, heap_start, heap_grow, growth, anywhere, try_regions, kmalloc_imp, kmalloc, align_up,
}
use os.Mm.Heap.Blocks.{total-append, total, blocks}
use os.Mm.Heap.Scan.{AllSmall}
use os.Mm.Heap.Valid.{IsValid, held, Tried, try_regions-Tried, taken_part, rest_part}
use os.Mm.Heap.Grow.{growth-pages, not-AllSmall-extend_last}
use os.Mm.Heap.Grown.{grown, grown-held, grown-rest, grown-IsValid, Grows, heap_grow-Grows}

-- A block of `size` bytes or more at `p` is new among the blocks.
abbrev pub New : ℕ → ℕ → List (ℕ × ℕ) → List (ℕ × ℕ) → Type 0
New size p was is =
    (given : ℕ) × (before : List (ℕ × ℕ)) × (behind : List (ℕ × ℕ)) × (size ≤ given)
    × (was ≡ before ++ behind)
    × (is ≡ before ++ (p, given) ∷ behind)

-- The outcome of a call that returns `p`; NULL is for a full table, or for what `few` says.
abbrev pub Gives : Type 0 → ℕ → Heap → ℕ → Heap → Type 0
Gives few size h p h' =
    IsValid h'
    × (((p ≡ 0) × (held h' ≡ held h) × ((h.max_count ≤ length h'.regions) ⊎ few))
        ⊎ ((heap_start ≤ p) × New size p (held h) (held h')))

abbrev Done : Type 0 → ℕ → Heap → Option (ℕ × Heap) → Type 0
Done few size h none = ⊥
Done few size h (some (p, h')) = Gives few size h p h'

Tried-Gives :
    (few : Type 0) (size : ℕ) (h : Heap) (p : ℕ) (h' : Heap)
    → IsValid h
    → Tried size h (some p, h')
    → Gives few size h p h'
Tried-Gives few size h p h' v (inl (z, e, full)) = (
  subst (λ g. IsValid g) (sym e) v,
  inl (
    z,
    ap (λ g. held g) e,
    inl (subst (λ (g : Heap). h.max_count ≤ length g.regions) (sym e) full),
  ),
)
Tried-Gives few size h p h' v (inr (low, t, w)) =
    (w, inr (low, (t.given, t.before, t.behind, t.enough, t.was, t.is)))

-- a call on a heap with the same blocks
Gives-moved :
    (few : Type 0) (size : ℕ) (h g : Heap) (p : ℕ) (h' : Heap)
    → held g ≡ held h
    → g.max_count ≡ h.max_count
    → Gives ⊥ size g p h'
    → Gives few size h p h'
Gives-moved few size h g p h' e m (w, inl (z, same, inl full)) =
    (w, inl (z, same ∙ e, inl (omega (arith, full, m))))
Gives-moved few size h g p h' e m (w, inl (z, same, inr no_way)) = absurd no_way
Gives-moved few size h g p h' e m (w, inr (low, new)) =
    (w, inr (low, subst (λ l. New size p l (held h')) e new))

Done-moved :
    (few : Type 0) (size : ℕ) (h g : Heap) (r : Option (ℕ × Heap))
    → held g ≡ held h
    → g.max_count ≡ h.max_count
    → Done ⊥ size g r
    → Done few size h r
Done-moved few size h g none e m o = o
Done-moved few size h g (some (p, h')) e m o = Gives-moved few size h g p h' e m o

-- the blocks that `heap_grow` asks for are more than there are
abbrev pub Few : ℕ → Heap → Type 0
Few size h = h.frames < (growth size + 4096 - 1) / 4096

module _ (size : ℕ) (small : size < 2 ^ 62) where
  -- The steps of `kmalloc_imp` with no alignment.
  round_some :
      (fuel : ℕ) (h : Heap) (p : ℕ) (h' : Heap)
      → try_regions size 0 anywhere h ≡ (some p, h')
      → kmalloc_imp (suc fuel) size 0 anywhere h ≡ some (p, h')
  unfolding kmalloc_imp align_up
  round_some fuel h p h' e = ground (arith, e)

  round_none :
      (fuel : ℕ) (h h' : Heap) (b : Bool) (h'' : Heap)
      → try_regions size 0 anywhere h ≡ (none, h')
      → heap_grow (growth size) h' ≡ (b, h'')
      → kmalloc_imp (suc fuel) size 0 anywhere h
        ≡ (if b then kmalloc_imp fuel size 0 anywhere h'' else some (0, h''))
  unfolding kmalloc_imp align_up
  round_none fuel h h' b h'' e q = ground (arith, e, q)

  -- On a heap with a large free region one round is enough.
  last_round :
      (h : Heap)
      → IsValid h
      → ¬ AllSmall size (rest_part h)
      → Done ⊥ size h (kmalloc_imp 1 size 0 anywhere h)
  last_round h v large =
      go (try_regions size 0 anywhere h) refl (try_regions-Tried size h (omega arith) v)
    where
      go :
          (t : Option ℕ × Heap)
          → try_regions size 0 anywhere h ≡ t
          → Tried size h t
          → Done ⊥ size h (kmalloc_imp 1 size 0 anywhere h)
      go (none, h') e (_, tiny) = absurd (large tiny)
      go (some p, h') e o = rw (round_some 0 h p h' e) (Tried-Gives ⊥ size h p h' v o)

  large_rest :
      (h : Heap)
      → IsValid h
      → (growth size + 4096 - 1) / 4096 ≤ h.frames
      → ¬ AllSmall size (rest_part (grown (growth size) h))
  large_rest h v pages s =
      let (more, _, bound) = growth-pages size small in
      not-AllSmall-extend_last size (growth size) (rest_part h) more
        (omega (
          arith,
          v.whole,
          v.bounded,
          total-append (taken_part h) (rest_part h),
          ap total (take-append-drop h.first_free_region h.regions),
        ))
        (subst (λ l. AllSmall size l) (grown-rest (growth size) h v pages) s)

  grown_round :
      (h : Heap)
      → IsValid h
      → (growth size + 4096 - 1) / 4096 ≤ h.frames
      → Done (Few size h) size h (kmalloc_imp 1 size 0 anywhere (grown (growth size) h))
  grown_round h v pages =
      let g = grown (growth size) h in
      Done-moved (Few size h) size h g (kmalloc_imp 1 size 0 anywhere g)
        (grown-held (growth size) h v pages) refl
        (last_round g (grown-IsValid (growth size) h v pages) (large_rest h v pages))

  grow_round :
      (h : Heap)
      → IsValid h
      → (g : Bool × Heap) → heap_grow (growth size) h ≡ g
      → try_regions size 0 anywhere h ≡ (none, h)
      → Done (Few size h) size h (kmalloc_imp 2 size 0 anywhere h)
  grow_round h v g q e =
      go g q (subst (λ x. Grows (growth size) h x) q (heap_grow-Grows (growth size) h v))
    where
      go :
          (g : Bool × Heap)
          → heap_grow (growth size) h ≡ g
          → Grows (growth size) h g
          → Done (Few size h) size h (kmalloc_imp 2 size 0 anywhere h)
      go (false, h') q (w, r, reason) =
          rw (round_none 1 h h false h' e q)
            (w, inl (refl, ap (λ l. blocks heap_start l) r, reason))
      go (true, h') q (r, pages) = rw (round_none 1 h h true h' e q) (
          subst (λ k. Done (Few size h) size h (kmalloc_imp 1 size 0 anywhere k)) (sym r)
            (grown_round h v pages))

  first_round : (h : Heap) → IsValid h → Done (Few size h) size h (kmalloc_imp 2 size 0 anywhere h)
  first_round h v =
      go (try_regions size 0 anywhere h) refl (try_regions-Tried size h (omega arith) v)
        (heap_grow (growth size) (try_regions size 0 anywhere h).1) refl
    where
      go :
          (t : Option ℕ × Heap)
          → try_regions size 0 anywhere h ≡ t
          → Tried size h t
          → (g : Bool × Heap) → heap_grow (growth size) t.1 ≡ g
          → Done (Few size h) size h (kmalloc_imp 2 size 0 anywhere h)
      go (some p, h') e o g q =
          rw (round_some 1 h p h' e) (Tried-Gives (Few size h) size h p h' v o)
      go (none, h') e (same, _) g q =
          grow_round h v g (ap (λ k. heap_grow (growth size) k) (sym same) ∙ q)
            (e ∙ ap (λ k. (none, k)) same)

Done-some :
    (few : Type 0) (size : ℕ) (h : Heap) (r : Option (ℕ × Heap))
    → Done few size h r
    → (p : ℕ) × (h' : Heap) × (r ≡ some (p, h')) × Gives few size h p h'
Done-some few size h none o = absurd o
Done-some few size h (some (p, h')) o = (p, h', refl, o)

-- On a valid heap, `kmalloc` of less than 2 ^ 62 bytes returns within two rounds. It leaves a valid
-- heap, and returns NULL with the blocks as they were, where the table is full or the physical
-- blocks do not suffice, or the address of a new block of as many bytes or more behind the heap's
-- start, with every other block as it was.
pub kmalloc-Gives :
    (size : ℕ) (h : Heap)
    → size < 2 ^ 62
    → IsValid h
    → (p : ℕ) × (h' : Heap) × (kmalloc size h ≡ some (p, h')) × Gives (Few size h) size h p h'
unfolding kmalloc
kmalloc-Gives size h small v =
    Done-some (Few size h) size h (kmalloc_imp 2 size 0 anywhere h) (first_round size small h v)
