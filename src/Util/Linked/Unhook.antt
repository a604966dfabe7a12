-- ===== src/Util/Linked/Unhook.antt =====
-- Unhooking a node of kernel/src/util/list.c from its neighbours: the two writes of `list_delete`.
use os.Prelude.{
  ◌≡◌, ◌≢◌, refl, true, false, [], ◌∷◌, ◌++◌, some, inl, inr, if◌then◌else◌, ◌==◌, ==_iff, arith,
  Bool-cases, subst,
}
use os.Util.Linked.{Ptr, null, Node, Store, pure, set_next, set_prev}
use os.Util.Linked.Seg.{
  Cells, first_or, last_or, has, Distinct, Seg, has-append, Seg-write, relink_next, relink_prev,
  with_next, with_prev, Seg-relink_next, Seg-relink_prev, last_or-cell, set_next-ok, set_prev-ok,
}

-- the two writes of `list_delete`, each made only where there is a neighbour
unfoldable pub unhook_prev : Store → Ptr → Ptr → Store
unhook_prev h p q = if p == null then h else relink_next h p q

unfoldable pub unhook_next : Store → Ptr → Ptr → Store
unhook_next h p q = if q == null then h else relink_prev h q p

pub unhook_prev-ne : (h : Store) (p q : Ptr) → p ≢ null → relink_next h p q ≡ unhook_prev h p q
unfolding unhook_prev
unhook_prev-ne h p q ne = ground arith

pub unhook_next-ne : (h : Store) (p q : Ptr) → q ≢ null → relink_prev h q p ≡ unhook_next h p q
unfolding unhook_next
unhook_next-ne h p q ne = ground arith

-- The stretch before the node, linked to what follows the node.
pub unhook_prev-Seg :
    (h : Store) (a end : Ptr) (ys : Cells)
    → Distinct ys
    → Seg h null a ys
    → Seg (unhook_prev h (last_or null ys) end) null end ys
unhook_prev-Seg h a end [] d s = tt
unhook_prev-Seg h a end (y ∷ ys) d s =
    subst (λ g. Seg g null end (y ∷ ys))
      (unhook_prev-ne h (last_or null (y ∷ ys)) end (last_or-cell h null a y ys s).0)
      (Seg-relink_next h null a end y ys d s)

-- The stretch behind the node, linked to what stands before the node.
pub unhook_next-Seg :
    (h : Store) (a start : Ptr) (zs : Cells)
    → Distinct zs
    → Seg h a null zs
    → Seg (unhook_next h start (first_or null zs)) start null zs
unhook_next-Seg h a start [] d s = tt
unhook_next-Seg h a start ((b, w) ∷ zs) d s =
    subst (λ g. Seg g start null ((b, w) ∷ zs)) (unhook_next-ne h start b s.0)
      (Seg-relink_prev h a start null b w zs d s)

-- A write at a neighbour spares the stretch on the other side.
pub unhook_prev-spares :
    (h : Store) (p q start end : Ptr) (xs : Cells)
    → (p ≢ null → has p xs ≡ false)
    → Seg h start end xs
    → Seg (unhook_prev h p q) start end xs
unfolding unhook_prev relink_next
unhook_prev-spares h p q start end xs o s = elim (Bool-cases (p == null)) [
  | inl e ↦ rw e s
  | inr e ↦ rw e (Seg-write h start end xs p (with_next q (h p)) (o (ground arith)) s)
]

pub unhook_next-spares :
    (h : Store) (p q start end : Ptr) (xs : Cells)
    → (q ≢ null → has q xs ≡ false)
    → Seg h start end xs
    → Seg (unhook_next h p q) start end xs
unfolding unhook_next relink_prev
unhook_next-spares h p q start end xs o s = elim (Bool-cases (q == null)) [
  | inl e ↦ rw e s
  | inr e ↦ rw e (Seg-write h start end xs q (with_prev p (h q)) (o (ground arith)) s)
]

-- Two stretches of a list with distinct nodes have no node in common.
pub Distinct-split :
    (ys : Cells) (a v : Ptr) (zs : Cells)
    → Distinct (ys ++ (a, v) ∷ zs)
    → Distinct ys
      × Distinct zs
      × (has a zs ≡ false)
      × ((p : Ptr) → has p ys ≡ true → has p ((a, v) ∷ zs) ≡ false)
Distinct-split [] a v zs d = (tt, d.1, d.0, λ p i. cc)
Distinct-split ((b, w) ∷ ys) a v zs (o, d) =
    let (dy, dz, az, apart) = Distinct-split ys a v zs d in
    (
      (ground (arith, has-append b ys ((a, v) ∷ zs)), dy),
      dz,
      az,
      λ p i. ground (arith, has-append b ys ((a, v) ∷ zs), apart p, ==_iff p b),
    )

pub Distinct-without :
    (ys : Cells) (a v : Ptr) (zs : Cells) → Distinct (ys ++ (a, v) ∷ zs) → Distinct (ys ++ zs)
Distinct-without [] a v zs d = d.1
Distinct-without ((b, w) ∷ ys) a v zs (o, d) = (
  ground (arith, has-append b ys ((a, v) ∷ zs), has-append b ys zs),
  Distinct-without ys a v zs d,
)

-- The last node of a stretch, if there is one, stands in it; so does the first.
pub last_or-mem : (xs : Cells) → last_or null xs ≢ null → has (last_or null xs) xs ≡ true
last_or-mem [] ne = absurd (ne refl)
last_or-mem ((a, v) ∷ []) ne = ground arith
last_or-mem ((a, v) ∷ (b, w) ∷ xs) ne = ground (arith, last_or-mem ((b, w) ∷ xs))

pub first_or-mem : (xs : Cells) → first_or null xs ≢ null → has (first_or null xs) xs ≡ true
first_or-mem [] ne = absurd (ne refl)
first_or-mem ((a, v) ∷ xs) ne = ground arith

-- A live node at a neighbour's address, where there is a neighbour.
pub last_or-live :
    (h : Store) (end : Ptr) (xs : Cells)
    → Seg h null end xs
    → last_or null xs ≢ null
    → (n : Node) × (h (last_or null xs) ≡ some n)
last_or-live h end [] s ne = absurd (ne refl)
last_or-live h end (x ∷ xs) s ne = let (_, i, n, e) = last_or-cell h null end x xs s in (n, e)

pub first_or-live :
    (h : Store) (start : Ptr) (xs : Cells)
    → Seg h start null xs
    → first_or null xs ≢ null
    → (n : Node) × (h (first_or null xs) ≡ some n)
first_or-live h start [] s ne = absurd (ne refl)
first_or-live h start ((b, w) ∷ xs) s ne = (_, s.1)

-- The two writes, as the code makes them.
pub prev_step :
    (h : Store) (p q : Ptr)
    → (p ≢ null → (n : Node) × (h p ≡ some n))
    → (if p == null then pure tt else set_next p q) h ≡ some (tt, unhook_prev h p q)
unfolding unhook_prev
prev_step h p q live = elim (Bool-cases (p == null)) [
  | inl e ↦ rw e
  | inr e ↦
      let ne : p ≢ null = ground arith in let (n, f) = live ne in rw e (set_next-ok h p q n ne f)
]

pub next_step :
    (h : Store) (p q : Ptr)
    → (q ≢ null → (n : Node) × (h q ≡ some n))
    → (if q == null then pure tt else set_prev q p) h ≡ some (tt, unhook_next h p q)
unfolding unhook_next
next_step h p q live = elim (Bool-cases (q == null)) [
  | inl e ↦ rw e
  | inr e ↦
      let ne : q ≢ null = ground arith in let (n, f) = live ne in rw e (set_prev-ok h q p n ne f)
]
