-- ===== src/Util/Tree/Parent.antt =====
-- Searching a tree for the parent of a node.
use os.Prelude.{
  ℕ, zero, suc, ◌*◌, ◌≤◌, ◌≡◌, ◌≢◌, refl, ap, ◌∙◌, some, ◌==◌, arith, ◌⊎◌, inl, inr, Bool-cases,
}
use os.Util.Linked.{Ptr, null, Node, node, Linked}
use os.Util.Tree.{tree_node, Forest, tree_node_find_parent, parent_from}
use os.Util.Tree.Shape.{
  Tree, tree, Trees, childless, child, root, first, size, sizes, size-below, Holds, HoldsAll,
  ParentIn, ParentAmong,
}

module _ (f : Forest) (needle : Ptr) where
  parent-call :
      (k : ℕ) (a v p : Ptr) (l : Linked)
      → a ≢ null
      → f.trees a ≡ some (tree_node v (some l) p)
      → tree_node_find_parent (suc k) f needle a ≡ parent_from k f needle a l.head
  unfolding tree_node_find_parent
  parent-call k a v p l an at = ground (arith, an, at)

  parent-hit :
      (k : ℕ) (a n : Ptr) (m : Node)
      → n ≢ null
      → f.cells n ≡ some m
      → m.payload ≡ needle
      → parent_from (suc k) f needle a n ≡ some a
  unfolding tree_node_find_parent
  parent-hit k a n m nn at e = ground (arith, nn, at, e)

  parent-below :
      (k : ℕ) (a n : Ptr) (m : Node) (found : Ptr)
      → n ≢ null
      → f.cells n ≡ some m
      → m.payload ≢ needle
      → tree_node_find_parent k f needle m.payload ≡ some found
      → found ≢ null
      → parent_from (suc k) f needle a n ≡ some found
  unfolding tree_node_find_parent
  parent-below k a n m found nn at ne e fn = ground (arith, nn, at, ne, e, fn)

  parent-round :
      (k : ℕ) (a n : Ptr) (m : Node)
      → n ≢ null
      → f.cells n ≡ some m
      → m.payload ≢ needle
      → tree_node_find_parent k f needle m.payload ≡ some null
      → parent_from (suc k) f needle a n ≡ parent_from k f needle a m.next
  unfolding tree_node_find_parent
  parent-round k a n m nn at ne e = ground (arith, nn, at, ne, e)

  parent-end : (k : ℕ) (a : Ptr) → parent_from (suc k) f needle a null ≡ some null
  unfolding tree_node_find_parent
  parent-end k a = refl

same-or_not : (p q : Ptr) → (p ≡ q) ⊎ (p ≢ q)
same-or_not p q = elim (Bool-cases (p == q)) [
  | inl e ↦ inl (ground (arith, e))
  | inr e ↦ inr (ground (arith, e))
]

-- what a search for the parent settles
abbrev pub Settled : (Ptr → Type 0) → Ptr → Type 0
Settled P found = ((found ≢ null) × P found) ⊎ ((found ≡ null) × ((p : Ptr) → ¬ P p))

neither-child :
    (p needle a n : Ptr) (t : Tree) (ts : Trees)
    → root t ≢ needle
    → ¬ ParentIn p needle t
    → ¬ ParentAmong p needle a ts
    → ¬ ParentAmong p needle a (child n t ts)
unfolding ParentIn
neither-child p needle a n t ts ne x y (inl (e, r)) = ne r
neither-child p needle a n t ts ne x y (inr (inl i)) = x i
neither-child p needle a n t ts ne x y (inr (inr i)) = y i

module _ (f : Forest) (needle : Ptr) where
  -- a child that is not the node itself, in whose tree it has no parent
  behind-Settled :
      (k : ℕ) (a n p : Ptr) (t : Tree) (ts : Trees)
      → n ≢ null
      → f.cells n ≡ some (node (first ts) p (root t))
      → root t ≢ needle
      → tree_node_find_parent k f needle (root t) ≡ some null
      → ((p : Ptr) → ¬ ParentIn p needle t)
      → ((found : Ptr) × (parent_from k f needle a (first ts) ≡ some found)
          × Settled (λ p. ParentAmong p needle a ts) found)
      → (found : Ptr) × (parent_from (suc k) f needle a n ≡ some found)
        × Settled (λ p. ParentAmong p needle a (child n t ts)) found
  unfolding ParentIn
  behind-Settled k a n p t ts nn at ne e out (found, run, s) = (
    found,
    parent-round f needle k a n (node (first ts) p (root t)) nn at ne e ∙ run,
    elim s [
      | inl (fn, i) ↦ inl (fn, inr (inr i))
      | inr (z, none_behind) ↦
          inr (z, λ p. neither-child p needle a n t ts ne (out p) (none_behind p))
    ],
  )

  mutual
    unfolding size Holds ParentIn

    parent_at :
        (t : Tree) (k : ℕ)
        → Holds f t
        → 2 * size t ≤ k
        → (found : Ptr) × (tree_node_find_parent k f needle (root t) ≡ some found)
          × Settled (λ p. ParentIn p needle t) found
    parent_at (tree a v ts) zero h e = absurd (omega (arith, e))
    parent_at (tree a v ts) (suc k) (an, (l, p, at, lh, ll), hs) e =
        let (found, run, s) = parent_among ts k a an hs (omega (arith, e)) in
        (
          found,
          parent-call f needle k a v p l an at ∙ ap (λ x. parent_from k f needle a x) lh ∙ run,
          s,
        )

    parent_among :
        (ts : Trees) (k : ℕ) (a : Ptr)
        → a ≢ null
        → HoldsAll f ts
        → suc (2 * sizes ts) ≤ k
        → (found : Ptr) × (parent_from k f needle a (first ts) ≡ some found)
          × Settled (λ p. ParentAmong p needle a ts) found
    parent_among childless zero a an h e = absurd (omega (arith, e))
    parent_among childless (suc k) a an h e = (null, parent-end f needle k a, inr (refl, λ p i. i))
    parent_among (child n t ts) zero a an h e = absurd (omega (arith, e))
    parent_among (child n t ts) (suc k) a an (nn, (p, at), ht, hs) e =
        let (found, run, s) = parent_at t k ht (omega (arith, e)) in
        let later = parent_among ts k a an hs (omega (arith, e, size-below t)) in
        let m = node (first ts) p (root t) in
        elim (same-or_not (root t) needle) [
          | inl r ↦ (a, parent-hit f needle k a n m nn at r, inl (an, inl (refl, r)))
          | inr ne ↦ elim s [
            | inl (fn, j) ↦
                (found, parent-below f needle k a n m found nn at ne run fn, inl (fn, inr (inl j)))
            | inr (z, out) ↦ behind-Settled k a n p t ts nn at ne (run ∙ ap some z) out later
          ]
        ]

-- In a tree in memory, `tree_node_find_parent` returns a node that has `needle` for a child, or NULL
-- where no node of the tree has. Fuel for twice the nodes is enough.
pub tree_node_find_parent-Settled :
    (f : Forest) (needle : Ptr) (t : Tree) (k : ℕ)
    → Holds f t
    → 2 * size t ≤ k
    → (found : Ptr) × (tree_node_find_parent k f needle (root t) ≡ some found)
      × Settled (λ p. ParentIn p needle t) found
tree_node_find_parent-Settled f needle t k h e = parent_at f needle t k h e
