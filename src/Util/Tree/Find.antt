-- ===== src/Util/Tree/Find.antt =====
-- Searching a tree for a value, and for the parent of a node.
use os.Prelude.{ℕ, zero, suc, ◌*◌, ◌≤◌, ◌≡◌, ◌≢◌, refl, ap, ◌∙◌, Bool, some, if◌then◌else◌, arith}
use os.Util.Linked.{Ptr, null, Node, node, Linked}
use os.Util.Tree.{tree_node, Forest, tree_node_find, find_below}
use os.Util.Tree.Shape.{
  Tree, tree, Trees, childless, child, root, value_of, first, size, sizes, size-below, Holds,
  HoldsAll,
}

module _ {S : Type 0} (f : Forest) (comparator : Ptr → S → Bool) (search : S) where
  find-call :
      (k : ℕ) (a v p : Ptr) (l : Linked)
      → a ≢ null
      → f.trees a ≡ some (tree_node v (some l) p)
      → find_below k f comparator search l.head ≡ some null
      → tree_node_find (suc k) f comparator search a
        ≡ some (if comparator v search then a else null)
  unfolding tree_node_find
  find-call k a v p l an at e = ground (arith, an, at, e)

  find-round :
      (k : ℕ) (n : Ptr) (m : Node) (found : Ptr)
      → n ≢ null
      → f.cells n ≡ some m
      → tree_node_find k f comparator search m.payload ≡ some found
      → find_below k f comparator search m.next ≡ some null
      → find_below (suc k) f comparator search n ≡ some null
  unfolding tree_node_find
  find-round k n m found nn at e r = ground (arith, nn, at, e, r)

  find-end : (k : ℕ) → find_below (suc k) f comparator search null ≡ some null
  unfolding tree_node_find
  find-end k = refl

  mutual
    unfolding size Holds

    found_at :
        (t : Tree) (k : ℕ)
        → Holds f t
        → 2 * size t ≤ k
        → tree_node_find k f comparator search (root t)
          ≡ some (if comparator (value_of t) search then root t else null)
    found_at (tree a v ts) zero h e = absurd (omega (arith, e))
    found_at (tree a v ts) (suc k) (an, (l, p, at, lh, ll), hs) e =
        find-call k a v p l an at
          (ap (λ x. find_below k f comparator search x) lh ∙ found_from ts k hs (omega (arith, e)))

    found_from :
        (ts : Trees) (k : ℕ)
        → HoldsAll f ts
        → suc (2 * sizes ts) ≤ k
        → find_below k f comparator search (first ts) ≡ some null
    found_from childless zero h e = absurd (omega (arith, e))
    found_from childless (suc k) h e = find-end k
    found_from (child n t ts) zero h e = absurd (omega (arith, e))
    found_from (child n t ts) (suc k) (nn, (p, at), ht, hs) e =
        find-round k n (node (first ts) p (root t)) _ nn at (found_at t k ht (omega (arith, e)))
          (found_from ts k hs (omega (arith, e, size-below t)))

-- Of a tree in memory, `tree_node_find` returns the root where the root's value fits, and otherwise
-- NULL, whatever the other nodes hold. Fuel for twice the nodes is enough.
pub tree_node_find-root :
    {S : Type 0} (f : Forest) (comparator : Ptr → S → Bool) (search : S) (t : Tree) (k : ℕ)
    → Holds f t
    → 2 * size t ≤ k
    → tree_node_find k f comparator search (root t)
      ≡ some (if comparator (value_of t) search then root t else null)
tree_node_find-root f comparator search t k h e = found_at f comparator search t k h e
