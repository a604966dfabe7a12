-- ===== src/Util/Tree/Count.antt =====
-- Counting the nodes below a node.
use os.Prelude.{ℕ, zero, suc, ◌+◌, ◌*◌, ◌%◌, ◌^◌, ◌≤◌, ◌<◌, ◌≡◌, ◌≢◌, refl, ap, ◌∙◌, some, arith}
use os.Util.Linked.{Ptr, null, Node, node, Linked}
use os.Util.Tree.{tree_node, Forest, tree_count_children, count_from}
use os.Util.Tree.Shape.{
  Tree, tree, Trees, childless, child, root, below, first, how_many, size, sizes, size-below, Holds,
  HoldsAll,
}

-- the nodes below the children
abbrev deeper : Trees → ℕ
deeper childless = 0
deeper (child n t ts) = sizes (below t) + deeper ts

deeper-sizes : (ts : Trees) → how_many ts + deeper ts ≡ sizes ts
unfolding size
deeper-sizes childless = refl
deeper-sizes (child n t ts) = omega (arith, deeper-sizes ts, size-below t)

-- a call, and a round of the loop
count-call :
    (f : Forest) (k : ℕ) (a v p : Ptr) (l : Linked)
    → a ≢ null
    → f.trees a ≡ some (tree_node v (some l) p)
    → tree_count_children (suc k) f a ≡ count_from k f l.head l.length
unfolding tree_count_children
count-call f k a v p l an at = ground (arith, an, at)

count-round :
    (f : Forest) (k : ℕ) (n : Ptr) (m : Node) (c out : ℕ)
    → n ≢ null
    → f.cells n ≡ some m
    → tree_count_children k f m.payload ≡ some c
    → out + c < 2 ^ 64
    → count_from (suc k) f n out ≡ count_from k f m.next (out + c)
unfolding tree_count_children
count-round f k n m c out nn at e r =
    let small : (out + c) % 2 ^ 64 ≡ out + c = omega (arith, r) in ground (arith, nn, at, e, small)

count-end : (f : Forest) (k out : ℕ) → count_from (suc k) f null out ≡ some out
unfolding tree_count_children
count-end f k out = refl

mutual
  unfolding size Holds

  counted :
      (t : Tree) (f : Forest) (k : ℕ)
      → Holds f t
      → 2 * size t ≤ k
      → sizes (below t) < 2 ^ 64
      → tree_count_children k f (root t) ≡ some (sizes (below t))
  counted (tree a v ts) f zero h e r = absurd (omega (arith, e))
  counted (tree a v ts) f (suc k) (an, (l, p, at, lh, ll), hs) e r =
      let all = deeper-sizes ts in
      count-call f k a v p l an at
      ∙ ap (λ x. count_from k f x l.length) lh
      ∙ ap (λ x. count_from k f (first ts) x) ll
      ∙ counted_from ts f k (how_many ts) hs (omega (arith, e)) (omega (arith, r, all))
      ∙ ap some all

  counted_from :
      (ts : Trees) (f : Forest) (k out : ℕ)
      → HoldsAll f ts
      → suc (2 * sizes ts) ≤ k
      → out + deeper ts < 2 ^ 64
      → count_from k f (first ts) out ≡ some (out + deeper ts)
  counted_from childless f zero out h e r = absurd (omega (arith, e))
  counted_from childless f (suc k) out h e r = count-end f k out ∙ ap some (omega arith)
  counted_from (child n t ts) f zero out h e r = absurd (omega (arith, e))
  counted_from (child n t ts) f (suc k) out (nn, (p, at), ht, hs) e r =
      let s = size-below t in
      count-round f k n (node (first ts) p (root t)) (sizes (below t)) out nn at
        (counted t f k ht (omega (arith, e, s)) (omega (arith, r))) (omega (arith, r))
      ∙ counted_from ts f k (out + sizes (below t)) hs (omega (arith, e, s)) (omega (arith, r))
      ∙ ap some (omega arith)

-- Of a tree in memory with at most 2 ^ 64 nodes, `tree_count_children` of the root returns the
-- number of the nodes below it. Fuel for twice the nodes is enough.
pub tree_count_children-size :
    (f : Forest) (t : Tree) (k : ℕ)
    → Holds f t
    → 2 * size t ≤ k
    → size t ≤ 2 ^ 64
    → (n : ℕ) × (tree_count_children k f (root t) ≡ some n) × (suc n ≡ size t)
tree_count_children-size f t k h e r = (
  sizes (below t),
  counted t f k h e (omega (arith, r, size-below t)),
  omega (arith, size-below t),
)
