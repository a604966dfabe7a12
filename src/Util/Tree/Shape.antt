-- ===== src/Util/Tree/Shape.antt =====
-- What a tree is: its nodes, the list nodes that hold them, and how they lie in memory.
use os.Prelude.{ℕ, suc, ◌+◌, ◌≡◌, ◌≢◌, refl, ◌⊎◌, some}
use os.Util.Linked.{Ptr, null, node, Linked}
use os.Util.Tree.{tree_node, Forest}

-- a node with its address, its value and its children, each with the list node that holds it
mutual
  pub data Tree : Type 0 where
    tree : Ptr → Ptr → Trees → Tree

  pub data Trees : Type 0 where
    childless : Trees
    child : Ptr → Tree → Trees → Trees

abbrev pub root : Tree → Ptr
root (tree a v ts) = a

abbrev pub value_of : Tree → Ptr
value_of (tree a v ts) = v

abbrev pub below : Tree → Trees
below (tree a v ts) = ts

abbrev pub first : Trees → Ptr
first childless = null
first (child n t ts) = n

abbrev pub how_many : Trees → ℕ
how_many childless = 0
how_many (child n t ts) = suc (how_many ts)

-- the number of nodes
unfoldable mutual
  pub size : Tree → ℕ
  size (tree a v ts) = suc (sizes ts)

  pub sizes : Trees → ℕ
  sizes childless = 0
  sizes (child n t ts) = size t + sizes ts

pub size-below : (t : Tree) → size t ≡ suc (sizes (below t))
unfolding size
size-below (tree a v ts) = refl

-- The tree lies in memory: each node holds a list of its children, linked along `next`.
unfoldable mutual
  pub Holds : Forest → Tree → Type 0
  Holds f (tree a v ts) =
      (a ≢ null)
      × ((l : Linked) × (p : Ptr) × (f.trees a ≡ some (tree_node v (some l) p))
          × (l.head ≡ first ts)
          × (l.length ≡ how_many ts))
      × HoldsAll f ts

  pub HoldsAll : Forest → Trees → Type 0
  HoldsAll f childless = Unit
  HoldsAll f (child n t ts) =
      (n ≢ null)
      × ((p : Ptr) × (f.cells n ≡ some (node (first ts) p (root t))))
      × Holds f t
      × HoldsAll f ts

-- `p` is a node of the tree that has `needle` for a child
unfoldable mutual
  pub ParentIn : Ptr → Ptr → Tree → Type 0
  ParentIn p needle (tree a v ts) = ParentAmong p needle a ts

  pub ParentAmong : Ptr → Ptr → Ptr → Trees → Type 0
  ParentAmong p needle a childless = ⊥
  ParentAmong p needle a (child n t ts) =
      ((p ≡ a) × (root t ≡ needle)) ⊎ (ParentIn p needle t ⊎ ParentAmong p needle a ts)
