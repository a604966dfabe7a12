-- ===== src/Util/Tree.antt =====
-- The trees of kernel/src/util/tree.c. A node keeps its children on the linked list of
-- kernel/src/util/list.c, whose nodes are in `cells`; the payload of such a node is the address of a
-- child. `none` is an access through NULL.
pub mod Shape
pub mod Count
pub mod Find
pub mod Parent
mod Tests
use os.Prelude.{ℕ, zero, suc, ◌+◌, ◌%◌, ◌^◌, Bool, Option, none, some, if◌then◌else◌, ◌==◌}
use os.Util.Linked.{Ptr, null, Node, Store, Linked}

pub record TreeNode : Type 0 where
  pub value : Ptr
  pub children : Option Linked
  pub parent : Ptr

abbrev pub tree_node : Ptr → Option Linked → Ptr → TreeNode
tree_node v cs p = record { value = v; children = cs; parent = p }

infixl 5 ◌>>=◌
abbrev pub ◌>>=◌ : {A B : Type 0} → Option A → (A → Option B) → Option B
◌>>=◌ m k = elim m [ none ↦ none | some a ↦ k a ]

-- the nodes of the lists, and those of the trees
pub record Forest : Type 0 where
  pub cells : Store
  pub trees : Ptr → Option TreeNode

abbrev pub cell_at : Forest → Ptr → Option Node
cell_at f p = if p == null then none else f.cells p

abbrev pub node_at : Forest → Ptr → Option TreeNode
node_at f p = if p == null then none else f.trees p

-- `node->children->head`
abbrev pub first_child : TreeNode → Option Ptr
first_child t = elim t.children [ none ↦ none | some l ↦ some l.head ]

-- The fuel of the recursive functions counts the calls and the rounds on top of one another.
unfoldable mutual
  pub tree_count_children : ℕ → Forest → Ptr → Option ℕ
  tree_count_children zero f node = none
  tree_count_children (suc k) f node = if node == null then some 0 else do
    t ← node_at f node
    elim t.children [ none ↦ some 0 | some l ↦ count_from k f l.head l.length ]

  -- the loop from `lnode` on, with the sum so far
  pub count_from : ℕ → Forest → Ptr → ℕ → Option ℕ
  count_from zero f lnode out = none
  count_from (suc k) f lnode out = if lnode == null then some out else do
    n ← cell_at f lnode
    c ← tree_count_children k f n.payload
    count_from k f n.next ((out + c) % 2 ^ 64)

unfoldable mutual
  pub tree_node_find : {S : Type 0} → ℕ → Forest → (Ptr → S → Bool) → S → Ptr → Option Ptr
  tree_node_find zero f comparator search node = none
  tree_node_find (suc k) f comparator search node = do
    t ← node_at f node
    if comparator t.value search
        then some node
        else (do lnode ← first_child t; find_below k f comparator search lnode)

  pub find_below : {S : Type 0} → ℕ → Forest → (Ptr → S → Bool) → S → Ptr → Option Ptr
  find_below zero f comparator search lnode = none
  find_below (suc k) f comparator search lnode = if lnode == null then some null else do
    n ← cell_at f lnode
    found ← tree_node_find k f comparator search n.payload
    if found == null then some found else find_below k f comparator search n.next

unfoldable mutual
  pub tree_node_find_parent : ℕ → Forest → Ptr → Ptr → Option Ptr
  tree_node_find_parent zero f needle haystack = none
  tree_node_find_parent (suc k) f needle haystack = do
    t ← node_at f haystack
    lnode ← first_child t
    parent_from k f needle haystack lnode

  pub parent_from : ℕ → Forest → Ptr → Ptr → Ptr → Option Ptr
  parent_from zero f needle haystack lnode = none
  parent_from (suc k) f needle haystack lnode = if lnode == null then some null else do
    n ← cell_at f lnode
    if n.payload == needle then some haystack else (do
      found ← tree_node_find_parent k f needle n.payload
      if found == null then parent_from k f needle haystack n.next else some found)

pub record TreeHead : Type 0 where
  pub nodes : ℕ
  pub root : Ptr

unfoldable pub tree_find : {S : Type 0} → ℕ → Forest → TreeHead → S → (Ptr → S → Bool) → Option Ptr
unfolding tree_node_find
tree_find k f tree value comparator = tree_node_find k f comparator value tree.root
