-- ===== src/Util/Tree/Tests.antt =====
-- Runs of the searches of trees.
use os.Prelude.{ℕ, suc, ◌≡◌, refl, ◌==◌, Option, none, some, if◌then◌else◌, arith}
use os.Util.Linked.{Ptr, node, Store, list}
use os.Util.Tree.{
  tree_node, TreeNode, Forest, tree_count_children, tree_node_find, tree_node_find_parent,
}
use os.Util.Tree.Shape.{Tree, tree, childless, child, size, Holds, ParentIn}
use os.Util.Tree.Count.{tree_count_children-size}
use os.Util.Tree.Parent.{Settled, tree_node_find_parent-Settled}

-- 100 has the children 101 and 102, and 102 has the child 103; their values are 1 to 4
abbrev sample_cells : Store
sample_cells p =
    if p == 11
    then some (node 12 0 101)
    else if p == 12
    then some (node 0 11 102)
    else if p == 13
    then some (node 0 0 103)
    else none

abbrev sample_trees : Ptr → Option TreeNode
sample_trees p =
    if p == 100
    then some (tree_node 1 (some (list 11 12 2)) 0)
    else if p == 101
    then some (tree_node 2 (some (list 0 0 0)) 100)
    else if p == 102
    then some (tree_node 3 (some (list 13 13 1)) 100)
    else if p == 103
    then some (tree_node 4 (some (list 0 0 0)) 102)
    else none

abbrev sample : Forest
sample = record { cells = sample_cells; trees = sample_trees }

abbrev sample_tree : Tree
sample_tree = tree 100 1 (
    child 11 (tree 101 2 childless)
      (child 12 (tree 102 3 (child 13 (tree 103 4 childless) childless)) childless))

sample-Holds : Holds sample sample_tree
unfolding Holds
sample-Holds = (
  ground arith,
  (list 11 12 2, 0, refl, refl, refl),
  (
    ground arith,
    (0, refl),
    (ground arith, (list 0 0 0, 100, refl, refl, refl), tt),
    (
      ground arith,
      (11, refl),
      (
        ground arith,
        (list 13 13 1, 100, refl, refl, refl),
        (ground arith, (0, refl), (ground arith, (list 0 0 0, 102, refl, refl, refl), tt), tt),
      ),
      tt,
    ),
  ),
)

tree_count_children-size_example :
    (n : ℕ) × (tree_count_children 8 sample 100 ≡ some n) × (suc n ≡ 4)
unfolding size
tree_count_children-size_example =
    tree_count_children-size sample sample_tree 8 sample-Holds (omega arith) (omega arith)

-- The value of the node 102 is not found.
found_3 : tree_node_find 8 sample (λ v w. v == w) 3 100 ≡ some 0
unfolding tree_node_find
found_3 = refl

tree_node_find_parent-Settled_example :
    (found : Ptr) × (tree_node_find_parent 8 sample 103 100 ≡ some found)
    × Settled (λ p. ParentIn p 103 sample_tree) found
unfolding size
tree_node_find_parent-Settled_example =
    tree_node_find_parent-Settled sample 103 sample_tree 8 sample-Holds (omega arith)

parent_of_103 : tree_node_find_parent 8 sample 103 100 ≡ some 102
unfolding tree_node_find_parent
parent_of_103 = refl
