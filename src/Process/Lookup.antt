-- ===== src/Process/Lookup.antt =====
-- Looking a process up by its number in kernel/src/process/process.c, over the tree of
-- kernel/src/util/tree.c; the value of a node is the address of its process.
mod Tests
use os.Prelude.{
  ℕ, ◌*◌, ◌≤◌, ◌≡◌, ◌∙◌, ap, Bool, true, false, Option, none, some, if◌then◌else◌, ◌==◌, arith,
  refl, inl, inr, Bool-cases,
}
use os.Prelude.Int.{ℤ, pos, negsuc, ltb_ℤ}
use os.Util.Linked.{Ptr, null}
use os.Util.Tree.{TreeNode, tree_node, Forest, TreeHead, node_at, tree_find, tree_node_find, ◌>>=◌}
use os.Util.Tree.Shape.{Tree, tree, root, value_of, size, Holds}
use os.Util.Tree.Find.{tree_node_find-root}

-- `==` of two `int`s
unfoldable pub eqb_ℤ : ℤ → ℤ → Bool
eqb_ℤ (pos a) (pos b) = a == b
eqb_ℤ (pos a) (negsuc b) = false
eqb_ℤ (negsuc a) (pos b) = false
eqb_ℤ (negsuc a) (negsuc b) = a == b

-- the comparison of a process with a number, where `ids` holds the number of each process
unfoldable pub process_compare : (Ptr → ℤ) → Ptr → ℤ → Bool
unfolding eqb_ℤ
process_compare ids proc pid = eqb_ℤ (ids proc) pid

-- The fuel is that of the search.
unfoldable pub process_from_pid : ℕ → Forest → TreeHead → (Ptr → ℤ) → ℤ → Option Ptr
unfolding tree_find process_compare
process_from_pid k f process_tree ids pid = if ltb_ℤ pid (pos 0) then some null else do
  entry ← tree_find k f process_tree pid (process_compare ids)
  if entry == null then some null else (do t ← node_at f entry; some t.value)

-- what the search gives
found-run :
    (f : Forest) (t : Tree) (b : Bool)
    → Holds f t
    → (if (if b then root t else null) == null
        then some null
        else (node_at f (if b then root t else null) >>= λ n. some n.value))
      ≡ some (if b then value_of t else null)
unfolding Holds
found-run f (tree a v ts) true (an, (l, p, at, lh, ll), hs) = ground (arith, an, at)
found-run f (tree a v ts) false h = refl

-- In the tree of processes, `process_from_pid` ends. It returns the process at the root where that
-- has the number, which is not negative, and otherwise NULL, also where another process of the tree
-- has it. Fuel for twice the nodes is enough.
pub process_from_pid-root :
    (f : Forest) (process_tree : TreeHead) (ids : Ptr → ℤ) (pid : ℤ) (t : Tree) (k : ℕ)
    → Holds f t
    → process_tree.root ≡ root t
    → 2 * size t ≤ k
    → process_from_pid k f process_tree ids pid
      ≡ some (
          if ltb_ℤ pid (pos 0)
          then null
          else if process_compare ids (value_of t) pid
          then value_of t
          else null)
unfolding process_from_pid tree_find
process_from_pid-root f process_tree ids pid t k h at e =
    let find =
      ap (λ r. tree_node_find k f (process_compare ids) pid r) at
      ∙ tree_node_find-root f (process_compare ids) pid t k h e in
    let found = process_compare ids (value_of t) pid in
    elim (Bool-cases (ltb_ℤ pid (pos 0))) [
      | inl n ↦ rw n refl
      | inr n ↦ rw (n, find) (found-run f t found h)
    ]
