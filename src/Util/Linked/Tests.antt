-- ===== src/Util/Linked/Tests.antt =====
-- Runs of the linked list.
use os.Prelude.{
  ◌≢◌, ◌⊎◌, ℕ, ◌+◌, ◌*◌, ◌≡◌, refl, Bool, true, false, [], ◌∷◌, ◌++◌, none, some, if◌then◌else◌,
  ◌==◌, arith,
}
use os.Util.Linked.{
  null, node, Store, Linked, list, list_append, list_insert, list_delete, list_pop, list_dequeue,
  list_find, list_find_comp, list_merge, copy_rounds, list_create, write, load, store, set_next,
  set_prev,
}
use os.Util.Linked.Seg.{Cells, IsList}
use os.Util.Linked.Append.{list_append-Appends, list_insert-IsList}
use os.Util.Linked.Delete.{list_delete-IsList, list_dequeue-list_pop}
use os.Util.Linked.Walk.{first_hit, list_find-first_hit, Removes, list_remove-Removes}
use os.Util.Linked.Merge.{Disjoint, Joined, list_merge-Joins}

-- the nodes 8, 16 and 24 of one list, 40 of another, and 48 of none, with a stale `prev`
abbrev sample : Store
sample p =
    if p == 8
    then some (node 16 0 100)
    else if p == 16
    then some (node 24 8 200)
    else if p == 24
    then some (node 0 16 300)
    else if p == 40
    then some (node 0 0 400)
    else if p == 48
    then some (node 8 16 500)
    else none

abbrev three : Linked
three = list 8 24 3

abbrev cells : Cells
cells = (8, 100) ∷ (16, 200) ∷ (24, 300) ∷ []

abbrev one : Linked
one = list 40 40 1

abbrev cell : Cells
cell = (40, 400) ∷ []

three-IsList : IsList sample three cells
three-IsList = record {
  seg = ground arith;
  distinct = (refl, (refl, (refl, tt)));
  head = refl;
  tail = refl;
  count = refl;
  small = omega arith;
}

one-IsList : IsList sample one cell
one-IsList = record {
  seg = ground arith;
  distinct = (refl, tt);
  head = refl;
  tail = refl;
  count = refl;
  small = omega arith;
}

apart : Disjoint cells cell
apart p i = ground arith

-- Three rounds over a list of one node make three copies of it.
copy_does_not_advance :
    elim (copy_rounds 3 (λ k. 64 + 8 * k) list_create 40 sample) as (λ x. Bool × ℕ) [
      | none ↦ (true, 0)
      | some ((ended, out), h) ↦ (ended, out.length)
    ]
    ≡ (false, 3)
unfolding copy_rounds list_insert list_append load store set_next set_prev write
copy_does_not_advance = refl

abbrev no_cells : Cells
no_cells = []

empty-IsList : IsList sample (list 0 0 0) no_cells
empty-IsList = record {
  seg = tt;
  distinct = tt;
  head = refl;
  tail = refl;
  count = refl;
  small = omega arith;
}

list_append-Appends_example :
    (l' : Linked) × (h' : Store) × (list_append (list 0 0 0) 48 sample ≡ some (l', h'))
    × ((((no_cells ≢ []) ⊎ (16 ≡ null)) × IsList h' l' ((48, 500) ∷ []))
        ⊎ ((no_cells ≡ []) × (16 ≢ null) × ((ys : Cells) → ¬ IsList h' l' ys)))
list_append-Appends_example =
    list_append-Appends sample (list 0 0 0) [] 48 (node 8 16 500) empty-IsList (omega arith) refl
      refl (omega arith)

list_insert-IsList_example :
    (l' : Linked) × (h' : Store) × (list_insert 64 three 7 sample ≡ some ((true, l'), h'))
    × IsList h' l' (cells ++ (64, 7) ∷ [])
list_insert-IsList_example =
    list_insert-IsList sample three cells 64 7 three-IsList (omega arith) refl (omega arith)

list_delete-IsList_example :
    (l' : Linked) × (h' : Store) × (list_delete three 16 sample ≡ some (l', h'))
    × IsList h' l' ((8, 100) ∷ (24, 300) ∷ [])
list_delete-IsList_example =
    list_delete-IsList sample three ((8, 100) ∷ []) 16 200 ((24, 300) ∷ []) three-IsList

list_dequeue-list_pop_example :
    ((l' : Linked) × (h' : Store) × (list_dequeue three sample ≡ some ((8, l'), h'))
      × IsList h' l' ((16, 200) ∷ (24, 300) ∷ []))
    × ((l' : Linked) × (h' : Store) × (list_pop three sample ≡ some ((24, l'), h'))
        × IsList h' l' ((8, 100) ∷ (16, 200) ∷ []))
list_dequeue-list_pop_example =
    list_dequeue-list_pop sample three cells 8 100 ((16, 200) ∷ (24, 300) ∷ [])
      ((8, 100) ∷ (16, 200) ∷ []) 24 300 three-IsList refl refl

list_find-first_hit_example :
    (list_find three 200 sample ≡ some (16, sample))
    × (list_find_comp three 200 (λ v w. w == v + 100) sample ≡ some (8, sample))
unfolding first_hit
list_find-first_hit_example =
    list_find-first_hit sample three cells 200 (λ v w. w == v + 100) three-IsList

list_remove-Removes_example : Removes sample three cells 1
list_remove-Removes_example = list_remove-Removes sample three cells 1 three-IsList

list_merge-Joins_example :
    (l' : Linked) × (h' : Store) × (list_merge three one sample ≡ some (l', h'))
    × Joined h' l' (cells ++ cell)
    × ((cells ≡ []) ⊎ ((cell ≡ []) ⊎ ¬ IsList h' l' (cells ++ cell)))
list_merge-Joins_example =
    list_merge-Joins sample three one cells cell three-IsList one-IsList apart (omega arith)
