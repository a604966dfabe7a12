-- ===== src/Util/Linked/Delete/Spares.antt =====
-- What taking a node out of a list leaves of the other nodes.
use os.Prelude.{◌≡◌, ◌≢◌, refl, false, [], ◌∷◌, ◌++◌, some, arith}
use os.Util.Linked.{Ptr, null, node, Store, Linked}
use os.Util.Linked.Seg.{Cells, first_or, last_or, has, Seg, IsList, has-ne}
use os.Util.Linked.Unhook.{
  unhook_prev-spares, unhook_next-spares, Distinct-split, last_or-mem, first_or-mem,
}
use os.Util.Linked.Delete.{delete-outcome, list_dequeue-IsList, before, behind, parts}

-- `list_delete` spares a stretch that no node of the list is in, and the deleted node itself.
pub list_delete-spares :
    (h : Store) (l : Linked) (ys : Cells) (a v : Ptr) (zs : Cells)
    (is : IsList h l (ys ++ (a, v) ∷ zs)) (start end : Ptr) (ws : Cells)
    → (last_or null ys ≢ null → has (last_or null ys) ws ≡ false)
    → (first_or null zs ≢ null → has (first_or null zs) ws ≡ false)
    → Seg h start end ws
    → Seg (delete-outcome h l ys a v zs is).1 start end ws
unfolding delete-outcome
list_delete-spares h l ys a v zs is start end ws o t s =
    unhook_next-spares _ (before h l ys a v zs is) (behind h l ys a v zs is) start end ws t
      (unhook_prev-spares h (before h l ys a v zs is) (behind h l ys a v zs is) start end ws o s)

-- The node that was deleted keeps its links.
pub list_delete-cell :
    (h : Store) (l : Linked) (ys : Cells) (a v : Ptr) (zs : Cells)
    (is : IsList h l (ys ++ (a, v) ∷ zs))
    → (delete-outcome h l ys a v zs is).1 a ≡ some (node (first_or null zs) (last_or null ys) v)
list_delete-cell h l ys a v zs is =
    let (s, ne, e, t) = parts h l ys a v zs is in
    let (dy, dz, az, apart) = Distinct-split ys a v zs is.distinct in
    (list_delete-spares h l ys a v zs is (last_or null ys) (first_or null zs) ((a, v) ∷ [])
      (λ q. ground (arith, apart (last_or null ys) (last_or-mem ys q)))
      (λ q. ground (arith, has-ne (first_or null zs) a zs (first_or-mem zs q) az)) (ne, e, tt)).1

-- `list_dequeue` spares what no node behind the first one is in, and the first one.
pub list_dequeue-spares :
    (h : Store) (l : Linked) (a v : Ptr) (xs : Cells) (is : IsList h l ((a, v) ∷ xs))
    (start end : Ptr) (ws : Cells)
    → (first_or null xs ≢ null → has (first_or null xs) ws ≡ false)
    → Seg h start end ws
    → Seg (list_dequeue-IsList h l a v xs is).1 start end ws
unfolding list_dequeue-IsList
list_dequeue-spares h l a v xs is start end ws t s =
    list_delete-spares h l [] a v xs is start end ws (λ q. absurd (q refl)) t s

pub list_dequeue-cell :
    (h : Store) (l : Linked) (a v : Ptr) (xs : Cells) (is : IsList h l ((a, v) ∷ xs))
    → (list_dequeue-IsList h l a v xs is).1 a ≡ some (node (first_or null xs) null v)
unfolding list_dequeue-IsList
list_dequeue-cell h l a v xs is = list_delete-cell h l [] a v xs is
