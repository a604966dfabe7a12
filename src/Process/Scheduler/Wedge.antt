-- ===== src/Process/Scheduler/Wedge.antt =====
-- A process that is woken from behind others into an empty queue keeps its `prev`.
use os.Prelude.{
  ℕ, suc, ◌≡◌, ◌≢◌, refl, sym, ◌∙◌, true, false, [], ◌∷◌, ◌++◌, some, ltb, length, arith,
}
use os.Util.Linked.{
  Ptr, null, Node, node, Store, list, succ, write, prec, load, list_delete, list_dequeue,
}
use os.Util.Linked.Seg.{Cells, last_or, has, Seg-split, last_or-cell, relink_next, set_next-ok}
use os.Util.Linked.Append.{append_empty}
use os.Util.Linked.Unhook.{Distinct-split}
use os.Util.Linked.Delete.{delete-outcome}
use os.Util.Linked.Delete.Spares.{list_delete-cell}
use os.Process.Scheduler.{
  Process, Sched, with_process, make_process_ready, next_ready_process, wake,
  wakeup_sleeping_processes,
}
use os.Process.Scheduler.Queue.{IsSched, Owned-split}
use os.Process.Scheduler.Wake.{Early, wake_from-Early, owner, awake}
use os.Process.Scheduler.Wakeup.{wake_from-due, wakeup-rounds}

-- A queue whose head is NULL and whose tail is not.
pub record IsWedged (s : Sched) : Type 0 where
  pub no_head : s.process_ready_queue.head ≡ null
  pub some_tail : s.process_ready_queue.tail ≢ null

-- the dequeuing of a node that is alone in a queue and has a stale `prev`
dequeue_stale :
    (h : Store) (a b v : Ptr) (m : Node) (k : ℕ)
    → a ≢ null
    → b ≢ null
    → a ≢ b
    → h a ≡ some (node null b v)
    → h b ≡ some m
    → list_dequeue (list a a k) h ≡ some ((a, list null b (prec k)), relink_next h b null)
unfolding list_dequeue list_delete load
dequeue_stale h a b v m k an bn ab ca cb = ground (arith, ca, set_next-ok h b null m bn cb)

not-first : (p a v : Ptr) (zs : Cells) → has p ((a, v) ∷ zs) ≡ false → p ≢ a
not-first p a v zs o e = ground (arith, o, e)

module _ (s : Sched) (y : Ptr × Ptr) (ys : Cells) (a v : Ptr) (zs : Cells) (q : Process)
    (valid : IsSched s [] ((y ∷ ys) ++ (a, v) ∷ zs)) (at : s.processes v ≡ some q) where
  abbrev before : Ptr
  before = last_or null (y ∷ ys)

  -- the store behind the deletion
  deleted : Store
  deleted = (delete-outcome s.nodes s.process_sleeping_list (y ∷ ys) a v zs valid.asleep).1

  -- the process in front, whose node is still linked
  before_cell : (before ≢ null) × (before ≢ a) × ((m : Node) × (deleted before ≡ some m))
  unfolding deleted
  before_cell =
      let is = (delete-outcome s.nodes s.process_sleeping_list (y ∷ ys) a v zs valid.asleep).3 in
      let (g, _) = Seg-split deleted null null (y ∷ ys) zs is.seg in
      let (ne, i, m, e) = last_or-cell deleted null _ y ys g in
      let (dy, dz, az, apart) = Distinct-split (y ∷ ys) a v zs valid.asleep.distinct in
      let out = apart before i in (ne, not-first before a v zs out, (m, e))

  -- the state behind `wake`
  wedging : Sched
  unfolding deleted with_process
  wedging = record (with_process s v (awake s [] (y ∷ ys) a v zs q valid at)) {
    nodes = relink_next deleted a null;
    process_sleeping_list =
        (delete-outcome s.nodes s.process_sleeping_list (y ∷ ys) a v zs valid.asleep).0;
    process_ready_queue = list a a (succ s.process_ready_queue.length);
  }

  wake-wedging : wake a v q s ≡ some (tt, wedging)
  unfolding wake make_process_ready wedging deleted with_process
  wake-wedging =
      let (l, h, e, is) =
        delete-outcome s.nodes s.process_sleeping_list (y ∷ ys) a v zs valid.asleep in
      let cell = list_delete-cell s.nodes s.process_sleeping_list (y ∷ ys) a v zs valid.asleep in
      let (vn, own) = owner s [] (y ∷ ys) a v zs q valid at in
      let an = (Seg-split s.nodes null null (y ∷ ys) ((a, v) ∷ zs) valid.asleep.seg).1.0 in
      let tail : s.process_ready_queue.tail ≡ null = valid.ready.tail in
      ground (arith, e, own, vn, append_empty h s.process_ready_queue a _ an cell tail)

  woken_cell : wedging.nodes a ≡ some (node null before v)
  unfolding wedging deleted relink_next write
  woken_cell =
      let cell = list_delete-cell s.nodes s.process_sleeping_list (y ∷ ys) a v zs valid.asleep in
      ground (arith, cell)

  kept_cell : wedging.nodes before ≡ deleted before
  unfolding wedging relink_next write
  kept_cell = let (_, ne, _) = before_cell in ground (arith, ne)

  -- the state behind the next dispatch
  wedged : Sched
  wedged = record wedging {
    nodes = relink_next wedging.nodes before null;
    process_ready_queue = list null before (prec (succ s.process_ready_queue.length));
  }

  dispatch-wedged : next_ready_process wedging ≡ some (v, wedged)
  unfolding next_ready_process wedging wedged relink_next write load
  dispatch-wedged =
      let (bn, ba, (m, e)) = before_cell in
      let an = (Seg-split s.nodes null null (y ∷ ys) ((a, v) ∷ zs) valid.asleep.seg).1.0 in
      let d =
        dequeue_stale wedging.nodes a before v m (succ s.process_ready_queue.length) an bn
          (λ q. ba (sym q)) woken_cell (kept_cell ∙ e) in
      ground (arith, d, woken_cell, an, ba)

  -- the node in front, which the list of sleeping processes is cut behind
  wedged_cut : (m : Node) × (wedged.nodes before ≡ some m) × (m.next ≡ null)
  unfolding wedged relink_next write
  wedged_cut =
      let (bn, ba, (m, e)) = before_cell in
      (record m { next = null }, ground (arith, kept_cell, e), refl)

-- On well-formed lists with an empty ready queue, where the first process whose time has come sleeps
-- behind another: it is woken and dispatched, but then the queue has no head and yet a tail, and the
-- list of sleeping processes is cut behind the one in front of it.
pub wakeup-IsWedged :
    (s : Sched) (y : Ptr × Ptr) (ys : Cells) (a v : Ptr) (zs : Cells) (q : Process)
    → IsSched s [] ((y ∷ ys) ++ (a, v) ∷ zs)
    → Early s (y ∷ ys)
    → s.processes v ≡ some q
    → ltb q.sleep_ticks s.tick_count ≡ true
    → (s1 : Sched) × (s2 : Sched) × (wakeup_sleeping_processes s ≡ some (tt, s1))
      × (next_ready_process s1 ≡ some (v, s2))
      × IsWedged s2
      × ((m : Node) × (s2.nodes (last_or null (y ∷ ys)) ≡ some m) × (m.next ≡ null))
wakeup-IsWedged s y ys a v zs q valid early at due =
    let (g, (an, cell, _)) = Seg-split s.nodes null null (y ∷ ys) ((a, v) ∷ zs) valid.asleep.seg in
    let (vn, _) = owner s [] (y ∷ ys) a v zs q valid at in
    let (o, _) = Owned-split s.processes (y ∷ ys) ((a, v) ∷ zs) valid.asleep_owned in
    (
      wedging s y ys a v zs q valid at,
      wedged s y ys a v zs q valid at,
      wakeup-rounds s (y ∷ ys) ((a, v) ∷ zs) valid.asleep
          ∙ wake_from-Early s null a (y ∷ ys) (suc (suc (length zs))) g o early
          ∙ wake_from-due (length zs) s _ a v _ _ q an vn cell at due
              (wake-wedging s y ys a v zs q valid at) _ (woken_cell s y ys a v zs q valid at),
      dispatch-wedged s y ys a v zs q valid at,
      unfold wedged in
          record { no_head = refl; some_tail = (before_cell s y ys a v zs q valid at).0 },
      wedged_cut s y ys a v zs q valid at,
    )
