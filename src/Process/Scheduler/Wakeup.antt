-- ===== src/Process/Scheduler/Wakeup.antt =====
-- `wakeup_sleeping_processes` as a whole.
use mathlib.Core.List.{append-nil}
use os.Prelude.{
  ℕ, suc, ◌≡◌, ◌≢◌, refl, sym, ap₂, subst, ◌∙◌, true, false, [], ◌∷◌, ◌++◌, some, ltb, length,
  length-append, arith, ◌⊎◌,
}
use os.Util.Linked.{Ptr, null, node, Store, load}
use os.Util.Linked.Seg.{Cells, first_or, last_or, Seg, IsList, Seg-split, first_or-append}
use os.Process.Scheduler.{Process, Sched, with_process, wake, wake_from, wakeup_sleeping_processes}
use os.Process.Scheduler.Queue.{Leaves, Owned, IsSched, Owned-split, Same}
use os.Process.Scheduler.Wake.{Early, rounds, rounds-length, wake_from-Early, wake-IsSched, owner}

-- The last node of a list has no `next`.
last-next :
    (h : Store) (xs : Cells) (a v : Ptr)
    → Seg h null null (xs ++ (a, v) ∷ [])
    → h a ≡ some (node null (last_or null xs) v)
last-next h xs a v s = (Seg-split h null null xs ((a, v) ∷ []) s).1.1

-- the loop at a process whose time has come: it is woken, and the loop ends behind it
pub wake_from-due :
    (k : ℕ) (s s' : Sched) (a v b c : Ptr) (q : Process)
    → a ≢ null
    → v ≢ null
    → s.nodes a ≡ some (node b c v)
    → s.processes v ≡ some q
    → ltb q.sleep_ticks s.tick_count ≡ true
    → wake a v q s ≡ some (tt, s')
    → (p : Ptr) → s'.nodes a ≡ some (node null p v)
    → wake_from (suc (suc k)) a s ≡ some (tt, s')
unfolding wake_from load
wake_from-due k s s' a v b c q an vn cell at due w p cell' = ground (arith, cell, at, due, w, cell')

-- the loop from the head of the list on
pub wakeup-rounds :
    (s : Sched) (ys zs : Cells)
    → IsList s.nodes s.process_sleeping_list (ys ++ zs)
    → wakeup_sleeping_processes s
      ≡ wake_from (rounds ys (suc (length zs))) (first_or (first_or null zs) ys) s
unfolding wakeup_sleeping_processes
wakeup-rounds s ys zs is =
    let n : suc s.process_sleeping_list.length ≡ rounds ys (suc (length zs)) =
      omega (arith, is.count, length-append ys zs, rounds-length ys (suc (length zs))) in
    ap₂ (λ k p. wake_from k p s) n (is.head ∙ first_or-append null ys zs)

-- Where the time of no sleeping process has come, nothing changes.
pub wakeup-Early :
    (s : Sched) (ss : Cells)
    → IsList s.nodes s.process_sleeping_list ss
    → Owned s.processes ss
    → Early s ss
    → wakeup_sleeping_processes s ≡ some (tt, s)
wakeup-Early s ss is o e =
    wakeup-rounds s ss []
      (subst (λ l. IsList s.nodes s.process_sleeping_list l) (sym (append-nil ss)) is)
    ∙ wake_from-Early s null null ss 1 is.seg o e
    ∙ (unfold wake_from in refl)

-- The first process whose time has come is woken.
pub wakeup-woken :
    (s : Sched) (rs ys : Cells) (a v : Ptr) (zs : Cells) (q : Process)
    → IsSched s rs (ys ++ (a, v) ∷ zs)
    → Early s ys
    → s.processes v ≡ some q
    → ltb q.sleep_ticks s.tick_count ≡ true
    → (ys ≡ []) ⊎ (rs ≢ [])
    → (s' : Sched) × (wakeup_sleeping_processes s ≡ some (tt, s'))
      × IsSched s' (rs ++ (a, v) ∷ []) (ys ++ zs)
      × (s'.processes ≡ (with_process s v (record q { sleeping = false })).processes)
      × Same s s'
      × Leaves s s' (rs ++ (ys ++ (a, v) ∷ zs))
wakeup-woken s rs ys a v zs q valid early at due cond =
    let (s', w, valid', procs, same, leaves) = wake-IsSched s rs ys a v zs q valid at cond in
    let (g, (an, cell, _)) = Seg-split s.nodes null null ys ((a, v) ∷ zs) valid.asleep.seg in
    let (vn, _) = owner s rs ys a v zs q valid at in
    let (o, _) = Owned-split s.processes ys ((a, v) ∷ zs) valid.asleep_owned in
    (
      s',
      wakeup-rounds s ys ((a, v) ∷ zs) valid.asleep
          ∙ wake_from-Early s null a ys (suc (suc (length zs))) g o early
          ∙ wake_from-due (length zs) s s' a v _ _ q an vn cell at due w _
              (last-next s'.nodes rs a v valid'.ready.seg),
      valid',
      procs,
      same,
      leaves,
    )

-- On well-formed lists, where a process sleeps whose time has come, and no process before it is such
-- a one: if it is the first that sleeps, or a process is ready, the loop ends, and just that one is
-- moved to the end of the ready queue. The processes that sleep behind it stay, also those whose
-- time has come.
pub wakeup-first_due :
    (s : Sched) (rs ys : Cells) (a v : Ptr) (zs : Cells) (q : Process)
    → IsSched s rs (ys ++ (a, v) ∷ zs)
    → Early s ys
    → s.processes v ≡ some q
    → ltb q.sleep_ticks s.tick_count ≡ true
    → (ys ≡ []) ⊎ (rs ≢ [])
    → (s' : Sched) × (wakeup_sleeping_processes s ≡ some (tt, s'))
      × IsSched s' (rs ++ (a, v) ∷ []) (ys ++ zs)
      × (s'.processes ≡ (with_process s v (record q { sleeping = false })).processes)
      × Same s s'
wakeup-first_due s rs ys a v zs q valid early at due cond =
    let (s', w, valid', procs, same, leaves) =
      wakeup-woken s rs ys a v zs q valid early at due cond in
    (s', w, valid', procs, same)
