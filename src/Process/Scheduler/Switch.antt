-- ===== src/Process/Scheduler/Switch.antt =====
-- The parts of a switch: the process that runs goes to the end of the queue, and the first of the
-- queue is dispatched.
use os.Prelude.{
  ℕ, suc, ◌≡◌, ◌≢◌, refl, sym, ap, subst, ◌∙◌, true, false, [], ◌∷◌, ◌++◌, some, length-append,
  arith,
}
use os.Util.Linked.{Ptr, null, node}
use os.Util.Linked.Seg.{Cells, first_or}
use os.Process.Scheduler.{
  Process, Sched, with_process, make_process_ready, next_ready_process, switch_next, switch_from,
  process_switch_task, wakeup_sleeping_processes,
}
use os.Process.Scheduler.Queue.{
  Owned, Owned-append, Apart-append, IsSched, Same, make_process_ready-IsSched,
  next_ready_process-first,
}
use os.Process.Scheduler.Wake.{Owned-with_process}
use os.Process.Scheduler.Turn.{
  IsTurn, Each, Each-append, Each-map, Busy, Busy-moved, Busy-with_process, Woken, wakeup-Waking,
}

-- the processes of a list, behind an assignment to one of them
pub Busy-assigned :
    (s s' : Sched) (p : Ptr) (q : Process) (xs : Cells)
    → s'.kernel_idle_task ≡ s.kernel_idle_task
    → s'.processes ≡ (with_process s p q).processes
    → q.finished ≡ false
    → Each (Busy s.kernel_idle_task s.processes) xs
    → Each (Busy s'.kernel_idle_task s'.processes) xs
Busy-assigned s s' p q xs i e f =
    Each-map (Busy s.kernel_idle_task s.processes) (Busy s'.kernel_idle_task s'.processes) xs λ w b.
      Busy-moved s.kernel_idle_task s'.kernel_idle_task _ s'.processes w i e
        (Busy-with_process s s.kernel_idle_task p q w f b)

module _ (s : Sched) (rs ss : Cells) (c n : Ptr) (ne : rs ≢ []) (t : IsTurn s rs ss c n) where
  abbrev stopped : Process
  stopped = record t.process { running = false }

  -- The process that runs goes to the end of the queue.
  pub rescheduled :
      (s' : Sched) × (make_process_ready c (with_process s c stopped) ≡ some (tt, s'))
      × IsSched s' (rs ++ (n, c) ∷ []) ss
      × Each (Busy s'.kernel_idle_task s'.processes) (rs ++ (n, c) ∷ [])
      × Each (Busy s'.kernel_idle_task s'.processes) ss
      × Same s s'
  unfolding with_process
  rescheduled =
      let off = with_process s c stopped in
      let at : off.processes c ≡ some stopped = ground arith in
      let (s', r, ir, is, procs, same, leaves) =
        make_process_ready-IsSched off rs ss c n stopped (node t.link null c) t.lists.ready
          t.lists.asleep t.lists.apart t.some_process at t.own t.some_node t.at_node t.not_ready
          t.not_asleep (λ e. refl) (omega (arith, t.room)) in
      let owned = λ (xs : Cells) (o : Owned s.processes xs).
        subst (λ f. Owned f xs) (sym procs)
          (Owned-with_process s c t.process stopped xs t.at_process refl o) in
      let busy = λ (xs : Cells). Busy-assigned s s' c stopped xs same.idle procs t.unfinished in
      (
        s',
        r,
        record {
          ready = ir;
          asleep = is;
          apart = Apart-append rs ((n, c) ∷ []) ss t.lists.apart (t.not_asleep, tt);
          ready_owned =
              Owned-append s'.processes rs ((n, c) ∷ []) (owned rs t.lists.ready_owned)
                (t.some_process, (stopped, ap (λ f. f c) procs ∙ at, t.own), tt);
          asleep_owned = owned ss t.lists.asleep_owned;
          room = omega (arith, t.room, length-append rs ((n, c) ∷ []));
        },
        Each-append _ rs ((n, c) ∷ []) (busy rs t.ready_busy) (
          (λ e. t.not_idle (e ∙ same.idle), (stopped, ap (λ f. f c) procs ∙ at, t.unfinished)),
          tt,
        ),
        busy ss t.asleep_busy,
        record { current = same.current; idle = same.idle; ticks = same.ticks },
      )

-- the process that is dispatched
abbrev dispatched : Process → Process
dispatched q = record q { started = true; running = true }

switch_next-run :
    (s s1 : Sched) (k : ℕ) (p : Ptr) (q : Process)
    → next_ready_process s ≡ some (p, s1)
    → p ≢ null
    → s1.processes p ≡ some q
    → q.finished ≡ false
    → switch_next (suc k) s
      ≡ some (tt, with_process (record s1 { current_process = p }) p (dispatched q))
unfolding switch_next
switch_next-run s s1 k p q e pn at f = ground (arith, e, pn, at, f)

with_process-at : (s : Sched) (p : Ptr) (q : Process) → (with_process s p q).processes p ≡ some q
unfolding with_process
with_process-at s p q = ground arith

-- The first process of the queue is dispatched.
pub switch_next-first :
    (s : Sched) (k : ℕ) (a p : Ptr) (rs ss : Cells)
    → IsSched s ((a, p) ∷ rs) ss
    → Each (Busy s.kernel_idle_task s.processes) ((a, p) ∷ rs)
    → Each (Busy s.kernel_idle_task s.processes) ss
    → (s' : Sched) × (switch_next (suc k) s ≡ some (tt, s'))
      × IsTurn s' rs ss p a
      × (s'.kernel_idle_task ≡ s.kernel_idle_task)
      × (s'.tick_count ≡ s.tick_count)
unfolding switch_next with_process
switch_next-first s k a p rs ss valid ((ni, (r, at', f)), br) bs =
    let (s1, e, ir, is, cell, procs, same) =
      next_ready_process-first s a p rs ss valid.ready valid.asleep valid.apart in
    let (pn, (q, at, own), orest) = valid.ready_owned in
    let qr : some q ≡ some r = sym at ∙ at' in
    let eq : q ≡ r = cc qr in
    let fin : q.finished ≡ false = ap (λ (p : Process). p.finished) eq ∙ f in
    let on = dispatched q in
    let at1 : s1.processes p ≡ some q = ap (λ f. f p) procs ∙ at in
    let s2 = record s1 { current_process = p } in
    let s3 = with_process s2 p on in
    let (out, apart) = valid.apart in
    let moved = ap (λ g. (with_process (record s { processes = g }) p on).processes) procs in
    let owned = λ (xs : Cells) (o : Owned s.processes xs).
      subst (λ f. Owned f xs) (sym moved) (Owned-with_process s p q on xs at refl o) in
    let busy = λ (xs : Cells). Busy-assigned s s3 p on xs same.idle moved fin in
    (
      s3,
      switch_next-run s s1 k p q e pn at1 fin,
      record {
        lists = record {
          ready = ir;
          asleep = is;
          apart = apart;
          ready_owned = owned rs orest;
          asleep_owned = owned ss valid.asleep_owned;
          room = omega (arith, valid.room);
        };
        current = refl;
        some_process = pn;
        not_idle = λ e. ni (e ∙ same.idle);
        process = on;
        at_process = with_process-at s2 p on;
        own = own;
        going = refl;
        unfinished = fin;
        some_node = valid.ready.seg.0;
        link = first_or null rs;
        at_node = cell;
        not_ready = valid.ready.distinct.0;
        not_asleep = out;
        ready_busy = busy rs br;
        asleep_busy = busy ss bs;
        room = omega (arith, valid.room);
      },
      same.idle,
      same.ticks,
    )

-- `switch_from` of a process that runs
switch_from-run :
    (s s' : Sched) (q : Process)
    → s.current_process ≢ null
    → s.current_process ≢ s.kernel_idle_task
    → s.processes s.current_process ≡ some q
    → q.running ≡ true
    → make_process_ready s.current_process
        (with_process s s.current_process (record q { running = false }))
      ≡ some (tt, s')
    → switch_from true s ≡ switch_next (suc s'.process_ready_queue.length) s'
unfolding switch_from
switch_from-run s s' q cn ni at on r = ground (arith, cn, ni, at, on, r)

switch_from-current :
    (s s' : Sched) (c : Ptr) (q : Process)
    → s.current_process ≡ c
    → c ≢ null
    → c ≢ s.kernel_idle_task
    → s.processes c ≡ some q
    → q.running ≡ true
    → make_process_ready c (with_process s c (record q { running = false })) ≡ some (tt, s')
    → switch_from true s ≡ switch_next (suc s'.process_ready_queue.length) s'
switch_from-current s s' c q e =
    subst
      (λ c.
        c ≢ null
        → c ≢ s.kernel_idle_task
        → s.processes c ≡ some q
        → q.running ≡ true
        → make_process_ready c (with_process s c (record q { running = false })) ≡ some (tt, s')
        → switch_from true s ≡ switch_next (suc s'.process_ready_queue.length) s')
      e (λ cn ni at on r. switch_from-run s s' q cn ni at on r)

pub process_switch_task-run :
    (s s' : Sched)
    → s.current_process ≢ null
    → wakeup_sleeping_processes s ≡ some (tt, s')
    → process_switch_task true s ≡ switch_from true s'
unfolding process_switch_task
process_switch_task-run s s' ne w = ground (arith, ne, w)

not_empty : (x : Ptr × Ptr) (xs ys : Cells) → (x ∷ xs) ++ ys ≢ []
not_empty x xs ys e = cc e

-- Where a process runs and others are ready, and none of those in the two lists has finished, a switch
-- that puts it back to the queue dispatches the first ready process. Behind the others that were
-- ready, the queue has the sleeping process that is woken, if any, and then the one that ran.
pub process_switch_task-IsTurn :
    (s : Sched) (a p : Ptr) (rs ss : Cells) (c n : Ptr)
    → IsTurn s ((a, p) ∷ rs) ss c n
    → (s' : Sched) × (ss' : Cells) × (ws : Cells) × Woken s ss ss' ws
      × (process_switch_task true s ≡ some (tt, s'))
      × IsTurn s' (rs ++ ws ++ (n, c) ∷ []) ss' p a
      × (s'.kernel_idle_task ≡ s.kernel_idle_task)
      × (s'.tick_count ≡ s.tick_count)
process_switch_task-IsTurn s a p rs ss c n t =
    let (s1, ss', ws, woken, w, t1, same1) = wakeup-Waking s ((a, p) ∷ rs) ss c n (λ e. cc e) t in
    let (s2, r, valid, br, bs, same2) =
      rescheduled s1 (((a, p) ∷ rs) ++ ws) ss' c n (not_empty (a, p) rs ws) t1 in
    let (s3, d, t3, idle, ticks) =
      switch_next-first s2 s2.process_ready_queue.length a p (rs ++ ws ++ (n, c) ∷ []) ss' valid br
        bs in
    (
      s3,
      ss',
      ws,
      woken,
      process_switch_task-run s s1 (λ e. t.some_process (sym t.current ∙ e)) w
          ∙ switch_from-current s1 s2 c t1.process t1.current t1.some_process t1.not_idle
              t1.at_process t1.going r
          ∙ d,
      t3,
      idle ∙ same2.idle ∙ same1.idle,
      ticks ∙ same2.ticks ∙ same1.ticks,
    )
