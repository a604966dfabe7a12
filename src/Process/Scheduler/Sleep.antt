-- ===== src/Process/Scheduler/Sleep.antt =====
-- A process goes to sleep.
use os.Prelude.{
  ℕ, suc, ◌+◌, ◌*◌, ◌/◌, ◌%◌, ◌^◌, ◌<◌, ◌≡◌, ◌≢◌, refl, ap, ◌∙◌, true, false, [], ◌∷◌, ◌++◌, some,
  ◌==◌, length, length-append, arith,
}
use os.Util.Linked.{Ptr, null, node, Store, Linked, list_append}
use os.Util.Linked.Seg.{Cells, has, last_or}
use os.Util.Linked.Append.{list_append-IsList, list_append-spares}
use os.Process.Scheduler.{
  Process, Sched, with_process, wakeup_sleeping_processes, switch_next, switch_from,
  process_switch_task, process_sleep, timer_freq,
}
use os.Process.Scheduler.Queue.{Apart, Owned-append, IsSched, IsList-spared, last_or-inside}
use os.Process.Scheduler.Wake.{Apart-has_behind, Owned-with_process}
use os.Process.Scheduler.Turn.{IsTurn, Each-append, Woken, has-neither}
use os.Process.Scheduler.Switch.{Busy-assigned, switch_next-first}
use os.Process.Scheduler.Leaving.{IsLeaving, wakeup-Leaving}

other_node :
    (b w n c : Ptr) (xs : Cells) → has n ((b, w) ∷ xs) ≡ false → has b ((n, c) ∷ []) ≡ false
other_node b w n c xs o = ground (arith, o)

Apart-last :
    (xs ys : Cells) (n c : Ptr) → Apart xs ys → has n xs ≡ false → Apart xs (ys ++ (n, c) ∷ [])
Apart-last [] ys n c k o = tt
Apart-last ((b, w) ∷ xs) ys n c (p, k) o = (
  has-neither b ys ((n, c) ∷ []) p (other_node b w n c xs o),
  Apart-last xs ys n c k (ground (arith, o)),
)

IsSched-assigned :
    (s : Sched) (p : Ptr) (q q' : Process) (rs ss : Cells)
    → s.processes p ≡ some q
    → q'.sched_node ≡ q.sched_node
    → IsSched s rs ss
    → IsSched (with_process s p q') rs ss
IsSched-assigned s p q q' rs ss at e valid = record {
  ready = unfold with_process in valid.ready;
  asleep = unfold with_process in valid.asleep;
  apart = valid.apart;
  ready_owned = Owned-with_process s p q q' rs at e valid.ready_owned;
  asleep_owned = Owned-with_process s p q q' ss at e valid.asleep_owned;
  room = valid.room;
}

-- a process that sleeps until a tick
abbrev pub sleeper : Sched → ℕ → Process → Process
sleeper s ms q = record q {
  sleep_ticks = (ms * timer_freq % 2 ^ 64 / 1000 + s.tick_count) % 2 ^ 64;
  sleeping = true;
}

process_sleep-run :
    (s : Sched) (ms : ℕ) (q : Process) (l : Linked) (h : Store)
    → ms * timer_freq % 2 ^ 64 / 1000 ≢ 0
    → s.current_process ≢ null
    → s.processes s.current_process ≡ some q
    → list_append s.process_sleeping_list q.sched_node s.nodes ≡ some (l, h)
    → process_sleep ms s
      ≡ process_switch_task false (record (with_process s s.current_process (sleeper s ms q)) {
        nodes = h;
        process_sleeping_list = l;
      })
unfolding process_sleep
process_sleep-run s ms q l h long cn at e =
    let test : (ms * timer_freq % 2 ^ 64 / 1000 == 0) ≡ false = ground (arith, long) in
    ground (arith, test, cn, at, e)

process_leave-run :
    (s s' : Sched)
    → s.current_process ≢ null
    → wakeup_sleeping_processes s ≡ some (tt, s')
    → process_switch_task false s ≡ switch_from false s'
unfolding process_switch_task
process_leave-run s s' ne w = ground (arith, ne, w)

-- `switch_from` of a process that runs and is not put back
switch_from-leave :
    (s : Sched) (q : Process)
    → s.current_process ≢ null
    → s.processes s.current_process ≡ some q
    → q.running ≡ true
    → switch_from false s
      ≡ switch_next
          (suc s.process_ready_queue.length)
          (with_process s s.current_process (record q { running = false }))
unfolding switch_from
switch_from-leave s q cn at on = ground (arith, cn, at, on)

module _ (s : Sched) (ms : ℕ) (rs ss : Cells) (n : Ptr) (ne : rs ≢ [])
    (t : IsTurn s rs ss s.current_process n) where
  abbrev gone : Process
  gone = sleeper s ms t.process

  -- The process that runs goes to the end of the list of sleeping processes.
  asleep-Leaving :
      (l : Linked) × (h : Store) × (list_append s.process_sleeping_list t.process.sched_node s.nodes
        ≡ some (l, h))
      × IsLeaving
          (record (with_process s s.current_process gone) { nodes = h; process_sleeping_list = l })
          rs
          (ss ++ (n, s.current_process) ∷ [])
  unfolding with_process
  asleep-Leaving =
      let c = s.current_process in
      let room : suc (length ss) < 2 ^ 64 = omega (arith, t.room) in
      let (l, h, e, is) =
        list_append-IsList s.nodes s.process_sleeping_list ss n (node t.link null c) t.lists.asleep
          t.some_node t.at_node t.not_asleep room (λ _. refl) in
      let spared =
        list_append-spares s.nodes s.process_sleeping_list ss n (node t.link null c) t.lists.asleep
          t.some_node t.at_node t.not_asleep room (λ _. refl) null null rs t.not_ready
          (λ x. Apart-has_behind (last_or null ss) rs ss (last_or-inside ss x) t.lists.apart)
          t.lists.ready.seg in
      let u = record (with_process s c gone) { nodes = h; process_sleeping_list = l } in
      let at : u.processes c ≡ some gone = ground arith in
      let busy = λ (xs : Cells). Busy-assigned s u c gone xs refl refl t.unfinished in
      (
        l,
        h,
        ap (λ a. list_append s.process_sleeping_list a s.nodes) t.own ∙ e,
        record {
          lists = record {
            ready = IsList-spared s.nodes h s.process_ready_queue rs t.lists.ready spared;
            asleep = is;
            apart = Apart-last rs ss n c t.lists.apart t.not_ready;
            ready_owned =
                Owned-with_process s c t.process gone rs t.at_process refl t.lists.ready_owned;
            asleep_owned =
                Owned-append u.processes ss ((n, c) ∷ [])
                  (Owned-with_process s c t.process gone ss t.at_process refl t.lists.asleep_owned)
                  (t.some_process, (gone, at, t.own), tt);
            room = omega (arith, t.room, length-append ss ((n, c) ∷ []));
          };
          some_process = t.some_process;
          process = gone;
          at_process = at;
          going = t.going;
          unfinished = t.unfinished;
          ready_busy = busy rs t.ready_busy;
          asleep_busy =
              Each-append _ ss ((n, c) ∷ []) (busy ss t.asleep_busy)
                ((t.not_idle, (gone, at, t.unfinished)), tt);
        },
      )

-- Where a process runs and others are ready, and none of those in the two lists has finished: if that
-- process sleeps for at least a tick, it goes to the end of the list of sleeping processes, the first
-- of these whose time has come is woken, if any, and the first ready process is dispatched.
pub process_sleep-IsTurn :
    (s : Sched) (ms : ℕ) (a p : Ptr) (rs ss : Cells) (n : Ptr)
    → IsTurn s ((a, p) ∷ rs) ss s.current_process n
    → ms * timer_freq % 2 ^ 64 / 1000 ≢ 0
    → (s1 : Sched) × (s' : Sched) × (ss' : Cells) × (ws : Cells) × Woken s1
        (ss ++ (n, s.current_process) ∷ [])
        ss'
        ws
      × ((q : Process) × (s.processes s.current_process ≡ some q)
          × (s1.processes ≡ (with_process s s.current_process (sleeper s ms q)).processes))
      × (s1.tick_count ≡ s.tick_count)
      × (process_sleep ms s ≡ some (tt, s'))
      × IsTurn s' (rs ++ ws) ss' p a
      × (s'.kernel_idle_task ≡ s.kernel_idle_task)
      × (s'.tick_count ≡ s.tick_count)
unfolding with_process
process_sleep-IsTurn s ms a p rs ss n t long =
    let (l, h, e, t1) = asleep-Leaving s ms ((a, p) ∷ rs) ss n (λ x. cc x) t in
    let s1 = record (with_process s s.current_process (sleeper s ms t.process)) {
      nodes = h;
      process_sleeping_list = l;
    } in
    let (s2, ss', ws, woken, w, t2, same) =
      wakeup-Leaving s1 ((a, p) ∷ rs) (ss ++ (n, s.current_process) ∷ []) (λ x. cc x) t1 in
    let off = record t2.process { running = false } in
    let s3 = with_process s2 s2.current_process off in
    let busy =
      λ (xs : Cells). Busy-assigned s2 s3 s2.current_process off xs refl refl t2.unfinished in
    let (s', d, t', idle, ticks) =
      switch_next-first s3 s2.process_ready_queue.length a p (rs ++ ws) ss'
        (IsSched-assigned s2 s2.current_process t2.process off ((a, p) ∷ (rs ++ ws)) ss'
          t2.at_process refl t2.lists)
        (busy ((a, p) ∷ (rs ++ ws)) t2.ready_busy) (busy ss' t2.asleep_busy) in
    (
      s1,
      s',
      ss',
      ws,
      woken,
      (t.process, t.at_process, refl),
      refl,
      process_sleep-run s ms t.process l h long t.some_process t.at_process e
          ∙ process_leave-run s1 s2 t.some_process w
          ∙ switch_from-leave s2 t2.process t2.some_process t2.at_process t2.going
          ∙ d,
      t',
      idle ∙ same.idle,
      ticks ∙ same.ticks,
    )
