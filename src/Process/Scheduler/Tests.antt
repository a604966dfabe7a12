-- ===== src/Process/Scheduler/Tests.antt =====
-- Runs of the scheduler.
use os.Prelude.{
  ◌++◌, ℕ, ◌≡◌, refl, Bool, true, false, [], ◌∷◌, Option, none, some, if◌then◌else◌, ◌==◌, arith,
  inr,
}
use os.Util.Linked.{
  Ptr, null, Node, node, Store, Linked, list, load, set_next, set_prev, store, write, list_append,
}
use os.Util.Linked.Seg.{Cells, IsList}
use os.Process.Scheduler.{
  Process, Sched, with_process, make_process_ready, next_ready_process, wakeup_sleeping_processes,
  process_switch_task, process_sleep,
}
use os.Process.Scheduler.Queue.{IsSched, Same}
use os.Process.Scheduler.Wakeup.{wakeup-first_due}
use os.Process.Scheduler.Wedge.{IsWedged, wakeup-IsWedged}
use os.Process.Scheduler.Turn.{IsTurn, Woken}
use os.Process.Scheduler.Switch.{process_switch_task-IsTurn}
use os.Process.Scheduler.Sleep.{sleeper, process_sleep-IsTurn}
use os.Process.Scheduler.Rounds.{slices, slices-reach}
use os.Process.Scheduler.Stuck.{here, next, ticks, readies, wedged_forever}

abbrev proc : Ptr → ℕ → Bool → Process
proc n at asleep = record {
  sched_node = n;
  sleep_ticks = at;
  started = true;
  finished = false;
  running = false;
  sleeping = asleep;
}

-- the processes 101, 102 and 103, which sleep until the ticks 60, 40 and 45, and 104, which is ready
abbrev procs : Ptr → Option Process
procs p =
    if p == 101
    then some (proc 11 60 true)
    else if p == 102
    then some (proc 12 40 true)
    else if p == 103
    then some (proc 13 45 true)
    else if p == 104
    then some (proc 14 0 false)
    else none

abbrev cells : Store
cells a =
    if a == 11
    then some (node 12 0 101)
    else if a == 12
    then some (node 13 11 102)
    else if a == 13
    then some (node 0 12 103)
    else if a == 14
    then some (node 0 0 104)
    else none

abbrev sleepers : Linked
sleepers = list 11 13 3

abbrev one_ready : Sched
one_ready = record {
  nodes = cells;
  processes = procs;
  process_ready_queue = list 14 14 1;
  process_sleeping_list = sleepers;
  current_process = 100;
  kernel_idle_task = 100;
  tick_count = 50;
}

abbrev none_ready : Sched
none_ready = record one_ready { process_ready_queue = list 0 0 0 }

sleepers-IsList : IsList cells sleepers ((11, 101) ∷ (12, 102) ∷ (13, 103) ∷ [])
sleepers-IsList = record {
  seg = ground arith;
  distinct = (refl, (refl, (refl, tt)));
  head = refl;
  tail = refl;
  count = refl;
  small = omega arith;
}

one_ready-IsSched : IsSched one_ready ((14, 104) ∷ []) ((11, 101) ∷ (12, 102) ∷ (13, 103) ∷ [])
one_ready-IsSched = record {
  ready = record {
    seg = ground arith;
    distinct = (refl, tt);
    head = refl;
    tail = refl;
    count = refl;
    small = omega arith;
  };
  asleep = sleepers-IsList;
  apart = (refl, tt);
  ready_owned = (ground arith, (proc 14 0 false, refl, refl), tt);
  asleep_owned = (
    ground arith,
    (proc 11 60 true, refl, refl),
    (
      ground arith,
      (proc 12 40 true, refl, refl),
      (ground arith, (proc 13 45 true, refl, refl), tt),
    ),
  );
  room = omega arith;
}

none_ready-IsSched : IsSched none_ready [] ((11, 101) ∷ (12, 102) ∷ (13, 103) ∷ [])
none_ready-IsSched = record {
  ready = record {
    seg = tt;
    distinct = tt;
    head = refl;
    tail = refl;
    count = refl;
    small = omega arith;
  };
  asleep = sleepers-IsList;
  apart = tt;
  ready_owned = tt;
  asleep_owned = one_ready-IsSched.asleep_owned;
  room = omega arith;
}

wakeup-first_due_example :
    (s' : Sched) × (wakeup_sleeping_processes one_ready ≡ some (tt, s'))
    × IsSched s' ((14, 104) ∷ (12, 102) ∷ []) ((11, 101) ∷ (13, 103) ∷ [])
    × (s'.processes ≡ (with_process one_ready 102 (proc 12 40 false)).processes)
    × Same one_ready s'
wakeup-first_due_example =
    wakeup-first_due one_ready ((14, 104) ∷ []) ((11, 101) ∷ []) 12 102 ((13, 103) ∷ [])
      (proc 12 40 true) one_ready-IsSched ((proc 11 60 true, refl, refl), tt) refl refl
      (inr (λ q. absurd (cc q)))

wakeup-IsWedged_example :
    (s1 : Sched) × (s2 : Sched) × (wakeup_sleeping_processes none_ready ≡ some (tt, s1))
    × (next_ready_process s1 ≡ some (102, s2))
    × IsWedged s2
    × ((m : Node) × (s2.nodes 11 ≡ some m) × (m.next ≡ null))
wakeup-IsWedged_example =
    wakeup-IsWedged none_ready (11, 101) [] 12 102 ((13, 103) ∷ []) (proc 12 40 true)
      none_ready-IsSched ((proc 11 60 true, refl, refl), tt) refl refl

-- a wedged queue, and the state behind a tick at which 104 becomes ready
abbrev wedged : Sched
wedged = record one_ready { process_ready_queue = list 0 13 0 }

abbrev readied : Sched
readied = record wedged {
  tick_count = 51;
  nodes =
      write (write (write cells 14 (some (node 0 0 104))) 13 (some (node 14 12 103))) 14
        (some (node 0 13 104));
  process_ready_queue = list 0 14 1;
}

readied-run : make_process_ready 104 (record wedged { tick_count = 51 }) ≡ some (tt, readied)
unfolding make_process_ready list_append set_next set_prev load store write
readied-run = refl

wedged_forever_example : next_ready_process readied ≡ some (100, readied)
wedged_forever_example =
    wedged_forever wedged readied (record { no_head = refl; some_tail = ground arith })
      (next (next here (ticks 51 refl)) (readies 104 readied-run))

-- 105 runs, 104 and 106 are ready, and 101 and 102 sleep
abbrev others : Store
others a =
    if a == 11
    then some (node 12 0 101)
    else if a == 12
    then some (node 0 11 102)
    else if a == 14
    then some (node 16 0 104)
    else if a == 15
    then some (node 0 0 105)
    else if a == 16
    then some (node 0 14 106)
    else none

abbrev turn_procs : Ptr → Option Process
turn_procs p =
    if p == 105
    then some (record (proc 15 0 false) { running = true })
    else if p == 106
    then some (proc 16 0 false)
    else procs p

abbrev turning : Sched
turning = record {
  nodes = others;
  processes = turn_procs;
  process_ready_queue = list 14 16 2;
  process_sleeping_list = list 11 12 2;
  current_process = 105;
  kernel_idle_task = 100;
  tick_count = 50;
}

turning-IsTurn : IsTurn turning ((14, 104) ∷ (16, 106) ∷ []) ((11, 101) ∷ (12, 102) ∷ []) 105 15
turning-IsTurn = record {
  lists = record {
    ready = record {
      seg = ground arith;
      distinct = (refl, (refl, tt));
      head = refl;
      tail = refl;
      count = refl;
      small = omega arith;
    };
    asleep = record {
      seg = ground arith;
      distinct = (refl, (refl, tt));
      head = refl;
      tail = refl;
      count = refl;
      small = omega arith;
    };
    apart = (refl, (refl, tt));
    ready_owned = (
      ground arith,
      (proc 14 0 false, refl, refl),
      (ground arith, (proc 16 0 false, refl, refl), tt),
    );
    asleep_owned = (
      ground arith,
      (proc 11 60 true, refl, refl),
      (ground arith, (proc 12 40 true, refl, refl), tt),
    );
    room = omega arith;
  };
  current = refl;
  some_process = ground arith;
  not_idle = ground arith;
  process = record (proc 15 0 false) { running = true };
  at_process = refl;
  own = refl;
  going = refl;
  unfinished = refl;
  some_node = ground arith;
  link = 0;
  at_node = refl;
  not_ready = refl;
  not_asleep = refl;
  ready_busy = (
    (ground arith, (proc 14 0 false, refl, refl)),
    ((ground arith, (proc 16 0 false, refl, refl)), tt),
  );
  asleep_busy = (
    (ground arith, (proc 11 60 true, refl, refl)),
    ((ground arith, (proc 12 40 true, refl, refl)), tt),
  );
  room = omega arith;
}

process_switch_task-IsTurn_example :
    (s' : Sched) × (ss' : Cells) × (ws : Cells) × Woken turning ((11, 101) ∷ (12, 102) ∷ []) ss' ws
    × (process_switch_task true turning ≡ some (tt, s'))
    × IsTurn s' (((16, 106) ∷ []) ++ ws ++ (15, 105) ∷ []) ss' 104 14
    × (s'.kernel_idle_task ≡ 100)
    × (s'.tick_count ≡ 50)
process_switch_task-IsTurn_example =
    process_switch_task-IsTurn turning 14 104 ((16, 106) ∷ []) ((11, 101) ∷ (12, 102) ∷ []) 105 15
      turning-IsTurn

slices-reach_example :
    (s' : Sched) × (slices (51 ∷ 52 ∷ []) turning ≡ some (tt, s')) × (s'.current_process ≡ 106)
slices-reach_example =
    slices-reach ((14, 104) ∷ []) turning 16 106 [] ((11, 101) ∷ (12, 102) ∷ []) 105 15 51 (52 ∷ [])
      turning-IsTurn refl

process_sleep-IsTurn_example :
    (s1 : Sched) × (s' : Sched) × (ss' : Cells) × (ws : Cells) × Woken s1
      ((11, 101) ∷ (12, 102) ∷ (15, 105) ∷ [])
      ss'
      ws
    × ((q : Process) × (turn_procs 105 ≡ some q)
        × (s1.processes ≡ (with_process turning 105 (sleeper turning 60 q)).processes))
    × (s1.tick_count ≡ 50)
    × (process_sleep 60 turning ≡ some (tt, s'))
    × IsTurn s' (((16, 106) ∷ []) ++ ws) ss' 104 14
    × (s'.kernel_idle_task ≡ 100)
    × (s'.tick_count ≡ 50)
process_sleep-IsTurn_example =
    process_sleep-IsTurn turning 60 14 104 ((16, 106) ∷ []) ((11, 101) ∷ (12, 102) ∷ []) 15
      turning-IsTurn (ground arith)
