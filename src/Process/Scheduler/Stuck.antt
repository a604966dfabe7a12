-- ===== src/Process/Scheduler/Stuck.antt =====
-- A wedged queue stays so, whatever the scheduler does.
use os.Prelude.{
  ℕ, zero, suc, ◌+◌, ◌*◌, ◌/◌, ◌%◌, ◌^◌, ◌≡◌, refl, sym, ap, subst, ◌∙◌, Bool, true, false, not,
  ◌&&◌, some, if◌then◌else◌, ◌==◌, ltb, arith,
}
use os.Util.Linked.{Ptr, null, load, list_append, list_delete}
use os.Process.Scheduler.{
  Process, Sched, Kernel, pure, ◌>>=◌, ◌>>◌, on_nodes, get, put, with_process, make_process_ready,
  next_ready_process, wake, wake_from, wakeup_sleeping_processes, switch_next, switch_from,
  process_switch_task, process_sleep, timer_freq,
}
use os.Process.Scheduler.Wedge.{IsWedged}
use os.Process.Scheduler.Keeps.{
  Keeps, then-Keeps, pure-Keeps, list_append-headless, if-Keeps, at-Keeps, nodes-Keeps, put-Keeps,
  Wedged-with, behind,
}

make_process_ready-Keeps : (p : Ptr) (s : Sched) → IsWedged s → Keeps (make_process_ready p) s
unfolding make_process_ready
make_process_ready-Keeps p s w = at-Keeps p _ s w λ q.
    nodes-Keeps (list_append s.process_ready_queue q.sched_node) _ s λ l h e.
      let (head, tail) =
        list_append-headless s.process_ready_queue l q.sched_node s.nodes h w.some_tail e in
      put-Keeps (record s { nodes = h; process_ready_queue = l }) (record s { nodes = h })
        (record { no_head = head ∙ w.no_head; some_tail = tail })

wake-Keeps : (a v : Ptr) (q : Process) (s : Sched) → IsWedged s → Keeps (wake a v q) s
unfolding wake with_process
wake-Keeps a v q s w =
    nodes-Keeps (list_delete s.process_sleeping_list a) _
      (with_process s v (record q { sleeping = false }))
      λ l h e.
        let t = record (with_process s v (record q { sleeping = false })) {
          nodes = h;
          process_sleeping_list = l;
        } in
        make_process_ready-Keeps v t (Wedged-with s t refl w)

wake_from-Keeps : (k : ℕ) (a : Ptr) (s : Sched) → IsWedged s → Keeps (wake_from k a) s
unfolding wake_from
wake_from-Keeps zero a s w = λ b s' h. absurd (cc h)
wake_from-Keeps (suc k) a s w = if-Keeps (a == null) _ _ s (pure-Keeps tt s w) (
    nodes-Keeps (load a) _ s λ n h e.
      let u = record s { nodes = h } in
      let wu : IsWedged u = Wedged-with s u refl w in
      at-Keeps n.payload _ u wu λ q.
        let turn : Kernel (Unit {0}) =
          if ltb q.sleep_ticks s.tick_count then wake a n.payload q else pure tt in
        then-Keeps turn (λ _. on_nodes (load a) >>= λ n'. wake_from k n'.next) u
          λ b t r.
            let wt =
              if-Keeps (ltb q.sleep_ticks s.tick_count) (wake a n.payload q) (pure tt) u
                (wake-Keeps a n.payload q u wu) (pure-Keeps tt u wu) b t r in
            nodes-Keeps (load a) (λ n'. wake_from k n'.next) t
              λ n' h' e'.
                wake_from-Keeps k n'.next (record t { nodes = h' })
                  (Wedged-with t (record t { nodes = h' }) refl wt))

wakeup-Keeps : (s : Sched) → IsWedged s → Keeps wakeup_sleeping_processes s
unfolding wakeup_sleeping_processes
wakeup-Keeps s w =
    wake_from-Keeps (suc s.process_sleeping_list.length) s.process_sleeping_list.head s w

-- No process is dispatched.
next_ready_process-none :
    (s : Sched) → IsWedged s → next_ready_process s ≡ some (s.kernel_idle_task, s)
unfolding next_ready_process
next_ready_process-none s w = let head = w.no_head in ground (arith, head)

switch_next-Keeps : (k : ℕ) (s : Sched) → IsWedged s → Keeps (switch_next k) s
unfolding switch_next
switch_next-Keeps zero s w = λ b s' h. absurd (cc h)
switch_next-Keeps (suc k) s w = then-Keeps next_ready_process _ s λ p t e.
    let same : s ≡ t = ap (behind s) (sym (next_ready_process-none s w) ∙ e) in
    let wt = subst IsWedged same w in
    let u = record t { current_process = p } in
    at-Keeps p _ u (Wedged-with t u refl wt) λ q.
      if-Keeps q.finished _ _ u (switch_next-Keeps k u (Wedged-with t u refl wt))
        (put-Keeps _ u (unfold with_process in Wedged-with t _ refl wt))

switch_from-Keeps : (r : Bool) (s : Sched) → IsWedged s → Keeps (switch_from r) s
unfolding switch_from
switch_from-Keeps r s w = at-Keeps s.current_process _ s w λ q.
    let off = with_process s s.current_process (record q { running = false }) in
    let wo : IsWedged off = unfold with_process in Wedged-with s off refl w in
    let again = r && not (s.current_process == s.kernel_idle_task) in
    let back : Kernel (Unit {0}) =
      if again then make_process_ready s.current_process else pure tt in
    let turn : Kernel (Unit {0}) = if q.running then put off >> back else pure tt in
    then-Keeps turn (λ _. get >>= λ s'. switch_next (suc s'.process_ready_queue.length)) s
      λ b t e.
        let wt =
          if-Keeps q.running (put off >> back) (pure tt) s
            (if-Keeps again (make_process_ready s.current_process) (pure tt) off
              (make_process_ready-Keeps s.current_process off wo) (pure-Keeps tt off wo))
            (pure-Keeps tt s w) b t e in
        switch_next-Keeps (suc t.process_ready_queue.length) t wt

switch_task-Keeps : (r : Bool) (s : Sched) → IsWedged s → Keeps (process_switch_task r) s
unfolding process_switch_task
switch_task-Keeps r s w = if-Keeps (s.current_process == null) _ _ s (pure-Keeps tt s w) (
    then-Keeps wakeup_sleeping_processes _ s
      λ b t e. switch_from-Keeps r t (wakeup-Keeps s w b t e))

sleep-Keeps : (ms : ℕ) (s : Sched) → IsWedged s → Keeps (process_sleep ms) s
unfolding process_sleep
sleep-Keeps ms s w =
    if-Keeps (ms * timer_freq % 2 ^ 64 / 1000 == 0) _ _ s (switch_task-Keeps true s w) (
      at-Keeps s.current_process _ s w λ q.
        let u = with_process s s.current_process (record q {
          sleep_ticks = (ms * timer_freq % 2 ^ 64 / 1000 + s.tick_count) % 2 ^ 64;
          sleeping = true;
        }) in
        nodes-Keeps (list_append s.process_sleeping_list q.sched_node) _ u λ l h e.
          let t = record u { nodes = h; process_sleeping_list = l } in
          switch_task-Keeps false t (unfold with_process in Wedged-with s t refl w))

-- What moves the scheduler: the timer, a switch, a sleep, and a process that becomes ready.
pub data Step (s t : Sched) : Type 0 where
  ticks : (n : ℕ) → t ≡ record s { tick_count = n } → Step s t
  switches : (r : Bool) → process_switch_task r s ≡ some (tt, t) → Step s t
  sleeps : (ms : ℕ) → process_sleep ms s ≡ some (tt, t) → Step s t
  readies : (p : Ptr) → make_process_ready p s ≡ some (tt, t) → Step s t

pub data Reach (s : Sched) : Sched → Type 0 where
  here : Reach s s
  next : {t u : Sched} → Reach s t → Step t u → Reach s u

Step-IsWedged : {s t : Sched} → Step s t → IsWedged s → IsWedged t
Step-IsWedged {s} {t} (ticks n e) w =
    Wedged-with s t (ap (λ (x : Sched). x.process_ready_queue) e) w
Step-IsWedged {s} {t} (switches r e) w = switch_task-Keeps r s w tt t e
Step-IsWedged {s} {t} (sleeps ms e) w = sleep-Keeps ms s w tt t e
Step-IsWedged {s} {t} (readies p e) w = make_process_ready-Keeps p s w tt t e

Reach-IsWedged : {s t : Sched} → IsWedged s → Reach s t → IsWedged t
Reach-IsWedged w here = w
Reach-IsWedged w (next r st) = Step-IsWedged st (Reach-IsWedged w r)

-- From a state whose queue is wedged, every state that ticks, switches, sleeps and processes that
-- become ready lead to gives the idle task for the next process: none is ever dispatched again.
pub wedged_forever :
    (s t : Sched) → IsWedged s → Reach s t → next_ready_process t ≡ some (t.kernel_idle_task, t)
wedged_forever s t w r = next_ready_process-none t (Reach-IsWedged w r)
