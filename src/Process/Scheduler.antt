-- ===== src/Process/Scheduler.antt =====
-- The scheduler of kernel/src/process/process.c, over the linked list of kernel/src/util/list.c:
-- the queue of ready processes and the list of sleeping ones link the node that each process holds,
-- `sched_node`, in one store. `none` is a fault, as in the list. A switch is followed up to the call
-- of `switch_to`: the FPU, the page directory and the stacks are left out, and so is what a process
-- does when that call returns to it.
pub mod Wake
pub mod Wakeup
pub mod Queue
pub mod Turn
pub mod Switch
pub mod Leaving
pub mod Sleep
pub mod Rounds
pub mod Wedge
pub mod Keeps
pub mod Stuck
mod Tests
use os.Prelude.{
  ℕ, zero, suc, ◌+◌, ◌*◌, ◌/◌, ◌%◌, ◌^◌, Bool, true, false, not, ◌&&◌, Option, none, some,
  if◌then◌else◌, ◌==◌, ltb,
}
use os.Util.Linked
use os.Util.Linked.{Ptr, null, Node, Store, Linked, Cmd}

-- the fields of `process_t` that the scheduler reads and writes; `sched_node` is the node's address
pub record Process : Type 0 where
  pub sched_node : Ptr
  pub sleep_ticks : ℕ
  pub started : Bool
  pub finished : Bool
  pub running : Bool
  pub sleeping : Bool

-- the static variables, the nodes, and the count of ticks
pub record Sched : Type 0 where
  pub nodes : Store
  pub processes : Ptr → Option Process
  pub process_ready_queue : Linked
  pub process_sleeping_list : Linked
  pub current_process : Ptr
  pub kernel_idle_task : Ptr
  pub tick_count : ℕ

abbrev pub Kernel : Type 0 → Type 0
Kernel A = Sched → Option (A × Sched)

abbrev pub pure : {A : Type 0} → A → Kernel A
pure a s = some (a, s)

abbrev pub fault : {A : Type 0} → Kernel A
fault s = none

infixl 5 ◌>>=◌ ◌>>◌
abbrev pub ◌>>=◌ : {A B : Type 0} → Kernel A → (A → Kernel B) → Kernel B
◌>>=◌ m k s = elim (m s) [ none ↦ none | some (a, s') ↦ k a s' ]

abbrev pub ◌>>◌ : {B : Type 0} → Kernel (Unit {0}) → Kernel B → Kernel B
m >> k = m >>= λ _. k

-- a command on the nodes
abbrev pub on_nodes : {A : Type 0} → Cmd A → Kernel A
on_nodes c s = elim (c s.nodes) [ none ↦ none | some (a, h) ↦ some (a, record s { nodes = h }) ]

abbrev pub get : Kernel Sched
get s = some (s, s)

abbrev pub put : Sched → Kernel (Unit {0})
put s' s = some (tt, s')

abbrev pub process_at : Ptr → Kernel Process
process_at p s = elim (if p == null then none else s.processes p) [
  | none ↦ none
  | some q ↦ some (q, s)
]

-- an assignment to the fields of a process
unfoldable pub with_process : Sched → Ptr → Process → Sched
with_process s p q = record s { processes = λ x. if p == x then some q else s.processes x }

unfoldable pub make_process_ready : Ptr → Kernel (Unit {0})
make_process_ready proc = do
  q ← process_at proc
  s ← get
  l ← on_nodes (Linked.list_append s.process_ready_queue q.sched_node)
  s' ← get
  put (record s' { process_ready_queue = l })

abbrev pub process_available : Sched → Bool
process_available s = not (s.process_ready_queue.head == null)

unfoldable pub next_ready_process : Kernel Ptr
next_ready_process = do
  s ← get
  if process_available s
      then (do
        (np, l) ← on_nodes (Linked.list_dequeue s.process_ready_queue)
        s' ← get
        put (record s' { process_ready_queue = l })
        n ← on_nodes (Linked.load np)
        pure n.payload)
      else pure s.kernel_idle_task

-- a sleeping process whose time has come
unfoldable pub wake : Ptr → Ptr → Process → Kernel (Unit {0})
unfolding make_process_ready with_process
wake node proc q = do
  s ← get
  put (with_process s proc (record q { sleeping = false }))
  l ← on_nodes (Linked.list_delete s.process_sleeping_list node)
  s' ← get
  put (record s' { process_sleeping_list = l })
  make_process_ready proc

-- The loop of `wakeup_sleeping_processes` from `next_node` on. The fuel counts the rounds.
unfoldable pub wake_from : ℕ → Ptr → Kernel (Unit {0})
unfolding wake
wake_from zero next_node = fault
wake_from (suc k) next_node = if next_node == null then pure tt else do
  n ← on_nodes (Linked.load next_node)
  q ← process_at n.payload
  s ← get
  (if ltb q.sleep_ticks s.tick_count then wake next_node n.payload q else pure tt)
  n' ← on_nodes (Linked.load next_node)
  wake_from k n'.next

unfoldable pub wakeup_sleeping_processes : Kernel (Unit {0})
unfolding wake_from
wakeup_sleeping_processes = do
  s ← get
  wake_from (suc s.process_sleeping_list.length) s.process_sleeping_list.head

-- `switch_next` up to `switch_to`: the loop stands for its call of itself at a process that has
-- finished.
unfoldable pub switch_next : ℕ → Kernel (Unit {0})
unfolding next_ready_process with_process
switch_next zero = fault
switch_next (suc k) = do
  p ← next_ready_process
  s ← get
  put (record s { current_process = p })
  q ← process_at p
  if q.finished
      then switch_next k
      else (do s' ← get; put (with_process s' p (record q { started = true; running = true })))

-- what `process_switch_task` does behind waking the processes
unfoldable pub switch_from : Bool → Kernel (Unit {0})
unfolding make_process_ready switch_next with_process
switch_from reschedule = do
  s ← get
  q ← process_at s.current_process
  (if q.running
      then (do
        put (with_process s s.current_process (record q { running = false }))
        if reschedule && not (s.current_process == s.kernel_idle_task)
            then make_process_ready s.current_process
            else pure tt)
      else pure tt)
  s' ← get
  switch_next (suc s'.process_ready_queue.length)

unfoldable pub process_switch_task : Bool → Kernel (Unit {0})
unfolding wakeup_sleeping_processes switch_from
process_switch_task reschedule = do
  s ← get
  if s.current_process == null
      then pure tt
      else (do wakeup_sleeping_processes; switch_from reschedule)

-- TIMER_FREQ
abbrev pub timer_freq : ℕ
timer_freq = 50

unfoldable pub process_sleep : ℕ → Kernel (Unit {0})
unfolding process_switch_task with_process
process_sleep ms =
    let ticks = ms * timer_freq % 2 ^ 64 / 1000 in
    if ticks == 0 then process_switch_task true else (do
      s ← get
      q ← process_at s.current_process
      put (
          with_process s s.current_process
            (record q { sleep_ticks = (ticks + s.tick_count) % 2 ^ 64; sleeping = true }))
      l ← on_nodes (Linked.list_append s.process_sleeping_list q.sched_node)
      s' ← get
      put (record s' { process_sleeping_list = l })
      process_switch_task false)
