-- ===== src/Process/Scheduler/Rounds.antt =====
-- The scheduler goes round: each process of the queue has its turn.
use os.Prelude.{true, ℕ, ◌≡◌, refl, ap, subst, ◌∙◌, [], ◌∷◌, ◌++◌, List, some, length, arith}
use mathlib.Core.List.{append_assoc}
use os.Util.Linked.{Ptr}
use os.Util.Linked.Seg.{Cells}
use os.Process.Scheduler.{Sched, Kernel, get, put, pure, ◌>>=◌, ◌>>◌, process_switch_task}
use os.Process.Scheduler.Turn.{IsTurn}
use os.Process.Scheduler.Switch.{process_switch_task-IsTurn}

-- the timer: each time slice ends at a count of ticks, with a switch that puts the process back;
-- nothing else calls the scheduler in between
unfoldable pub slices : List ℕ → Kernel (Unit {0})
slices [] = pure tt
slices (now ∷ later) = do
  s ← get
  put (record s { tick_count = now })
  process_switch_task true
  slices later

-- the invariant does not depend on the time
IsTurn-ticks :
    (s : Sched) (now : ℕ) (rs ss : Cells) (c n : Ptr)
    → IsTurn s rs ss c n
    → IsTurn (record s { tick_count = now }) rs ss c n
IsTurn-ticks s now rs ss c n t = record {
  lists = record {
    ready = t.lists.ready;
    asleep = t.lists.asleep;
    apart = t.lists.apart;
    ready_owned = t.lists.ready_owned;
    asleep_owned = t.lists.asleep_owned;
    room = t.lists.room;
  };
  current = t.current;
  some_process = t.some_process;
  not_idle = t.not_idle;
  process = t.process;
  at_process = t.at_process;
  own = t.own;
  going = t.going;
  unfinished = t.unfinished;
  some_node = t.some_node;
  link = t.link;
  at_node = t.at_node;
  not_ready = t.not_ready;
  not_asleep = t.not_asleep;
  ready_busy = t.ready_busy;
  asleep_busy = t.asleep_busy;
  room = t.room;
}

slices-suc :
    (s s' : Sched) (now : ℕ) (later : List ℕ)
    → process_switch_task true (record s { tick_count = now }) ≡ some (tt, s')
    → slices (now ∷ later) s ≡ slices later s'
unfolding slices
slices-suc s s' now later e = ground (arith, e)

slices-none : (later : List ℕ) (s : Sched) → length later ≡ 0 → slices later s ≡ some (tt, s)
unfolding slices
slices-none [] s e = refl
slices-none (now ∷ later) s e = absurd (omega (arith, e))

regrouped :
    (xs : Cells) (y : Ptr × Ptr) (rs ws zs : Cells)
    → (xs ++ y ∷ rs) ++ ws ++ zs ≡ xs ++ y ∷ (rs ++ ws ++ zs)
regrouped xs y rs ws zs =
    ap (λ (l : Cells). l ++ zs) (append_assoc xs (y ∷ rs) ws) ∙ append_assoc xs (y ∷ (rs ++ ws)) zs

-- Where a process runs and none of those in the two lists has finished: a process that is ready, with
-- those of `xs` in front of it in the queue, has the processor behind as many time slices as `xs` has
-- processes, and one more, whatever the ticks at their ends and whoever is woken in between, where
-- only the timer calls the scheduler.
pub slices-reach :
    (xs : Cells) (s : Sched) (a p : Ptr) (rs ss : Cells) (c n : Ptr) (now : ℕ) (later : List ℕ)
    → IsTurn s (xs ++ (a, p) ∷ rs) ss c n
    → length later ≡ length xs
    → (s' : Sched) × (slices (now ∷ later) s ≡ some (tt, s')) × (s'.current_process ≡ p)
slices-reach [] s a p rs ss c n now later t e =
    let t0 = IsTurn-ticks s now ((a, p) ∷ rs) ss c n t in
    let (s', ss', ws, woken, run, t', idle, ticks) =
      process_switch_task-IsTurn (record s { tick_count = now }) a p rs ss c n t0 in
    (s', slices-suc s s' now later run ∙ slices-none later s' e, t'.current)
slices-reach ((b, r) ∷ xs) s a p rs ss c n now [] t e = absurd (omega (arith, e))
slices-reach ((b, r) ∷ xs) s a p rs ss c n now (then ∷ later) t e =
    let t0 = IsTurn-ticks s now ((b, r) ∷ (xs ++ (a, p) ∷ rs)) ss c n t in
    let (s1, ss', ws, woken, run, t1, idle, ticks) =
      process_switch_task-IsTurn (record s { tick_count = now }) b r (xs ++ (a, p) ∷ rs) ss c n
        t0 in
    let t2 = subst (λ qs. IsTurn s1 qs ss' r b) (regrouped xs (a, p) rs ws ((n, c) ∷ [])) t1 in
    let (s', go, cur) =
      slices-reach xs s1 a p (rs ++ ws ++ (n, c) ∷ []) ss' r b then later t2 (omega (arith, e)) in
    (s', slices-suc s s1 now (then ∷ later) run ∙ go, cur)
