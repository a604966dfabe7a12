-- ===== src/Process/Scheduler/Leaving.antt =====
-- Waking, while the process that has the processor is on its way to sleep.
use os.Prelude.{
  ◌≡◌, ◌≢◌, refl, sym, ap, subst, ◌∙◌, true, false, [], ◌∷◌, ◌++◌, some, ◌==◌, ltb, arith, inl, inr,
  Bool-cases,
}
use mathlib.Core.List.{append-nil}
use os.Util.Linked.{Ptr, null}
use os.Util.Linked.Seg.{Cells}
use os.Process.Scheduler.{Process, Sched, with_process, wakeup_sleeping_processes}
use os.Process.Scheduler.Queue.{IsSched, Same}
use os.Process.Scheduler.Wake.{Early, awake}
use os.Process.Scheduler.Wakeup.{wakeup-Early, wakeup-woken}
use os.Process.Scheduler.Turn.{
  Each, Each-append, Each-split, Busy, Woken, none_due, first_due, FirstDue, due-cases,
}
use os.Process.Scheduler.Switch.{Busy-assigned}

-- the process that has the processor is marked as running, whatever list its node is in
pub record IsLeaving (s : Sched) (rs ss : Cells) : Type 0 where
  pub lists : IsSched s rs ss
  pub some_process : s.current_process ≢ null
  pub process : Process
  pub at_process : s.processes s.current_process ≡ some process
  pub going : process.running ≡ true
  pub unfinished : process.finished ≡ false
  pub ready_busy : Each (Busy s.kernel_idle_task s.processes) rs
  pub asleep_busy : Each (Busy s.kernel_idle_task s.processes) ss

abbrev pub Leaving : Sched → Cells → Cells → Type 0
Leaving s rs ss =
    (s' : Sched) × (ss' : Cells) × (ws : Cells) × Woken s ss ss' ws
    × (wakeup_sleeping_processes s ≡ some (tt, s'))
    × IsLeaving s' (rs ++ ws) ss'
    × Same s s'

-- an assignment to a process that keeps its flags
keeps_going :
    (s : Sched) (v p : Ptr) (q q' r : Process)
    → s.processes v ≡ some q
    → s.processes p ≡ some r
    → r.running ≡ true
    → r.finished ≡ false
    → q'.running ≡ q.running
    → q'.finished ≡ q.finished
    → (r' : Process) × ((with_process s v q').processes p ≡ some r')
      × (r'.running ≡ true)
      × (r'.finished ≡ false)
unfolding with_process
keeps_going s v p q q' r at ap' on f e g = elim (Bool-cases (v == p)) [
  | inl i ↦
      let vp : v ≡ p = ground (arith, i) in
      let qr : some q ≡ some r = sym at ∙ ap s.processes vp ∙ ap' in
      let same : q ≡ r = cc qr in
      (
        q',
        rw i refl,
        e ∙ ap (λ (x : Process). x.running) same ∙ on,
        g ∙ ap (λ (x : Process). x.finished) same ∙ f,
      )
  | inr i ↦ (r, rw i ap', on, f)
]

woken-Leaving :
    (s : Sched) (rs ys : Cells) (a v : Ptr) (zs : Cells) (q : Process)
    → rs ≢ []
    → Early s ys
    → s.processes v ≡ some q
    → ltb q.sleep_ticks s.tick_count ≡ true
    → IsLeaving s rs (ys ++ (a, v) ∷ zs)
    → Leaving s rs (ys ++ (a, v) ∷ zs)
woken-Leaving s rs ys a v zs q ne early at due t =
    let (s', w, valid', procs, same, leaves) =
      wakeup-woken s rs ys a v zs q t.lists early at due (inr ne) in
    let awoken = awake s rs ys a v zs q t.lists at in
    let (by, (bv, bz)) =
      Each-split (Busy s.kernel_idle_task s.processes) ys ((a, v) ∷ zs) t.asleep_busy in
    let (_, (r, at', f)) = bv in
    let qr : some q ≡ some r = sym at ∙ at' in
    let e : q ≡ r = cc qr in
    let fin : q.finished ≡ false = ap (λ (p : Process). p.finished) e ∙ f in
    let busy = λ (xs : Cells). Busy-assigned s s' v awoken xs same.idle procs fin in
    let (r', at_r, on, off) =
      keeps_going s v s.current_process q awoken t.process at t.at_process t.going t.unfinished refl
        refl in
    (
      s',
      ys ++ zs,
      (a, v) ∷ [],
      first_due ys a v zs q early at due,
      w,
      record {
        lists = valid';
        some_process = λ n. t.some_process (sym same.current ∙ n);
        process = r';
        at_process = ap s'.processes same.current ∙ ap (λ g. g s.current_process) procs ∙ at_r;
        going = on;
        unfinished = off;
        ready_busy =
            Each-append _ rs ((a, v) ∷ []) (busy rs t.ready_busy) (busy ((a, v) ∷ []) (bv, tt));
        asleep_busy = Each-append _ ys zs (busy ys by) (busy zs bz);
      },
      same,
    )

pub wakeup-Leaving : (s : Sched) (rs ss : Cells) → rs ≢ [] → IsLeaving s rs ss → Leaving s rs ss
unfolding FirstDue
wakeup-Leaving s rs ss ne t = elim (due-cases s ss t.asleep_busy) [
  | inl early ↦ (
    s,
    ss,
    [],
    none_due ss early,
    wakeup-Early s ss t.lists.asleep t.lists.asleep_owned early,
    subst (λ rs. IsLeaving s rs ss) (sym (append-nil rs)) t,
    record { current = refl; idle = refl; ticks = refl },
  )
  | inr (ys, a, v, zs, q, e, early, at, due) ↦
      subst (λ ss. IsLeaving s rs ss → Leaving s rs ss) e
        (λ t. woken-Leaving s rs ys a v zs q ne early at due t) t
]
