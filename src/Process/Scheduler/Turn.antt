-- ===== src/Process/Scheduler/Turn.antt =====
-- A process has the processor, others are ready or asleep; what waking makes of that.
use os.Prelude.{
  suc, ◌+◌, ◌^◌, ◌<◌, ◌≡◌, ◌≢◌, refl, sym, ap, subst, ◌∙◌, true, false, [], ◌∷◌, ◌++◌, Option, some,
  ◌==◌, ltb, length, length-append, arith, Bool-cases, inl, inr, ◌⊎◌,
}
use mathlib.Core.List.{append-nil}
use os.Util.Linked.{Ptr, null, node}
use os.Util.Linked.Seg.{Cells, has, has-append}
use os.Process.Scheduler.{Process, Sched, with_process, wakeup_sleeping_processes}
use os.Process.Scheduler.Queue.{IsSched, Same, Leaves}
use os.Process.Scheduler.Wake.{Early, awake, owner, has-none}
use os.Process.Scheduler.Wakeup.{wakeup-Early, wakeup-woken}

abbrev pub Each : (Ptr → Type 0) → Cells → Type 0
Each P [] = Unit
Each P ((a, v) ∷ xs) = P v × Each P xs

pub Each-append : (P : Ptr → Type 0) (xs ys : Cells) → Each P xs → Each P ys → Each P (xs ++ ys)
Each-append P [] ys f g = g
Each-append P (x ∷ xs) ys (p, f) g = (p, Each-append P xs ys f g)

pub Each-split : (P : Ptr → Type 0) (xs ys : Cells) → Each P (xs ++ ys) → Each P xs × Each P ys
Each-split P [] ys f = (tt, f)
Each-split P (x ∷ xs) ys (p, f) = let (l, r) = Each-split P xs ys f in ((p, l), r)

pub Each-map : (P Q : Ptr → Type 0) (xs : Cells) → ((v : Ptr) → P v → Q v) → Each P xs → Each Q xs
Each-map P Q [] f g = tt
Each-map P Q ((a, v) ∷ xs) f (p, g) = (f v p, Each-map P Q xs f g)

pub has-neither :
    (p : Ptr) (xs ys : Cells) → has p xs ≡ false → has p ys ≡ false → has p (xs ++ ys) ≡ false
has-neither p xs ys o o' = ground (arith, has-append p xs ys, o, o')

-- a process that has not finished, other than the idle task
abbrev pub Busy : Ptr → (Ptr → Option Process) → Ptr → Type 0
Busy idle procs v = (v ≢ idle) × ((q : Process) × (procs v ≡ some q) × (q.finished ≡ false))

pub Busy-with_process :
    (s : Sched) (idle p : Ptr) (q' : Process) (v : Ptr)
    → q'.finished ≡ false
    → Busy idle s.processes v
    → Busy idle (with_process s p q').processes v
unfolding with_process
Busy-with_process s idle p q' v f (ne, (q, at, g)) = elim (Bool-cases (p == v)) [
  | inl e ↦ (ne, (q', rw e refl, f))
  | inr e ↦ (ne, (q, rw e at, g))
]

pub Busy-moved :
    (idle idle' : Ptr) (procs procs' : Ptr → Option Process) (v : Ptr)
    → idle' ≡ idle
    → procs' ≡ procs
    → Busy idle procs v
    → Busy idle' procs' v
Busy-moved idle idle' procs procs' v i e (ne, (q, at, f)) =
    (λ r. ne (r ∙ i), (q, ap (λ g. g v) e ∙ at, f))

-- The process `c`, whose node is `n`, runs; it is in neither list, and no process that is in one, nor
-- `c`, has finished or is the idle task.
pub record IsTurn (s : Sched) (rs ss : Cells) (c n : Ptr) : Type 0 where
  pub lists : IsSched s rs ss
  pub current : s.current_process ≡ c
  pub some_process : c ≢ null
  pub not_idle : c ≢ s.kernel_idle_task
  pub process : Process
  pub at_process : s.processes c ≡ some process
  pub own : process.sched_node ≡ n
  pub going : process.running ≡ true
  pub unfinished : process.finished ≡ false
  pub some_node : n ≢ null
  pub link : Ptr
  pub at_node : s.nodes n ≡ some (node link null c)
  pub not_ready : has n rs ≡ false
  pub not_asleep : has n ss ≡ false
  pub ready_busy : Each (Busy s.kernel_idle_task s.processes) rs
  pub asleep_busy : Each (Busy s.kernel_idle_task s.processes) ss
  pub room : suc (suc (length rs + length ss)) < 2 ^ 64

-- Which of the sleeping processes `ss` is woken: none where no time has come, or else the first
-- whose time has come. The rest is `ss'`.
pub data Woken (s : Sched) : Cells → Cells → Cells → Type 0 where
  none_due : (ss : Cells) → Early s ss → Woken s ss ss []
  first_due :
      (ys : Cells) (a v : Ptr) (zs : Cells) (q : Process)
      → Early s ys
      → s.processes v ≡ some q
      → ltb q.sleep_ticks s.tick_count ≡ true
      → Woken s (ys ++ (a, v) ∷ zs) (ys ++ zs) ((a, v) ∷ [])

unfoldable pub FirstDue : Sched → Cells → Type 0
FirstDue s ss =
    (ys : Cells) × (a : Ptr) × (v : Ptr) × (zs : Cells) × (q : Process) × (ys ++ (a, v) ∷ zs ≡ ss)
    × Early s ys
    × (s.processes v ≡ some q)
    × (ltb q.sleep_ticks s.tick_count ≡ true)

pub due-cases :
    (s : Sched) (ss : Cells)
    → Each (Busy s.kernel_idle_task s.processes) ss
    → Early s ss ⊎ FirstDue s ss
unfolding FirstDue
due-cases s [] b = inl tt
due-cases s ((a, v) ∷ ss) ((ne, (q, at, f)), b) =
    elim (Bool-cases (ltb q.sleep_ticks s.tick_count)) [
      | inl e ↦ inr ([], a, v, ss, q, refl, tt, at, e)
      | inr e ↦ elim (due-cases s ss b) [
        | inl early ↦ inl ((q, at, e), early)
        | inr (ys, b, w, zs, r, i, early, at', due) ↦
            inr ((a, v) ∷ ys, b, w, zs, r, ap (λ xs. (a, v) ∷ xs) i, ((q, at, e), early), at', due)
      ]
    ]

-- Waking leaves the process that runs alone.
abbrev pub Waking : Sched → Cells → Cells → Ptr → Ptr → Type 0
Waking s rs ss c n =
    (s' : Sched) × (ss' : Cells) × (ws : Cells) × Woken s ss ss' ws
    × (wakeup_sleeping_processes s ≡ some (tt, s'))
    × IsTurn s' (rs ++ ws) ss' c n
    × Same s s'

module _ (s : Sched) (rs ys : Cells) (a v : Ptr) (zs : Cells) (q : Process) (c n : Ptr)
    (at : s.processes v ≡ some q) (t : IsTurn s rs (ys ++ (a, v) ∷ zs) c n) where
  abbrev awoken : Process
  awoken = awake s rs ys a v zs q t.lists at

  outside_parts : (has n ys ≡ false) × (n ≢ a) × (has n zs ≡ false)
  outside_parts =
      let (y, z) = has-none n ys ((a, v) ∷ zs) t.not_asleep in
      (y, ground (arith, z), ground (arith, z))

  sleeper_busy : q.finished ≡ false
  sleeper_busy =
      let (_, ((_, (r, at', f)), _)) = Each-split _ ys ((a, v) ∷ zs) t.asleep_busy in
      let qr : some q ≡ some r = sym at ∙ at' in
      let e : q ≡ r = cc qr in ap (λ (p : Process). p.finished) e ∙ f

  other : v ≢ c
  other e =
      let (_, own) = owner s rs ys a v zs q t.lists at in
      let (_, na, _) = outside_parts in
      let same : some t.process ≡ some q = sym t.at_process ∙ ap s.processes (sym e) ∙ at in
      let tq : t.process ≡ q = cc same in
      na (sym t.own ∙ ap (λ (p : Process). p.sched_node) tq ∙ own)

  others : (with_process s v awoken).processes c ≡ some t.process
  unfolding with_process
  others = let ne = other in ground (arith, t.at_process, ne)

  still-Busy :
      (s' : Sched)
      → s'.kernel_idle_task ≡ s.kernel_idle_task
      → s'.processes ≡ (with_process s v awoken).processes
      → (xs : Cells) → Each (Busy s.kernel_idle_task s.processes) xs
      → Each (Busy s'.kernel_idle_task s'.processes) xs
  still-Busy s' i e xs =
      Each-map (Busy s.kernel_idle_task s.processes) (Busy s'.kernel_idle_task s'.processes) xs
        λ w b.
          Busy-moved s.kernel_idle_task s'.kernel_idle_task _ s'.processes w i e
            (Busy-with_process s s.kernel_idle_task v awoken w sleeper_busy b)

  woken-IsTurn :
      (s' : Sched)
      → IsSched s' (rs ++ (a, v) ∷ []) (ys ++ zs)
      → s'.processes ≡ (with_process s v awoken).processes
      → Same s s'
      → Leaves s s' (rs ++ (ys ++ (a, v) ∷ zs))
      → IsTurn s' (rs ++ (a, v) ∷ []) (ys ++ zs) c n
  woken-IsTurn s' valid' procs same leaves =
      let (ny, na, nz) = outside_parts in
      let (by, bz) = Each-split _ ys ((a, v) ∷ zs) t.asleep_busy in
      let busy = still-Busy s' same.idle procs in
      record {
        lists = valid';
        current = same.current ∙ t.current;
        some_process = t.some_process;
        not_idle = λ e. t.not_idle (e ∙ same.idle);
        process = t.process;
        at_process = ap (λ f. f c) procs ∙ others;
        own = t.own;
        going = t.going;
        unfinished = t.unfinished;
        some_node = t.some_node;
        link = t.link;
        at_node =
            leaves n (node t.link null c) t.some_node
              (has-neither n rs (ys ++ (a, v) ∷ zs) t.not_ready t.not_asleep) t.at_node;
        not_ready = has-neither n rs ((a, v) ∷ []) t.not_ready (ground (arith, na));
        not_asleep = has-neither n ys zs ny nz;
        ready_busy =
            Each-append _ rs ((a, v) ∷ []) (busy rs t.ready_busy) (busy ((a, v) ∷ []) (bz.0, tt));
        asleep_busy = Each-append _ ys zs (busy ys by) (busy zs bz.1);
        room = omega (
          arith,
          t.room,
          length-append rs ((a, v) ∷ []),
          length-append ys zs,
          length-append ys ((a, v) ∷ zs),
        );
      }

  woken-Waking :
      rs ≢ []
      → Early s ys
      → ltb q.sleep_ticks s.tick_count ≡ true
      → Waking s rs (ys ++ (a, v) ∷ zs) c n
  woken-Waking ne early due =
      let (s', w, valid', procs, same, leaves) =
        wakeup-woken s rs ys a v zs q t.lists early at due (inr ne) in
      (
        s',
        ys ++ zs,
        (a, v) ∷ [],
        first_due ys a v zs q early at due,
        w,
        woken-IsTurn s' valid' procs same leaves,
        same,
      )

pub wakeup-Waking :
    (s : Sched) (rs ss : Cells) (c n : Ptr) → rs ≢ [] → IsTurn s rs ss c n → Waking s rs ss c n
unfolding FirstDue
wakeup-Waking s rs ss c n ne t = elim (due-cases s ss t.asleep_busy) [
  | inl early ↦ (
    s,
    ss,
    [],
    none_due ss early,
    wakeup-Early s ss t.lists.asleep t.lists.asleep_owned early,
    subst (λ rs. IsTurn s rs ss c n) (sym (append-nil rs)) t,
    record { current = refl; idle = refl; ticks = refl },
  )
  | inr (ys, a, v, zs, q, e, early, at, due) ↦
      subst (λ ss. IsTurn s rs ss c n → Waking s rs ss c n) e
        (λ t. woken-Waking s rs ys a v zs q c n at t ne early due) t
]
