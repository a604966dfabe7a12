-- ===== src/Process/Scheduler/Wake.antt =====
-- Waking the sleeping processes.
use os.Prelude.{
  ℕ, suc, ◌+◌, ◌≡◌, ◌≢◌, refl, sym, ap, Bool, ◌||◌, subst, ◌∙◌, true, false, [], ◌∷◌, ◌++◌, some,
  if◌then◌else◌, ◌==◌, ltb, length, length-append, arith, Bool-cases, inl, inr, ◌⊎◌,
}
use os.Util.Linked.{Ptr, null, Node, node, load}
use os.Util.Linked.Seg.{Cells, first_or, last_or, has, has-append, Distinct, Seg, Seg-split}
use os.Util.Linked.Unhook.{Distinct-split, last_or-mem, first_or-mem}
use os.Util.Linked.Delete.{delete-outcome}
use os.Util.Linked.Delete.Spares.{list_delete-spares, list_delete-cell}
use os.Process.Scheduler.{Process, Sched, with_process, wake, wake_from}
use os.Process.Scheduler.Queue.{
  Apart, Owned, IsSched, Owned-append, Owned-split, Apart-append, IsList-spared, Same, Leaves,
  alone, apart_alone, make_process_ready-IsSched,
}

-- the time of no process of the list has come
abbrev pub Early : Sched → Cells → Type 0
Early s [] = Unit
Early s ((a, v) ∷ xs) =
    ((q : Process) × (s.processes v ≡ some q) × (ltb q.sleep_ticks s.tick_count ≡ false))
    × Early s xs

-- as many rounds as a list has nodes, and `k` more
abbrev pub rounds : Cells → ℕ → ℕ
rounds [] k = k
rounds (x ∷ xs) k = suc (rounds xs k)

pub rounds-length : (xs : Cells) (k : ℕ) → rounds xs k ≡ length xs + k
rounds-length [] k = omega arith
rounds-length (x ∷ xs) k = omega (arith, rounds-length xs k)

-- The loop passes over processes whose time has not come.
pub wake_from-Early :
    (s : Sched) (start end : Ptr) (xs : Cells) (k : ℕ)
    → Seg s.nodes start end xs
    → Owned s.processes xs
    → Early s xs
    → wake_from (rounds xs k) (first_or end xs) s ≡ wake_from k end s
unfolding wake_from load
wake_from-Early s start end [] k g o e = refl
wake_from-Early s start end ((a, v) ∷ xs) k (ne, c, g) (vn, _, o) ((q, at, early), e) =
    ground (arith, c, at, early, wake_from-Early s a end xs k g o e)

-- a node of the second list is not in the first
pub Apart-has_behind : (p : Ptr) (xs ys : Cells) → has p ys ≡ true → Apart xs ys → has p xs ≡ false
Apart-has_behind p [] ys i k = refl
Apart-has_behind p ((a, v) ∷ xs) ys i (o, k) = elim (Bool-cases (p == a)) [
  | inl e ↦
      let q : a ≡ p = ground (arith, e) in
      absurd (let f : false ≡ true = sym (subst (λ x. has x ys ≡ false) q o) ∙ i in cc f)
  | inr e ↦ rw e (Apart-has_behind p xs ys i k)
]

Apart-without :
    (xs ys : Cells) (a v : Ptr) (zs : Cells) → Apart xs (ys ++ (a, v) ∷ zs) → Apart xs (ys ++ zs)
Apart-without [] ys a v zs k = tt
Apart-without ((b, w) ∷ xs) ys a v zs (o, k) = (
  ground (arith, o, has-append b ys ((a, v) ∷ zs), has-append b ys zs),
  Apart-without xs ys a v zs k,
)

pub Owned-with_process :
    (s : Sched) (v : Ptr) (q q' : Process) (xs : Cells)
    → s.processes v ≡ some q
    → q'.sched_node ≡ q.sched_node
    → Owned s.processes xs
    → Owned (with_process s v q').processes xs
unfolding with_process
Owned-with_process s v q q' [] e n o = tt
Owned-with_process s v q q' ((b, w) ∷ xs) e n (wn, (r, f, m), o) =
    (wn, owner, Owned-with_process s v q q' xs e n o)
  where
    owner :
        (r : Process) × ((if v == w then some q' else s.processes w) ≡ some r) × (r.sched_node ≡ b)
    owner = elim (Bool-cases (v == w)) [
      | inl i ↦
          let vw : v ≡ w = ground (arith, i) in
          let qr : some q ≡ some r = sym e ∙ ap s.processes vw ∙ f in
          (q', rw i refl, n ∙ (cc qr) ∙ m)
      | inr i ↦ (r, rw i f, m)
    ]

-- a node is in a list once
outside :
    (ys : Cells) (a v : Ptr) (zs : Cells) → Distinct (ys ++ (a, v) ∷ zs) → has a (ys ++ zs) ≡ false
outside ys a v zs d =
    let (dy, dz, az, apart) = Distinct-split ys a v zs d in
    elim (Bool-cases (has a ys)) [
      | inl i ↦ absurd (let f = apart a i in ground (arith, f))
      | inr i ↦ ground (arith, has-append a ys zs, i, az)
    ]

has-middle : (ys : Cells) (a v : Ptr) (zs : Cells) → has a (ys ++ (a, v) ∷ zs) ≡ true
has-middle ys a v zs = ground (arith, has-append a ys ((a, v) ∷ zs))

neither : (x y : Bool) → (x || y) ≡ false → (x ≡ false) × (y ≡ false)
neither true y e = absurd (cc e)
neither false y e = (refl, e)

-- a node of no list is none of either part
pub has-none :
    (p : Ptr) (xs ys : Cells) → has p (xs ++ ys) ≡ false → (has p xs ≡ false) × (has p ys ≡ false)
has-none p xs ys o = neither (has p xs) (has p ys) (sym (has-append p xs ys) ∙ o)

module _ (s : Sched) (rs ys : Cells) (a v : Ptr) (zs : Cells) (q : Process)
    (valid : IsSched s rs (ys ++ (a, v) ∷ zs)) (at : s.processes v ≡ some q) where
  abbrev pub awake : Process
  awake = record q { sleeping = false }

  -- the neighbours in the list of sleeping processes are not in the queue
  before_apart : last_or null ys ≢ null → has (last_or null ys) rs ≡ false
  before_apart ne =
      Apart-has_behind (last_or null ys) rs (ys ++ (a, v) ∷ zs)
        (ground (arith, has-append (last_or null ys) ys ((a, v) ∷ zs), last_or-mem ys ne))
        valid.apart

  behind_apart : first_or null zs ≢ null → has (first_or null zs) rs ≡ false
  behind_apart ne =
      Apart-has_behind (first_or null zs) rs (ys ++ (a, v) ∷ zs)
        (ground (arith, has-append (first_or null zs) ys ((a, v) ∷ zs), first_or-mem zs ne))
        valid.apart

  pub owner : (v ≢ null) × (q.sched_node ≡ a)
  owner =
      let (_, mine) = Owned-split s.processes ys ((a, v) ∷ zs) valid.asleep_owned in
      let (vn, (r, f, m), _) = mine in let qr : some q ≡ some r = sym at ∙ f in (vn, (cc qr) ∙ m)

  clean : (ys ≡ []) ⊎ (rs ≢ []) → rs ≡ [] → last_or null ys ≡ null
  clean (inl e) n = ap (last_or null) e
  clean (inr ne) n = absurd (ne n)

  Owned-behind :
      (with_process s v awake).processes v ≡ some awake
      → Owned (with_process s v awake).processes (rs ++ (a, v) ∷ [])
        × Owned (with_process s v awake).processes (ys ++ zs)
  Owned-behind mine =
      let procs = (with_process s v awake).processes in
      let (vn, own) = owner in
      let kept =
        λ (xs : Cells) (o : Owned s.processes xs). Owned-with_process s v q awake xs at refl o in
      let (oy, oz) = Owned-split s.processes ys ((a, v) ∷ zs) valid.asleep_owned in
      (
        Owned-append procs rs ((a, v) ∷ []) (kept rs valid.ready_owned)
            (vn, (awake, mine, own), tt),
        Owned-append procs ys zs (kept ys oy) (kept zs oz.2),
      )

  -- a node of neither list is none of those that the deletion writes
  first_outside :
      (c : Ptr) → has c (rs ++ (ys ++ (a, v) ∷ zs)) ≡ false → has c ((a, v) ∷ rs) ≡ false
  first_outside c o =
      let (r, o') = has-none c rs (ys ++ (a, v) ∷ zs) o in
      let (y, z) = has-none c ys ((a, v) ∷ zs) o' in ground (arith, r, z)

  still :
      (c : Ptr) (m : Node)
      → c ≢ null
      → has c (rs ++ (ys ++ (a, v) ∷ zs)) ≡ false
      → s.nodes c ≡ some m
      → (delete-outcome s.nodes s.process_sleeping_list ys a v zs valid.asleep).1 c ≡ some m
  still c m cn o e =
      let (r, o') = has-none c rs (ys ++ (a, v) ∷ zs) o in
      let (y, z) = has-none c ys ((a, v) ∷ zs) o' in
      let z' : has c zs ≡ false = ground (arith, z) in
      (list_delete-spares s.nodes s.process_sleeping_list ys a v zs valid.asleep m.prev m.next
        ((c, m.payload) ∷ [])
        (λ q. apart_alone (last_or null ys) c m.payload ys (last_or-mem ys q) y)
        (λ q. apart_alone (first_or null zs) c m.payload zs (first_or-mem zs q) z')
        (alone s.nodes c m cn e)).1

  pub wake-IsSched :
      (ys ≡ []) ⊎ (rs ≢ [])
      → (s' : Sched) × (wake a v q s ≡ some (tt, s'))
        × IsSched s' (rs ++ (a, v) ∷ []) (ys ++ zs)
        × (s'.processes ≡ (with_process s v awake).processes)
        × Same s s'
        × Leaves s s' (rs ++ (ys ++ (a, v) ∷ zs))
  unfolding wake with_process
  wake-IsSched cond =
      let (l, h, e, is) = delete-outcome s.nodes s.process_sleeping_list ys a v zs valid.asleep in
      let cell = list_delete-cell s.nodes s.process_sleeping_list ys a v zs valid.asleep in
      let spared =
        list_delete-spares s.nodes s.process_sleeping_list ys a v zs valid.asleep null null rs
          before_apart behind_apart valid.ready.seg in
      let (vn, own) = owner in
      let s2 = record (with_process s v awake) { nodes = h; process_sleeping_list = l } in
      let mine : s2.processes v ≡ some awake = ground arith in
      let parts = length-append ys ((a, v) ∷ zs) in
      let (s3, r, ir, is3, same_processes, same, leaves) =
        make_process_ready-IsSched s2 rs (ys ++ zs) v a awake
          (node (first_or null zs) (last_or null ys) v)
          (IsList-spared s.nodes h s.process_ready_queue rs valid.ready spared) is
          (Apart-without rs ys a v zs valid.apart) vn mine own
          (Seg-split s.nodes null null ys ((a, v) ∷ zs) valid.asleep.seg).1.0 cell
          (Apart-has_behind a rs (ys ++ (a, v) ∷ zs) (has-middle ys a v zs) valid.apart)
          (outside ys a v zs valid.asleep.distinct) (clean cond) (omega (arith, valid.room)) in
      let owned = Owned-behind mine in
      (
        s3,
        ground (arith, e, r),
        record {
          ready = ir;
          asleep = is3;
          apart =
              Apart-append rs ((a, v) ∷ []) (ys ++ zs) (Apart-without rs ys a v zs valid.apart)
                (outside ys a v zs valid.asleep.distinct, tt);
          ready_owned = subst (λ f. Owned f (rs ++ (a, v) ∷ [])) (sym same_processes) owned.0;
          asleep_owned = subst (λ f. Owned f (ys ++ zs)) (sym same_processes) owned.1;
          room =
              omega (arith, valid.room, parts, length-append rs ((a, v) ∷ []), length-append ys zs);
        },
        same_processes,
        record { current = same.current; idle = same.idle; ticks = same.ticks },
        λ c m cn co ce. leaves c m cn (first_outside c co) (still c m cn co ce),
      )
