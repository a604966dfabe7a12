-- ===== src/Process/Scheduler/Queue.antt =====
-- What the two lists of the scheduler hold, and putting a process into the queue.
use os.Prelude.{
  suc, ◌+◌, ◌^◌, ◌<◌, ◌≡◌, ◌≢◌, refl, subst, true, false, [], ◌∷◌, ◌++◌, Option, some, ◌==◌, length,
  arith, Bool-cases, inl, inr,
}
use os.Util.Linked.{Ptr, null, Node, node, Store, Linked, load}
use os.Util.Linked.Seg.{Cells, first_or, last_or, has, Seg, IsList, has-ne}
use os.Util.Linked.Append.{list_append-IsList, list_append-spares}
use os.Util.Linked.Unhook.{first_or-mem}
use os.Util.Linked.Delete.{list_dequeue-IsList}
use os.Util.Linked.Delete.Spares.{list_dequeue-spares, list_dequeue-cell}
use os.Process.Scheduler.{Process, Sched, make_process_ready, next_ready_process}

-- no node of the first list is in the second
abbrev pub Apart : Cells → Cells → Type 0
Apart [] ys = Unit
Apart ((a, v) ∷ xs) ys = (has a ys ≡ false) × Apart xs ys

-- each process of the list owns its node
abbrev pub Owned : (Ptr → Option Process) → Cells → Type 0
Owned procs [] = Unit
Owned procs ((a, v) ∷ xs) =
    (v ≢ null) × ((q : Process) × (procs v ≡ some q) × (q.sched_node ≡ a)) × Owned procs xs

-- The ready queue consists of the nodes `rs`, and the list of sleeping processes of `ss`.
pub record IsSched (s : Sched) (rs ss : Cells) : Type 0 where
  pub ready : IsList s.nodes s.process_ready_queue rs
  pub asleep : IsList s.nodes s.process_sleeping_list ss
  pub apart : Apart rs ss
  pub ready_owned : Owned s.processes rs
  pub asleep_owned : Owned s.processes ss
  pub room : suc (length rs + length ss) < 2 ^ 64

pub Owned-append :
    (procs : Ptr → Option Process) (xs ys : Cells)
    → Owned procs xs
    → Owned procs ys
    → Owned procs (xs ++ ys)
Owned-append procs [] ys h k = k
Owned-append procs ((a, v) ∷ xs) ys (ne, o, h) k = (ne, o, Owned-append procs xs ys h k)

pub Owned-split :
    (procs : Ptr → Option Process) (xs ys : Cells)
    → Owned procs (xs ++ ys)
    → Owned procs xs × Owned procs ys
Owned-split procs [] ys h = (tt, h)
Owned-split procs ((a, v) ∷ xs) ys (ne, o, h) =
    let (l, r) = Owned-split procs xs ys h in ((ne, o, l), r)

pub Apart-has : (p : Ptr) (xs ys : Cells) → has p xs ≡ true → Apart xs ys → has p ys ≡ false
Apart-has p [] ys i k = absurd (cc i)
Apart-has p ((a, v) ∷ xs) ys i (o, k) = elim (Bool-cases (p == a)) [
  | inl e ↦ let q : a ≡ p = ground (arith, e) in subst (λ x. has x ys ≡ false) q o
  | inr e ↦ Apart-has p xs ys (ground (arith, i, e)) k
]

pub Apart-append : (xs ys zs : Cells) → Apart xs zs → Apart ys zs → Apart (xs ++ ys) zs
Apart-append [] ys zs h k = k
Apart-append ((a, v) ∷ xs) ys zs (o, h) k = (o, Apart-append xs ys zs h k)

-- the last node of a list is in it
pub last_or-has : (x : Ptr × Ptr) (xs : Cells) → has (last_or null (x ∷ xs)) (x ∷ xs) ≡ true
last_or-has (a, v) [] = ground arith
last_or-has (a, v) ((b, w) ∷ xs) = ground (arith, last_or-has (b, w) xs)

pub last_or-inside : (xs : Cells) → xs ≢ [] → has (last_or null xs) xs ≡ true
last_or-inside [] ne = absurd (ne refl)
last_or-inside (x ∷ xs) ne = last_or-has x xs

pub last_or-Apart : (xs ys : Cells) → Apart xs ys → xs ≢ [] → has (last_or null xs) ys ≡ false
last_or-Apart [] ys k ne = absurd (ne refl)
last_or-Apart (x ∷ xs) ys k ne = Apart-has (last_or null (x ∷ xs)) (x ∷ xs) ys (last_or-has x xs) k

-- A list in a store whose stretch of nodes has been spared.
pub IsList-spared :
    (h h' : Store) (l : Linked) (xs : Cells) → IsList h l xs → Seg h' null null xs → IsList h' l xs
IsList-spared h h' l xs is s = record {
  seg = s;
  distinct = is.distinct;
  head = is.head;
  tail = is.tail;
  count = is.count;
  small = is.small;
}

-- what an operation leaves of the other variables
pub record Same (s s' : Sched) : Type 0 where
  pub current : s'.current_process ≡ s.current_process
  pub idle : s'.kernel_idle_task ≡ s.kernel_idle_task
  pub ticks : s'.tick_count ≡ s.tick_count

-- every node but those of the list is as it was
abbrev pub Leaves : Sched → Sched → Cells → Type 0
Leaves s s' xs =
    (c : Ptr) (m : Node) → c ≢ null → has c xs ≡ false → s.nodes c ≡ some m → s'.nodes c ≡ some m

-- a single node as a stretch
pub alone :
    (h : Store) (c : Ptr) (m : Node)
    → c ≢ null
    → h c ≡ some m
    → Seg h m.prev m.next ((c, m.payload) ∷ [])
alone h c m ne e = (ne, e, tt)

pub apart_alone :
    (p c : Ptr) (v : Ptr) (xs : Cells)
    → has p xs ≡ true
    → has c xs ≡ false
    → has p ((c, v) ∷ []) ≡ false
apart_alone p c v xs i o = let ne = has-ne p c xs i o in ground (arith, ne)

pub make_process_ready-IsSched :
    (s : Sched) (rs ss : Cells) (p a : Ptr) (q : Process) (n : Node)
    → IsList s.nodes s.process_ready_queue rs
    → IsList s.nodes s.process_sleeping_list ss
    → Apart rs ss
    → p ≢ null
    → s.processes p ≡ some q
    → q.sched_node ≡ a
    → a ≢ null
    → s.nodes a ≡ some n
    → has a rs ≡ false
    → has a ss ≡ false
    → (rs ≡ [] → n.prev ≡ null)
    → suc (length rs) < 2 ^ 64
    → (s' : Sched) × (make_process_ready p s ≡ some (tt, s'))
      × IsList s'.nodes s'.process_ready_queue (rs ++ (a, n.payload) ∷ [])
      × IsList s'.nodes s'.process_sleeping_list ss
      × (s'.processes ≡ s.processes)
      × Same s s'
      × Leaves s s' ((a, n.payload) ∷ rs)
unfolding make_process_ready
make_process_ready-IsSched s rs ss p a q n ir is k pn pe own an ae o o' clean room =
    let (l', h', e, ir') =
      list_append-IsList s.nodes s.process_ready_queue rs a n ir an ae o room clean in
    let spared =
      list_append-spares s.nodes s.process_ready_queue rs a n ir an ae o room clean null null ss o'
        (last_or-Apart rs ss k) is.seg in
    (
      record s { nodes = h'; process_ready_queue = l' },
      ground (arith, pe, own, e),
      ir',
      IsList-spared s.nodes h' s.process_sleeping_list ss is spared,
      refl,
      record { current = refl; idle = refl; ticks = refl },
      λ c m cn co ce.
          (list_append-spares s.nodes s.process_ready_queue rs a n ir an ae o room clean m.prev
            m.next ((c, m.payload) ∷ []) (ground (arith, co))
            (λ q.
              apart_alone (last_or null rs) c m.payload rs (last_or-inside rs q)
                (ground (arith, co)))
            (alone s.nodes c m cn ce)).1,
    )

Apart-flip : (a : Ptr) (v : Ptr) (xs ys : Cells) → Apart xs ((a, v) ∷ ys) → Apart xs ys
Apart-flip a v [] ys k = tt
Apart-flip a v ((b, w) ∷ xs) ys (o, k) = (ground (arith, o), Apart-flip a v xs ys k)

-- The first process of the queue leaves it, and no other changes its place.
pub next_ready_process-first :
    (s : Sched) (a p : Ptr) (rs ss : Cells)
    → IsList s.nodes s.process_ready_queue ((a, p) ∷ rs)
    → IsList s.nodes s.process_sleeping_list ss
    → Apart ((a, p) ∷ rs) ss
    → (s' : Sched) × (next_ready_process s ≡ some (p, s'))
      × IsList s'.nodes s'.process_ready_queue rs
      × IsList s'.nodes s'.process_sleeping_list ss
      × (s'.nodes a ≡ some (node (first_or null rs) null p))
      × (s'.processes ≡ s.processes)
      × Same s s'
unfolding next_ready_process load
next_ready_process-first s a p rs ss ir is (o, k) =
    let (l', h', e, ir') = list_dequeue-IsList s.nodes s.process_ready_queue a p rs ir in
    let cell = list_dequeue-cell s.nodes s.process_ready_queue a p rs ir in
    let spared =
      list_dequeue-spares s.nodes s.process_ready_queue a p rs ir null null ss
        (λ q. Apart-has (first_or null rs) rs ss (first_or-mem rs q) k) is.seg in
    let head : s.process_ready_queue.head ≡ a = ir.head in
    let ne = ir.seg.0 in
    (
      record s { nodes = h'; process_ready_queue = l' },
      ground (arith, e, cell, head, ne),
      ir',
      IsList-spared s.nodes h' s.process_sleeping_list ss is spared,
      cell,
      refl,
      record { current = refl; idle = refl; ticks = refl },
    )

-- Where no process is ready, the idle task is next.
pub next_ready_process-idle :
    (s : Sched)
    → IsList s.nodes s.process_ready_queue []
    → next_ready_process s ≡ some (s.kernel_idle_task, s)
unfolding next_ready_process
next_ready_process-idle s ir = let head = ir.head in ground (arith, head)
