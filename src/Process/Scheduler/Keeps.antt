-- ===== src/Process/Scheduler/Keeps.antt =====
-- What commands of the scheduler leave of a wedged queue.
use os.Prelude.{
  ◌≡◌, ◌≢◌, refl, sym, ap, subst, ◌∙◌, Bool, true, false, Option, none, some, if◌then◌else◌, ◌==◌,
  arith,
}
use os.Util.Linked.{Ptr, null, Store, Linked, Cmd, load, list_append, set_next, set_prev, store}
use os.Process.Scheduler.{Process, Sched, Kernel, pure, ◌>>=◌, on_nodes, put, process_at}
use os.Process.Scheduler.Wedge.{IsWedged}

-- what a command that succeeds makes of a wedged queue
abbrev pub Keeps : {A : Type 0} → Kernel A → Sched → Type 0
Keeps {A} m s = (a : A) (s' : Sched) → m s ≡ some (a, s') → IsWedged s'

-- the state behind a command
abbrev pub behind : {A : Type 0} → Sched → Option (A × Sched) → Sched
behind s none = s
behind s (some (a, t)) = t

abbrev pub result_or : {A : Type 0} → A → Option (A × Sched) → A
result_or a none = a
result_or a (some (b, t)) = b

bind-inverted :
    {A B : Type 0} (m : Kernel A) (k : A → Kernel B) (s s' : Sched) (b : B)
    → (m >>= k) s ≡ some (b, s')
    → (a : A) × (t : Sched) × (m s ≡ some (a, t)) × (k a t ≡ some (b, s'))
bind-inverted {A} {B} m k s s' b h = go (m s) refl h
  where
    go :
        (o : Option (A × Sched))
        → m s ≡ o
        → (elim o as (λ _. Option (B × Sched)) [ none ↦ none | some (a, t) ↦ k a t ]) ≡ some (b, s')
        → (a : A) × (t : Sched) × (m s ≡ some (a, t)) × (k a t ≡ some (b, s'))
    go none e h = absurd (cc h)
    go (some (a, t)) e h = (a, t, e, h)

-- a command behind another one
pub then-Keeps :
    {A B : Type 0} (m : Kernel A) (k : A → Kernel B) (s : Sched)
    → ((a : A) (t : Sched) → m s ≡ some (a, t) → Keeps (k a) t)
    → Keeps (m >>= k) s
then-Keeps m k s next b s' h = let (a, t, e, h') = bind-inverted m k s s' b h in next a t e b s' h'

-- commands that leave the queue alone
pub pure-Keeps : {A : Type 0} (a : A) (s : Sched) → IsWedged s → Keeps (pure a) s
pure-Keeps a s w b s' h = subst IsWedged (ap (behind s) h) w

process_at-same : (p : Ptr) (s s' : Sched) (q : Process) → process_at p s ≡ some (q, s') → s' ≡ s
process_at-same p s s' q h = go (if p == null then none else s.processes p) h
  where
    go :
        (o : Option Process)
        → (elim o as (λ _. Option (Process × Sched)) [ none ↦ none | some r ↦ some (r, s) ])
          ≡ some (q, s')
        → s' ≡ s
    go none h = absurd (cc h)
    go (some r) h = sym (ap (behind s) h)

on_nodes-queue :
    {A : Type 0} (c : Cmd A) (s s' : Sched) (a : A)
    → on_nodes c s ≡ some (a, s')
    → (h : Store) × (c s.nodes ≡ some (a, h)) × (s' ≡ record s { nodes = h })
on_nodes-queue {A} c s s' a e = go (c s.nodes) refl e
  where
    go :
        (o : Option (A × Store))
        → c s.nodes ≡ o
        → (elim o as (λ _. Option (A × Sched)) [
          | none ↦ none
          | some (b, h) ↦ some (b, record s { nodes = h })
        ])
          ≡ some (a, s')
        → (h : Store) × (c s.nodes ≡ some (a, h)) × (s' ≡ record s { nodes = h })
    go none i e = absurd (cc e)
    go (some (b, h)) i e =
        (h, i ∙ ap (λ x. some (x, h)) (ap (result_or a) e), sym (ap (behind s) e))

pub list_append-headless :
    (l l' : Linked) (a : Ptr) (h h' : Store)
    → l.tail ≢ null
    → list_append l a h ≡ some (l', h')
    → (l'.head ≡ l.head) × (l'.tail ≢ null)
unfolding list_append set_next set_prev load store
list_append-headless l l' a h h' t e = ground (arith, e)

pub if-Keeps :
    {A : Type 0} (b : Bool) (m n : Kernel A) (s : Sched)
    → Keeps m s
    → Keeps n s
    → Keeps (if b then m else n) s
if-Keeps true m n s h k = h
if-Keeps false m n s h k = k

-- reading a process, and commands on the nodes, in front of others
pub at-Keeps :
    {B : Type 0} (p : Ptr) (k : Process → Kernel B) (s : Sched)
    → IsWedged s
    → ((q : Process) → Keeps (k q) s)
    → Keeps (process_at p >>= k) s
at-Keeps p k s w next =
    then-Keeps (process_at p) k s
      (λ q t e. subst (λ t. Keeps (k q) t) (sym (process_at-same p s t q e)) (next q))

pub nodes-Keeps :
    {A B : Type 0} (c : Cmd A) (k : A → Kernel B) (s : Sched)
    → ((a : A) (h : Store) → c s.nodes ≡ some (a, h) → Keeps (k a) (record s { nodes = h }))
    → Keeps (on_nodes c >>= k) s
nodes-Keeps c k s next = then-Keeps (on_nodes c) k s (λ a t e.
    let (h, i, j) = on_nodes-queue c s t a e in subst (λ t. Keeps (k a) t) (sym j) (next a h i))

pub put-Keeps : (t s : Sched) → IsWedged t → Keeps (put t) s
put-Keeps t s w a s' h = subst IsWedged (ap (behind s) h) w

-- the other fields of a wedged state are free
pub Wedged-with :
    (s t : Sched) → t.process_ready_queue ≡ s.process_ready_queue → IsWedged s → IsWedged t
Wedged-with s t e w = record {
  no_head = ap (λ (l : Linked). l.head) e ∙ w.no_head;
  some_tail = λ q. w.some_tail (sym (ap (λ (l : Linked). l.tail) e) ∙ q);
}
