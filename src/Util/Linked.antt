-- ===== src/Util/Linked.antt =====
-- The doubly linked list, kernel/src/util/list.c. Nodes stand at addresses of a store; a `list_t`
-- is passed and returned by value. `none` is a read or write at an address that holds no node,
-- which NULL never does, or a failed ASSERT.
pub mod Seg
pub mod Append
pub mod Unhook
pub mod Delete
pub mod Walk
pub mod Merge
mod Tests
use os.Prelude.{
  ℕ, zero, suc, ◌+◌, ◌-◌, ◌%◌, ◌^◌, Bool, true, false, List, [], ◌∷◌, Option, none, some,
  if◌then◌else◌, ◌==◌, ltb,
}

abbrev pub Ptr : Type 0
Ptr = ℕ

abbrev pub null : Ptr
null = 0

-- `list_node_t`
pub record Node : Type 0 where
  pub next : Ptr
  pub prev : Ptr
  pub payload : Ptr

abbrev pub node : Ptr → Ptr → Ptr → Node
node n p v = record { next = n; prev = p; payload = v }

abbrev pub Store : Type 0
Store = Ptr → Option Node

-- `list_t`
pub record Linked : Type 0 where
  pub head : Ptr
  pub tail : Ptr
  pub length : ℕ

abbrev pub list : Ptr → Ptr → ℕ → Linked
list h t n = record { head = h; tail = t; length = n }

abbrev pub Cmd : Type 0 → Type 0
Cmd A = Store → Option (A × Store)

abbrev pub pure : {A : Type 0} → A → Cmd A
pure a h = some (a, h)

abbrev pub fault : {A : Type 0} → Cmd A
fault h = none

infixl 5 ◌>>=◌ ◌>>◌
abbrev pub ◌>>=◌ : {A B : Type 0} → Cmd A → (A → Cmd B) → Cmd B
◌>>=◌ m k h = elim (m h) [ none ↦ none | some (a, h') ↦ k a h' ]

abbrev pub ◌>>◌ : {B : Type 0} → Cmd (Unit {0}) → Cmd B → Cmd B
m >> k = m >>= λ _. k

unfoldable pub write : Store → Ptr → Option Node → Store
write h p c q = if p == q then c else h q

unfoldable pub load : Ptr → Cmd Node
load p h = elim (if p == null then none else h p) [ none ↦ none | some n ↦ some (n, h) ]

unfoldable pub store : Ptr → Node → Cmd (Unit {0})
store p n h = some (tt, write h p (some n))

-- `p->next = q` and `p->prev = q`
unfoldable pub set_next : Ptr → Ptr → Cmd (Unit {0})
set_next p q = do n ← load p; store p (record n { next = q })

unfoldable pub set_prev : Ptr → Ptr → Cmd (Unit {0})
set_prev p q = do n ← load p; store p (record n { prev = q })

-- `list_create` of memory that `malloc` gave
abbrev pub list_create : Linked
list_create = list null null 0

-- `size_t` steps of `length`
abbrev pub succ : ℕ → ℕ
succ n = (n + 1) % 2 ^ 64

abbrev pub prec : ℕ → ℕ
prec n = (n + 2 ^ 64 - 1) % 2 ^ 64

unfoldable pub list_append : Linked → Ptr → Cmd Linked
list_append l item = if item == null then fault else do
  set_next item null
  if l.tail == null
      then pure (list item item (succ l.length))
      else do set_next l.tail item; set_prev item l.tail; pure (list l.head item (succ l.length))

-- `fresh` is what `malloc` returns; the result is 0 where that is NULL.
unfoldable pub list_insert : (fresh : Ptr) → Linked → Ptr → Cmd (Bool × Linked)
list_insert fresh l item =
    if fresh == null
    then pure (false, l)
    else do store fresh (node null null item); l' ← list_append l fresh; pure (true, l')

unfoldable pub list_delete : Linked → Ptr → Cmd Linked
list_delete l p = if p == null then fault else do
  n ← load p
  (if n.prev == null then pure tt else set_next n.prev n.next)
  (if n.next == null then pure tt else set_prev n.next n.prev)
  pure (
      list (if p == l.head then n.next else l.head) (if p == l.tail then n.prev else l.tail)
        (prec l.length))

unfoldable pub list_pop : Linked → Cmd (Ptr × Linked)
list_pop l =
    if l.tail == null then pure (null, l) else do l' ← list_delete l l.tail; pure (l.tail, l')

unfoldable pub list_dequeue : Linked → Cmd (Ptr × Linked)
list_dequeue l =
    if l.head == null then pure (null, l) else do l' ← list_delete l l.head; pure (l.head, l')

-- The loop of `list_find` and `list_find_comp` from a node on; `hit` is the test. The fuel counts
-- the nodes that are left.
unfoldable pub find_from : ℕ → (Ptr → Bool) → Ptr → Cmd Ptr
find_from zero hit p = fault
find_from (suc k) hit p =
    if p == null
    then pure null
    else do n ← load p; if hit n.payload then pure p else find_from k hit n.next

unfoldable pub list_find : Linked → Ptr → Cmd Ptr
unfolding find_from
list_find l value = find_from (suc l.length) (λ v. v == value) l.head

unfoldable pub list_find_comp : Linked → Ptr → (Ptr → Ptr → Bool) → Cmd Ptr
unfolding find_from
list_find_comp l value func = find_from (suc l.length) (λ v. func v value) l.head

-- the loop of `list_remove`
unfoldable pub step_from : ℕ → Ptr → Cmd Ptr
step_from zero p = pure p
step_from (suc i) p = do n ← load p; step_from i n.next

unfoldable pub list_remove : Linked → ℕ → Cmd Linked
unfolding step_from
list_remove l index =
    if ltb l.length index then pure l else do p ← step_from index l.head; list_delete l p

-- `list_merge`, which returns the new `*dest`; `source` itself is given back to the heap.
unfoldable pub list_merge : Linked → Linked → Cmd Linked
list_merge dest source = do
  (if dest.tail == null then pure tt else set_next dest.tail source.head)
  pure (
      list (if dest.tail == null then source.head else dest.head)
        (if source.tail == null then dest.tail else source.tail)
        ((dest.length + source.length) % 2 ^ 64))

-- The loop of `list_copy`, for so many rounds: `node` is never advanced. Each round takes the next
-- address that `malloc` gives, and a NULL fails the ASSERT. The result says whether the loop
-- ended.
unfoldable pub copy_rounds : ℕ → (ℕ → Ptr) → Linked → Ptr → Cmd (Bool × Linked)
copy_rounds zero fresh out p = pure (p == null, out)
copy_rounds (suc k) fresh out p = if p == null then pure (true, out) else do
  n ← load p
  (made, out') ← list_insert (fresh k) out n.payload
  if made then copy_rounds k fresh out' p else fault
