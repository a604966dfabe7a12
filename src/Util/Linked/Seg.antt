-- ===== src/Util/Linked/Seg.antt =====
-- Doubly linked segments: which nodes a stretch of a list consists of, and what keeps it intact.
use os.Prelude.{
  ◌≡◌, ◌≢◌, refl, Bool, true, false, ◌||◌, List, [], ◌∷◌, ◌++◌, Option, none, some, if◌then◌else◌,
  ◌==◌, arith, Bool-cases, ==_iff, inl, inr, length, ◌<◌, ◌^◌,
}
use os.Util.Linked.{Ptr, null, Node, node, Store, Linked, write, load, store, set_next, set_prev}

-- what a list stands for: the address and the payload of each node, in order
abbrev pub Cells : Type 0
Cells = List (Ptr × Ptr)

abbrev pub first_or : Ptr → Cells → Ptr
first_or end [] = end
first_or end ((a, v) ∷ xs) = a

abbrev pub last_or : Ptr → Cells → Ptr
last_or start [] = start
last_or start ((a, v) ∷ xs) = last_or a xs

abbrev pub has : Ptr → Cells → Bool
has p [] = false
has p ((a, v) ∷ xs) = if p == a then true else has p xs

abbrev pub Distinct : Cells → Type 0
Distinct [] = Unit
Distinct ((a, v) ∷ xs) = (has a xs ≡ false) × Distinct xs

pub has-ne : (p q : Ptr) (xs : Cells) → has p xs ≡ true → has q xs ≡ false → p ≢ q
has-ne p q xs i o e = cc

-- The nodes `xs` are linked both ways; `start` stands before the first and `end` behind the last.
abbrev pub Seg : Store → Ptr → Ptr → Cells → Type 0
Seg h start end [] = Unit
Seg h start end ((a, v) ∷ xs) =
    (a ≢ null) × (h a ≡ some (node (first_or end xs) start v)) × Seg h a end xs

-- The list `l` consists of the nodes `xs`.
pub record IsList (h : Store) (l : Linked) (xs : Cells) : Type 0 where
  pub seg : Seg h null null xs
  pub distinct : Distinct xs
  pub head : l.head ≡ first_or null xs
  pub tail : l.tail ≡ last_or null xs
  pub count : l.length ≡ length xs
  pub small : length xs < 2 ^ 64

pub has-append : (p : Ptr) (xs ys : Cells) → has p (xs ++ ys) ≡ (has p xs || has p ys)
has-append p [] ys = refl
has-append p ((a, v) ∷ xs) ys = ground (arith, has-append p xs ys)

pub first_or-append :
    (end : Ptr) (xs ys : Cells) → first_or end (xs ++ ys) ≡ first_or (first_or end ys) xs
first_or-append end [] ys = refl
first_or-append end (x ∷ xs) ys = refl

pub last_or-append :
    (start : Ptr) (xs ys : Cells) → last_or start (xs ++ ys) ≡ last_or (last_or start xs) ys
last_or-append start [] ys = refl
last_or-append start ((a, v) ∷ xs) ys = last_or-append a xs ys

pub Seg-append :
    (h : Store) (start end : Ptr) (xs ys : Cells)
    → Seg h start (first_or end ys) xs
    → Seg h (last_or start xs) end ys
    → Seg h start end (xs ++ ys)
Seg-append h start end [] ys s t = t
Seg-append h start end ((a, v) ∷ xs) ys (ne, e, s) t =
    (ne, rw first_or-append e, Seg-append h a end xs ys s t)

pub Seg-split :
    (h : Store) (start end : Ptr) (xs ys : Cells)
    → Seg h start end (xs ++ ys)
    → Seg h start (first_or end ys) xs × Seg h (last_or start xs) end ys
Seg-split h start end [] ys s = (tt, s)
Seg-split h start end ((a, v) ∷ xs) ys (ne, e, s) =
    let (l, r) = Seg-split h a end xs ys s in ((ne, rw first_or-append at e, l), r)

pub Seg-write :
    (h : Store) (start end : Ptr) (xs : Cells) (p : Ptr) (c : Option Node)
    → has p xs ≡ false
    → Seg h start end xs
    → Seg (write h p c) start end xs
unfolding write
Seg-write h start end [] p c out s = tt
Seg-write h start end ((a, v) ∷ xs) p c out (ne, e, s) =
    (ne, ground arith, Seg-write h a end xs p c (ground arith) s)

-- a field of the node at `p` given anew
abbrev pub with_next : Ptr → Option Node → Option Node
with_next q none = none
with_next q (some n) = some (record n { next = q })

abbrev pub with_prev : Ptr → Option Node → Option Node
with_prev q none = none
with_prev q (some n) = some (record n { prev = q })

unfoldable pub relink_next : Store → Ptr → Ptr → Store
relink_next h p q = write h p (with_next q (h p))

unfoldable pub relink_prev : Store → Ptr → Ptr → Store
relink_prev h p q = write h p (with_prev q (h p))

pub set_next-ok :
    (h : Store) (p q : Ptr) (n : Node)
    → p ≢ null
    → h p ≡ some n
    → set_next p q h ≡ some (tt, relink_next h p q)
unfolding set_next load store relink_next
set_next-ok h p q n ne e = ground arith

pub set_prev-ok :
    (h : Store) (p q : Ptr) (n : Node)
    → p ≢ null
    → h p ≡ some n
    → set_prev p q h ≡ some (tt, relink_prev h p q)
unfolding set_prev load store relink_prev
set_prev-ok h p q n ne e = ground arith

-- The last node of a stretch is one of its nodes.
pub last_or-cell :
    (h : Store) (start end : Ptr) (x : Ptr × Ptr) (xs : Cells)
    → Seg h start end (x ∷ xs)
    → let p = last_or start (x ∷ xs) in
      (p ≢ null) × (has p (x ∷ xs) ≡ true) × (n : Node) × (h p ≡ some n)
last_or-cell h start end (a, v) [] (ne, e, s) = (ne, ground arith, _, e)
last_or-cell h start end (a, v) (y ∷ xs) (ne, e, s) =
    let (ne', i, n, e') = last_or-cell h a end y xs s in (ne', ground arith, n, e')

-- A new `next` in the last node moves the end of the stretch.
pub Seg-relink_next :
    (h : Store) (start end end' : Ptr) (x : Ptr × Ptr) (xs : Cells)
    → Distinct (x ∷ xs)
    → Seg h start end (x ∷ xs)
    → Seg (relink_next h (last_or start (x ∷ xs)) end') start end' (x ∷ xs)
unfolding relink_next write
Seg-relink_next h start end end' (a, v) [] d (ne, e, s) = (ne, ground arith, tt)
Seg-relink_next h start end end' (a, v) ((b, w) ∷ xs) (d, ds) (ne, e, s) = (
  ne,
  kept (last_or a ((b, w) ∷ xs)) (last_or-cell h a end (b, w) xs s).1,
  Seg-relink_next h a end end' (b, w) xs ds s,
)
  where
    kept : (p : Ptr) → has p ((b, w) ∷ xs) ≡ true → relink_next h p end' a ≡ some (node b start v)
    kept p i = elim (Bool-cases (p == a)) [
      | inl same ↦ absurd (has-ne p a ((b, w) ∷ xs) i d ((==_iff p a).0 same))
      | inr other ↦ rw other e
    ]

-- A new `prev` in the first node moves the start of the stretch.
pub Seg-relink_prev :
    (h : Store) (start start' end : Ptr) (a v : Ptr) (xs : Cells)
    → Distinct ((a, v) ∷ xs)
    → Seg h start end ((a, v) ∷ xs)
    → Seg (relink_prev h a start') start' end ((a, v) ∷ xs)
unfolding relink_prev write
Seg-relink_prev h start start' end a v xs (d, ds) (ne, e, s) =
    (ne, ground arith, Seg-write h a end xs a _ d s)
