-- ===== src/Util/Linked/Append.antt =====
-- `list_append` and `list_insert` put a node behind the last one.
use os.Prelude.{
  inl, inr, ◌⊎◌, Bool-cases, ◌==◌, suc, ◌≡◌, ◌≢◌, refl, true, false, [], ◌∷◌, ◌++◌, some, arith,
  length, length-append, ◌<◌, ◌^◌, sym, subst,
}
use os.Util.Linked.{
  Ptr, null, Node, node, Store, Linked, list, succ, write, store, list_append, list_insert,
}
use os.Util.Linked.Seg.{
  Cells, last_or, has, Distinct, Seg, IsList, has-append, Seg-append, Seg-write, last_or-append,
  relink_next, relink_prev, with_next, with_prev, Seg-relink_next, last_or-cell, set_next-ok,
  set_prev-ok, has-ne,
}

pub Distinct-concat :
    (xs : Cells) (a v : Ptr) → Distinct xs → has a xs ≡ false → Distinct (xs ++ (a, v) ∷ [])
Distinct-concat [] a v d o = (refl, tt)
Distinct-concat ((b, w) ∷ xs) a v (d, ds) o =
    (ground (arith, has-append b xs ((a, v) ∷ [])), Distinct-concat xs a v ds (ground arith))

-- `a` is a node outside the list, and stands for no other list's end.
module _ (h : Store) (l : Linked) (a : Ptr) (n : Node) (ne : a ≢ null) (e : h a ≡ some n) where
  pub append_empty :
      l.tail ≡ null → list_append l a h ≡ some (list a a (succ l.length), relink_next h a null)
  unfolding list_append
  append_empty nil = ground (arith, set_next-ok h a null n ne e)

  -- the stores of the three writes
  abbrev ended : Store
  ended = relink_next h a null

  abbrev hooked : Store
  hooked = relink_next ended l.tail a

  abbrev linked : Store
  linked = relink_prev hooked a l.tail

  module _ (m : Node) (tail : l.tail ≢ null) (apart : l.tail ≢ a) (f : h l.tail ≡ some m) where
    hooked-cell : hooked a ≡ some (record n { next = null })
    unfolding relink_next write
    hooked-cell = ground (arith, apart)

    ended-tail : ended l.tail ≡ some m
    unfolding relink_next write
    ended-tail = ground (arith, apart)

    linked-cell : linked a ≡ some (node null l.tail n.payload)
    unfolding relink_prev write
    linked-cell = ground (arith, hooked-cell)

    append_more : list_append l a h ≡ some (list l.head a (succ l.length), linked)
    unfolding list_append
    append_more = ground (
      arith,
      set_next-ok h a null n ne e,
      set_next-ok ended l.tail a m tail ended-tail,
      set_prev-ok hooked a l.tail (record n { next = null }) ne hooked-cell,
    )

    -- The list with the new node behind it, both ways.
    linked-Seg :
        (x : Ptr × Ptr) (xs : Cells)
        → Distinct (x ∷ xs)
        → has a (x ∷ xs) ≡ false
        → l.tail ≡ last_or null (x ∷ xs)
        → Seg h null null (x ∷ xs)
        → Seg linked null null ((x ∷ xs) ++ (a, n.payload) ∷ [])
    unfolding relink_next relink_prev
    linked-Seg x xs d out t s =
        let before = Seg-write h null null (x ∷ xs) a (with_next null (h a)) out s in
        let moved : Seg hooked null a (x ∷ xs) =
          subst (λ p. Seg (relink_next ended p a) null a (x ∷ xs)) (sym t)
            (Seg-relink_next ended null null a x xs d before) in
        Seg-append linked null null (x ∷ xs) ((a, n.payload) ∷ [])
          (Seg-write hooked null a (x ∷ xs) a (with_prev l.tail (hooked a)) out moved)
          (ne, subst (λ p. linked a ≡ some (node null p n.payload)) t linked-cell, tt)

abbrev pub Appended : Store → Linked → Ptr → Cells → Type 0
Appended h l a xs =
    (l' : Linked) × (h' : Store) × (list_append l a h ≡ some (l', h')) × IsList h' l' xs

pub list_append-IsList :
    (h : Store) (l : Linked) (xs : Cells) (a : Ptr) (n : Node)
    → IsList h l xs
    → a ≢ null
    → h a ≡ some n
    → has a xs ≡ false
    → suc (length xs) < 2 ^ 64
    → (xs ≡ [] → n.prev ≡ null)
    → Appended h l a (xs ++ (a, n.payload) ∷ [])
list_append-IsList h l [] a n is ne e out room clean = (
  list a a (succ l.length),
  relink_next h a null,
  append_empty h l a n ne e is.tail,
  record {
    seg = (ne, unfold relink_next write in (ground (arith, clean refl)), tt);
    distinct = (refl, tt);
    head = refl;
    tail = refl;
    count = omega (arith, is.count);
    small = omega arith;
  },
)
list_append-IsList h l (x ∷ xs) a n is ne e out room clean =
    let (tne, ti, m, te) = last_or-cell h null null x xs is.seg in
    let tail = is.tail in
    let apart : l.tail ≢ a = rw tail (has-ne _ a (x ∷ xs) ti out) in
    let nonnull : l.tail ≢ null = rw tail tne in
    let held : h l.tail ≡ some m = rw tail te in
    (
      list l.head a (succ l.length),
      linked h l a n ne e,
      append_more h l a n ne e m nonnull apart held,
      record {
        seg = linked-Seg h l a n ne e m nonnull apart held x xs is.distinct out tail is.seg;
        distinct = Distinct-concat (x ∷ xs) a n.payload is.distinct out;
        head = is.head;
        tail = sym (last_or-append null (x ∷ xs) ((a, n.payload) ∷ []));
        count = omega (arith, is.count, length-append (x ∷ xs) ((a, n.payload) ∷ []));
        small = omega (arith, length-append (x ∷ xs) ((a, n.payload) ∷ []));
      },
    )

-- If `malloc` gives an address that is not in use, `list_insert` puts a node with the payload
-- behind the last one.
pub list_insert-IsList :
    (h : Store) (l : Linked) (xs : Cells) (fresh v : Ptr)
    → IsList h l xs
    → fresh ≢ null
    → has fresh xs ≡ false
    → suc (length xs) < 2 ^ 64
    → (l' : Linked) × (h' : Store) × (list_insert fresh l v h ≡ some ((true, l'), h'))
      × IsList h' l' (xs ++ (fresh, v) ∷ [])
unfolding list_insert store
list_insert-IsList h l xs fresh v is ne out room =
    let n = node null null v in
    let stored : IsList (write h fresh (some n)) l xs = record {
      seg = Seg-write h null null xs fresh (some n) out is.seg;
      distinct = is.distinct;
      head = is.head;
      tail = is.tail;
      count = is.count;
      small = is.small;
    } in
    let (l', h', e, is') =
      list_append-IsList (write h fresh (some n)) l xs fresh n stored ne
        (unfold write in (ground arith)) out room (λ _. refl) in
    (l', h', ground (arith, e), is')

-- `list_append` to an empty list leaves the node's old `prev` in place: where that is not NULL,
-- the result is no well-formed list of any nodes.
pub list_append_stale :
    (h : Store) (l : Linked) (a : Ptr) (n : Node)
    → l.tail ≡ null
    → a ≢ null
    → h a ≡ some n
    → n.prev ≢ null
    → (l' : Linked) × (h' : Store) × (list_append l a h ≡ some (l', h'))
      × ((ys : Cells) → ¬ IsList h' l' ys)
list_append_stale h l a n t ne e stale =
    (list a a (succ l.length), relink_next h a null, append_empty h l a n ne e t, refuted)
  where
    refuted : (ys : Cells) → ¬ IsList (relink_next h a null) (list a a (succ l.length)) ys
    refuted [] is = ne is.head
    refuted ((b, w) ∷ ys) is =
        let seg = is.seg in
        let head = is.head in unfold relink_next write in (stale (ground (arith, seg.1)))

-- `list_append` of a node that is not in a well-formed list ends, and puts it behind the last one;
-- but where the list is empty and the node's `prev` is not NULL, the result is no well-formed list of
-- any nodes.
pub list_append-Appends :
    (h : Store) (l : Linked) (xs : Cells) (a : Ptr) (n : Node)
    → IsList h l xs
    → a ≢ null
    → h a ≡ some n
    → has a xs ≡ false
    → suc (length xs) < 2 ^ 64
    → (l' : Linked) × (h' : Store) × (list_append l a h ≡ some (l', h'))
      × ((((xs ≢ []) ⊎ (n.prev ≡ null)) × IsList h' l' (xs ++ (a, n.payload) ∷ []))
          ⊎ ((xs ≡ []) × (n.prev ≢ null) × ((ys : Cells) → ¬ IsList h' l' ys)))
list_append-Appends h l [] a n is ne e out room = elim (Bool-cases (n.prev == null)) [
  | inl i ↦
      let (l', h', run, is') =
        list_append-IsList h l [] a n is ne e out room (λ _. ground (arith, i)) in
      (l', h', run, inl (inr (ground (arith, i)), is'))
  | inr i ↦
      let stale : n.prev ≢ null = ground (arith, i) in
      let (l', h', run, bad) = list_append_stale h l a n is.tail ne e stale in
      (l', h', run, inr (refl, stale, bad))
]
list_append-Appends h l (x ∷ xs) a n is ne e out room =
    let (l', h', run, is') = list_append-IsList h l (x ∷ xs) a n is ne e out room (λ q. cc q) in
    (l', h', run, inl (inl (λ q. cc q), is'))

-- `list_append` spares a stretch that the node and the last one of the list are not in.
pub list_append-spares :
    (h : Store) (l : Linked) (xs : Cells) (a : Ptr) (n : Node) (is : IsList h l xs) (ne : a ≢ null)
    (e : h a ≡ some n) (out : has a xs ≡ false) (room : suc (length xs) < 2 ^ 64)
    (clean : xs ≡ [] → n.prev ≡ null) (start end : Ptr) (ys : Cells)
    → has a ys ≡ false
    → (xs ≢ [] → has (last_or null xs) ys ≡ false)
    → Seg h start end ys
    → Seg (list_append-IsList h l xs a n is ne e out room clean).1 start end ys
unfolding list_append-IsList relink_next relink_prev
list_append-spares h l [] a n is ne e out room clean start end ys o t s =
    Seg-write h start end ys a _ o s
list_append-spares h l (x ∷ xs) a n is ne e out room clean start end ys o t s =
    let t' : has l.tail ys ≡ false = rw (is.tail) (t (λ q. cc q)) in
    Seg-write _ start end ys a _ o
      (Seg-write _ start end ys l.tail _ t' (Seg-write h start end ys a _ o s))
