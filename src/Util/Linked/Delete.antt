-- ===== src/Util/Linked/Delete.antt =====
-- `list_delete`, `list_pop` and `list_dequeue` take one node out and keep the others linked.
pub mod Spares
use os.Prelude.{
  ◌≡◌, ◌≢◌, refl, true, false, [], ◌∷◌, ◌++◌, some, inl, inr, if◌then◌else◌, ◌==◌, ==_iff, arith,
  Bool-cases, length-append, sym, subst, ◌∙◌,
}
use mathlib.Core.List.{append-nil}
use os.Util.Linked.{
  Ptr, null, Node, node, Store, Linked, list, prec, pure, load, set_next, set_prev, list_delete,
  list_pop, list_dequeue,
}
use os.Util.Linked.Seg.{
  Cells, first_or, last_or, has, Distinct, Seg, IsList, has-append, Seg-append, Seg-write,
  Seg-split, last_or-append, relink_next, relink_prev, with_next, with_prev, Seg-relink_next,
  Seg-relink_prev, last_or-cell, set_next-ok, set_prev-ok, has-ne,
}
use os.Util.Linked.Unhook.{
  Distinct-without, unhook_prev, unhook_next, unhook_prev-Seg, unhook_next-Seg, unhook_prev-spares,
  unhook_next-spares, Distinct-split, last_or-mem, first_or-mem, last_or-live, first_or-live,
  prev_step, next_step,
}

module _ (h : Store) (l : Linked) (ys : Cells) (a v : Ptr) (zs : Cells)
    (is : IsList h l (ys ++ (a, v) ∷ zs)) where
  abbrev pub before : Ptr
  before = last_or null ys

  abbrev pub behind : Ptr
  behind = first_or null zs

  abbrev unhooked : Store
  unhooked = unhook_next (unhook_prev h before behind) before behind

  pub parts : Seg h null a ys × (a ≢ null) × (h a ≡ some (node behind before v)) × Seg h a null zs
  parts = let (s, t) = Seg-split h null null ys ((a, v) ∷ zs) is.seg in (s, t.0, t.1, t.2)

  behind-apart : behind ≢ null → has behind ys ≡ false
  behind-apart q =
      let (dy, dz, az, apart) = Distinct-split ys a v zs is.distinct in
      elim (Bool-cases (has behind ys)) [
        | inl i ↦ ground (arith, first_or-mem zs q, apart behind i)
        | inr o ↦ o
      ]

  before-apart : before ≢ null → has before zs ≡ false
  before-apart q =
      let (dy, dz, az, apart) = Distinct-split ys a v zs is.distinct in
      ground (arith, apart before (last_or-mem ys q))

  spared : Seg (unhook_prev h before behind) a null zs
  spared = unhook_prev-spares h before behind a null zs before-apart parts.3

  unhooked-Seg : Seg unhooked null null (ys ++ zs)
  unhooked-Seg =
      let (s, ne, e, t) = parts in
      let (dy, dz, az, apart) = Distinct-split ys a v zs is.distinct in
      let h1 = unhook_prev h before behind in
      Seg-append unhooked null null ys zs
        (unhook_next-spares h1 before behind null behind ys behind-apart
          (unhook_prev-Seg h a behind ys dy s))
        (unhook_next-Seg h1 a before zs dz spared)

  delete-result :
      list_delete l a h
      ≡ some (
        list
            (if a == l.head then behind else l.head)
            (if a == l.tail then before else l.tail)
            (prec l.length),
        unhooked,
      )
  unfolding list_delete load
  delete-result =
      let (s, ne, e, t) = parts in
      ground (
        arith,
        prev_step h before behind (last_or-live h a ys s),
        next_step (unhook_prev h before behind) before behind
            (first_or-live (unhook_prev h before behind) a zs spared),
      )

delete-head :
    (l : Linked) (ys : Cells) (a v : Ptr) (zs : Cells)
    → Distinct (ys ++ (a, v) ∷ zs)
    → l.head ≡ first_or null (ys ++ (a, v) ∷ zs)
    → (if a == l.head then first_or null zs else l.head) ≡ first_or null (ys ++ zs)
delete-head l [] a v zs d e = ground arith
delete-head l ((b, w) ∷ ys) a v zs (o, d) e = ground (arith, has-append b ys ((a, v) ∷ zs))

delete-tail :
    (h : Store) (l : Linked) (ys : Cells) (a v : Ptr) (zs : Cells)
    → Seg h a null zs
    → has a zs ≡ false
    → l.tail ≡ last_or null (ys ++ (a, v) ∷ zs)
    → (if a == l.tail then last_or null ys else l.tail) ≡ last_or null (ys ++ zs)
delete-tail h l ys a v [] s o e =
    let at : l.tail ≡ a = e ∙ last_or-append null ys ((a, v) ∷ []) in
    rw (at, (==_iff a a).1 refl, append-nil)
delete-tail h l ys a v ((c, u) ∷ zs) s o e =
    let (ne, i, n, f) = last_or-cell h a null (c, u) zs s in
    let at : l.tail ≡ last_or c zs = e ∙ last_or-append null ys ((a, v) ∷ (c, u) ∷ zs) in
    let apart : l.tail ≢ a = rw at (has-ne _ a ((c, u) ∷ zs) i o) in
    elim (Bool-cases (a == l.tail)) [
      | inl same ↦ absurd (apart (sym ((==_iff a l.tail).0 same)))
      | inr other ↦ rw other (at ∙ sym (last_or-append null ys ((c, u) ∷ zs)))
    ]

pub delete-outcome :
    (h : Store) (l : Linked) (ys : Cells) (a v : Ptr) (zs : Cells)
    → IsList h l (ys ++ (a, v) ∷ zs)
    → (l' : Linked) × (h' : Store) × (list_delete l a h ≡ some (l', h')) × IsList h' l' (ys ++ zs)
delete-outcome h l ys a v zs is = (
  _,
  unhooked h l ys a v zs is,
  delete-result h l ys a v zs is,
  record {
    seg = unhooked-Seg h l ys a v zs is;
    distinct = Distinct-without ys a v zs is.distinct;
    head = delete-head l ys a v zs is.distinct is.head;
    tail =
        delete-tail h l ys a v zs (parts h l ys a v zs is).3
          (Distinct-split ys a v zs is.distinct).2 is.tail;
    count = omega (arith, is.count, is.small, length-append ys ((a, v) ∷ zs), length-append ys zs);
    small = omega (arith, is.small, length-append ys ((a, v) ∷ zs), length-append ys zs);
  },
)

-- `list_delete` of a node of the list takes out that node: the others stay, linked in their order.
pub list_delete-IsList :
    (h : Store) (l : Linked) (ys : Cells) (a v : Ptr) (zs : Cells)
    → IsList h l (ys ++ (a, v) ∷ zs)
    → (l' : Linked) × (h' : Store) × (list_delete l a h ≡ some (l', h')) × IsList h' l' (ys ++ zs)
list_delete-IsList h l ys a v zs is = delete-outcome h l ys a v zs is

-- `list_dequeue` of a list with nodes returns the first one and leaves the rest.
pub list_dequeue-IsList :
    (h : Store) (l : Linked) (a v : Ptr) (xs : Cells)
    → IsList h l ((a, v) ∷ xs)
    → (l' : Linked) × (h' : Store) × (list_dequeue l h ≡ some ((a, l'), h')) × IsList h' l' xs
unfolding list_dequeue
list_dequeue-IsList h l a v xs is =
    let (l', h', e, is') = delete-outcome h l [] a v xs is in
    let ne = is.seg.0 in let first : l.head ≡ a = is.head in (l', h', ground (arith, e, first), is')

-- `list_pop` of a list with nodes returns the last one and leaves the rest.
pub list_pop-IsList :
    (h : Store) (l : Linked) (a v : Ptr) (xs : Cells)
    → IsList h l (xs ++ (a, v) ∷ [])
    → (l' : Linked) × (h' : Store) × (list_pop l h ≡ some ((a, l'), h')) × IsList h' l' xs
unfolding list_pop
list_pop-IsList h l a v xs is =
    let (l', h', e, is') = delete-outcome h l xs a v [] is in
    let ne = (parts h l xs a v [] is).1 in
    let last : l.tail ≡ a = is.tail ∙ last_or-append null xs ((a, v) ∷ []) in
    (l', h', ground (arith, e, last), rw append-nil at is')

-- Of a list with nodes, `list_dequeue` returns the first node and leaves the rest, and `list_pop`
-- returns the last one and leaves the rest.
pub list_dequeue-list_pop :
    (h : Store) (l : Linked) (xs : Cells) (a v : Ptr) (ys zs : Cells) (b w : Ptr)
    → IsList h l xs
    → (a, v) ∷ ys ≡ xs
    → zs ++ (b, w) ∷ [] ≡ xs
    → ((l' : Linked) × (h' : Store) × (list_dequeue l h ≡ some ((a, l'), h')) × IsList h' l' ys)
      × ((l' : Linked) × (h' : Store) × (list_pop l h ≡ some ((b, l'), h')) × IsList h' l' zs)
list_dequeue-list_pop h l xs a v ys zs b w is first last = (
  list_dequeue-IsList h l a v ys (subst (λ xs. IsList h l xs) (sym first) is),
  list_pop-IsList h l b w zs (subst (λ xs. IsList h l xs) (sym last) is),
)
