-- ===== src/Util/Linked/Merge.antt =====
-- `list_merge` joins two lists along `next`, and leaves one `prev` as it was.
use os.Prelude.{
  refl, inl, inr, ◌⊎◌, ◌+◌, ◌%◌, ◌≡◌, ◌≢◌, true, false, [], ◌∷◌, ◌++◌, some, if◌then◌else◌, ◌==◌,
  arith, length, length-append, ◌<◌, ◌^◌, sym, subst, ◌∙◌,
}
use mathlib.Core.List.{append-nil}
use os.Util.Linked.{Ptr, null, node, Store, Linked, list, list_merge}
use os.Util.Linked.Seg.{
  Cells, first_or, last_or, has, Distinct, Seg, IsList, has-append, Seg-split, Seg-write,
  last_or-append, first_or-append, relink_next, with_next, Seg-relink_next, last_or-cell,
  set_next-ok,
}

-- no address in both
abbrev pub Disjoint : Cells → Cells → Type 0
Disjoint xs ys = (p : Ptr) → has p xs ≡ true → has p ys ≡ false

Distinct-append : (xs ys : Cells) → Distinct xs → Distinct ys → Disjoint xs ys → Distinct (xs ++ ys)
Distinct-append [] ys d e apart = e
Distinct-append ((a, v) ∷ xs) ys (o, d) e apart = (
  ground (arith, has-append a xs ys, apart a),
  Distinct-append xs ys d e (λ p i. apart p (ground arith)),
)

-- The nodes follow one another along `next`, whatever their `prev`.
abbrev pub Forward : Store → Cells → Type 0
Forward h [] = Unit
Forward h ((a, v) ∷ xs) =
    (a ≢ null) × ((p : Ptr) × (h a ≡ some (node (first_or null xs) p v))) × Forward h xs

Seg-Forward :
    (h : Store) (start : Ptr) (xs ys : Cells)
    → Seg h start (first_or null ys) xs
    → Forward h ys
    → Forward h (xs ++ ys)
Seg-Forward h start [] ys s f = f
Seg-Forward h start ((a, v) ∷ xs) ys (ne, e, s) f =
    (ne, (start, rw first_or-append e), Seg-Forward h a xs ys s f)

-- What `list_merge` makes of two lists: the nodes of both in order along `next`.
pub record Joined (h : Store) (l : Linked) (xs : Cells) : Type 0 where
  pub forward : Forward h xs
  pub distinct : Distinct xs
  pub head : l.head ≡ first_or null xs
  pub tail : l.tail ≡ last_or null xs
  pub count : l.length ≡ length xs

abbrev joined : Linked → Linked → Linked
joined l m =
    list (if l.tail == null then m.head else l.head) (if m.tail == null then l.tail else m.tail)
      ((l.length + m.length) % 2 ^ 64)

tail-ne :
    (h : Store) (l : Linked) (x : Ptr × Ptr) (xs : Cells) → IsList h l (x ∷ xs) → l.tail ≢ null
tail-ne h l x xs is = let t = is.tail in rw t (last_or-cell h null null x xs is.seg).0

joined-tail :
    (h : Store) (l m : Linked) (xs ys : Cells)
    → IsList h l xs
    → IsList h m ys
    → (joined l m).tail ≡ last_or null (xs ++ ys)
joined-tail h l m xs [] is it = let t = it.tail in let u = is.tail in rw (t, append-nil) u
joined-tail h l m xs (y ∷ ys) is it =
    let ne = tail-ne h m y ys it in
    let live : (m.tail == null) ≡ false = ground arith in
    rw live (it.tail ∙ sym (last_or-append null xs (y ∷ ys)))

joined-head :
    (h : Store) (l m : Linked) (xs ys : Cells)
    → IsList h l xs
    → IsList h m ys
    → (joined l m).head ≡ first_or null (xs ++ ys)
joined-head h l m [] ys is it = let t = is.tail in rw t it.head
joined-head h l m (x ∷ xs) ys is it =
    let ne = tail-ne h l x xs is in
    let live : (l.tail == null) ≡ false = ground arith in rw live is.head

Seg-Forward_all : (h : Store) (start : Ptr) (xs : Cells) → Seg h start null xs → Forward h xs
Seg-Forward_all h start xs s = rw append-nil at (Seg-Forward h start xs [] s tt)

abbrev Merged : Store → Linked → Linked → Cells → Type 0
Merged h l m xs =
    (l' : Linked) × (h' : Store) × (list_merge l m h ≡ some (l', h')) × Joined h' l' xs

-- A first list with nodes: the store that is left, and both lists in it.
module _ (h : Store) (l m : Linked) (x : Ptr × Ptr) (xs ys : Cells) (is : IsList h l (x ∷ xs))
    (it : IsList h m ys) (apart : Disjoint (x ∷ xs) ys) where
  abbrev merged : Store
  merged = relink_next h l.tail m.head

  merge-result : list_merge l m h ≡ some (joined l m, merged)
  unfolding list_merge
  merge-result =
      let ne = tail-ne h l x xs is in
      let (_, i, n, e) = last_or-cell h null null x xs is.seg in
      let t = is.tail in
      let live : h l.tail ≡ some n = rw t e in ground (arith, set_next-ok h l.tail m.head n ne live)

  merged-first : Seg merged null m.head (x ∷ xs)
  merged-first =
      subst (λ p. Seg (relink_next h p m.head) null m.head (x ∷ xs)) (sym is.tail)
        (Seg-relink_next h null null m.head x xs is.distinct is.seg)

  merged-second : Seg merged null null ys
  unfolding relink_next
  merged-second =
      let (_, i, n, e) = last_or-cell h null null x xs is.seg in
      Seg-write h null null ys l.tail (with_next m.head (h l.tail))
        (apart l.tail (subst (λ p. has p (x ∷ xs) ≡ true) (sym is.tail) i)) it.seg

-- `list_merge` of two lists with no common node gives the nodes of the first and then those of the
-- second, in order along `next`, with the right ends and length.
pub list_merge-Joined :
    (h : Store) (l m : Linked) (xs ys : Cells)
    → IsList h l xs
    → IsList h m ys
    → Disjoint xs ys
    → length xs + length ys < 2 ^ 64
    → Merged h l m (xs ++ ys)
unfolding list_merge
list_merge-Joined h l m [] ys is it apart room =
    let t = is.tail in
    (
      joined l m,
      h,
      ground (arith, t),
      record {
        forward = Seg-Forward_all h null ys it.seg;
        distinct = it.distinct;
        head = joined-head h l m [] ys is it;
        tail = joined-tail h l m [] ys is it;
        count = omega (arith, is.count, it.count);
      },
    )
list_merge-Joined h l m (x ∷ xs) ys is it apart room =
    let h' = merged h l m x xs ys is it apart in
    (
      joined l m,
      h',
      merge-result h l m x xs ys is it apart,
      record {
        forward =
            Seg-Forward h' null (x ∷ xs) ys
              (subst (λ q. Seg h' null q (x ∷ xs)) it.head (merged-first h l m x xs ys is it apart))
              (Seg-Forward_all h' null ys (merged-second h l m x xs ys is it apart));
        distinct = Distinct-append (x ∷ xs) ys is.distinct it.distinct apart;
        head = joined-head h l m (x ∷ xs) ys is it;
        tail = joined-tail h l m (x ∷ xs) ys is it;
        count = omega (arith, is.count, it.count, length-append (x ∷ xs) ys);
      },
    )

-- Where both lists have nodes, the first node of the second keeps NULL for its `prev`, so the
-- result is not linked both ways.
pub list_merge_unlinked :
    (h : Store) (l m : Linked) (x y : Ptr × Ptr) (xs ys : Cells)
    → IsList h l (x ∷ xs)
    → IsList h m (y ∷ ys)
    → Disjoint (x ∷ xs) (y ∷ ys)
    → (l' : Linked) × (h' : Store) × (list_merge l m h ≡ some (l', h'))
      × ¬ IsList h' l' ((x ∷ xs) ++ y ∷ ys)
list_merge_unlinked h l m x y xs ys is it apart = (
  joined l m,
  merged h l m x xs (y ∷ ys) is it apart,
  merge-result h l m x xs (y ∷ ys) is it apart,
  λ bad.
      let h' = merged h l m x xs (y ∷ ys) is it apart in
      let (s, t) = Seg-split h' null null (x ∷ xs) (y ∷ ys) bad.seg in
      let u = merged-second h l m x xs (y ∷ ys) is it apart in
      (last_or-cell h null null x xs is.seg).0 (ground (arith, t.1, u.1)),
)

-- `list_merge` of two lists with no common node gives the nodes of the first and then those of the
-- second, in order along `next`, with the right ends and length; but unless one of them is empty,
-- the result is not linked both ways.
pub list_merge-Joins :
    (h : Store) (l m : Linked) (xs ys : Cells)
    → IsList h l xs
    → IsList h m ys
    → Disjoint xs ys
    → length xs + length ys < 2 ^ 64
    → (l' : Linked) × (h' : Store) × (list_merge l m h ≡ some (l', h'))
      × Joined h' l' (xs ++ ys)
      × ((xs ≡ []) ⊎ ((ys ≡ []) ⊎ ¬ IsList h' l' (xs ++ ys)))
list_merge-Joins h l m [] ys is it apart room =
    let (l', h', e, j) = list_merge-Joined h l m [] ys is it apart room in (l', h', e, j, inl refl)
list_merge-Joins h l m (x ∷ xs) [] is it apart room =
    let (l', h', e, j) = list_merge-Joined h l m (x ∷ xs) [] is it apart room in
    (l', h', e, j, inr (inl refl))
list_merge-Joins h l m (x ∷ xs) (y ∷ ys) is it apart room =
    let (l', h', e, j) = list_merge-Joined h l m (x ∷ xs) (y ∷ ys) is it apart room in
    let (l2, h2, e2, bad) = list_merge_unlinked h l m x y xs ys is it apart in
    let same : some (l2, h2) ≡ some (l', h') = sym e2 ∙ e in
    let same_pair : (l2, h2) ≡ (l', h') = cc same in
    (
      l',
      h',
      e,
      j,
      inr (
          inr
            (subst (λ (r : Linked × Store). ¬ IsList r.1 r.0 ((x ∷ xs) ++ y ∷ ys)) same_pair bad)),
    )
