-- ===== src/Util/Linked/Walk.antt =====
-- `list_find`, `list_find_comp` and `list_remove` walk along `next`.
use os.Prelude.{
  ℕ, zero, suc, ◌≡◌, refl, Bool, false, [], ◌∷◌, ◌++◌, none, some, if◌then◌else◌, ◌==◌, arith,
  length, length-append, ◌<◌, sym, subst, ltb, inl, inr, ◌⊎◌, Bool-cases, ap, ◌∙◌,
}
use os.Util.Linked.{
  Ptr, null, Store, Linked, load, list_find, list_find_comp, find_from, step_from, list_remove,
  list_delete,
}
use os.Util.Linked.Seg.{Cells, first_or, Seg, IsList}
use os.Util.Linked.Delete.{delete-outcome}

-- the first node whose payload passes a test, or NULL
unfoldable pub first_hit : (Ptr → Bool) → Cells → Ptr
first_hit hit [] = null
first_hit hit ((a, v) ∷ xs) = if hit v then a else first_hit hit xs

find_from-first_hit :
    (h : Store) (hit : Ptr → Bool) (start : Ptr) (xs : Cells) (k : ℕ)
    → Seg h start null xs
    → length xs < k
    → find_from k hit (first_or null xs) h ≡ some (first_hit hit xs, h)
unfolding find_from first_hit load
find_from-first_hit h hit start xs zero s f = absurd (omega arith)
find_from-first_hit h hit start [] (suc k) s f = refl
find_from-first_hit h hit start ((a, v) ∷ xs) (suc k) (ne, e, s) f =
    ground (arith, find_from-first_hit h hit a xs k s)

-- Both searches end on a list, leave it alone, and return its first node with that payload, or
-- with a payload that the comparison accepts, and NULL where there is none.
pub list_find-first_hit :
    (h : Store) (l : Linked) (xs : Cells) (value : Ptr) (func : Ptr → Ptr → Bool)
    → IsList h l xs
    → (list_find l value h ≡ some (first_hit (λ v. v == value) xs, h))
      × (list_find_comp l value func h ≡ some (first_hit (λ v. func v value) xs, h))
unfolding list_find list_find_comp
list_find-first_hit h l xs value func is =
    let head = is.head in
    let fuel : length xs < suc l.length = omega (arith, is.count) in
    (
      subst
          (λ p.
            find_from (suc l.length) (λ v. v == value) p h
            ≡ some (first_hit (λ v. v == value) xs, h))
          (sym head) (find_from-first_hit h (λ v. v == value) null xs (suc l.length) is.seg fuel),
      subst
          (λ p.
            find_from (suc l.length) (λ v. func v value) p h
            ≡ some (first_hit (λ v. func v value) xs, h))
          (sym head) (find_from-first_hit h (λ v. func v value) null xs (suc l.length) is.seg fuel),
    )

step_from-append :
    (h : Store) (start : Ptr) (ys zs : Cells)
    → Seg h start null (ys ++ zs)
    → step_from (length ys) (first_or null (ys ++ zs)) h ≡ some (first_or null zs, h)
unfolding step_from load
step_from-append h start [] zs s = refl
step_from-append h start ((a, v) ∷ ys) zs (ne, e, s) = ground (arith, step_from-append h a ys zs s)

step_from-all :
    (h : Store) (start : Ptr) (xs : Cells)
    → Seg h start null xs
    → step_from (length xs) (first_or null xs) h ≡ some (null, h)
unfolding step_from load
step_from-all h start [] s = refl
step_from-all h start ((a, v) ∷ xs) (ne, e, s) = ground (arith, step_from-all h a xs s)

-- `list_remove` of an index inside the list takes out the node at that index.
pub list_remove-IsList :
    (h : Store) (l : Linked) (ys : Cells) (a v : Ptr) (zs : Cells)
    → IsList h l (ys ++ (a, v) ∷ zs)
    → (l' : Linked) × (h' : Store) × (list_remove l (length ys) h ≡ some (l', h'))
      × IsList h' l' (ys ++ zs)
unfolding list_remove
list_remove-IsList h l ys a v zs is =
    let (l', h', e, is') = delete-outcome h l ys a v zs is in
    let walk = step_from-append h null ys ((a, v) ∷ zs) is.seg in
    let head = is.head in
    let count : (ltb l.length (length ys)) ≡ false =
      ground (arith, is.count, length-append ys ((a, v) ∷ zs)) in
    (l', h', ground (arith, count, head, walk, e), is')

-- `list_remove` of the index just behind the last node passes its guard, and then fails the ASSERT
-- of `list_delete`; of any higher index it does nothing.
pub list_remove_behind :
    (h : Store) (l : Linked) (xs : Cells)
    → IsList h l xs
    → (list_remove l (length xs) h ≡ none)
      × ((i : ℕ) → length xs < i → list_remove l i h ≡ some (l, h))
unfolding list_remove list_delete
list_remove_behind h l xs is =
    let head = is.head in
    let walk = step_from-all h null xs is.seg in
    (ground (arith, is.count, head, walk), λ i f. ground (arith, is.count))

-- the list in front of an index, its node and the rest
split_at :
    (xs : Cells) (i : ℕ)
    → i < length xs
    → (ys : Cells) × (c : Ptr × Ptr) × (zs : Cells) × (ys ++ c ∷ zs ≡ xs) × (length ys ≡ i)
split_at [] i r = absurd (omega (arith, r))
split_at (x ∷ xs) zero r = ([], x, xs, refl, refl)
split_at (x ∷ xs) (suc i) r =
    let (ys, c, zs, e, n) = split_at xs i (omega (arith, r)) in
    (x ∷ ys, c, zs, ap (λ l. x ∷ l) e, ap (λ k. suc k) n)

-- what `list_remove` does at each index
abbrev pub Removes : Store → Linked → Cells → ℕ → Type 0
Removes h l xs i =
    ((ys : Cells) × (c : Ptr × Ptr) × (zs : Cells) × (l' : Linked) × (h' : Store) × (ys ++ c ∷ zs
        ≡ xs)
      × (length ys ≡ i)
      × (list_remove l i h ≡ some (l', h'))
      × IsList h' l' (ys ++ zs))
    ⊎ (((i ≡ length xs) × (list_remove l i h ≡ none))
        ⊎ ((length xs < i) × (list_remove l i h ≡ some (l, h))))

-- `list_remove` of an index inside a well-formed list takes out the node there. Of the index just
-- behind the last node it passes its guard, and then fails the ASSERT of `list_delete`; of any higher
-- index it does nothing.
pub list_remove-Removes :
    (h : Store) (l : Linked) (xs : Cells) (i : ℕ) → IsList h l xs → Removes h l xs i
list_remove-Removes h l xs i is = elim (Bool-cases (ltb i (length xs))) [
  | inl r ↦
      let (ys, c, zs, e, n) = split_at xs i (ground (arith, r)) in
      let (l', h', run, is') =
        list_remove-IsList h l ys c.0 c.1 zs (subst (λ xs. IsList h l xs) (sym e) is) in
      inl (ys, c, zs, l', h', e, n, ap (λ k. list_remove l k h) (sym n) ∙ run, is')
  | inr r ↦
      let (last, more) = list_remove_behind h l xs is in
      elim (Bool-cases (i == length xs)) [
        | inl q ↦
            let e : i ≡ length xs = ground (arith, q) in
            inr (inl (e, ap (λ k. list_remove l k h) e ∙ last))
        | inr q ↦ let big : length xs < i = ground (arith, q, r) in inr (inr (big, more i big))
      ]
]
