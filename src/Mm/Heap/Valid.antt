-- ===== src/Mm/Heap/Valid.antt =====
-- The invariant of the heap, and the loop of `kmalloc` on the whole table.
use mathlib.Core.List.{append_assoc}
use os.Prelude.{
  ap₂, ℕ, ◌+◌, ◌*◌, ◌%◌, ◌^◌, ◌≤◌, ◌<◌, ◌≡◌, refl, sym, ap, subst, ◌∙◌, true, false, List, [], ◌∷◌,
  ◌++◌, Option, none, some, if◌then◌else◌, ◌==◌, length, take, drop, take-append-drop, length-take,
  length-append, arith, ◌⊎◌, inl, inr,
}
use os.Mm.Heap.{Region, hint_at, Heap, heap_start, settle, anywhere, try_regions}
use os.Mm.Heap.Blocks.{
  total, blocks, all_res, Spaced, Spaced-split, Spaced-append, ends_free, total-append,
  blocks-append, Taken,
}
use os.Mm.Heap.Scan.{AllSmall, Outcome, scan-Outcome, hint-start}

-- the regions before the first one that may be free, and the others
abbrev pub taken_part : Heap → List Region
taken_part h = take h.first_free_region h.regions

abbrev pub rest_part : Heap → List Region
rest_part h = drop h.first_free_region h.regions

pub record IsValid (h : Heap) : Type 0 where
  pub hint_in : h.first_free_region ≤ length h.regions
  pub hint_res : all_res (taken_part h) ≡ true
  pub hint_addr : h.first_free_addr ≡ heap_start + total (taken_part h)
  pub spaced : Spaced false h.regions
  pub whole : total h.regions ≡ h.heap_size
  pub bounded : h.heap_size + h.frames * 4096 < 2 ^ 62

abbrev pub held : Heap → List (ℕ × ℕ)
held h = blocks heap_start h.regions

take-append_exact : (xs ys : List Region) → take (length xs) (xs ++ ys) ≡ xs
take-append_exact [] ys = refl
take-append_exact (x ∷ xs) ys = ap (λ l. x ∷ l) (take-append_exact xs ys)

-- a block taken behind the regions `xs`
Taken-append :
    (xs rs rs' : List Region) (size a : ℕ)
    → Taken (heap_start + total xs) rs rs' size a
    → Taken heap_start (xs ++ rs) (xs ++ rs') size a
Taken-append xs rs rs' size a t = record {
  given = t.given;
  enough = t.enough;
  before = blocks heap_start xs ++ t.before;
  behind = t.behind;
  was =
      blocks-append heap_start xs rs
      ∙ ap (λ l. blocks heap_start xs ++ l) t.was
      ∙ sym (append_assoc (blocks heap_start xs) t.before t.behind);
  is =
      blocks-append heap_start xs rs'
      ∙ ap (λ l. blocks heap_start xs ++ l) t.is
      ∙ sym (append_assoc (blocks heap_start xs) t.before ((a, t.given) ∷ t.behind));
  same = omega (arith, total-append xs rs, total-append xs rs', t.same);
}

-- What the loop does to a valid heap: nothing, where no region is large enough or the table is
-- full, or a block at an address that is not 0.
abbrev pub Tried : ℕ → Heap → Option ℕ × Heap → Type 0
Tried size h (none, h') = (h' ≡ h) × AllSmall size (rest_part h)
Tried size h (some p, h') =
    ((p ≡ 0) × (h' ≡ h) × (h.max_count ≤ length h.regions))
    ⊎ ((heap_start ≤ p) × Taken heap_start h.regions h'.regions size p × IsValid h')

pub length-taken : (h : Heap) → IsValid h → length (taken_part h) ≡ h.first_free_region
length-taken h v = omega (arith, length-take h.first_free_region h.regions, v.hint_in)

-- Other regions behind the hint leave the regions before it.
pub take-replaced :
    (h : Heap) (rs : List Region)
    → IsValid h
    → take h.first_free_region (taken_part h ++ rs) ≡ taken_part h
take-replaced h rs v =
    ap (λ n. take n (taken_part h ++ rs)) (sym (length-taken h v))
    ∙ take-append_exact (taken_part h) rs

Spaced-parts :
    (h : Heap)
    → IsValid h
    → Spaced false (taken_part h) × Spaced (ends_free false (taken_part h)) (rest_part h)
Spaced-parts h v =
    Spaced-split false (taken_part h) (rest_part h)
      (subst (λ l. Spaced false l) (sym (take-append-drop h.first_free_region h.regions)) v.spaced)

abbrev with_rest : Heap → List Region → ℕ → Heap
with_rest h rs number = record h { regions = taken_part h ++ rs; consecutive_number = number }

with_rest-IsValid :
    (h : Heap) (rs : List Region) (number : ℕ)
    → IsValid h
    → Spaced (ends_free false (taken_part h)) rs
    → total rs ≡ total (rest_part h)
    → IsValid (with_rest h rs number)
with_rest-IsValid h rs number v sp e =
    let t = take-replaced h rs v in
    record {
      hint_in = omega (arith, length-append (taken_part h) rs, length-taken h v);
      hint_res = ap all_res t ∙ v.hint_res;
      hint_addr = v.hint_addr ∙ ap (λ l. heap_start + total l) (sym t);
      spaced = Spaced-append false (taken_part h) rs (Spaced-parts h v).0 sp;
      whole = omega (
        arith,
        total-append (taken_part h) rs,
        total-append (taken_part h) (rest_part h),
        ap total (take-append-drop h.first_free_region h.regions),
        v.whole,
      );
      bounded = v.bounded;
    }

settle-Tried :
    (size : ℕ) (h : Heap) (out : Option (List Region × ℕ))
    → IsValid h
    → Outcome h.max_count
        (length h.regions)
        size
        (heap_start + total (taken_part h))
        (ends_free false (taken_part h))
        (rest_part h)
        out
    → Tried size h (settle h out (hint_at h.first_free_region h.first_free_addr))
unfolding settle
settle-Tried size h none v o = (refl, o)
settle-Tried size h (some (rs, p)) v (inl (z, q, full)) =
    let e : taken_part h ++ rs ≡ h.regions =
      ap (λ l. taken_part h ++ l) q ∙ take-append-drop h.first_free_region h.regions in
    inl (
      z,
      ap₂
          (λ l (a : ℕ). record h {
            regions = l;
            consecutive_number =
                if a == 0 then h.consecutive_number else (h.consecutive_number + 1) % 2 ^ 64;
          })
          e z,
      full,
    )
settle-Tried size h (some (rs, p)) v (inr (low, t, sp)) =
    let t' = Taken-append (taken_part h) (rest_part h) rs size p t in
    inr (
      omega arith,
      subst (λ l. Taken heap_start l (taken_part h ++ rs) size p)
          (take-append-drop h.first_free_region h.regions) t',
      with_rest-IsValid h rs _ v sp t.same,
    )

pub try_regions-Tried :
    (size : ℕ) (h : Heap) → size < 2 ^ 63 → IsValid h → Tried size h (try_regions size 0 anywhere h)
unfolding try_regions
try_regions-Tried size h k v =
    let (_, sp) = Spaced-parts h v in
    let rs = rest_part h in
    let i = h.first_free_region in
    let n = length h.regions in
    let fits_in : heap_start + total (taken_part h) + total rs < 2 ^ 63 = omega (
      arith,
      total-append (taken_part h) rs,
      ap total (take-append-drop i h.regions),
      v.whole,
      v.bounded,
    ) in
    let same = hint-start h.max_count n h.consecutive_number size k i h.first_free_addr _ rs sp in
    let out =
      scan-Outcome h.max_count n h.consecutive_number size k i (heap_start + total (taken_part h))
        false (hint_at i (heap_start + total (taken_part h))) _ rs fits_in sp in
    rw same (settle-Tried size h _ v (rw (v.hint_addr) out))
