-- ===== src/Gui/Rect/Intersect.antt =====
-- `rect_intersect` gives exactly the common pixels.
use os.Prelude.{
  ℕ, suc, ◌≡◌, Bool, true, false, ◌&&◌, Option, none, some, if◌then◌else◌, arith, ◌∙◌, ap₂, sym,
  inl, inr, Bool-cases,
}
use os.Prelude.Int.{ℤ, leb_ℤ}
use os.Alloc.{malloc, plenty}
use os.Gui.Rect.{
  Rect, rect_new, clip_left, clip_top, clip_right, clip_bottom, rect_intersect, overlaps, covers,
}
use os.Gui.Rect.Split.{Proper, regroup, assoc}

-- One axis of the intersection of the intervals `l..r` and `a..b`.
module _ (l r a b x : ℤ) (proper : leb_ℤ a b ≡ true) (meets : (leb_ℤ l b && leb_ℤ a r) ≡ true) where
  axis :
      let l' = if leb_ℤ l a && leb_ℤ a r then a else l in
      let r' = if leb_ℤ l' b && leb_ℤ b r then b else r in
      (leb_ℤ l' x && leb_ℤ x r') ≡ ((leb_ℤ l x && leb_ℤ x r) && (leb_ℤ a x && leb_ℤ x b))
  axis = ground arith

-- `a` clipped to `b`, an edge at a time
clipped : Rect → Rect → Rect
clipped a b =
    let l = if leb_ℤ a.left b.left && leb_ℤ b.left a.right then b.left else a.left in
    let t = if leb_ℤ a.top b.top && leb_ℤ b.top a.bottom then b.top else a.top in
    record {
      top = t;
      left = l;
      bottom = if leb_ℤ t b.bottom && leb_ℤ b.bottom a.bottom then b.bottom else a.bottom;
      right = if leb_ℤ l b.right && leb_ℤ b.right a.right then b.right else a.right;
    }

-- Each clip writes one field.
clip_left_lem :
    (b r : Rect)
    → clip_left b r
      ≡ record r { left = if leb_ℤ r.left b.left && leb_ℤ b.left r.right then b.left else r.left }
unfolding clip_left
clip_left_lem b r = elim (Bool-cases (leb_ℤ r.left b.left && leb_ℤ b.left r.right)) [
  | inl e ↦ rw e
  | inr e ↦ rw e
]

clip_top_lem :
    (b r : Rect)
    → clip_top b r
      ≡ record r { top = if leb_ℤ r.top b.top && leb_ℤ b.top r.bottom then b.top else r.top }
unfolding clip_top
clip_top_lem b r = elim (Bool-cases (leb_ℤ r.top b.top && leb_ℤ b.top r.bottom)) [
  | inl e ↦ rw e
  | inr e ↦ rw e
]

clip_right_lem :
    (b r : Rect)
    → clip_right b r ≡ record r {
      right = if leb_ℤ r.left b.right && leb_ℤ b.right r.right then b.right else r.right;
    }
unfolding clip_right
clip_right_lem b r = elim (Bool-cases (leb_ℤ r.left b.right && leb_ℤ b.right r.right)) [
  | inl e ↦ rw e
  | inr e ↦ rw e
]

clip_bottom_lem :
    (b r : Rect)
    → clip_bottom b r ≡ record r {
      bottom = if leb_ℤ r.top b.bottom && leb_ℤ b.bottom r.bottom then b.bottom else r.bottom;
    }
unfolding clip_bottom
clip_bottom_lem b r = elim (Bool-cases (leb_ℤ r.top b.bottom && leb_ℤ b.bottom r.bottom)) [
  | inl e ↦ rw e
  | inr e ↦ rw e
]

clip-clipped :
    (a b : Rect) → clip_bottom b (clip_right b (clip_top b (clip_left b a))) ≡ clipped a b
unfolding clipped
clip-clipped a b = rw (clip_left_lem, clip_top_lem, clip_right_lem, clip_bottom_lem)

clipped-covers :
    (a b : Rect) (x y : ℤ)
    → Proper b
    → overlaps a b ≡ true
    → covers (clipped a b) x y ≡ (covers a x y && covers b x y)
unfolding covers overlaps clipped
clipped-covers a b x y p h =
    let r = clipped a b in
    assoc (leb_ℤ r.left x) (leb_ℤ x r.right) (leb_ℤ r.top y) (leb_ℤ y r.bottom)
    ∙ ap₂ ◌&&◌ (axis a.left a.right b.left b.right x p.0 (ground arith))
        (axis a.top a.bottom b.top b.bottom y p.1 (ground arith))
    ∙ regroup (leb_ℤ a.left x) (leb_ℤ x a.right) (leb_ℤ a.top y) (leb_ℤ y a.bottom) (leb_ℤ b.left x)
        (leb_ℤ x b.right) (leb_ℤ b.top y) (leb_ℤ y b.bottom)

axis_apart :
    (l r a b x : ℤ)
    → (leb_ℤ l b && leb_ℤ a r) ≡ false
    → ((leb_ℤ l x && leb_ℤ x r) && (leb_ℤ a x && leb_ℤ x b)) ≡ false
axis_apart l r a b x h = ground arith

false-and :
    (p q u v : Bool)
    → (p ≡ false → u ≡ false)
    → (q ≡ false → v ≡ false)
    → (p && q) ≡ false
    → (u && v) ≡ false
false-and p q u v f g h = ground arith

common-overlaps :
    (a b : Rect) (x y : ℤ) → overlaps a b ≡ false → (covers a x y && covers b x y) ≡ false
unfolding covers overlaps
common-overlaps a b x y h =
    sym (
      regroup (leb_ℤ a.left x) (leb_ℤ x a.right) (leb_ℤ a.top y) (leb_ℤ y a.bottom) (leb_ℤ b.left x)
        (leb_ℤ x b.right) (leb_ℤ b.top y) (leb_ℤ y b.bottom))
    ∙ false-and _ _ _ _ (axis_apart a.left a.right b.left b.right x)
        (axis_apart a.top a.bottom b.top b.bottom y)
        (sym (
            assoc (leb_ℤ a.left b.right) (leb_ℤ b.left a.right) (leb_ℤ a.top b.bottom)
              (leb_ℤ b.top a.bottom))
          ∙ h)

-- the answer of `rect_intersect`, at one pixel
abbrev pub Common : Rect → Rect → ℤ → ℤ → Option Rect → Type 0
Common a b x y none = (overlaps a b ≡ false) × ((covers a x y && covers b x y) ≡ false)
Common a b x y (some r) = (overlaps a b ≡ true) × (covers r x y ≡ (covers a x y && covers b x y))

-- If the call of `malloc` succeeds and the second rectangle has pixels, `rect_intersect` returns
-- NULL just where the rectangles do not overlap, and then they have no common pixel; else the
-- rectangle that it returns holds exactly the common pixels.
pub rect_intersect-Common :
    (a b : Rect) (x y : ℤ) (n : ℕ)
    → Proper b
    → Common a b x y (rect_intersect a b (plenty (suc n))).0
unfolding rect_intersect rect_new malloc
rect_intersect-Common a b x y n p = elim (Bool-cases (overlaps a b)) [
  | inl e ↦ rw (e, clip-clipped a b) (e, clipped-covers a b x y p e)
  | inr e ↦ rw e (e, common-overlaps a b x y e)
]
