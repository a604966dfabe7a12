-- ===== src/Gui/Rect/Split.antt =====
-- `rect_split` cuts the subject into disjoint pieces that cover what the other rectangle leaves.
use os.Prelude.{
  ℕ, zero, suc, ◌+◌, ◌≤◌, ◌≡◌, refl, Bool, true, false, ◌&&◌, not, List, [], ◌∷◌, ◌++◌, Option,
  none, some, if◌then◌else◌, arith, ◌∙◌, ap₂, subst, sym,
}
use os.Prelude.Int.{ℤ, pos, ◌+ℤ◌, ◌-ℤ◌, leb_ℤ, ltb_ℤ, +ℤ_parts, -ℤ_parts}
use os.Alloc.{Mem, plenty}
use os.Gui.Rect.{Rect, cut, cut_left, cut_top, cut_right, cut_bottom, rect_split, overlaps, covers}

unfoldable pub bit : Bool → ℕ
bit b = if b then 1 else 0

-- how many rectangles of a list cover a pixel
unfoldable pub covering : List Rect → ℤ → ℤ → ℕ
covering [] x y = 0
covering (r ∷ rs) x y = bit (covers r x y) + covering rs x y

covering-append :
    (rs : List Rect) (r : Rect) (x y : ℤ)
    → covering (rs ++ r ∷ []) x y ≡ covering rs x y + bit (covers r x y)
unfolding covering
covering-append [] r x y = omega arith
covering-append (q ∷ rs) r x y = omega (arith, covering-append rs r x y)

-- the pixel's count over the output and the subject that is left
total : List Rect × Rect → ℤ → ℤ → ℕ
total (out, s) x y = covering out x y + bit (covers s x y)

module _ (c s : Rect) (x y : ℤ) where
  left_piece :
      (ltb_ℤ s.left c.left && leb_ℤ c.left s.right) ≡ true
      → bit (covers (record s { right = c.left -ℤ pos 1 }) x y)
          + bit (covers (record s { left = c.left }) x y)
        ≡ bit (covers s x y)
  unfolding bit covers
  left_piece h = ground (arith, -ℤ_parts c.left (pos 1))

  top_piece :
      (ltb_ℤ s.top c.top && leb_ℤ c.top s.bottom) ≡ true
      → bit (covers (record s { bottom = c.top -ℤ pos 1 }) x y)
          + bit (covers (record s { top = c.top }) x y)
        ≡ bit (covers s x y)
  unfolding bit covers
  top_piece h = ground (arith, -ℤ_parts c.top (pos 1))

  right_piece :
      (leb_ℤ s.left c.right && ltb_ℤ c.right s.right) ≡ true
      → bit (covers (record s { left = c.right +ℤ pos 1 }) x y)
          + bit (covers (record s { right = c.right }) x y)
        ≡ bit (covers s x y)
  unfolding bit covers
  right_piece h = ground (arith, +ℤ_parts c.right (pos 1))

  bottom_piece :
      (leb_ℤ s.top c.bottom && ltb_ℤ c.bottom s.bottom) ≡ true
      → bit (covers (record s { top = c.bottom +ℤ pos 1 }) x y)
          + bit (covers (record s { bottom = c.bottom }) x y)
        ≡ bit (covers s x y)
  unfolding bit covers
  bottom_piece h = ground (arith, +ℤ_parts c.bottom (pos 1))

-- the subject behind a cut
abbrev trim {ℓ} : {A : Type ℓ} → Bool → A → A → A
trim b rest s = if b then rest else s

-- One axis: the two cuts leave the common part of the intervals `l..r` and `a..b`.
module _ (l r a b x : ℤ) (proper : leb_ℤ a b ≡ true) (meets : (leb_ℤ l b && leb_ℤ a r) ≡ true) where
  axis :
      let l' = trim (ltb_ℤ l a && leb_ℤ a r) a l in
      let r' = trim (leb_ℤ l' b && ltb_ℤ b r) b r in
      (leb_ℤ l' x && leb_ℤ x r') ≡ ((leb_ℤ l x && leb_ℤ x r) && (leb_ℤ a x && leb_ℤ x b))
  axis = ground arith

-- a rectangle with at least one pixel
abbrev pub Proper : Rect → Type 0
Proper r = (leb_ℤ r.left r.right ≡ true) × (leb_ℤ r.top r.bottom ≡ true)

after_left : Rect → Rect → Rect
after_left c s = record s {
  left = trim (ltb_ℤ s.left c.left && leb_ℤ c.left s.right) c.left s.left;
}

after_top : Rect → Rect → Rect
after_top c s = record s { top = trim (ltb_ℤ s.top c.top && leb_ℤ c.top s.bottom) c.top s.top }

after_right : Rect → Rect → Rect
after_right c s = record s {
  right = trim (leb_ℤ s.left c.right && ltb_ℤ c.right s.right) c.right s.right;
}

after_bottom : Rect → Rect → Rect
after_bottom c s = record s {
  bottom = trim (leb_ℤ s.top c.bottom && ltb_ℤ c.bottom s.bottom) c.bottom s.bottom;
}

leftover : Rect → Rect → Rect
unfolding after_left after_top after_right after_bottom
leftover c s = after_bottom c (after_right c (after_top c (after_left c s)))

pub regroup :
    (a b c d e f g h : Bool)
    → ((a && b) && (e && f)) && ((c && d) && (g && h))
      ≡ ((a && (b && (c && d))) && (e && (f && (g && h))))
regroup a b c d e f g h = ground arith

pub assoc : (a b c d : Bool) → (a && (b && (c && d))) ≡ ((a && b) && (c && d))
assoc a b c d = ground arith

-- What is left of the subject after the cuts is the common part, if there is one.
leftover-covers :
    (c s : Rect) (x y : ℤ)
    → Proper c
    → overlaps s c ≡ true
    → covers (leftover c s) x y ≡ (covers s x y && covers c x y)
unfolding covers overlaps leftover
leftover-covers c s x y p h =
    let r = leftover c s in
    assoc (leb_ℤ r.left x) (leb_ℤ x r.right) (leb_ℤ r.top y) (leb_ℤ y r.bottom)
    ∙ ap₂ ◌&&◌ (axis s.left s.right c.left c.right x p.0 (ground arith))
        (axis s.top s.bottom c.top c.bottom y p.1 (ground arith))
    ∙ regroup (leb_ℤ s.left x) (leb_ℤ x s.right) (leb_ℤ s.top y) (leb_ℤ y s.bottom) (leb_ℤ c.left x)
        (leb_ℤ x c.right) (leb_ℤ c.top y) (leb_ℤ y c.bottom)

-- What a cut gives when its two calls of `malloc` succeed.
record Cut (x y : ℤ) (st : List Rect × Rect) (rest : Rect) (n : ℕ)
    (r : Option (List Rect × Rect) × Mem) : Type 0 where
  out : List Rect
  left : ℕ
  result : r ≡ (some (out, rest), plenty left)
  enough : n ≤ left + 2
  kept : covering out x y + bit (covers rest x y) ≡ covering st.0 x y + bit (covers st.1 x y)

cut_keeps :
    (x y : ℤ) (b : Bool) (piece rest rest' s : Rect) (out : List Rect) (n : ℕ)
    → 2 ≤ n
    → rest' ≡ trim b rest s
    → (b ≡ true → bit (covers piece x y) + bit (covers rest x y) ≡ bit (covers s x y))
    → Cut x y (out, s) rest' n (cut b piece rest (out, s) (plenty n))
unfolding cut
cut_keeps x y false piece rest rest' s out n le e h = record {
  out = out;
  left = n;
  result = rw e;
  enough = omega arith;
  kept = rw e;
}
cut_keeps x y true piece rest rest' s out (suc (suc n)) le e h = record {
  out = out ++ piece ∷ [];
  left = n;
  result = rw e;
  enough = omega arith;
  kept = rw e (omega (arith, covering-append out piece x y, h refl));
}
cut_keeps x y true piece rest rest' s out n le e h = absurd (omega arith)

trim-left :
    (b : Bool) (v : ℤ) (s : Rect)
    → record s { left = trim b v s.left } ≡ trim b (record s { left = v }) s
trim-left b v s = ground arith

trim-top :
    (b : Bool) (v : ℤ) (s : Rect)
    → record s { top = trim b v s.top } ≡ trim b (record s { top = v }) s
trim-top b v s = ground arith

trim-right :
    (b : Bool) (v : ℤ) (s : Rect)
    → record s { right = trim b v s.right } ≡ trim b (record s { right = v }) s
trim-right b v s = ground arith

trim-bottom :
    (b : Bool) (v : ℤ) (s : Rect)
    → record s { bottom = trim b v s.bottom } ≡ trim b (record s { bottom = v }) s
trim-bottom b v s = ground arith

module _ (c s : Rect) (out : List Rect) (x y : ℤ) (n : ℕ) (le : 2 ≤ n) where
  cut_left-Cut : Cut x y (out, s) (after_left c s) n (cut_left c (out, s) (plenty n))
  unfolding cut_left after_left
  cut_left-Cut = cut_keeps x y _ _ _ _ s out n le (trim-left _ c.left s) (left_piece c s x y)

  cut_top-Cut : Cut x y (out, s) (after_top c s) n (cut_top c (out, s) (plenty n))
  unfolding cut_top after_top
  cut_top-Cut = cut_keeps x y _ _ _ _ s out n le (trim-top _ c.top s) (top_piece c s x y)

  cut_right-Cut : Cut x y (out, s) (after_right c s) n (cut_right c (out, s) (plenty n))
  unfolding cut_right after_right
  cut_right-Cut = cut_keeps x y _ _ _ _ s out n le (trim-right _ c.right s) (right_piece c s x y)

  cut_bottom-Cut : Cut x y (out, s) (after_bottom c s) n (cut_bottom c (out, s) (plenty n))
  unfolding cut_bottom after_bottom
  cut_bottom-Cut =
      cut_keeps x y _ _ _ _ s out n le (trim-bottom _ c.bottom s) (bottom_piece c s x y)

-- the pieces of `s` that `rect_split` gives for `c`
abbrev pub Pieces : Rect → Rect → ℤ → ℤ → Option (List Rect) → Type 0
Pieces s c x y none = ⊥
Pieces s c x y (some rs) = covering rs x y ≡ bit (covers s x y && not (covers c x y))

covering-split :
    (rs : List Rect) (s r : Rect) (b : Bool) (x y : ℤ)
    → covering rs x y + bit (covers r x y) ≡ covering [] x y + bit (covers s x y)
    → covers r x y ≡ (covers s x y && b)
    → covering rs x y ≡ bit (covers s x y && not b)
unfolding bit covering
covering-split rs s r b x y h e = ground arith

-- If both calls of `malloc` for each piece and the one for the list succeed, and the cutting
-- rectangle has pixels and meets the subject, `rect_split` returns a list in which each pixel of
-- the subject outside the cutting rectangle lies in exactly one rectangle, and every other pixel
-- in none.
pub rect_split-Pieces :
    (s c : Rect) (x y : ℤ) (n : ℕ)
    → 9 ≤ n
    → Proper c
    → overlaps s c ≡ true
    → Pieces s c x y (rect_split s c (plenty n)).0
unfolding rect_split
rect_split-Pieces s c x y (suc n) le p h =
    let l = cut_left-Cut c s [] x y n (omega arith) in
    let s1 = after_left c s in
    let t = cut_top-Cut c s1 l.out x y l.left (omega (arith, l.enough)) in
    let s2 = after_top c s1 in
    let r = cut_right-Cut c s2 t.out x y t.left (omega (arith, l.enough, t.enough)) in
    let s3 = after_right c s2 in
    let b = cut_bottom-Cut c s3 r.out x y r.left (omega (arith, l.enough, t.enough, r.enough)) in
    let result : rect_split s c (plenty (suc n)) ≡ (some b.out, plenty b.left) =
      ground (arith, l.result, t.result, r.result, b.result) in
    subst (λ o. Pieces s c x y o.0) (sym result)
      (covering-split b.out s (leftover c s) (covers c x y) x y
        (unfold leftover in b.kept ∙ r.kept ∙ t.kept ∙ l.kept) (leftover-covers c s x y p h))
rect_split-Pieces s c x y zero le p h = absurd (omega arith)
