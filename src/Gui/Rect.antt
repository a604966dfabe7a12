-- ===== src/Gui/Rect.antt =====
-- Screen rectangles, kernel/src/gui/rect.c. Coordinates are `int`; edges are inclusive. A
-- `gui_list_t` is the list of its payloads, oldest first.
pub mod Split
pub mod Intersect
mod Tests
use os.Prelude.{ℕ, Bool, true, false, ◌&&◌, List, [], ◌∷◌, ◌++◌, Option, none, some, if◌then◌else◌}
use os.Prelude.Int.{ℤ, pos, ◌+ℤ◌, ◌-ℤ◌, leb_ℤ, ltb_ℤ}
use os.Alloc.{Mem, malloc}

pub record Rect : Type 0 where
  pub top : ℤ
  pub left : ℤ
  pub bottom : ℤ
  pub right : ℤ

abbrev pub rect : ℤ → ℤ → ℤ → ℤ → Rect
rect t l b r = record { top = t; left = l; bottom = b; right = r }

-- `rect_new`
pub rect_new : ℤ → ℤ → ℤ → ℤ → Mem → Option Rect × Mem
unfolding malloc
rect_new t l b r m = let (got, m') = malloc m in (if got then some (rect t l b r) else none, m')

-- `gui_list_add`, whose failure its callers do not look at: the payload is then not in the list.
pub gui_list_add : {A : Type 0} → List A → A → Mem → List A × Mem
unfolding malloc
gui_list_add l x m = let (got, m') = malloc m in (if got then l ++ x ∷ [] else l, m')

-- One of the four blocks of `rect_split`: where its test holds, the piece beyond the edge goes
-- to the output and `rest` becomes the subject. `none` is the return of NULL.
unfoldable pub cut : Bool → Rect → Rect → List Rect × Rect → Mem → Option (List Rect × Rect) × Mem
unfolding rect_new gui_list_add
cut false piece rest st m = (some st, m)
cut true piece rest (out, s) m =
    let (fresh, m1) = rect_new piece.top piece.left piece.bottom piece.right m in
    elim fresh [
      | none ↦ (none, m1)
      | some r ↦ let (out', m2) = gui_list_add out r m1 in (some (out', rest), m2)
    ]

infixl 5 ◌>>=◌
abbrev pub ◌>>=◌ :
    {A B : Type 0} → (Mem → Option A × Mem) → (A → Mem → Option B × Mem) → Mem → Option B × Mem
◌>>=◌ f k m = let (o, m') = f m in elim o [ none ↦ (none, m') | some a ↦ k a m' ]

unfoldable pub cut_left : Rect → List Rect × Rect → Mem → Option (List Rect × Rect) × Mem
unfolding cut
cut_left c (out, s) =
    cut (ltb_ℤ s.left c.left && leb_ℤ c.left s.right) (record s { right = c.left -ℤ pos 1 })
      (record s { left = c.left }) (out, s)

unfoldable pub cut_top : Rect → List Rect × Rect → Mem → Option (List Rect × Rect) × Mem
unfolding cut
cut_top c (out, s) =
    cut (ltb_ℤ s.top c.top && leb_ℤ c.top s.bottom) (record s { bottom = c.top -ℤ pos 1 })
      (record s { top = c.top }) (out, s)

unfoldable pub cut_right : Rect → List Rect × Rect → Mem → Option (List Rect × Rect) × Mem
unfolding cut
cut_right c (out, s) =
    cut (leb_ℤ s.left c.right && ltb_ℤ c.right s.right) (record s { left = c.right +ℤ pos 1 })
      (record s { right = c.right }) (out, s)

unfoldable pub cut_bottom : Rect → List Rect × Rect → Mem → Option (List Rect × Rect) × Mem
unfolding cut
cut_bottom c (out, s) =
    cut (leb_ℤ s.top c.bottom && ltb_ℤ c.bottom s.bottom) (record s { top = c.bottom +ℤ pos 1 })
      (record s { bottom = c.bottom }) (out, s)

-- `gui_list_new`
pub gui_list_new : {A : Type 0} → Mem → Option (List A) × Mem
unfolding malloc
gui_list_new m = let (got, m') = malloc m in (if got then some [] else none, m')

-- `rect_split`
pub rect_split : Rect → Rect → Mem → Option (List Rect) × Mem
unfolding gui_list_new
rect_split subject cutting = do
  out ← gui_list_new
  a ← cut_left cutting (out, subject)
  b ← cut_top cutting a
  c ← cut_right cutting b
  d ← cut_bottom cutting c
  λ m. (some d.0, m)

-- the guard of `rect_intersect`
pub overlaps : Rect → Rect → Bool
overlaps a b =
    leb_ℤ a.left b.right && (leb_ℤ b.left a.right && (leb_ℤ a.top b.bottom && leb_ℤ b.top a.bottom))

clip_left : Rect → Rect → Rect
clip_left b r =
    if leb_ℤ r.left b.left && leb_ℤ b.left r.right then record r { left = b.left } else r

clip_top : Rect → Rect → Rect
clip_top b r = if leb_ℤ r.top b.top && leb_ℤ b.top r.bottom then record r { top = b.top } else r

clip_right : Rect → Rect → Rect
clip_right b r =
    if leb_ℤ r.left b.right && leb_ℤ b.right r.right then record r { right = b.right } else r

clip_bottom : Rect → Rect → Rect
clip_bottom b r =
    if leb_ℤ r.top b.bottom && leb_ℤ b.bottom r.bottom then record r { bottom = b.bottom } else r

-- `rect_intersect`
pub rect_intersect : Rect → Rect → Mem → Option Rect × Mem
unfolding rect_new
rect_intersect a b m =
    if overlaps a b
    then (let (fresh, m') = rect_new a.top a.left a.bottom a.right m in
        elim fresh [
          | none ↦ (none, m')
          | some r ↦ (some (clip_bottom b (clip_right b (clip_top b (clip_left b r)))), m')
        ])
    else (none, m)

-- the pixel in row `y` and column `x`
unfoldable pub covers : Rect → ℤ → ℤ → Bool
covers r x y = leb_ℤ r.left x && (leb_ℤ x r.right && (leb_ℤ r.top y && leb_ℤ y r.bottom))
