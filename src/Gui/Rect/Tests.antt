-- ===== src/Gui/Rect/Tests.antt =====
-- Runs of the rectangle functions.
use os.Prelude.{◌≡◌, refl, true, false, [], ◌∷◌, some, arith}
use os.Prelude.Int.{pos, ◌+ℤ◌, ◌-ℤ◌}
use os.Alloc.{plenty}
use os.Gui.Rect.{
  Rect, rect, rect_split, rect_intersect, overlaps, cut_left, cut_top, cut_right, cut_bottom,
}
use os.Gui.Rect.Split.{Pieces, rect_split-Pieces}
use os.Gui.Rect.Intersect.{Common, rect_intersect-Common}

abbrev screen : Rect
screen = rect (pos 0) (pos 0) (pos 9) (pos 9)

abbrev window : Rect
window = rect (pos 2) (pos 3) (pos 5) (pos 12)

split-screen :
    (rect_split screen window (plenty 9)).0
    ≡ some (
        rect (pos 0) (pos 0) (pos 9) (pos 2)
        ∷ rect (pos 0) (pos 3) (pos 1) (pos 9)
        ∷ rect (pos 6) (pos 3) (pos 9) (pos 9)
        ∷ [])
unfolding rect_split cut_left cut_top cut_right cut_bottom ◌+ℤ◌ ◌-ℤ◌
split-screen = refl

-- A list node that is not to be had drops its piece without a word.
split_drops_a_piece :
    (rect_split screen window (true ∷ true ∷ false ∷ plenty 6)).0
    ≡ some (rect (pos 0) (pos 3) (pos 1) (pos 9) ∷ rect (pos 6) (pos 3) (pos 9) (pos 9) ∷ [])
unfolding rect_split cut_left cut_top cut_right cut_bottom ◌+ℤ◌ ◌-ℤ◌
split_drops_a_piece = refl

rect_split-Pieces_example :
    Pieces screen window (pos 4) (pos 7) (rect_split screen window (plenty 9)).0
unfolding overlaps
rect_split-Pieces_example =
    rect_split-Pieces screen window (pos 4) (pos 7) 9 (omega arith) (refl, refl) refl

rect_intersect-Common_example :
    Common screen window (pos 4) (pos 4) (rect_intersect screen window (plenty 1)).0
rect_intersect-Common_example = rect_intersect-Common screen window (pos 4) (pos 4) 0 (refl, refl)
