-- ===== src/Mm/Heap/Blocks.antt =====
-- What a table of regions stands for: the allocated blocks, by address and size.
use os.Prelude.{
  ℕ, ◌+◌, ◌≤◌, ◌≡◌, refl, ap, ◌∙◌, Bool, true, false, not, ◌&&◌, List, [], ◌∷◌, ◌++◌, if◌then◌else◌,
  arith,
}
use os.Mm.Heap.{Region}

unfoldable pub total : List Region → ℕ
total [] = 0
total (r ∷ rs) = r.size + total rs

-- the blocks of a table that starts at the address `cur`
unfoldable pub blocks : ℕ → List Region → List (ℕ × ℕ)
blocks cur [] = []
blocks cur (r ∷ rs) =
    let rest = blocks (cur + r.size) rs in if r.res then (cur, r.size) ∷ rest else rest

unfoldable pub all_res : List Region → Bool
all_res [] = true
all_res (r ∷ rs) = r.res && all_res rs

-- No free region lies behind a free one; `free` says whether one lies before the table.
unfoldable pub Spaced : Bool → List Region → Type 0
Spaced free [] = Unit
Spaced free (r ∷ rs) = ((free && not r.res) ≡ false) × Spaced (not r.res) rs

pub total-append : (xs ys : List Region) → total (xs ++ ys) ≡ total xs + total ys
unfolding total
total-append [] ys = omega arith
total-append (x ∷ xs) ys = omega (arith, total-append xs ys)

pub blocks-append :
    (cur : ℕ) (xs ys : List Region)
    → blocks cur (xs ++ ys) ≡ blocks cur xs ++ blocks (cur + total xs) ys
unfolding blocks total
blocks-append cur [] ys = ap (λ c. blocks c ys) (omega arith)
blocks-append cur (x ∷ xs) ys =
    let e : cur + x.size + total xs ≡ cur + (x.size + total xs) = omega arith in
    let ih =
      blocks-append (cur + x.size) xs ys ∙ ap (λ c. blocks (cur + x.size) xs ++ blocks c ys) e in
    ground (arith, ih)

pub all_res-append : (xs ys : List Region) → all_res (xs ++ ys) ≡ (all_res xs && all_res ys)
unfolding all_res
all_res-append [] ys = refl
all_res-append (x ∷ xs) ys = ground (arith, all_res-append xs ys)

-- whether the last region is free, with `free` for an empty table
unfoldable pub ends_free : Bool → List Region → Bool
ends_free free [] = free
ends_free free (r ∷ rs) = ends_free (not r.res) rs

pub Spaced-append :
    (free : Bool) (xs ys : List Region)
    → Spaced free xs
    → Spaced (ends_free free xs) ys
    → Spaced free (xs ++ ys)
unfolding Spaced ends_free
Spaced-append free [] ys h k = k
Spaced-append free (x ∷ xs) ys (a, h) k = (a, Spaced-append (not x.res) xs ys h k)

pub Spaced-split :
    (free : Bool) (xs ys : List Region)
    → Spaced free (xs ++ ys)
    → Spaced free xs × Spaced (ends_free free xs) ys
unfolding Spaced ends_free
Spaced-split free [] ys h = (tt, h)
Spaced-split free (x ∷ xs) ys (a, h) = let (b, c) = Spaced-split (not x.res) xs ys h in ((a, b), c)

pub Spaced-lower : (free : Bool) (rs : List Region) → Spaced free rs → Spaced false rs
unfolding Spaced
Spaced-lower free [] h = tt
Spaced-lower free (r ∷ rs) (a, h) = (refl, h)

-- A block of `size` bytes or more at `a` is new, and the rest is as before.
pub record Taken (cur : ℕ) (rs rs' : List Region) (size a : ℕ) : Type 0 where
  pub given : ℕ
  pub enough : size ≤ given
  pub before : List (ℕ × ℕ)
  pub behind : List (ℕ × ℕ)
  pub was : blocks cur rs ≡ before ++ behind
  pub is : blocks cur rs' ≡ before ++ (a, given) ∷ behind
  pub same : total rs' ≡ total rs
