-- ===== src/Mm/Heap/Scan.antt =====
-- The loop of `kmalloc` with no alignment.
use os.Prelude.{
  ℕ, ◌+◌, ◌-◌, ◌^◌, ◌≤◌, ◌<◌, ◌≡◌, refl, ap, subst, ◌∙◌, Bool, true, false, not, ◌&&◌, ◌||◌, List,
  [], ◌∷◌, ◌++◌, Option, none, some, if◌then◌else◌, ltb, leb, arith, ◌⊎◌, inl, inr, Bool-cases,
}
use os.Mm.Heap.{Region, region, Hint, hint_at, scan, fits, place, take_region, align_up, anywhere}
use os.Mm.Heap.Blocks.{total, blocks, Spaced, Spaced-lower, Taken}

fits-free :
    (size addr : ℕ) (r : Region)
    → size < 2 ^ 63
    → addr < 2 ^ 63
    → fits size 0 anywhere addr r ≡ (not r.res && leb size r.size)
unfolding fits align_up
fits-free size addr r h k = ground arith

place-free :
    (max_count count number size addr : ℕ) (r : Region)
    → size < 2 ^ 63
    → addr < 2 ^ 63
    → place max_count count number size 0 addr r ≡ (
        if ltb size r.size
        then if leb (count + 1) max_count
          then (region true size number ∷ region false (r.size - size) 0 ∷ [], addr)
          else (r ∷ [], 0)
        else (region true r.size number ∷ [], addr))
unfolding place take_region align_up
place-free max_count count number size addr r h k = ground arith

-- every free region has fewer than `size` bytes
unfoldable pub AllSmall : ℕ → List Region → Type 0
AllSmall size [] = Unit
AllSmall size (r ∷ rs) = ((not r.res && leb size r.size) ≡ false) × AllSmall size rs

-- What the loop returns: no region is large enough, the table is full, or a block is taken.
abbrev pub Outcome : ℕ → ℕ → ℕ → ℕ → Bool → List Region → Option (List Region × ℕ) → Type 0
Outcome max_count count size cur free rs none = AllSmall size rs
Outcome max_count count size cur free rs (some (rs', a)) =
    ((a ≡ 0) × (rs' ≡ rs) × (max_count ≤ count))
    ⊎ ((cur ≤ a) × Taken cur rs rs' size a × Spaced free rs')

abbrev behind : Region → Option (List Region × ℕ) → Option (List Region × ℕ)
behind r none = none
behind r (some (rs, a)) = some (r ∷ rs, a)

Taken-behind :
    (cur size a : ℕ) (r : Region) (rs rs' : List Region)
    → Taken (cur + r.size) rs rs' size a
    → Taken cur (r ∷ rs) (r ∷ rs') size a
unfolding blocks total
Taken-behind cur size a r rs rs' t = record {
  given = t.given;
  enough = t.enough;
  before = if r.res then (cur, r.size) ∷ t.before else t.before;
  behind = t.behind;
  was = ground (arith, t.was);
  is = ground (arith, t.is);
  same = omega (arith, t.same);
}

-- a free region taken whole, and one that is cut
Taken-whole :
    (cur size number : ℕ) (r : Region) (rs : List Region)
    → r.res ≡ false
    → size ≤ r.size
    → Taken cur (r ∷ rs) (region true r.size number ∷ rs) size cur
unfolding blocks total
Taken-whole cur size number r rs e k = record {
  given = r.size;
  enough = k;
  before = [];
  behind = blocks (cur + r.size) rs;
  was = ground (arith, e);
  is = refl;
  same = refl;
}

Taken-cut :
    (cur size number : ℕ) (r : Region) (rs : List Region)
    → r.res ≡ false
    → size < r.size
    → Taken cur (r ∷ rs) (region true size number ∷ region false (r.size - size) 0 ∷ rs) size cur
unfolding blocks total
Taken-cut cur size number r rs e k =
    let q : cur + size + (r.size - size) ≡ cur + r.size = omega arith in
    record {
      given = size;
      enough = omega arith;
      before = [];
      behind = blocks (cur + r.size) rs;
      was = ground (arith, e);
      is = ap (λ c. (cur, size) ∷ blocks c rs) q;
      same = omega arith;
    }

module _ (max_count count number size : ℕ) (h : size < 2 ^ 63) where
  abbrev scan_zero : ℕ → ℕ → Bool → Hint → List Region → Option (List Region × ℕ) × Hint
  scan_zero i addr found hint rs = scan max_count count number size 0 anywhere i addr found hint rs

  scan-hit :
      (i addr : ℕ) (found : Bool) (hint : Hint) (r : Region) (rs : List Region)
      → fits size 0 anywhere addr r ≡ true
      → (scan_zero i addr found hint (r ∷ rs)).0
        ≡ (let (placed, a) = place max_count count number size 0 addr r in some (placed ++ rs, a))
  unfolding scan
  scan-hit i addr found hint r rs e = ground arith

  scan-miss :
      (i addr : ℕ) (found : Bool) (hint : Hint) (r : Region) (rs : List Region)
      → fits size 0 anywhere addr r ≡ false
      → (scan_zero i addr found hint (r ∷ rs)).0
        ≡ behind r
            (scan_zero
              (i + 1)
              (addr + r.size)
              (r.res || found)
              (if r.res || found then hint else hint_at i addr)
              rs).0
  unfolding scan
  scan-miss i addr found hint r rs e = ground arith

  hit-Outcome :
      (cur : ℕ) (free : Bool) (r : Region) (rs : List Region)
      → cur < 2 ^ 63
      → (not r.res && leb size r.size) ≡ true
      → Spaced free (r ∷ rs)
      → Outcome max_count count size cur free
          (r ∷ rs)
          (let (placed, a) = place max_count count number size 0 cur r in some (placed ++ rs, a))
  unfolding blocks total Spaced
  hit-Outcome cur free r rs k e sp =
      let free_here : r.res ≡ false = ground arith in
      let large : size ≤ r.size = ground arith in
      rw (place-free max_count count number size cur r h k) (elim (Bool-cases (ltb size r.size)) [
        | inl cut ↦ elim (Bool-cases (leb (count + 1) max_count)) [
          | inl room ↦
              rw (cut, room)
                (inr (
                  omega arith,
                  Taken-cut cur size number r rs free_here (ground arith),
                  ground arith,
                ))
          | inr full ↦ rw (cut, full) (inl (refl, refl, ground arith))
        ]
        | inr whole ↦ rw whole (
            inr (
              omega arith,
              Taken-whole cur size number r rs free_here large,
              (ground arith, Spaced-lower _ rs sp.1),
            ))
      ])

  behind-Outcome :
      (cur : ℕ) (free : Bool) (r : Region) (rs : List Region) (out : Option (List Region × ℕ))
      → (not r.res && leb size r.size) ≡ false
      → Spaced free (r ∷ rs)
      → Outcome max_count count size (cur + r.size) (not r.res) rs out
      → Outcome max_count count size cur free (r ∷ rs) (behind r out)
  unfolding blocks total Spaced AllSmall
  behind-Outcome cur free r rs none e sp o = (e, o)
  behind-Outcome cur free r rs (some (rs', a)) e sp (inl (z, q, f)) = inl (z, ap (λ l. r ∷ l) q, f)
  behind-Outcome cur free r rs (some (rs', a)) e sp (inr (c, t, s)) =
      inr (omega arith, Taken-behind cur size a r rs rs' t, (sp.0, s))

  pub scan-Outcome :
      (i cur : ℕ) (found : Bool) (hint : Hint) (free : Bool) (rs : List Region)
      → cur + total rs < 2 ^ 63
      → Spaced free rs
      → Outcome max_count count size cur free rs (scan_zero i cur found hint rs).0
  unfolding scan total Spaced AllSmall
  scan-Outcome i cur found hint free [] w sp = tt
  scan-Outcome i cur found hint free (r ∷ rs) w sp =
      let fit = fits-free size cur r h (omega arith) in
      elim (Bool-cases (not r.res && leb size r.size)) [
        | inl e ↦
            rw (scan-hit i cur found hint r rs (fit ∙ e))
              (hit-Outcome cur free r rs (omega arith) e sp)
        | inr e ↦ rw (scan-miss i cur found hint r rs (fit ∙ e)) (
            behind-Outcome cur free r rs _ e sp (
              scan-Outcome (i + 1) (cur + r.size) (r.res || found)
                (if r.res || found then hint else hint_at i cur) (not r.res) rs (omega arith) sp.1))
      ]

  -- Once a reserved region was met the hint stays, and so it does behind a free one.
  hint-found :
      (i cur : ℕ) (hint : Hint) (rs : List Region) → (scan_zero i cur true hint rs).1 ≡ hint
  unfolding scan
  hint-found i cur hint [] = refl
  hint-found i cur hint (r ∷ rs) = ground (arith, hint-found (i + 1) (cur + r.size) hint rs)

  hint-behind :
      (i cur : ℕ) (hint : Hint) (rs : List Region)
      → Spaced true rs
      → (scan_zero i cur false hint rs).1 ≡ hint
  unfolding scan Spaced
  hint-behind i cur hint [] sp = refl
  hint-behind i cur hint (r ∷ rs) sp =
      let reserved : r.res ≡ true = ground arith in
      ground (arith, hint-found (i + 1) (cur + r.size) hint rs)

  -- So the loop leaves the hint that it starts at.
  pub hint-start :
      (i cur : ℕ) (free : Bool) (rs : List Region)
      → Spaced free rs
      → (scan_zero i cur false (hint_at i cur) rs).1 ≡ hint_at i cur
  unfolding scan Spaced
  hint-start i cur free [] sp = refl
  hint-start i cur free (r ∷ rs) sp = elim (Bool-cases r.res) [
    | inl e ↦ ground (arith, e, hint-found (i + 1) (cur + r.size) (hint_at i cur) rs)
    | inr e ↦
        let sp' : Spaced true rs = subst (λ b. Spaced (not b) rs) e sp.1 in
        ground (arith, e, hint-behind (i + 1) (cur + r.size) (hint_at i cur) rs sp')
  ]
