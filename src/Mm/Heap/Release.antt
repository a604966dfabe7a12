-- ===== src/Mm/Heap/Release.antt =====
-- A block that is given back, and the free regions beside it.
use os.Prelude.{
  ℕ, suc, ◌+◌, ◌%◌, ◌^◌, ◌<◌, ◌≡◌, refl, sym, ap, subst, ◌∙◌, Bool, true, false, not, ◌&&◌, List,
  [], ◌∷◌, ◌++◌, if◌then◌else◌, ◌==◌, length, take, arith, Bool-cases, ◌⊎◌, inl, inr,
}
use os.Mm.Heap.{Region, region, release, join}
use os.Mm.Heap.Blocks.{total, blocks, all_res, Spaced}

-- no block of the list is at the address
abbrev pub NoBlock : ℕ → List (ℕ × ℕ) → Type 0
NoBlock addr [] = Unit
NoBlock addr ((a, s) ∷ l) = ((a == addr) ≡ false) × NoBlock addr l

-- The block at `addr` goes; the table changes at the index `d` and behind it alone, where a free
-- region was or the block began.
pub record Freed (addr cur : ℕ) (free : Bool) (rs rs' : List Region) (d : ℕ) : Type 0 where
  pub given : ℕ
  pub before : List (ℕ × ℕ)
  pub behind : List (ℕ × ℕ)
  pub was : blocks cur rs ≡ before ++ (addr, given) ∷ behind
  pub first : NoBlock addr before
  pub is : blocks cur rs' ≡ before ++ behind
  pub same : total rs' ≡ total rs
  pub spaced : Spaced free rs'
  pub prefix : take d rs' ≡ take d rs
  pub inside : d < length rs'
  pub place : (addr ≡ cur + total (take d rs)) ⊎ (all_res (take (suc d) rs) ≡ false)

-- what is left of a block that is released: a free region, and a table that starts reserved
record Released (cur : ℕ) (r : Region) (rs : List Region) : Type 0 where
  room : ℕ
  tail : List Region
  shape : release r rs ≡ region false room 0 ∷ tail
  spaced : Spaced true tail
  held_same : blocks (cur + room) tail ≡ blocks (cur + r.size) rs
  same : room + total tail ≡ r.size + total rs

release-Released :
    (cur : ℕ) (r : Region) (rs : List Region)
    → r.size + total rs < 2 ^ 63
    → Spaced false rs
    → Released cur r rs
unfolding release Spaced blocks total
release-Released cur r [] h sp = record {
  room = r.size;
  tail = [];
  shape = refl;
  spaced = tt;
  held_same = refl;
  same = refl;
}
release-Released cur r (n ∷ rs) h sp = elim (Bool-cases n.res) [
  | inl e ↦ record {
    room = r.size;
    tail = n ∷ rs;
    shape = rw e refl;
    spaced = (ground arith, sp.1);
    held_same = refl;
    same = refl;
  }
  | inr e ↦ record {
    room = r.size + n.size;
    tail = rs;
    shape = rw e (ap (λ s. region false s 0 ∷ rs) (omega arith));
    spaced = subst (λ b. Spaced (not b) rs) e sp.1;
    held_same = rw e (ap (λ c. blocks c rs) (omega arith));
    same = omega arith;
  }
]

pub NoBlock-behind :
    (addr cur : ℕ) (p : Region) (l : List (ℕ × ℕ))
    → (cur == addr && p.res) ≡ false
    → NoBlock addr l
    → NoBlock addr (if p.res then (cur, p.size) ∷ l else l)
NoBlock-behind addr cur p l miss h = elim (Bool-cases p.res) [
  | inl e ↦ rw e (ground arith, h)
  | inr e ↦ rw e h
]

pub Freed-behind :
    (addr cur : ℕ) (free : Bool) (p : Region) (rs rs' : List Region) (d : ℕ)
    → (cur == addr && p.res) ≡ false
    → (free && not p.res) ≡ false
    → Freed addr (cur + p.size) (not p.res) rs rs' d
    → Freed addr cur free (p ∷ rs) (p ∷ rs') (suc d)
unfolding blocks total Spaced all_res
Freed-behind addr cur free p rs rs' d miss gap f = record {
  given = f.given;
  before = if p.res then (cur, p.size) ∷ f.before else f.before;
  behind = f.behind;
  was = ground (arith, f.was);
  first = NoBlock-behind addr cur p f.before miss f.first;
  is = ground (arith, f.is);
  same = omega (arith, f.same);
  spaced = (gap, f.spaced);
  prefix = ap (λ l. p ∷ l) f.prefix;
  inside = omega (arith, f.inside);
  place = ground (arith, f.place);
}

-- The block is at the head, with no free region before it.
pub Freed-head :
    (addr cur : ℕ) (r : Region) (rs : List Region)
    → cur ≡ addr
    → r.res ≡ true
    → r.size + total rs < 2 ^ 63
    → Spaced false rs
    → Freed addr cur false (r ∷ rs) (release r rs) 0
unfolding blocks total Spaced
Freed-head addr cur r rs e q h sp =
    let l = release-Released cur r rs h sp in
    subst (λ x. Freed addr cur false (r ∷ rs) x 0) (sym l.shape)
      (record {
        given = r.size;
        before = [];
        behind = blocks (cur + r.size) rs;
        was = ground (arith, q, e);
        first = tt;
        is = l.held_same;
        same = l.same;
        spaced = (refl, l.spaced);
        prefix = refl;
        inside = omega arith;
        place = inl (omega (arith, e));
      })

-- The block is behind a free region, which it joins.
pub Freed-joined :
    (addr cur : ℕ) (free : Bool) (p r : Region) (rs : List Region)
    → cur + p.size ≡ addr
    → p.res ≡ false
    → r.res ≡ true
    → p.size + (r.size + total rs) < 2 ^ 63
    → (free && not p.res) ≡ false
    → Spaced false rs
    → Freed addr cur free (p ∷ r ∷ rs) (join p 0 (release r rs)).0 0
unfolding blocks total Spaced all_res join
Freed-joined addr cur free p r rs e u q h gap sp =
    let l = release-Released (cur + p.size) r rs (omega arith) sp in
    let wide : (p.size + l.room) % 2 ^ 63 ≡ p.size + l.room = omega (arith, l.same) in
    let far : cur + (p.size + l.room) ≡ cur + p.size + l.room = omega arith in
    let shape : (join p 0 (release r rs)).0 ≡ region false (p.size + l.room) p.number ∷ l.tail =
      ap (λ x. (join p 0 x).0) l.shape ∙ ground (arith, u, wide) in
    subst (λ x. Freed addr cur free (p ∷ r ∷ rs) x 0) (sym shape)
      (record {
        given = r.size;
        before = [];
        behind = blocks (cur + p.size + r.size) rs;
        was = ground (arith, q, u, e);
        first = tt;
        is = ap (λ c. blocks c l.tail) far ∙ l.held_same;
        same = omega (arith, l.same);
        spaced = (ground (arith, gap, u), l.spaced);
        prefix = refl;
        inside = omega arith;
        place = inr (ground (arith, u));
      })
