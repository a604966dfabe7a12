-- ===== src/Mm/Heap/Grow.antt =====
-- What growing the heap adds: free bytes at its end, as many as the call asks for and more.
use Prim.Native.Nat.{bit_and}
use native.Mathlib.Nat.{pow-suc}
use os.Prelude.{
  ℕ, zero, suc, ◌+◌, ◌-◌, ◌*◌, ◌/◌, ◌%◌, ◌^◌, ◌≤◌, ◌<◌, ◌≡◌, refl, ap, Bool, true, false, not, List,
  [], ◌∷◌, ◌++◌, arith,
}
use os.Prelude.Bits.{and_step, bit_and-le}
use os.Mm.Heap.{Region, extend_last, growth, align_up, max}
use os.Mm.Heap.Blocks.{total, blocks, all_res, Spaced}
use os.Mm.Heap.Scan.{AllSmall}

-- `x & ~(2^k - 1)` takes less than 2 ^ k away
and_ones : (n x : ℕ) → x < 2 ^ n → bit_and x (2 ^ n - 1) ≡ x
and_ones zero x h = omega (arith, bit_and-le x 0)
and_ones (suc n) x h =
    let q : (2 ^ suc n - 1) / 2 ≡ 2 ^ n - 1 = omega (arith, pow-suc 2 n) in
    let s = rw q at (and_step x (2 ^ suc n - 1)) in
    omega (arith, s, pow-suc 2 n, and_ones n (x / 2) (omega (arith, pow-suc 2 n)))

and_even : (x m : ℕ) → m % 2 ≡ 0 → bit_and x m ≡ bit_and (x / 2) (m / 2) * 2
and_even x m h = omega (arith, and_step x m, h)

and_four : (x m : ℕ) → m % 16 ≡ 0 → bit_and x m ≡ bit_and (x / 16) (m / 16) * 16
and_four x m h =
    let a = and_even x m (omega arith) in
    let b = and_even (x / 2) (m / 2) (omega arith) in
    let c = and_even (x / 2 / 2) (m / 2 / 2) (omega arith) in
    let d = and_even (x / 2 / 2 / 2) (m / 2 / 2 / 2) (omega arith) in
    let e : x / 2 / 2 / 2 / 2 ≡ x / 16 = omega arith in
    let e' : m / 2 / 2 / 2 / 2 ≡ m / 16 = omega arith in omega (arith, a, b, c, rw (e, e') at d)

-- the page's mask
and_page : (x : ℕ) → x < 2 ^ 64 → bit_and x (2 ^ 64 - 1 - 4095) ≡ x / 4096 * 4096
and_page x h =
    let a = and_four x 0xFFFFFFFFFFFFF000 (omega arith) in
    let b = and_four (x / 16) 0xFFFFFFFFFFFFF00 (omega arith) in
    let c = and_four (x / 16 / 16) 0xFFFFFFFFFFFFF0 (omega arith) in
    let e : x / 16 / 16 / 16 ≡ x / 4096 = omega arith in
    omega (arith, a, b, rw e at c, and_ones 52 (x / 4096) (omega arith))

-- A request of `size` bytes, fewer than 2 ^ 62, makes the heap grow by `size` bytes or more, in whole
-- pages, and by less than 2 ^ 63.
pub growth-pages :
    (size : ℕ)
    → size < 2 ^ 62
    → (size ≤ growth size) × (growth size % 4096 ≡ 0) × (growth size < 2 ^ 63)
unfolding growth align_up max
growth-pages size h =
    let e : size * 3 % 2 ^ 64 / 2 ≡ size * 3 / 2 = omega arith in
    let p = and_page ((size * 3 / 2 + 4095) % 2 ^ 64) (omega arith) in rw e (ground (arith, p))

-- The table with a longer or a new free region at its end.
pub total-extend_last :
    (size : ℕ) (rs : List Region)
    → total rs + size < 2 ^ 63
    → total (extend_last size rs) ≡ total rs + size
unfolding total extend_last
total-extend_last size [] h = ground arith
total-extend_last size (r ∷ []) h = ground arith
total-extend_last size (r ∷ s ∷ rs) h = omega (arith, total-extend_last size (s ∷ rs) (omega arith))

pub blocks-extend_last :
    (size cur : ℕ) (rs : List Region) → blocks cur (extend_last size rs) ≡ blocks cur rs
unfolding blocks extend_last
blocks-extend_last size cur [] = refl
blocks-extend_last size cur (r ∷ []) = ground arith
blocks-extend_last size cur (r ∷ s ∷ rs) =
    ground (arith, blocks-extend_last size (cur + r.size) (s ∷ rs))

extend_some-Spaced :
    (size : ℕ) (free : Bool) (r : Region) (rs : List Region)
    → Spaced free (r ∷ rs)
    → Spaced free (extend_last size (r ∷ rs))
unfolding Spaced extend_last
extend_some-Spaced size free r [] h = ground arith
extend_some-Spaced size free r (s ∷ rs) (a, h) = (a, extend_some-Spaced size (not r.res) s rs h)

pub extend_last-Spaced :
    (size : ℕ) (rs : List Region) → Spaced false rs → Spaced false (extend_last size rs)
unfolding Spaced extend_last
extend_last-Spaced size [] h = (refl, tt)
extend_last-Spaced size (r ∷ rs) h = extend_some-Spaced size false r rs h

-- It is the other regions that change.
pub extend_last-append :
    (size : ℕ) (xs rs : List Region)
    → all_res xs ≡ true
    → extend_last size (xs ++ rs) ≡ xs ++ extend_last size rs
unfolding all_res extend_last
extend_last-append size [] rs h = refl
extend_last-append size (x ∷ []) [] h = ground arith
extend_last-append size (x ∷ []) (r ∷ rs) h = refl
extend_last-append size (x ∷ y ∷ xs) rs h =
    ap (λ l. x ∷ l) (extend_last-append size (y ∷ xs) rs (ground arith))

-- Some free region then has `size` bytes.
pub not-AllSmall-extend_last :
    (size grown : ℕ) (rs : List Region)
    → size ≤ grown
    → total rs + grown < 2 ^ 63
    → ¬ AllSmall size (extend_last grown rs)
unfolding AllSmall extend_last total
not-AllSmall-extend_last size grown [] h k s = ground arith
not-AllSmall-extend_last size grown (r ∷ []) h k s = ground arith
not-AllSmall-extend_last size grown (r ∷ q ∷ rs) h k (a, s) =
    not-AllSmall-extend_last size grown (q ∷ rs) h (omega arith) s
