-- ===== src/Prelude/Bits.antt =====
-- Machine words by their binary digits. `bit_and` and `bit_or` compute at numerals alone; their
-- laws at variables go through `bit w j`, the digit of weight 2 ^ j.
use Prim.Native.Nat.{
  ℕ, zero, suc, ◌+◌, ◌-◌, ◌*◌, ◌/◌, ◌%◌, ◌^◌, ◌≤◌, ◌<◌, min, max, bit_and, bit_or, digits, bitwise,
  bit_and-bitwise, bit_or-bitwise,
}
use mathlib.Core.Path.{◌≡◌, refl, ap}
use mathlib.Core.Bool.{Bool, true, ◌&&◌}
use native.Mathlib.Omega.{arith}
use native.Mathlib.Nat.{pow-suc}
use os.Prelude.Tests.{◌==◌, ltb, if◌then◌else◌}

-- Whether a test holds of all numbers under a bound, by running it.
unfoldable pub holds_under : (ℕ → Bool) → ℕ → Bool
holds_under test zero = true
holds_under test (suc bound) = holds_under test bound && test bound

pub holds_under_at :
    (test : ℕ → Bool) (bound j : ℕ) → j < bound → holds_under test bound ≡ true → test j ≡ true
unfolding holds_under
holds_under_at test zero j lt all = absurd (omega arith)
holds_under_at test (suc bound) j lt all = ground (arith, holds_under_at test bound j)

unfoldable pub bit : ℕ → ℕ → ℕ
bit w zero = w % 2
bit w (suc j) = bit (w / 2) j

pub bit_lt_two : (w j : ℕ) → bit w j < 2
unfolding bit
bit_lt_two w zero = omega arith
bit_lt_two w (suc j) = bit_lt_two (w / 2) j

pub bit-zero : (j : ℕ) → bit 0 j ≡ 0
unfolding bit
bit-zero zero = refl
bit-zero (suc j) = bit-zero j

-- The library defines both operations by a recursion on digits with fuel; any enough fuel will do.
module _ (other : ℕ → ℕ) (join : ℕ → ℕ → ℕ) where
  enough_fuel : (f g a b : ℕ) → a ≤ f → a ≤ g → digits other join f a b ≡ digits other join g a b
  enough_fuel zero zero a b h k = refl
  enough_fuel zero (suc g) (suc a) b h k = absurd (omega arith)
  enough_fuel zero (suc g) zero b h k = refl
  enough_fuel (suc f) zero (suc a) b h k = absurd (omega arith)
  enough_fuel (suc f) zero zero b h k = refl
  enough_fuel (suc f) (suc g) zero b h k = refl
  enough_fuel (suc f) (suc g) (suc a) b h k =
      ap (λ d. d * 2 + join (suc a % 2) (b % 2))
        (enough_fuel f g (suc a / 2) (b / 2) (omega arith) (omega arith))

  lowest_digit :
      (a b : ℕ)
      → bitwise other join (suc a) b
        ≡ bitwise other join (suc a / 2) (b / 2) * 2 + join (suc a % 2) (b % 2)
  lowest_digit a b =
      ap (λ d. d * 2 + join (suc a % 2) (b % 2))
        (enough_fuel a (suc a / 2) (suc a / 2) (b / 2) (omega arith) (omega arith))

or_step : (a b : ℕ) → bit_or a b ≡ bit_or (a / 2) (b / 2) * 2 + max (a % 2) (b % 2)
or_step zero b = simp bit_or-bitwise (omega arith)
or_step (suc a) b = simp bit_or-bitwise (lowest_digit (λ y. y) max a b)

pub and_step : (a b : ℕ) → bit_and a b ≡ bit_and (a / 2) (b / 2) * 2 + min (a % 2) (b % 2)
and_step zero b = simp bit_and-bitwise (omega arith)
and_step (suc a) b = simp bit_and-bitwise (lowest_digit (λ y. zero) min a b)

double_half : (q r : ℕ) → r < 2 → ((q * 2 + r) / 2 ≡ q) × ((q * 2 + r) % 2 ≡ r)
double_half q r h = omega arith

-- Digit by digit, `bit_or` is the greater and `bit_and` the lesser.
pub bit-bit_or : (a b j : ℕ) → bit (bit_or a b) j ≡ max (bit a j) (bit b j)
unfolding bit
bit-bit_or a b zero = omega (arith, or_step a b)
bit-bit_or a b (suc j) =
    let q : bit_or a b / 2 ≡ bit_or (a / 2) (b / 2) = omega (arith, or_step a b) in
    rw q (bit-bit_or (a / 2) (b / 2) j)

pub bit-bit_and : (a b j : ℕ) → bit (bit_and a b) j ≡ min (bit a j) (bit b j)
unfolding bit
bit-bit_and a b zero = omega (arith, and_step a b)
bit-bit_and a b (suc j) =
    let q : bit_and a b / 2 ≡ bit_and (a / 2) (b / 2) = omega (arith, and_step a b) in
    rw q (bit-bit_and (a / 2) (b / 2) j)

-- Two words below 2 ^ n with the same digits are equal.
pub eq_of_bits : (n a b : ℕ) → a < 2 ^ n → b < 2 ^ n → ((j : ℕ) → j < n → bit a j ≡ bit b j) → a ≡ b
unfolding bit
eq_of_bits zero a b h k same = omega arith
eq_of_bits (suc n) a b h k same =
    let rest =
      eq_of_bits n (a / 2) (b / 2) (omega (arith, pow-suc 2 n)) (omega (arith, pow-suc 2 n))
        (λ j lt. same (suc j) (omega arith)) in
    omega (arith, rest, same zero (omega arith))

-- The digits of a power of two.
pub bit-pow : (k j : ℕ) → bit (2 ^ k) j ≡ (if k == j then 1 else 0)
unfolding bit
bit-pow zero zero = refl
bit-pow zero (suc j) = ground (arith, bit-zero j)
bit-pow (suc k) zero = ground (arith, pow-suc 2 k)
bit-pow (suc k) (suc j) =
    let q : 2 ^ suc k / 2 ≡ 2 ^ k = omega (arith, pow-suc 2 k) in rw q (ground (arith, bit-pow k j))

-- The digits of a complement: `~x` of `n` bits is 2 ^ n - 1 - x.
pub bit-complement :
    (n x j : ℕ) → x < 2 ^ n → bit (2 ^ n - 1 - x) j ≡ (if ltb j n then 1 - bit x j else 0)
unfolding bit
bit-complement zero x j h = let e : 0 - x ≡ 0 = omega arith in rw e (ground (arith, bit-zero j))
bit-complement (suc n) x zero h = ground (arith, pow-suc 2 n)
bit-complement (suc n) x (suc j) h =
    let q : (2 ^ suc n - 1 - x) / 2 ≡ 2 ^ n - 1 - x / 2 = omega (arith, pow-suc 2 n) in
    rw q (ground (arith, bit-complement n (x / 2) j (omega (arith, pow-suc 2 n))))

and_none_below : (n a : ℕ) → a < n → bit_and a 0 ≡ 0
and_none_below zero a h = absurd (omega arith)
and_none_below (suc n) zero h = refl
and_none_below (suc n) (suc a) h =
    omega (arith, and_step (suc a) 0, and_none_below n (suc a / 2) (omega arith))

pub and_none : (a : ℕ) → bit_and a 0 ≡ 0
and_none a = and_none_below (suc a) a (omega arith)

-- `w & (1 << k)` is the digit, in its place.
pub bit_and-pow : (k w : ℕ) → bit_and w (2 ^ k) ≡ bit w k * 2 ^ k
unfolding bit
bit_and-pow zero w = omega (arith, and_step w 1, and_none (w / 2))
bit_and-pow (suc k) w =
    let q : 2 ^ suc k / 2 ≡ 2 ^ k = omega (arith, pow-suc 2 k) in
    let r : 2 ^ suc k % 2 ≡ 0 = omega (arith, pow-suc 2 k) in
    let s = rw q at (and_step w (2 ^ suc k)) in
    omega (arith, s, r, bit_and-pow k (w / 2), ap (λ (t : ℕ). bit (w / 2) k * t) (pow-suc 2 k))

pub pow_pos : (k : ℕ) → 0 < 2 ^ k
pow_pos zero = omega arith
pow_pos (suc k) = omega (arith, pow-suc 2 k, pow_pos k)

mul_zero_iff : (b p : ℕ) → b < 2 → 0 < p → (b * p == 0) ≡ (b == 0)
mul_zero_iff zero p h k = ground arith
mul_zero_iff (suc zero) p h k = ground arith
mul_zero_iff (suc (suc b)) p h k = absurd (omega arith)

-- So it is 0 just where the digit is.
pub bit_and-pow_iff : (w k : ℕ) → (bit_and w (2 ^ k) == 0) ≡ (bit w k == 0)
bit_and-pow_iff w k = rw bit_and-pow (mul_zero_iff (bit w k) (2 ^ k) (bit_lt_two w k) (pow_pos k))

-- The results of the operations are words.
pub bit_or-lt : (n a b : ℕ) → a < 2 ^ n → b < 2 ^ n → bit_or a b < 2 ^ n
bit_or-lt zero a b h k = omega (arith, or_step a b, bit_or-lt_zero a b h k)
  where
    bit_or-lt_zero : (a b : ℕ) → a < 1 → b < 1 → bit_or a b ≡ 0
    bit_or-lt_zero zero zero h k = refl
    bit_or-lt_zero (suc a) b h k = absurd (omega arith)
    bit_or-lt_zero a (suc b) h k = absurd (omega arith)
bit_or-lt (suc n) a b h k = omega (
  arith,
  pow-suc 2 n,
  or_step a b,
  bit_or-lt n (a / 2) (b / 2) (omega (arith, pow-suc 2 n)) (omega (arith, pow-suc 2 n)),
)

and_below_le : (f a b : ℕ) → a < f → bit_and a b ≤ a
and_below_le zero a b h = absurd (omega arith)
and_below_le (suc f) zero b h = omega (arith, bit_and-bitwise 0 b)
and_below_le (suc f) (suc a) b h =
    omega (arith, and_step (suc a) b, and_below_le f (suc a / 2) (b / 2) (omega arith))

pub bit_and-le : (a b : ℕ) → bit_and a b ≤ a
bit_and-le a b = and_below_le (suc a) a b (omega arith)

-- A word of `n` bits has no digit from `n` on.
pub bit_ge : (n w j : ℕ) → w < 2 ^ n → n ≤ j → bit w j ≡ 0
unfolding bit
bit_ge zero w j h k = let e : w ≡ 0 = omega arith in rw e (bit-zero j)
bit_ge (suc n) w zero h k = absurd (omega arith)
bit_ge (suc n) w (suc j) h k = bit_ge n (w / 2) j (omega (arith, pow-suc 2 n)) (omega arith)

and_below_le_right : (f a b : ℕ) → a < f → bit_and a b ≤ b
and_below_le_right zero a b h = absurd (omega arith)
and_below_le_right (suc f) zero b h = omega (arith, bit_and-bitwise 0 b)
and_below_le_right (suc f) (suc a) b h =
    omega (arith, and_step (suc a) b, and_below_le_right f (suc a / 2) (b / 2) (omega arith))

pub bit_and-le_right : (a b : ℕ) → bit_and a b ≤ b
bit_and-le_right a b = and_below_le_right (suc a) a b (omega arith)
