-- ===== src/Libk/Numeral/Clamp.antt =====
-- What the functions that read integers return: the number that the text says, kept to the range
-- of the type.
use Prim.Native.Nat.{min}
use os.Prelude.{
  ℕ, zero, suc, ◌/◌, ◌%◌, ◌^◌, ◌<◌, ◌≡◌, refl, ap, ap₂, ◌∙◌, Bool, List, if◌then◌else◌, ltb, arith,
}
use os.Prelude.Int.{ℤ, pos, negsuc}
use os.Libk.Numeral.{
  Any, nothing, overflowed, scan, end_of, take_base, take_sign, skip_space, strtol, strtoul,
  strtoull, long_max, ulong_max, ullong_max, negated, to_long,
}
use os.Libk.Numeral.Value.{numeral, value, no_digits, Scanned, scan-Scanned}

pub take_base-pos : (base : ℕ) (t : List ℕ) → 0 < (take_base base t).0
unfolding take_base
take_base-pos base t = ground arith

-- the sign, the number and the end of the number that a text says in a base
abbrev pub said : List ℕ → ℕ → Bool × ℕ × List ℕ
said str base =
    let (neg, t) = take_sign (skip_space str) in
    let (b, t') = take_base base t in
    let (ds, rest) = numeral b t' in (neg, value b 0 ds, if no_digits ds then str else rest)

abbrev pub minus : ℕ → ℤ
minus zero = pos 0
minus (suc n) = negsuc n

pub end-Scanned :
    (limit base : ℕ) (ds rest : List ℕ) (res : (Any × ℕ) × List ℕ) (str : List ℕ)
    → Scanned limit base nothing 0 (ds, rest) res
    → end_of res.0.0 str res.1 ≡ (if no_digits ds then str else rest)
unfolding end_of
end-Scanned limit base ds rest ((any, acc), rest') str (r, o, v, f) =
    ap (λ t. end_of any str t) r ∙ f str

signed-Scanned :
    (base : ℕ) (ds rest : List ℕ) (neg : Bool) (any : Any) (acc : ℕ) (rest' : List ℕ)
    → Scanned long_max base nothing 0 (ds, rest) ((any, acc), rest')
    → to_long (
        if overflowed any
        then (if neg then negated long_max else long_max)
        else if neg
        then negated acc
        else acc)
      ≡ (if neg
          then minus (min (value base 0 ds) long_max)
          else pos (min (value base 0 ds) long_max))
signed-Scanned base ds rest neg any acc rest' (r, o, v, f) = ground (arith, o, v)

unsigned-Scanned :
    (limit base : ℕ) (ds rest : List ℕ) (neg : Bool) (any : Any) (acc : ℕ) (rest' : List ℕ)
    → Scanned limit base nothing 0 (ds, rest) ((any, acc), rest')
    → (if overflowed any then limit else if neg then negated acc else acc) ≡ (
        if ltb limit (value base 0 ds)
        then limit
        else if neg
        then negated (value base 0 ds)
        else value base 0 ds)
unsigned-Scanned limit base ds rest neg any acc rest' (r, o, v, f) = ground (arith, o, v)

pub said-Scanned :
    (limit : ℕ) (str : List ℕ) (base : ℕ)
    → limit < 2 ^ 64
    → let (neg, t) = take_sign (skip_space str) in
      let (b, t') = take_base base t in
      Scanned limit b nothing 0 (numeral b t') (scan b (limit / b) (limit % b) t' (nothing, 0))
unfolding overflowed
said-Scanned limit str base w =
    let t = (take_sign (skip_space str)).1 in
    scan-Scanned limit (take_base base t).0 (take_base-pos base t) w nothing 0 (take_base base t).1
      refl (omega arith)

-- `strtol` returns the number that the text says, with its sign, or the bound on its side where it
-- is greater than LONG_MAX; `*endptr` is the end of the number, or `str` where there is no digit.
pub strtol-said :
    (str : List ℕ) (base : ℕ)
    → strtol str base ≡ (
        let (neg, n, end) = said str base in
        (if neg then minus (min n long_max) else pos (min n long_max), end))
unfolding strtol
strtol-said str base =
    let s = said-Scanned long_max str base (omega arith) in
    ap₂ (λ a b. (a, b)) (signed-Scanned _ _ _ _ _ _ _ s) (end-Scanned long_max _ _ _ _ str s)

-- `strtoul` and `strtoull` return the number that the text says, negated modulo 2 ^ 64 behind a
-- minus sign, or ULONG_MAX and ULLONG_MAX where it is greater; `*endptr` is the end of the number,
-- or `str` where there is no digit.
pub strtoul-said :
    (str : List ℕ) (base : ℕ)
    → let (neg, n, end) = said str base in
      (strtoul str base
        ≡ (if ltb ulong_max n then ulong_max else if neg then negated n else n, end))
      × (strtoull str base
          ≡ (if ltb ullong_max n then ullong_max else if neg then negated n else n, end))
unfolding strtoul strtoull
strtoul-said str base =
    let s = said-Scanned ulong_max str base (omega arith) in
    let s' = said-Scanned ullong_max str base (omega arith) in
    (
      ap₂ (λ a b. (a, b)) (unsigned-Scanned ulong_max _ _ _ _ _ _ _ s)
          (end-Scanned ulong_max _ _ _ _ str s),
      ap₂ (λ a b. (a, b)) (unsigned-Scanned ullong_max _ _ _ _ _ _ _ s')
          (end-Scanned ullong_max _ _ _ _ str s'),
    )

-- `strtol`, `strtoul` and `strtoull` read the same number n, its sign and its end from the text, or
-- give `str` for the end where there is no digit. `strtol` returns n with its sign, or the bound on
-- its side where n is greater than LONG_MAX; the other two return n, negated modulo 2 ^ 64 behind a
-- minus sign, or their greatest value where n is greater.
pub strtol-strtoul :
    (str : List ℕ) (base : ℕ)
    → let (neg, n, end) = said str base in
      (strtol str base ≡ (if neg then minus (min n long_max) else pos (min n long_max), end))
      × (strtoul str base
          ≡ (if ltb ulong_max n then ulong_max else if neg then negated n else n, end))
      × (strtoull str base
          ≡ (if ltb ullong_max n then ullong_max else if neg then negated n else n, end))
strtol-strtoul str base = let (a, b) = strtoul-said str base in (strtol-said str base, a, b)
