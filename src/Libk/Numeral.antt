-- ===== src/Libk/Numeral.antt =====
-- Reading integers: libk/src/stdlib/strtol.c, strtoul.c, strtoull.c and strtoll.c, and the classes of
-- characters that they use, libk/src/ctype. A string is the list of its bytes before the NUL; the
-- pointer `s - 1`, at which the current `c` stands, is the rest of that list, and `c` is NUL at
-- its end. The base is an `int` that is not negative. The result is the value, and `*endptr`.
pub mod Value
pub mod Clamp
pub mod Signed
mod Tests
use os.Prelude.{
  ℕ, zero, suc, ◌+◌, ◌-◌, ◌*◌, ◌/◌, ◌%◌, ◌^◌, Bool, true, false, ◌&&◌, ◌||◌, List, [], ◌∷◌, Option,
  none, some, if◌then◌else◌, ◌==◌, leb, ltb,
}
use os.Prelude.Int.{ℤ, pos, negsuc}

unfoldable pub isspace : ℕ → Bool
isspace c = c == 32 || leb 9 c && leb c 13

unfoldable pub isdigit : ℕ → Bool
isdigit c = leb 48 c && leb c 57

unfoldable pub isupper : ℕ → Bool
isupper c = leb 65 c && leb c 90

unfoldable pub islower : ℕ → Bool
islower c = leb 97 c && leb c 122

unfoldable pub isalpha : ℕ → Bool
isalpha c = isupper c || islower c

-- the `do` loop
unfoldable pub skip_space : List ℕ → List ℕ
skip_space [] = []
skip_space (c ∷ s) = let rest = skip_space s in if isspace c then rest else c ∷ s

-- `neg`, behind a sign
unfoldable pub take_sign : List ℕ → Bool × List ℕ
take_sign [] = (false, [])
take_sign (c ∷ s) = if c == 45 then (true, s) else if c == 43 then (false, s) else (false, c ∷ s)

-- `c == '0' && (*s == x || *s == y)`
unfoldable pub has_prefix : ℕ → ℕ → List ℕ → Bool
has_prefix x y (c ∷ d ∷ s) = c == 48 && (d == x || d == y)
has_prefix x y _ = false

abbrev pub drop_two : List ℕ → List ℕ
drop_two (c ∷ d ∷ s) = s
drop_two t = []

abbrev pub starts_zero : List ℕ → Bool
starts_zero (c ∷ s) = c == 48
starts_zero [] = false

-- the base that is used, behind its prefix
unfoldable pub take_base : ℕ → List ℕ → ℕ × List ℕ
take_base base t =
    if (base == 0 || base == 16) && has_prefix 120 88 t
    then (16, drop_two t)
    else if (base == 0 || base == 2) && has_prefix 98 66 t
    then (2, drop_two t)
    else if base == 0
    then (if starts_zero t then 8 else 10, t)
    else (base, t)

-- the digit of a character, and `none` where the loop breaks at it whatever the base
unfoldable pub digit_of : ℕ → Option ℕ
digit_of c =
    if isdigit c
    then some (c - 48)
    else if isalpha c
    then some (if isupper c then c - 55 else c - 87)
    else none

-- `any`: 0, 1 and -1
pub data Any : Type 0 where
  nothing : Any
  digits : Any
  overflow : Any

pub overflowed : Any → Bool
overflowed overflow = true
overflowed _ = false

-- One digit `d` below `base`; `acc` is unsigned of 64 bits.
unfoldable pub push_digit : ℕ → ℕ → ℕ → ℕ → Any × ℕ → Any × ℕ
unfolding overflowed
push_digit base cutoff cutlim d (any, acc) =
    if overflowed any || ltb cutoff acc || acc == cutoff && ltb cutlim d
    then (overflow, acc)
    else (digits, (acc * base + d) % 2 ^ 64)

-- the `for` loop
unfoldable pub scan : ℕ → ℕ → ℕ → List ℕ → Any × ℕ → (Any × ℕ) × List ℕ
unfolding digit_of push_digit
scan base cutoff cutlim [] st = (st, [])
scan base cutoff cutlim (c ∷ s) st = elim (digit_of c) [
  | none ↦ (st, c ∷ s)
  | some d ↦
      let rest = scan base cutoff cutlim s (push_digit base cutoff cutlim d st) in
      if leb base d then (st, c ∷ s) else rest
]

-- `*endptr = any ? s - 1 : str`
unfoldable pub end_of : Any → List ℕ → List ℕ → List ℕ
end_of nothing str t = str
end_of _ str t = t

-- `-acc` of 64 bits
abbrev pub negated : ℕ → ℕ
negated acc = (2 ^ 64 - acc) % 2 ^ 64

-- an `unsigned long` as a `long`
abbrev pub to_long : ℕ → ℤ
to_long n = if ltb n (2 ^ 63) then pos n else negsuc (2 ^ 64 - 1 - n)

-- LONG_MAX of libk/include/limits.h, which is also -LONG_MIN
abbrev pub long_max : ℕ
long_max = 2147483647

-- ULONG_MAX and ULLONG_MAX
abbrev pub ulong_max : ℕ
ulong_max = 4294967295

abbrev pub ullong_max : ℕ
ullong_max = 0xffffffffffffffff

unfoldable pub strtol : List ℕ → ℕ → ℤ × List ℕ
unfolding skip_space take_sign take_base scan end_of overflowed
strtol str base =
    let (neg, t) = take_sign (skip_space str) in
    let (b, t') = take_base base t in
    let ((any, acc), rest) = scan b (long_max / b) (long_max % b) t' (nothing, 0) in
    let acc' =
      if overflowed any
      then (if neg then negated long_max else long_max)
      else if neg
      then negated acc
      else acc in
    (to_long acc', end_of any str rest)

unfoldable pub strtoul : List ℕ → ℕ → ℕ × List ℕ
unfolding skip_space take_sign take_base scan end_of overflowed
strtoul str base =
    let (neg, t) = take_sign (skip_space str) in
    let (b, t') = take_base base t in
    let ((any, acc), rest) = scan b (ulong_max / b) (ulong_max % b) t' (nothing, 0) in
    let acc' = if overflowed any then ulong_max else if neg then negated acc else acc in
    (acc', end_of any str rest)

unfoldable pub strtoull : List ℕ → ℕ → ℕ × List ℕ
unfolding skip_space take_sign take_base scan end_of overflowed
strtoull str base =
    let (neg, t) = take_sign (skip_space str) in
    let (b, t') = take_base base t in
    let ((any, acc), rest) = scan b (ullong_max / b) (ullong_max % b) t' (nothing, 0) in
    let acc' = if overflowed any then ullong_max else if neg then negated acc else acc in
    (acc', end_of any str rest)

-- LLONG_MAX, and -LLONG_MIN as an `unsigned long`
abbrev pub llong_max : ℕ
llong_max = 0x7fffffffffffffff

abbrev pub llong_least : ℕ
llong_least = 0x8000000000000000

-- One digit of `strtoll`, whose `acc` is signed of 64 bits: `none` is its overflow.
unfoldable pub push_signed : ℕ → ℕ → ℕ → ℕ → Any × ℕ → Option (Any × ℕ)
unfolding overflowed
push_signed base cutoff cutlim d (any, acc) =
    if overflowed any || ltb cutoff acc || acc == cutoff && ltb cutlim d
    then some (overflow, acc)
    else if leb (acc * base + d) llong_max
    then some (digits, acc * base + d)
    else none

-- the `for` loop of `strtoll`
unfoldable pub scan_signed : ℕ → ℕ → ℕ → List ℕ → Any × ℕ → Option ((Any × ℕ) × List ℕ)
unfolding digit_of push_signed
scan_signed base cutoff cutlim [] st = some (st, [])
scan_signed base cutoff cutlim (c ∷ s) st = elim (digit_of c) [
  | none ↦ some (st, c ∷ s)
  | some d ↦ if leb base d then some (st, c ∷ s) else elim (push_signed base cutoff cutlim d st) [
    | none ↦ none
    | some st' ↦ scan_signed base cutoff cutlim s st'
  ]
]

abbrev pub negative : ℕ → ℤ
negative zero = pos zero
negative (suc n) = negsuc n

-- the end of `strtoll`, behind its loop
abbrev pub signed_limit : Bool → ℕ
signed_limit neg = if neg then llong_least else llong_max

unfoldable pub signed_answer : Bool → List ℕ → Option ((Any × ℕ) × List ℕ) → Option (ℤ × List ℕ)
unfolding end_of overflowed
signed_answer neg str none = none
signed_answer neg str (some ((any, acc), rest)) =
    let acc' = if overflowed any then signed_limit neg else acc in
    some (if neg then negative acc' else pos acc', end_of any str rest)

-- `strtoll` from the digits on
unfoldable pub signed_from : Bool → ℕ → List ℕ → List ℕ → Option (ℤ × List ℕ)
unfolding scan_signed signed_answer
signed_from neg b t str =
    let limit = signed_limit neg in
    signed_answer neg str (scan_signed b (limit / b) (limit % b) t (nothing, 0))

unfoldable pub strtoll : List ℕ → ℕ → Option (ℤ × List ℕ)
unfolding skip_space take_sign take_base signed_from
strtoll str base =
    let (neg, t) = take_sign (skip_space str) in
    let (b, t') = take_base base t in signed_from neg b t' str
