-- ===== src/Libk/Numeral/Tests.antt =====
-- Runs of the functions that read integers.
use os.Prelude.{none, some, ℕ, ◌≡◌, List, [], ◌∷◌, refl}
use os.Prelude.Int.{pos}
use os.Libk.Numeral.Signed.{strtoll-said}
use os.Libk.Numeral.{
  strtoll, signed_from, signed_answer, scan_signed, push_signed, overflowed, digit_of, isdigit,
  isalpha, isupper, islower, strtol, strtoul, strtoull, skip_space, take_sign, take_base, scan,
  end_of, isspace, has_prefix,
}
use os.Libk.Numeral.Value.{numeral, value}
use os.Libk.Numeral.Clamp.{strtol-strtoul}

-- " -12x"
abbrev minus_twelve : List ℕ
minus_twelve = 32 ∷ 45 ∷ 49 ∷ 50 ∷ 120 ∷ []

-- "0xFFFFFFFF9,"
abbrev hex : List ℕ
hex = 48 ∷ 120 ∷ 70 ∷ 70 ∷ 70 ∷ 70 ∷ 70 ∷ 70 ∷ 70 ∷ 70 ∷ 57 ∷ 44 ∷ []

strtol-strtoul_example :
    (strtol hex 0 ≡ (pos 2147483647, 44 ∷ []))
    × (strtoul hex 0 ≡ (4294967295, 44 ∷ []))
    × (strtoull hex 0 ≡ (68719476729, 44 ∷ []))
unfolding numeral value take_sign take_base skip_space digit_of isspace isdigit isalpha isupper
    islower has_prefix
strtol-strtoul_example = strtol-strtoul hex 0

-- "0x": no digit, so `*endptr` is `str`
strtol_bare_prefix : strtol (48 ∷ 120 ∷ []) 0 ≡ (pos 0, 48 ∷ 120 ∷ [])
unfolding strtol take_sign take_base skip_space scan end_of overflowed isspace has_prefix
strtol_bare_prefix = refl

-- "7,"
strtoll-said_example : strtoll (55 ∷ 44 ∷ []) 10 ≡ some (pos 7, 44 ∷ [])
unfolding numeral value take_sign take_base skip_space digit_of isspace isdigit isalpha isupper
    islower has_prefix
strtoll-said_example = strtoll-said (55 ∷ 44 ∷ []) 10 refl

-- The least number of the type, "-0x8000000000000000", overflows the signed accumulator.
strtoll_least_faults :
    strtoll
      (45 ∷ 48 ∷ 120 ∷ 56 ∷ 48 ∷ 48 ∷ 48 ∷ 48 ∷ 48 ∷ 48 ∷ 48 ∷ 48 ∷ 48 ∷ 48 ∷ 48 ∷ 48 ∷ 48 ∷ 48 ∷ 48
        ∷ [])
      16
    ≡ none
unfolding strtoll signed_from signed_answer scan_signed push_signed overflowed take_sign take_base
    skip_space digit_of isspace isdigit isalpha isupper islower has_prefix
strtoll_least_faults = refl
