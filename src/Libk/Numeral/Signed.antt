-- ===== src/Libk/Numeral/Signed.antt =====
-- `strtoll` of a text with no minus sign.
use native.Mathlib.Nat.{div-add-mod, mod-lt, mod-eq_of_lt}
use Prim.Native.Nat.{min}
use os.Prelude.{
  ℕ, ◌+◌, ◌*◌, ◌/◌, ◌%◌, ◌^◌, ◌≤◌, ◌<◌, ◌≡◌, refl, sym, ap, ap₂, ◌∙◌, false, List, [], ◌∷◌, none,
  some, if◌then◌else◌, arith, Option-cases, inl, inr,
}
use os.Prelude.Int.{pos}
use os.Libk.Numeral.{
  Any, nothing, overflowed, push_digit, push_signed, scan, scan_signed, strtoll, signed_from,
  signed_answer, llong_max, take_base, take_sign, skip_space, end_of,
}
use os.Libk.Numeral.Value.{
  digit_fits, digit_below, digit_below-lt, scan-stop, scan-go, Scanned, value,
}
use os.Libk.Numeral.Clamp.{said, said-Scanned, end-Scanned, take_base-pos}

signed-stop :
    (base q r c : ℕ) (s : List ℕ) (st : Any × ℕ)
    → digit_below base c ≡ none
    → scan_signed base q r (c ∷ s) st ≡ some (st, c ∷ s)
unfolding scan_signed
signed-stop base q r c s st e = ground arith

signed-go :
    (base q r c d : ℕ) (s : List ℕ) (st st' : Any × ℕ)
    → digit_below base c ≡ some d
    → push_signed base q r d st ≡ some st'
    → scan_signed base q r (c ∷ s) st ≡ scan_signed base q r s st'
unfolding scan_signed
signed-go base q r c d s st st' e h = ground arith

-- Up to LLONG_MAX the signed loop is the unsigned one.
module _ (base : ℕ) (h : 0 < base) where
  push-signed :
      (any : Any) (acc d : ℕ)
      → d < base
      → acc ≤ llong_max
      → push_signed base (llong_max / base) (llong_max % base) d (any, acc)
        ≡ some (push_digit base (llong_max / base) (llong_max % base) d (any, acc))
  unfolding push_signed push_digit
  push-signed any acc d k w = ground (
    arith,
    digit_fits base (llong_max / base) (llong_max % base) acc d (mod-lt llong_max h) k,
    div-add-mod llong_max base,
    mod-eq_of_lt {n = acc * base + d} {m = 2 ^ 64},
  )

  push-bound :
      (any : Any) (acc d : ℕ)
      → d < base
      → acc ≤ llong_max
      → (push_digit base (llong_max / base) (llong_max % base) d (any, acc)).1 ≤ llong_max
  unfolding push_digit
  push-bound any acc d k w = ground (
    arith,
    digit_fits base (llong_max / base) (llong_max % base) acc d (mod-lt llong_max h) k,
    div-add-mod llong_max base,
    mod-eq_of_lt {n = acc * base + d} {m = 2 ^ 64},
  )

  scan-signed :
      (t : List ℕ) (any : Any) (acc : ℕ)
      → acc ≤ llong_max
      → scan_signed base (llong_max / base) (llong_max % base) t (any, acc)
        ≡ some (scan base (llong_max / base) (llong_max % base) t (any, acc))
  unfolding scan_signed scan
  scan-signed [] any acc w = refl
  scan-signed (c ∷ s) any acc w =
      let q = llong_max / base in
      let r = llong_max % base in
      elim (Option-cases (digit_below base c)) [
        | inl e ↦
            signed-stop base q r c s (any, acc) e
            ∙ sym (ap (λ x. some x) (scan-stop base q r c s (any, acc) e))
        | inr (d, e) ↦
            let k = digit_below-lt base c d e in
            let st = push_digit base q r d (any, acc) in
            signed-go base q r c d s (any, acc) st e (push-signed any acc d k w)
            ∙ scan-signed s st.0 st.1 (push-bound any acc d k w)
            ∙ sym (ap (λ x. some x) (scan-go base q r c d s (any, acc) e))
      ]

signed_from-scan :
    (b : ℕ) (t str : List ℕ) (any : Any) (acc : ℕ) (rest : List ℕ)
    → scan_signed b (llong_max / b) (llong_max % b) t (nothing, 0) ≡ some ((any, acc), rest)
    → signed_from false b t str
      ≡ some (pos (if overflowed any then llong_max else acc), end_of any str rest)
unfolding signed_from signed_answer
signed_from-scan b t str any acc rest e = ap (λ o. signed_answer false str o) e

clamped :
    (base : ℕ) (ds rest : List ℕ) (any : Any) (acc : ℕ) (rest' : List ℕ)
    → Scanned llong_max base nothing 0 (ds, rest) ((any, acc), rest')
    → (if overflowed any then llong_max else acc) ≡ min (value base 0 ds) llong_max
clamped base ds rest any acc rest' (r, o, v, f) = ground (arith, o, v)

-- `strtoll` of a text with no minus sign is defined, and returns the number that the text says, or
-- LLONG_MAX where it is greater; `*endptr` is the end of the number, or `str` where there is no
-- digit.
pub strtoll-said :
    (str : List ℕ) (base : ℕ)
    → (said str base).0 ≡ false
    → strtoll str base ≡ some (pos (min (said str base).1 llong_max), (said str base).2)
unfolding strtoll
strtoll-said str base h =
    let t = (take_sign (skip_space str)).1 in
    let b = (take_base base t).0 in
    let t' = (take_base base t).1 in
    let e = scan-signed b (take_base-pos base t) t' nothing 0 (omega arith) in
    let s = said-Scanned llong_max str base (omega arith) in
    ap (λ neg. signed_from neg b t' str) h
    ∙ signed_from-scan b t' str _ _ _ e
    ∙ ap₂ (λ n end. some (pos n, end)) (clamped _ _ _ _ _ _ s) (end-Scanned llong_max _ _ _ _ str s)
