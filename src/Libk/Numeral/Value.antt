-- ===== src/Libk/Numeral/Value.antt =====
-- What the functions that read integers return: the number of the longest run of digits, kept to
-- the range of the type.
use native.Mathlib.Nat.{mul-le-mul_right, div-add-mod, mod-lt, mod-eq_of_lt}
use os.Prelude.{
  ℕ, suc, ◌+◌, ◌*◌, ◌/◌, ◌%◌, ◌^◌, ◌≤◌, ◌<◌, ◌≡◌, refl, sym, ap, subst, ◌∙◌, Bool, true, false,
  ◌&&◌, ◌||◌, List, [], ◌∷◌, Option, none, some, if◌then◌else◌, ◌==◌, leb, ltb, arith, Bool-cases,
  Option-cases, inl, inr,
}
use os.Libk.Numeral.{Any, digits, overflow, overflowed, digit_of, push_digit, scan, end_of}

-- the digits below `base` at the front of a text, and what follows them
unfoldable pub numeral : ℕ → List ℕ → List ℕ × List ℕ
unfolding digit_of
numeral base [] = ([], [])
numeral base (c ∷ s) = elim (digit_of c) [
  | none ↦ ([], c ∷ s)
  | some d ↦ let (ds, rest) = numeral base s in if leb base d then ([], c ∷ s) else (d ∷ ds, rest)
]

-- the number of digits that follow the number `acc`
unfoldable pub value : ℕ → ℕ → List ℕ → ℕ
value base acc [] = acc
value base acc (d ∷ ds) = value base (acc * base + d) ds

le_value : (base acc : ℕ) (ds : List ℕ) → 0 < base → acc ≤ value base acc ds
unfolding value
le_value base acc [] h = omega arith
le_value base acc (d ∷ ds) h =
    omega (arith, le_value base (acc * base + d) ds h, mul-le-mul_right {m = 1} {n = base} acc)

-- The two tests of the loop are the overflow of one more digit.
pub digit_fits :
    (b q r acc d : ℕ)
    → r < b
    → d < b
    → (ltb q acc || acc == q && ltb r d) ≡ ltb (b * q + r) (acc * b + d)
digit_fits b q r acc d h k = ground (
  arith,
  mul-le-mul_right {m = suc q} {n = acc} b,
  mul-le-mul_right {m = suc acc} {n = q} b,
  mul-le-mul_right {m = acc} {n = q} b,
  mul-le-mul_right {m = q} {n = acc} b,
)

-- Both readers stop at a character that is no digit, or no digit of the base.
abbrev pub digit_below : ℕ → ℕ → Option ℕ
digit_below base c = elim (digit_of c) [
  | none ↦ none
  | some d ↦ if leb base d then none else some d
]

pub scan-stop :
    (base q r c : ℕ) (s : List ℕ) (st : Any × ℕ)
    → digit_below base c ≡ none
    → scan base q r (c ∷ s) st ≡ (st, c ∷ s)
unfolding scan
scan-stop base q r c s st e = ground arith

pub scan-go :
    (base q r c d : ℕ) (s : List ℕ) (st : Any × ℕ)
    → digit_below base c ≡ some d
    → scan base q r (c ∷ s) st ≡ scan base q r s (push_digit base q r d st)
unfolding scan
scan-go base q r c d s st e = ground arith

numeral-stop :
    (base c : ℕ) (s : List ℕ) → digit_below base c ≡ none → numeral base (c ∷ s) ≡ ([], c ∷ s)
unfolding numeral
numeral-stop base c s e = ground arith

numeral-go :
    (base c d : ℕ) (s : List ℕ)
    → digit_below base c ≡ some d
    → numeral base (c ∷ s) ≡ (d ∷ (numeral base s).0, (numeral base s).1)
unfolding numeral
numeral-go base c d s e = ground arith

pub digit_below-lt : (base c d : ℕ) → digit_below base c ≡ some d → d < base
digit_below-lt base c d e = ground (arith, e)

-- Once over the limit, the loop passes over the digits that are left.
scan-over :
    (base cutoff cutlim acc : ℕ) (t : List ℕ)
    → scan base cutoff cutlim t (overflow, acc) ≡ ((overflow, acc), (numeral base t).1)
unfolding scan numeral
scan-over base cutoff cutlim acc [] = refl
scan-over base cutoff cutlim acc (c ∷ s) = elim (Option-cases (digit_below base c)) [
  | inl e ↦
      scan-stop base cutoff cutlim c s (overflow, acc) e
      ∙ ap (λ (p : List ℕ × List ℕ). ((overflow, acc), p.1)) (sym (numeral-stop base c s e))
  | inr (d, e) ↦
      scan-go base cutoff cutlim c d s (overflow, acc) e
      ∙ scan-over base cutoff cutlim acc s
      ∙ ap (λ (p : List ℕ × List ℕ). ((overflow, acc), p.1)) (sym (numeral-go base c d s e))
]

abbrev pub no_digits : List ℕ → Bool
no_digits [] = true
no_digits (d ∷ ds) = false

-- What the loop leaves at the digits and the rest of a text, from a number within the limit on.
abbrev pub Scanned : ℕ → ℕ → Any → ℕ → List ℕ × List ℕ → (Any × ℕ) × List ℕ → Type 0
Scanned limit base any acc (ds, rest) ((any', acc'), rest') =
    (rest' ≡ rest)
    × (overflowed any' ≡ ltb limit (value base acc ds))
    × (value base acc ds ≤ limit → acc' ≡ value base acc ds)
    × ((str : List ℕ) → end_of any' str rest ≡ (if no_digits ds then end_of any str rest else rest))

Scanned-moved :
    (limit base : ℕ) (any : Any) (acc : ℕ) (n n' : List ℕ × List ℕ) (r r' : (Any × ℕ) × List ℕ)
    → n' ≡ n
    → r' ≡ r
    → Scanned limit base any acc n r
    → Scanned limit base any acc n' r'
Scanned-moved limit base any acc n n' r r' p q h =
    subst (λ m. Scanned limit base any acc m r') (sym p)
      (subst (λ t. Scanned limit base any acc n t) (sym q) h)

module _ (limit base : ℕ) (h : 0 < base) (w : limit < 2 ^ 64) where
  abbrev pub push : ℕ → Any × ℕ → Any × ℕ
  push d st = push_digit base (limit / base) (limit % base) d st

  pub push-decided :
      (any : Any) (acc d : ℕ)
      → overflowed any ≡ false
      → d < base
      → push d (any, acc)
        ≡ (if ltb limit (acc * base + d) then (overflow, acc) else (digits, acc * base + d))
  unfolding push_digit
  push-decided any acc d o k = ground (
    arith,
    digit_fits base (limit / base) (limit % base) acc d (mod-lt limit h) k,
    div-add-mod limit base,
    mod-eq_of_lt {n = acc * base + d} {m = 2 ^ 64},
  )

  -- what one digit below the base leaves to the rest of the loop
  pushed :
      (any : Any) (acc d : ℕ) (s : List ℕ)
      → (acc * base + d ≤ limit
          → Scanned limit base digits
              (acc * base + d)
              (numeral base s)
              (scan base (limit / base) (limit % base) s (digits, acc * base + d)))
      → Scanned limit base any acc
          (d ∷ (numeral base s).0, (numeral base s).1)
          (scan base
            (limit / base)
            (limit % base)
            s
            (if ltb limit (acc * base + d) then (overflow, acc) else (digits, acc * base + d)))
  unfolding value overflowed end_of
  pushed any acc d s ih = elim (Bool-cases (ltb limit (acc * base + d))) [
    | inl e ↦
        let more = le_value base (acc * base + d) (numeral base s).0 h in
        rw (e, scan-over)
          (refl, ground (arith, more), (λ v. absurd (ground (arith, more))), λ str. refl)
    | inr e ↦ let (r, o, v, f) = ih (ground arith) in rw e (r, o, v, λ str. f str ∙ ground arith)
  ]

  pub scan-Scanned :
      (any : Any) (acc : ℕ) (t : List ℕ)
      → overflowed any ≡ false
      → acc ≤ limit
      → Scanned limit base any acc
          (numeral base t)
          (scan base (limit / base) (limit % base) t (any, acc))
  unfolding scan numeral value overflowed end_of
  scan-Scanned any acc [] o k = (refl, ground arith, (λ _. refl), λ str. refl)
  scan-Scanned any acc (c ∷ s) o k = elim (Option-cases (digit_below base c)) [
    | inl e ↦
        Scanned-moved limit base any acc ([], c ∷ s) _ ((any, acc), c ∷ s) _
          (numeral-stop base c s e) (scan-stop base (limit / base) (limit % base) c s (any, acc) e)
          (refl, ground arith, (λ _. refl), λ str. refl)
    | inr (d, e) ↦
        Scanned-moved limit base any acc _ _ _ _ (numeral-go base c d s e)
          (scan-go base (limit / base) (limit % base) c d s (any, acc) e
            ∙ ap (λ st. scan base (limit / base) (limit % base) s st)
                (push-decided any acc d o (digit_below-lt base c d e)))
          (pushed any acc d s λ fits. scan-Scanned digits (acc * base + d) s refl fits)
  ]
