-- ===== src/Process/Files/Arrays.antt =====
-- The writes to the arrays of a table of file descriptors.
use os.Prelude.{
  ℕ, zero, suc, ◌+◌, ◌*◌, ◌/◌, ◌%◌, ◌^◌, ◌≤◌, ◌<◌, ◌≡◌, refl, ap, ◌∙◌, false, List, [], ◌∷◌, ◌++◌,
  Option, none, some, ◌==◌, take, replicate, length, length-append, length-take, length-replicate,
  set, get_elem?, arith, Bool-cases, ◌⊎◌, inl, inr,
}
use os.Process.Files.{free_entry, put, resized}

pub put-set : (xs : List ℕ) (i v : ℕ) → i < length xs → put xs i v ≡ some (set xs i v)
put-set [] i v h = absurd (omega arith)
put-set (x ∷ xs) zero v h = refl
put-set (x ∷ xs) (suc i) v h = rw (put-set xs i v (omega arith)) refl

pub take-set : (n i v : ℕ) (xs : List ℕ) → take n (set xs i v) ≡ set (take n xs) i v
take-set zero i v xs = refl
take-set (suc n) i v [] = refl
take-set (suc n) zero v (x ∷ xs) = refl
take-set (suc n) (suc i) v (x ∷ xs) = ap (λ l. x ∷ l) (take-set n i v xs)

take-append_more : (n : ℕ) (xs ys : List ℕ) → n ≤ length xs → take n (xs ++ ys) ≡ take n xs
take-append_more zero xs ys h = refl
take-append_more (suc n) [] ys h = absurd (omega arith)
take-append_more (suc n) (x ∷ xs) ys h = ap (λ l. x ∷ l) (take-append_more n xs ys (omega arith))

take-take_more : (m n : ℕ) (xs : List ℕ) → m ≤ n → take m (take n xs) ≡ take m xs
take-take_more zero n xs h = refl
take-take_more (suc m) zero xs h = absurd (omega arith)
take-take_more (suc m) (suc n) [] h = refl
take-take_more (suc m) (suc n) (x ∷ xs) h = ap (λ l. x ∷ l) (take-take_more m n xs (omega arith))

-- an array that `realloc` made larger: its length, and what it keeps
pub length-resized :
    (junk w n : ℕ) (xs : List ℕ) → w * n % 2 ^ 64 / w ≡ n → length (resized junk w n xs) ≡ n
length-resized junk w n xs e = rw e (
    omega (
      arith,
      length-take n (xs ++ replicate n junk),
      length-append xs (replicate n junk),
      length-replicate n junk,
    ))

pub take-resized :
    (k junk w n : ℕ) (xs : List ℕ)
    → w * n % 2 ^ 64 / w ≡ n
    → k ≤ n
    → k ≤ length xs
    → take k (resized junk w n xs) ≡ take k xs
take-resized k junk w n xs e h l =
    rw e
      (take-take_more k n (xs ++ replicate n junk) h ∙ take-append_more k xs (replicate n junk) l)

abbrev pub NonNull : List ℕ → Type 0
NonNull [] = Unit
NonNull (e ∷ es) = ((e == 0) ≡ false) × NonNull es

-- what the loop finds: no entry that is NULL, or the first one
abbrev pub Finds : ℕ → ℕ → List ℕ → Option (Option ℕ) → Type 0
Finds i n es out =
    ((out ≡ some none) × NonNull (take n es))
    ⊎ ((d : ℕ) × (out ≡ some (some (i + d)))
        × (d < n)
        × NonNull (take d es)
        × (get_elem? es d ≡ some 0))

pub free_entry-Finds : (i n : ℕ) (es : List ℕ) → n ≤ length es → Finds i n es (free_entry i n es)
unfolding free_entry
free_entry-Finds i zero es h = inl (refl, tt)
free_entry-Finds i (suc n) [] h = absurd (omega arith)
free_entry-Finds i (suc n) (e ∷ es) h = elim (Bool-cases (e == 0)) [
  | inl z ↦ inr (
    0,
    rw z (ap (λ k. some (some k)) (omega arith)),
    omega arith,
    tt,
    ap some (ground (arith, z)),
  )
  | inr z ↦ elim (free_entry-Finds (i + 1) n es (omega arith)) [
    | inl (q, l) ↦ inl (rw z q, (z, l))
    | inr (d, q, h', l, g) ↦
        inr (suc d, rw z (q ∙ ap (λ k. some (some k)) (omega arith)), omega arith, (z, l), g)
  ]
]
