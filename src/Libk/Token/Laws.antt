-- ===== src/Libk/Token/Laws.antt =====
-- What `strtok_r` cuts off, for a single delimiter.
use mathlib.Core.List.{append-nil}
use os.Prelude.{
  subst, ℕ, ◌-◌, ◌≡◌, ◌≢◌, refl, sym, ap, ◌∙◌, Bool, true, false, List, [], ◌∷◌, ◌++◌, Option, none,
  some, if◌then◌else◌, ◌==◌, length, length-append, take, drop, arith, Bool-cases, ◌⊎◌, inl, inr,
}
use os.Libk.Token.{
  strchr, accepts, strspn, distance, strcspn, strpbrk, break_at, unless_end, cut_token, strtok_at,
  strtok_r,
}

abbrev pub Only : ℕ → List ℕ → Type 0
Only c [] = Unit
Only c (d ∷ s) = (d ≡ c) × Only c s

abbrev pub Lacks : ℕ → List ℕ → Type 0
Lacks c [] = Unit
Lacks c (d ∷ s) = ((d == c) ≡ false) × Lacks c s

abbrev pub Token : ℕ → List ℕ → Type 0
Token c s = (s ≢ []) × Lacks c s

-- What `strtok_r` gives: NULL behind delimiters alone, the token before the next delimiter and the
-- rest behind it, or the last token, for which the byte at address 0 is read.
abbrev pub Cuts : Bool → ℕ → List ℕ → Option (Option (List ℕ) × List ℕ) → Type 0
Cuts null_read c s out =
    (Only c s × (out ≡ some (none, [])))
    ⊎ (((lead : List ℕ) × (tok : List ℕ) × (rest : List ℕ) × Only c lead
          × Token c tok
          × (s ≡ lead ++ (tok ++ c ∷ rest))
          × (out ≡ some (some tok, rest)))
        ⊎ ((lead : List ℕ) × (tok : List ℕ) × Only c lead
            × Token c tok
            × (s ≡ lead ++ tok)
            × (out ≡ (if null_read then some (some tok, []) else none))))

abbrev Found : ℕ → List ℕ → Option (List ℕ) → Type 0
Found c s out =
    ((out ≡ none) × Lacks c s)
    ⊎ ((tok : List ℕ) × (rest : List ℕ) × Lacks c tok
        × (s ≡ tok ++ c ∷ rest)
        × (out ≡ some (c ∷ rest)))

strchr-Found : (s : List ℕ) (c : ℕ) → Found c s (strchr s c)
unfolding strchr
strchr-Found [] c = inl (refl, tt)
strchr-Found (d ∷ s) c = elim (Bool-cases (d == c)) [
  | inl e ↦
      let q : d ≡ c = ground (arith, e) in
      inr ([], s, tt, ap (λ x. x ∷ s) q, rw e (ap (λ x. some (x ∷ s)) q))
  | inr e ↦ elim (strchr-Found s c) [
    | inl (n, l) ↦ inl (rw e n, (e, l))
    | inr (tok, rest, l, q, o) ↦ inr (d ∷ tok, rest, (e, l), ap (λ t. d ∷ t) q, rw e o)
  ]
]

abbrev Past : ℕ → List ℕ → List ℕ → Type 0
Past c s t =
    (lead : List ℕ) × Only c lead
    × (s ≡ lead ++ t)
    × ((t ≡ []) ⊎ ((d : ℕ) × (u : List ℕ) × (t ≡ d ∷ u) × ((d == c) ≡ false)))

strspn-Past : (s : List ℕ) (c : ℕ) → Past c s (drop (strspn s (c ∷ [])) s)
unfolding strspn accepts
strspn-Past [] c = ([], tt, refl, inl refl)
strspn-Past (d ∷ s) c = elim (Bool-cases (d == c)) [
  | inl e ↦
      let (lead, o, q, t) = strspn-Past s c in
      rw e (d ∷ lead, (ground (arith, e), o), ap (λ l. d ∷ l) q, t)
  | inr e ↦ rw e ([], tt, refl, inr (d, s, refl, e))
]

take_prefix : (xs ys : List ℕ) → take (length (xs ++ ys) - length ys) (xs ++ ys) ≡ xs
take_prefix xs ys =
    let e : length (xs ++ ys) - length ys ≡ length xs = omega (arith, length-append xs ys) in
    rw e (exact xs ys)
  where
    exact : (xs ys : List ℕ) → take (length xs) (xs ++ ys) ≡ xs
    exact [] ys = refl
    exact (x ∷ xs) ys = ap (λ l. x ∷ l) (exact xs ys)

drop_prefix : (xs ys : List ℕ) → drop (length (xs ++ ys) - length ys) (xs ++ ys) ≡ ys
drop_prefix xs ys =
    let e : length (xs ++ ys) - length ys ≡ length xs = omega (arith, length-append xs ys) in
    rw e (exact xs ys)
  where
    exact : (xs ys : List ℕ) → drop (length xs) (xs ++ ys) ≡ ys
    exact [] ys = refl
    exact (x ∷ xs) ys = exact xs ys

-- a token that starts with the byte `d`, and what is behind it
abbrev Cut : Bool → ℕ → List ℕ → Option (Option (List ℕ) × List ℕ) → Type 0
Cut null_read c s out =
    ((tok : List ℕ) × (rest : List ℕ) × Token c tok
      × (s ≡ tok ++ c ∷ rest)
      × (out ≡ some (some tok, rest)))
    ⊎ (Token c s × (out ≡ (if null_read then some (some s, []) else none)))

-- `strtok_at` on a token that has no delimiter behind it, and on one that has
strtok_at-last :
    (r : Bool) (c d : ℕ) (u : List ℕ)
    → strchr (d ∷ u) c ≡ none
    → strtok_at r (d ∷ u) (c ∷ []) ≡ (if r then some (some (d ∷ u), []) else none)
unfolding strtok_at strpbrk strcspn
strtok_at-last r c d u h =
    ap (λ o. cut_token (d ∷ u) (break_at r (d ∷ u) (distance (d ∷ u) o))) h ∙ Bool-induction r
  where
    Bool-induction :
        (b : Bool)
        → cut_token (d ∷ u) (break_at b (d ∷ u) none)
          ≡ (if b then some (some (d ∷ u), []) else none)
    Bool-induction true = refl
    Bool-induction false = refl

strtok_at-next :
    (r : Bool) (c x : ℕ) (tok rest : List ℕ)
    → strchr ((x ∷ tok) ++ c ∷ rest) c ≡ some (c ∷ rest)
    → strtok_at r ((x ∷ tok) ++ c ∷ rest) (c ∷ []) ≡ some (some (x ∷ tok), rest)
unfolding strtok_at strpbrk strcspn
strtok_at-next r c x tok rest h =
    let s = (x ∷ tok) ++ c ∷ rest in
    ap (λ o. cut_token s (break_at r s (distance s o))) h
    ∙ ap (λ t. cut_token s (some (unless_end t))) (drop_prefix (x ∷ tok) (c ∷ rest))
    ∙ ap (λ t. some (some t, rest)) (take_prefix (x ∷ tok) (c ∷ rest))

strtok_at-Cut :
    (r : Bool) (c d : ℕ) (u : List ℕ)
    → ((d == c) ≡ false)
    → Cut r c (d ∷ u) (strtok_at r (d ∷ u) (c ∷ []))
strtok_at-Cut r c d u h = elim (strchr-Found (d ∷ u) c) [
  | inl (n, l) ↦ inr (((λ e. cc e), l), strtok_at-last r c d u n)
  | inr ([], rest, l, q, o) ↦ absurd (grind (arith, q, h))
  | inr (x ∷ tok, rest, l, q, o) ↦ inl (
    x ∷ tok,
    rest,
    ((λ e. cc e), l),
    q,
    ap (λ t. strtok_at r t (c ∷ [])) q
        ∙ strtok_at-next r c x tok rest (ap (λ t. strchr t c) (sym q) ∙ o),
  )
]

-- With one delimiter, `strtok_r` skips the delimiters in front. Behind them it returns NULL at the
-- end of the string, or cuts off the bytes up to the next delimiter and keeps what is behind it.
-- The last token, which no delimiter follows, is returned where the byte at address 0 can be read,
-- and the read faults otherwise.
pub strtok_r-Cuts :
    (null_read : Bool) (c : ℕ) (s saveptr : List ℕ)
    → Cuts null_read c s (strtok_r null_read (some s) (c ∷ []) saveptr)
unfolding strtok_r
strtok_r-Cuts r c s saveptr =
    let (lead, o, q, end) = strspn-Past s c in
    elim end [
      | inl e ↦ inl (
        subst (λ t. Only c t) (sym (q ∙ ap (λ t. lead ++ t) e ∙ append-nil lead)) o,
        ap (λ t. strtok_at r t (c ∷ [])) e,
      )
      | inr (d, u, e, h) ↦
          let at = ap (λ t. strtok_at r t (c ∷ [])) e in
          elim (strtok_at-Cut r c d u h) [
            | inl (tok, rest, t, q', w) ↦
                inr (inl (lead, tok, rest, o, t, q ∙ ap (λ x. lead ++ x) (e ∙ q'), at ∙ w))
            | inr (t, w) ↦ inr (inr (lead, d ∷ u, o, t, q ∙ ap (λ x. lead ++ x) e, at ∙ w))
          ]
    ]
