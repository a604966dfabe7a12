-- ===== src/Vfs/Path/Loop.antt =====
-- The two loops of `canonicalize_path` over the pieces of a path.
use os.Prelude.{
  ℕ, zero, suc, ◌+◌, ◌*◌, ◌<◌, ◌≡◌, ◌≢◌, refl, sym, ap, subst, ◌∙◌, Bool, true, false, not, ◌&&◌,
  List, [], ◌∷◌, ◌++◌, Option, none, some, if◌then◌else◌, length, length-append, arith, ◌⊎◌, inl,
  inr, Bool-cases,
}
use os.Alloc.{Mem, Enough, Enough-fewer}
use os.Libk.Token.{strtok_r}
use os.Libk.Token.Laws.{strtok_r-Cuts}
use os.Vfs.Path.{Bytes, slash, path_separator_string, Listed, each_token, walk_path}
use os.Vfs.Path.Pieces.{
  pieces, is_open, pieces-lead, is_open-lead, pieces-next, is_open-next, pieces-last, is_open-last,
  pieces-Only, is_open-Only,
}

longer : (s : Bytes) → s ≢ [] → 0 < length s
longer [] h = absurd (h refl)
longer (c ∷ s) h = omega arith

abbrev pub folded : (List Bytes → Bytes → List Bytes) → List Bytes → List Bytes → List Bytes
folded f out [] = out
folded f out (p ∷ ps) = folded f (f out p) ps

-- a body that does `f` to the list, in at most two calls of `malloc`
abbrev pub Does : (Bytes → Listed → Option Listed) → (List Bytes → Bytes → List Bytes) → Type 0
Does body f =
    (p : Bytes) (out : List Bytes) (m : Mem) (k : ℕ)
    → Enough (suc (suc k)) m
    → (m' : Mem) × (body p (out, m) ≡ some (f out p, m')) × Enough k m'

-- What a loop leaves: the pieces are taken one after the other, or the last one is open and the
-- machine cannot read at address 0.
abbrev pub Ran :
    Bool
    → ℕ
    → Bool
    → List Bytes
    → (List Bytes → Bytes → List Bytes)
    → List Bytes
    → Option Listed
    → Type 0
Ran r k opened ps f out res =
    (((opened && not r) ≡ false) × ((m' : Mem) × (res ≡ some (folded f out ps, m')) × Enough k m'))
    ⊎ (((opened && not r) ≡ true) × (res ≡ none))

module _ (r : Bool) (body : Bytes → Listed → Option Listed) (f : List Bytes → Bytes → List Bytes)
    (does : Does body f) where
  -- one round, behind which the loop goes on with `next`
  round :
      (n : ℕ) (tok rest : Bytes) (out : List Bytes) (m : Mem) (j k : ℕ) (b : Bool) (ps : List Bytes)
      → Enough (suc (suc k)) m
      → ((out' : List Bytes) (m' : Mem)
          → Enough k m'
          → Ran r j b ps f out'
              (each_token r body n (strtok_r r none path_separator_string rest) (out', m')))
      → Ran r j b (tok ∷ ps) f out (each_token r body (suc n) (some (some tok, rest)) (out, m))
  unfolding each_token
  round n tok rest out m j k b ps e next =
      let (m', q, e') = does tok out m k e in
      subst
        (λ (o : Option Listed). Ran r j b (tok ∷ ps) f out (elim o [
          | none ↦ none
          | some st ↦ each_token r body n (strtok_r r none path_separator_string rest) st
        ]))
        (sym q) (next (f out tok) m' e')

  -- a piece with no separator behind it, where address 0 can be read
  relax :
      (k : ℕ) (ps out : List Bytes) (res : Option Listed)
      → r ≡ true
      → Ran r k false ps f out res
      → Ran r k true ps f out res
  relax k ps out res h (inl (_, q)) = inl (ap not h, q)
  relax k ps out res h (inr (e, _)) = absurd (cc e)

  last_round :
      (n : ℕ) (tok : Bytes) (out : List Bytes) (m : Mem) (k : ℕ)
      → Enough (suc (suc k)) m
      → ((out' : List Bytes) (m' : Mem)
          → Enough k m'
          → Ran r k false [] f out'
              (each_token r body n (strtok_r r none path_separator_string []) (out', m')))
      → Ran r k true
          (tok ∷ [])
          f
          out
          (each_token r body (suc n) (if r then some (some tok, []) else none) (out, m))
  unfolding each_token
  last_round n tok out m k e next = elim (Bool-cases r) [
    | inl h ↦
        subst
          (λ (c : Bool).
            Ran r k true (tok ∷ []) f out
              (each_token r body (suc n) (if c then some (some tok, []) else none) (out, m)))
          (sym h) (relax k (tok ∷ []) out _ h (round n tok [] out m k k false [] e next))
    | inr h ↦ inr (
      ap not h,
      ap
          (λ (c : Bool).
            each_token r body (suc n) (if c then some (some tok, []) else none) (out, m))
          h,
    )
  ]

  ended :
      (n : ℕ) (out : List Bytes) (m : Mem) (k : ℕ)
      → 0 < n
      → Enough k m
      → Ran r k false [] f out
          (each_token r body n (strtok_r r none path_separator_string []) (out, m))
  unfolding each_token strtok_r
  ended zero out m k h e = absurd (omega arith)
  ended (suc n) out m k h e = inl (refl, (m, refl, e))

  each_token-Ran :
      (n : ℕ) (s sv : Bytes) (out : List Bytes) (m : Mem) (k : ℕ)
      → length s < n
      → Enough (2 * length s + k) m
      → Ran r k
          (is_open s)
          (pieces s)
          f
          out
          (each_token r body n (strtok_r r (some s) path_separator_string sv) (out, m))
  unfolding each_token
  each_token-Ran zero s sv out m k h e = absurd (omega arith)
  each_token-Ran (suc n) s sv out m k h e = elim (strtok_r-Cuts r slash s sv) [
    | inl (o, q) ↦ along q (
        inl (
          ap (λ b. b && not r) (is_open-Only s o),
          (m, done m out (pieces-Only s o), Enough-fewer k (2 * length s + k) m (omega arith) e),
        ))
    | inr (inl (lead, tok, rest, o, t, q, w)) ↦
        let len : length s ≡ length lead + (length tok + suc (length rest)) =
          ap length q
          ∙ length-append lead (tok ++ slash ∷ rest)
          ∙ ap (λ x. length lead + x) (length-append tok (slash ∷ rest)) in
        let b : is_open s ≡ is_open rest =
          ap is_open q ∙ is_open-lead lead _ o ∙ is_open-next tok rest in
        let p : pieces s ≡ tok ∷ pieces rest =
          ap pieces q ∙ pieces-lead lead _ o ∙ pieces-next tok rest t in
        along w (
          shaped b p (
            round n tok rest out m k (2 * length rest + k) (is_open rest) (pieces rest)
              (Enough-fewer (suc (suc (2 * length rest + k))) (2 * length s + k) m
                (omega (arith, len)) e)
              (λ out' m' e'. each_token-Ran n rest [] out' m' k (omega (arith, len)) e')))
    | inr (inr (lead, tok, o, t, q, w)) ↦
        let len : length s ≡ length lead + length tok = ap length q ∙ length-append lead tok in
        let b : is_open s ≡ true = ap is_open q ∙ is_open-lead lead tok o ∙ is_open-last tok t in
        let p : pieces s ≡ tok ∷ [] = ap pieces q ∙ pieces-lead lead tok o ∙ pieces-last tok t in
        let some_byte : 0 < length tok = longer tok t.0 in
        along w (
          shaped b p (
            last_round n tok out m k
              (Enough-fewer (suc (suc k)) (2 * length s + k) m (omega (arith, len, some_byte)) e)
              (λ out' m' e'. ended n out' m' k (omega (arith, len, some_byte)) e')))
  ]
    where
      along :
          {x y : Option (Option Bytes × Bytes)}
          → x ≡ y
          → Ran r k (is_open s) (pieces s) f out (each_token r body (suc n) y (out, m))
          → Ran r k (is_open s) (pieces s) f out (each_token r body (suc n) x (out, m))
      along q ran =
          subst (λ x. Ran r k (is_open s) (pieces s) f out (each_token r body (suc n) x (out, m)))
            (sym q) ran

      shaped :
          {c : Bool} {ps : List Bytes} {res : Option Listed}
          → is_open s ≡ c
          → pieces s ≡ ps
          → Ran r k c ps f out res
          → Ran r k (is_open s) (pieces s) f out res
      shaped {c = c} {ps = ps} {res = res} b p ran =
          subst (λ d. Ran r k d (pieces s) f out res) (sym b)
            (subst (λ l. Ran r k c l f out res) (sym p) ran)

      done :
          (m : Mem) (out : List Bytes)
          → pieces s ≡ []
          → each_token r body (suc n) (some (none, [])) (out, m) ≡ some (folded f out (pieces s), m)
      done m out p = ap (λ ps. some (folded f out ps, m)) (sym p)

  pub walk_path-Ran :
      (s : Bytes) (out : List Bytes) (m : Mem) (k : ℕ)
      → Enough (2 * length s + k) m
      → Ran r k (is_open s) (pieces s) f out (walk_path r body s (out, m))
  unfolding walk_path
  walk_path-Ran s out m k e = each_token-Ran (suc (length s)) s [] out m k (omega arith) e
