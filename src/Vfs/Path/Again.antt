-- ===== src/Vfs/Path/Again.antt =====
-- A path that `canonicalize_path` returned is canonical.
use mathlib.Core.List.{append-nil, append_assoc}
use os.Prelude.{
  ℕ, ◌+◌, ◌-◌, ◌*◌, ◌≡◌, ◌≢◌, refl, sym, ap, subst, ◌∙◌, Bool, true, false, not, ◌&&◌, List, [],
  ◌∷◌, ◌++◌, Option, none, some, ◌==◌, length, take, ◌⊎◌, inl, inr, Bool-cases, suc, zero,
}
use os.Alloc.{Enough, Mem}
use os.Libk.Token.Laws.{Lacks, Token}
use os.Vfs.Path.{Bytes, slash, is_relative, write_pieces, canonicalize_path}
use os.Vfs.Path.Pieces.{
  close, pieces_from, pieces, open_from, is_open, pieces-next, pieces-last, is_open-next,
  is_open-last,
}
use os.Vfs.Path.Loop.{folded}
use os.Vfs.Path.Bodies.{is_up, is_dot, resolved}
use os.Vfs.Path.Canonical.{base_pieces, rendered, canonicalize_path-Resolved}

abbrev Tokens : List Bytes → Type 0
Tokens [] = Unit
Tokens (p ∷ ps) = Token slash p × Tokens ps

-- no piece is `.` or `..`
abbrev pub Dotless : List Bytes → Type 0
Dotless [] = Unit
Dotless (p ∷ ps) = (is_up p ≡ false) × (is_dot p ≡ false) × Dotless ps

Tokens-append : (ps qs : List Bytes) → Tokens ps → Tokens qs → Tokens (ps ++ qs)
Tokens-append [] qs h k = k
Tokens-append (p ∷ ps) qs (t, h) k = (t, Tokens-append ps qs h k)

Dotless-append : (ps qs : List Bytes) → Dotless ps → Dotless qs → Dotless (ps ++ qs)
Dotless-append [] qs h k = k
Dotless-append (p ∷ ps) qs (u, d, h) k = (u, d, Dotless-append ps qs h k)

Tokens-take : (n : ℕ) (ps : List Bytes) → Tokens ps → Tokens (take n ps)
Tokens-take zero ps h = tt
Tokens-take (suc n) [] h = tt
Tokens-take (suc n) (p ∷ ps) (t, h) = (t, Tokens-take n ps h)

Dotless-take : (n : ℕ) (ps : List Bytes) → Dotless ps → Dotless (take n ps)
Dotless-take zero ps h = tt
Dotless-take (suc n) [] h = tt
Dotless-take (suc n) (p ∷ ps) (u, d, h) = (u, d, Dotless-take n ps h)

-- the pieces of a path hold no separator
Lacks-snoc :
    (s : Bytes) (d : ℕ) → Lacks slash s → ((d == slash) ≡ false) → Lacks slash (s ++ d ∷ [])
Lacks-snoc [] d l e = (e, tt)
Lacks-snoc (c ∷ s) d (h, l) e = (h, Lacks-snoc s d l e)

close-Tokens : (cur : Bytes) → Lacks slash cur → Tokens (close cur)
close-Tokens [] l = tt
close-Tokens (c ∷ s) l = (((λ e. cc e), l), tt)

pieces_from-Tokens : (cur s : Bytes) → Lacks slash cur → Tokens (pieces_from cur s)
unfolding pieces_from
pieces_from-Tokens cur [] l = close-Tokens cur l
pieces_from-Tokens cur (d ∷ s) l = elim (Bool-cases (d == slash)) [
  | inl e ↦ rw e (
      Tokens-append (close cur) (pieces_from [] s) (close-Tokens cur l)
        (pieces_from-Tokens [] s tt))
  | inr e ↦ rw e (pieces_from-Tokens (cur ++ d ∷ []) s (Lacks-snoc cur d l e))
]

abbrev Canonical : List Bytes → Type 0
Canonical ps = Tokens ps × Dotless ps

resolved-Canonical :
    (out : List Bytes) (p : Bytes) → Canonical out → Token slash p → Canonical (resolved out p)
resolved-Canonical out p (h, k) t = elim (Bool-cases (is_up p)) [
  | inl u ↦ rw u (Tokens-take (length out - 1) out h, Dotless-take (length out - 1) out k)
  | inr u ↦ elim (Bool-cases (is_dot p)) [
    | inl d ↦ rw (u, d) (h, k)
    | inr d ↦
        rw (u, d) (Tokens-append out (p ∷ []) h (t, tt), Dotless-append out (p ∷ []) k (u, d, tt))
  ]
]

folded-Canonical :
    (out ps : List Bytes) → Canonical out → Tokens ps → Canonical (folded resolved out ps)
folded-Canonical out [] h k = h
folded-Canonical out (p ∷ ps) h (t, k) =
    folded-Canonical (resolved out p) ps (resolved-Canonical out p h t) k

folded-Dotless : (out ps : List Bytes) → Dotless ps → folded resolved out ps ≡ out ++ ps
folded-Dotless out [] h = sym (append-nil out)
folded-Dotless out (p ∷ ps) (u, d, h) =
    rw (u, d) (folded-Dotless (out ++ p ∷ []) ps h ∙ append_assoc out (p ∷ []) ps)

pieces-rendered : (l : List Bytes) → Tokens l → pieces (rendered l) ≡ l
unfolding pieces_from
pieces-rendered [] h = refl
pieces-rendered (p ∷ []) (t, h) = ap pieces (append-nil p) ∙ pieces-last p t
pieces-rendered (p ∷ q ∷ l) (t, h) =
    pieces-next p (q ++ write_pieces l) t ∙ ap (λ r. p ∷ r) (pieces-rendered (q ∷ l) h)

is_open-rendered : (p : Bytes) (l : List Bytes) → Tokens (p ∷ l) → is_open (rendered (p ∷ l)) ≡ true
unfolding open_from
is_open-rendered p [] (t, h) = ap is_open (append-nil p) ∙ is_open-last p t
is_open-rendered p (q ∷ l) (t, h) = is_open-next p (q ++ write_pieces l) ∙ is_open-rendered q l h

base_pieces-Tokens : (cwd input : Bytes) → Tokens (base_pieces cwd input)
base_pieces-Tokens cwd input = elim (Bool-cases (is_relative input)) [
  | inl e ↦ rw e (pieces_from-Tokens [] cwd tt)
  | inr e ↦ rw e tt
]

unreadable : (b r : Bool) → (b && not r) ≡ true → r ≡ false
unreadable true false h = refl
unreadable true true h = absurd (cc h)
unreadable false r h = absurd (cc h)

readable : (r : Bool) → (true && not r) ≡ false → r ≡ true
readable true h = refl
readable false h = absurd (cc h)

rendered-root : (p : Bytes) (l : List Bytes) → Tokens (p ∷ l) → rendered (p ∷ l) ≢ slash ∷ []
unfolding pieces_from
rendered-root p l h e = cc (sym (pieces-rendered (p ∷ l) h) ∙ ap pieces e)

-- what `canonicalize_path` gives for the path `p`: a fault where the byte at address 0 cannot be read
-- and `p` is not the root, and `p` itself otherwise
abbrev pub Kept : Bool → Bytes → Option (Option Bytes × Mem) → Type 0
Kept r p out =
    (((r ≡ true) ⊎ (p ≡ slash ∷ [])) × ((m' : Mem) × (out ≡ some (some p, m'))))
    ⊎ ((r ≡ false) × (p ≢ slash ∷ []) × (out ≡ none))

rendered-Kept :
    (r : Bool) (cwd : Bytes) (l : List Bytes) (m : Mem)
    → Canonical l
    → Enough (2 * length cwd + 2 * length (rendered l) + 5) m
    → Kept r (rendered l) (canonicalize_path r cwd (rendered l) m)
unfolding pieces_from open_from
rendered-Kept r cwd [] m h e = elim (canonicalize_path-Resolved r cwd (rendered []) m e) [
  | inl (_, q) ↦ inl (inr refl, q)
  | inr (k, _) ↦ absurd (cc k)
]
rendered-Kept r cwd (p ∷ l) m (t, d) e =
    elim (canonicalize_path-Resolved r cwd (rendered (p ∷ l)) m e) [
      | inl (k, (m', q)) ↦ inl (
        inl (readable r (subst (λ b. (b && not r) ≡ false) (is_open-rendered p l t) k)),
        (
          m',
          q
              ∙ ap (λ x. some (some (rendered (folded resolved [] x)), m'))
                  (pieces-rendered (p ∷ l) t)
              ∙ ap (λ x. some (some (rendered x), m')) (folded-Dotless [] (p ∷ l) d),
        ),
      )
      | inr (k, q) ↦ inr (unreadable _ r k, rendered-root p l t, q)
    ]

abbrev path_of : Option (Option Bytes × Mem) → Bytes
path_of (some (some p, m)) = p
path_of _ = []

-- A path that `canonicalize_path` returned, where no piece of `cwd` is `.` or `..`, is returned
-- again when it is the input, whatever the directory, if the machine allows a read at address 0 or the
-- path is the root; otherwise the second call faults.
pub canonicalize_path-Kept :
    (null_read : Bool) (cwd input cwd' p : Bytes) (m m' m1 : Mem)
    → Dotless (base_pieces cwd input)
    → Enough (2 * length cwd + 2 * length input + 5) m
    → canonicalize_path null_read cwd input m ≡ some (some p, m1)
    → Enough (2 * length cwd' + 2 * length p + 5) m'
    → Kept null_read p (canonicalize_path null_read cwd' p m')
canonicalize_path-Kept r cwd input cwd' p m m' m1 d e q e' =
    let l = folded resolved (base_pieces cwd input) (pieces input) in
    let c =
      folded-Canonical (base_pieces cwd input) (pieces input) (base_pieces-Tokens cwd input, d)
        (pieces_from-Tokens [] input tt) in
    elim (canonicalize_path-Resolved r cwd input m e) [
      | inl (_, (m2, w)) ↦
          let same : rendered l ≡ p = ap path_of (sym w ∙ q) in
          subst (λ x. Kept r x (canonicalize_path r cwd' x m')) same
            (rendered-Kept r cwd' l m' c
              (subst (λ x. Enough (2 * length cwd' + 2 * length x + 5) m') (sym same) e'))
      | inr (_, w) ↦ absurd (cc (sym w ∙ q))
    ]
