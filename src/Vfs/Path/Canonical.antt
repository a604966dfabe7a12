-- ===== src/Vfs/Path/Canonical.antt =====
-- `canonicalize_path` as a whole.
use mathlib.Core.List.{append_assoc, append-nil}
use os.Prelude.{
  ℕ, suc, ◌+◌, ◌*◌, ◌≡◌, refl, sym, ap, subst, ◌∙◌, Bool, true, false, not, ◌&&◌, ◌||◌, List, [],
  ◌∷◌, ◌++◌, Option, none, some, if◌then◌else◌, length, arith, ◌⊎◌, inl, inr, Bool-cases,
}
use os.Alloc.{Enough, Enough-fewer, Mem, malloc}
use os.Vfs.Path.{
  Bytes, slash, insert_copy, take_piece, is_relative, walk_cwd, walk_input, write_pieces, write_out,
  after_input, after_cwd, canonicalize_path,
}
use os.Vfs.Path.Pieces.{pieces, is_open}
use os.Vfs.Path.Loop.{folded, Ran, walk_path-Ran}
use os.Vfs.Path.Bodies.{added, insert_copy-Does, resolved, take_piece-Does}

folded-added : (out ps : List Bytes) → folded added out ps ≡ out ++ ps
folded-added out [] = sym (append-nil out)
folded-added out (p ∷ ps) = folded-added (out ++ p ∷ []) ps ∙ append_assoc out (p ∷ []) ps

-- the pieces in front of those of `input`
abbrev pub base_pieces : Bytes → Bytes → List Bytes
base_pieces cwd input = if is_relative input then pieces cwd else []

walk_cwd-Ran :
    (r : Bool) (cwd input : Bytes) (m : Mem) (k : ℕ)
    → Enough (suc (2 * length cwd + k)) m
    → Ran r k
        (is_relative input && is_open cwd)
        (base_pieces cwd input)
        added
        []
        (walk_cwd r cwd input m)
unfolding walk_cwd malloc
walk_cwd-Ran r cwd input [] k e = absurd (let q : false ≡ true = e in cc q)
walk_cwd-Ran r cwd input (b ∷ m) k (t, e) = elim (Bool-cases (is_relative input)) [
  | inl h ↦ rw (h, t) (walk_path-Ran r insert_copy added insert_copy-Does cwd [] m k e)
  | inr h ↦ rw h (
      inl (
        refl,
        (b ∷ m, refl, (Enough-fewer k (suc (2 * length cwd + k)) (b ∷ m) (omega arith) (t, e))),
      ))
]

walk_input-Ran :
    (r : Bool) (input : Bytes) (out : List Bytes) (m : Mem) (k : ℕ)
    → Enough (suc (suc (2 * length input + k))) m
    → Ran r k (is_open input) (pieces input) resolved out (walk_input r input (out, m))
unfolding walk_input malloc
walk_input-Ran r input out [] k e = absurd (let q : false ≡ true = e in cc q)
walk_input-Ran r input out (b ∷ []) k (_, e) = absurd (let q : false ≡ true = e in cc q)
walk_input-Ran r input out (b ∷ c ∷ m) k (t, (u, e)) =
    rw t (walk_path-Ran r take_piece resolved take_piece-Does input out m k e)

-- the path of these pieces
abbrev pub rendered : List Bytes → Bytes
rendered [] = slash ∷ []
rendered (p ∷ ps) = write_pieces (p ∷ ps)

write_out-rendered :
    (out : List Bytes) (m : Mem)
    → Enough 1 m
    → (m' : Mem) × (write_out (out, m) ≡ some (some (rendered out), m'))
unfolding write_out malloc
write_out-rendered out [] e = absurd (let q : false ≡ true = e in cc q)
write_out-rendered [] (b ∷ m) (t, e) = rw t (m, refl)
write_out-rendered (p ∷ ps) (b ∷ m) (t, e) = (m, ground (arith, t))

-- the paths that are walked have a last piece with no separator behind it
abbrev pub ends_open : Bytes → Bytes → Bool
ends_open cwd input = is_relative input && is_open cwd || is_open input

-- what `canonicalize_path` returns: the path of the pieces, or a fault at the read of address 0
abbrev pub Resolved : Bool → Bytes → Bytes → Option (Option Bytes × Mem) → Type 0
Resolved r cwd input out =
    (((ends_open cwd input && not r) ≡ false)
      × ((m' : Mem) × (out
            ≡ some (some (rendered (folded resolved (base_pieces cwd input) (pieces input))), m'))))
    ⊎ (((ends_open cwd input && not r) ≡ true) × (out ≡ none))

and_or : (a b r : Bool) → (a && r) ≡ false → (b && r) ≡ false → ((a || b) && r) ≡ false
and_or true b r h k = h
and_or false b r h k = k

and_or_left : (a b r : Bool) → (a && r) ≡ true → ((a || b) && r) ≡ true
and_or_left true b r h = h
and_or_left false b r h = absurd (cc h)

and_or_right : (a b r : Bool) → (b && r) ≡ true → ((a || b) && r) ≡ true
and_or_right true true r h = h
and_or_right true false r h = absurd (cc h)
and_or_right false b r h = h

input_Resolved :
    (r : Bool) (cwd input : Bytes) (m : Mem)
    → ((is_relative input && is_open cwd && not r) ≡ false)
    → Enough (suc (suc (2 * length input + 1))) m
    → Resolved r cwd input (after_cwd r input (some (base_pieces cwd input, m)))
input_Resolved r cwd input m h e =
    let out = base_pieces cwd input in
    elim (walk_input-Ran r input out m 1 e) [
      | inl (k, (m', q, e')) ↦
          let (m'', w) = write_out-rendered (folded resolved out (pieces input)) m' e' in
          inl (and_or (is_relative input && is_open cwd) _ _ h k, (m'', ap after_input q ∙ w))
      | inr (k, q) ↦ inr (and_or_right (is_relative input && is_open cwd) _ _ k, ap after_input q)
    ]

cwd_Resolved :
    (r : Bool) (cwd input : Bytes) (m : Mem)
    → Enough (suc (2 * length cwd + suc (suc (2 * length input + 1)))) m
    → Resolved r cwd input (after_cwd r input (walk_cwd r cwd input m))
cwd_Resolved r cwd input m e =
    elim (walk_cwd-Ran r cwd input m (suc (suc (2 * length input + 1))) e) [
      | inl (h, (m', q, e')) ↦
          subst (λ o. Resolved r cwd input (after_cwd r input o))
            (sym (q ∙ ap (λ l. some (l, m')) (folded-added [] (base_pieces cwd input))))
            (input_Resolved r cwd input m' h e')
      | inr (h, q) ↦
          inr (and_or_left (is_relative input && is_open cwd) _ _ h, ap (after_cwd r input) q)
    ]

-- With memory for each of its calls, `canonicalize_path` returns the path of the pieces of `input`
-- behind those of `cwd`, which count where `input` is relative: `..` takes a piece back and `.` is
-- dropped. Where a path that is walked ends in a piece, the byte at address 0 is read, and the
-- function faults where the machine does not allow that.
pub canonicalize_path-Resolved :
    (null_read : Bool) (cwd input : Bytes) (m : Mem)
    → Enough (2 * length cwd + 2 * length input + 5) m
    → Resolved null_read cwd input (canonicalize_path null_read cwd input m)
unfolding canonicalize_path malloc
canonicalize_path-Resolved r cwd input [] e = absurd (
    let q : false ≡ true =
      Enough-fewer 1 (2 * length cwd + 2 * length input + 5) [] (omega arith) e in
    cc q)
canonicalize_path-Resolved r cwd input (b ∷ m) e =
    let n = suc (2 * length cwd + suc (suc (2 * length input + 1))) in
    let (t, e') =
      Enough-fewer (suc n) (2 * length cwd + 2 * length input + 5) (b ∷ m) (omega arith) e in
    rw t (cwd_Resolved r cwd input m e')
