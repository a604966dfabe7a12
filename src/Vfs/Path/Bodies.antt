-- ===== src/Vfs/Path/Bodies.antt =====
-- What the bodies of the two loops of `canonicalize_path` do to the pieces.
use os.Prelude.{
  suc, ◌-◌, ◌≡◌, refl, ap, ◌∙◌, Bool, true, false, ◌&&◌, List, [], ◌∷◌, ◌++◌, if◌then◌else◌, ◌==◌,
  length, take, arith, inl, inr, Bool-cases,
}
use os.Alloc.{Enough-fewer, malloc}
use os.Libk.Token.{strcmp}
use os.Vfs.Path.{Bytes, path_up, path_dot, equal_strings, insert_copy, pop_string, take_piece}
use os.Vfs.Path.Loop.{Does}

abbrev pub added : List Bytes → Bytes → List Bytes
added out p = out ++ p ∷ []

pub insert_copy-Does : Does insert_copy added
unfolding insert_copy malloc
insert_copy-Does p out [] k e = let q : false ≡ true = e in absurd (cc q)
insert_copy-Does p out (a ∷ []) k (_, e) = let q : false ≡ true = e in absurd (cc q)
insert_copy-Does p out (a ∷ b ∷ m) k (t, (u, e)) = rw (t, u) (m, refl, e)

abbrev pub is_up : Bytes → Bool
is_up (c ∷ d ∷ []) = c == 46 && d == 46
is_up _ = false

abbrev pub is_dot : Bytes → Bool
is_dot (c ∷ []) = c == 46
is_dot _ = false

-- what a piece does to the ones in front: `..` takes the last one back and `.` does nothing
abbrev pub resolved : List Bytes → Bytes → List Bytes
resolved out p =
    if is_up p then take (length out - 1) out else if is_dot p then out else out ++ p ∷ []

equal_strings-path_up : (p : Bytes) → equal_strings p path_up ≡ is_up p
unfolding strcmp
equal_strings-path_up [] = refl
equal_strings-path_up (c ∷ []) = ground arith
equal_strings-path_up (c ∷ d ∷ []) = ground arith
equal_strings-path_up (c ∷ d ∷ x ∷ s) = ground arith

equal_strings-path_dot : (p : Bytes) → equal_strings p path_dot ≡ is_dot p
unfolding strcmp
equal_strings-path_dot [] = refl
equal_strings-path_dot (c ∷ []) = ground arith
equal_strings-path_dot (c ∷ x ∷ s) = ground arith

pop_string-take : (l : List Bytes) → pop_string l ≡ take (length l - 1) l
pop_string-take [] = refl
pop_string-take (x ∷ []) = refl
pop_string-take (x ∷ y ∷ l) =
    let q : suc (length (y ∷ l) - 1) ≡ length (x ∷ y ∷ l) - 1 = omega arith in
    ap (λ t. x ∷ t) (pop_string-take (y ∷ l)) ∙ ap (λ n. take n (x ∷ y ∷ l)) q

pub take_piece-Does : Does take_piece resolved
unfolding take_piece
take_piece-Does p out m k e =
    let (m', q, e') = insert_copy-Does p out m k e in
    elim (Bool-cases (is_up p)) [
      | inl u ↦
          rw (equal_strings-path_up p, u, pop_string-take out)
            (m, refl, Enough-fewer k (suc (suc k)) m (omega arith) e)
      | inr u ↦ elim (Bool-cases (is_dot p)) [
        | inl d ↦
            rw (equal_strings-path_up p, u, equal_strings-path_dot p, d)
              (m, refl, Enough-fewer k (suc (suc k)) m (omega arith) e)
        | inr d ↦ rw (equal_strings-path_up p, u, equal_strings-path_dot p, d) (m', q, e')
      ]
    ]
