-- ===== src/Libk/Token.antt =====
-- Tokens: libk/src/string/strtok_r.c with strspn.c, strpbrk.c, strcspn.c and strchr.c beside it, and
-- strcmp.c. A string is the list of its bytes before the NUL, none of which is 0, and a pointer
-- into it the rest from there on. What `strtok_r` cuts off with a NUL is a list of its own.
pub mod Laws
mod Tests
use os.Prelude.{
  ℕ, zero, suc, ◌+◌, ◌-◌, Bool, true, false, ◌||◌, List, [], ◌∷◌, Option, none, some, if◌then◌else◌,
  ◌==◌, ltb, length, take, drop,
}
use os.Prelude.Int.{ℤ, pos, negsuc}

-- NULL where the byte is not there
unfoldable pub strchr : List ℕ → ℕ → Option (List ℕ)
strchr [] c = none
strchr (d ∷ s) c = let rest = strchr s c in if d == c then some (d ∷ s) else rest

-- the inner loop of `strspn`
unfoldable pub accepts : List ℕ → ℕ → Bool
accepts [] c = false
accepts (a ∷ l) c = c == a || accepts l c

unfoldable pub strspn : List ℕ → List ℕ → ℕ
unfolding accepts
strspn [] acc = 0
strspn (c ∷ s) acc = let n = strspn s acc in if accepts acc c then suc n else 0

-- the bytes that the `do` loop of `strcspn` marks in its table
abbrev mark : (ℕ → Bool) → List ℕ → ℕ → Bool
mark p [] x = x == 0 || p x
mark p (c ∷ s) x = mark (λ y. y == c || p y) s x

-- the loop of `strcspn` over its table
unfoldable pub span_table : (ℕ → Bool) → List ℕ → ℕ
span_table p [] = 0
span_table p (c ∷ s) = let n = span_table p s in if p c then 0 else suc n

-- the difference of a pointer into `s` and `s`, where `none` is NULL - s
abbrev pub distance : List ℕ → Option (List ℕ) → Option ℕ
distance s none = none
distance s (some t) = some (length s - length t)

unfoldable pub strcspn : List ℕ → List ℕ → Option ℕ
unfolding strchr span_table
strcspn s [] = distance s (strchr s 0)
strcspn s (c ∷ []) = distance s (strchr s c)
strcspn s (c ∷ d ∷ r) = some (span_table (mark (λ _. false) (c ∷ d ∷ r)) s)

-- `*s ? s : NULL`
abbrev pub unless_end : List ℕ → Option (List ℕ)
unless_end [] = none
unless_end (c ∷ s) = some (c ∷ s)

-- `strpbrk` behind the call of `strcspn`. Behind the distance NULL - s, `s` is NULL itself and the
-- byte at address 0 is read: `null_read` says whether the machine allows that. Whatever the byte,
-- NULL is returned.
abbrev pub break_at : Bool → List ℕ → Option ℕ → Option (Option (List ℕ))
break_at null_read s none = if null_read then some none else none
break_at null_read s (some n) = some (unless_end (drop n s))

-- `none` inside is NULL
unfoldable pub strpbrk : Bool → List ℕ → List ℕ → Option (Option (List ℕ))
unfolding strcspn
strpbrk null_read s accept = break_at null_read s (strcspn s accept)

-- the token, and what `*saveptr` is, from what `strpbrk` returns
abbrev pub cut_token : List ℕ → Option (Option (List ℕ)) → Option (Option (List ℕ) × List ℕ)
cut_token token none = none
cut_token token (some none) = some (some token, [])
cut_token token (some (some t)) = some (some (take (length token - length t) token), drop 1 t)

unfoldable pub strtok_at : Bool → List ℕ → List ℕ → Option (Option (List ℕ) × List ℕ)
unfolding strpbrk
strtok_at null_read [] delim = some (none, [])
strtok_at null_read (c ∷ s) delim = cut_token (c ∷ s) (strpbrk null_read (c ∷ s) delim)

-- where `strtok_r` starts: `none` for `str` is NULL
abbrev pub start : Option (List ℕ) → List ℕ → List ℕ
start none saveptr = saveptr
start (some s) saveptr = s

unfoldable pub strtok_r :
    Bool → Option (List ℕ) → List ℕ → List ℕ → Option (Option (List ℕ) × List ℕ)
unfolding strspn strtok_at
strtok_r null_read str delim saveptr =
    let s = start str saveptr in strtok_at null_read (drop (strspn s delim) s) delim

unfoldable pub strcmp : List ℕ → List ℕ → ℤ
strcmp [] [] = pos 0
strcmp [] (d ∷ t) = negsuc 0
strcmp (c ∷ s) [] = pos 1
strcmp (c ∷ s) (d ∷ t) =
    let rest = strcmp s t in if c == d then rest else if ltb c d then negsuc 0 else pos 1
