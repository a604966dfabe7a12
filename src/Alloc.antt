-- ===== src/Alloc.antt =====
-- The kernel heap as the other components see it: a call of `malloc` either hands out memory or
-- returns NULL. The answers of the successive calls are a list; when it is used up every call
-- fails. What is stored at the addresses is modelled by the component that stores it.
use os.Prelude.{Bool, true, false, List, [], ◌∷◌, ℕ, zero, suc, ◌≤◌, ◌≡◌, refl, arith, replicate}

abbrev pub Mem : Type 0
Mem = List Bool

unfoldable pub malloc : Mem → Bool × Mem
malloc [] = (false, [])
malloc (b ∷ m) = (b, m)

-- memory in which the next `n` calls succeed
abbrev pub plenty : ℕ → Mem
plenty n = replicate n true

-- memory in which the next `k` calls of `malloc` succeed
abbrev pub Enough : ℕ → Mem → Type 0
Enough zero m = Unit
Enough (suc k) [] = false ≡ true
Enough (suc k) (b ∷ m) = (b ≡ true) × Enough k m

pub Enough-fewer : (k n : ℕ) (m : Mem) → k ≤ n → Enough n m → Enough k m
Enough-fewer zero n m h e = tt
Enough-fewer (suc k) zero m h e = absurd (omega arith)
Enough-fewer (suc k) (suc n) [] h e = e
Enough-fewer (suc k) (suc n) (b ∷ m) h (t, e) = (t, Enough-fewer k n m (omega arith) e)

pub plenty-Enough : (n : ℕ) → Enough n (plenty n)
plenty-Enough zero = tt
plenty-Enough (suc n) = (refl, plenty-Enough n)
