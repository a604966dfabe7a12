-- ===== src/Process/Files/Written.antt =====
-- A descriptor that is written in a table, and the table that is left.
use os.Prelude.{
  ℕ, suc, ◌≤◌, ◌<◌, ◌≡◌, refl, ap, ◌∙◌, List, some, take, length, set, length-set, get_elem?,
  get_elem?-set_self, arith, ◌⊎◌,
}
use os.Process.Files.{FdTable, write_node}
use os.Process.Files.Arrays.{put-set, take-set, NonNull}

pub record IsValid (t : FdTable) : Type 0 where
  pub entries_fit : length t.entries ≡ t.capacity
  pub modes_fit : length t.modes ≡ t.capacity
  pub offsets_fit : length t.offsets ≡ t.capacity
  pub length_fits : t.length ≤ t.capacity
  pub some_capacity : 0 < t.capacity

-- `xs'` has `v` at `i`, and otherwise the first `n` elements of `xs`
abbrev pub Written : ℕ → ℕ → ℕ → List ℕ → List ℕ → Type 0
Written n i v xs xs' = (get_elem? xs' i ≡ some v) × (take n xs' ≡ set (take n xs) i v)

-- The table with `node` at the descriptor `i`, the first entry that was NULL or else the one
-- behind the last.
pub record Appended (node : ℕ) (t : FdTable) (i : ℕ) (t' : FdTable) : Type 0 where
  pub valid : IsValid t'
  pub entry : Written t.length i node t.entries t'.entries
  pub mode : Written t.length i 0 t.modes t'.modes
  pub offset : Written t.length i 0 t.offsets t'.offsets
  pub lowest : NonNull (take i t.entries)
  pub place :
      ((i < t.length) × (get_elem? t.entries i ≡ some 0) × (t'.length ≡ t.length))
      ⊎ ((i ≡ t.length) × (t'.length ≡ suc t.length))

-- a table of the same descriptors
pub record Like (t u : FdTable) : Type 0 where
  pub valid : IsValid u
  pub same_length : u.length ≡ t.length
  pub entries_kept : take t.length u.entries ≡ take t.length t.entries
  pub modes_kept : take t.length u.modes ≡ take t.length t.modes
  pub offsets_kept : take t.length u.offsets ≡ take t.length t.offsets

abbrev pub written : ℕ → ℕ → FdTable → FdTable
written node i t = record t {
  entries = set t.entries i node;
  modes = set t.modes i 0;
  offsets = set t.offsets i 0;
}

pub write_node-written :
    (node i : ℕ) (t : FdTable)
    → IsValid t
    → i < t.capacity
    → write_node node i t ≡ some (written node i t)
write_node-written node i t v h =
    rw
      (
        put-set t.entries i node (omega (arith, v.entries_fit)),
        put-set t.modes i 0 (omega (arith, v.modes_fit)),
        put-set t.offsets i 0 (omega (arith, v.offsets_fit)),
      )
      refl

set-Written :
    (n i v : ℕ) (xs ys : List ℕ)
    → i < length ys
    → take n ys ≡ take n xs
    → Written n i v xs (set ys i v)
set-Written n i v xs ys h e =
    (get_elem?-set_self ys i v h, take-set n i v ys ∙ ap (λ l. set l i v) e)

-- the table that is written, whose length may follow
written-IsValid :
    (node i n : ℕ) (u : FdTable)
    → IsValid u
    → n ≤ u.capacity
    → IsValid (record (written node i u) { length = n })
written-IsValid node i n u v h = record {
  entries_fit = length-set u.entries i node ∙ v.entries_fit;
  modes_fit = length-set u.modes i 0 ∙ v.modes_fit;
  offsets_fit = length-set u.offsets i 0 ∙ v.offsets_fit;
  length_fits = h;
  some_capacity = v.some_capacity;
}

pub written-Appended :
    (node i n : ℕ) (t u : FdTable)
    → Like t u
    → i < u.capacity
    → n ≤ u.capacity
    → NonNull (take i t.entries)
    → (((i < t.length) × (get_elem? t.entries i ≡ some 0) × (n ≡ t.length))
        ⊎ ((i ≡ t.length) × (n ≡ suc t.length)))
    → Appended node t i (record (written node i u) { length = n })
written-Appended node i n t u k h h' low place = record {
  valid = written-IsValid node i n u k.valid h';
  entry =
      set-Written t.length i node t.entries u.entries (omega (arith, h, k.valid.entries_fit))
        k.entries_kept;
  mode =
      set-Written t.length i 0 t.modes u.modes (omega (arith, h, k.valid.modes_fit)) k.modes_kept;
  offset =
      set-Written t.length i 0 t.offsets u.offsets (omega (arith, h, k.valid.offsets_fit))
        k.offsets_kept;
  lowest = low;
  place = place;
}
