-- ===== src/Process/Files.antt =====
-- The table of file descriptors: `fd_table_t` of kernel/include/process/process.h, and
-- `process_append_fd` of kernel/src/process/process.c. A node is its address, and 0 is NULL. The
-- three arrays are the lists of what they hold, and a write outside of one is `none`. `junk` is what
-- memory that `realloc` adds holds, and a `realloc` that returns NULL makes the write behind it
-- fault.
pub mod Arrays
pub mod Written
pub mod Append
mod Tests
use os.Prelude.{
  ℕ, zero, suc, ◌+◌, ◌*◌, ◌/◌, ◌%◌, ◌^◌, Bool, true, false, ◌&&◌, List, [], ◌∷◌, ◌++◌, Option, none,
  some, if◌then◌else◌, ◌==◌, take, replicate,
}
use os.Alloc.{Mem, malloc}

pub record FdTable : Type 0 where
  pub entries : List ℕ
  pub offsets : List ℕ
  pub modes : List ℕ
  pub length : ℕ
  pub capacity : ℕ

-- The loop of `process_append_fd`, at the index `i` with `n` entries left: the first one that is
-- NULL. A read outside of the array is `none`.
unfoldable pub free_entry : ℕ → ℕ → List ℕ → Option (Option ℕ)
free_entry i zero es = some none
free_entry i (suc n) [] = none
free_entry i (suc n) (e ∷ es) =
    let rest = free_entry (i + 1) n es in if e == 0 then some (some i) else rest

-- `xs[i] = v`
abbrev pub put : List ℕ → ℕ → ℕ → Option (List ℕ)
put [] i v = none
put (x ∷ xs) zero v = some (v ∷ xs)
put (x ∷ xs) (suc i) v = elim (put xs i v) [ none ↦ none | some xs' ↦ some (x ∷ xs') ]

-- the array that `realloc` gives for `n` elements of `w` bytes
abbrev pub resized : ℕ → ℕ → ℕ → List ℕ → List ℕ
resized junk w n xs = let held = w * n % 2 ^ 64 / w in take held (xs ++ replicate held junk)

-- the capacity is doubled
unfoldable pub grow : ℕ → FdTable → Mem → Option (FdTable × Mem)
unfolding malloc
grow junk t m =
    let capacity = t.capacity * 2 % 2 ^ 64 in
    let (a, m1) = malloc m in
    let (b, m2) = malloc m1 in
    let (c, m3) = malloc m2 in
    if a && (b && c)
    then some (
      record t {
        capacity = capacity;
        entries = resized junk 8 capacity t.entries;
        modes = resized junk 4 capacity t.modes;
        offsets = resized junk 8 capacity t.offsets;
      },
      m3,
    )
    else none

-- the table with the arrays that were written
abbrev pub with_arrays :
    FdTable → Option (List ℕ) → Option (List ℕ) → Option (List ℕ) → Option FdTable
with_arrays t (some es) (some ms) (some offs) =
    some (record t { entries = es; modes = ms; offsets = offs })
with_arrays t _ _ _ = none

-- `node` at the index `i`, with the mode 0 and the offset 0
abbrev pub write_node : ℕ → ℕ → FdTable → Option FdTable
write_node node i t = with_arrays t (put t.entries i node) (put t.modes i 0) (put t.offsets i 0)

-- the result where an entry is used again, and where one is added
abbrev pub reused : ℕ → Mem → Option FdTable → Option (ℕ × FdTable × Mem)
reused i m none = none
reused i m (some t) = some (i, t, m)

abbrev pub lengthened : ℕ → Mem → Option FdTable → Option (ℕ × FdTable × Mem)
lengthened n m none = none
lengthened n m (some t) = some (n, record t { length = (n + 1) % 2 ^ 64 }, m)

abbrev pub add_to : ℕ → Option (FdTable × Mem) → Option (ℕ × FdTable × Mem)
add_to node none = none
add_to node (some (t, m)) = lengthened t.length m (write_node node t.length t)

-- the code behind the loop
unfoldable pub add_entry : ℕ → ℕ → FdTable → Mem → Option (ℕ × FdTable × Mem)
unfolding grow
add_entry junk node t m =
    add_to node (if t.length == t.capacity then grow junk t m else some (t, m))

-- what the loop found
unfoldable pub at_entry : ℕ → ℕ → FdTable → Mem → Option (Option ℕ) → Option (ℕ × FdTable × Mem)
unfolding add_entry
at_entry junk node t m none = none
at_entry junk node t m (some none) = add_entry junk node t m
at_entry junk node t m (some (some i)) = reused i m (write_node node i t)

unfoldable pub process_append_fd : ℕ → ℕ → FdTable → Mem → Option (ℕ × FdTable × Mem)
unfolding free_entry at_entry
process_append_fd junk node t m = at_entry junk node t m (free_entry 0 t.length t.entries)
