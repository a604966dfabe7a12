-- ===== src/Vfs/Path.antt =====
-- `canonicalize_path` of kernel/src/vfs/vfs.c. The list `out` is the list of its strings from head
-- to tail, as the theorems on kernel/src/util/list.c describe it: `list_insert` adds one behind the
-- others where it gets memory, and changes nothing otherwise; `list_pop` takes the last one.
-- Strings are lists of bytes, and the sums of their lengths stay below 2 ^ 64. The calls of `free`
-- are left out: one of them is of `save`, which points into `path`.
pub mod Pieces
pub mod Loop
pub mod Bodies
pub mod Canonical
pub mod Again
mod Tests
use os.Prelude.{
  ℕ, zero, suc, ◌+◌, ◌-◌, Bool, true, false, List, [], ◌∷◌, ◌++◌, Option, none, some, if◌then◌else◌,
  ◌==◌, not, ◌&&◌, length,
}
use os.Prelude.Int.{ℤ, pos, negsuc}
use os.Alloc.{Mem, malloc}
use os.Libk.Token.{strtok_r, strcmp}

abbrev pub Bytes : Type 0
Bytes = List ℕ

-- PATH_SEPARATOR_STRING, PATH_UP and PATH_DOT
abbrev pub slash : ℕ
slash = 47

abbrev pub path_separator_string : Bytes
path_separator_string = slash ∷ []

abbrev pub path_up : Bytes
path_up = 46 ∷ 46 ∷ []

abbrev pub path_dot : Bytes
path_dot = 46 ∷ []

abbrev pub equal_strings : Bytes → Bytes → Bool
unfolding strcmp
equal_strings s t = elim (strcmp s t) [ pos n ↦ n == 0 | negsuc n ↦ false ]

-- the strings of `out`, and the memory
abbrev pub Listed : Type 0
Listed = List Bytes × Mem

-- a copy of `pch` that is inserted; `none` where `memcpy` writes through NULL
unfoldable pub insert_copy : Bytes → Listed → Option Listed
unfolding malloc
insert_copy pch (out, m) =
    let (copied, m1) = malloc m in
    let (inserted, m2) = malloc m1 in
    if copied then some (if inserted then out ++ pch ∷ [] else out, m2) else none

-- `list_pop`
abbrev pub pop_string : List Bytes → List Bytes
pop_string [] = []
pop_string (x ∷ []) = []
pop_string (x ∷ y ∷ l) = x ∷ pop_string (y ∷ l)

-- the body of the second loop
unfoldable pub take_piece : Bytes → Listed → Option Listed
unfolding strcmp insert_copy
take_piece pch (out, m) =
    let inserted = insert_copy pch (out, m) in
    if equal_strings pch path_up
    then some (pop_string out, m)
    else if equal_strings pch path_dot
    then some (out, m)
    else inserted

-- The loop `while (pch != NULL)`, which the function has twice, from what a call of `strtok_r` gave
-- for `pch` and `save`.
unfoldable pub each_token :
    Bool
    → (Bytes → Listed → Option Listed)
    → ℕ
    → Option (Option Bytes × Bytes)
    → Listed
    → Option Listed
unfolding strtok_r
each_token null_read body zero next st = none
each_token null_read body (suc fuel) none st = none
each_token null_read body (suc fuel) (some (none, save)) st = some st
each_token null_read body (suc fuel) (some (some pch, save)) st = elim (body pch st) [
  | none ↦ none
  | some st' ↦
      each_token null_read body fuel (strtok_r null_read none path_separator_string save) st'
]

-- the tokens of `s`, one after the other, in a copy that is there
unfoldable pub walk_path : Bool → (Bytes → Listed → Option Listed) → Bytes → Listed → Option Listed
unfolding strtok_r each_token
walk_path null_read body s st =
    each_token null_read body (suc (length s))
      (strtok_r null_read (some s) path_separator_string []) st

-- `strlen(input) && input[0] != PATH_SEPARATOR`
abbrev pub is_relative : Bytes → Bool
is_relative [] = false
is_relative (c ∷ s) = not (c == slash)

-- the first loop, over the copy of `cwd`
unfoldable pub walk_cwd : Bool → Bytes → Bytes → Mem → Option Listed
unfolding malloc walk_path
walk_cwd null_read cwd input m =
    let (copied, m1) = malloc m in
    let walked = walk_path null_read insert_copy cwd ([], m1) in
    if is_relative input then (if copied then walked else none) else some ([], m)

-- The second loop, over the copy of `input`. The memory that `save` gets is lost with the first
-- call of `strtok_r`.
unfoldable pub walk_input : Bool → Bytes → Listed → Option Listed
unfolding malloc walk_path
walk_input null_read input (out, m) =
    let (copied, m1) = malloc m in
    let (_, m2) = malloc m1 in
    let walked = walk_path null_read take_piece input (out, m2) in if copied then walked else none

-- the sum of the loop over `out`
abbrev pub size_of : List Bytes → ℕ
size_of [] = 0
size_of (s ∷ l) = length s + 1 + size_of l

-- what the last loop writes
abbrev pub write_pieces : List Bytes → Bytes
write_pieces [] = []
write_pieces (s ∷ l) = slash ∷ s ++ write_pieces l

-- the output: `none` inside is NULL
unfoldable pub write_out : Listed → Option (Option Bytes × Mem)
unfolding malloc
write_out (out, m) =
    let (got, m1) = malloc m in
    if size_of out == 0
    then some (if got then some path_separator_string else none, m1)
    else if got
    then some (some (write_pieces out), m1)
    else none

-- `canonicalize_path` behind the second loop, and behind the first
abbrev pub after_input : Option Listed → Option (Option Bytes × Mem)
after_input none = none
after_input (some st) = write_out st

abbrev pub after_cwd : Bool → Bytes → Option Listed → Option (Option Bytes × Mem)
after_cwd null_read input none = none
after_cwd null_read input (some st) = after_input (walk_input null_read input st)

-- Without memory for the list every way ends at a read through `out`.
unfoldable pub canonicalize_path : Bool → Bytes → Bytes → Mem → Option (Option Bytes × Mem)
unfolding malloc walk_cwd walk_input write_out
canonicalize_path null_read cwd input m =
    let (created, m1) = malloc m in
    if created then after_cwd null_read input (walk_cwd null_read cwd input m1) else none
