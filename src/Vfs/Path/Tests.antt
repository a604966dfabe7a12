-- ===== src/Vfs/Path/Tests.antt =====
-- Runs of `canonicalize_path`.
use os.Prelude.{true, false, [], ◌∷◌, none, some, ◌≡◌, refl, arith}
use os.Alloc.{Enough-fewer, plenty-Enough, malloc, plenty}
use os.Libk.Token.{strtok_r, strtok_at, strspn, accepts, strpbrk, strcspn, strchr, strcmp}
use os.Vfs.Path.{
  Bytes, insert_copy, take_piece, each_token, walk_path, walk_cwd, walk_input, write_out,
  canonicalize_path,
}
use os.Vfs.Path.Pieces.{pieces_from}
use os.Vfs.Path.Canonical.{base_pieces, Resolved, canonicalize_path-Resolved}
use os.Vfs.Path.Again.{Dotless, Kept, canonicalize_path-Kept}

-- "/usr/", "../a/./b/" and "/a/b"
abbrev usr : Bytes
usr = 47 ∷ 117 ∷ 115 ∷ 114 ∷ 47 ∷ []

abbrev up_a_b : Bytes
up_a_b = 46 ∷ 46 ∷ 47 ∷ 97 ∷ 47 ∷ 46 ∷ 47 ∷ 98 ∷ 47 ∷ []

abbrev a_b : Bytes
a_b = 47 ∷ 97 ∷ 47 ∷ 98 ∷ []

canonicalize_path-Resolved_example :
    Resolved false usr up_a_b (canonicalize_path false usr up_a_b (plenty 40))
canonicalize_path-Resolved_example =
    canonicalize_path-Resolved false usr up_a_b (plenty 40)
      (Enough-fewer 33 40 (plenty 40) (omega arith) (plenty-Enough 40))

moved_up : canonicalize_path false usr up_a_b (plenty 40) ≡ some (some a_b, plenty 29)
unfolding canonicalize_path malloc walk_cwd walk_input write_out walk_path each_token insert_copy
    take_piece strcmp strtok_r strtok_at strspn accepts strpbrk strcspn strchr
moved_up = refl

moved_up_readable : canonicalize_path true usr up_a_b (plenty 40) ≡ some (some a_b, plenty 29)
unfolding canonicalize_path malloc walk_cwd walk_input write_out walk_path each_token insert_copy
    take_piece strcmp strtok_r strtok_at strspn accepts strpbrk strcspn strchr
moved_up_readable = refl

usr-Dotless : Dotless (base_pieces usr up_a_b)
unfolding pieces_from
usr-Dotless = (refl, refl, tt)

canonicalize_path-Kept_example : Kept true a_b (canonicalize_path true usr a_b (plenty 40))
canonicalize_path-Kept_example =
    canonicalize_path-Kept true usr up_a_b usr a_b (plenty 40) (plenty 40) (plenty 29) usr-Dotless
      (Enough-fewer 33 40 (plenty 40) (omega arith) (plenty-Enough 40)) moved_up_readable
      (Enough-fewer 23 40 (plenty 40) (omega arith) (plenty-Enough 40))

-- The path that was returned is open, and the next call with it as `cwd` faults.
open_cwd : canonicalize_path false a_b (98 ∷ 47 ∷ []) (plenty 40) ≡ none
unfolding canonicalize_path malloc walk_cwd walk_input write_out walk_path each_token insert_copy
    take_piece strcmp strtok_r strtok_at strspn accepts strpbrk strcspn strchr
open_cwd = refl
