-- ===== src/Process/Files/Tests.antt =====
-- Runs of `process_append_fd`.
use os.Prelude.{[], ◌∷◌, some, ◌≡◌, refl, arith}
use os.Alloc.{malloc, plenty, plenty-Enough}
use os.Process.Files.{FdTable, process_append_fd, free_entry, at_entry, add_entry, grow}
use os.Process.Files.Written.{IsValid}
use os.Process.Files.Append.{Adds, process_append_fd-Adds}

-- two descriptors, of which the first is closed, in arrays of four
abbrev closed_first : FdTable
closed_first = record {
  entries = 0 ∷ 4096 ∷ 7 ∷ 7 ∷ [];
  offsets = 12 ∷ 8 ∷ 7 ∷ 7 ∷ [];
  modes = 1 ∷ 2 ∷ 7 ∷ 7 ∷ [];
  length = 2;
  capacity = 4;
}

closed_first-IsValid : IsValid closed_first
closed_first-IsValid = record {
  entries_fit = refl;
  modes_fit = refl;
  offsets_fit = refl;
  length_fits = omega arith;
  some_capacity = omega arith;
}

process_append_fd-Adds_example :
    Adds 8192 closed_first (process_append_fd 7 8192 closed_first (plenty 3))
process_append_fd-Adds_example =
    process_append_fd-Adds 7 8192 closed_first (plenty 3) closed_first-IsValid (omega arith)
      (plenty-Enough 3)

abbrev full : FdTable
full = record { entries = 4096 ∷ []; offsets = 8 ∷ []; modes = 2 ∷ []; length = 1; capacity = 1 }

-- A full table grows; what the longer arrays hold behind the new entry is arbitrary.
grows :
    process_append_fd 7 8192 full (plenty 3)
    ≡ some (
      1,
      record {
        entries = 4096 ∷ 8192 ∷ [];
        offsets = 8 ∷ 0 ∷ [];
        modes = 2 ∷ 0 ∷ [];
        length = 2;
        capacity = 2;
      },
      [],
    )
unfolding process_append_fd free_entry at_entry add_entry grow malloc
grows = refl
