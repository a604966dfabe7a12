-- ===== src/Process/Files/Append.antt =====
-- `process_append_fd`: a node goes into the first entry that is free.
use os.Prelude.{
  ℕ, ◌+◌, ◌*◌, ◌/◌, ◌%◌, ◌^◌, ◌≤◌, ◌<◌, ◌≡◌, refl, sym, ap, subst, ◌∙◌, true, false, [], ◌∷◌,
  Option, some, ◌==◌, take, arith, Bool-cases, inl, inr,
}
use os.Alloc.{Mem, malloc, Enough}
use os.Process.Files.{
  FdTable, resized, grow, reused, lengthened, add_to, add_entry, at_entry, process_append_fd,
}
use os.Process.Files.Arrays.{length-resized, take-resized, NonNull, free_entry-Finds}
use os.Process.Files.Written.{
  IsValid, Appended, Like, written, write_node-written, written-Appended,
}

Like-self : (t : FdTable) → IsValid t → Like t t
Like-self t v = record {
  valid = v;
  same_length = refl;
  entries_kept = refl;
  modes_kept = refl;
  offsets_kept = refl;
}

-- the table with arrays of twice the size
abbrev doubled : ℕ → FdTable → FdTable
doubled junk t =
    let n = t.capacity * 2 % 2 ^ 64 in
    record t {
      capacity = n;
      entries = resized junk 8 n t.entries;
      modes = resized junk 4 n t.modes;
      offsets = resized junk 8 n t.offsets;
    }

doubled-Like : (junk : ℕ) (t : FdTable) → IsValid t → t.capacity < 2 ^ 60 → Like t (doubled junk t)
doubled-Like junk t v h =
    let n = t.capacity * 2 % 2 ^ 64 in
    let wide : 8 * n % 2 ^ 64 / 8 ≡ n = omega arith in
    let narrow : 4 * n % 2 ^ 64 / 4 ≡ n = omega arith in
    let fits : t.length ≤ n = omega (arith, v.length_fits) in
    record {
      valid = record {
        entries_fit = length-resized junk 8 n t.entries wide;
        modes_fit = length-resized junk 4 n t.modes narrow;
        offsets_fit = length-resized junk 8 n t.offsets wide;
        length_fits = fits;
        some_capacity = omega (arith, v.some_capacity);
      };
      same_length = refl;
      entries_kept =
          take-resized t.length junk 8 n t.entries wide fits
            (omega (arith, v.entries_fit, v.length_fits));
      modes_kept =
          take-resized t.length junk 4 n t.modes narrow fits
            (omega (arith, v.modes_fit, v.length_fits));
      offsets_kept =
          take-resized t.length junk 8 n t.offsets wide fits
            (omega (arith, v.offsets_fit, v.length_fits));
    }

grow-doubled :
    (junk : ℕ) (t : FdTable) (m : Mem)
    → Enough 3 m
    → (m' : Mem) × (grow junk t m ≡ some (doubled junk t, m'))
unfolding grow malloc
grow-doubled junk t [] e = absurd (let q : false ≡ true = e in cc q)
grow-doubled junk t (a ∷ []) (_, e) = absurd (let q : false ≡ true = e in cc q)
grow-doubled junk t (a ∷ b ∷ []) (_, (_, e)) = absurd (let q : false ≡ true = e in cc q)
grow-doubled junk t (a ∷ b ∷ c ∷ m) (x, (y, (z, _))) = rw (x, y, z) (m, refl)

abbrev pub Adds : ℕ → FdTable → Option (ℕ × FdTable × Mem) → Type 0
Adds node t out =
    (i : ℕ) × (t' : FdTable) × (m' : Mem) × (out ≡ some (i, t', m')) × Appended node t i t'

add_to-Adds :
    (node : ℕ) (t u : FdTable) (m : Mem)
    → Like t u
    → t.length < u.capacity
    → t.length < 2 ^ 60
    → NonNull (take t.length t.entries)
    → Adds node t (add_to node (some (u, m)))
add_to-Adds node t u m k h b low =
    let n = (u.length + 1) % 2 ^ 64 in
    let h' : u.length < u.capacity = omega (arith, k.same_length) in
    (
      u.length,
      record (written node u.length u) { length = n },
      m,
      ap (lengthened u.length m) (write_node-written node u.length u k.valid h'),
      written-Appended node u.length n t u k h' (omega (arith, k.same_length))
          (subst (λ l. NonNull (take l t.entries)) (sym k.same_length) low)
          (inr (k.same_length, omega (arith, k.same_length))),
    )

add_entry-Adds :
    (junk node : ℕ) (t : FdTable) (m : Mem)
    → IsValid t
    → t.capacity < 2 ^ 60
    → Enough 3 m
    → NonNull (take t.length t.entries)
    → Adds node t (add_entry junk node t m)
unfolding add_entry
add_entry-Adds junk node t m v h e low = elim (Bool-cases (t.length == t.capacity)) [
  | inl q ↦
      let (m', g) = grow-doubled junk t m e in
      let k = doubled-Like junk t v h in
      rw (q, g)
        (add_to-Adds node t (doubled junk t) m' k (omega (arith, v.length_fits, v.some_capacity))
          (omega (arith, v.length_fits)) low)
  | inr q ↦ rw q (
      add_to-Adds node t t m (Like-self t v) (ground (arith, q, v.length_fits))
        (omega (arith, v.length_fits)) low)
]

-- On a valid table of fewer than 2 ^ 60 entries, with memory for the three calls of `realloc`,
-- `process_append_fd` puts the node into the first entry that is NULL, or else behind the last
-- one, with the mode and the offset 0. It returns that index, every other descriptor stays as it
-- was, and the table is valid.
pub process_append_fd-Adds :
    (junk node : ℕ) (t : FdTable) (m : Mem)
    → IsValid t
    → t.capacity < 2 ^ 60
    → Enough 3 m
    → Adds node t (process_append_fd junk node t m)
unfolding process_append_fd at_entry
process_append_fd-Adds junk node t m v h e =
    elim (free_entry-Finds 0 t.length t.entries (omega (arith, v.entries_fit, v.length_fits))) [
      | inl (q, low) ↦
          subst (λ o. Adds node t (at_entry junk node t m o)) (sym q)
            (add_entry-Adds junk node t m v h e low)
      | inr (d, q, h', low, g) ↦
          let in_array : d < t.capacity = omega (arith, v.length_fits) in
          let zero_off : 0 + d ≡ d = omega arith in
          subst (λ o. Adds node t (at_entry junk node t m o))
            (sym (q ∙ ap (λ k. some (some k)) zero_off))
            (
              d,
              written node d t,
              m,
              ap (reused d m) (write_node-written node d t v in_array),
              written-Appended node d t.length t t (Like-self t v) in_array v.length_fits low
                  (inl (h', g, refl)),
            )
    ]
