-- ===== src/Mm/Paging/Huge.antt =====
-- The bit of a large page: mapping a page leaves it as it is in the entries on the way.
use Prim.Native.Nat.{bit_and}
use os.Prelude.{ℕ, ◌^◌, ◌<◌, ◌≡◌, Bool, not, ◌&&◌, ◌==◌, arith}
use os.Mm.Entry.{
  pd_entry_is_writable, pd_entry_is_user, pd_entry_is_huge, pd_entry_add_attrib, pd_entry_set_frame,
  pdp_entry_is_writable, pdp_entry_is_user, pdp_entry_is_huge, pdp_entry_add_attrib,
  pdp_entry_set_frame,
}
use os.Mm.Entry.Laws.{IsFrame, framed}
use os.Mm.Paging.{wants_user, wants_write, new_pdp_entry, old_pdp_entry, new_pd_entry, old_pd_entry}
use os.Mm.Paging.Steps.{granted, flag-granted, flags_of, made, made-flag, wider}

made-huge :
    (write user : Bool) (kw e p : ℕ) (low : kw < 7) (f : IsFrame p)
    → not (bit_and (made write user kw e p (omega arith) f) (2 ^ 7) == 0)
      ≡ not (bit_and e (2 ^ 7) == 0)
made-huge write user kw e p low f =
    ground (arith, made-flag write user kw e p (omega arith) f 7 (omega arith))

wider-huge :
    (write user : Bool) (e : ℕ)
    → not (bit_and (wider write user e) (2 ^ 7) == 0) ≡ not (bit_and e (2 ^ 7) == 0)
unfolding wider
wider-huge write user e =
    let w = not (not (bit_and e (2 ^ 1) == 0)) && write in
    let e1 = granted w 1 e in
    let u = not (not (bit_and e1 (2 ^ 2) == 0)) && user in
    ground (arith, flag-granted w 1 e 7 (omega arith), flag-granted u 2 e1 7 (omega arith))

pub new_entries-huge :
    (flags e p : ℕ)
    → IsFrame p
    → (pdp_entry_is_huge (new_pdp_entry flags e p) ≡ pdp_entry_is_huge e)
      × (pd_entry_is_huge (new_pd_entry flags e p) ≡ pd_entry_is_huge e)
unfolding made flags_of granted framed new_pdp_entry new_pd_entry pdp_entry_is_huge
    pdp_entry_add_attrib pdp_entry_set_frame pd_entry_is_huge pd_entry_add_attrib pd_entry_set_frame
new_entries-huge flags e p f = (
  made-huge (wants_write flags) (wants_user flags) 1 e p (omega arith) f,
  made-huge (wants_write flags) (wants_user flags) 2 e p (omega arith) f,
)

pub old_entries-huge :
    (flags e : ℕ)
    → (pdp_entry_is_huge (old_pdp_entry flags e) ≡ pdp_entry_is_huge e)
      × (pd_entry_is_huge (old_pd_entry flags e) ≡ pd_entry_is_huge e)
unfolding wider granted old_pdp_entry old_pd_entry pdp_entry_is_huge pdp_entry_is_writable
    pdp_entry_is_user pdp_entry_add_attrib pd_entry_is_huge pd_entry_is_writable pd_entry_is_user
    pd_entry_add_attrib
old_entries-huge flags e =
    let same = wider-huge (wants_write flags) (wants_user flags) e in (same, same)
