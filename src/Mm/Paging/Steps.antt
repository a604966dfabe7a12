-- ===== src/Mm/Paging/Steps.antt =====
-- What mapping a page does to the entry at each level, and to the other tables.
use Prim.Native.Nat.{bit_and, bit_or}
use os.Prelude.{
  ℕ, ◌^◌, ◌<◌, ◌≡◌, refl, ap, ◌∙◌, Bool, true, false, not, ◌&&◌, ◌||◌, if◌then◌else◌, ◌==◌, arith,
}
use os.Mm.Entry.{
  frame_mask, pt_entry_add_attrib, pt_entry_set_frame, pd_entry_add_attrib, pd_entry_set_frame,
  pd_entry_is_present, pd_entry_is_writable, pd_entry_is_user, pd_entry_pfn, pdp_entry_add_attrib,
  pdp_entry_set_frame, pdp_entry_is_present, pdp_entry_is_writable, pdp_entry_is_user,
  pdp_entry_pfn, pml4_entry_add_attrib, pml4_entry_set_frame, pml4_entry_is_present,
  pml4_entry_is_writable, pml4_entry_is_user, pml4_entry_pfn, pt_entry_is_present,
  pt_entry_is_writable, pt_entry_is_user, pt_entry_pfn,
}
use os.Mm.Entry.Laws.{IsFrame, framed, pfn-framed, flag-framed, flag-added, pfn-added}
use os.Mm.Paging.{
  wants_user, wants_write, new_pml4_entry, old_pml4_entry, new_pdp_entry, old_pdp_entry,
  new_pd_entry, old_pd_entry, page_entry,
}

-- flag `k`, added where it is asked for
unfoldable pub granted : Bool → ℕ → ℕ → ℕ
granted b k e = if b then bit_or e (2 ^ k) else e

pub flag-granted :
    (b : Bool) (k e j : ℕ)
    → k < 12
    → (bit_and (granted b k e) (2 ^ j) == 0)
      ≡ (if b && k == j then false else bit_and e (2 ^ j) == 0)
unfolding granted
flag-granted true k e j low = flag-added e k low j
flag-granted false k e j low = refl

-- The entry that each level makes for the frame `p`: `kw` is the flag that a writable page sets.
module _ (write user : Bool) (kw e p : ℕ) (low : kw < 12) (f : IsFrame p) where
  unfoldable pub flags_of : ℕ
  flags_of = granted user 2 (granted write kw (bit_or e (2 ^ 0)))

  unfoldable pub made : ℕ
  unfolding framed
  made = framed flags_of p f

  made-pfn : bit_and made frame_mask ≡ p
  unfolding made
  made-pfn = pfn-framed flags_of p f

  pub made-flag :
      (j : ℕ)
      → j < 12
      → (bit_and made (2 ^ j) == 0) ≡ (
          if user && 2 == j
          then false
          else if write && kw == j
          then false
          else if 0 == j
          then false
          else bit_and e (2 ^ j) == 0)
  unfolding made flags_of
  made-flag j h =
      flag-framed flags_of p f j h
      ∙ flag-granted user 2 (granted write kw (bit_or e (2 ^ 0))) j (omega arith)
      ∙ ap (λ (r : Bool). if user && 2 == j then false else r)
          (flag-granted write kw (bit_or e (2 ^ 0)) j low
            ∙ ap (λ (r : Bool). if write && kw == j then false else r)
                (flag-added e 0 (omega arith) j))

-- what an entry says: its frame, that it is present, and whether it allows writing and user mode
abbrev pub Says : (pfn : ℕ) (present writable user : Bool) (p : ℕ) (w u : Bool) → Type 0
Says pfn present writable user p w u = (pfn ≡ p) × (present ≡ true) × (writable ≡ w) × (user ≡ u)

abbrev bit_set : ℕ → ℕ → Bool
bit_set w k = not (bit_and w (2 ^ k) == 0)

module _ (write user : Bool) (e p : ℕ) (f : IsFrame p) where
  table_entry-Says :
      let n = made write user 1 e p (omega arith) f in
      Says
        (bit_and n frame_mask)
        (bit_set n 0)
        (bit_set n 1)
        (bit_set n 2)
        p
        (write || bit_set e 1)
        (user || bit_set e 2)
  table_entry-Says = (
    made-pfn write user 1 e p (omega arith) f,
    ground (arith, made-flag write user 1 e p (omega arith) f 0 (omega arith)),
    ground (arith, made-flag write user 1 e p (omega arith) f 1 (omega arith)),
    ground (arith, made-flag write user 1 e p (omega arith) f 2 (omega arith)),
  )

  directory_entry-Says :
      let n = made write user 2 e p (omega arith) f in
      Says
        (bit_and n frame_mask)
        (bit_set n 0)
        (bit_set n 1)
        (bit_set n 2)
        p
        (bit_set e 1)
        (user || (write || bit_set e 2))
  directory_entry-Says = (
    made-pfn write user 2 e p (omega arith) f,
    ground (arith, made-flag write user 2 e p (omega arith) f 0 (omega arith)),
    ground (arith, made-flag write user 2 e p (omega arith) f 1 (omega arith)),
    ground (arith, made-flag write user 2 e p (omega arith) f 2 (omega arith)),
  )

page-Says :
    (write user : Bool) (p : ℕ) (f : IsFrame p)
    → let n = made write user 1 0 p (omega arith) f in
      Says (bit_and n frame_mask) (bit_set n 0) (bit_set n 1) (bit_set n 2) p write user
page-Says write user p f =
    let (a, b, c, d) = table_entry-Says write user 0 p f in
    (a, b, c ∙ ground arith, d ∙ ground arith)

-- what the entries that a mapping makes say at each level: they hold their frame, and allow what
-- the flags ask for and the word before allowed; but at the page directory a writable page sets user
-- mode instead
abbrev pub NewSays : ℕ → ℕ → ℕ → Type 0
NewSays flags e p =
    (let n = new_pml4_entry flags e p in
      Says (pml4_entry_pfn n) (pml4_entry_is_present n) (pml4_entry_is_writable n)
        (pml4_entry_is_user n) p (wants_write flags || pml4_entry_is_writable e)
        (wants_user flags || pml4_entry_is_user e))
    × (let n = new_pdp_entry flags e p in
        Says (pdp_entry_pfn n) (pdp_entry_is_present n) (pdp_entry_is_writable n)
          (pdp_entry_is_user n) p (wants_write flags || pdp_entry_is_writable e)
          (wants_user flags || pdp_entry_is_user e))
    × (let n = new_pd_entry flags e p in
        Says (pd_entry_pfn n) (pd_entry_is_present n) (pd_entry_is_writable n) (pd_entry_is_user n)
          p (pd_entry_is_writable e)
          (wants_user flags || (wants_write flags || pd_entry_is_user e)))
    × (let n = page_entry p flags in
        Says (pt_entry_pfn n) (pt_entry_is_present n) (pt_entry_is_writable n) (pt_entry_is_user n)
          p (wants_write flags) (wants_user flags))

pub new_entries-Says : (flags e p : ℕ) → IsFrame p → NewSays flags e p
unfolding made flags_of granted framed new_pml4_entry new_pdp_entry new_pd_entry page_entry
    pml4_entry_pfn pml4_entry_is_present pml4_entry_is_writable pml4_entry_is_user
    pml4_entry_add_attrib pml4_entry_set_frame pdp_entry_pfn pdp_entry_is_present
    pdp_entry_is_writable pdp_entry_is_user pdp_entry_add_attrib pdp_entry_set_frame pd_entry_pfn
    pd_entry_is_present pd_entry_is_writable pd_entry_is_user pd_entry_add_attrib pd_entry_set_frame
    pt_entry_pfn pt_entry_is_present pt_entry_is_writable pt_entry_is_user pt_entry_add_attrib
    pt_entry_set_frame
new_entries-Says flags e p f =
    let write = wants_write flags in
    let user = wants_user flags in
    (
      table_entry-Says write user e p f,
      table_entry-Says write user e p f,
      directory_entry-Says write user e p f,
      page-Says write user p f,
    )

pfn-granted :
    (b : Bool) (k e : ℕ) → k < 12 → bit_and (granted b k e) frame_mask ≡ bit_and e frame_mask
unfolding granted
pfn-granted true k e low = pfn-added e k low
pfn-granted false k e low = refl

-- The entry of a table that is there, where the flags ask for more than it allows.
module _ (write user : Bool) (e : ℕ) where
  unfoldable pub wider : ℕ
  unfolding granted
  wider =
      let e1 = granted (not (bit_set e 1) && write) 1 e in granted (not (bit_set e1 2) && user) 2 e1

  wider-Says :
      bit_set e 0 ≡ true
      → Says
          (bit_and wider frame_mask)
          (bit_set wider 0)
          (bit_set wider 1)
          (bit_set wider 2)
          (bit_and e frame_mask)
          (write || bit_set e 1)
          (user || bit_set e 2)
  unfolding wider
  wider-Says h =
      let w = not (bit_set e 1) && write in
      let e1 = granted w 1 e in
      let u = not (bit_set e1 2) && user in
      (
        pfn-granted u 2 e1 (omega arith) ∙ pfn-granted w 1 e (omega arith),
        ground (arith, flag-granted w 1 e 0 (omega arith), flag-granted u 2 e1 0 (omega arith), h),
        ground (arith, flag-granted w 1 e 1 (omega arith), flag-granted u 2 e1 1 (omega arith), h),
        ground (arith, flag-granted w 1 e 2 (omega arith), flag-granted u 2 e1 2 (omega arith), h),
      )

-- what the entries of tables that are there say: they keep their frame, and allow what the flags
-- ask for and what they allowed before
abbrev pub OldSays : ℕ → ℕ → Type 0
OldSays flags e =
    (let n = old_pml4_entry flags e in
      Says (pml4_entry_pfn n) (pml4_entry_is_present n) (pml4_entry_is_writable n)
        (pml4_entry_is_user n) (pml4_entry_pfn e) (wants_write flags || pml4_entry_is_writable e)
        (wants_user flags || pml4_entry_is_user e))
    × (let n = old_pdp_entry flags e in
        Says (pdp_entry_pfn n) (pdp_entry_is_present n) (pdp_entry_is_writable n)
          (pdp_entry_is_user n) (pdp_entry_pfn e) (wants_write flags || pdp_entry_is_writable e)
          (wants_user flags || pdp_entry_is_user e))
    × (let n = old_pd_entry flags e in
        Says (pd_entry_pfn n) (pd_entry_is_present n) (pd_entry_is_writable n) (pd_entry_is_user n)
          (pd_entry_pfn e) (wants_write flags || pd_entry_is_writable e)
          (wants_user flags || pd_entry_is_user e))

pub old_entries-Says :
    (flags e : ℕ)
    → pml4_entry_is_present e ≡ true
    → pdp_entry_is_present e ≡ true
    → pd_entry_is_present e ≡ true
    → OldSays flags e
unfolding wider granted old_pml4_entry old_pdp_entry old_pd_entry pml4_entry_pfn
    pml4_entry_is_present pml4_entry_is_writable pml4_entry_is_user pml4_entry_add_attrib
    pdp_entry_pfn pdp_entry_is_present pdp_entry_is_writable pdp_entry_is_user pdp_entry_add_attrib
    pd_entry_pfn pd_entry_is_present pd_entry_is_writable pd_entry_is_user pd_entry_add_attrib
old_entries-Says flags e h h' h'' =
    let says = wider-Says (wants_write flags) (wants_user flags) e in (says h, says h', says h'')

-- Mapping a page: the entry made at each level holds its frame, and allows what the flags ask for and
-- the word before allowed, but at the page directory a writable page sets user mode instead; the
-- entry of a table that is there keeps its frame, and allows what the flags ask for and what it
-- allowed before.
pub entries-Say :
    (flags e p there : ℕ)
    → IsFrame p
    → pml4_entry_is_present there ≡ true
    → pdp_entry_is_present there ≡ true
    → pd_entry_is_present there ≡ true
    → NewSays flags e p × OldSays flags there
entries-Say flags e p there f h h' h'' =
    (new_entries-Says flags e p f, old_entries-Says flags there h h' h'')
