-- ===== src/Mm/Paging/Walk.antt =====
-- The translation that a mapping makes, by the walk of the processor through the four tables.
use os.Prelude.{
  ℕ, ◌+◌, ◌*◌, ◌/◌, ◌%◌, ◌^◌, ◌≡◌, refl, ap, subst, ◌∙◌, Bool, true, false, not, ◌&&◌, ◌||◌, Option,
  none, some, if◌then◌else◌, ◌==◌,
}
use os.Mm.Entry.{
  pd_entry_is_present, pd_entry_pfn, pdp_entry_is_present, pdp_entry_pfn, pml4_entry_is_present,
  pml4_entry_pfn, pdp_entry_is_huge, pd_entry_is_huge, pt_entry_is_present, pt_entry_pfn,
}
use os.Mm.Entry.Laws.{IsFrame}
use os.Mm.Paging.{
  mapped, set_word, Vm, map_pml4, map_pdp, map_pd, page_entry, virt_mem_map_page_p, pt_index,
  pd_index, pdp_index, pml4_index,
}
use os.Mm.Paging.Steps.{new_entries-Says}
use os.Mm.Paging.Leads.{
  AreFrames, Leads, never_huge, set_word-same, set_word-other, map_pml4-Leads, map_pdp-Leads,
  map_pd-Leads,
}

-- The walk: the address of the 4 KB frame that holds the virtual address. An entry of the second
-- or third table may stand for a large page, of 1 GB or 2 MB, where the walk ends.
unfoldable pub walk : (ℕ → ℕ → ℕ) → ℕ → ℕ → Option ℕ
walk words pml4 virt =
    let e4 = words pml4 (pml4_index virt) in
    let e3 = words (pml4_entry_pfn e4) (pdp_index virt) in
    let e2 = words (pdp_entry_pfn e3) (pd_index virt) in
    let e1 = words (pd_entry_pfn e2) (pt_index virt) in
    let page = virt / 2 ^ 12 * 2 ^ 12 in
    if not (pml4_entry_is_present e4) || not (pdp_entry_is_present e3)
    then none
    else if pdp_entry_is_huge e3
    then some (pdp_entry_pfn e3 / 2 ^ 30 * 2 ^ 30 + page % 2 ^ 30)
    else if not (pd_entry_is_present e2)
    then none
    else if pd_entry_is_huge e2
    then some (pd_entry_pfn e2 / 2 ^ 21 * 2 ^ 21 + page % 2 ^ 21)
    else if pt_entry_is_present e1
    then some (pt_entry_pfn e1)
    else none

-- four different tables
abbrev pub Apart : ℕ → ℕ → ℕ → ℕ → Type 0
Apart a b c d =
    ((a == b) ≡ false)
    × ((a == c) ≡ false)
    × ((a == d) ≡ false)
    × ((b == c) ≡ false)
    × ((b == d) ≡ false)
    × ((c == d) ≡ false)

walk-path :
    (words : ℕ → ℕ → ℕ) (pml4 virt pdp pdir ptable phys : ℕ)
    → pml4_entry_is_present (words pml4 (pml4_index virt)) ≡ true
    → pml4_entry_pfn (words pml4 (pml4_index virt)) ≡ pdp
    → pdp_entry_is_present (words pdp (pdp_index virt)) ≡ true
    → pdp_entry_pfn (words pdp (pdp_index virt)) ≡ pdir
    → pdp_entry_is_huge (words pdp (pdp_index virt)) ≡ false
    → pd_entry_is_present (words pdir (pd_index virt)) ≡ true
    → pd_entry_pfn (words pdir (pd_index virt)) ≡ ptable
    → pd_entry_is_huge (words pdir (pd_index virt)) ≡ false
    → pt_entry_is_present (words ptable (pt_index virt)) ≡ true
    → pt_entry_pfn (words ptable (pt_index virt)) ≡ phys
    → walk words pml4 virt ≡ some phys
unfolding walk
walk-path words pml4 virt pdp pdir ptable phys a b c d hd e f hf g h =
    rw (a, b, c, d, hd, e, f, hf, g, h) refl

other : {a : Bool} (b : Bool) → a ≡ false → (a && b) ≡ false
other b h = ap (λ c. c && b) h

-- What the four steps leave at an entry of each table, where each step gives a table.
module _ (flags virt pml4 pdp pdir ptable entry : ℕ) (vm vm1 vm2 vm3 : Vm)
    (fr : AreFrames vm.blocks) (e1 : map_pml4 flags pml4 (pml4_index virt) vm ≡ some (pdp, vm1))
    (e2 : map_pdp flags pdp (pdp_index virt) vm1 ≡ some (pdir, vm2))
    (e3 : map_pd flags pdir (pd_index virt) vm2 ≡ some (ptable, vm3)) where
  abbrev final : ℕ → ℕ → ℕ
  final = (set_word vm3 ptable (pt_index virt) entry).words

  abbrev AtPml4 : Option (ℕ × Vm) → Type 0
  AtPml4 r = Leads pml4_entry_is_present pml4_entry_pfn never_huge pml4 (pml4_index virt) vm r

  abbrev AtPdp : Option (ℕ × Vm) → Type 0
  AtPdp r = Leads pdp_entry_is_present pdp_entry_pfn pdp_entry_is_huge pdp (pdp_index virt) vm1 r

  abbrev AtPd : Option (ℕ × Vm) → Type 0
  AtPd r = Leads pd_entry_is_present pd_entry_pfn pd_entry_is_huge pdir (pd_index virt) vm2 r

  one-Leads : AtPml4 (some (pdp, vm1))
  one-Leads = subst AtPml4 e1 (map_pml4-Leads flags pml4 (pml4_index virt) vm fr)

  two-Leads : AtPdp (some (pdir, vm2))
  two-Leads = subst AtPdp e2 (map_pdp-Leads flags pdp (pdp_index virt) vm1 one-Leads.4)

  three-Leads : AtPd (some (ptable, vm3))
  three-Leads = subst AtPd e3 (map_pd-Leads flags pdir (pd_index virt) vm2 two-Leads.4)

  after_three : (t i : ℕ) → (t == ptable) ≡ false → final t i ≡ vm3.words t i
  after_three t i h = set_word-other vm3 ptable (pt_index virt) entry t i (other _ h)

  after_two : (t i : ℕ) → (t == ptable) ≡ false → (t == pdir) ≡ false → final t i ≡ vm2.words t i
  after_two t i h k = after_three t i h ∙ three-Leads.3 t i h (other _ k)

  after_one :
      (t i : ℕ)
      → (t == ptable) ≡ false
      → (t == pdir) ≡ false
      → (t == pdp) ≡ false
      → final t i ≡ vm1.words t i
  after_one t i h k l = after_two t i h k ∙ two-Leads.3 t i k (other _ l)

  final-walk :
      (phys : ℕ)
      → Apart pml4 pdp pdir ptable
      → pdp_entry_is_huge (vm1.words pdp (pdp_index virt)) ≡ false
      → pd_entry_is_huge (vm2.words pdir (pd_index virt)) ≡ false
      → pt_entry_is_present entry ≡ true
      → pt_entry_pfn entry ≡ phys
      → walk final pml4 virt ≡ some phys
  final-walk phys (ab, ac, ad, bc, bd, cd) plain2 plain3 there frame =
      let at_one = after_one pml4 (pml4_index virt) ad ac ab in
      let at_two = after_two pdp (pdp_index virt) bd bc in
      let at_three = after_three pdir (pd_index virt) cd in
      let here = set_word-same vm3 ptable (pt_index virt) entry in
      walk-path final pml4 virt pdp pdir ptable phys (ap pml4_entry_is_present at_one ∙ one-Leads.0)
        (ap pml4_entry_pfn at_one ∙ one-Leads.1) (ap pdp_entry_is_present at_two ∙ two-Leads.0)
        (ap pdp_entry_pfn at_two ∙ two-Leads.1)
        (ap pdp_entry_is_huge at_two ∙ two-Leads.2 bc plain2)
        (ap pd_entry_is_present at_three ∙ three-Leads.0) (ap pd_entry_pfn at_three ∙ three-Leads.1)
        (ap pd_entry_is_huge at_three ∙ three-Leads.2 cd plain3)
        (ap pt_entry_is_present here ∙ there) (ap pt_entry_pfn here ∙ frame)

-- Where each of the three levels finds a table or allocates one, without a fault and not NULL, no
-- two of the four tables are the same, the entries it finds at the second and third level are no
-- large pages, the last table lies in the first GB of memory, and the page and every block are at
-- addresses that an entry can hold, `virt_mem_map_page_p` returns 0 and does not fault, and the walk
-- from the virtual address, which honours large pages, then leads to the page.
pub map_page-walk :
    (phys virt flags pml4 pdp pdir ptable : ℕ) (vm vm1 vm2 vm3 : Vm)
    → IsFrame phys
    → AreFrames vm.blocks
    → map_pml4 flags pml4 (pml4_index virt) vm ≡ some (pdp, vm1)
    → map_pdp flags pdp (pdp_index virt) vm1 ≡ some (pdir, vm2)
    → map_pd flags pdir (pd_index virt) vm2 ≡ some (ptable, vm3)
    → Apart pml4 pdp pdir ptable
    → (pdp == 0) ≡ false
    → (pdir == 0) ≡ false
    → (ptable == 0) ≡ false
    → pdp_entry_is_huge (vm1.words pdp (pdp_index virt)) ≡ false
    → pd_entry_is_huge (vm2.words pdir (pd_index virt)) ≡ false
    → mapped ptable ≡ true
    → (vm' : Vm) × (virt_mem_map_page_p phys virt flags pml4 vm ≡ some (true, vm'))
      × (walk vm'.words pml4 virt ≡ some phys)
unfolding virt_mem_map_page_p
map_page-walk phys virt flags pml4 pdp pdir ptable vm vm1 vm2 vm3 f fr e1 e2 e3 apart z1 z2 z3 p2 p3
      m =
    let entry = page_entry phys flags in
    let says = (new_entries-Says flags 0 phys f).3 in
    (
      set_word vm3 ptable (pt_index virt) entry,
      rw (e1, z1, e2, z2, e3, z3, m) refl,
      final-walk flags virt pml4 pdp pdir ptable entry vm vm1 vm2 vm3 fr e1 e2 e3 phys apart p2 p3
          says.1 says.0,
    )
