-- ===== src/Mm/Paging/Failed.antt =====
-- What mapping a page leaves where no block is left for a table of the second level.
use os.Prelude.{ℕ, ◌≡◌, refl, ap, ◌∙◌, true, false, List, [], some}
use os.Mm.Entry.{pml4_entry_is_present, pdp_entry_is_present, pd_entry_is_present, pml4_entry_pfn}
use os.Mm.Paging.{
  mapped, set_word, Vm, map_pml4, virt_mem_alloc_pdp, new_pml4_entry, old_pml4_entry,
  virt_mem_map_page_p, pml4_index,
}
use os.Mm.Paging.Steps.{new_entries-Says, old_entries-Says}
use os.Mm.Paging.Leads.{set_word-same}

-- the entry that is left
unfoldable stale : ℕ → ℕ → ℕ
stale flags e = new_pml4_entry flags e 0

map_pml4-fails :
    (flags t i : ℕ) (words : ℕ → ℕ → ℕ)
    → mapped t ≡ true
    → pml4_entry_is_present (words t i) ≡ false
    → map_pml4 flags t i (record { words = words; blocks = [] })
      ≡ some (0, set_word (record { words = words; blocks = [] }) t i (stale flags (words t i)))
unfolding map_pml4 virt_mem_alloc_pdp stale
map_pml4-fails flags t i words m h = rw (m, h) refl

stale-present : (flags e : ℕ) → pml4_entry_is_present (stale flags e) ≡ true
unfolding stale
stale-present flags e = (new_entries-Says flags e 0 refl).0.1

stale-pfn : (flags e : ℕ) → pml4_entry_pfn (stale flags e) ≡ 0
unfolding stale
stale-pfn flags e = (new_entries-Says flags e 0 refl).0.0

old_stale-pfn : (flags flags' e : ℕ) → pml4_entry_pfn (old_pml4_entry flags' (stale flags e)) ≡ 0
unfolding pml4_entry_is_present pdp_entry_is_present pd_entry_is_present
old_stale-pfn flags flags' e =
    let there = stale-present flags e in
    (old_entries-Says flags' (stale flags e) there there there).0.0 ∙ stale-pfn flags e

map_pml4-stale :
    (flags flags' e t i : ℕ) (vm : Vm)
    → mapped t ≡ true
    → vm.words t i ≡ stale flags e
    → (map_pml4 flags' t i vm) ≡ some (0, set_word vm t i (old_pml4_entry flags' (stale flags e)))
unfolding map_pml4
map_pml4-stale flags flags' e t i vm m h =
    rw (m, h, stale-present flags e, old_stale-pfn flags flags' e) refl

-- Where the first table lies in the first GB of memory, its entry is not present and no block is
-- left, `virt_mem_map_page_p` returns -1 and leaves the entry present, with NULL for its table. The
-- next call for an address under the same entry also returns -1 and takes no block, whatever its
-- page and flags are and whichever blocks have been given back in between.
pub map_page-again :
    (phys virt flags pml4 phys' virt' flags' : ℕ) (words : ℕ → ℕ → ℕ) (blocks : List ℕ)
    → mapped pml4 ≡ true
    → pml4_entry_is_present (words pml4 (pml4_index virt)) ≡ false
    → pml4_index virt' ≡ pml4_index virt
    → (vm : Vm) × (vm' : Vm) × (virt_mem_map_page_p phys virt flags pml4
          (record { words = words; blocks = [] })
        ≡ some (false, vm))
      × (virt_mem_map_page_p phys' virt' flags' pml4 (record vm { blocks = blocks })
          ≡ some (false, vm'))
      × (pml4_entry_is_present (vm.words pml4 (pml4_index virt)) ≡ true)
      × (pml4_entry_pfn (vm.words pml4 (pml4_index virt)) ≡ 0)
      × (vm'.blocks ≡ blocks)
unfolding virt_mem_map_page_p
map_page-again phys virt flags pml4 phys' virt' flags' words blocks m h same =
    let i = pml4_index virt in
    let e = words pml4 i in
    let vm = set_word (record { words = words; blocks = [] }) pml4 i (stale flags e) in
    let vm' =
      set_word (record vm { blocks = blocks }) pml4 i (old_pml4_entry flags' (stale flags e)) in
    let left : vm.words pml4 i ≡ stale flags e =
      set_word-same (record { words = words; blocks = [] }) pml4 i (stale flags e) in
    (
      vm,
      vm',
      rw (map_pml4-fails flags pml4 i words m h) refl,
      rw (same, map_pml4-stale flags flags' e pml4 i (record vm { blocks = blocks }) m left) refl,
      ap pml4_entry_is_present left ∙ stale-present flags e,
      ap pml4_entry_pfn left ∙ stale-pfn flags e,
      refl,
    )
