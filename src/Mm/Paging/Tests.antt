-- ===== src/Mm/Paging/Tests.antt =====
-- Mapping a page into an empty address space.
use os.Prelude.{ℕ, ◌≡◌, refl, true, false, [], ◌∷◌, Option, none, some}
use os.Mm.Entry.{
  pml4_entry_pfn, pml4_entry_is_present, pdp_entry_is_present, pd_entry_is_present,
  pdp_entry_is_huge, pd_entry_is_huge,
}
use os.Mm.Paging.{
  Vm, map_pml4, map_pdp, map_pd, virt_mem_map_page_p, virt_mem_alloc_ptable,
  virt_mem_alloc_pdirectory, virt_mem_alloc_pdp,
}
use os.Mm.Paging.Steps.{NewSays, OldSays, entries-Say}
use os.Mm.Paging.Leads.{AreFrames}
use os.Mm.Paging.Failed.{map_page-again}
use os.Mm.Paging.Walk.{walk, map_page-walk}

abbrev empty_vm : Vm
empty_vm = record { words = λ _ _. 0; blocks = 0x1000 ∷ 0x2000 ∷ 0x3000 ∷ [] }

-- the state behind a step of the mapping
abbrev behind : Option (ℕ × Vm) → Vm
behind none = empty_vm
behind (some (p, vm)) = vm

abbrev vm1 : Vm
vm1 = behind (map_pml4 3 0x9000 0 empty_vm)

abbrev vm2 : Vm
vm2 = behind (map_pdp 3 0x1000 1 vm1)

abbrev vm3 : Vm
vm3 = behind (map_pd 3 0x2000 1 vm2)

map_page-walk_example :
    (vm' : Vm) × (virt_mem_map_page_p 0x5000 0x40201000 3 0x9000 empty_vm ≡ some (true, vm'))
    × (walk vm'.words 0x9000 0x40201000 ≡ some 0x5000)
unfolding AreFrames map_pml4 map_pdp map_pd virt_mem_alloc_pdp virt_mem_alloc_pdirectory
    virt_mem_alloc_ptable pml4_entry_is_present pdp_entry_is_present pd_entry_is_present
    pdp_entry_is_huge pd_entry_is_huge
map_page-walk_example =
    map_page-walk 0x5000 0x40201000 3 0x9000 0x1000 0x2000 0x3000 empty_vm vm1 vm2 vm3 refl
      (refl, (refl, (refl, tt))) refl refl refl (refl, refl, refl, refl, refl, refl) refl refl refl
      refl refl refl

-- A table behind the first GB cannot be reached.
far_table_faults :
    virt_mem_map_page_p 0x5000 0 3 0x9000 (record { words = λ _ _. 0; blocks = 0x40000000 ∷ [] })
    ≡ none
unfolding virt_mem_map_page_p map_pml4 virt_mem_alloc_pdp pml4_entry_is_present
far_table_faults = refl

map_page-again_example :
    (vm : Vm) × (vm' : Vm) × (virt_mem_map_page_p 0x5000 0x40201000 3 0x9000
        (record { words = λ _ _. 0; blocks = [] })
      ≡ some (false, vm))
    × (virt_mem_map_page_p 0x6000 0x40202000 1 0x9000 (record vm { blocks = 0x1000 ∷ [] })
        ≡ some (false, vm'))
    × (pml4_entry_is_present (vm.words 0x9000 0) ≡ true)
    × (pml4_entry_pfn (vm.words 0x9000 0) ≡ 0)
    × (vm'.blocks ≡ 0x1000 ∷ [])
unfolding pml4_entry_is_present
map_page-again_example =
    map_page-again 0x5000 0x40201000 3 0x9000 0x6000 0x40202000 1 (λ _ _. 0) (0x1000 ∷ []) refl refl
      refl

entries-Say_example : NewSays 2 0 0x1000 × OldSays 2 0x1001
unfolding pml4_entry_is_present pdp_entry_is_present pd_entry_is_present
entries-Say_example = entries-Say 2 0 0x1000 0x1001 refl refl refl refl
