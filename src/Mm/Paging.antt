-- ===== src/Mm/Paging.antt =====
-- Mapping a page: `virt_mem_map_page_p` of kernel/src/mm/virt_mem.c, one function for the part at
-- each level, and the allocation of tables. A table is named by its physical frame, where the code
-- reaches it through ADD_PAGE_OFFSET; `words` is what the 512 entries of each frame hold.
-- `blocks` is what the next calls of `phys_mem_alloc_block` return, with 0 for NULL, and NULL from
-- there on. `none` is the page fault of an access to a table behind the first GB of memory.
pub mod Steps
pub mod Huge
pub mod Failed
pub mod Leads
pub mod Walk
mod Tests
use Prim.Native.Nat.{bit_and}
use os.Prelude.{
  ℕ, zero, suc, ◌+◌, ◌/◌, ◌%◌, ◌^◌, Bool, true, false, not, ◌&&◌, List, [], ◌∷◌, if◌then◌else◌,
  ◌==◌, ltb, Option, none, some,
}
use os.Mm.Entry.{
  pt_entry_add_attrib, pt_entry_set_frame, pd_entry_add_attrib, pd_entry_set_frame,
  pd_entry_is_present, pd_entry_is_writable, pd_entry_is_user, pd_entry_pfn, pdp_entry_add_attrib,
  pdp_entry_set_frame, pdp_entry_is_present, pdp_entry_is_writable, pdp_entry_is_user,
  pdp_entry_pfn, pml4_entry_add_attrib, pml4_entry_set_frame, pml4_entry_is_present,
  pml4_entry_is_writable, pml4_entry_is_user, pml4_entry_pfn,
}

pub record Vm : Type 0 where
  pub words : ℕ → ℕ → ℕ
  pub blocks : List ℕ

abbrev pub set_word : Vm → ℕ → ℕ → ℕ → Vm
set_word vm t i w = record vm { words = λ t' i'. if t' == t && i' == i then w else vm.words t' i' }

-- `memset` of a table to 0
abbrev pub clear_table : Vm → ℕ → Vm
clear_table vm t = record vm { words = λ t' i'. if t' == t then 0 else vm.words t' i' }

abbrev pub alloc_block : Vm → ℕ × Vm
alloc_block vm = elim vm.blocks [ [] ↦ (0, vm) | b ∷ bs ↦ (b, record vm { blocks = bs }) ]

-- Only the first GB of memory is mapped at PAGE_OFFSET; an access to a table beyond it faults.
abbrev pub mapped : ℕ → Bool
mapped p = ltb p (2 ^ 30)

-- a block, and cleared where there is one
abbrev pub alloc_table : Vm → Option (ℕ × Vm)
alloc_table vm =
    let (p, vm') = alloc_block vm in
    if p == 0 then some (p, vm') else if mapped p then some (p, clear_table vm' p) else none

unfoldable pub virt_mem_alloc_ptable : Vm → Option (ℕ × Vm)
virt_mem_alloc_ptable vm = alloc_table vm

unfoldable pub virt_mem_alloc_pdirectory : Vm → Option (ℕ × Vm)
virt_mem_alloc_pdirectory vm = alloc_table vm

unfoldable pub virt_mem_alloc_pdp : Vm → Option (ℕ × Vm)
virt_mem_alloc_pdp vm = alloc_table vm

unfoldable pub virt_mem_alloc_pml4 : Vm → Option (ℕ × Vm)
virt_mem_alloc_pml4 vm = alloc_table vm

unfoldable pub virt_mem_create_address_space : Vm → Option (ℕ × Vm)
virt_mem_create_address_space vm = alloc_table vm

-- PT_INDEX, PD_INDEX, PDP_INDEX and PML4_INDEX
abbrev pub pt_index : ℕ → ℕ
pt_index x = x / 2 ^ 12 % 2 ^ 9

abbrev pub pd_index : ℕ → ℕ
pd_index x = x / 2 ^ 21 % 2 ^ 9

abbrev pub pdp_index : ℕ → ℕ
pdp_index x = x / 2 ^ 30 % 2 ^ 9

abbrev pub pml4_index : ℕ → ℕ
pml4_index x = x / 2 ^ 39 % 2 ^ 9

-- `flags & VIRT_MEM_USER` and `flags & VIRT_MEM_WRITABLE`
abbrev pub wants_user : ℕ → Bool
wants_user flags = not (bit_and flags (2 ^ 0) == 0)

abbrev pub wants_write : ℕ → Bool
wants_write flags = not (bit_and flags (2 ^ 1) == 0)

abbrev pub add_if : Bool → (ℕ → ℕ → ℕ) → ℕ → ℕ → ℕ
add_if b add attrib e = if b then add e attrib else e

-- The entry for a new table `p`, and the entry of a table that is there.
unfoldable pub new_pml4_entry : ℕ → ℕ → ℕ → ℕ
new_pml4_entry flags e p =
    let e1 = pml4_entry_add_attrib e (2 ^ 0) in
    let e2 = add_if (wants_write flags) pml4_entry_add_attrib (2 ^ 1) e1 in
    let e3 = add_if (wants_user flags) pml4_entry_add_attrib (2 ^ 2) e2 in pml4_entry_set_frame e3 p

unfoldable pub old_pml4_entry : ℕ → ℕ → ℕ
old_pml4_entry flags e =
    let w = not (pml4_entry_is_writable e) && wants_write flags in
    let e1 = add_if w pml4_entry_add_attrib (2 ^ 1) e in
    let u = not (pml4_entry_is_user e1) && wants_user flags in
    add_if u pml4_entry_add_attrib (2 ^ 2) e1

-- the part at the entry `i` of the table `t`, with the next table; a block is taken only where the
-- entry is not present
unfoldable pub map_pml4 : ℕ → ℕ → ℕ → Vm → Option (ℕ × Vm)
map_pml4 flags t i vm =
    let e = vm.words t i in
    let fresh = virt_mem_alloc_pdp vm in
    if mapped t
    then (if not (pml4_entry_is_present e)
        then (elim fresh [
          | none ↦ none
          | some (p, vm') ↦ some (p, set_word vm' t i (new_pml4_entry flags (vm'.words t i) p))
        ])
        else some
            (pml4_entry_pfn (old_pml4_entry flags e), set_word vm t i (old_pml4_entry flags e)))
    else none

unfoldable pub new_pdp_entry : ℕ → ℕ → ℕ → ℕ
new_pdp_entry flags e p =
    let e1 = pdp_entry_add_attrib e (2 ^ 0) in
    let e2 = add_if (wants_write flags) pdp_entry_add_attrib (2 ^ 1) e1 in
    let e3 = add_if (wants_user flags) pdp_entry_add_attrib (2 ^ 2) e2 in pdp_entry_set_frame e3 p

unfoldable pub old_pdp_entry : ℕ → ℕ → ℕ
old_pdp_entry flags e =
    let w = not (pdp_entry_is_writable e) && wants_write flags in
    let e1 = add_if w pdp_entry_add_attrib (2 ^ 1) e in
    let u = not (pdp_entry_is_user e1) && wants_user flags in
    add_if u pdp_entry_add_attrib (2 ^ 2) e1

unfoldable pub map_pdp : ℕ → ℕ → ℕ → Vm → Option (ℕ × Vm)
map_pdp flags t i vm =
    let e = vm.words t i in
    let fresh = virt_mem_alloc_pdirectory vm in
    if mapped t
    then (if not (pdp_entry_is_present e)
        then (elim fresh [
          | none ↦ none
          | some (p, vm') ↦ some (p, set_word vm' t i (new_pdp_entry flags (vm'.words t i) p))
        ])
        else some (pdp_entry_pfn (old_pdp_entry flags e), set_word vm t i (old_pdp_entry flags e)))
    else none

-- Where a writable page is asked for, a new entry gets PDE_USER and not PDE_WRITABLE.
unfoldable pub new_pd_entry : ℕ → ℕ → ℕ → ℕ
new_pd_entry flags e p =
    let e1 = pd_entry_add_attrib e (2 ^ 0) in
    let e2 = add_if (wants_write flags) pd_entry_add_attrib (2 ^ 2) e1 in
    let e3 = add_if (wants_user flags) pd_entry_add_attrib (2 ^ 2) e2 in pd_entry_set_frame e3 p

unfoldable pub old_pd_entry : ℕ → ℕ → ℕ
old_pd_entry flags e =
    let w = not (pd_entry_is_writable e) && wants_write flags in
    let e1 = add_if w pd_entry_add_attrib (2 ^ 1) e in
    let u = not (pd_entry_is_user e1) && wants_user flags in add_if u pd_entry_add_attrib (2 ^ 2) e1

unfoldable pub map_pd : ℕ → ℕ → ℕ → Vm → Option (ℕ × Vm)
map_pd flags t i vm =
    let e = vm.words t i in
    let fresh = virt_mem_alloc_ptable vm in
    if mapped t
    then (if not (pd_entry_is_present e)
        then (elim fresh [
          | none ↦ none
          | some (p, vm') ↦ some (p, set_word vm' t i (new_pd_entry flags (vm'.words t i) p))
        ])
        else some (pd_entry_pfn (old_pd_entry flags e), set_word vm t i (old_pd_entry flags e)))
    else none

-- the page's own entry, which is made anew
unfoldable pub page_entry : ℕ → ℕ → ℕ
page_entry phys flags =
    let e1 = pt_entry_add_attrib 0 (2 ^ 0) in
    let e2 = add_if (wants_write flags) pt_entry_add_attrib (2 ^ 1) e1 in
    let e3 = add_if (wants_user flags) pt_entry_add_attrib (2 ^ 2) e2 in pt_entry_set_frame e3 phys

-- goes on with the next table, or returns -1 where it is NULL
abbrev pub on_table : Option (ℕ × Vm) → (ℕ → Vm → Option (Bool × Vm)) → Option (Bool × Vm)
on_table none go = none
on_table (some (p, vm)) go = if p == 0 then some (false, vm) else go p vm

-- true is the result 0, and false the result -1
unfoldable pub virt_mem_map_page_p : ℕ → ℕ → ℕ → ℕ → Vm → Option (Bool × Vm)
virt_mem_map_page_p phys virt flags pml4 vm =
    on_table (map_pml4 flags pml4 (pml4_index virt) vm) (λ pdp vm1.
      on_table (map_pdp flags pdp (pdp_index virt) vm1) (λ pdir vm2.
        on_table (map_pd flags pdir (pd_index virt) vm2) (λ ptable vm3.
          if mapped ptable
          then some (true, set_word vm3 ptable (pt_index virt) (page_entry phys flags))
          else none)))

-- `paddr += PAGE_SIZE`
abbrev pub next_page : ℕ → ℕ
next_page a = (a + 4096) % 2 ^ 64

-- `_cur_dir` is the first argument.
unfoldable pub virt_mem_map_page : ℕ → ℕ → ℕ → ℕ → Vm → Option (Bool × Vm)
unfolding virt_mem_map_page_p
virt_mem_map_page cur_dir phys virt flags vm = virt_mem_map_page_p phys virt flags cur_dir vm

-- The loop goes on with the addresses of the next page while a page can be mapped.
unfoldable pub virt_mem_map_pages_p : ℕ → ℕ → ℕ → ℕ → ℕ → Vm → Option (Bool × Vm)
unfolding virt_mem_map_page_p
virt_mem_map_pages_p phys virt zero flags dir vm = some (true, vm)
virt_mem_map_pages_p phys virt (suc n) flags dir vm =
    elim (virt_mem_map_page_p phys virt flags dir vm) [
      | none ↦ none
      | some (ok, vm') ↦
          let rest = virt_mem_map_pages_p (next_page phys) (next_page virt) n flags dir vm' in
          if ok then rest else some (false, vm')
    ]

unfoldable pub virt_mem_map_pages : ℕ → ℕ → ℕ → ℕ → ℕ → Vm → Option (Bool × Vm)
unfolding virt_mem_map_pages_p
virt_mem_map_pages cur_dir phys virt n flags vm = virt_mem_map_pages_p phys virt n flags cur_dir vm
