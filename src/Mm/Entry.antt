-- ===== src/Mm/Entry.antt =====
-- The entries of the four levels of page tables, kernel/src/mm/virt_mem.c: words of 64 bits with
-- flags below bit 12 and a frame address in bits 12 to 62. The masks are those of
-- kernel/include/mm/virt_mem.h; a predicate returns the masked word, which C reads as a truth value.
pub mod Laws
mod Tests
use Prim.Native.Nat.{bit_and, bit_or}
use os.Prelude.{ℕ, ◌-◌, ◌^◌, Bool, not, ◌==◌}

-- `~x` of 64 bits
abbrev pub complement : ℕ → ℕ
complement x = 2 ^ 64 - 1 - x

-- PTE_FRAME, PDE_FRAME, PDPE_FRAME and PML4E_FRAME
abbrev pub frame_mask : ℕ
frame_mask = 0x7FFFFFFFFFFFF000

-- the bits of the flags PRESENT, WRITABLE and USER at every level
abbrev pub present_bit : ℕ
present_bit = 0

abbrev pub writable_bit : ℕ
writable_bit = 1

abbrev pub user_bit : ℕ
user_bit = 2

unfoldable pub pt_entry_add_attrib : ℕ → ℕ → ℕ
pt_entry_add_attrib e attrib = bit_or e attrib

unfoldable pub pt_entry_del_attrib : ℕ → ℕ → ℕ
pt_entry_del_attrib e attrib = bit_and e (complement attrib)

unfoldable pub pt_entry_set_frame : ℕ → ℕ → ℕ
pt_entry_set_frame e addr = bit_or (bit_and e (complement frame_mask)) addr

-- PTE_PRESENT
unfoldable pub pt_entry_is_present : ℕ → Bool
pt_entry_is_present e = not (bit_and e (2 ^ 0) == 0)

-- PTE_WRITABLE
unfoldable pub pt_entry_is_writable : ℕ → Bool
pt_entry_is_writable e = not (bit_and e (2 ^ 1) == 0)

-- PTE_USER
unfoldable pub pt_entry_is_user : ℕ → Bool
pt_entry_is_user e = not (bit_and e (2 ^ 2) == 0)

-- PTE_WRITETHROUGH
unfoldable pub pt_entry_is_writethrough : ℕ → Bool
pt_entry_is_writethrough e = not (bit_and e (2 ^ 3) == 0)

-- PTE_NOT_CAHCEABLE
unfoldable pub pt_entry_is_cacheable : ℕ → Bool
pt_entry_is_cacheable e = bit_and e (2 ^ 4) == 0

-- PTE_ACCESS
unfoldable pub pt_entry_is_accessed : ℕ → Bool
pt_entry_is_accessed e = not (bit_and e (2 ^ 5) == 0)

-- PTE_DIRTY
unfoldable pub pt_entry_is_dirty : ℕ → Bool
pt_entry_is_dirty e = not (bit_and e (2 ^ 6) == 0)

-- PTE_PAT
unfoldable pub pt_entry_is_pat : ℕ → Bool
pt_entry_is_pat e = not (bit_and e (2 ^ 7) == 0)

unfoldable pub pt_entry_pfn : ℕ → ℕ
pt_entry_pfn e = bit_and e frame_mask

unfoldable pub pd_entry_add_attrib : ℕ → ℕ → ℕ
pd_entry_add_attrib e attrib = bit_or e attrib

unfoldable pub pd_entry_del_attrib : ℕ → ℕ → ℕ
pd_entry_del_attrib e attrib = bit_and e (complement attrib)

unfoldable pub pd_entry_set_frame : ℕ → ℕ → ℕ
pd_entry_set_frame e addr = bit_or (bit_and e (complement frame_mask)) addr

-- PDE_PRESENT
unfoldable pub pd_entry_is_present : ℕ → Bool
pd_entry_is_present e = not (bit_and e (2 ^ 0) == 0)

-- PDE_WRITABLE
unfoldable pub pd_entry_is_writable : ℕ → Bool
pd_entry_is_writable e = not (bit_and e (2 ^ 1) == 0)

-- PDE_USER
unfoldable pub pd_entry_is_user : ℕ → Bool
pd_entry_is_user e = not (bit_and e (2 ^ 2) == 0)

-- PDE_PWT
unfoldable pub pd_entry_is_pwt : ℕ → Bool
pd_entry_is_pwt e = not (bit_and e (2 ^ 3) == 0)

-- PDE_PCD
unfoldable pub pd_entry_is_pcd : ℕ → Bool
pd_entry_is_pcd e = not (bit_and e (2 ^ 4) == 0)

-- PDE_ACCESSED
unfoldable pub pd_entry_is_accessed : ℕ → Bool
pd_entry_is_accessed e = not (bit_and e (2 ^ 5) == 0)

-- PDE_4MB
unfoldable pub pd_entry_is_huge : ℕ → Bool
pd_entry_is_huge e = not (bit_and e (2 ^ 7) == 0)

-- PDE_CPU_GLOBAL
unfoldable pub pd_entry_is_cpu_global : ℕ → Bool
pd_entry_is_cpu_global e = not (bit_and e (2 ^ 8) == 0)

-- PDE_LV4_GLOBAL
unfoldable pub pd_entry_is_lv4_global : ℕ → Bool
pd_entry_is_lv4_global e = not (bit_and e (2 ^ 9) == 0)

unfoldable pub pd_entry_pfn : ℕ → ℕ
pd_entry_pfn e = bit_and e frame_mask

unfoldable pub pdp_entry_add_attrib : ℕ → ℕ → ℕ
pdp_entry_add_attrib e attrib = bit_or e attrib

unfoldable pub pdp_entry_del_attrib : ℕ → ℕ → ℕ
pdp_entry_del_attrib e attrib = bit_and e (complement attrib)

unfoldable pub pdp_entry_set_frame : ℕ → ℕ → ℕ
pdp_entry_set_frame e addr = bit_or (bit_and e (complement frame_mask)) addr

-- PDPE_PRESENT
unfoldable pub pdp_entry_is_present : ℕ → Bool
pdp_entry_is_present e = not (bit_and e (2 ^ 0) == 0)

-- PDPE_WRITABLE
unfoldable pub pdp_entry_is_writable : ℕ → Bool
pdp_entry_is_writable e = not (bit_and e (2 ^ 1) == 0)

-- PDPE_USER
unfoldable pub pdp_entry_is_user : ℕ → Bool
pdp_entry_is_user e = not (bit_and e (2 ^ 2) == 0)

-- PDPE_PWT
unfoldable pub pdp_entry_is_pwt : ℕ → Bool
pdp_entry_is_pwt e = not (bit_and e (2 ^ 3) == 0)

-- PDPE_PCD
unfoldable pub pdp_entry_is_pcd : ℕ → Bool
pdp_entry_is_pcd e = not (bit_and e (2 ^ 4) == 0)

-- PDPE_ACCESSED
unfoldable pub pdp_entry_is_accessed : ℕ → Bool
pdp_entry_is_accessed e = not (bit_and e (2 ^ 5) == 0)

-- PDPE_1GB
unfoldable pub pdp_entry_is_huge : ℕ → Bool
pdp_entry_is_huge e = not (bit_and e (2 ^ 7) == 0)

unfoldable pub pdp_entry_pfn : ℕ → ℕ
pdp_entry_pfn e = bit_and e frame_mask

unfoldable pub pml4_entry_add_attrib : ℕ → ℕ → ℕ
pml4_entry_add_attrib e attrib = bit_or e attrib

unfoldable pub pml4_entry_del_attrib : ℕ → ℕ → ℕ
pml4_entry_del_attrib e attrib = bit_and e (complement attrib)

unfoldable pub pml4_entry_set_frame : ℕ → ℕ → ℕ
pml4_entry_set_frame e addr = bit_or (bit_and e (complement frame_mask)) addr

-- PML4E_PRESENT
unfoldable pub pml4_entry_is_present : ℕ → Bool
pml4_entry_is_present e = not (bit_and e (2 ^ 0) == 0)

-- PML4E_WRITABLE
unfoldable pub pml4_entry_is_writable : ℕ → Bool
pml4_entry_is_writable e = not (bit_and e (2 ^ 1) == 0)

-- PML4E_USER
unfoldable pub pml4_entry_is_user : ℕ → Bool
pml4_entry_is_user e = not (bit_and e (2 ^ 2) == 0)

-- PML4E_PWT
unfoldable pub pml4_entry_is_pwt : ℕ → Bool
pml4_entry_is_pwt e = not (bit_and e (2 ^ 3) == 0)

-- PML4E_PCD
unfoldable pub pml4_entry_is_pcd : ℕ → Bool
pml4_entry_is_pcd e = not (bit_and e (2 ^ 4) == 0)

-- PML4E_ACCESSED
unfoldable pub pml4_entry_is_accessed : ℕ → Bool
pml4_entry_is_accessed e = not (bit_and e (2 ^ 5) == 0)

unfoldable pub pml4_entry_pfn : ℕ → ℕ
pml4_entry_pfn e = bit_and e frame_mask
