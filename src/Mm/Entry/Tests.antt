-- ===== src/Mm/Entry/Tests.antt =====
-- Runs on page-table entries.
use os.Prelude.{◌≡◌, refl, arith}
use os.Mm.Entry.{
  pt_entry_add_attrib, pt_entry_pfn, pt_entry_set_frame, pd_entry_add_attrib, pd_entry_pfn,
  pd_entry_set_frame, pdp_entry_add_attrib, pdp_entry_pfn, pdp_entry_set_frame,
  pml4_entry_add_attrib, pml4_entry_pfn, pml4_entry_set_frame,
}
use os.Mm.Entry.Laws.{SameFlags, set_frame-Written, Added, add_attrib-Added}

writable_page : pt_entry_set_frame (pt_entry_add_attrib 1 2) 0x5000 ≡ 0x5003
unfolding pt_entry_set_frame pt_entry_add_attrib
writable_page = refl

set_frame-Written_example :
    (pt_entry_pfn (pt_entry_set_frame 0x3007 0x5000) ≡ 0x5000)
    × (pd_entry_pfn (pd_entry_set_frame 0x3007 0x5000) ≡ 0x5000)
    × (pdp_entry_pfn (pdp_entry_set_frame 0x3007 0x5000) ≡ 0x5000)
    × (pml4_entry_pfn (pml4_entry_set_frame 0x3007 0x5000) ≡ 0x5000)
    × SameFlags 0x3007 0x5000
set_frame-Written_example = set_frame-Written 0x3007 0x5000 refl

add_attrib-Added_example :
    Added pt_entry_add_attrib pt_entry_pfn 0x3001 1
    × Added pd_entry_add_attrib pd_entry_pfn 0x3001 1
    × Added pdp_entry_add_attrib pdp_entry_pfn 0x3001 1
    × Added pml4_entry_add_attrib pml4_entry_pfn 0x3001 1
add_attrib-Added_example = add_attrib-Added 0x3001 1 (omega arith)
