-- ===== src/Mm/Paging/Leads.antt =====
-- What the part of each level does to the tables.
use os.Prelude.{
  ℕ, ◌≡◌, refl, sym, subst, ap, ◌∙◌, Bool, true, false, not, ◌&&◌, List, [], ◌∷◌, if◌then◌else◌,
  ◌==◌, arith, Bool-cases, inl, inr, Option, none, some,
}
use os.Mm.Entry.{
  pd_entry_is_present, pd_entry_pfn, pdp_entry_is_present, pdp_entry_pfn, pml4_entry_is_present,
  pml4_entry_pfn, pdp_entry_is_huge, pd_entry_is_huge,
}
use os.Mm.Entry.Laws.{IsFrame}
use os.Mm.Paging.{
  mapped, alloc_table, set_word, Vm, map_pml4, map_pdp, map_pd, virt_mem_alloc_ptable,
  virt_mem_alloc_pdirectory, virt_mem_alloc_pdp, new_pml4_entry, old_pml4_entry, new_pdp_entry,
  old_pdp_entry, new_pd_entry, old_pd_entry,
}
use os.Mm.Paging.Huge.{new_entries-huge, old_entries-huge}
use os.Mm.Paging.Steps.{new_entries-Says, old_entries-Says}

-- blocks at addresses that an entry can hold
unfoldable pub AreFrames : List ℕ → Type 0
AreFrames [] = Unit
AreFrames (b ∷ bs) = IsFrame b × AreFrames bs

-- What the part of a level leaves: its entry is present, holds the next table `p`, and is no large
-- page where it was none, and no other table than `p` has changed elsewhere.
abbrev pub Leads : (ℕ → Bool) → (ℕ → ℕ) → (ℕ → Bool) → ℕ → ℕ → Vm → Option (ℕ × Vm) → Type 0
Leads is_present pfn is_huge t i vm none = Unit
Leads is_present pfn is_huge t i vm (some (p, vm')) =
    (is_present (vm'.words t i) ≡ true)
    × (pfn (vm'.words t i) ≡ p)
    × ((t == p) ≡ false → is_huge (vm.words t i) ≡ false → is_huge (vm'.words t i) ≡ false)
    × ((t' i' : ℕ)
        → (t' == p) ≡ false
        → (t' == t && i' == i) ≡ false
        → vm'.words t' i' ≡ vm.words t' i')
    × AreFrames vm'.blocks

pub set_word-same : (vm : Vm) (t i w : ℕ) → (set_word vm t i w).words t i ≡ w
set_word-same vm t i w = ground arith

pub set_word-other :
    (vm : Vm) (t i w t' i' : ℕ)
    → (t' == t && i' == i) ≡ false
    → (set_word vm t i w).words t' i' ≡ vm.words t' i'
set_word-other vm t i w t' i' h = ground arith

abbrev vm_of : (ℕ → ℕ → ℕ) → List ℕ → Vm
vm_of words blocks = record { words = words; blocks = blocks }

-- what the allocation of a table gives
abbrev Allocated : (ℕ → ℕ → ℕ) → Option (ℕ × Vm) → Type 0
Allocated words none = Unit
Allocated words (some (p, vm')) =
    IsFrame p
    × ((t' i' : ℕ) → (t' == p) ≡ false → vm'.words t' i' ≡ words t' i')
    × AreFrames vm'.blocks

alloc_table-Allocated :
    (words : ℕ → ℕ → ℕ) (blocks : List ℕ)
    → AreFrames blocks
    → Allocated words (alloc_table (vm_of words blocks))
unfolding AreFrames
alloc_table-Allocated words [] fr = (refl, (λ t' i' h. refl), tt)
alloc_table-Allocated words (b ∷ bs) (f, fr) = elim (Bool-cases (b == 0)) [
  | inl e ↦ rw e (f, (λ t' i' h. refl), fr)
  | inr e ↦ elim (Bool-cases (mapped b)) [
    | inl m ↦ rw (e, m) (f, (λ t' i' h. rw h refl), fr)
    | inr m ↦ rw (e, m) tt
  ]
]

-- the common shape of the parts
module _ (is_present : ℕ → Bool) (pfn : ℕ → ℕ) (is_huge : ℕ → Bool) (new : ℕ → ℕ → ℕ) (old : ℕ → ℕ)
    (made : (e p : ℕ)
      → IsFrame p
      → (is_present (new e p) ≡ true) × (pfn (new e p) ≡ p) × (is_huge (new e p) ≡ is_huge e))
    (kept : (e : ℕ)
      → (is_present e ≡ true → is_present (old e) ≡ true) × (is_huge (old e) ≡ is_huge e))
    (t i : ℕ) where
  abbrev fresh : Option (ℕ × Vm) → Option (ℕ × Vm)
  fresh none = none
  fresh (some (p, vm')) = some (p, set_word vm' t i (new (vm'.words t i) p))

  abbrev there : Vm → Option (ℕ × Vm)
  there vm = some (pfn (old (vm.words t i)), set_word vm t i (old (vm.words t i)))

  abbrev level : Vm → Option (ℕ × Vm)
  level vm =
      if mapped t
      then (if not (is_present (vm.words t i)) then fresh (alloc_table vm) else there vm)
      else none

  abbrev LeadsHere : Vm → Option (ℕ × Vm) → Type 0
  LeadsHere vm res = Leads is_present pfn is_huge t i vm res

  fresh-Leads :
      (vm : Vm) (res : Option (ℕ × Vm)) → Allocated vm.words res → LeadsHere vm (fresh res)
  fresh-Leads vm none h = tt
  fresh-Leads vm (some (p, vm')) (f, frame, fr) =
      let w = new (vm'.words t i) p in
      let (a, b, c) = made (vm'.words t i) p f in
      (
        ap is_present (set_word-same vm' t i w) ∙ a,
        ap pfn (set_word-same vm' t i w) ∙ b,
        (λ apart plain.
            ap is_huge (set_word-same vm' t i w) ∙ c ∙ ap is_huge (frame t i apart) ∙ plain),
        (λ t' i' h k. set_word-other vm' t i w t' i' k ∙ frame t' i' h),
        fr,
      )

  there-Leads :
      (vm : Vm) → AreFrames vm.blocks → is_present (vm.words t i) ≡ true → LeadsHere vm (there vm)
  there-Leads vm fr h =
      let w = old (vm.words t i) in
      let (present, huge) = kept (vm.words t i) in
      (
        ap is_present (set_word-same vm t i w) ∙ present h,
        ap pfn (set_word-same vm t i w),
        (λ _ plain. ap is_huge (set_word-same vm t i w) ∙ huge ∙ plain),
        (λ t' i' _ k. set_word-other vm t i w t' i' k),
        fr,
      )

  level-Leads :
      (words : ℕ → ℕ → ℕ) (blocks : List ℕ)
      → AreFrames blocks
      → LeadsHere (vm_of words blocks) (level (vm_of words blocks))
  level-Leads words blocks fr =
      let vm = vm_of words blocks in
      let next = fresh (alloc_table vm) in
      let pick =
        λ (m c : Bool). LeadsHere vm (if m then (if not c then next else there vm) else none) in
      elim (Bool-cases (mapped t)) [
        | inl m ↦ elim (Bool-cases (is_present (words t i))) [
          | inl e ↦
              subst (λ (m : Bool). pick m (is_present (words t i))) (sym m)
                (subst (pick true) (sym e) (there-Leads vm fr e))
          | inr e ↦
              subst (λ (m : Bool). pick m (is_present (words t i))) (sym m)
                (subst (pick true) (sym e)
                  (fresh-Leads vm (alloc_table vm) (alloc_table-Allocated words blocks fr)))
        ]
        | inr m ↦ subst (λ (m : Bool). pick m (is_present (words t i))) (sym m) tt
      ]

abbrev pub never_huge : ℕ → Bool
never_huge e = false

pub map_pml4-Leads :
    (flags t i : ℕ) (vm : Vm)
    → AreFrames vm.blocks
    → Leads pml4_entry_is_present pml4_entry_pfn never_huge t i vm (map_pml4 flags t i vm)
unfolding map_pml4 virt_mem_alloc_pdp pml4_entry_is_present pdp_entry_is_present pd_entry_is_present
map_pml4-Leads flags t i vm fr =
    level-Leads pml4_entry_is_present pml4_entry_pfn never_huge (new_pml4_entry flags)
      (old_pml4_entry flags)
      (λ e p f. let says = (new_entries-Says flags e p f).0 in (says.1, says.0, refl))
      (λ e. ((λ h. (old_entries-Says flags e h h h).0.1), refl)) t i vm.words vm.blocks fr

pub map_pdp-Leads :
    (flags t i : ℕ) (vm : Vm)
    → AreFrames vm.blocks
    → Leads pdp_entry_is_present pdp_entry_pfn pdp_entry_is_huge t i vm (map_pdp flags t i vm)
unfolding map_pdp virt_mem_alloc_pdirectory pml4_entry_is_present pdp_entry_is_present
    pd_entry_is_present
map_pdp-Leads flags t i vm fr =
    level-Leads pdp_entry_is_present pdp_entry_pfn pdp_entry_is_huge (new_pdp_entry flags)
      (old_pdp_entry flags)
      (λ e p f.
        let says = (new_entries-Says flags e p f).1 in
        (says.1, says.0, (new_entries-huge flags e p f).0))
      (λ e. ((λ h. (old_entries-Says flags e h h h).1.1), (old_entries-huge flags e).0)) t i
      vm.words vm.blocks fr

pub map_pd-Leads :
    (flags t i : ℕ) (vm : Vm)
    → AreFrames vm.blocks
    → Leads pd_entry_is_present pd_entry_pfn pd_entry_is_huge t i vm (map_pd flags t i vm)
unfolding map_pd virt_mem_alloc_ptable pml4_entry_is_present pdp_entry_is_present
    pd_entry_is_present
map_pd-Leads flags t i vm fr =
    level-Leads pd_entry_is_present pd_entry_pfn pd_entry_is_huge (new_pd_entry flags)
      (old_pd_entry flags)
      (λ e p f.
        let says = (new_entries-Says flags e p f).2 in
        (says.1, says.0, (new_entries-huge flags e p f).1))
      (λ e. ((λ h. (old_entries-Says flags e h h h).2.1), (old_entries-huge flags e).1)) t i
      vm.words vm.blocks fr
