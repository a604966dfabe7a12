-- ===== src/Mm/Entry/Laws.antt =====
-- Frame and flags of an entry do not disturb one another, at every level.
use Prim.Native.Nat.{bit_and, bit_or, min}
use os.Prelude.{
  ℕ, ◌^◌, ◌<◌, ◌≡◌, refl, sym, ap, ◌∙◌, ◌&&◌, true, false, not, if◌then◌else◌, ◌==◌, ltb, leb,
  arith, ==_iff,
}
use os.Prelude.Bits.{
  holds_under, holds_under_at, bit, bit-bit_or, bit-bit_and, bit-pow, bit-complement, eq_of_bits,
  bit_and-le_right, bit_and-pow_iff, bit_lt_two,
}
use os.Mm.Entry.{
  complement, frame_mask, pt_entry_add_attrib, pt_entry_set_frame, pt_entry_is_present,
  pt_entry_is_writable, pt_entry_is_user, pt_entry_is_writethrough, pt_entry_is_cacheable,
  pt_entry_is_accessed, pt_entry_is_dirty, pt_entry_is_pat, pt_entry_pfn, pd_entry_add_attrib,
  pd_entry_set_frame, pd_entry_is_present, pd_entry_is_writable, pd_entry_is_user, pd_entry_is_pwt,
  pd_entry_is_pcd, pd_entry_is_accessed, pd_entry_is_huge, pd_entry_is_cpu_global,
  pd_entry_is_lv4_global, pd_entry_pfn, pdp_entry_add_attrib, pdp_entry_set_frame,
  pdp_entry_is_present, pdp_entry_is_writable, pdp_entry_is_user, pdp_entry_is_pwt,
  pdp_entry_is_pcd, pdp_entry_is_accessed, pdp_entry_is_huge, pdp_entry_pfn, pml4_entry_add_attrib,
  pml4_entry_set_frame, pml4_entry_is_present, pml4_entry_is_writable, pml4_entry_is_user,
  pml4_entry_is_pwt, pml4_entry_is_pcd, pml4_entry_is_accessed, pml4_entry_pfn,
}

-- an address that an entry can hold: bits 12 to 62 alone
abbrev pub IsFrame : ℕ → Type 0
IsFrame addr = bit_and addr frame_mask ≡ addr

mask_table :
    holds_under (λ j. bit frame_mask j == (if leb 12 j && ltb j 63 then 1 else 0)) 64 ≡ true
unfolding holds_under bit
mask_table = refl

bit-mask : (j : ℕ) → j < 64 → bit frame_mask j ≡ (if leb 12 j && ltb j 63 then 1 else 0)
bit-mask j h = (==_iff _ _).0 (holds_under_at _ 64 j h mask_table)

bit-IsFrame :
    (addr j : ℕ) → IsFrame addr → j < 64 → bit addr j ≡ min (bit addr j) (bit frame_mask j)
bit-IsFrame addr j f h = ap (λ a. bit a j) (sym f) ∙ bit-bit_and addr frame_mask j

IsFrame-lt : (addr : ℕ) → IsFrame addr → addr < 2 ^ 64
IsFrame-lt addr f = omega (arith, f, bit_and-le_right addr frame_mask)

module _ (e addr : ℕ) (f : IsFrame addr) where
  unfoldable pub framed : ℕ
  framed = bit_or (bit_and e (complement frame_mask)) addr

  bit-framed :
      (j : ℕ) → j < 64 → bit framed j ≡ (if leb 12 j && ltb j 63 then bit addr j else bit e j)
  unfolding framed
  bit-framed j h = ground (
    arith,
    bit-bit_or (bit_and e (complement frame_mask)) addr j,
    bit-bit_and e (complement frame_mask) j,
    bit-complement 64 frame_mask j,
    bit-mask j h,
    bit-IsFrame addr j f h,
    bit_lt_two e j,
    bit_lt_two addr j,
  )

  pub pfn-framed : bit_and framed frame_mask ≡ addr
  pfn-framed =
      eq_of_bits 64 (bit_and framed frame_mask) addr
        (omega (arith, bit_and-le_right framed frame_mask)) (IsFrame-lt addr f)
        λ j h. ground (
          arith,
          bit-bit_and framed frame_mask j,
          bit-framed j h,
          bit-mask j h,
          bit-IsFrame addr j f h,
          bit_lt_two addr j,
          bit_lt_two e j,
        )

  pub flag-framed : (k : ℕ) → k < 12 → (bit_and framed (2 ^ k) == 0) ≡ (bit_and e (2 ^ k) == 0)
  flag-framed k h =
      rw (bit_and-pow_iff, bit_and-pow_iff) (ground (arith, bit-framed k (omega arith)))

-- A flag that is added or taken out.
module _ (e k : ℕ) (low : k < 12) where
  pub flag-added :
      (j : ℕ)
      → (bit_and (bit_or e (2 ^ k)) (2 ^ j) == 0)
        ≡ (if k == j then false else bit_and e (2 ^ j) == 0)
  flag-added j =
      rw (bit_and-pow_iff, bit_and-pow_iff)
        (ground (arith, bit-bit_or e (2 ^ k) j, bit-pow k j, bit_lt_two e j))

  pub pfn-added : bit_and (bit_or e (2 ^ k)) frame_mask ≡ bit_and e frame_mask
  pfn-added =
      eq_of_bits 64 (bit_and (bit_or e (2 ^ k)) frame_mask) (bit_and e frame_mask)
        (omega (arith, bit_and-le_right (bit_or e (2 ^ k)) frame_mask))
        (omega (arith, bit_and-le_right e frame_mask))
        λ j h. ground (
          arith,
          bit-bit_and (bit_or e (2 ^ k)) frame_mask j,
          bit-bit_or e (2 ^ k) j,
          bit-bit_and e frame_mask j,
          bit-pow k j,
          bit-mask j h,
          bit_lt_two e j,
        )

-- The frame that `set_frame` writes is what `pfn` reads, at every level.
pub pfn-set_frame :
    (e addr : ℕ)
    → IsFrame addr
    → (pt_entry_pfn (pt_entry_set_frame e addr) ≡ addr)
      × (pd_entry_pfn (pd_entry_set_frame e addr) ≡ addr)
      × (pdp_entry_pfn (pdp_entry_set_frame e addr) ≡ addr)
      × (pml4_entry_pfn (pml4_entry_set_frame e addr) ≡ addr)
unfolding pt_entry_pfn pt_entry_set_frame pd_entry_pfn pd_entry_set_frame pdp_entry_pfn
    pdp_entry_set_frame pml4_entry_pfn pml4_entry_set_frame framed
pfn-set_frame e addr f = let p = pfn-framed e addr f in (p, p, p, p)

-- what each predicate says of an entry is the same behind `set_frame`
abbrev pub SameFlags : ℕ → ℕ → Type 0
SameFlags e addr =
    ((pt_entry_is_present (pt_entry_set_frame e addr) ≡ pt_entry_is_present e)
      × (pt_entry_is_writable (pt_entry_set_frame e addr) ≡ pt_entry_is_writable e)
      × (pt_entry_is_user (pt_entry_set_frame e addr) ≡ pt_entry_is_user e)
      × (pt_entry_is_writethrough (pt_entry_set_frame e addr) ≡ pt_entry_is_writethrough e)
      × (pt_entry_is_cacheable (pt_entry_set_frame e addr) ≡ pt_entry_is_cacheable e)
      × (pt_entry_is_accessed (pt_entry_set_frame e addr) ≡ pt_entry_is_accessed e)
      × (pt_entry_is_dirty (pt_entry_set_frame e addr) ≡ pt_entry_is_dirty e)
      × (pt_entry_is_pat (pt_entry_set_frame e addr) ≡ pt_entry_is_pat e))
    × ((pd_entry_is_present (pd_entry_set_frame e addr) ≡ pd_entry_is_present e)
        × (pd_entry_is_writable (pd_entry_set_frame e addr) ≡ pd_entry_is_writable e)
        × (pd_entry_is_user (pd_entry_set_frame e addr) ≡ pd_entry_is_user e)
        × (pd_entry_is_pwt (pd_entry_set_frame e addr) ≡ pd_entry_is_pwt e)
        × (pd_entry_is_pcd (pd_entry_set_frame e addr) ≡ pd_entry_is_pcd e)
        × (pd_entry_is_accessed (pd_entry_set_frame e addr) ≡ pd_entry_is_accessed e)
        × (pd_entry_is_huge (pd_entry_set_frame e addr) ≡ pd_entry_is_huge e)
        × (pd_entry_is_cpu_global (pd_entry_set_frame e addr) ≡ pd_entry_is_cpu_global e)
        × (pd_entry_is_lv4_global (pd_entry_set_frame e addr) ≡ pd_entry_is_lv4_global e))
    × ((pdp_entry_is_present (pdp_entry_set_frame e addr) ≡ pdp_entry_is_present e)
        × (pdp_entry_is_writable (pdp_entry_set_frame e addr) ≡ pdp_entry_is_writable e)
        × (pdp_entry_is_user (pdp_entry_set_frame e addr) ≡ pdp_entry_is_user e)
        × (pdp_entry_is_pwt (pdp_entry_set_frame e addr) ≡ pdp_entry_is_pwt e)
        × (pdp_entry_is_pcd (pdp_entry_set_frame e addr) ≡ pdp_entry_is_pcd e)
        × (pdp_entry_is_accessed (pdp_entry_set_frame e addr) ≡ pdp_entry_is_accessed e)
        × (pdp_entry_is_huge (pdp_entry_set_frame e addr) ≡ pdp_entry_is_huge e))
    × ((pml4_entry_is_present (pml4_entry_set_frame e addr) ≡ pml4_entry_is_present e)
        × (pml4_entry_is_writable (pml4_entry_set_frame e addr) ≡ pml4_entry_is_writable e)
        × (pml4_entry_is_user (pml4_entry_set_frame e addr) ≡ pml4_entry_is_user e)
        × (pml4_entry_is_pwt (pml4_entry_set_frame e addr) ≡ pml4_entry_is_pwt e)
        × (pml4_entry_is_pcd (pml4_entry_set_frame e addr) ≡ pml4_entry_is_pcd e)
        × (pml4_entry_is_accessed (pml4_entry_set_frame e addr) ≡ pml4_entry_is_accessed e))

-- `set_frame` of a frame address leaves what each predicate says of the entry, at every level.
pub flags-set_frame : (e addr : ℕ) → IsFrame addr → SameFlags e addr
unfolding framed pt_entry_is_present pt_entry_is_writable pt_entry_is_user pt_entry_is_writethrough
    pt_entry_is_cacheable pt_entry_is_accessed pt_entry_is_dirty pt_entry_is_pat pt_entry_set_frame
    pd_entry_is_present pd_entry_is_writable pd_entry_is_user pd_entry_is_pwt pd_entry_is_pcd
    pd_entry_is_accessed pd_entry_is_huge pd_entry_is_cpu_global pd_entry_is_lv4_global
    pd_entry_set_frame pdp_entry_is_present pdp_entry_is_writable pdp_entry_is_user pdp_entry_is_pwt
    pdp_entry_is_pcd pdp_entry_is_accessed pdp_entry_is_huge pdp_entry_set_frame
    pml4_entry_is_present pml4_entry_is_writable pml4_entry_is_user pml4_entry_is_pwt
    pml4_entry_is_pcd pml4_entry_is_accessed pml4_entry_set_frame
flags-set_frame e addr f =
    let kept = flag-framed e addr f in
    (
      (
        ap not (kept 0 (omega arith)),
        ap not (kept 1 (omega arith)),
        ap not (kept 2 (omega arith)),
        ap not (kept 3 (omega arith)),
        kept 4 (omega arith),
        ap not (kept 5 (omega arith)),
        ap not (kept 6 (omega arith)),
        ap not (kept 7 (omega arith)),
      ),
      (
        ap not (kept 0 (omega arith)),
        ap not (kept 1 (omega arith)),
        ap not (kept 2 (omega arith)),
        ap not (kept 3 (omega arith)),
        ap not (kept 4 (omega arith)),
        ap not (kept 5 (omega arith)),
        ap not (kept 7 (omega arith)),
        ap not (kept 8 (omega arith)),
        ap not (kept 9 (omega arith)),
      ),
      (
        ap not (kept 0 (omega arith)),
        ap not (kept 1 (omega arith)),
        ap not (kept 2 (omega arith)),
        ap not (kept 3 (omega arith)),
        ap not (kept 4 (omega arith)),
        ap not (kept 5 (omega arith)),
        ap not (kept 7 (omega arith)),
      ),
      (
        ap not (kept 0 (omega arith)),
        ap not (kept 1 (omega arith)),
        ap not (kept 2 (omega arith)),
        ap not (kept 3 (omega arith)),
        ap not (kept 4 (omega arith)),
        ap not (kept 5 (omega arith)),
      ),
    )

-- what an entry is with the flag of bit `k` in it: that flag alone is changed, and the frame stays
abbrev pub Added : (ℕ → ℕ → ℕ) → (ℕ → ℕ) → ℕ → ℕ → Type 0
Added add pfn e k =
    ((j : ℕ)
      → (bit_and (add e (2 ^ k)) (2 ^ j) == 0) ≡ (if k == j then false else bit_and e (2 ^ j) == 0))
    × (pfn (add e (2 ^ k)) ≡ pfn e)

-- `add_attrib` of a flag below bit 12 sets that flag and no other, and keeps the frame, at every
-- level.
pub add_attrib-Added :
    (e k : ℕ)
    → k < 12
    → Added pt_entry_add_attrib pt_entry_pfn e k
      × Added pd_entry_add_attrib pd_entry_pfn e k
      × Added pdp_entry_add_attrib pdp_entry_pfn e k
      × Added pml4_entry_add_attrib pml4_entry_pfn e k
unfolding pt_entry_add_attrib pt_entry_pfn pd_entry_add_attrib pd_entry_pfn pdp_entry_add_attrib
    pdp_entry_pfn pml4_entry_add_attrib pml4_entry_pfn
add_attrib-Added e k h =
    let f = flag-added e k h in let p = pfn-added e k h in ((f, p), (f, p), (f, p), (f, p))

-- The frame that `set_frame` writes is what `pfn` reads, and every flag of the entry stays as it is,
-- at each of the four levels.
pub set_frame-Written :
    (e addr : ℕ)
    → IsFrame addr
    → (pt_entry_pfn (pt_entry_set_frame e addr) ≡ addr)
      × (pd_entry_pfn (pd_entry_set_frame e addr) ≡ addr)
      × (pdp_entry_pfn (pdp_entry_set_frame e addr) ≡ addr)
      × (pml4_entry_pfn (pml4_entry_set_frame e addr) ≡ addr)
      × SameFlags e addr
set_frame-Written e addr f =
    let (a, b, c, d) = pfn-set_frame e addr f in (a, b, c, d, flags-set_frame e addr f)
