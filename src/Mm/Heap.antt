-- ===== src/Mm/Heap.antt =====
-- The heap, kernel/src/mm/kheap.c: the table of regions that lie one behind another from
-- KHEAP_BEGIN on. `frames` is how many more of the heap's own calls of `phys_mem_alloc_block` give
-- a block; the code drops the result of `virt_mem_map_page`, which leaves the table as it is. The
-- flags of an alignment are shifts of an `int` by 56 and more bits, which C leaves undefined, so
-- the `within` that they choose is an argument. 0 is NULL. `max_count` is how many entries the
-- table has room for, and `none` is an access behind them. What the entries from `region_count` on
-- hold is left out: `kmalloc` and `heap_grow` write such an entry before it counts.
pub mod Blocks
pub mod Scan
pub mod Valid
pub mod Grow
pub mod Grown
pub mod Kmalloc
pub mod Release
pub mod Search
pub mod Kfree
pub mod Apart
mod Tests
use Prim.Native.Nat.{bit_and}
use os.Prelude.{
  ℕ, zero, suc, ◌+◌, ◌-◌, ◌*◌, ◌/◌, ◌%◌, ◌^◌, Bool, true, false, not, ◌&&◌, ◌||◌, List, [], ◌∷◌,
  ◌++◌, Option, none, some, if◌then◌else◌, ◌==◌, ltb, leb, length, take, drop,
}

-- `kheap_region_t`
pub record Region : Type 0 where
  pub res : Bool
  pub size : ℕ
  pub number : ℕ

abbrev pub region : Bool → ℕ → ℕ → Region
region r s n = record { res = r; size = s; number = n }

-- `first_free_region` and `first_free_addr`, as the loop of `kmalloc_imp` carries them
pub record Hint : Type 0 where
  pub index : ℕ
  pub addr : ℕ

abbrev pub hint_at : ℕ → ℕ → Hint
hint_at i a = record { index = i; addr = a }

pub record Heap : Type 0 where
  pub regions : List Region
  pub max_count : ℕ
  pub first_free_region : ℕ
  pub first_free_addr : ℕ
  pub heap_size : ℕ
  pub consecutive_number : ℕ
  pub frames : ℕ

-- KHEAP_BEGIN, PAGE_SIZE and HEAP_MIN_GROWTH
abbrev pub heap_start : ℕ
heap_start = 0xFD0200000

abbrev pub page_size : ℕ
page_size = 4096

abbrev pub heap_min_growth : ℕ
heap_min_growth = 0x10000

-- the `within` of a call with no flag
abbrev pub anywhere : ℕ
anywhere = 0xFFFFFFFFF

unfoldable pub align_up : ℕ → ℕ → ℕ
align_up val align =
    if align == 0 then val else bit_and ((val + (align - 1)) % 2 ^ 64) (2 ^ 64 - 1 - (align - 1))

unfoldable pub max : ℕ → ℕ → ℕ
max v1 v2 = if ltb v2 v1 then v1 else v2

-- an assignment to the 63 bits of `size`
abbrev pub to_size : ℕ → ℕ
to_size n = n % 2 ^ 63

abbrev pub additional_size : ℕ → ℕ → ℕ
additional_size alignment addr = (align_up addr alignment + 2 ^ 64 - addr) % 2 ^ 64

-- the test of the loop in `kmalloc_imp`
unfoldable pub fits : ℕ → ℕ → ℕ → ℕ → Region → Bool
unfolding align_up
fits size alignment within addr r =
    let more = additional_size alignment addr in
    not r.res && (leb ((size + more) % 2 ^ 64) r.size && leb more (within - addr % within))

-- The second half of the loop's body: the region is cut behind `size` where more is left, and
-- taken. `count` is the length of the table; the result is what stands there, and the address.
unfoldable pub take_region : ℕ → ℕ → ℕ → ℕ → ℕ → ℕ → Region → List Region × ℕ
take_region max_count count number size more addr r =
    if ltb ((size + more) % 2 ^ 64) r.size
    then if leb (count + 1) max_count
      then (region true size number ∷ region false (r.size - size) 0 ∷ [], addr)
      else (r ∷ [], 0)
    else (region true r.size number ∷ [], addr)

-- The body of the loop at a region that fits: where its address is not aligned, the bytes up to
-- the aligned one stay behind as a free region.
unfoldable pub place : ℕ → ℕ → ℕ → ℕ → ℕ → ℕ → Region → List Region × ℕ
unfolding align_up take_region
place max_count count number size alignment addr r =
    let more = additional_size alignment addr in
    if more == 0
    then take_region max_count count number size more addr r
    else if leb max_count count
    then (r ∷ [], 0)
    else (let r' = record r { size = to_size (r.size + 2 ^ 63 - more) } in
        let (rs, a) = take_region max_count (count + 1) number size more (addr + more) r' in
        (region false more r.number ∷ rs, a))

-- The loop, at the regions from index `i` and address `addr` on; and `found` is
-- `found_free`.
unfoldable pub scan :
    ℕ → ℕ → ℕ → ℕ → ℕ → ℕ → ℕ → ℕ → Bool → Hint → List Region → Option (List Region × ℕ) × Hint
unfolding fits place
scan max_count count number size alignment within i addr found hint [] = (none, hint)
scan max_count count number size alignment within i addr found hint (r ∷ rs) =
    let hint' = if r.res || found then hint else hint_at i addr in
    let (out, last) =
      scan max_count count number size alignment within (i + 1) (addr + r.size) (r.res || found)
        hint' rs in
    let (placed, a) = place max_count count number size alignment addr r in
    if fits size alignment within addr r
    then (some (placed ++ rs, a), hint')
    else (elim out [ none ↦ none | some (rs', a') ↦ some (r ∷ rs', a') ], last)

-- what the loop leaves of the heap
unfoldable pub settle : Heap → Option (List Region × ℕ) → Hint → Option ℕ × Heap
settle h none hint =
    (none, record h { first_free_region = hint.index; first_free_addr = hint.addr })
settle h (some (rs, p)) hint = (
  some p,
  record h {
    regions = take h.first_free_region h.regions ++ rs;
    first_free_region = hint.index;
    first_free_addr = hint.addr;
    consecutive_number =
        if p == 0 then h.consecutive_number else (h.consecutive_number + 1) % 2 ^ 64;
  },
)

-- The loop from `first_free_region` on: the address that is returned from it, or `none` where the
-- heap has to grow.
unfoldable pub try_regions : ℕ → ℕ → ℕ → Heap → Option ℕ × Heap
unfolding scan settle
try_regions size alignment within h =
    let (out, hint) =
      scan h.max_count (length h.regions) h.consecutive_number size alignment within
        h.first_free_region h.first_free_addr false (hint_at h.first_free_region h.first_free_addr)
        (drop h.first_free_region h.regions) in
    settle h out hint

pub last_res : List Region → Bool
last_res [] = false
last_res (r ∷ []) = r.res
last_res (r ∷ s ∷ rs) = last_res (s ∷ rs)

-- the last region grows where it is free, and a free one is added otherwise
pub extend_last : ℕ → List Region → List Region
extend_last size [] = region false (to_size size) 0 ∷ []
extend_last size (r ∷ []) =
    if r.res
    then r ∷ region false (to_size size) 0 ∷ []
    else region false (to_size (r.size + size)) r.number ∷ []
extend_last size (r ∷ s ∷ rs) = r ∷ extend_last size (s ∷ rs)

-- `heap_grow`, whose loop takes a block for each page and stops where there is none
unfoldable pub heap_grow : ℕ → Heap → Bool × Heap
unfolding last_res extend_last
heap_grow size h =
    let pages = (size + page_size - 1) / page_size in
    if last_res h.regions && leb h.max_count (length h.regions)
    then (false, h)
    else if ltb h.frames pages
    then (false, record h { frames = 0 })
    else (
      true,
      record h {
        regions = extend_last size h.regions;
        heap_size = (h.heap_size + size) % 2 ^ 64;
        frames = h.frames - pages;
      },
    )

unfoldable pub growth : ℕ → ℕ
unfolding align_up max
growth size = max heap_min_growth (align_up (size * 3 % 2 ^ 64 / 2) page_size)

-- `kmalloc_imp` behind the start, where the table is there. The call at its end, after the heap
-- has grown, has lost the flags; the fuel counts these calls.
unfoldable pub kmalloc_imp : ℕ → ℕ → ℕ → ℕ → Heap → Option (ℕ × Heap)
unfolding align_up try_regions heap_grow growth
kmalloc_imp zero size alignment within h = none
kmalloc_imp (suc fuel) size alignment within h =
    let size' = align_up size alignment in
    let (out, h') = try_regions size' alignment within h in
    elim out [
      | some p ↦ some (p, h')
      | none ↦
          let (ok, h'') = heap_grow (growth size') h' in
          elim ok [ true ↦ kmalloc_imp fuel size' alignment anywhere h'' | false ↦ some (0, h'') ]
    ]

-- `kmalloc`, with fuel for two rounds
unfoldable pub kmalloc : ℕ → Heap → Option (ℕ × Heap)
unfolding kmalloc_imp
kmalloc size h = kmalloc_imp 2 size 0 anywhere h

-- the region `r` given back, and joined with the one behind it where that is free: the move brings
-- every later entry one place forward, where `overruns` below does not hold
pub release : Region → List Region → List Region
release r [] = region false r.size 0 ∷ []
release r (n ∷ rs) =
    if n.res
    then region false r.size 0 ∷ n ∷ rs
    else region false (to_size (r.size + n.size)) 0 ∷ rs

-- what is released, behind the region `p` with the index `i`, and its index when it is joined
-- with that region where it is free
pub join : Region → ℕ → List Region → List Region × ℕ
join p i [] = (p ∷ [], i)
join p i (r ∷ rs) =
    if p.res
    then (p ∷ r ∷ rs, i + 1)
    else (region false (to_size (p.size + r.size)) p.number ∷ rs, i)

-- The loop of `kfree_imp` behind the region `p` with the index `i`, at the address `cur`: the table
-- that is left, and the index of the free region in it.
unfoldable pub free_behind : ℕ → Region → ℕ → ℕ → List Region → Option (List Region × ℕ)
unfolding release join
free_behind addr p i cur [] = none
free_behind addr p i cur (r ∷ rs) =
    let rest = free_behind addr r (i + 1) (cur + r.size) rs in
    if cur == addr && r.res
    then some (join p i (release r rs))
    else elim rest [ none ↦ none | some (rs', j) ↦ some (p ∷ rs', j) ]

unfoldable pub free_region : ℕ → List Region → Option (List Region × ℕ)
unfolding free_behind release
free_region addr [] = none
free_region addr (r ∷ rs) =
    let rest = free_behind addr r 0 (heap_start + r.size) rs in
    if heap_start == addr && r.res then some (release r rs, 0) else rest

abbrev pub next_free : List Region → Bool
next_free [] = false
next_free (n ∷ rs) = not n.res

-- Whether the first move leaves the table, in the loop at the index `i` and the address `cur`: where
-- the region behind the one that is freed is free, the move takes `count - 2` entries from the index
-- `i + 2` on.
unfoldable pub overruns : ℕ → ℕ → ℕ → ℕ → ℕ → List Region → Bool
overruns addr max_count count i cur [] = false
overruns addr max_count count i cur (r ∷ rs) =
    let rest = overruns addr max_count count (i + 1) (cur + r.size) rs in
    if cur == addr && r.res then next_free rs && ltb max_count (i + count) else rest

-- what `kfree` leaves; where an index falls below `first_free_region`, that and its address follow
abbrev pub settled : ℕ → Heap → Option (List Region × ℕ) → Heap
settled addr h none = h
settled addr h (some (rs, i)) = record h {
  regions = rs;
  first_free_region = if ltb i h.first_free_region then i else h.first_free_region;
  first_free_addr = if ltb i h.first_free_region then addr else h.first_free_addr;
}

unfoldable pub kfree : ℕ → Heap → Option Heap
unfolding free_region overruns
kfree addr h =
    if addr == 0
    then some h
    else if overruns addr h.max_count (length h.regions) 0 heap_start h.regions
    then none
    else some (settled addr h (free_region addr h.regions))

-- the loop of `find_allocated_size`
unfoldable pub size_from : ℕ → ℕ → List Region → ℕ
size_from addr cur [] = 0
size_from addr cur (r ∷ rs) =
    let rest = size_from addr (cur + r.size) rs in if cur == addr && r.res then r.size else rest

unfoldable pub find_allocated_size : ℕ → Heap → ℕ
unfolding size_from
find_allocated_size addr h = if addr == 0 then 0 else size_from addr heap_start h.regions

-- `krealloc` copies as many bytes as the old block had to the new one: the third result is that
-- number, or 0 where nothing is copied.
unfoldable pub krealloc : ℕ → ℕ → Heap → Option (ℕ × ℕ × Heap)
unfolding find_allocated_size kmalloc kfree
krealloc addr size h =
    let old = find_allocated_size addr h in
    if old == 0 then some (0, 0, h) else elim (kmalloc size h) [
      | none ↦ none
      | some (new, h') ↦
          if new == 0
          then some (0, 0, h')
          else elim (kfree addr h') [ none ↦ none | some h'' ↦ some (new, old, h'') ]
    ]
