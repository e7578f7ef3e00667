-- ===== src/Heap.antt =====
-- The kernel heap: src/heap.rs. The memory behind it is `ram`, a word for each address at which
-- the code reads or writes a field, so a header at `h` has its magic at `h`, `is_free` (0 or 1) at
-- `h + 4`, `size` at `h + 8`, `prev` at `h + 16` and `next` at `h + 24`, as `repr(C, align(16))`
-- lays it out; a null pointer is 0. Pointer offsets do not wrap. A walk along the list is on fuel,
-- one more than the headers that fit between `start` and `current_end`; `none` is out of fuel.
pub mod Grow
pub mod Allocate
pub mod Release
pub mod Check
pub mod Layout
pub mod Header
pub mod Edit
pub mod Invariant
pub mod Find
pub mod Take
pub mod Tail
pub mod Attach
pub mod Expand
pub mod Alloc
pub mod Outcome
pub mod Held
pub mod Merge
pub mod Free
pub mod Verify
pub mod RoundTrip
mod Tests
use ventura_os.Base.{
  ℕ, zero, suc, ◌+◌, ◌-◌, ◌*◌, ◌/◌, ◌%◌, ◌^◌, Bool, true, false, not, ◌&&◌, Option, none, some, [],
  ltb, leb, ◌==◌, if◌then◌else◌, add64, sub64, mul64, not64, bit_and, saturating_sub, update,
}
use ventura_os.Memory.{page_size}
use ventura_os.Paging.{kernel_data, to_page_flags}
use ventura_os.Regions
use ventura_os.Regions.{VirtRegion, dynamic_kernel, region_end, advance_dynamic_cursor}
use ventura_os.Mapping.{
  Kernel, allocate_pages, free_pages, map_pages, max_pages, with_pmm, allocate_and_map_region,
}

abbrev pub heap_magic : ℕ
heap_magic = 0x5645_4E54

abbrev pub heap_initial_pages : ℕ
heap_initial_pages = 32

abbrev pub heap_growth_step_pages : ℕ
heap_growth_step_pages = 16

abbrev pub min_block_payload : ℕ
min_block_payload = 16

abbrev pub header_size : ℕ
header_size = 32

abbrev pub Ram : Type 0
Ram = ℕ → ℕ

abbrev pub magic_at : ℕ → ℕ
magic_at h = h

abbrev pub is_free_at : ℕ → ℕ
is_free_at h = h + 4

abbrev pub size_at : ℕ → ℕ
size_at h = h + 8

abbrev pub prev_at : ℕ → ℕ
prev_at h = h + 16

abbrev pub next_at : ℕ → ℕ
next_at h = h + 24

abbrev pub is_free : Ram → ℕ → Bool
is_free ram h = not (ram (is_free_at h) == 0)

-- `payload_ptr` and `from_payload_ptr`
abbrev pub payload_ptr : ℕ → ℕ
payload_ptr h = h + header_size

abbrev pub from_payload_ptr : ℕ → ℕ
from_payload_ptr ptr = sub64 ptr header_size

pub record HeapStats : Type 0 where
  pub total_bytes : ℕ
  pub allocated_bytes : ℕ
  pub free_bytes : ℕ
  pub allocation_count : ℕ
  pub free_count : ℕ
  pub expansion_count : ℕ

-- HEAP_STATE and the memory.
pub record Heap : Type 0 where
  pub start : ℕ
  pub current_end : ℕ
  pub head : ℕ
  pub stats : HeapStats
  pub initialized : Bool
  pub ram : Ram

abbrev pub walk_fuel : Heap → ℕ
walk_fuel s = suc ((s.current_end - s.start) / header_size)

-- The five writes of a free block's header.
abbrev pub write_header : ℕ → ℕ → ℕ → ℕ → Ram → Ram
write_header h size prev next ram =
    update
      (update
        (update (update (update ram (magic_at h) heap_magic) (is_free_at h) 1) (size_at h) size)
        (prev_at h) prev)
      (next_at h) next

-- `if !(*h).next.is_null() { (*(*h).next).prev = p }`, where the pointer `next` has been read.
abbrev pub link_back : ℕ → ℕ → Ram → Ram
link_back next p ram = if next == 0 then ram else update ram (prev_at next) p

-- The header at `h` absorbs that at `n`, which follows it.
abbrev pub absorb_header : ℕ → ℕ → Ram → Ram
absorb_header h n ram =
    let ram1 =
      update ram (size_at h) (add64 (ram (size_at h)) (add64 header_size (ram (size_at n)))) in
    let next = ram1 (next_at n) in link_back next h (update ram1 (next_at h) next)

-- The first block of `init`, over a region of `initial_bytes`.
unfoldable pub start_heap : VirtRegion → ℕ → Heap → Heap
start_heap region initial_bytes s = record {
  start = region.start;
  current_end = region_end region;
  head = region.start;
  stats = record {
    total_bytes = initial_bytes;
    allocated_bytes = 0;
    free_bytes = sub64 initial_bytes header_size;
    allocation_count = s.stats.allocation_count;
    free_count = s.stats.free_count;
    expansion_count = s.stats.expansion_count;
  };
  initialized = true;
  ram = write_header region.start (sub64 initial_bytes header_size) 0 0 s.ram;
}

-- `none` is the halt on a failed mapping.
unfoldable pub init : Kernel → Heap → Option (Kernel × Heap)
unfolding start_heap
init k s =
    if s.initialized
    then some (k, s)
    else (let initial_bytes = heap_initial_pages * page_size in
        let (reservation, k') =
          allocate_and_map_region initial_bytes kernel_data dynamic_kernel k in
        elim reservation [
          | Regions.err _ ↦ none
          | Regions.ok region ↦ some (k', start_heap region initial_bytes s)
        ])

-- What a walk along the list finds.
pub data Search : Type 0 where
  found : ℕ → Search
  corrupted : Search
  exhausted : Search

-- The loops of `allocate`; only the first looks at the magic.
unfoldable pub find_fit : ℕ → Bool → ℕ → Ram → ℕ → Option Search
find_fit zero check need ram curr = none
find_fit (suc fuel) check need ram curr =
    let rest = find_fit fuel check need ram (ram (next_at curr)) in
    if curr == 0
    then some exhausted
    else if check && not (ram (magic_at curr) == heap_magic)
    then some corrupted
    else if is_free ram curr && leb need (ram (size_at curr))
    then some (found curr)
    else rest

-- The header at `h`, whose block has `remaining` bytes to spare, split behind `need` bytes.
abbrev pub split_header : ℕ → ℕ → ℕ → Ram → Ram
split_header need remaining h ram =
    let next_block = h + header_size + need in
    let ram1 = write_header next_block (remaining - header_size) h (ram (next_at h)) ram in
    let ram2 = link_back (ram1 (next_at h)) next_block ram1 in
    update (update ram2 (next_at h) next_block) (size_at h) need

unfoldable pub split_block : ℕ → ℕ → ℕ → Heap → Heap
split_block need remaining h s = record s {
  ram = split_header need remaining h s.ram;
  stats = record s.stats { free_bytes = saturating_sub s.stats.free_bytes header_size };
}

unfoldable pub mark_used : ℕ → Heap → Heap
mark_used h s =
    let size = s.ram (size_at h) in
    record s {
      ram = update s.ram (is_free_at h) 0;
      stats = record s.stats {
        allocated_bytes = add64 s.stats.allocated_bytes size;
        free_bytes = saturating_sub s.stats.free_bytes size;
        allocation_count = add64 s.stats.allocation_count 1;
      };
    }

-- Taking the block at `h`, which is free and large enough.
unfoldable pub take_block : ℕ → ℕ → Heap → Heap
unfolding split_block mark_used
take_block need h s =
    let remaining = s.ram (size_at h) - need in
    mark_used h (
      if leb (header_size + min_block_payload) remaining then split_block need remaining h s else s)
