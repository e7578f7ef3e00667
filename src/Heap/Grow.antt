-- ===== src/Heap/Grow.antt =====
-- Growing the heap: `expand_heap` of src/heap.rs.
use ventura_os.Base.{
  ℕ, zero, suc, ◌+◌, ◌/◌, Bool, true, false, ◌&&◌, Option, none, some, [], ltb, ◌==◌, if◌then◌else◌,
  add64, sub64, mul64, update,
}
use ventura_os.Heap.{
  Ram, Heap, header_size, size_at, prev_at, next_at, is_free, heap_growth_step_pages, walk_fuel,
  write_header, absorb_header,
}
use ventura_os.Memory.{page_size}
use ventura_os.Paging.{kernel_data, to_page_flags}
use ventura_os.Regions.{advance_dynamic_cursor}
use ventura_os.Mapping.{Kernel, allocate_pages, free_pages, map_pages, max_pages, with_pmm}

-- The walk to the last block; `none` is out of fuel.
unfoldable pub find_tail : ℕ → Ram → ℕ → Option ℕ
find_tail zero ram curr = none
find_tail (suc fuel) ram curr =
    let rest = find_tail fuel ram (ram (next_at curr)) in
    if (curr == 0) then some curr else if ram (next_at curr) == 0 then some curr else rest

-- Attaching the new block behind `curr`: the memory, and whether it was merged into `curr`.
unfoldable pub attach : ℕ → ℕ → Ram → Bool × Ram
attach curr new_block ram =
    let ram1 = update (update ram (next_at curr) new_block) (prev_at new_block) curr in
    if is_free ram1 curr && ((curr + (header_size + ram1 (size_at curr))) == new_block)
    then (true, absorb_header curr new_block ram1)
    else (false, ram1)

-- The heap once the new block stands behind `curr`, with the memory that `attach` leaves.
unfoldable pub record_growth : ℕ → ℕ → Bool × Ram → Heap → Heap
record_growth expand_bytes curr (coalesced, ram) s =
    let new_payload = sub64 expand_bytes header_size in
    record s {
      head = if curr == 0 then s.current_end else s.head;
      current_end = add64 s.current_end expand_bytes;
      ram = ram;
      stats = record s.stats {
        total_bytes = add64 s.stats.total_bytes expand_bytes;
        free_bytes =
            add64 s.stats.free_bytes
              (if coalesced then add64 new_payload header_size else new_payload);
        expansion_count = add64 s.stats.expansion_count 1;
      };
    }

-- `expand_heap` from the new block on, when its pages are mapped; `none` is out of fuel.
unfoldable pub add_block : ℕ → Heap → Option Heap
unfolding find_tail attach record_growth
add_block expand_bytes s =
    let new_block = s.current_end in
    let ram1 = write_header new_block (sub64 expand_bytes header_size) 0 0 s.ram in
    elim (find_tail (walk_fuel s) ram1 s.head) [
      | none ↦ none
      | some curr ↦ some (
          record_growth expand_bytes curr
            (if curr == 0 then (false, ram1) else attach curr new_block ram1) s)
    ]

abbrev pub pages_to_alloc : ℕ → ℕ
pages_to_alloc needed_bytes =
    let pages_needed = sub64 (add64 (add64 needed_bytes header_size) page_size) 1 / page_size in
    if ltb heap_growth_step_pages pages_needed then pages_needed else heap_growth_step_pages

-- The pages behind `current_end`: whether they are mapped.
unfoldable pub map_expansion : ℕ → ℕ → Kernel → Bool × Kernel
map_expansion pages new_start k =
    let (frames, pmm1) = allocate_pages pages [] k.vm.pmm in
    elim frames [
      | none ↦ (false, record k { vm = with_pmm pmm1 k.vm })
      | some allocated ↦
          let (mapped, vm2) =
            map_pages k.root new_start (to_page_flags kernel_data) 0 allocated
              (with_pmm pmm1 k.vm) in
          if mapped
          then (true, record k { vm = vm2 })
          else (false, record k { vm = with_pmm (free_pages allocated vm2.pmm) vm2 })
    ]

-- The result is out of fuel, or whether the heap has grown.
unfoldable pub expand_heap : ℕ → Kernel → Heap → Option (Bool × Kernel × Heap)
unfolding map_expansion add_block
expand_heap needed_bytes k s =
    let pages = pages_to_alloc needed_bytes in
    if ltb max_pages pages
    then some (false, k, s)
    else (let (mapped, k') = map_expansion pages s.current_end k in
        if mapped
        then elim (add_block (mul64 pages page_size) s) [
          | none ↦ none
          | some s' ↦
              some (true, record k' { vmm = advance_dynamic_cursor s'.current_end k'.vmm }, s')
        ]
        else some (false, k', s))
