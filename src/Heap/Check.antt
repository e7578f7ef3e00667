-- ===== src/Heap/Check.antt =====
-- `stats` and `verify_invariants` of src/heap.rs.
use ventura_os.Base.{ℕ, zero, suc, ◌%◌, not, ◌&&◌, Option, none, some, ◌==◌, if◌then◌else◌, add64}
use ventura_os.Heap.{
  Ram, Heap, HeapStats, heap_magic, header_size, magic_at, size_at, prev_at, next_at, is_free,
  payload_ptr, walk_fuel,
}

unfoldable pub stats : Heap → HeapStats
stats s = record {
  total_bytes = s.stats.total_bytes;
  allocated_bytes = s.stats.allocated_bytes;
  free_bytes = s.stats.free_bytes;
  allocation_count = s.stats.allocation_count;
  free_count = s.stats.free_count;
  expansion_count = s.stats.expansion_count;
}

-- `Ok`, or the message of the `Err`.
pub data Verdict : Type 0 where
  passed : Verdict
  not_initialized : Verdict
  magic_corruption : Verdict
  pointer_mismatch : Verdict
  unaligned : Verdict
  total_mismatch : Verdict
  free_mismatch : Verdict
  allocated_mismatch : Verdict

-- The sums that the walk calculates.
pub record Sums : Type 0 where
  pub total : ℕ
  pub free : ℕ
  pub alloc : ℕ

unfoldable pub count_block : Ram → ℕ → Sums → Sums
count_block ram curr c =
    let size = ram (size_at curr) in
    record {
      total = add64 c.total (add64 header_size size);
      free = if is_free ram curr then add64 c.free size else c.free;
      alloc = if is_free ram curr then c.alloc else add64 c.alloc size;
    }

-- What the walk ends with: the sums, or an error.
pub data Walk : Type 0 where
  sums : Sums → Walk
  failed : Verdict → Walk

-- `none` is out of fuel.
unfoldable pub verify_blocks : ℕ → Ram → ℕ → Sums → Option Walk
unfolding count_block
verify_blocks zero ram curr c = none
verify_blocks (suc fuel) ram curr c =
    let next = ram (next_at curr) in
    let rest = verify_blocks fuel ram next (count_block ram curr c) in
    if curr == 0
    then some (sums c)
    else if not (ram (magic_at curr) == heap_magic)
    then some (failed magic_corruption)
    else if not (next == 0) && not (ram (prev_at next) == curr)
    then some (failed pointer_mismatch)
    else if not (payload_ptr curr % 16 == 0)
    then some (failed unaligned)
    else rest

unfoldable pub compare_sums : HeapStats → Sums → Verdict
compare_sums st c =
    if not (c.total == st.total_bytes)
    then total_mismatch
    else if not (c.free == st.free_bytes)
    then free_mismatch
    else if not (c.alloc == st.allocated_bytes)
    then allocated_mismatch
    else passed

unfoldable pub verify_invariants : Heap → Option Verdict
unfolding verify_blocks compare_sums
verify_invariants s =
    if not s.initialized
    then some not_initialized
    else elim (verify_blocks (walk_fuel s) s.ram s.head
        (record { total = 0; free = 0; alloc = 0 })) [
          | none ↦ none
          | some (failed v) ↦ some v
          | some (sums c) ↦ some (compare_sums s.stats c)
        ]
