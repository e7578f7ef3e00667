-- ===== src/Heap/Allocate.antt =====
-- `allocate` of src/heap.rs.
use ventura_os.Base.{
  ℕ, true, false, not, Option, none, some, ◌==◌, if◌then◌else◌, add64, not64, bit_and,
}
use ventura_os.Heap.{
  Heap, payload_ptr, walk_fuel, found, corrupted, exhausted, find_fit, take_block,
}
use ventura_os.Mapping.{Kernel}
use ventura_os.Heap.Grow.{expand_heap}

-- `Layout::size()` rounded up to 16.
abbrev pub requested : ℕ → ℕ
requested size = bit_and (add64 size 15) (not64 15)

-- The second loop of `allocate`, on the heap that has grown.
unfoldable pub retry : ℕ → Kernel → Heap → Option (ℕ × Kernel × Heap)
unfolding find_fit take_block
retry need k s = elim (find_fit (walk_fuel s) false need s.ram s.head) [
  | none ↦ none
  | some (found h) ↦ some (payload_ptr h, k, take_block need h s)
  | some corrupted ↦ some (0, k, s)
  | some exhausted ↦ some (0, k, s)
]

-- `NonNull::<u8>::dangling()` is the address 1.
unfoldable pub allocate : ℕ → Kernel → Heap → Option (ℕ × Kernel × Heap)
unfolding find_fit take_block expand_heap retry
allocate size k s =
    let need = requested size in
    if size == 0
    then some (1, k, s)
    else if not s.initialized
    then some (0, k, s)
    else elim (find_fit (walk_fuel s) true need s.ram s.head) [
      | none ↦ none
      | some (found h) ↦ some (payload_ptr h, k, take_block need h s)
      | some corrupted ↦ some (0, k, s)
      | some exhausted ↦ elim (expand_heap need k s) [
        | none ↦ none
        | some (grown, k', s') ↦ if grown then retry need k' s' else some (0, k', s')
      ]
    ]
