-- ===== src/Heap/Release.antt =====
-- `deallocate` of src/heap.rs.
use ventura_os.Base.{
  ℕ, ◌+◌, not, ◌&&◌, ltb, leb, ◌==◌, if◌then◌else◌, add64, saturating_sub, update,
}
use ventura_os.Heap.{
  Ram, Heap, heap_magic, header_size, magic_at, is_free_at, size_at, prev_at, next_at, is_free,
  payload_ptr, from_payload_ptr, absorb_header,
}

-- `write_bytes(ptr, 0xDE, count)`
abbrev pub poison : ℕ → ℕ → Ram → Ram
poison ptr count ram x = if leb ptr x && ltb x (ptr + count) then 0xDE else ram x

abbrev pub add_free : ℕ → Heap → Heap
add_free n s = record s { stats = record s.stats { free_bytes = add64 s.stats.free_bytes n } }

-- The block at `h` is poisoned and free.
unfoldable pub release : ℕ → Heap → Heap
release h s =
    let size = s.ram (size_at h) in
    record s {
      ram = update (poison (payload_ptr h) size s.ram) (is_free_at h) 1;
      stats = record s.stats {
        allocated_bytes = saturating_sub s.stats.allocated_bytes size;
        free_bytes = add64 s.stats.free_bytes size;
        free_count = add64 s.stats.free_count 1;
      };
    }

-- The block at `h` absorbs the block at `n`, which follows it.
abbrev pub absorb_block : ℕ → ℕ → Heap → Heap
absorb_block h n s = add_free header_size (record s { ram = absorb_header h n s.ram })

unfoldable pub merge_next : ℕ → Heap → Heap
merge_next h s =
    let next = s.ram (next_at h) in
    if not (next == 0) && is_free s.ram next then absorb_block h next s else s

unfoldable pub merge_prev : ℕ → Heap → Heap
merge_prev h s =
    let prev = s.ram (prev_at h) in
    if not (prev == 0) && is_free s.ram prev then absorb_block prev h s else s

unfoldable pub deallocate : ℕ → ℕ → Heap → Heap
unfolding release merge_next merge_prev
deallocate ptr size s =
    let h = from_payload_ptr ptr in
    if (ptr == 0)
    then s
    else if size == 0
    then s
    else if not s.initialized
    then s
    else if not (s.ram (magic_at h) == heap_magic)
    then s
    else if is_free s.ram h
    then s
    else merge_prev h (merge_next h (release h s))
