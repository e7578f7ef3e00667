-- ===== src/Heap/Verify.antt =====
-- The checks of `verify_invariants` of src/heap.rs pass on a well-formed heap.
use ventura_os.Base.{
  ℕ, zero, suc, ◌+◌, ◌-◌, ◌%◌, ◌≤◌, ◌<◌, ◌≡◌, refl, ◌∙◌, ap, Bool, true, false, not, ◌&&◌, Option,
  none, some, List, [], ◌∷◌, ◌==◌, if◌then◌else◌, arith, u64_mod, sub64, Bool-cases, inl, inr,
  if_true, if_false, ne→==, eq→==, length,
}
use mathlib.Core.Path.{Path}
use ventura_os.Memory.{page_size}
use ventura_os.Regions.{VirtRegion}
use ventura_os.Heap.{
  Ram, Heap, heap_magic, header_size, magic_at, prev_at, payload_ptr, walk_fuel, start_heap,
}
use ventura_os.Heap.Check.{
  Sums, Walk, sums, count_block, verify_blocks, compare_sums, Verdict, failed, passed,
  verify_invariants,
}
use ventura_os.Heap.Layout.{Block, free_block, extent, free_sum, used_sum, link, Header, Seg}
use ventura_os.Heap.Header.{write_header-Header}
use ventura_os.Heap.Invariant.{IsHeap, head-link, walk_fuel_enough}

-- The sums with those of the blocks added.
abbrev with_blocks : List Block → Sums → Sums
with_blocks bs c = record {
  total = c.total + extent bs;
  free = c.free + free_sum bs;
  alloc = c.alloc + used_sum bs;
}

Sums_ext :
    {t t' f f' a a' : ℕ}
    → t ≡ t'
    → f ≡ f'
    → a ≡ a'
    → Path Sums
        (record { total = t; free = f; alloc = a })
        (record { total = t'; free = f'; alloc = a' })
Sums_ext {t} {t'} {f} {f'} {a} {a'} et ef ea =
    ap (λ x. record { total = x; free = f; alloc = a }) et
    ∙ ap (λ x. record { total = t'; free = x; alloc = a }) ef
    ∙ ap (λ x. record { total = t'; free = f'; alloc = x }) ea

count_block-with :
    (ram : Ram) (prev a next : ℕ) (b : Block) (c : Sums)
    → Header ram a b prev next
    → c.total + (header_size + b.size) < u64_mod
    → c.free + c.alloc ≤ c.total
    → count_block ram a c ≡ with_blocks (b ∷ []) c
unfolding count_block
count_block-with ram prev a next b c h bound small = elim (Bool-cases b.free) [
  | inl free ↦
      Sums_ext (rw h.size (omega (arith, bound)))
        (if_true _ _ (h.free ∙ free) ∙ rw (h.size, free) (omega (arith, bound, small)))
        (if_true _ _ (h.free ∙ free) ∙ rw free (omega arith))
  | inr used ↦
      Sums_ext (rw h.size (omega (arith, bound)))
        (if_false _ _ (h.free ∙ used) ∙ rw used (omega arith))
        (if_false _ _ (h.free ∙ used) ∙ rw (h.size, used) (omega (arith, bound, small)))
]

-- The link back from the next block holds.
pointers_match :
    (ram : Ram) (a n : ℕ) (bs : List Block)
    → Seg ram a n bs 0
    → (not (link n bs 0 == 0) && not (ram (prev_at (link n bs 0)) == a)) ≡ false
pointers_match ram a n [] s = refl
pointers_match ram a n (b ∷ bs) (h, size, s) =
    rw (eq→== (ram (prev_at n)) a h.prev) (and_false (not (n == 0)))
  where
    and_false : (x : Bool) → (x && false) ≡ false
    and_false true = refl
    and_false false = refl

one_sum : (n : ℕ) (f : Bool) → (if f then n else 0) + (if f then 0 else n) ≡ n
one_sum n true = omega arith
one_sum n false = omega arith

verify_blocks-all :
    (fuel : ℕ) (ram : Ram) (prev a : ℕ) (bs : List Block) (c : Sums)
    → 0 < a
    → a % 16 ≡ 0
    → length bs < fuel
    → c.total + extent bs < u64_mod
    → c.free + c.alloc ≤ c.total
    → Seg ram prev a bs 0
    → verify_blocks fuel ram (link a bs 0) c ≡ some (sums (with_blocks bs c))
unfolding verify_blocks
verify_blocks-all zero ram prev a bs c pos aligned enough bound small s =
    absurd (omega (arith, enough))
verify_blocks-all (suc fuel) ram prev a [] c pos aligned enough bound small s =
    ap (λ x. some (sums x)) (Sums_ext (omega arith) (omega arith) (omega arith))
verify_blocks-all (suc fuel) ram prev a (b ∷ bs) c pos aligned enough bound small (h, size, s) =
    let n : ℕ = a + header_size + b.size in
    let counted : count_block ram a c ≡ with_blocks (b ∷ []) c =
      count_block-with ram prev a _ b c h (omega (arith, bound)) small in
    let more : (if b.free then b.size else 0) + (if b.free then 0 else b.size) ≡ b.size =
      one_sum b.size b.free in
    if_false _ _ (ne→== a 0 (λ e. absurd (omega (arith, e, pos))))
    ∙ if_false _ _ (ap not (eq→== (ram (magic_at a)) heap_magic h.magic))
    ∙ if_false _ _
        (ap (λ x. not (x == 0) && not (ram (prev_at x) == a)) h.next ∙ pointers_match ram a n bs s)
    ∙ if_false _ _ (ap not (eq→== (payload_ptr a % 16) 0 (omega (arith, aligned))))
    ∙ ap (λ x. verify_blocks fuel ram x (count_block ram a c)) h.next
    ∙ ap (λ x. verify_blocks fuel ram (link n bs 0) x) counted
    ∙ verify_blocks-all fuel ram a n bs (with_blocks (b ∷ []) c) (omega (arith, pos))
        (omega (arith, aligned, size)) (omega (arith, enough)) (omega (arith, bound))
        (omega (arith, small, more)) s
    ∙ ap (λ x. some (sums x)) (Sums_ext (omega arith) (omega arith) (omega arith))

-- On a well-formed heap every check of `verify_invariants` passes.
pub verify_invariants-IsHeap :
    (s : Heap) (bs : List Block) → IsHeap s bs → verify_invariants s ≡ some passed
unfolding verify_invariants compare_sums
verify_invariants-IsHeap s bs w =
    let c : Sums = record { total = 0; free = 0; alloc = 0 } in
    let after : Option Walk → Option Verdict = λ o. elim o [
      | none ↦ none
      | some (failed v) ↦ some v
      | some (sums x) ↦ some (compare_sums s.stats x)
    ] in
    if_false _ _ (ap not w.ready)
    ∙ ap (λ h. after (verify_blocks (walk_fuel s) s.ram h c)) (head-link s bs w)
    ∙ ap after (
        verify_blocks-all (walk_fuel s) s.ram 0 s.start bs c w.low w.aligned
          (walk_fuel_enough s bs w) (omega (arith, w.whole, w.high)) (omega arith) w.list)
    ∙ ap (λ x. some x)
        (if_false _ _ (ap not (eq→== (0 + extent bs) s.stats.total_bytes (omega (arith, w.total))))
          ∙ if_false _ _
              (ap not (eq→== (0 + free_sum bs) s.stats.free_bytes (omega (arith, w.free))))
          ∙ if_false _ _
              (ap not (eq→== (0 + used_sum bs) s.stats.allocated_bytes (omega (arith, w.used)))))

-- The heap that `init` makes of a region of whole pages is well formed: one free block fills it.
pub start_heap-IsHeap :
    (region : VirtRegion) (bytes : ℕ) (s : Heap)
    → region.size_bytes ≡ bytes
    → 0 < region.start
    → region.start % page_size ≡ 0
    → bytes % page_size ≡ 0
    → 0 < bytes
    → region.start + bytes < u64_mod
    → IsHeap (start_heap region bytes s) (free_block (bytes - header_size) ∷ [])
unfolding start_heap
start_heap-IsHeap region bytes s size low aligned whole pos bound =
    let payload : sub64 bytes header_size ≡ bytes - header_size =
      omega (arith, whole, pos, bound) in
    record {
      list = rw payload (
        write_header-Header region.start (bytes - header_size) 0 0 s.ram,
        omega (arith, whole, pos),
        tt,
      );
      first = refl;
      whole = omega (arith, size, whole, pos, bound);
      inhabited = omega arith;
      low = low;
      aligned = omega (arith, aligned);
      high = omega (arith, size, bound);
      ready = refl;
      total = omega (arith, whole, pos);
      free = omega (arith, payload);
      used = refl;
    }
