-- ===== src/Heap/Expand.antt =====
-- Growing the heap of src/heap.rs keeps its invariant.
use ventura_os.Base.{
  ℕ, ◌+◌, ◌*◌, ◌/◌, ◌^◌, ◌≤◌, ◌<◌, ◌≡◌, subst, ap, Bool, true, false, Option, none, some, List, [],
  ◌∷◌, ◌++◌, ltb, if◌then◌else◌, arith, u64_mod, add64, mul64, sub64, Bool-cases, inl, inr, if_true,
  if_false,
}
use ventura_os.Heap.{Heap, header_size, heap_growth_step_pages}
use ventura_os.Memory.{page_size}
use ventura_os.Regions.{advance_dynamic_cursor}
use ventura_os.Mapping.{Kernel, max_pages}
use ventura_os.Heap.Grow.{add_block, pages_to_alloc, map_expansion, expand_heap}
use ventura_os.Heap.Layout.{Block}
use ventura_os.Heap.Invariant.{IsHeap}
use ventura_os.Heap.Tail.{grown}
use ventura_os.Heap.Attach.{Snoc, add_block-IsHeap, extent-Snoc}

-- What `expand_heap` gives on a heap `s` of the blocks `bs`: it fails and leaves the heap, or the
-- last block grows by enough for the request.
pub data Expanded (needed : ℕ) (s : Heap) (bs : List Block)
    : Option (Bool × Kernel × Heap) → Type 0 where
  failed : (k' : Kernel) → Expanded needed s bs (some (false, k', s))
  expanded :
      (k' : Kernel) (s' : Heap) (pre : List Block) (b : Block) (bytes : ℕ)
      → bs ≡ pre ++ b ∷ []
      → needed + header_size ≤ bytes
      → IsHeap s' (pre ++ grown bytes b)
      → s'.start ≡ s.start
      → Expanded needed s bs (some (true, k', s'))

pages_to_alloc-le :
    (needed : ℕ)
    → needed + 2 ^ 13 < u64_mod
    → (needed + header_size ≤ pages_to_alloc needed * page_size) × (16 ≤ pages_to_alloc needed)
pages_to_alloc-le needed small =
    let sum : sub64 (add64 (add64 needed header_size) page_size) 1 ≡ needed + 4127 =
      omega (arith, small) in
    let pages : pages_to_alloc needed ≡ (
        if ltb heap_growth_step_pages ((needed + 4127) / 4096)
        then (needed + 4127) / 4096
        else heap_growth_step_pages) =
      ap (λ n. if ltb heap_growth_step_pages (n / 4096) then n / 4096 else heap_growth_step_pages)
        sum in
    (rw pages (ground arith), rw pages (ground arith))

module _ (needed : ℕ) (k : Kernel) (s : Heap) (bs : List Block) (w : IsHeap s bs)
    (small : needed + 2 ^ 13 < u64_mod)
    (bound : s.current_end + max_pages * page_size < u64_mod) where
  -- With the pages mapped, the block is added.
  mapped-Expanded :
      (k' : Kernel)
      → pages_to_alloc needed ≤ max_pages
      → Expanded needed s bs (elim (add_block (mul64 (pages_to_alloc needed) page_size) s) [
        | none ↦ none
        | some s' ↦
            some (true, record k' { vmm = advance_dynamic_cursor s'.current_end k'.vmm }, s')
      ])
  mapped-Expanded k' few =
      let (enough, many) = pages_to_alloc-le needed small in
      let bytes : ℕ = mul64 (pages_to_alloc needed) page_size in
      let exact : bytes ≡ pages_to_alloc needed * page_size = omega (arith, few) in
      let snoc : Snoc bs = extent-Snoc bs w.inhabited in
      let (s', e, heap, end_, start) =
        add_block-IsHeap s snoc.pre snoc.last bytes (subst (IsHeap s) snoc.split w)
          (omega (arith, exact)) (omega (arith, exact, many)) (omega (arith, exact, few, bound)) in
      rw e (
        expanded _ s' snoc.pre snoc.last bytes snoc.split (omega (arith, exact, enough)) heap start)

  pub expand_heap-Expanded : Expanded needed s bs (expand_heap needed k s)
  unfolding expand_heap
  expand_heap-Expanded = elim (Bool-cases (ltb max_pages (pages_to_alloc needed))) [
    | inl too_many ↦ rw (if_true _ _ too_many) (failed k)
    | inr few ↦
        rw (if_false _ _ few)
          (elim (Bool-cases (map_expansion (pages_to_alloc needed) s.current_end k).0) [
            | inl mapped ↦ rw (if_true _ _ mapped) (mapped-Expanded _ (ground (arith, few)))
            | inr unmapped ↦ rw (if_false _ _ unmapped) (failed _)
          ])
  ]
