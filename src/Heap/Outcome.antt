-- ===== src/Heap/Outcome.antt =====
-- All that `allocate` of src/heap.rs can give, with the heap that has to grow.
use ventura_os.Base.{
  ℕ, ◌+◌, ◌-◌, ◌*◌, ◌%◌, ◌^◌, ◌≤◌, ◌<◌, ◌≡◌, refl, sym, subst, ◌∙◌, ap, Bool, true, false, ◌⊎◌,
  Option, none, some, List, [], ◌∷◌, ◌++◌, if◌then◌else◌, arith, u64_mod, Bool-cases, inl, inr,
  if_true, if_false,
}
use ventura_os.Memory.{page_size}
use ventura_os.Mapping.{Kernel, max_pages}
use ventura_os.Heap.{Ram, Heap, header_size, payload_ptr, walk_fuel, exhausted, find_fit}
use ventura_os.Heap.Grow.{expand_heap}
use ventura_os.Heap.Allocate.{requested, retry, allocate}
use ventura_os.Heap.Layout.{Block, free_block, used_block, extent, extent-append, Seg}
use ventura_os.Heap.Invariant.{IsHeap, head-link, walk_fuel_enough}
use ventura_os.Heap.Find.{fits, any_fits, FirstFit, any_fits-FirstFit, find_fit_miss}
use ventura_os.Heap.Take.{Taken, taken, fits-parts, roomy}
use ventura_os.Heap.Tail.{grown}
use ventura_os.Heap.Expand.{Expanded, failed, expanded, expand_heap-Expanded}
use ventura_os.Heap.Alloc.{
  allocate-exhausted, find_fit-FirstFit, take_first-Taken, requested_whole, requested-le,
  taken_first,
}

-- `p` is the payload of a block in use, of `size` bytes at least.
pub record Payload (size p : ℕ) (s : Heap) (bs : List Block) : Type 0 where
  pub pre : List Block
  pub room : ℕ
  pub post : List Block
  pub split : bs ≡ pre ++ used_block room ∷ post
  pub place : p ≡ payload_ptr (s.start + extent pre)
  pub enough : size ≤ room

Seg-whole :
    (ram : Ram) (prev a : ℕ) (bs : List Block) (nxt : ℕ)
    → Seg ram prev a bs nxt
    → extent bs % 16 ≡ 0
Seg-whole ram prev a [] nxt s = refl
Seg-whole ram prev a (b ∷ bs) nxt (h, size, s) =
    omega (arith, size, Seg-whole ram a (a + header_size + b.size) bs nxt s)

Seg-left :
    (ram : Ram) (prev a : ℕ) (xs ys : List Block) → Seg ram prev a (xs ++ ys) 0 → extent xs % 16 ≡ 0
Seg-left ram prev a [] ys s = refl
Seg-left ram prev a (x ∷ xs) ys (h, size, s) =
    omega (arith, size, Seg-left ram a (a + header_size + x.size) xs ys s)

-- Such a payload is aligned to 16 bytes and lies in the heap.
pub Payload-bounds :
    (size p : ℕ) (s : Heap) (bs : List Block)
    → IsHeap s bs
    → Payload size p s bs
    → (p % 16 ≡ 0) × (s.start + header_size ≤ p) × (p + size ≤ s.current_end)
Payload-bounds size p s bs w l =
    let whole : extent l.pre % 16 ≡ 0 =
      Seg-left s.ram 0 s.start l.pre (used_block l.room ∷ l.post)
        (subst (λ c. Seg s.ram 0 s.start c 0) l.split w.list) in
    let total : extent bs ≡ extent l.pre + (header_size + l.room + extent l.post) =
      ap extent l.split ∙ extent-append l.pre (used_block l.room ∷ l.post) in
    (
      omega (arith, l.place, whole, w.aligned),
      omega (arith, l.place),
      omega (arith, l.place, l.enough, total, w.whole),
    )

taken-Payload :
    (size need : ℕ) (s s' : Heap) (h fin : ℕ) (pre : List Block) (b : Block) (post : List Block)
    → size ≤ need
    → fits need b ≡ true
    → Taken s s' h fin (pre ++ taken need b post)
    → Payload size (payload_ptr (s.start + extent pre)) s' (pre ++ taken need b post)
taken-Payload size need s s' h fin pre b post le fit t =
    let (free, large) = fits-parts need b fit in
    let place : payload_ptr (s.start + extent pre) ≡ payload_ptr (s'.start + extent pre) =
      ap (λ a. payload_ptr (a + extent pre)) (sym t.same_place.0) in
    elim (Bool-cases (roomy need b)) [
      | inl room ↦ record {
        pre = pre;
        room = need;
        post = free_block (b.size - need - header_size) ∷ post;
        split = ap (λ l. pre ++ l) (if_true _ _ room);
        place = place;
        enough = le;
      }
      | inr tight ↦ record {
        pre = pre;
        room = b.size;
        post = post;
        split = ap (λ l. pre ++ l) (if_false _ _ tight);
        place = place;
        enough = omega (arith, le, large);
      }
    ]

-- What `allocate` can give on a heap of the blocks `bs`.
pub data Outcome (size : ℕ) (k : Kernel) (s : Heap) (bs : List Block)
    : Option (ℕ × Kernel × Heap) → Type 0 where
  served :
      (p : ℕ) (k' : Kernel) (s' : Heap) (bs' : List Block)
      → IsHeap s' bs'
      → Payload size p s' bs'
      → Outcome size k s bs (some (p, k', s'))
  refused :
      (k' : Kernel)
      → any_fits (requested size) bs ≡ false
      → expand_heap (requested size) k s ≡ some (false, k', s)
      → Outcome size k s bs (some (0, k', s))

any_fits-right :
    (need : ℕ) (xs ys : List Block) → any_fits need ys ≡ true → any_fits need (xs ++ ys) ≡ true
any_fits-right need [] ys h = h
any_fits-right need (x ∷ xs) ys h = elim (Bool-cases (fits need x)) [
  | inl fit ↦ rw fit
  | inr unfit ↦ rw unfit (any_fits-right need xs ys h)
]

any_fits-grown :
    (need bytes n : ℕ) (f : Bool)
    → need + header_size ≤ bytes
    → any_fits need (grown bytes (record { size = n; free = f })) ≡ true
any_fits-grown need bytes n true le = ground (arith, le)
any_fits-grown need bytes n false le = ground (arith, le)

-- On the heap that has grown, the second walk finds a block.
retry-Outcome :
    (size : ℕ) (k : Kernel) (s : Heap) (bs : List Block) (k' : Kernel) (s1 : Heap)
    (bs1 : List Block)
    → size + 15 < u64_mod
    → IsHeap s1 bs1
    → any_fits (requested size) bs1 ≡ true
    → Outcome size k s bs (retry (requested size) k' s1)
unfolding retry
retry-Outcome size k s bs k' s1 bs1 small w any =
    let f : FirstFit (requested size) bs1 = any_fits-FirstFit (requested size) bs1 any in
    let t : Taken s1 _ _ _ _ =
      take_first-Taken (requested size) s1 bs1 w f (requested_whole size small) in
    rw (retry, find_fit-FirstFit false (requested size) s1 bs1 w f)
      (served _ k' _ _ t.heap (
        taken-Payload size (requested size) s1 _ _ _ f.pre f.block f.post
          (requested-le size small).0 f.fit t))

module _ (k : Kernel) (s : Heap) (size : ℕ) (bs : List Block) (w : IsHeap s bs) (pos : 0 < size)
    (small : size + 2 ^ 14 < u64_mod)
    (bound : s.current_end + max_pages * page_size < u64_mod) where
  by_expansion :
      any_fits (requested size) bs ≡ false
      → (o : Option (Bool × Kernel × Heap)) → expand_heap (requested size) k s ≡ o
      → Expanded (requested size) s bs o
      → Outcome size k s bs (elim o [
        | none ↦ none
        | some (grew, k', s') ↦ if grew then retry (requested size) k' s' else some (0, k', s')
      ])
  by_expansion none_fits _ e (failed k') = refused k' none_fits e
  by_expansion none_fits _ e (expanded k' s' pre b bytes split enough heap start) =
      retry-Outcome size k s bs k' s' (pre ++ grown bytes b) (omega (arith, small)) heap (
        any_fits-right (requested size) pre (grown bytes b)
          (any_fits-grown (requested size) bytes b.size b.free enough))

  pub allocate-Outcome : Outcome size k s bs (allocate size k s)
  allocate-Outcome = elim (Bool-cases (any_fits (requested size) bs)) [
    | inl any ↦
        let f : FirstFit (requested size) bs = any_fits-FirstFit (requested size) bs any in
        let (s', e, t) = taken_first k s size bs w pos (omega (arith, small)) f in
        rw e (
          served _ k s' _ t.heap (
            taken-Payload size (requested size) s s' _ _ f.pre f.block f.post
              (requested-le size (omega (arith, small))).0 f.fit t))
    | inr none_fits ↦
        let missed : find_fit (walk_fuel s) true (requested size) s.ram s.head ≡ some exhausted =
          ap (λ h. find_fit (walk_fuel s) true (requested size) s.ram h) (head-link s bs w)
          ∙ find_fit_miss true (requested size) s.ram (walk_fuel s) 0 s.start bs w.low
              (walk_fuel_enough s bs w) none_fits w.list in
        subst (Outcome size k s bs) (sym (allocate-exhausted k s size bs w pos missed)) (
          by_expansion none_fits (expand_heap (requested size) k s) refl (
            expand_heap-Expanded (requested size) k s bs w
              (omega (arith, (requested-le size (omega (arith, small))).1, small)) bound))
  ]

-- `allocate` of a positive size on a well-formed heap ends, and keeps it well formed. A pointer
-- that is not null is aligned to 16 bytes and has `size` bytes of the heap behind it.
pub allocate_bounds :
    (k : Kernel) (s : Heap) (size : ℕ) (bs : List Block)
    → IsHeap s bs
    → 0 < size
    → size + 2 ^ 14 < u64_mod
    → s.current_end + max_pages * page_size < u64_mod
    → (p : ℕ) × (k' : Kernel) × (s' : Heap) × (bs' : List Block) × (allocate size k s
        ≡ some (p, k', s'))
      × IsHeap s' bs'
      × ((p ≡ 0) ⊎ ((p % 16 ≡ 0) × (s'.start + header_size ≤ p) × (p + size ≤ s'.current_end)))
allocate_bounds k s size bs w pos small bound =
    by_outcome (allocate size k s) refl (allocate-Outcome k s size bs w pos small bound)
  where
    by_outcome :
        (o : Option (ℕ × Kernel × Heap))
        → allocate size k s ≡ o
        → Outcome size k s bs o
        → (p : ℕ) × (k' : Kernel) × (s' : Heap) × (bs' : List Block) × (allocate size k s
            ≡ some (p, k', s'))
          × IsHeap s' bs'
          × ((p ≡ 0) ⊎ ((p % 16 ≡ 0) × (s'.start + header_size ≤ p) × (p + size ≤ s'.current_end)))
    by_outcome _ e (served p k' s' bs' heap payload) =
        (p, k', s', bs', e, heap, inr (Payload-bounds size p s' bs' heap payload))
    by_outcome _ e (refused k' none_fits failure) = (0, k', s, bs, e, w, inl refl)

-- On a well-formed heap, `allocate` of a positive size gives null only if no free block is large
-- enough and the heap could not grow; the heap is then as it was.
pub allocate_null :
    (k k' : Kernel) (s s' : Heap) (size : ℕ) (bs : List Block)
    → IsHeap s bs
    → 0 < size
    → size + 2 ^ 14 < u64_mod
    → s.current_end + max_pages * page_size < u64_mod
    → allocate size k s ≡ some (0, k', s')
    → (any_fits (requested size) bs ≡ false)
      × (expand_heap (requested size) k s ≡ some (false, k', s))
      × (s' ≡ s)
allocate_null k k' s s' size bs w pos small bound null =
    by_outcome (allocate size k s) null (allocate-Outcome k s size bs w pos small bound)
  where
    by_outcome :
        (o : Option (ℕ × Kernel × Heap))
        → o ≡ some (0, k', s')
        → Outcome size k s bs o
        → (any_fits (requested size) bs ≡ false)
          × (expand_heap (requested size) k s ≡ some (false, k', s))
          × (s' ≡ s)
    by_outcome _ e (served p k1 s1 bs1 heap payload) =
        let same : p ≡ 0 = ap (λ o. elim o [ none ↦ 0 | some r ↦ r.0 ]) e in
        absurd (omega (arith, same, (Payload-bounds size p s1 bs1 heap payload).1))
    by_outcome _ e (refused k1 none_fits failure) =
        let same_k : k1 ≡ k' = ap (λ o. elim o [ none ↦ k1 | some r ↦ r.1 ]) e in
        let same_s : s ≡ s' = ap (λ o. elim o [ none ↦ s | some r ↦ r.2 ]) e in
        (none_fits, failure ∙ ap (λ x. some (false, x, s)) same_k, sym same_s)
