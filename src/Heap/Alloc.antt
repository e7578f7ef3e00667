-- ===== src/Heap/Alloc.antt =====
-- What `allocate` of src/heap.rs gives, and that it keeps the invariant.
use ventura_os.Base.{
  ℕ, ◌+◌, ◌-◌, ◌*◌, ◌/◌, ◌%◌, ◌^◌, ◌≤◌, ◌<◌, ◌≡◌, subst, ◌∙◌, ap, Bool, true, not, ◌⊎◌, none, some,
  List, ◌∷◌, ◌++◌, if◌then◌else◌, arith, u64_mod, add64, if_false, ne→==, length, length-append,
}
use ventura_os.Base.Bits.{bit_and-shifted, bit_and-mask}
use ventura_os.Mapping.{Kernel}
use ventura_os.Heap.{
  Heap, header_size, payload_ptr, walk_fuel, found, exhausted, find_fit, take_block,
}
use ventura_os.Heap.Grow.{expand_heap}
use ventura_os.Heap.Allocate.{requested, retry, allocate}
use ventura_os.Heap.Layout.{Block, extent, Seg}
use ventura_os.Heap.Invariant.{IsHeap, walk_fuel_enough}
use ventura_os.Heap.Find.{FirstFit, find_fit_hit}
use ventura_os.Heap.Take.{Taken, taken, take_block-Taken, fits-parts}
use ventura_os.Heap.Held.{Held, Held-outside}

-- The request is rounded up to a multiple of 16.
pub requested_eq : (size : ℕ) → size + 15 < u64_mod → requested size ≡ (size + 15) / 16 * 16
requested_eq size small =
    let whole : add64 size 15 ≡ size + 15 = omega (arith, small) in
    rw whole (
      bit_and-shifted 4 (size + 15) (2 ^ 60 - 1)
      ∙ ap (λ q. q * 16) (bit_and-mask 60 ((size + 15) / 16))
      ∙ omega (arith, small))

pub requested_whole : (size : ℕ) → size + 15 < u64_mod → requested size % 16 ≡ 0
requested_whole size small = omega (arith, requested_eq size small)

pub requested-le :
    (size : ℕ) → size + 15 < u64_mod → (size ≤ requested size) × (requested size < size + 16)
requested-le size small =
    (omega (arith, requested_eq size small), omega (arith, requested_eq size small))

module _ (k : Kernel) (s : Heap) (size : ℕ) (bs : List Block) (w : IsHeap s bs)
    (pos : 0 < size) where
  -- The guards of `allocate` pass, and the first walk decides.
  pub allocate-found :
      (h : ℕ)
      → find_fit (walk_fuel s) true (requested size) s.ram s.head ≡ some (found h)
      → allocate size k s ≡ some (payload_ptr h, k, take_block (requested size) h s)
  unfolding allocate
  allocate-found h e =
      if_false _ _ (ne→== size 0 (λ z. absurd (omega (arith, z, pos))))
      ∙ if_false _ _ (ap not w.ready)
      ∙ rw e

  pub allocate-exhausted :
      find_fit (walk_fuel s) true (requested size) s.ram s.head ≡ some exhausted
      → allocate size k s ≡ elim (expand_heap (requested size) k s) [
        | none ↦ none
        | some (grew, k', s') ↦ if grew then retry (requested size) k' s' else some (0, k', s')
      ]
  unfolding allocate
  allocate-exhausted e =
      if_false _ _ (ne→== size 0 (λ z. absurd (omega (arith, z, pos))))
      ∙ if_false _ _ (ap not w.ready)
      ∙ rw e

-- The walk finds the first block that fits.
pub find_fit-FirstFit :
    (check : Bool) (need : ℕ) (s : Heap) (bs : List Block) (w : IsHeap s bs) (f : FirstFit need bs)
    → find_fit (walk_fuel s) check need s.ram s.head ≡ some (found (s.start + extent f.pre))
find_fit-FirstFit check need s bs w f =
    ap (λ h. find_fit (walk_fuel s) check need s.ram h) w.first
    ∙ find_fit_hit check need s.ram (walk_fuel s) 0 s.start f.pre f.block f.post w.low
        (omega (
          arith,
          walk_fuel_enough s bs w,
          ap length f.split,
          length-append f.pre (f.block ∷ f.post),
        ))
        f.unfit f.fit (subst (λ l. Seg s.ram 0 s.start l 0) f.split w.list)

pub take_first-Taken :
    (need : ℕ) (s : Heap) (bs : List Block) (w : IsHeap s bs) (f : FirstFit need bs)
    → need % 16 ≡ 0
    → Taken s
        (take_block need (s.start + extent f.pre) s)
        (s.start + extent f.pre)
        (s.start + extent f.pre + header_size + f.block.size)
        (f.pre ++ taken need f.block f.post)
take_first-Taken need s bs w f whole =
    take_block-Taken s need f.pre f.block f.post (subst (IsHeap s) f.split w) whole f.fit

pub taken_first :
    (k : Kernel) (s : Heap) (size : ℕ) (bs : List Block)
    → IsHeap s bs
    → 0 < size
    → size + 15 < u64_mod
    → (f : FirstFit (requested size) bs)
    → (s' : Heap) × (allocate size k s ≡ some (payload_ptr (s.start + extent f.pre), k, s'))
      × Taken s s'
          (s.start + extent f.pre)
          (s.start + extent f.pre + header_size + f.block.size)
          (f.pre ++ taken (requested size) f.block f.post)
taken_first k s size bs w pos small f = (
  take_block (requested size) (s.start + extent f.pre) s,
  allocate-found k s size bs w pos _ (find_fit-FirstFit true (requested size) s bs w f),
  take_first-Taken (requested size) s bs w f (requested_whole size small),
)

-- On a heap of the blocks `bs`, `allocate` of a positive size that fits one of them takes the
-- first that does, at `f`: it gives that block's payload and splits the block where there is
-- room. The new heap is well formed, of the new list of blocks, and begins where the old one did.
pub allocate_first_fit :
    (k : Kernel) (s : Heap) (size : ℕ) (bs : List Block)
    → IsHeap s bs
    → 0 < size
    → size + 15 < u64_mod
    → (f : FirstFit (requested size) bs)
    → (s' : Heap) × (allocate size k s ≡ some (payload_ptr (s.start + extent f.pre), k, s'))
      × IsHeap s' (f.pre ++ taken (requested size) f.block f.post)
      × (s'.start ≡ s.start)
allocate_first_fit k s size bs w pos small f =
    let (s', e, t) = taken_first k s size bs w pos small f in (s', e, t.heap, t.same_place.0)

-- Then the contents of every block in use stay as they are.
pub allocate_keeps :
    (k : Kernel) (s : Heap) (size : ℕ) (bs : List Block) (x : ℕ)
    → IsHeap s bs
    → 0 < size
    → size + 15 < u64_mod
    → FirstFit (requested size) bs
    → Held x s.start bs
    → (p : ℕ) × (s' : Heap) × (allocate size k s ≡ some (p, k, s')) × (s'.ram x ≡ s.ram x)
allocate_keeps k s size bs x w pos small f held =
    let (s', e, t) = taken_first k s size bs w pos small f in
    let (free, large) = fits-parts (requested size) f.block f.fit in
    let out : (x < s.start + extent f.pre)
        ⊎ (s.start + extent f.pre + header_size + f.block.size + header_size ≤ x) =
      Held-outside x s.start f.pre f.block f.post free (subst (Held x s.start) f.split held) in
    (payload_ptr (s.start + extent f.pre), s', e, t.frame x out)
