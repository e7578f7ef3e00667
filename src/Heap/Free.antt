-- ===== src/Heap/Free.antt =====
-- `deallocate` of src/heap.rs frees a block and merges it with its free neighbours.
use ventura_os.Base.{
  ℕ, ◌+◌, ◌<◌, ◌≡◌, refl, sym, subst, ◌∙◌, ap, not, List, ◌∷◌, ◌++◌, ◌==◌, if◌then◌else◌, arith,
  update, if_false, ne→==, eq→==,
}
use ventura_os.Heap.{
  Ram, Heap, heap_magic, header_size, magic_at, is_free_at, size_at, is_free, payload_ptr,
  from_payload_ptr,
}
use ventura_os.Heap.Release.{poison, release, merge_next, merge_prev, deallocate}
use ventura_os.Heap.Layout.{
  Block, free_block, used_block, extent, last_of, Header, Header-same, Seg, Seg-same,
}
use ventura_os.Heap.Edit.{Edit, Edit-trans, set_free-Edit}
use ventura_os.Heap.Invariant.{IsHeap, IsHeap-edit, Parts, IsHeap-Parts}
use ventura_os.Heap.Held.{Held, Held-around, Step, Step-trans}
use ventura_os.Heap.Merge.{joined, freed, merge_next-Step, merge_prev-Step}

poison-Edit :
    (ram : Ram) (prev a : ℕ) (b : Block) (bs : List Block)
    → Seg ram prev a (b ∷ bs) 0
    → Edit ram (poison (payload_ptr a) b.size ram) prev a (a + header_size + b.size) (b ∷ bs)
poison-Edit ram prev a b bs (h, size, s) = record {
  seg = (
    Header-same (λ x low high. ground (arith, high)) h,
    size,
    Seg-same ram (poison (payload_ptr a) b.size ram) a (a + header_size + b.size) bs 0
        (λ x low high. ground (arith, low)) s,
  );
  frame = λ x out. ground (arith, out);
}

-- The block is freed.
release-Step :
    (s : Heap) (pre : List Block) (n : ℕ) (post : List Block)
    → IsHeap s (pre ++ used_block n ∷ post)
    → IsHeap (release (s.start + extent pre) s) (pre ++ free_block n ∷ post)
      × ((x : ℕ)
          → Held x s.start (pre ++ free_block n ∷ post)
          → (release (s.start + extent pre) s).ram x ≡ s.ram x)
unfolding release
release-Step s pre n post w =
    let h : ℕ = s.start + extent pre in
    let fin : ℕ = h + header_size + n in
    let prev : ℕ = last_of 0 s.start pre in
    let parts : Parts s pre (used_block n ∷ post) = IsHeap-Parts s pre (used_block n ∷ post) w in
    let size : s.ram (size_at h) ≡ n = parts.list.0.size in
    let edit1 : Edit s.ram (poison (payload_ptr h) n s.ram) prev h fin (used_block n ∷ post) =
      poison-Edit s.ram prev h (used_block n) post parts.list in
    let edit2 : Edit (poison (payload_ptr h) n s.ram)
        (update (poison (payload_ptr h) n s.ram) (is_free_at h) 1) prev h fin
        (free_block n ∷ post) =
      set_free-Edit _ prev h 1 (used_block n) post edit1.seg in
    let edit : Edit s.ram (release h s).ram prev h fin (free_block n ∷ post) =
      subst
        (λ m.
          Edit s.ram (update (poison (payload_ptr h) m s.ram) (is_free_at h) 1) prev h fin
            (free_block n ∷ post))
        (sym size) (Edit-trans prev h fin fin _ _ (omega arith) edit1 edit2) in
    (
      IsHeap-edit s (release h s) pre (used_block n) post (free_block n) post fin w edit refl
          (refl, refl, refl, refl, refl)
          (rw size (omega (arith, parts.free, parts.bound, parts.pre_bound, parts.whole, w.high)))
          (rw size (ground (arith, parts.used))),
      λ x held. edit.frame x (Held-around x s.start pre n post held),
    )

-- The guards of `deallocate` pass at a block in use.
deallocate_runs :
    (s : Heap) (pre : List Block) (n : ℕ) (post : List Block) (size : ℕ)
    → IsHeap s (pre ++ used_block n ∷ post)
    → 0 < size
    → let h : ℕ = s.start + extent pre in
      deallocate (payload_ptr h) size s ≡ merge_prev h (merge_next h (release h s))
unfolding deallocate
deallocate_runs s pre n post size w pos =
    let h : ℕ = s.start + extent pre in
    let parts : Parts s pre (used_block n ∷ post) = IsHeap-Parts s pre (used_block n ∷ post) w in
    let back : from_payload_ptr (payload_ptr h) ≡ h = omega (arith, parts.whole, w.high) in
    let header : Header s.ram h (used_block n) (last_of 0 s.start pre) _ = parts.list.0 in
    let run : ℕ → Heap = λ at.
      if not (s.ram (magic_at at) == heap_magic)
      then s
      else if is_free s.ram at
      then s
      else merge_prev at (merge_next at (release at s)) in
    if_false _ _ (ne→== (payload_ptr h) 0 (λ z. absurd (omega (arith, z))))
    ∙ if_false _ _ (ne→== size 0 (λ z. absurd (omega (arith, z, pos))))
    ∙ if_false _ _ (ap not w.ready)
    ∙ ap run back
    ∙ if_false _ _ (ap not (eq→== (s.ram (magic_at h)) heap_magic header.magic))
    ∙ if_false _ _ header.free

-- What the two merges make of the heap with the block freed.
merges-Step :
    (s : Heap) (pre : List Block) (n : ℕ) (post : List Block)
    → IsHeap s (pre ++ free_block n ∷ post)
    → Step s
        (merge_prev (s.start + extent pre) (merge_next (s.start + extent pre) s))
        (pre ++ free_block n ∷ post)
        (freed pre n post)
merges-Step s pre n post w =
    let h : ℕ = s.start + extent pre in
    let next : Step s (merge_next h s) (pre ++ free_block n ∷ post)
        (pre ++ free_block (joined n post).0 ∷ (joined n post).1) =
      merge_next-Step s pre n post w in
    let place : (merge_next h s).start + extent pre ≡ h = ap (λ a. a + extent pre) next.start in
    Step-trans next (
      subst
        (λ a.
          Step (merge_next h s) (merge_prev a (merge_next h s))
            (pre ++ free_block (joined n post).0 ∷ (joined n post).1) (freed pre n post))
        place (merge_prev-Step (merge_next h s) pre (joined n post).0 (joined n post).1 next.heap))

-- On a well-formed heap, `deallocate` of the payload of a block in use frees it, merges it with
-- the free blocks on either side, and the heap is well formed again.
pub deallocate_frees :
    (s : Heap) (pre : List Block) (n : ℕ) (post : List Block) (size : ℕ)
    → IsHeap s (pre ++ used_block n ∷ post)
    → 0 < size
    → IsHeap (deallocate (payload_ptr (s.start + extent pre)) size s) (freed pre n post)
unfolding release
deallocate_frees s pre n post size w pos =
    let (heap, kept) = release-Step s pre n post w in
    subst (λ s'. IsHeap s' (freed pre n post)) (sym (deallocate_runs s pre n post size w pos))
      ((merges-Step (release (s.start + extent pre) s) pre n post heap).heap)

-- It leaves the contents of every other block in use as they are.
pub deallocate_keeps :
    (s : Heap) (pre : List Block) (n : ℕ) (post : List Block) (size x : ℕ)
    → IsHeap s (pre ++ used_block n ∷ post)
    → 0 < size
    → Held x s.start (pre ++ free_block n ∷ post)
    → (deallocate (payload_ptr (s.start + extent pre)) size s).ram x ≡ s.ram x
unfolding release
deallocate_keeps s pre n post size x w pos held =
    let (heap, kept) = release-Step s pre n post w in
    ap (λ s'. s'.ram x) (deallocate_runs s pre n post size w pos)
    ∙ ((merges-Step (release (s.start + extent pre) s) pre n post heap).kept x held).1
    ∙ kept x held
