-- ===== src/Heap/RoundTrip.antt =====
-- `allocate` and then `deallocate` of src/heap.rs give back the blocks there were.
use ventura_os.Base.{
  ℕ, ◌+◌, ◌-◌, ◌<◌, ◌≡◌, refl, sym, subst, ◌∙◌, ap, Bool, true, false, not, ◌&&◌, some, List, [],
  ◌∷◌, ◌++◌, arith, u64_mod, Bool-cases, inl, inr, if_true, if_false,
}
use ventura_os.Mapping.{Kernel}
use ventura_os.Heap.{Heap, header_size, payload_ptr}
use ventura_os.Heap.Allocate.{requested, allocate}
use ventura_os.Heap.Release.{deallocate}
use ventura_os.Heap.Layout.{Block, free_block, used_block, extent}
use ventura_os.Heap.Invariant.{IsHeap}
use ventura_os.Heap.Find.{fits, FirstFit}
use ventura_os.Heap.Take.{taken, roomy, fits-parts, roomy→le}
use ventura_os.Heap.Alloc.{allocate_first_fit}
use ventura_os.Heap.Merge.{joined, push_free, freed}
use ventura_os.Heap.Free.{deallocate_frees}

-- No two free blocks are neighbours.
abbrev pub separated : List Block → Bool
separated [] = true
separated (b ∷ []) = true
separated (b ∷ c ∷ bs) = not (b.free && c.free) && separated (c ∷ bs)

-- Of two neighbours, the first is in use if the second is free, and the other way round.
separated-neighbours :
    (p q : Block) (bs : List Block)
    → separated (p ∷ q ∷ bs) ≡ true
    → (q.free ≡ true → p.free ≡ false)
      × (p.free ≡ true → q.free ≡ false)
      × (separated (q ∷ bs) ≡ true)
separated-neighbours p q bs sep = by_free p.free q.free refl refl
  where
    by_free :
        (x y : Bool)
        → p.free ≡ x
        → q.free ≡ y
        → (q.free ≡ true → p.free ≡ false)
          × (p.free ≡ true → q.free ≡ false)
          × (separated (q ∷ bs) ≡ true)
    by_free x y ex ey = (grind (arith, sep), grind (arith, sep), grind (arith, sep))

separated-push_free :
    (pre : List Block) (b : Block) (post : List Block) (m : ℕ) (rest : List Block)
    → b.free ≡ true
    → separated (pre ++ b ∷ post) ≡ true
    → push_free pre m rest ≡ pre ++ free_block m ∷ rest
separated-push_free [] b post m rest free sep = refl
separated-push_free (p ∷ []) b post m rest free sep =
    if_false _ _ ((separated-neighbours p b post sep).0 free)
separated-push_free (p ∷ q ∷ pre) b post m rest free sep =
    ap (λ l. p ∷ l)
      (separated-push_free (q ∷ pre) b post m rest free
        (separated-neighbours p q (pre ++ b ∷ post) sep).2)

separated-right :
    (pre : List Block) (b : Block) (post : List Block)
    → separated (pre ++ b ∷ post) ≡ true
    → separated (b ∷ post) ≡ true
separated-right [] b post sep = sep
separated-right (p ∷ []) b post sep = (separated-neighbours p b post sep).2
separated-right (p ∷ q ∷ pre) b post sep =
    separated-right (q ∷ pre) b post (separated-neighbours p q (pre ++ b ∷ post) sep).2

separated-joined :
    (b : Block) (post : List Block)
    → b.free ≡ true
    → separated (b ∷ post) ≡ true
    → joined b.size post ≡ (b.size, post)
separated-joined b [] free sep = refl
separated-joined b (c ∷ cs) free sep = if_false _ _ ((separated-neighbours b c cs sep).1 free)

-- What is taken from a free block and freed again is the block.
freed-taken :
    (need : ℕ) (pre : List Block) (b : Block) (post : List Block)
    → fits need b ≡ true
    → separated (pre ++ b ∷ post) ≡ true
    → (n : ℕ) × (rest : List Block) × (taken need b post ≡ used_block n ∷ rest)
      × (freed pre n rest ≡ pre ++ b ∷ post)
freed-taken need pre b post fit sep =
    let (free, large) = fits-parts need b fit in
    let whole : free_block b.size ≡ b = ap (λ f. record { size = b.size; free = f }) (sym free) in
    let back : push_free pre b.size post ≡ pre ++ b ∷ post =
      separated-push_free pre b post b.size post free sep ∙ ap (λ c. pre ++ c ∷ post) whole in
    elim (Bool-cases (roomy need b)) [
      | inl room ↦ (
        need,
        free_block (b.size - need - header_size) ∷ post,
        if_true _ _ room,
        ap (λ m. push_free pre m post) (omega (arith, large, roomy→le need b room)) ∙ back,
      )
      | inr tight ↦ (
        b.size,
        post,
        if_false _ _ tight,
        ap (λ j. push_free pre j.0 j.1)
              (separated-joined b post free (separated-right pre b post sep))
            ∙ back,
      )
    ]

-- On a well-formed heap in which no two free blocks are neighbours, `allocate` of a positive size
-- that some free block fits and that rounding up does not overflow, and then `deallocate` of its
-- pointer with a positive size, give a heap of the same blocks. A request for which the heap would
-- have to grow is not covered.
pub allocate-deallocate :
    (k : Kernel) (s : Heap) (size size' : ℕ) (bs : List Block)
    → IsHeap s bs
    → separated bs ≡ true
    → 0 < size
    → 0 < size'
    → size + 15 < u64_mod
    → (f : FirstFit (requested size) bs)
    → (p : ℕ) × (s1 : Heap) × (allocate size k s ≡ some (p, k, s1))
      × IsHeap (deallocate p size' s1) bs
allocate-deallocate k s size size' bs w sep pos pos' small f =
    let (s1, e, heap, place) = allocate_first_fit k s size bs w pos small f in
    let (n, rest, split, restored) =
      freed-taken (requested size) f.pre f.block f.post f.fit (ap separated (sym f.split) ∙ sep) in
    (
      payload_ptr (s.start + extent f.pre),
      s1,
      e,
      subst (λ a. IsHeap (deallocate (payload_ptr (a + extent f.pre)) size' s1) bs) place
          (subst (IsHeap (deallocate (payload_ptr (s1.start + extent f.pre)) size' s1))
            (restored ∙ sym f.split)
            (deallocate_frees s1 f.pre n rest size' (subst (λ l. IsHeap s1 (f.pre ++ l)) split heap)
              pos')),
    )
