-- ===== src/Heap/Invariant.antt =====
-- The invariant of the heap of src/heap.rs: its headers are a list of blocks that fill it.
use ventura_os.Base.{
  ℕ, ◌+◌, ◌%◌, ◌≤◌, ◌<◌, ◌≡◌, sym, subst, ◌∙◌, ap, true, List, [], ◌∷◌, ◌++◌, arith, length,
  u64_mod, inl,
}
use ventura_os.Heap.{Ram, Heap, walk_fuel}
use ventura_os.Heap.Layout.{
  Block, extent, extent-append, free_sum, free_sum-append, used_sum, used_sum-append, sums-extent,
  link, last_of, Seg, Seg-same, Seg-split, Seg-join,
}
use ventura_os.Heap.Edit.{Edit}

pub record IsHeap (s : Heap) (bs : List Block) : Type 0 where
  pub list : Seg s.ram 0 s.start bs 0
  pub first : s.head ≡ s.start
  pub whole : s.start + extent bs ≡ s.current_end
  pub inhabited : 0 < extent bs
  pub low : 0 < s.start
  pub aligned : s.start % 16 ≡ 0
  pub high : s.current_end < u64_mod
  pub ready : s.initialized ≡ true
  pub total : s.stats.total_bytes ≡ extent bs
  pub free : s.stats.free_bytes ≡ free_sum bs
  pub used : s.stats.allocated_bytes ≡ used_sum bs

-- The first block is where the list begins.
pub head-link : (s : Heap) (bs : List Block) → IsHeap s bs → s.head ≡ link s.start bs 0
head-link s [] w = absurd (omega (arith, w.inhabited))
head-link s (b ∷ bs) w = w.first

-- A walk of one step more than there are headers.
pub walk_fuel_enough : (s : Heap) (bs : List Block) → IsHeap s bs → length bs < walk_fuel s
walk_fuel_enough s bs w = omega (arith, w.whole, sums-extent bs)

-- An edit inside the list.
pub Edit-inside :
    {ram ram' : Ram} (before a fin : ℕ) (pre : List Block) (b : Block) (bs : List Block) (c : Block)
    (cs : List Block)
    → Seg ram before a (pre ++ b ∷ bs) 0
    → Edit ram ram' (last_of before a pre) (a + extent pre) fin (c ∷ cs)
    → Seg ram' before a (pre ++ c ∷ cs) 0
Edit-inside {ram} {ram'} before a fin pre b bs c cs s e =
    let (s1, s2) = Seg-split ram before a pre (b ∷ bs) 0 s in
    Seg-join ram' before a pre (c ∷ cs) 0
      (Seg-same ram ram' before a pre (a + extent pre) (λ x low high. e.frame x (inl high)) s1)
      e.seg

-- The sums of a heap, its blocks in two parts.
pub record Parts (s : Heap) (pre bs : List Block) : Type 0 where
  pub list : Seg s.ram (last_of 0 s.start pre) (s.start + extent pre) bs 0
  pub whole : s.start + extent pre + extent bs ≡ s.current_end
  pub total : s.stats.total_bytes ≡ extent pre + extent bs
  pub free : s.stats.free_bytes ≡ free_sum pre + free_sum bs
  pub used : s.stats.allocated_bytes ≡ used_sum pre + used_sum bs
  pub pre_bound : free_sum pre + used_sum pre ≤ extent pre
  pub bound : free_sum bs + used_sum bs ≤ extent bs

pub IsHeap-Parts : (s : Heap) (pre bs : List Block) → IsHeap s (pre ++ bs) → Parts s pre bs
IsHeap-Parts s pre bs w = record {
  list = (Seg-split s.ram 0 s.start pre bs 0 w.list).1;
  whole = omega (arith, w.whole, extent-append pre bs);
  total = w.total ∙ extent-append pre bs;
  free = w.free ∙ free_sum-append pre bs;
  used = w.used ∙ used_sum-append pre bs;
  pre_bound = omega (arith, sums-extent pre);
  bound = omega (arith, sums-extent bs);
}

-- The heap after an edit that keeps its extent.
pub IsHeap-edit :
    (s s' : Heap) (pre : List Block) (b : Block) (bs : List Block) (c : Block) (cs : List Block)
    (fin : ℕ)
    → IsHeap s (pre ++ b ∷ bs)
    → Edit s.ram s'.ram (last_of 0 s.start pre) (s.start + extent pre) fin (c ∷ cs)
    → extent (c ∷ cs) ≡ extent (b ∷ bs)
    → (s'.start ≡ s.start)
      × (s'.head ≡ s.head)
      × (s'.current_end ≡ s.current_end)
      × (s'.initialized ≡ s.initialized)
      × (s'.stats.total_bytes ≡ s.stats.total_bytes)
    → s'.stats.free_bytes ≡ free_sum pre + free_sum (c ∷ cs)
    → s'.stats.allocated_bytes ≡ used_sum pre + used_sum (c ∷ cs)
    → IsHeap s' (pre ++ c ∷ cs)
IsHeap-edit s s' pre b bs c cs fin w e same_extent (start, head, end_, ready, total) free used =
    let same_whole : extent (pre ++ c ∷ cs) ≡ extent (pre ++ b ∷ bs) =
      extent-append pre (c ∷ cs)
      ∙ ap (λ n. extent pre + n) same_extent
      ∙ sym (extent-append pre (b ∷ bs)) in
    record {
      list =
          subst (λ a. Seg s'.ram 0 a (pre ++ c ∷ cs) 0) (sym start)
            (Edit-inside 0 s.start fin pre b bs c cs w.list e);
      first = head ∙ w.first ∙ sym start;
      whole = omega (arith, w.whole, same_whole, start, end_);
      inhabited = omega (arith, w.inhabited, same_whole);
      low = omega (arith, w.low, start);
      aligned = rw start w.aligned;
      high = rw end_ w.high;
      ready = ready ∙ w.ready;
      total = total ∙ w.total ∙ sym same_whole;
      free = free ∙ sym (free_sum-append pre (c ∷ cs));
      used = used ∙ sym (used_sum-append pre (c ∷ cs));
    }
