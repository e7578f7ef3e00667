-- ===== src/Heap/Take.antt =====
-- Taking a block of the heap of src/heap.rs keeps its invariant and the other blocks' contents.
use ventura_os.Base.{
  ℕ, ◌+◌, ◌-◌, ◌%◌, ◌≤◌, ◌<◌, ◌≡◌, refl, sym, subst, ◌∙◌, ap, Bool, true, ◌⊎◌, List, ◌∷◌, ◌++◌, leb,
  if◌then◌else◌, arith, Bool-cases, inl, inr, if_true, if_false,
}
use ventura_os.Heap.{
  Heap, header_size, min_block_payload, size_at, split_block, mark_used, take_block,
}
use ventura_os.Heap.Layout.{Block, free_block, used_block, extent, free_sum, used_sum, last_of}
use ventura_os.Heap.Edit.{Edit, Edit-trans, set_free-Edit, split_header-Edit}
use ventura_os.Heap.Invariant.{IsHeap, IsHeap-edit, Parts, IsHeap-Parts}
use ventura_os.Heap.Find.{fits}

-- Whether a block is split when `need` bytes of it are taken.
abbrev pub roomy : ℕ → Block → Bool
roomy need b = leb (header_size + min_block_payload) (b.size - need)

-- What stands where `b` and the blocks behind it stood, when `need` bytes of it are taken.
abbrev pub taken : ℕ → Block → List Block → List Block
taken need b post =
    if roomy need b
    then used_block need ∷ free_block (b.size - need - header_size) ∷ post
    else used_block b.size ∷ post

-- The heap is one of the blocks `bs`, with the other contents of the heap `s`.
pub record Taken (s s' : Heap) (h fin : ℕ) (bs : List Block) : Type 0 where
  pub heap : IsHeap s' bs
  pub same_place : (s'.start ≡ s.start) × (s'.current_end ≡ s.current_end)
  pub frame : (x : ℕ) → (x < h) ⊎ (fin + header_size ≤ x) → s'.ram x ≡ s.ram x

-- A block that fits is free and large enough.
pub fits-parts : (need : ℕ) (b : Block) → fits need b ≡ true → (b.free ≡ true) × (need ≤ b.size)
fits-parts need b fit = elim (Bool-cases b.free) [
  | inl free ↦ (free, ground (arith, fit, free))
  | inr used ↦ absurd (ground (arith, fit, used))
]

pub roomy→le :
    (need : ℕ) (b : Block) → roomy need b ≡ true → header_size + min_block_payload ≤ b.size - need
roomy→le need b room = ground (arith, room)

module _ (s : Heap) (need : ℕ) (pre : List Block) (b : Block) (post : List Block)
    (w : IsHeap s (pre ++ b ∷ post)) (aligned : need % 16 ≡ 0) (fit : fits need b ≡ true) where
  -- The block is split.
  split-Taken :
      header_size + min_block_payload ≤ b.size - need
      → Taken s
          (mark_used
            (s.start + extent pre)
            (split_block need (b.size - need) (s.start + extent pre) s))
          (s.start + extent pre)
          (s.start + extent pre + header_size + b.size)
          (pre ++ used_block need ∷ free_block (b.size - need - header_size) ∷ post)
  unfolding split_block mark_used
  split-Taken room =
      let h : ℕ = s.start + extent pre in
      let fin : ℕ = h + header_size + b.size in
      let parts : Parts s pre (b ∷ post) = IsHeap-Parts s pre (b ∷ post) w in
      let rest : List Block = free_block (b.size - need - header_size) ∷ post in
      let (free, large) = fits-parts need b fit in
      let s1 : Heap = split_block need (b.size - need) h s in
      let edit1 : Edit s.ram s1.ram (last_of 0 s.start pre) h fin
          (record { size = need; free = b.free } ∷ rest) =
        split_header-Edit s.ram (last_of 0 s.start pre) h need (b.size - need) b post
          (omega (arith, w.low)) aligned (omega (arith, large)) (omega (arith, room)) parts.list in
      let edit2 : Edit s1.ram (mark_used h s1).ram (last_of 0 s.start pre) h
          (h + header_size + need) (used_block need ∷ rest) =
        set_free-Edit s1.ram (last_of 0 s.start pre) h 0 (record { size = need; free = b.free })
          rest edit1.seg in
      let edit : Edit s.ram (mark_used h s1).ram (last_of 0 s.start pre) h fin
          (used_block need ∷ rest) =
        Edit-trans (last_of 0 s.start pre) h fin (h + header_size + need) _ _ (omega (arith, large))
          edit1 edit2 in
      let size1 : s1.ram (size_at h) ≡ need = edit1.seg.0.size in
      let freed : free_sum (b ∷ post) ≡ b.size + free_sum post = rw free in
      let kept : used_sum (b ∷ post) ≡ used_sum post = rw free (omega arith) in
      record {
        heap =
            IsHeap-edit s (mark_used h s1) pre b post (used_block need) rest fin w edit
              (omega (arith, large, room)) (refl, refl, refl, refl, refl)
              (rw size1 (ground (arith, parts.free, freed, large, room)))
              (rw size1 (
                ground (
                  arith, parts.used, kept, parts.bound, parts.pre_bound, parts.whole, w.high, large,
                  room, freed,
                )));
        same_place = (refl, refl);
        frame = edit.frame;
      }

  -- The block is taken whole.
  whole-Taken :
      Taken s
        (mark_used (s.start + extent pre) s)
        (s.start + extent pre)
        (s.start + extent pre + header_size + b.size)
        (pre ++ used_block b.size ∷ post)
  unfolding mark_used
  whole-Taken =
      let h : ℕ = s.start + extent pre in
      let fin : ℕ = h + header_size + b.size in
      let parts : Parts s pre (b ∷ post) = IsHeap-Parts s pre (b ∷ post) w in
      let (free, large) = fits-parts need b fit in
      let edit : Edit s.ram (mark_used h s).ram (last_of 0 s.start pre) h fin
          (used_block b.size ∷ post) =
        set_free-Edit s.ram (last_of 0 s.start pre) h 0 b post parts.list in
      let size : s.ram (size_at h) ≡ b.size = parts.list.0.size in
      let freed : free_sum (b ∷ post) ≡ b.size + free_sum post = rw free in
      let kept : used_sum (b ∷ post) ≡ used_sum post = rw free (omega arith) in
      record {
        heap =
            IsHeap-edit s (mark_used h s) pre b post (used_block b.size) post fin w edit refl
              (refl, refl, refl, refl, refl) (rw size (ground (arith, parts.free, freed)))
              (rw size (
                ground (
                  arith, parts.used, kept, parts.bound, parts.pre_bound, parts.whole, w.high, freed,
                )));
        same_place = (refl, refl);
        frame = edit.frame;
      }

  pub take_block-Taken :
      Taken s
        (take_block need (s.start + extent pre) s)
        (s.start + extent pre)
        (s.start + extent pre + header_size + b.size)
        (pre ++ taken need b post)
  unfolding take_block
  take_block-Taken =
      let h : ℕ = s.start + extent pre in
      let fin : ℕ = h + header_size + b.size in
      let parts : Parts s pre (b ∷ post) = IsHeap-Parts s pre (b ∷ post) w in
      let size : s.ram (size_at h) ≡ b.size = parts.list.0.size in
      let take : ℕ → Heap = λ n. mark_used h (
        if leb (header_size + min_block_payload) (n - need)
        then split_block need (n - need) h s
        else s) in
      let sized : take_block need h s ≡ take b.size = ap take size in
      elim (Bool-cases (roomy need b)) [
        | inl room ↦
            subst (λ s'. Taken s s' h fin (pre ++ taken need b post))
              (sym (sized ∙ ap (mark_used h) (if_true _ _ room)))
              (subst
                (λ bs.
                  Taken s (mark_used h (split_block need (b.size - need) h s)) h fin (pre ++ bs))
                (sym (if_true _ _ room)) (split-Taken (roomy→le need b room)))
        | inr tight ↦
            subst (λ s'. Taken s s' h fin (pre ++ taken need b post))
              (sym (sized ∙ ap (mark_used h) (if_false _ _ tight)))
              (subst (λ bs. Taken s (mark_used h s) h fin (pre ++ bs)) (sym (if_false _ _ tight))
                whole-Taken)
      ]
