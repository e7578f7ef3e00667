-- ===== src/Heap/Merge.antt =====
-- The merges of a free block with its neighbours, in `deallocate` of src/heap.rs.
use ventura_os.Base.{
  ℕ, ◌+◌, ◌≡◌, refl, sym, subst, ◌∙◌, ap, Bool, true, false, not, ◌&&◌, List, [], ◌∷◌, ◌++◌, ◌==◌,
  if◌then◌else◌, arith, Bool-cases, inl, inr, if_false, ne→==,
}
use ventura_os.Heap.{Heap, header_size, prev_at, next_at, is_free, absorb_header}
use ventura_os.Heap.Release.{absorb_block, merge_next, merge_prev}
use ventura_os.Heap.Layout.{
  Block, free_block, extent, extent-append, free_sum, used_sum, sums-extent, last_of, Header,
}
use ventura_os.Heap.Edit.{Edit, absorb_header-Edit}
use ventura_os.Heap.Invariant.{IsHeap, IsHeap-edit, Parts, IsHeap-Parts}
use ventura_os.Heap.Held.{Held, Held-replace, Held-merge, Held-around, Step}
use ventura_os.Heap.Attach.{Snoc, extent-Snoc}

-- The free block of `n` bytes with its free neighbour behind it: its size and what follows.
abbrev pub joined : ℕ → List Block → ℕ × List Block
joined n [] = (n, [])
joined n (c ∷ cs) = if c.free then (n + (header_size + c.size), cs) else (n, c ∷ cs)

-- A free block of `m` bytes behind the blocks `pre`, the last of which takes it in if it is free.
abbrev pub push_free : List Block → ℕ → List Block → List Block
push_free [] m rest = free_block m ∷ rest
push_free (p ∷ []) m rest =
    if p.free then free_block (p.size + (header_size + m)) ∷ rest else p ∷ free_block m ∷ rest
push_free (p ∷ q ∷ pre) m rest = p ∷ push_free (q ∷ pre) m rest

-- The blocks when the block of `n` bytes between `pre` and `post` is freed.
abbrev pub freed : List Block → ℕ → List Block → List Block
freed pre n post = let (m, rest) = joined n post in push_free pre m rest

-- Two free blocks become one.
absorb_block-Step :
    (s : Heap) (pre : List Block) (b c : Block) (post : List Block)
    → IsHeap s (pre ++ b ∷ c ∷ post)
    → b.free ≡ true
    → c.free ≡ true
    → Step s
        (absorb_block (s.start + extent pre) (s.start + extent pre + header_size + b.size) s)
        (pre ++ b ∷ c ∷ post)
        (pre ++ free_block (b.size + (header_size + c.size)) ∷ post)
absorb_block-Step s pre b c post w free_b free_c =
    let h : ℕ = s.start + extent pre in
    let n : ℕ = h + header_size + b.size in
    let fin : ℕ = n + header_size + c.size in
    let whole : ℕ = b.size + (header_size + c.size) in
    let prev : ℕ = last_of 0 s.start pre in
    let parts : Parts s pre (b ∷ c ∷ post) = IsHeap-Parts s pre (b ∷ c ∷ post) w in
    let edit : Edit s.ram (absorb_header h n s.ram) prev h fin (free_block whole ∷ post) =
      subst
        (λ f.
          Edit s.ram (absorb_header h n s.ram) prev h fin
            (record { size = whole; free = f } ∷ post))
        free_b
        (absorb_header-Edit s.ram prev h b c post (omega (arith, w.low))
          (omega (arith, parts.whole, w.high)) parts.list) in
    let merged : (x : ℕ)
        → Held x s.start (pre ++ b ∷ c ∷ post)
        → Held x s.start (pre ++ free_block whole ∷ post) =
      λ x.
        Held-replace x s.start pre (b ∷ c ∷ post) (free_block whole ∷ post)
          (λ a. Held-merge x a b c whole post free_b free_c refl) in
    let sum : free_sum (b ∷ c ∷ post) ≡ b.size + (c.size + free_sum post) = rw (free_b, free_c) in
    let used : used_sum (b ∷ c ∷ post) ≡ 0 + (0 + used_sum post) = rw (free_b, free_c) in
    record {
      heap =
          IsHeap-edit s (absorb_block h n s) pre b (c ∷ post) (free_block whole) post fin w edit
            (omega arith) (refl, refl, refl, refl, refl)
            (omega (arith, parts.free, sum, sums-extent post, parts.pre_bound, parts.whole, w.high))
            (omega (arith, parts.used, used));
      start = refl;
      kept = λ x held. (
        merged x held,
        edit.frame x (ground (arith, Held-around x s.start pre whole post (merged x held))),
      );
    }

Step-refl : (s : Heap) (bs : List Block) → IsHeap s bs → Step s s bs bs
Step-refl s bs w = record { heap = w; start = refl; kept = λ x h. (h, refl) }

pub merge_next-Step :
    (s : Heap) (pre : List Block) (n : ℕ) (post : List Block)
    → IsHeap s (pre ++ free_block n ∷ post)
    → Step s
        (merge_next (s.start + extent pre) s)
        (pre ++ free_block n ∷ post)
        (pre ++ free_block (joined n post).0 ∷ (joined n post).1)
unfolding merge_next
merge_next-Step s pre n [] w =
    let header : Header s.ram (s.start + extent pre) (free_block n) (last_of 0 s.start pre) 0 =
      (IsHeap-Parts s pre (free_block n ∷ []) w).list.0 in
    subst (λ s'. Step s s' (pre ++ free_block n ∷ []) (pre ++ free_block n ∷ []))
      (sym (if_false _ _ (ap (λ x. not (x == 0) && is_free s.ram x) header.next)))
      (Step-refl s (pre ++ free_block n ∷ []) w)
merge_next-Step s pre n (c ∷ cs) w =
    let h : ℕ = s.start + extent pre in
    let next : ℕ = h + header_size + n in
    let parts : Parts s pre (free_block n ∷ c ∷ cs) =
      IsHeap-Parts s pre (free_block n ∷ c ∷ cs) w in
    let e_next : s.ram (next_at h) ≡ next = parts.list.0.next in
    let e_free : is_free s.ram next ≡ c.free = parts.list.2.0.free in
    let live : (next == 0) ≡ false = ne→== next 0 (λ e. absurd (omega (arith, e))) in
    let merges : (not (s.ram (next_at h) == 0) && is_free s.ram (s.ram (next_at h))) ≡ c.free =
      rw (e_next, live) e_free in
    let result : Bool → ℕ → Heap = λ t x. if t then absorb_block h x s else s in
    let same : merge_next h s ≡ result c.free next =
      ap (λ t. result t (s.ram (next_at h))) merges ∙ ap (result c.free) e_next in
    let after : Bool → ℕ × List Block =
      λ f. if f then (n + (header_size + c.size), cs) else (n, c ∷ cs) in
    let Goal : Bool → Heap → Type 0 = λ f s'.
      Step s s' (pre ++ free_block n ∷ c ∷ cs) (pre ++ free_block (after f).0 ∷ (after f).1) in
    subst (Goal c.free) (sym same) (elim (Bool-cases c.free) [
      | inl free ↦
          subst (λ f. Goal f (result f next)) (sym free)
            (absorb_block-Step s pre (free_block n) c cs w refl free)
      | inr used ↦
          subst (λ f. Goal f (result f next)) (sym used)
            (Step-refl s (pre ++ free_block n ∷ c ∷ cs) w)
    ])

snoc_append : (xs : List Block) (y : Block) (zs : List Block) → (xs ++ y ∷ []) ++ zs ≡ xs ++ y ∷ zs
snoc_append [] y zs = refl
snoc_append (x ∷ xs) y zs = ap (λ l. x ∷ l) (snoc_append xs y zs)

last_of_snoc :
    (prev a : ℕ) (xs : List Block) (y : Block) → last_of prev a (xs ++ y ∷ []) ≡ a + extent xs
last_of_snoc prev a [] y = omega arith
last_of_snoc prev a (x ∷ xs) y = last_of_snoc a (a + header_size + x.size) xs y ∙ omega arith

push_free_snoc :
    (xs : List Block) (p : Block) (m : ℕ) (rest : List Block)
    → push_free (xs ++ p ∷ []) m rest ≡ xs ++ push_free (p ∷ []) m rest
push_free_snoc [] p m rest = refl
push_free_snoc (x ∷ []) p m rest = refl
push_free_snoc (x ∷ y ∷ xs) p m rest = ap (λ l. x ∷ l) (push_free_snoc (y ∷ xs) p m rest)

-- The merge with the block before, which is the last of `xs ++ p ∷ []`.
merge_last-Step :
    (s : Heap) (xs : List Block) (p : Block) (m : ℕ) (rest : List Block)
    → IsHeap s (xs ++ p ∷ free_block m ∷ rest)
    → Step s
        (merge_prev (s.start + extent xs + header_size + p.size) s)
        (xs ++ p ∷ free_block m ∷ rest)
        (xs ++ push_free (p ∷ []) m rest)
unfolding merge_prev
merge_last-Step s xs p m rest w =
    let prev : ℕ = s.start + extent xs in
    let h : ℕ = prev + header_size + p.size in
    let parts : Parts s xs (p ∷ free_block m ∷ rest) =
      IsHeap-Parts s xs (p ∷ free_block m ∷ rest) w in
    let e_prev : s.ram (prev_at h) ≡ prev = parts.list.2.0.prev in
    let e_free : is_free s.ram prev ≡ p.free = parts.list.0.free in
    let live : (prev == 0) ≡ false = ne→== prev 0 (λ e. absurd (omega (arith, e, w.low))) in
    let merges : (not (s.ram (prev_at h) == 0) && is_free s.ram (s.ram (prev_at h))) ≡ p.free =
      rw (e_prev, live) e_free in
    let result : Bool → ℕ → Heap = λ t x. if t then absorb_block x h s else s in
    let same : merge_prev h s ≡ result p.free prev =
      ap (λ t. result t (s.ram (prev_at h))) merges ∙ ap (result p.free) e_prev in
    let after : Bool → List Block =
      λ f. if f then free_block (p.size + (header_size + m)) ∷ rest else p ∷ free_block m ∷ rest in
    let Goal : Bool → Heap → Type 0 =
      λ f s'. Step s s' (xs ++ p ∷ free_block m ∷ rest) (xs ++ after f) in
    subst (Goal p.free) (sym same) (elim (Bool-cases p.free) [
      | inl free ↦
          subst (λ f. Goal f (result f prev)) (sym free)
            (absorb_block-Step s xs p (free_block m) rest w free refl)
      | inr used ↦
          subst (λ f. Goal f (result f prev)) (sym used)
            (Step-refl s (xs ++ p ∷ free_block m ∷ rest) w)
    ])

pub merge_prev-Step :
    (s : Heap) (pre : List Block) (m : ℕ) (rest : List Block)
    → IsHeap s (pre ++ free_block m ∷ rest)
    → Step s
        (merge_prev (s.start + extent pre) s)
        (pre ++ free_block m ∷ rest)
        (push_free pre m rest)
unfolding merge_prev
merge_prev-Step s [] m rest w =
    let header : Header s.ram (s.start + extent []) (free_block m) 0 _ =
      (IsHeap-Parts s [] (free_block m ∷ rest) w).list.0 in
    subst (λ s'. Step s s' (free_block m ∷ rest) (free_block m ∷ rest))
      (sym (if_false _ _ (ap (λ x. not (x == 0) && is_free s.ram x) header.prev)))
      (Step-refl s (free_block m ∷ rest) w)
merge_prev-Step s (q ∷ qs) m rest w =
    let snoc : Snoc (q ∷ qs) = extent-Snoc (q ∷ qs) (omega arith) in
    let place : s.start + extent snoc.pre + header_size + snoc.last.size
        ≡ s.start + extent (q ∷ qs) =
      omega (arith, ap extent snoc.split, extent-append snoc.pre (snoc.last ∷ [])) in
    let before : snoc.pre ++ snoc.last ∷ free_block m ∷ rest ≡ (q ∷ qs) ++ free_block m ∷ rest =
      sym (snoc_append snoc.pre snoc.last (free_block m ∷ rest))
      ∙ ap (λ l. l ++ free_block m ∷ rest) (sym snoc.split) in
    let after : snoc.pre ++ push_free (snoc.last ∷ []) m rest ≡ push_free (q ∷ qs) m rest =
      sym (push_free_snoc snoc.pre snoc.last m rest)
      ∙ ap (λ l. push_free l m rest) (sym snoc.split) in
    let s' : Heap = merge_prev (s.start + extent snoc.pre + header_size + snoc.last.size) s in
    subst
      (λ h. Step s (merge_prev h s) ((q ∷ qs) ++ free_block m ∷ rest) (push_free (q ∷ qs) m rest))
      place
      (subst (λ l. Step s s' ((q ∷ qs) ++ free_block m ∷ rest) l) after
        (subst (λ l. Step s s' l (snoc.pre ++ push_free (snoc.last ∷ []) m rest)) before
          (merge_last-Step s snoc.pre snoc.last m rest (subst (IsHeap s) (sym before) w))))
