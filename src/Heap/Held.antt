-- ===== src/Heap/Held.antt =====
-- The contents of the blocks in use, which the heap of src/heap.rs must not touch.
use ventura_os.Base.{
  ℕ, ◌+◌, ◌≤◌, ◌<◌, ◌≡◌, refl, sym, ◌∙◌, true, false, ◌⊎◌, List, [], ◌∷◌, ◌++◌, arith, inl, inr,
}
use ventura_os.Heap.{Heap, header_size}
use ventura_os.Heap.Layout.{Block, free_block, extent}
use ventura_os.Heap.Invariant.{IsHeap}

-- The address `x` lies in the payload of a block in use, of the blocks `bs` from `a` on.
abbrev pub Held : ℕ → ℕ → List Block → Type 0
Held x a [] = x < 0
Held x a (b ∷ bs) =
    ((b.free ≡ false) × (a + header_size ≤ x) × (x < a + header_size + b.size))
    ⊎ Held x (a + header_size + b.size) bs

-- From `s`, a heap of the blocks `bs`, to `s'`, one of `bs'`: what is in use stays in use, with its
-- contents.
pub record Step (s s' : Heap) (bs bs' : List Block) : Type 0 where
  pub heap : IsHeap s' bs'
  pub start : s'.start ≡ s.start
  pub kept : (x : ℕ) → Held x s.start bs → Held x s.start bs' × (s'.ram x ≡ s.ram x)

pub Step-trans :
    {s s' s'' : Heap} {bs bs' bs'' : List Block}
    → Step s s' bs bs'
    → Step s' s'' bs' bs''
    → Step s s'' bs bs''
Step-trans st st' = record {
  heap = st'.heap;
  start = st'.start ∙ st.start;
  kept = λ x h.
      let (h1, e1) = st.kept x h in
      let (h2, e2) = st'.kept x (rw st.start h1) in (rw (sym st.start) h2, e2 ∙ e1);
}

Held-above : (x a : ℕ) (bs : List Block) → Held x a bs → a + header_size ≤ x
Held-above x a [] h = absurd (omega (arith, h))
Held-above x a (b ∷ bs) (inl (used, low, high)) = low
Held-above x a (b ∷ bs) (inr h) = omega (arith, Held-above x (a + header_size + b.size) bs h)

true_ne_false : ¬ (true ≡ false)
true_ne_false e = ground (arith, e)

-- It does not lie in a free block.
pub Held-outside :
    (x a : ℕ) (pre : List Block) (b : Block) (post : List Block)
    → b.free ≡ true
    → Held x a (pre ++ b ∷ post)
    → (x < a + extent pre) ⊎ (a + extent pre + header_size + b.size + header_size ≤ x)
Held-outside x a [] b post free (inl (used, low, high)) = absurd (true_ne_false (sym free ∙ used))
Held-outside x a [] b post free (inr h) =
    inr (omega (arith, Held-above x (a + header_size + b.size) post h))
Held-outside x a (c ∷ pre) b post free (inl (used, low, high)) = inl (omega (arith, high))
Held-outside x a (c ∷ pre) b post free (inr h) =
    by_side (Held-outside x (a + header_size + c.size) pre b post free h)
  where
    by_side :
        (x < a + header_size + c.size + extent pre)
          ⊎ (a + header_size + c.size + extent pre + header_size + b.size + header_size ≤ x)
        → (x < a + extent (c ∷ pre))
          ⊎ (a + extent (c ∷ pre) + header_size + b.size + header_size ≤ x)
    by_side (inl low) = inl (omega (arith, low))
    by_side (inr high) = inr (omega (arith, high))

-- Other blocks may take the place of free ones.
pub Held-replace :
    (x a : ℕ) (pre bs cs : List Block)
    → ((a' : ℕ) → Held x a' bs → Held x a' cs)
    → Held x a (pre ++ bs)
    → Held x a (pre ++ cs)
Held-replace x a [] bs cs change h = change a h
Held-replace x a (b ∷ pre) bs cs change (inl here) = inl here
Held-replace x a (b ∷ pre) bs cs change (inr h) =
    inr (Held-replace x (a + header_size + b.size) pre bs cs change h)

-- Two free blocks become one.
pub Held-merge :
    (x a : ℕ) (b c : Block) (m : ℕ) (post : List Block)
    → b.free ≡ true
    → c.free ≡ true
    → m ≡ b.size + (header_size + c.size)
    → Held x a (b ∷ c ∷ post)
    → Held x a (free_block m ∷ post)
Held-merge x a b c m post free_b free_c e (inl (used, low, high)) =
    absurd (true_ne_false (sym free_b ∙ used))
Held-merge x a b c m post free_b free_c e (inr (inl (used, low, high))) =
    absurd (true_ne_false (sym free_c ∙ used))
Held-merge x a b c m post free_b free_c e (inr (inr h)) =
    let same : a + header_size + b.size + header_size + c.size ≡ a + header_size + m =
      omega (arith, e) in
    inr (rw same at h)

pub Held-around :
    (x a : ℕ) (pre : List Block) (n : ℕ) (post : List Block)
    → Held x a (pre ++ free_block n ∷ post)
    → (x < a + extent pre) ⊎ (a + extent pre + header_size + n + header_size ≤ x)
Held-around x a pre n post = Held-outside x a pre (free_block n) post refl
