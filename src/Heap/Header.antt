-- ===== src/Heap/Header.antt =====
-- What the writes of src/heap.rs to one header make of the memory and of the list behind it.
use ventura_os.Base.{
  ℕ, ◌+◌, ◌≤◌, ◌<◌, ◌≡◌, refl, sym, subst, List, [], ◌∷◌, ◌==◌, arith, update, ne→==, eq→==,
  if_true, if_false, tests, Bool-cases, ◌⊎◌, inl, inr,
}
use ventura_os.Heap.{Ram, header_size, prev_at, write_header, link_back}
use ventura_os.Heap.Layout.{Block, free_block, Header, link, Seg, Seg-same}

pub update_same : (ram : Ram) (x v : ℕ) → update ram x v x ≡ v
update_same ram x v = if_true _ _ (eq→== x x refl)

pub update_other : (ram : Ram) (x v y : ℕ) → ¬ (x ≡ y) → update ram x v y ≡ ram y
update_other ram x v y ne = if_false _ _ (ne→== x y ne)

-- The header of a free block.
pub write_header-Header :
    (a size prev next : ℕ) (ram : Ram)
    → Header (write_header a size prev next ram) a (free_block size) prev next
write_header-Header a size prev next ram = record {
  magic = ground arith;
  free = grind tests;
  size = grind tests;
  prev = grind arith;
  next = ground arith;
}

pub write_header-other :
    (a size prev next : ℕ) (ram : Ram) (x : ℕ)
    → (x < a) ⊎ (a + header_size ≤ x)
    → write_header a size prev next ram x ≡ ram x
write_header-other a size prev next ram x out = ground arith

pub link_back-other :
    (n p : ℕ) (ram : Ram) (x : ℕ) → ¬ (prev_at n ≡ x) → link_back n p ram x ≡ ram x
link_back-other n p ram x ne = elim (Bool-cases (n == 0)) [
  | inl null ↦ rw (if_true _ _ null)
  | inr not_null ↦ rw (if_false _ _ not_null) (update_other ram (prev_at n) p x ne)
]

link_back_live : (a p : ℕ) (ram : Ram) → 0 < a → link_back a p ram ≡ update ram (prev_at a) p
link_back_live a p ram pos = if_false _ _ (ne→== a 0 (λ e. absurd (omega (arith, e, pos))))

-- A list gets another block before it.
set_prev-Seg :
    (ram : Ram) (prev a p : ℕ) (b : Block) (bs : List Block) (nxt : ℕ)
    → Seg ram prev a (b ∷ bs) nxt
    → Seg (update ram (prev_at a) p) p a (b ∷ bs) nxt
set_prev-Seg ram prev a p b bs nxt (h, size, s) = (
  record {
    magic = ground (arith, h.magic);
    free = ground (arith, h.free);
    size = ground (arith, h.size);
    prev = ground arith;
    next = ground (arith, h.next);
  },
  size,
  Seg-same ram _ a (a + header_size + b.size) bs nxt
      (λ x low high. update_other ram (prev_at a) p x (λ e. absurd (omega (arith, e, low)))) s,
)

pub link_back-Seg :
    (ram : Ram) (prev a p : ℕ) (bs : List Block)
    → 0 < a
    → Seg ram prev a bs 0
    → Seg (link_back (link a bs 0) p ram) p a bs 0
link_back-Seg ram prev a p [] pos s = tt
link_back-Seg ram prev a p (b ∷ bs) pos s =
    subst (λ m. Seg m p a (b ∷ bs) 0) (sym (link_back_live a p ram pos))
      (set_prev-Seg ram prev a p b bs 0 s)

-- What the link back leaves as it is.
pub link_back_frame :
    (ram : Ram) (a p : ℕ) (bs : List Block) (x : ℕ)
    → (x < a) ⊎ (a + header_size ≤ x)
    → link_back (link a bs 0) p ram x ≡ ram x
link_back_frame ram a p [] x out = refl
link_back_frame ram a p (b ∷ bs) x out =
    link_back-other a p ram x (λ e. absurd (omega (arith, e, out)))
