-- ===== src/Heap/Edit.antt =====
-- What the writes of src/heap.rs make of the list of blocks.
use ventura_os.Base.{
  ℕ, ◌+◌, ◌-◌, ◌%◌, ◌≤◌, ◌<◌, ◌≡◌, refl, sym, subst, ◌∙◌, ap, not, List, ◌∷◌, ◌==◌, arith, update,
  add64, u64_mod, ◌⊎◌, inl, inr,
}
use ventura_os.Heap.{
  Ram, header_size, magic_at, is_free_at, size_at, prev_at, next_at, write_header, link_back,
  absorb_header, split_header,
}
use ventura_os.Heap.Layout.{Block, free_block, extent, Header, Header-same, link, Seg, Seg-same}
use ventura_os.Heap.Header.{
  link_back-Seg, link_back_frame, update_other, update_same, write_header-Header,
}

-- The list at `a` has become `bs`, and the memory is the same below `a` and behind the header at
-- `fin`.
pub record Edit (ram ram' : Ram) (before a fin : ℕ) (bs : List Block) : Type 0 where
  pub seg : Seg ram' before a bs 0
  pub frame : (x : ℕ) → (x < a) ⊎ (fin + header_size ≤ x) → ram' x ≡ ram x

pub Edit-trans :
    {ram ram' ram'' : Ram} (before a fin fin' : ℕ) (bs cs : List Block)
    → fin' ≤ fin
    → Edit ram ram' before a fin bs
    → Edit ram' ram'' before a fin' cs
    → Edit ram ram'' before a fin cs
Edit-trans before a fin fin' bs cs le e f = record {
  seg = f.seg;
  frame = λ x out. f.frame x (farther x out) ∙ e.frame x out;
}
  where
    farther : (x : ℕ) → (x < a) ⊎ (fin + header_size ≤ x) → (x < a) ⊎ (fin' + header_size ≤ x)
    farther x (inl below) = inl below
    farther x (inr above) = inr (omega (arith, le, above))

-- A block changes hands.
pub set_free-Edit :
    (ram : Ram) (prev a v : ℕ) (b : Block) (bs : List Block)
    → Seg ram prev a (b ∷ bs) 0
    → Edit ram
        (update ram (is_free_at a) v)
        prev
        a
        (a + header_size + b.size)
        (record { size = b.size; free = not (v == 0) } ∷ bs)
set_free-Edit ram prev a v b bs (h, size, s) = record {
  seg = (
    record {
      magic = ground (arith, h.magic);
      free = rw (update_same ram (is_free_at a) v) refl;
      size = ground (arith, h.size);
      prev = ground (arith, h.prev);
      next = ground (arith, h.next);
    },
    size,
    Seg-same ram _ a (a + header_size + b.size) bs 0
        (λ x low high. update_other ram (is_free_at a) v x (λ e. absurd (omega (arith, e, low)))) s,
  );
  frame = λ x out. update_other ram (is_free_at a) v x (λ e. absurd (omega (arith, e, out)));
}

-- The first of two blocks takes in the second.
pub absorb_header-Edit :
    (ram : Ram) (prev a : ℕ) (b c : Block) (bs : List Block)
    → 0 < a
    → a + extent (b ∷ c ∷ bs) < u64_mod
    → Seg ram prev a (b ∷ c ∷ bs) 0
    → Edit ram
        (absorb_header a (a + header_size + b.size) ram)
        prev
        a
        (a + header_size + b.size + header_size + c.size)
        (record { size = b.size + (header_size + c.size); free = b.free } ∷ bs)
absorb_header-Edit ram prev a b c bs pos bound (h, size_b, (hc, size_c, s)) =
    let n : ℕ = a + header_size + b.size in
    let whole : ℕ = b.size + (header_size + c.size) in
    let sum : add64 (ram (size_at a)) (add64 header_size (ram (size_at n))) ≡ whole =
      rw (h.size, hc.size) (omega (arith, bound)) in
    let ram1 : Ram = update ram (size_at a) whole in
    let end_ : ℕ = n + header_size + c.size in
    let e_end : a + header_size + whole ≡ end_ = omega arith in
    let next : ram1 (next_at n) ≡ link end_ bs 0 =
      update_other ram (size_at a) whole (next_at n) (λ e. absurd (omega (arith, e))) ∙ hc.next in
    let ram2 : Ram = update ram1 (next_at a) (link end_ bs 0) in
    let kept : Seg ram2 n end_ bs 0 =
      Seg-same ram ram2 n end_ bs 0 (λ x low high. ground (arith, low)) s in
    let relinked : Seg (link_back (link end_ bs 0) a ram2) a end_ bs 0 =
      link_back-Seg ram2 n end_ a bs (omega (arith, pos)) kept in
    let before : (x : ℕ) → x < end_ → link_back (link end_ bs 0) a ram2 x ≡ ram2 x =
      λ x low. link_back_frame ram2 end_ a bs x (inl low) in
    let ram3 : Ram = link_back (link end_ bs 0) a ram2 in
    let same_ram : absorb_header a n ram ≡ ram3 = rw (sum, next) in
    subst (λ m. Edit ram m prev a end_ (record { size = whole; free = b.free } ∷ bs)) (sym same_ram)
      (record {
        seg = rw e_end (
          record {
            magic = before (magic_at a) (omega arith) ∙ ground (arith, h.magic);
            free = rw (before (is_free_at a) (omega arith)) (ground (arith, h.free));
            size = before (size_at a) (omega arith) ∙ ground arith;
            prev = before (prev_at a) (omega arith) ∙ ground (arith, h.prev);
            next = before (next_at a) (omega arith) ∙ ground arith;
          },
          omega (arith, size_b, size_c),
          relinked,
        );
        frame =
            λ x out. link_back_frame ram2 end_ a bs x (ground (arith, out)) ∙ ground (arith, out);
      })

-- A block of which the first `need` bytes are split off.
pub split_header-Edit :
    (ram : Ram) (prev a need remaining : ℕ) (b : Block) (bs : List Block)
    → 0 < a
    → need % 16 ≡ 0
    → b.size ≡ need + remaining
    → header_size ≤ remaining
    → Seg ram prev a (b ∷ bs) 0
    → Edit ram
        (split_header need remaining a ram)
        prev
        a
        (a + header_size + b.size)
        (record { size = need; free = b.free } ∷ free_block (remaining - header_size) ∷ bs)
split_header-Edit ram prev a need remaining b bs pos aligned total room (h, size_b, s) =
    let n : ℕ = a + header_size + need in
    let end_ : ℕ = a + header_size + b.size in
    let ram1 : Ram = write_header n (remaining - header_size) a (link end_ bs 0) ram in
    let out : (x : ℕ) → (x < n) ⊎ (end_ ≤ x) → ram1 x ≡ ram x =
      λ x at. ground (arith, at, total, room) in
    let kept : Seg ram1 a end_ bs 0 =
      Seg-same ram ram1 a end_ bs 0 (λ x low high. out x (inr low)) s in
    let ram2 : Ram = link_back (link end_ bs 0) n ram1 in
    let relinked : Seg ram2 n end_ bs 0 =
      link_back-Seg ram1 a end_ n bs (omega (arith, pos)) kept in
    let before : (x : ℕ) → x < end_ → ram2 x ≡ ram1 x =
      λ x low. link_back_frame ram1 end_ n bs x (inl low) in
    let ram3 : Ram = update (update ram2 (next_at a) n) (size_at a) need in
    let above : (x : ℕ) → n ≤ x → ram3 x ≡ ram2 x = λ x low. ground (arith, low) in
    let below_above : (x : ℕ) → (x < a) ⊎ (end_ + header_size ≤ x) → ram3 x ≡ ram2 x =
      λ x at. ground (arith, at, total) in
    let linked : ℕ → Ram → Ram =
      λ next m. update (update (link_back next n m) (next_at a) n) (size_at a) need in
    let written : ℕ → Ram = λ next. write_header n (remaining - header_size) a next ram in
    let same_ram : split_header need remaining a ram ≡ ram3 =
      ap (λ next. linked (written next (next_at a)) (written next)) h.next
      ∙ ap (λ next. linked next ram1) (out (next_at a) (inl (omega arith)) ∙ h.next) in
    let e_end : n + header_size + (remaining - header_size) ≡ end_ = omega (arith, total, room) in
    let new_header : Header ram1 n (free_block (remaining - header_size)) a (link end_ bs 0) =
      write_header-Header n (remaining - header_size) a (link end_ bs 0) ram in
    let old : (x : ℕ) → x < n → ram2 x ≡ ram x =
      λ x low. before x (omega (arith, low, total)) ∙ out x (inl low) in
    subst
      (λ m.
        Edit ram m prev a end_
          (record { size = need; free = b.free } ∷ free_block (remaining - header_size) ∷ bs))
      (sym same_ram)
      (record {
        seg = rw e_end (
          record {
            magic = ground (arith, h.magic, old (magic_at a) (omega arith));
            free = ground (arith, h.free, old (is_free_at a) (omega arith));
            size = ground arith;
            prev = ground (arith, h.prev, old (prev_at a) (omega arith));
            next = ground arith;
          },
          aligned,
          (
            Header-same (λ x low high. above x low ∙ before x (omega (arith, high, total, room)))
                new_header,
            omega (arith, size_b, aligned, total, room),
            Seg-same ram2 ram3 n end_ bs 0 (λ x low high. above x (omega (arith, low, total)))
                relinked,
          ),
        );
        frame = λ x at.
            below_above x at
            ∙ link_back_frame ram1 end_ n bs x (grind (arith, at, total, room))
            ∙ out x (ground (arith, at, total, room));
      })
