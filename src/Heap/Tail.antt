-- ===== src/Heap/Tail.antt =====
-- Attaching a block behind the last one, as `expand_heap` of src/heap.rs does.
use ventura_os.Base.{
  ℕ, ◌+◌, ◌-◌, ◌%◌, ◌≤◌, ◌<◌, ◌≡◌, refl, sym, subst, ◌∙◌, ap, Bool, true, false, ◌&&◌, List, [],
  ◌∷◌, ◌==◌, if◌then◌else◌, arith, u64_mod, update, Bool-cases, inl, inr, eq→==,
}
use ventura_os.Heap.{
  Ram, header_size, magic_at, is_free_at, size_at, prev_at, next_at, is_free, write_header,
  absorb_header,
}
use ventura_os.Heap.Grow.{attach}
use ventura_os.Heap.Layout.{Block, free_block, Header, Seg}
use ventura_os.Heap.Edit.{Edit, Edit-trans, absorb_header-Edit}
use ventura_os.Heap.Header.{write_header-Header, write_header-other}

-- What stands where the last block `b` stood, when a block of `bytes` bytes is attached.
abbrev pub grown : ℕ → Block → List Block
grown bytes b =
    if b.free then free_block (b.size + bytes) ∷ [] else b ∷ free_block (bytes - header_size) ∷ []

and_true : (x : Bool) → (x && true) ≡ x
and_true true = refl
and_true false = refl

module _ (ram : Ram) (prev a bytes : ℕ) (b : Block) (pos : 0 < a) (whole : bytes % 16 ≡ 0)
    (large : header_size ≤ bytes) (s : Seg ram prev a (b ∷ []) 0) where
  -- The header of the new block, which is not linked yet.
  abbrev pub with_header : Ram
  with_header = write_header (a + header_size + b.size) (bytes - header_size) 0 0 ram

  abbrev linked : Ram
  linked =
      update (update with_header (next_at a) (a + header_size + b.size))
        (prev_at (a + header_size + b.size)) a

  linked-Edit :
      Edit ram linked prev a (a + header_size + b.size) (b ∷ free_block (bytes - header_size) ∷ [])
  linked-Edit =
      let n : ℕ = a + header_size + b.size in
      let h : Header ram a b prev 0 = s.0 in
      let size : b.size % 16 ≡ 0 = s.1 in
      let new : Header with_header n (free_block (bytes - header_size)) 0 0 =
        write_header-Header n (bytes - header_size) 0 0 ram in
      let old : (x : ℕ) → x < n → with_header x ≡ ram x =
        λ x low. write_header-other n (bytes - header_size) 0 0 ram x (inl low) in
      let e_end : n + header_size + (bytes - header_size) ≡ n + bytes = omega (arith, large) in
      record {
        seg = (
          record {
            magic = ground (arith, h.magic, old (magic_at a) (omega arith));
            free = ground (arith, h.free, old (is_free_at a) (omega arith));
            size = ground (arith, h.size, old (size_at a) (omega arith));
            prev = ground (arith, h.prev, old (prev_at a) (omega arith));
            next = ground arith;
          },
          size,
          (
            record {
              magic = ground (arith, new.magic);
              free = ground (arith, new.free);
              size = ground (arith, new.size);
              prev = ground arith;
              next = ground (arith, new.next);
            },
            omega (arith, whole, large),
            tt,
          ),
        );
        frame = λ x out.
            ground (arith, out)
            ∙ write_header-other n (bytes - header_size) 0 0 ram x (ground (arith, out));
      }

  pub attach_grows :
      a + header_size + b.size + bytes < u64_mod
      → ((attach a (a + header_size + b.size) with_header).0 ≡ b.free)
        × Edit ram
            (attach a (a + header_size + b.size) with_header).1
            prev
            a
            (a + header_size + b.size + bytes)
            (grown bytes b)
  unfolding attach
  attach_grows bound =
      let n : ℕ = a + header_size + b.size in
      let h : Header linked a b prev n = linked-Edit.seg.0 in
      let wide : (c : List Block) (r : Ram)
          → Edit ram r prev a n c
          → Edit ram r prev a (n + bytes) c =
        λ c r e. record { seg = e.seg; frame = λ x out. e.frame x (ground (arith, out)) } in
      let absorbed : Edit linked (absorb_header a n linked) prev a
          (n + header_size + (bytes - header_size))
          (record { size = b.size + (header_size + (bytes - header_size)); free = b.free } ∷ []) =
        absorb_header-Edit linked prev a b (free_block (bytes - header_size)) [] pos
          (omega (arith, bound, large)) linked-Edit.seg in
      let adjacent : ((a + (header_size + linked (size_at a))) == n) ≡ true =
        eq→== (a + (header_size + linked (size_at a))) n (omega (arith, h.size)) in
      let merges : (is_free linked a && ((a + (header_size + linked (size_at a))) == n)) ≡ b.free =
        rw (adjacent, h.free) (and_true b.free) in
      let result : Bool → Bool × Ram =
        λ t. if t then (true, absorb_header a n linked) else (false, linked) in
      let same : attach a n with_header ≡ result b.free = ap result merges in
      let sized : b.size + (header_size + (bytes - header_size)) ≡ b.size + bytes =
        omega (arith, large) in
      let merged : b.free ≡ true
          → record { size = b.size + (header_size + (bytes - header_size)); free = b.free }
            ≡ free_block (b.size + bytes) =
        λ free.
          ap (λ m. record { size = m; free = b.free }) sized
          ∙ ap (λ f. record { size = b.size + bytes; free = f }) free in
      let Grows : Bool × Ram → Bool → Type 0 = λ r f.
        (r.0 ≡ f)
        × Edit ram r.1 prev a (n + bytes) (
            if f
            then free_block (b.size + bytes) ∷ []
            else b ∷ free_block (bytes - header_size) ∷ []) in
      subst (λ r. Grows r b.free) (sym same)
        (elim (Bool-cases b.free) [
          | inl free ↦
              subst (λ f. Grows (result f) f) (sym free)
                (
                  refl,
                  Edit-trans prev a (n + bytes) (n + header_size + (bytes - header_size)) _ _
                      (omega (arith, large)) (wide _ linked linked-Edit)
                      (subst
                        (λ c.
                          Edit linked (absorb_header a n linked) prev a
                            (n + header_size + (bytes - header_size)) (c ∷ []))
                        (merged free) absorbed),
                )
          | inr used ↦ subst (λ f. Grows (result f) f) (sym used) (refl, wide _ linked linked-Edit)
        ])
