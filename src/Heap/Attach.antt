-- ===== src/Heap/Attach.antt =====
-- The new block of src/heap.rs: attaching it behind the tail keeps the heap's invariant.
use ventura_os.Base.{
  ℕ, ◌+◌, ◌-◌, ◌%◌, ◌≤◌, ◌<◌, ◌≡◌, refl, sym, ◌∙◌, ap, Bool, true, false, Option, none, some, List,
  [], ◌∷◌, ◌++◌, ◌==◌, if◌then◌else◌, arith, u64_mod, add64, sub64, inl, if_false, ne→==,
  length-append,
}
use ventura_os.Heap.{Ram, Heap, header_size, write_header, walk_fuel}
use ventura_os.Heap.Grow.{find_tail, attach, add_block, record_growth}
use ventura_os.Heap.Layout.{
  Block, free_block, used_block, extent, extent-append, free_sum, free_sum-append, used_sum,
  used_sum-append, last_of, Seg, Seg-same,
}
use ventura_os.Heap.Edit.{Edit}
use ventura_os.Heap.Header.{write_header-other}
use ventura_os.Heap.Invariant.{IsHeap, Edit-inside, Parts, IsHeap-Parts, walk_fuel_enough}
use ventura_os.Heap.Find.{find_tail_last}
use ventura_os.Heap.Tail.{grown, attach_grows}

-- A list that is not empty, with its last block.
pub record Snoc (bs : List Block) : Type 0 where
  pub pre : List Block
  pub last : Block
  pub split : bs ≡ pre ++ last ∷ []

pub extent-Snoc : (bs : List Block) → 0 < extent bs → Snoc bs
extent-Snoc [] h = absurd (omega (arith, h))
extent-Snoc (b ∷ []) h = record { pre = []; last = b; split = refl }
extent-Snoc (b ∷ c ∷ bs) h =
    let s : Snoc (c ∷ bs) = extent-Snoc (c ∷ bs) (omega arith) in
    record { pre = b ∷ s.pre; last = s.last; split = ap (λ l. b ∷ l) s.split }

-- The sums of the last block once it has grown, of size `n` and free if `f`.
grown-extent :
    (bytes n : ℕ) (f : Bool)
    → header_size ≤ bytes
    → extent (grown bytes (record { size = n; free = f })) ≡ header_size + n + bytes
grown-extent bytes n true large = omega arith
grown-extent bytes n false large = omega (arith, large)

grown-free_sum :
    (bytes n : ℕ) (f : Bool)
    → free_sum (grown bytes (record { size = n; free = f }))
      ≡ (if f then n else 0) + (if f then bytes else bytes - header_size)
grown-free_sum bytes n true = omega arith
grown-free_sum bytes n false = omega arith

grown-used_sum :
    (bytes n : ℕ) (f : Bool)
    → used_sum (grown bytes (record { size = n; free = f })) ≡ (if f then 0 else n)
grown-used_sum bytes n true = omega arith
grown-used_sum bytes n false = omega arith

grown_inside :
    (ram ram' : Ram) (a fin : ℕ) (pre : List Block) (bytes n : ℕ) (f : Bool)
    → Seg ram 0 a (pre ++ record { size = n; free = f } ∷ []) 0
    → Edit ram ram'
        (last_of 0 a pre)
        (a + extent pre)
        fin
        (grown bytes (record { size = n; free = f }))
    → Seg ram' 0 a (pre ++ grown bytes (record { size = n; free = f })) 0
grown_inside ram ram' a fin pre bytes n true s e =
    Edit-inside 0 a fin pre (free_block n) [] (free_block (n + bytes)) [] s e
grown_inside ram ram' a fin pre bytes n false s e =
    Edit-inside 0 a fin pre (used_block n) [] (used_block n) (free_block (bytes - header_size) ∷ [])
      s e

module _ (s : Heap) (pre : List Block) (b : Block) (bytes : ℕ) (w : IsHeap s (pre ++ b ∷ []))
    (whole : bytes % 16 ≡ 0) (large : header_size ≤ bytes)
    (bound : s.current_end + bytes < u64_mod) where
  -- The tail is found, and the new block goes behind it.
  add_block_result :
      let a : ℕ = s.start + extent pre in
      let n : ℕ = a + header_size + b.size in
      add_block bytes s
      ≡ some (record_growth bytes a (attach a n (write_header n (bytes - header_size) 0 0 s.ram)) s)
  unfolding add_block
  add_block_result =
      let a : ℕ = s.start + extent pre in
      let n : ℕ = a + header_size + b.size in
      let parts : Parts s pre (b ∷ []) = IsHeap-Parts s pre (b ∷ []) w in
      let n_end : n ≡ s.current_end = omega (arith, parts.whole) in
      let payload : sub64 bytes header_size ≡ bytes - header_size = omega (arith, large, bound) in
      let ram1 : Ram = write_header n (bytes - header_size) 0 0 s.ram in
      let kept : Seg ram1 0 s.start (pre ++ b ∷ []) 0 =
        Seg-same s.ram ram1 0 s.start (pre ++ b ∷ []) 0
          (λ x low high.
            write_header-other n (bytes - header_size) 0 0 s.ram x
              (inl (omega (arith, high, w.whole, n_end))))
          w.list in
      let tail : find_tail (walk_fuel s) ram1 s.start ≡ some a =
        find_tail_last (walk_fuel s) ram1 0 s.start pre b w.low
          (omega (arith, walk_fuel_enough s (pre ++ b ∷ []) w, length-append pre (b ∷ []))) kept in
      let attached : ℕ → ℕ → ℕ → Heap = λ at p curr.
        record_growth bytes curr
          (if curr == 0
            then (false, write_header at p 0 0 s.ram)
            else attach curr at (write_header at p 0 0 s.ram))
          s in
      let go : ℕ → ℕ → Option ℕ → Option Heap =
        λ at p o. elim o [ none ↦ none | some curr ↦ some (attached at p curr) ] in
      let walk : ℕ → ℕ → ℕ → Option ℕ =
        λ at p. find_tail (walk_fuel s) (write_header at p 0 0 s.ram) in
      ap (λ at. go at (sub64 bytes header_size) (walk at (sub64 bytes header_size) s.head))
        (sym n_end)
      ∙ ap (λ p. go n p (walk n p s.head)) payload
      ∙ ap (λ h. go n (bytes - header_size) (walk n (bytes - header_size) h)) w.first
      ∙ ap (go n (bytes - header_size)) tail
      ∙ ap (λ r. some (record_growth bytes a r s))
          (if_false _ _ (ne→== a 0 (λ e. absurd (omega (arith, e, w.low)))))

  pub add_block-IsHeap :
      (s' : Heap) × (add_block bytes s ≡ some s')
      × IsHeap s' (pre ++ grown bytes b)
      × (s'.current_end ≡ s.current_end + bytes)
      × (s'.start ≡ s.start)
  unfolding record_growth
  add_block-IsHeap =
      let a : ℕ = s.start + extent pre in
      let before : ℕ = last_of 0 s.start pre in
      let parts : Parts s pre (b ∷ []) = IsHeap-Parts s pre (b ∷ []) w in
      let n : ℕ = a + header_size + b.size in
      let n_end : n ≡ s.current_end = omega (arith, parts.whole) in
      let r : Bool × Ram = attach a n (write_header n (bytes - header_size) 0 0 s.ram) in
      let s' : Heap = record_growth bytes a r s in
      let (coalesced, edit) =
        attach_grows s.ram before a bytes b (omega (arith, w.low)) whole large parts.list
          (omega (arith, n_end, bound)) in
      let size : extent (pre ++ grown bytes b) ≡ extent pre + extent (b ∷ []) + bytes =
        omega (arith, extent-append pre (grown bytes b), grown-extent bytes b.size b.free large) in
      let growth : (if r.0
            then add64 (sub64 bytes header_size) header_size
            else sub64 bytes header_size)
          ≡ (if b.free then bytes else bytes - header_size) =
        ap (λ f. if f then add64 (sub64 bytes header_size) header_size else sub64 bytes header_size)
          coalesced
        ∙ ground (arith, large, bound) in
      let free : free_sum (pre ++ grown bytes b)
          ≡ s.stats.free_bytes + (if b.free then bytes else bytes - header_size) =
        omega (
          arith,
          parts.free,
          free_sum-append pre (grown bytes b),
          grown-free_sum bytes b.size b.free,
        ) in
      let small : (if b.free then bytes else bytes - header_size) ≤ bytes = ground arith in
      let end_ : s'.current_end ≡ s.current_end + bytes = omega (arith, bound) in
      (
        s',
        add_block_result,
        record {
          list = grown_inside s.ram r.1 s.start (n + bytes) pre bytes b.size b.free w.list edit;
          first = if_false _ _ (ne→== a 0 (λ e. absurd (omega (arith, e, w.low)))) ∙ w.first;
          whole = omega (arith, end_, size, parts.whole);
          inhabited = omega (arith, size);
          low = w.low;
          aligned = w.aligned;
          high = omega (arith, end_, bound);
          ready = w.ready;
          total = omega (arith, w.total, size, parts.total, parts.whole, bound);
          free =
              ap (λ g. add64 s.stats.free_bytes g) growth
              ∙ omega (
                arith, free, small, parts.free, parts.bound, parts.pre_bound, parts.whole, bound,
              );
          used =
              parts.used
              ∙ omega
                  (arith, used_sum-append pre (grown bytes b), grown-used_sum bytes b.size b.free);
        },
        end_,
        refl,
      )
