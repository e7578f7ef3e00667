-- ===== src/Tables/Map.antt =====
-- `map_page` of src/vmm.rs against the page walk of the processor.
use ventura_os.Base.{
  ℕ, ◌+◌, ◌%◌, ◌<◌, ◌≡◌, refl, sym, ◌∙◌, true, false, none, some, List, [], ◌∷◌, length, ◌==◌,
  if_true, if_false, arith, inl, inr, Bool-cases,
}
use ventura_os.Memory.{page_size}
use ventura_os.Pmm.{PhysPage}
use ventura_os.Paging.{
  VirtAddr, PageTableFlags, is_canonical, is_aligned, pml4_index, pdpt_index, pd_index, pt_index,
  is_present, set_entry,
}
use ventura_os.Paging.Entry.{is_present-set_entry}
use ventura_os.Tables.{
  Vm, Mapped, ok, err, non_canonical, unaligned_virtual, unaligned_physical, already_mapped,
  frame_allocation_failed, ◌>>=◌, write, get_or_create_table, set_leaf, map_page,
}
use ventura_os.Tables.Mmu.{walk, mmu, indices}
use ventura_os.Tables.Tree.{Trail, extend, length-extend, extend-long, Ghost, IsTree}
use ventura_os.Tables.Create.{Grows, Created, covered, exhausted, created, Grows-refl}
use ventura_os.Tables.Link.{Grows-trans, get_or_create_table-Created}
use ventura_os.Tables.Chain.{Chain, here, walk-Chain, Chain-snoc, Chain-map}
use ventura_os.Tables.Leaf.{follow, leaf_of, upper, IsTree-written, walk-written}

-- A walk that ends at an entry just written finds it.
pub walk-leaf :
    (entries : ℕ → ℕ → ℕ) (t i e : ℕ)
    → is_present e ≡ true
    → walk (write entries t i e) t (i ∷ []) ≡ some (e, 0)
unfolding walk
walk-leaf entries t i e present =
    let at_entry : write entries t i e t i ≡ e = ground arith in rw at_entry (if_true _ _ present)

-- A table is the root of an address space.
abbrev pub IsRoot : Ghost → ℕ → Type 0
IsRoot pos r = pos r ≡ some (r ∷ [])

-- What `map_page` promises of an attempt to map `virt` under `root`.
pub data MapPage (owner : ℕ → ℕ → ℕ) (pos : Ghost) (root : ℕ) (virt : VirtAddr) (phys : PhysPage)
    (flags : PageTableFlags) (s : Vm) : Mapped (Unit {0}) → Type 0 where
  bad_virtual :
      is_canonical virt ≡ false → MapPage owner pos root virt phys flags s (err non_canonical s)
  bad_alignment :
      is_aligned virt ≡ false → MapPage owner pos root virt phys flags s (err unaligned_virtual s)
  bad_physical :
      ¬ (phys % page_size ≡ 0) → MapPage owner pos root virt phys flags s (err unaligned_physical s)
  taken :
      {s' : Vm} (pos' : Ghost) (e : ℕ × ℕ)
      → mmu s.entries root virt ≡ some e
      → Grows owner pos pos' s s'
      → MapPage owner pos root virt phys flags s (err already_mapped s')
  no_frame :
      {s' : Vm} (pos' : Ghost)
      → mmu s.entries root virt ≡ none
      → Grows owner pos pos' s s'
      → MapPage owner pos root virt phys flags s (err frame_allocation_failed s')
  mapped :
      {s' : Vm} (pos' : Ghost)
      → mmu s.entries root virt ≡ none
      → mmu s'.entries root virt ≡ some (set_entry phys flags, 0)
      → ((r : ℕ) (v : VirtAddr)
          → IsRoot pos r
          → ¬ (leaf_of owner r v ≡ leaf_of owner root virt)
          → mmu s'.entries r v ≡ mmu s.entries r v)
      → IsTree owner pos' s'
      → ((u : ℕ) (q : Trail) → pos u ≡ some q → pos' u ≡ some q)
      → MapPage owner pos root virt phys flags s (ok tt s')

module _ (owner : ℕ → ℕ → ℕ) (pos : Ghost) (root : ℕ) (virt : VirtAddr) (phys : PhysPage)
    (flags : PageTableFlags) (s : Vm) (at_root : IsRoot pos root)
    (flags_present : is_present flags ≡ true) where
  abbrev Outcome : Mapped (Unit {0}) → Type 0
  Outcome = MapPage owner pos root virt phys flags s

  -- The walk for `virt` has come to table `t`, with the indices `js` to go.
  record At (t : ℕ) (js : List ℕ) (pos1 : Ghost) (s1 : Vm) : Type 0 where
    grows : Grows owner pos pos1 s s1
    trail : Trail
    at : pos1 t ≡ some trail
    two_levels : 0 < length trail
    levels : length js + length trail ≡ 5
    leads : follow owner trail js ≡ leaf_of owner root virt
    chain : Chain pos1 s1.entries t js root (indices virt)

  same_mmu :
      {pos1 : Ghost} {s1 : Vm}
      → Grows owner pos pos1 s s1
      → (r : ℕ) (v : VirtAddr) → IsRoot pos r
      → mmu s1.entries r v ≡ mmu s.entries r v
  same_mmu g r v is_root = unfold mmu in g.walks r (r ∷ []) (indices v) is_root (omega arith) refl

  -- What the walk finds is what it finds from table `t` on, and was there before.
  walked :
      {t : ℕ} {js : List ℕ} {pos1 : Ghost} {s1 : Vm}
      → At t js pos1 s1
      → mmu s.entries root virt ≡ walk s1.entries t js
  walked a = sym (same_mmu a.grows root virt at_root) ∙ unfold mmu in walk-Chain a.chain

  -- One call of `get_or_create_table`, and what follows it.
  step :
      {s1 : Vm} {pos1 : Ghost} (t i j : ℕ) (js : List ℕ) (k : ℕ → Vm → Mapped (Unit {0}))
      → At t (i ∷ j ∷ js) pos1 s1
      → ((u : ℕ) (pos2 : Ghost) (s2 : Vm) → At u (j ∷ js) pos2 s2 → Outcome (k u s2))
      → Outcome (get_or_create_table t i s1 >>= k)
  step {s1} {pos1} t i j js k a next = by_result (
      get_or_create_table-Created owner pos1 s1 a.grows.tree t i a.trail a.at a.two_levels
        (omega (arith, a.levels)))
    where
      by_result : {r : Mapped ℕ} → Created owner pos1 t i a.trail s1 r → Outcome (r >>= k)
      by_result (covered present huge) =
          taken pos1 (s1.entries t i, length (j ∷ js))
            (walked a ∙ unfold walk in rw (if_true _ _ present, if_true _ _ huge)) a.grows
      by_result (exhausted absent g) =
          no_frame pos1 (walked a ∙ unfold walk in rw (if_false _ _ absent)) (Grows-trans a.grows g)
      by_result (created {s' = s2} u pos2 g at_u l) = next u pos2 s2 (record {
        grows = Grows-trans a.grows g;
        trail = extend owner i a.trail;
        at = at_u;
        two_levels = omega (arith, length-extend owner i a.trail, a.two_levels);
        levels = omega (arith, length-extend owner i a.trail, a.two_levels, a.levels);
        leads = a.leads;
        chain =
            Chain-snoc (g.trails t a.trail a.at) (omega (arith, a.levels)) l
              (Chain-map g.trails (λ u' i' q at' _ present. g.kept u' i' q at' present) a.chain);
      })

  -- The leaf entry.
  last :
      {s1 : Vm} {pos1 : Ghost} (t i : ℕ)
      → At t (i ∷ []) pos1 s1
      → Outcome (set_leaf t i phys flags s1)
  last {s1} {pos1} t i a = elim (Bool-cases (is_present (s1.entries t i))) [
    | inl present ↦
        let e : set_leaf t i phys flags s1 ≡ err already_mapped s1 =
          unfold set_leaf in if_true _ _ present in
        rw e
          (taken pos1 (s1.entries t i, 0) (walked a ∙ unfold walk in if_true _ _ present) a.grows)
    | inr absent ↦
        let e : set_leaf t i phys flags s1
            ≡ ok tt (record s1 { entries = write s1.entries t i (set_entry phys flags) }) =
          unfold set_leaf in if_false _ _ absent in
        rw e (by_write absent)
  ]
    where
      leaf : length a.trail ≡ 4
      leaf = omega (arith, a.levels)

      new_entry : ℕ
      new_entry = set_entry phys flags

      s' : Vm
      s' = record s1 { entries = write s1.entries t i (set_entry phys flags) }

      upper_kept :
          (u j : ℕ) (q : Trail)
          → pos1 u ≡ some q
          → length q < 4
          → is_present (s1.entries u j) ≡ true
          → write s1.entries t i (set_entry phys flags) u j ≡ s1.entries u j
      upper_kept u j q at_u high present =
          upper owner pos1 s1 a.grows.tree t i (set_entry phys flags) a.trail a.at leaf u j q at_u
            high

      there :
          mmu (write s1.entries t i (set_entry phys flags)) root virt
          ≡ some (set_entry phys flags, 0)
      there =
          unfold mmu in
          walk-Chain (Chain-map (λ u q at. at) upper_kept a.chain)
          ∙ walk-leaf s1.entries t i (set_entry phys flags)
              (is_present-set_entry phys flags ∙ flags_present)

      others :
          (r : ℕ) (v : VirtAddr)
          → IsRoot pos r
          → ¬ (leaf_of owner r v ≡ leaf_of owner root virt)
          → mmu (write s1.entries t i (set_entry phys flags)) r v ≡ mmu s.entries r v
      others r v is_root differ =
          let kept : mmu (write s1.entries t i (set_entry phys flags)) r v ≡ mmu s1.entries r v =
            unfold mmu in
            walk-written owner pos1 s1 a.grows.tree t i (set_entry phys flags) a.trail a.at leaf r
              (r ∷ []) (indices v) (a.grows.trails r (r ∷ []) is_root) (omega arith) refl
              (λ e.
                differ (e ∙ sym (extend-long owner i a.trail (omega (arith, leaf))) ∙ a.leads)) in
          kept ∙ same_mmu a.grows r v is_root

      by_write :
          is_present (s1.entries t i) ≡ false
          → Outcome (ok tt (record s1 { entries = write s1.entries t i (set_entry phys flags) }))
      by_write absent =
          mapped pos1 (walked a ∙ unfold walk in if_false _ _ absent) there others
            (IsTree-written owner pos1 s1 a.grows.tree t i (set_entry phys flags) a.trail a.at leaf)
            a.grows.trails

  start : IsTree owner pos s → At root (indices virt) pos s
  start is = record {
    grows = Grows-refl owner pos s is;
    trail = root ∷ [];
    at = at_root;
    two_levels = omega arith;
    levels = refl;
    leads = refl;
    chain = here;
  }

pub map_page-MapPage :
    (owner : ℕ → ℕ → ℕ) (pos : Ghost) (root : ℕ) (virt : VirtAddr) (phys : PhysPage)
    (flags : PageTableFlags) (s : Vm)
    → IsTree owner pos s
    → IsRoot pos root
    → is_present flags ≡ true
    → MapPage owner pos root virt phys flags s (map_page root virt phys flags s)
unfolding map_page
map_page-MapPage owner pos root virt phys flags s is at_root flags_present =
    elim (Bool-cases (is_canonical virt)) [
      | inr bad ↦ rw bad (bad_virtual bad)
      | inl canonical ↦ elim (Bool-cases (is_aligned virt)) [
        | inr bad ↦ rw (canonical, bad) (bad_alignment bad)
        | inl aligned ↦ elim (Bool-cases ((phys % page_size) == 0)) [
          | inr bad ↦ rw (canonical, aligned, bad) (bad_physical (ground arith))
          | inl page_aligned ↦
              rw (canonical, aligned, page_aligned)
                (step owner pos root virt phys flags s at_root flags_present root (pml4_index virt)
                  (pdpt_index virt) (pd_index virt ∷ pt_index virt ∷ []) _
                  (start owner pos root virt phys flags s at_root flags_present is)
                  λ pdpt pos1 s1 a1.
                    step owner pos root virt phys flags s at_root flags_present pdpt
                      (pdpt_index virt) (pd_index virt) (pt_index virt ∷ []) _ a1
                      λ pd pos2 s2 a2.
                        step owner pos root virt phys flags s at_root flags_present pd
                          (pd_index virt) (pt_index virt) [] _ a2
                          λ pt pos3 s3 a3.
                            last owner pos root virt phys flags s at_root flags_present pt
                              (pt_index virt) a3)
        ]
      ]
    ]
