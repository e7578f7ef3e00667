-- ===== src/Boot/Tree.antt =====
-- `init` of src/vmm.rs keeps the tree of page tables valid.
use ventura_os.Base.{
  ℕ, zero, suc, ◌+◌, ◌≡◌, ◌<◌, sym, ◌∙◌, ap, true, not, some, [], ◌∷◌, length, if_true, if_false,
  Bool-cases, inl, inr, arith, ℕ_discrete, bit_or, add64,
}
use mathlib.Core.Bool.{false≢true}
use ventura_os.Memory.{page_size}
use ventura_os.Pmm.{PhysPage}
use ventura_os.Paging.{
  VirtAddr, PageTableFlags, is_present, is_huge, pml4_index, pdpt_index, pd_index, is_canonical,
  huge_page_flag, canonical_virt,
}
use ventura_os.Paging.Entry.{is_huge-set_entry}
use ventura_os.Tables.{Vm, Mapped, write, ◌>>=◌, get_or_create_table, map_page, map_2mb_huge_page}
use ventura_os.Tables.Tree.{Trail, extend, Ghost, Children, IsTree}
use ventura_os.Tables.Create.{Grows, Created, covered, exhausted, created}
use ventura_os.Tables.Link.{get_or_create_table-Created}
use ventura_os.Tables.Map.{
  IsRoot, MapPage, bad_virtual, bad_alignment, bad_physical, taken, no_frame, mapped,
  map_page-MapPage,
}
use ventura_os.Boot.{state_of, ram_flags, huge_page_size, identity_map_huge, identity_map_pages}

-- The tables are a valid tree with the root among its roots.
pub record Rooted (owner : ℕ → ℕ → ℕ) (root : ℕ) (s : Vm) : Type 0 where
  pub pos : Ghost
  pub tree : IsTree owner pos s
  pub at : IsRoot pos root

module _ (owner : ℕ → ℕ → ℕ) (root : ℕ) where
  pub Grows-Rooted :
      {pos pos' : Ghost} {s s' : Vm}
      → IsRoot pos root
      → Grows owner pos pos' s s'
      → Rooted owner root s'
  Grows-Rooted {pos} {pos'} at g = record {
    pos = pos';
    tree = g.tree;
    at = g.trails root (root ∷ []) at;
  }

  pub map_page-Rooted :
      (virt : VirtAddr) (phys : PhysPage) (flags : PageTableFlags) (s : Vm)
      → is_present flags ≡ true
      → Rooted owner root s
      → Rooted owner root (state_of (map_page root virt phys flags s))
  map_page-Rooted virt phys flags s present w =
      by_result (map_page-MapPage owner w.pos root virt phys flags s w.tree w.at present)
    where
      by_result :
          {m : Mapped (Unit {0})}
          → MapPage owner w.pos root virt phys flags s m
          → Rooted owner root (state_of m)
      by_result (bad_virtual h) = w
      by_result (bad_alignment h) = w
      by_result (bad_physical h) = w
      by_result (taken pos' e at g) = Grows-Rooted w.at g
      by_result (no_frame pos' at g) = Grows-Rooted w.at g
      by_result (mapped pos' before after others tree trails) = record {
        pos = pos';
        tree = tree;
        at = trails root (root ∷ []) w.at;
      }

  -- A huge entry links nothing.
  huge-Rooted :
      (s : Vm) (t i e : ℕ)
      → is_huge e ≡ true
      → Rooted owner root s
      → Rooted owner root (record s { entries = write s.entries t i e })
  huge-Rooted s t i e huge w = record {
    pos = w.pos;
    tree = record {
      pmm_valid = w.tree.pmm_valid;
      in_use = w.tree.in_use;
      child = child;
      pool_aligned = w.tree.pool_aligned;
      pool_end = w.tree.pool_end;
      pool_used = w.tree.pool_used;
      pool_fresh = w.tree.pool_fresh;
    };
    at = w.at;
  }
    where
      child : Children owner w.pos (write s.entries t i e)
      child u p j at low high present table = elim (ℕ_discrete t u) [
        | no ne ↦
            let same : write s.entries t i e u j ≡ s.entries u j = ground arith in
            rw same (w.tree.child u p j at low high (rw same at present) (rw same at table))
        | yes eu ↦ elim (ℕ_discrete i j) [
          | no ne ↦
              let same : write s.entries t i e u j ≡ s.entries u j = ground arith in
              rw same (w.tree.child u p j at low high (rw same at present) (rw same at table))
          | yes ej ↦
              let same : write s.entries t i e u j ≡ e = ground arith in
              absurd (false≢true (sym table ∙ ap is_huge same ∙ huge))
        ]
      ]

  -- One call of `get_or_create_table` at a table with a trail, and what follows it.
  step-Rooted :
      {A : Type 0} (s : Vm) (t i : ℕ) (p : Trail) (k : ℕ → Vm → Mapped A)
      → (w : Rooted owner root s) → w.pos t ≡ some p
      → 0 < length p
      → length p < 4
      → ((u : ℕ) (s' : Vm) (w' : Rooted owner root s')
          → w'.pos u ≡ some (extend owner i p)
          → Rooted owner root (state_of (k u s')))
      → Rooted owner root (state_of (get_or_create_table t i s >>= k))
  unfolding Grows-Rooted
  step-Rooted s t i p k w at low high next =
      by_result (get_or_create_table-Created owner w.pos s w.tree t i p at low high)
    where
      by_result :
          {r : Mapped ℕ} → Created owner w.pos t i p s r → Rooted owner root (state_of (r >>= k))
      by_result (covered present huge) = w
      by_result (exhausted absent g) = Grows-Rooted w.at g
      by_result (created {s' = s'} u pos' g at_u l) = next u s' (Grows-Rooted w.at g) at_u

  pub map_2mb_huge_page-Rooted :
      (virt : VirtAddr) (phys : PhysPage) (flags : PageTableFlags) (s : Vm)
      → is_huge (bit_or flags huge_page_flag) ≡ true
      → Rooted owner root s
      → Rooted owner root (state_of (map_2mb_huge_page root virt phys flags s))
  unfolding map_2mb_huge_page
  map_2mb_huge_page-Rooted virt phys flags s huge w = elim (Bool-cases (is_canonical virt)) [
    | inr odd ↦ rw (if_true _ _ (ap not odd)) w
    | inl canonical ↦ rw (if_false _ _ (ap not canonical)) (
        step-Rooted s root (pml4_index virt) (root ∷ []) _ w w.at (omega arith) (omega arith)
          λ pdpt s1 w1 at1.
            step-Rooted s1 pdpt (pdpt_index virt) _ _ w1 at1 (omega arith) (omega arith)
              λ pd s2 w2 at2.
                huge-Rooted s2 pd (pd_index virt) _
                  (is_huge-set_entry _ (bit_or flags huge_page_flag) ∙ huge) w2)
  ]

  pub identity_map_huge-Rooted :
      (left phys_2mb : ℕ) (s : Vm)
      → Rooted owner root s
      → Rooted owner root (identity_map_huge left phys_2mb root s)
  unfolding identity_map_huge is_huge
  identity_map_huge-Rooted zero phys_2mb s w = w
  identity_map_huge-Rooted (suc left) phys_2mb s w =
      identity_map_huge-Rooted left (phys_2mb + huge_page_size) _
        (map_2mb_huge_page-Rooted phys_2mb phys_2mb ram_flags s (ground arith) w)

  pub identity_map_pages-Rooted :
      (left curr : ℕ) (flags : PageTableFlags) (s : Vm)
      → is_present flags ≡ true
      → Rooted owner root s
      → Rooted owner root (identity_map_pages left curr flags root s)
  unfolding identity_map_pages
  identity_map_pages-Rooted zero curr flags s present w = w
  identity_map_pages-Rooted (suc left) curr flags s present w =
      identity_map_pages-Rooted left (add64 curr page_size) flags _ present
        (map_page-Rooted (canonical_virt curr) curr flags s present w)
