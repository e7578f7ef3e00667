-- ===== src/Boot/KernelHalf.antt =====
-- The root that `init` of src/vmm.rs makes, and the kernel half of it.
use ventura_os.Base.{
  ℕ, zero, suc, ◌+◌, ◌≡◌, ◌<◌, ◌≤◌, ◌⊎◌, refl, sym, ◌∙◌, ap, subst, Bool, true, false, Option, none,
  some, [], ◌∷◌, leb, ◌==◌, if◌then◌else◌, if_true, if_false, Bool-cases, inl, inr, arith,
  ℕ_discrete, eq→==, ne→==, bit_or,
}
use mathlib.Core.Path.{Path}
use mathlib.Core.Bool.{false≢true}
use ventura_os.Pmm.{Pmm, PhysPage, allocate_physical_page}
use ventura_os.Pmm.Alloc.{Allocation, out_of_memory, page, allocate_physical_page-Allocation}
use ventura_os.Paging.{
  is_present, is_huge, set_entry, present_flag, writable_flag, kernel_pml4_start,
}
use ventura_os.Paging.Entry.{is_present-zero}
use ventura_os.Tables
use ventura_os.Tables.{
  Vm, Mapped, bootstrap_table_count, allocate_bootstrap_table, allocate_table, get_or_create_table,
  zero_table,
}
use ventura_os.Tables.Tree.{Trail, Ghost, IsTree, pool_table}
use ventura_os.Tables.Create.{Created, covered, exhausted, created}
use ventura_os.Tables.Link.{get_or_create_table-Created}
use ventura_os.Boot.{create_kernel_half}
use ventura_os.Boot.Tree.{Rooted, Grows-Rooted}

-- The ghost map with one table, a root.
abbrev only : ℕ → Ghost
only t u = if t == u then some (t ∷ []) else none

only_root : (t u : ℕ) (p : Trail) → only t u ≡ some p → t ≡ u
only_root t u p at = elim (ℕ_discrete t u) [
  | yes same ↦ same
  | no ne ↦ absurd (some_none (sym at ∙ if_false _ _ (ne→== t u ne)))
]
  where
    some_none : {q : Trail} → ¬ (Path (Option Trail) (some q) none)
    some_none e = false≢true (ap (λ o. elim o [ none ↦ true | some _ ↦ false ]) e)

-- The flag is no part of the tree.
pub IsTree-flag :
    (owner : ℕ → ℕ → ℕ) (pos : Ghost) (s : Vm) (b : Bool)
    → IsTree owner pos s
    → IsTree owner pos (record s { is_bootstrapping = b })
IsTree-flag owner pos s b is = record {
  pmm_valid = is.pmm_valid;
  in_use = is.in_use;
  child = is.child;
  pool_aligned = is.pool_aligned;
  pool_end = is.pool_end;
  pool_used = is.pool_used;
  pool_fresh = is.pool_fresh;
}

-- Outside the boot, `get_or_create_table` fails only without a free page or at a huge entry.
data Fresh (t i : ℕ) (s : Vm) : Mapped ℕ → Type 0 where
  kept : {u : ℕ} {s' : Vm} → s'.is_bootstrapping ≡ false → Fresh t i s (Tables.ok u s')
  stuck :
      {e : Tables.MapError} {s' : Vm}
      → ((allocate_physical_page s'.pmm).0 ≡ none) ⊎ (is_huge (s'.entries t i) ≡ true)
      → Fresh t i s (Tables.err e s')

get_or_create_table-Fresh :
    (owner : ℕ → ℕ → ℕ) (pos : Ghost) (t i : ℕ) (s : Vm)
    → IsTree owner pos s
    → s.is_bootstrapping ≡ false
    → Fresh t i s (get_or_create_table t i s)
unfolding get_or_create_table allocate_table
get_or_create_table-Fresh owner pos t i s is running =
    elim (Bool-cases (is_present (s.entries t i))) [
      | inl present ↦ rw (if_true _ _ present) (elim (Bool-cases (is_huge (s.entries t i))) [
        | inl huge ↦ rw (if_true _ _ huge) (stuck (inr huge))
        | inr table ↦ rw (if_false _ _ table) (kept running)
      ])
      | inr absent ↦
          let filled : Option PhysPage × Vm → Mapped ℕ = λ r. elim r.0 [
            | none ↦ Tables.err Tables.frame_allocation_failed r.1
            | some f ↦ Tables.ok f (record r.1 {
              entries =
                  Tables.write (zero_table r.1.entries f) t i
                    (set_entry f (bit_or present_flag writable_flag));
            })
          ] in
          subst (Fresh t i s) (sym (if_false _ _ absent ∙ ap filled (if_false _ _ running))) (
            by_page (allocate_physical_page s.pmm) refl
              (allocate_physical_page-Allocation s.pmm is.pmm_valid))
    ]
  where
    by_page :
        (r : Option PhysPage × Pmm)
        → allocate_physical_page s.pmm ≡ r
        → Allocation s.pmm r
        → Fresh t i s (elim r.0 [
          | none ↦ Tables.err Tables.frame_allocation_failed (record s { pmm = r.1 })
          | some f ↦ Tables.ok f (record s {
            pmm = r.1;
            entries =
                Tables.write
                  (zero_table s.entries f)
                  t
                  i
                  (set_entry f (bit_or present_flag writable_flag));
          })
        ])
    by_page _ e (out_of_memory none_left none_free) = stuck (inl (ap (λ x. x.0) e))
    by_page _ e (page p a b c d f g h j l m) = kept running

module _ (owner : ℕ → ℕ → ℕ) where
  -- The first table of the pool is a root without links.
  pub root_table-Rooted :
      (s : Vm)
      → IsTree owner (λ _. none) s
      → s.bootstrap_index < bootstrap_table_count
      → (allocate_bootstrap_table s).0 ≡ some (pool_table s s.bootstrap_index)
        × Rooted owner (pool_table s s.bootstrap_index) (allocate_bootstrap_table s).1
  unfolding allocate_bootstrap_table
  root_table-Rooted s is room =
      let t : ℕ = pool_table s s.bootstrap_index in
      let left : leb bootstrap_table_count s.bootstrap_index ≡ false = ground (arith, room) in
      rw left (
        refl,
        record {
          pos = only t;
          tree = record {
            pmm_valid = is.pmm_valid;
            in_use = λ u p at. rw (← only_root t u p at) (is.pool_used s.bootstrap_index room);
            child = λ u p i at low high present table.
                let zero_entry : zero_table s.entries t u i ≡ 0 =
                  if_true _ _ (eq→== t u (only_root t u p at)) in
                absurd
                  (false≢true (sym is_present-zero ∙ ap is_present (sym zero_entry) ∙ present));
            pool_aligned = is.pool_aligned;
            pool_end = is.pool_end;
            pool_used = is.pool_used;
            pool_fresh = λ j low high.
                if_false _ _ (ne→== t (pool_table s j) (λ e. absurd (omega (arith, e, low))));
          };
          at = if_true _ _ (eq→== t t refl);
        },
      )

-- Every slot of the kernel half below `i` is present.
abbrev pub Half : (ℕ → ℕ → ℕ) → ℕ → ℕ → Type 0
Half entries root i = (j : ℕ) → kernel_pml4_start ≤ j → j < i → is_present (entries root j) ≡ true

-- The reasons for a halt: no free page, or a huge entry in the root.
abbrev pub Stuck : ℕ → Vm → Type 0
Stuck root s =
    ((allocate_physical_page s.pmm).0 ≡ none) ⊎ ((i : ℕ) × (is_huge (s.entries root i) ≡ true))

pub data HalfResult (owner : ℕ → ℕ → ℕ) (root : ℕ) : Bool × Vm → Type 0 where
  complete :
      {s' : Vm} → Rooted owner root s' → Half s'.entries root 512 → HalfResult owner root (true, s')
  incomplete : {s' : Vm} → Rooted owner root s' → Stuck root s' → HalfResult owner root (false, s')

pub create_kernel_half-HalfResult :
    (owner : ℕ → ℕ → ℕ) (root left i : ℕ) (s : Vm)
    → Rooted owner root s
    → s.is_bootstrapping ≡ false
    → i + left ≡ 512
    → Half s.entries root i
    → HalfResult owner root (create_kernel_half left i root s)
unfolding create_kernel_half
create_kernel_half-HalfResult owner root zero i s w running total half =
    complete w (λ j low high. half j low (omega (arith, total, high)))
create_kernel_half-HalfResult owner root (suc left) i s w running total half =
    by_result (get_or_create_table root i s)
      (get_or_create_table-Created owner w.pos s w.tree root i (root ∷ []) w.at (omega arith)
        (omega arith))
      (get_or_create_table-Fresh owner w.pos root i s w.tree running)
      (λ s' w' r h.
        create_kernel_half-HalfResult owner root left (suc i) s' w' r (omega (arith, total)) h)
  where
    by_result :
        (m : Mapped ℕ)
        → Created owner w.pos root i (root ∷ []) s m
        → Fresh root i s m
        → ((s' : Vm)
            → Rooted owner root s'
            → s'.is_bootstrapping ≡ false
            → Half s'.entries root (suc i)
            → HalfResult owner root (create_kernel_half left (suc i) root s'))
        → HalfResult owner root (elim m [
          | Tables.ok _ s' ↦ create_kernel_half left (suc i) root s'
          | Tables.err _ s' ↦ (false, s')
        ])
    by_result _ (covered present huge) fresh next = incomplete w (inr (i, huge))
    by_result _ (exhausted absent g) (stuck (inl spent)) next =
        incomplete (Grows-Rooted owner root w.at g) (inl spent)
    by_result _ (exhausted absent g) (stuck (inr huge)) next =
        incomplete (Grows-Rooted owner root w.at g) (inr (i, huge))
    by_result _ (created {s' = s'} u pos' g at_u l) (kept running') next =
        next s' (Grows-Rooted owner root w.at g) running' λ j low high. elim (ℕ_discrete j i) [
          | yes same ↦ rw same l.present
          | no ne ↦
              let before : is_present (s.entries root j) ≡ true =
                half j low (omega (arith, ne, high)) in
              rw (g.kept root j (root ∷ []) w.at before) before
        ]
