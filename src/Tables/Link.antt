-- ===== src/Tables/Link.antt =====
-- Linking a fresh table keeps the tree of src/vmm.rs: the second half of `get_or_create_table`.
use ventura_os.Base.{
  ℕ, ◌/◌, ◌%◌, ◌^◌, ◌≤◌, ◌<◌, ◌≡◌, refl, sym, ◌∙◌, true, false, Option, none, some, [], ◌∷◌, ◌⊎◌,
  length, ◌==◌, if◌then◌else◌, if_true, if_false, arith, inl, inr, Bool-cases, ap, ℕ_discrete,
}
use mathlib.Core.Option.{some-injective}
use mathlib.Core.Bool.{false≢true}
use ventura_os.Memory.{page_size}
use ventura_os.Pmm.{PhysPage}
use ventura_os.Pmm.Pages.{is_free}
use ventura_os.Paging.{is_present, is_huge, phys_addr}
use ventura_os.Paging.Entry.{is_present-zero}
use ventura_os.Tables.{
  Vm, Mapped, ok, err, already_mapped, frame_allocation_failed, allocate_table, get_or_create_table,
  bootstrap_table_count,
}
use ventura_os.Tables.Mmu.{walk, Links}
use ventura_os.Tables.Tree.{
  Trail, extend, length-extend, Ghost, pool_table, Children, IsTree, ne_of_pos, Grown, failed,
  grown, Grown-allocate_table,
}
use ventura_os.Tables.Create.{
  linked, Links-linked, in_new, elsewhere, SameWalks, SameWalks-linked, walk_cong, Grows, Created,
  covered, exhausted, created, Grows-refl,
}

SameWalks-agree :
    (owner : ℕ → ℕ → ℕ) (pos : Ghost) (entries entries' : ℕ → ℕ → ℕ)
    → Children owner pos entries
    → ((u j : ℕ) (q : Trail) → pos u ≡ some q → entries' u j ≡ entries u j)
    → SameWalks pos entries entries'
SameWalks-agree owner pos entries entries' children same u q [] at ne len = unfold walk in refl
SameWalks-agree owner pos entries entries' children same u q (j ∷ []) at ne len =
    unfold walk in rw (same u j q at)
SameWalks-agree owner pos entries entries' children same u q (j ∷ k ∷ is) at ne len =
    walk_cong entries' entries u j k is (same u j q at) λ present table.
      SameWalks-agree owner pos entries entries' children same (phys_addr (entries u j))
        (extend owner j q) (k ∷ is) (children u q j at ne (omega arith) present table)
        (omega (arith, length-extend owner j q)) (omega (arith, length-extend owner j q))

-- The ghost map with the trail of the new table.
abbrev placed : Ghost → ℕ → Trail → Ghost
placed pos f p u = if f == u then some p else pos u

module _ (owner : ℕ → ℕ → ℕ) (pos : Ghost) (s : Vm) (is : IsTree owner pos s) (t i : ℕ) (p : Trail)
    (at : pos t ≡ some p) (nonempty : 0 < length p) (high : length p < 4)
    (absent : is_present (s.entries t i) ≡ false) (f : ℕ) (new : pos f ≡ none) (fits : f < 2 ^ 52)
    (aligned : f % page_size ≡ 0) (used : is_free s.pmm.bitmap (f / page_size) ≡ false)
    (not_pool : (j : ℕ)
      → s.bootstrap_index ≤ j
      → j < bootstrap_table_count
      → ¬ (f ≡ pool_table s j)) where
  abbrev pos' : Ghost
  pos' = placed pos f (extend owner i p)

  abbrev s' : Vm
  s' = record s { entries = linked s.entries t i f }

  pos'-old : (u : ℕ) (q : Trail) → pos u ≡ some q → pos' u ≡ some q
  pos'-old u q at_u = ground (arith, ne_of_pos pos f u new at_u)

  pos'-new : pos' f ≡ some (extend owner i p)
  pos'-new = ground arith

  pos'-cases : (u : ℕ) (q : Trail) → pos' u ≡ some q → (u ≡ f) ⊎ (pos u ≡ some q)
  pos'-cases u q at_u = ground arith

  links : Links s'.entries t i f
  links = Links-linked owner pos s.entries is.child t i f p at nonempty high new fits aligned absent

  child' : Children owner pos' s'.entries
  child' u q j at_u low below present table = elim (pos'-cases u q at_u) [
    | inl e ↦
        let zero_entry : s'.entries u j ≡ 0 = rw e (
          in_new owner pos s.entries is.child t i f p at nonempty high new fits aligned absent j) in
        absurd (false≢true (sym (rw zero_entry is_present-zero) ∙ present))
    | inr old ↦ elim (ℕ_discrete u t) [
      | no ne ↦ other u q j old low below present table (λ same. ne same.0)
      | yes eu ↦ elim (ℕ_discrete j i) [
        | no ne ↦ other u q j old low below present table (λ same. ne same.1)
        | yes ej ↦
            let same_trail : p ≡ q = some-injective p q (sym at ∙ ap pos (sym eu) ∙ old) in
            rw (eu, ej, links.leads, ← same_trail) pos'-new
      ]
    ]
  ]
    where
      other :
          (u : ℕ) (q : Trail) (j : ℕ)
          → pos u ≡ some q
          → 0 < length q
          → length q < 4
          → is_present (s'.entries u j) ≡ true
          → is_huge (s'.entries u j) ≡ false
          → ¬ ((u ≡ t) × (j ≡ i))
          → pos' (phys_addr (s'.entries u j)) ≡ some (extend owner j q)
      other u q j old low below present table differ =
          let e : s'.entries u j ≡ s.entries u j =
            elsewhere owner pos s.entries is.child t i f p at nonempty high new fits aligned absent
              u j q old differ in
          rw e (
            pos'-old (phys_addr (s.entries u j)) (extend owner j q)
              (is.child u q j old low below (rw e at present) (rw e at table)))

  IsTree-linked : IsTree owner pos' s'
  IsTree-linked = record {
    pmm_valid = is.pmm_valid;
    in_use =
        λ u q at_u. elim (pos'-cases u q at_u) [ inl e ↦ rw e used | inr old ↦ is.in_use u q old ];
    child = child';
    pool_aligned = is.pool_aligned;
    pool_end = is.pool_end;
    pool_used = is.pool_used;
    pool_fresh = λ j h h'. ground (arith, not_pool j h h', is.pool_fresh j h h');
  }

  Grows-linked : Grows owner pos pos' s s'
  Grows-linked = record {
    tree = IsTree-linked;
    trails = pos'-old;
    kept = λ u j q at_u present.
        elsewhere owner pos s.entries is.child t i f p at nonempty high new fits aligned absent u j
          q at_u λ same. false≢true (sym absent ∙ rw (← same.0, ← same.1) present);
    walks =
        SameWalks-linked owner pos s.entries is.child t i f p at nonempty high new fits aligned
          absent;
  }

-- New tables on top of new tables.
pub Grows-trans :
    {owner : ℕ → ℕ → ℕ} {pos pos1 pos2 : Ghost} {s s1 s2 : Vm}
    → Grows owner pos pos1 s s1
    → Grows owner pos1 pos2 s1 s2
    → Grows owner pos pos2 s s2
Grows-trans {s} g h = record {
  tree = h.tree;
  trails = λ u q at. h.trails u q (g.trails u q at);
  kept = λ u j q at present.
      let e = g.kept u j q at present in h.kept u j q (g.trails u q at) (rw e present) ∙ e;
  walks = λ u q is at ne len. h.walks u q is (g.trails u q at) ne len ∙ g.walks u q is at ne len;
}

Grows-frame :
    (owner : ℕ → ℕ → ℕ) (pos : Ghost) (s s' : Vm)
    → IsTree owner pos s
    → IsTree owner pos s'
    → ((u j : ℕ) (q : Trail) → pos u ≡ some q → s'.entries u j ≡ s.entries u j)
    → Grows owner pos pos s s'
Grows-frame owner pos s s' is is' same = record {
  tree = is';
  trails = λ u q at. at;
  kept = λ u j q at present. same u j q at;
  walks = SameWalks-agree owner pos s.entries s'.entries is.child same;
}

module _ (owner : ℕ → ℕ → ℕ) (pos : Ghost) (s : Vm) (is : IsTree owner pos s) (t i : ℕ) (p : Trail)
    (at : pos t ≡ some p) (nonempty : 0 < length p) (high : length p < 4) where
  abbrev linked_result : Option PhysPage × Vm → Mapped ℕ
  linked_result (none, s') = err frame_allocation_failed s'
  linked_result (some f, s') = ok f (record s' { entries = linked s'.entries t i f })

  get_or_create_table-absent :
      is_present (s.entries t i) ≡ false
      → get_or_create_table t i s ≡ linked_result (allocate_table s)
  unfolding get_or_create_table
  get_or_create_table-absent absent = rw (if_false _ _ absent) (by_cases (allocate_table s))
    where
      by_cases :
          (r : Option PhysPage × Vm)
          → ◌≡◌ {A = Mapped ℕ}
              (elim r.0 [
                | none ↦ err frame_allocation_failed r.1
                | some f ↦ ok f (record (r.1) { entries = linked (r.1).entries t i f })
              ])
              (linked_result r)
      by_cases (none, s') = refl
      by_cases (some f, s') = refl

  Created-Grown :
      {r : Option PhysPage × Vm}
      → is_present (s.entries t i) ≡ false
      → Grown owner pos s r
      → Created owner pos t i p s (linked_result r)
  Created-Grown absent (failed {s'} is' same) =
      exhausted absent (Grows-frame owner pos s s' is is' (λ u j q _. same u j))
  Created-Grown absent (grown {s'} f new fits aligned used not_pool is' same) =
      let frame : (u j : ℕ) (q : Trail) → pos u ≡ some q → s'.entries u j ≡ s.entries u j =
        λ u j q at_u. same u j (ne_of_pos pos f u new at_u) in
      let absent' : is_present (s'.entries t i) ≡ false = rw (frame t i p at) absent in
      created f (placed pos f (extend owner i p))
        (Grows-trans (Grows-frame owner pos s s' is is' frame) (
          Grows-linked owner pos s' is' t i p at nonempty high absent' f new fits aligned used
            not_pool))
        (pos'-new owner pos s' is' t i p at nonempty high absent' f new fits aligned used not_pool)
        (links owner pos s' is' t i p at nonempty high absent' f new fits aligned used not_pool)

  -- `get_or_create_table` is stopped by a huge page, runs out of frames, or yields the table of
  -- the extended trail.
  pub get_or_create_table-Created : Created owner pos t i p s (get_or_create_table t i s)
  get_or_create_table-Created = elim (Bool-cases (is_present (s.entries t i))) [
    | inr absent ↦
        rw (get_or_create_table-absent absent)
          (Created-Grown absent (Grown-allocate_table owner pos s is))
    | inl present ↦ elim (Bool-cases (is_huge (s.entries t i))) [
      | inl huge ↦
          let e : get_or_create_table t i s ≡ err already_mapped s =
            unfold get_or_create_table in rw (if_true _ _ present, if_true _ _ huge) in
          rw e (covered present huge)
      | inr table ↦
          let e : get_or_create_table t i s ≡ ok (phys_addr (s.entries t i)) s =
            unfold get_or_create_table in rw (if_true _ _ present, if_false _ _ table) in
          rw e (
            created (phys_addr (s.entries t i)) pos (Grows-refl owner pos s is)
              (is.child t p i at nonempty high present table)
              (record { present = present; table = table; leads = refl }))
    ]
  ]
