-- ===== src/Tables/Tree.antt =====
-- The invariant of the page tables of src/vmm.rs. A ghost map `pos` gives each table its trail, the
-- indices that lead to it, latest first, and the root that owns them last. A root table `r` has the
-- trail `r ∷ []`; its slot `i` belongs to the root `owner r i`, which is another one for a slot that
-- address spaces share.
use ventura_os.Base.{
  ℕ, suc, ◌+◌, ◌*◌, ◌/◌, ◌%◌, ◌^◌, ◌≤◌, ◌<◌, ◌≡◌, refl, sym, ◌∙◌, true, false, Option, none, some,
  List, [], ◌∷◌, length, leb, if_true, if_false, arith, inl, inr, Bool-cases, ap, Option-cases,
}
use mathlib.Core.Bool.{false≢true}
use ventura_os.Memory.{page_size}
use ventura_os.Pmm.{Pmm, PhysPage}
use ventura_os.Pmm.Pages.{is_free, IsValid}
use ventura_os.Pmm.Alloc.{Allocation, out_of_memory, page, allocate_physical_page-Allocation}
use ventura_os.Paging.{is_present, is_huge, phys_addr}
use ventura_os.Tables.{
  Vm, bootstrap_table_count, zero_table, allocate_bootstrap_table, allocate_table,
}

abbrev pub Trail : Type 0
Trail = List ℕ

-- The trail of the table behind slot `i` of a table with the given trail.
abbrev pub extend : (ℕ → ℕ → ℕ) → ℕ → Trail → Trail
extend owner i [] = []
extend owner i (r ∷ []) = i ∷ owner r i ∷ []
extend owner i (a ∷ b ∷ p) = i ∷ a ∷ b ∷ p

pub length-extend :
    (owner : ℕ → ℕ → ℕ) (i : ℕ) (p : Trail)
    → 0 < length p
    → length (extend owner i p) ≡ suc (length p)
length-extend owner i [] h = absurd (omega arith)
length-extend owner i (r ∷ []) h = refl
length-extend owner i (a ∷ b ∷ p) h = refl

pub extend-long : (owner : ℕ → ℕ → ℕ) (i : ℕ) (p : Trail) → 1 < length p → extend owner i p ≡ i ∷ p
extend-long owner i [] h = absurd (omega arith)
extend-long owner i (r ∷ []) h = absurd (omega arith)
extend-long owner i (a ∷ b ∷ p) h = refl

abbrev pub Ghost : Type 0
Ghost = ℕ → Option Trail

-- The address of pool table `j`.
abbrev pub pool_table : Vm → ℕ → ℕ
pool_table s j = s.pool_base + j * page_size

-- Every link from a table above the last level goes to the table of the extended trail.
abbrev pub Children : (ℕ → ℕ → ℕ) → Ghost → (ℕ → ℕ → ℕ) → Type 0
Children owner pos entries =
    (t : ℕ) (p : Trail) (i : ℕ)
    → pos t ≡ some p
    → 0 < length p
    → length p < 4
    → is_present (entries t i) ≡ true
    → is_huge (entries t i) ≡ false
    → pos (phys_addr (entries t i)) ≡ some (extend owner i p)

-- Tables are pages that the page allocator holds as used, links go where the ghost map says, and
-- the pool tables still to come are no tables yet.
pub record IsTree (owner : ℕ → ℕ → ℕ) (pos : Ghost) (s : Vm) : Type 0 where
  pub pmm_valid : IsValid s.pmm
  pub in_use : (t : ℕ) (p : Trail) → pos t ≡ some p → is_free s.pmm.bitmap (t / page_size) ≡ false
  pub child : Children owner pos s.entries
  pub pool_aligned : s.pool_base % page_size ≡ 0
  pub pool_end : s.pool_base + bootstrap_table_count * page_size ≤ 2 ^ 52
  pub pool_used :
      (j : ℕ)
      → j < bootstrap_table_count
      → is_free s.pmm.bitmap (pool_table s j / page_size) ≡ false
  pub pool_fresh :
      (j : ℕ) → s.bootstrap_index ≤ j → j < bootstrap_table_count → pos (pool_table s j) ≡ none

pub ne_of_pos : (pos : Ghost) (f t : ℕ) {p : Trail} → pos f ≡ none → pos t ≡ some p → ¬ (f ≡ t)
ne_of_pos pos f t new old e = cc (ap pos e)

-- Changes to the words of a frame that is no table keep the links.
pub Children-same :
    (owner : ℕ → ℕ → ℕ) (pos : Ghost) (entries entries' : ℕ → ℕ → ℕ)
    → Children owner pos entries
    → ((t : ℕ) (p : Trail) (i : ℕ) → pos t ≡ some p → entries' t i ≡ entries t i)
    → Children owner pos entries'
Children-same owner pos entries entries' c same t p i at low high present table =
    let e = same t p i at in rw e (c t p i at low high (rw e at present) (rw e at table))

pub zero_table_ne :
    (entries : ℕ → ℕ → ℕ) (f u j : ℕ) → ¬ (f ≡ u) → zero_table entries f u j ≡ entries u j
zero_table_ne entries f u j ne = ground arith

-- What a fresh frame promises.
pub data Grown (owner : ℕ → ℕ → ℕ) (pos : Ghost) (s : Vm) : Option PhysPage × Vm → Type 0 where
  failed :
      {s' : Vm}
      → IsTree owner pos s'
      → ((u j : ℕ) → s'.entries u j ≡ s.entries u j)
      → Grown owner pos s (none, s')
  grown :
      {s' : Vm} (f : ℕ)
      → pos f ≡ none
      → f < 2 ^ 52
      → f % page_size ≡ 0
      → is_free s'.pmm.bitmap (f / page_size) ≡ false
      → ((j : ℕ) → s'.bootstrap_index ≤ j → j < bootstrap_table_count → ¬ (f ≡ pool_table s' j))
      → IsTree owner pos s'
      → ((u j : ℕ) → ¬ (f ≡ u) → s'.entries u j ≡ s.entries u j)
      → Grown owner pos s (some f, s')

module _ (owner : ℕ → ℕ → ℕ) (pos : Ghost) (s : Vm) (is : IsTree owner pos s) where
  Grown-allocate_bootstrap_table : Grown owner pos s (allocate_bootstrap_table s)
  unfolding allocate_bootstrap_table
  Grown-allocate_bootstrap_table = elim (Bool-cases (leb bootstrap_table_count s.bootstrap_index)) [
    | inl full ↦ rw full (failed is (λ u j. refl))
    | inr room ↦
        let f : ℕ = pool_table s s.bootstrap_index in
        let lt : s.bootstrap_index < bootstrap_table_count = ground arith in
        let new : pos f ≡ none = is.pool_fresh s.bootstrap_index (omega arith) lt in
        rw room (
          grown f new (omega (arith, is.pool_end)) (omega (arith, is.pool_aligned))
            (is.pool_used s.bootstrap_index lt) (λ j h h' e. omega arith)
            (record {
              pmm_valid = is.pmm_valid;
              in_use = is.in_use;
              child =
                  Children-same owner pos s.entries _ is.child
                    λ t p i at. zero_table_ne s.entries f t i (ne_of_pos pos f t new at);
              pool_aligned = is.pool_aligned;
              pool_end = is.pool_end;
              pool_used = is.pool_used;
              pool_fresh = λ j h h'. is.pool_fresh j (omega arith) h';
            })
            (λ u j ne. zero_table_ne s.entries f u j ne))
  ]

  -- A page from the allocator is in use by nobody, hence no table and not in the pool.
  Grown-Allocation :
      {r : Option PhysPage × Pmm}
      → Allocation s.pmm r
      → Grown owner pos s (r.0, record s { pmm = r.1 })
  Grown-Allocation (out_of_memory none_left none_free) = failed is (λ u j. refl)
  Grown-Allocation
        (page {s' = pmm'} q pos_q lt free none_below changed fewer more same same' valid) =
      grown (q * page_size) new (omega (arith, is.pmm_valid.bounded, lt)) (omega arith)
        (rw quotient (ground (arith, changed q))) (λ j h h' e. not_pool j h' e)
        (record {
          pmm_valid = valid;
          in_use = λ t p at. still_used (t / page_size) (is.in_use t p at);
          child = is.child;
          pool_aligned = is.pool_aligned;
          pool_end = is.pool_end;
          pool_used = λ j h. still_used (pool_table s j / page_size) (is.pool_used j h);
          pool_fresh = is.pool_fresh;
        })
        (λ u j ne. refl)
    where
      quotient : q * page_size / page_size ≡ q
      quotient = omega arith

      still_used : (x : ℕ) → is_free s.pmm.bitmap x ≡ false → is_free pmm'.bitmap x ≡ false
      still_used x used = ground (arith, changed x)

      not_pool : (j : ℕ) → j < bootstrap_table_count → ¬ (q * page_size ≡ pool_table s j)
      not_pool j h e =
          let e' : q ≡ pool_table s j / page_size = omega arith in
          false≢true (sym (is.pool_used j h) ∙ rw (← e') free)

      new : pos (q * page_size) ≡ none
      new = elim (Option-cases (pos (q * page_size))) [
        | inl n ↦ n
        | inr (p, at) ↦
            absurd (false≢true (sym (is.in_use (q * page_size) p at) ∙ rw quotient free))
      ]

  pub Grown-allocate_table : Grown owner pos s (allocate_table s)
  unfolding allocate_table
  Grown-allocate_table = elim (Bool-cases s.is_bootstrapping) [
    | inl b ↦ rw (if_true _ _ b) Grown-allocate_bootstrap_table
    | inr b ↦
        rw (if_false _ _ b)
          (Grown-Allocation (allocate_physical_page-Allocation s.pmm is.pmm_valid))
  ]
