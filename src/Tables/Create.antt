-- ===== src/Tables/Create.antt =====
-- `get_or_create_table` of src/vmm.rs: it yields the table of the extended trail, and no walk of
-- the processor notices.
use ventura_os.Base.{
  ℕ, ◌+◌, ◌%◌, ◌^◌, ◌<◌, ◌≡◌, refl, sym, ◌∙◌, true, false, none, some, ◌⊎◌, List, [], ◌∷◌, length,
  arith, inl, inr, Bool-cases, ap, bit_or, ℕ_discrete,
}
use mathlib.Core.Option.{some-injective}
use ventura_os.Memory.{page_size}
use ventura_os.Paging.{is_present, is_huge, phys_addr, set_entry, present_flag, writable_flag}
use ventura_os.Paging.Entry.{
  IsFlags, is_present-set_entry, is_huge-set_entry, phys_addr-set_entry, is_present-zero,
}
use ventura_os.Tables.{
  Vm, Mapped, ok, err, already_mapped, frame_allocation_failed, write, zero_table,
}
use ventura_os.Tables.Mmu.{walk, Links, walk-Links}
use ventura_os.Tables.Tree.{Trail, extend, length-extend, Ghost, Children, IsTree, ne_of_pos}

abbrev pub link_flags : ℕ
link_flags = bit_or present_flag writable_flag

link_flags_lem : IsFlags link_flags × (is_present link_flags ≡ true) × (is_huge link_flags ≡ false)
unfolding is_present is_huge
link_flags_lem = ground arith

-- Walks from tables are the same under both readings of memory.
abbrev pub SameWalks : Ghost → (ℕ → ℕ → ℕ) → (ℕ → ℕ → ℕ) → Type 0
SameWalks pos entries entries' =
    (u : ℕ) (p : Trail) (is : List ℕ)
    → pos u ≡ some p
    → 0 < length p
    → length is + length p ≡ 5
    → walk entries' u is ≡ walk entries u is

-- The memory after a new table `f` is linked at entry `i` of table `t`.
abbrev pub linked : (ℕ → ℕ → ℕ) → ℕ → ℕ → ℕ → ℕ → ℕ → ℕ
linked entries t i f = write (zero_table entries f) t i (set_entry f link_flags)

same_length :
    (pos : Ghost) (t u : ℕ) {p q : Trail}
    → pos t ≡ some p
    → pos u ≡ some q
    → u ≡ t
    → length q ≡ length p
same_length pos t u {p} {q} at at_u e = ap length (some-injective q p (sym at_u ∙ ap pos e ∙ at))

-- Walks agree if they read the same entry and agree below it.
pub walk_cong :
    (entries' entries : ℕ → ℕ → ℕ) (u j k : ℕ) (is : List ℕ)
    → entries' u j ≡ entries u j
    → (is_present (entries u j) ≡ true
        → is_huge (entries u j) ≡ false
        → walk entries' (phys_addr (entries u j)) (k ∷ is)
          ≡ walk entries (phys_addr (entries u j)) (k ∷ is))
    → walk entries' u (j ∷ k ∷ is) ≡ walk entries u (j ∷ k ∷ is)
unfolding walk
walk_cong entries' entries u j k is e below = elim (Bool-cases (is_present (entries u j))) [
  | inr absent ↦ rw (e, absent)
  | inl present ↦ elim (Bool-cases (is_huge (entries u j))) [
    | inl huge ↦ rw (e, present, huge)
    | inr table ↦ rw (e, present, table) (below present table)
  ]
]

module _ (owner : ℕ → ℕ → ℕ) (pos : Ghost) (entries : ℕ → ℕ → ℕ)
    (children : Children owner pos entries) (t i f : ℕ) (p : Trail) (at : pos t ≡ some p)
    (nonempty : 0 < length p) (high : length p < 4) (new : pos f ≡ none) (fits : f < 2 ^ 52)
    (aligned : f % page_size ≡ 0) (absent : is_present (entries t i) ≡ false) where
  abbrev after : ℕ → ℕ → ℕ
  after = linked entries t i f

  at_link : after t i ≡ set_entry f link_flags
  at_link = ground arith

  pub Links-linked : Links after t i f
  Links-linked = record {
    present = rw at_link (is_present-set_entry f link_flags ∙ link_flags_lem.1);
    table = rw at_link (is_huge-set_entry f link_flags ∙ link_flags_lem.2);
    leads = rw at_link (phys_addr-set_entry f link_flags fits aligned link_flags_lem.0);
  }

  pub in_new : (j : ℕ) → after f j ≡ 0
  in_new j = ground (arith, ne_of_pos pos f t new at)

  pub elsewhere :
      (u j : ℕ) (q : Trail) → pos u ≡ some q → ¬ ((u ≡ t) × (j ≡ i)) → after u j ≡ entries u j
  elsewhere u j q at_u ne = ground (arith, ne_of_pos pos f u new at_u)

  walk-new : (j : ℕ) (is : List ℕ) → walk after f (j ∷ is) ≡ none
  unfolding walk
  walk-new j [] = rw (in_new j, is_present-zero)
  walk-new j (k ∷ is) = rw (in_new j, is_present-zero)

  -- At the linked entry both walks find nothing.
  walk-at_link : (k : ℕ) (is : List ℕ) → walk after t (i ∷ k ∷ is) ≡ walk entries t (i ∷ k ∷ is)
  walk-at_link k is =
      walk-Links after t i f k is Links-linked ∙ walk-new k is ∙ sym (unfold walk in rw absent)

  pub SameWalks-linked : SameWalks pos entries after
  SameWalks-linked u q [] at_u ne len = unfold walk in refl
  SameWalks-linked u q (j ∷ []) at_u ne len =
      let e : after u j ≡ entries u j =
        elsewhere u j q at_u λ same. absurd (omega (arith, same_length pos t u at at_u same.0)) in
      unfold walk in rw e
  SameWalks-linked u q (j ∷ k ∷ is) at_u ne len = elim (both u j) [
    | inl same ↦ rw (same.0, same.1) (walk-at_link k is)
    | inr differ ↦ walk_cong after entries u j k is (elsewhere u j q at_u differ) λ present table.
        SameWalks-linked (phys_addr (entries u j)) (extend owner j q) (k ∷ is)
          (children u q j at_u ne (omega arith) present table)
          (omega (arith, length-extend owner j q)) (omega (arith, length-extend owner j q))
  ]
    where
      both : (u j : ℕ) → ((u ≡ t) × (j ≡ i)) ⊎ (¬ ((u ≡ t) × (j ≡ i)))
      both u j = elim (ℕ_discrete u t) [
        | yes e ↦ elim (ℕ_discrete j i) [ yes e' ↦ inl (e, e') | no ne' ↦ inr (λ same. ne' same.1) ]
        | no ne' ↦ inr (λ same. ne' same.0)
      ]

-- What stays when tables are added: trails, links that were there, and walks.
pub record Grows (owner : ℕ → ℕ → ℕ) (pos pos' : Ghost) (s s' : Vm) : Type 0 where
  pub tree : IsTree owner pos' s'
  pub trails : (u : ℕ) (q : Trail) → pos u ≡ some q → pos' u ≡ some q
  pub kept :
      (u j : ℕ) (q : Trail)
      → pos u ≡ some q
      → is_present (s.entries u j) ≡ true
      → s'.entries u j ≡ s.entries u j
  pub walks : SameWalks pos s.entries s'.entries

-- What `get_or_create_table` promises for entry `i` of the table `t`.
pub data Created (owner : ℕ → ℕ → ℕ) (pos : Ghost) (t i : ℕ) (p : Trail) (s : Vm)
    : Mapped ℕ → Type 0 where
  covered :
      is_present (s.entries t i) ≡ true
      → is_huge (s.entries t i) ≡ true
      → Created owner pos t i p s (err already_mapped s)
  exhausted :
      {s' : Vm}
      → is_present (s.entries t i) ≡ false
      → Grows owner pos pos s s'
      → Created owner pos t i p s (err frame_allocation_failed s')
  created :
      {s' : Vm} (u : ℕ) (pos' : Ghost)
      → Grows owner pos pos' s s'
      → pos' u ≡ some (extend owner i p)
      → Links s'.entries t i u
      → Created owner pos t i p s (ok u s')

module _ (owner : ℕ → ℕ → ℕ) (pos : Ghost) (s : Vm) (is : IsTree owner pos s) where
  pub Grows-refl : Grows owner pos pos s s
  Grows-refl = record {
    tree = is;
    trails = λ u q at. at;
    kept = λ u j q at present. refl;
    walks = λ u q js at ne len. refl;
  }
