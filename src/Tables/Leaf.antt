-- ===== src/Tables/Leaf.antt =====
-- A write to one leaf entry, as `map_page` and `unmap_page` of src/vmm.rs do it: it keeps the tree
-- and shows only at the address that the entry stands for.
use ventura_os.Base.{
  ℕ, ◌+◌, ◌<◌, ◌≡◌, refl, sym, ◌∙◌, some, List, [], ◌∷◌, length, arith, ap, ℕ_discrete,
}
use mathlib.Core.Option.{some-injective}
use ventura_os.Paging.{VirtAddr, phys_addr}
use ventura_os.Tables.{Vm, write}
use ventura_os.Tables.Mmu.{walk, indices}
use ventura_os.Tables.Tree.{Trail, extend, length-extend, Ghost, IsTree}
use ventura_os.Tables.Create.{walk_cong}

-- The trail that the indices lead to from a table with trail `q`.
abbrev pub follow : (ℕ → ℕ → ℕ) → Trail → List ℕ → Trail
follow owner q [] = q
follow owner q (j ∷ js) = follow owner (extend owner j q) js

-- The leaf entry that `v` stands for under the root `r`.
abbrev pub leaf_of : (ℕ → ℕ → ℕ) → ℕ → VirtAddr → Trail
leaf_of owner r v = follow owner (r ∷ []) (indices v)

module _ (owner : ℕ → ℕ → ℕ) (pos : Ghost) (s : Vm) (is : IsTree owner pos s) (t i e : ℕ)
    (p : Trail) (at : pos t ≡ some p) (leaf : length p ≡ 4) where
  abbrev written : Vm
  written = record s { entries = write s.entries t i e }

  -- Tables with a trail of another length keep their entries.
  pub upper :
      (u j : ℕ) (q : Trail) → pos u ≡ some q → length q < 4 → written.entries u j ≡ s.entries u j
  upper u j q at_u high = elim (ℕ_discrete u t) [
    | no ne ↦ ground arith
    | yes same ↦
        absurd (omega (arith, leaf, ap length (some-injective q p (sym at_u ∙ ap pos same ∙ at))))
  ]

  pub IsTree-written : IsTree owner pos written
  IsTree-written = record {
    pmm_valid = is.pmm_valid;
    in_use = is.in_use;
    child = λ u q j at_u low high present table.
        let same = upper u j q at_u high in
        rw same (is.child u q j at_u low high (rw same at present) (rw same at table));
    pool_aligned = is.pool_aligned;
    pool_end = is.pool_end;
    pool_used = is.pool_used;
    pool_fresh = is.pool_fresh;
  }

  pub walk-written :
      (u : ℕ) (q : Trail) (js : List ℕ)
      → pos u ≡ some q
      → 0 < length q
      → length js + length q ≡ 5
      → ¬ (follow owner q js ≡ i ∷ p)
      → walk written.entries u js ≡ walk s.entries u js
  walk-written u q [] at_u ne len differ = unfold walk in refl
  walk-written u [] (j ∷ []) at_u ne len differ = absurd (omega arith)
  walk-written u (a ∷ []) (j ∷ []) at_u ne len differ = absurd (omega arith)
  walk-written u (a ∷ b ∷ q) (j ∷ []) at_u ne len differ =
      let same : written.entries u j ≡ s.entries u j = elim (ℕ_discrete u t) [
        | no ne' ↦ ground arith
        | yes eu ↦ elim (ℕ_discrete j i) [
          | no ne' ↦ ground arith
          | yes ej ↦
              let trail : a ∷ b ∷ q ≡ p =
                some-injective (a ∷ b ∷ q) p (sym at_u ∙ ap pos eu ∙ at) in
              absurd (differ (rw (ej, trail)))
        ]
      ] in
      unfold walk in rw same
  walk-written u q (j ∷ k ∷ js) at_u ne len differ =
      walk_cong written.entries s.entries u j k js (upper u j q at_u (omega arith)) λ present table.
        walk-written (phys_addr (s.entries u j)) (extend owner j q) (k ∷ js)
          (is.child u q j at_u ne (omega arith) present table)
          (omega (arith, length-extend owner j q)) (omega (arith, length-extend owner j q)) differ
