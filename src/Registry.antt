-- ===== src/Registry.antt =====
-- The fixed tables of src/thread.rs and src/process.rs, which `register_thread` and
-- `register_process` fill alike: slots with a count of those in use.
use ventura_os.Base.{
  ℕ, ◌+◌, ◌≤◌, ◌<◌, ◌≡◌, refl, sym, ◌∙◌, Bool, true, false, Option, none, some, leb, ◌==◌,
  if◌then◌else◌, update, arith, Bool-cases, eq→==, ne→==, ap, inl, inr, if_true, if_false, not,
}
use mathlib.Core.Bool.{false≢true}
use ventura_os.Base.Count.{count_below, count_below-on, count_below-le}
use ventura_os.Base.Search.{find_first, find_first-Found, Found, hit, miss}

pub record Registry (A : Type 0) : Type 0 where
  pub slots : ℕ → Option A
  pub count : ℕ

module _ {A : Type 0} where
  abbrev pub is_none : Option A → Bool
  is_none none = true
  is_none (some a) = false

  abbrev pub new_registry : Registry A
  new_registry = record { slots = λ _. none; count = 0 }

  -- Whether the entry was taken in comes beside the table.
  unfoldable pub register : ℕ → A → Registry A → Bool × Registry A
  register max a reg =
      if leb max reg.count
      then (false, reg)
      else elim (find_first (λ i. is_none (reg.slots i)) max) [
        | some i ↦ (true, record { slots = update reg.slots i (some a); count = reg.count + 1 })
        | none ↦ (false, reg)
      ]

  -- The count is that of the slots in use.
  abbrev pub IsCounted : ℕ → Registry A → Type 0
  IsCounted max reg = reg.count ≡ count_below (λ i. not (is_none (reg.slots i))) max

  -- What `register` promises.
  pub data Registered (max : ℕ) (a : A) (reg : Registry A) : Bool × Registry A → Type 0 where
    added :
        {reg' : Registry A} (i : ℕ)
        → i < max
        → reg.slots i ≡ none
        → ((j : ℕ) → j < i → is_none (reg.slots j) ≡ false)
        → ((j : ℕ) → reg'.slots j ≡ (if i == j then some a else reg.slots j))
        → reg'.count ≡ reg.count + 1
        → IsCounted max reg'
        → Registered max a reg (true, reg')
    full : ((j : ℕ) → j < max → is_none (reg.slots j) ≡ false) → Registered max a reg (false, reg)

  all_used :
      (max : ℕ) (reg : Registry A)
      → IsCounted max reg
      → max ≤ reg.count
      → (j : ℕ) → j < max
      → is_none (reg.slots j) ≡ false
  all_used max reg counted full_count j lt = elim (Bool-cases (is_none (reg.slots j))) [
    | inr used ↦ used
    | inl free ↦
        let more =
          count_below-on (λ i. not (is_none (reg.slots i)))
            (λ i. if j == i then true else not (is_none (reg.slots i))) j max lt (rw free refl)
            (ground arith) (λ i ne. ground arith) in
        let bound =
          count_below-le (λ i. if j == i then true else not (is_none (reg.slots i))) max in
        absurd (omega (arith, more, bound, counted))
  ]

  -- With a count that is that of the slots in use, an entry goes into the first free slot and
  -- nothing else changes, or every slot is in use and the table is kept; the count stays right.
  pub register-Registered :
      (max : ℕ) (a : A) (reg : Registry A)
      → IsCounted max reg
      → Registered max a reg (register max a reg)
  unfolding register
  register-Registered max a reg counted = elim (Bool-cases (leb max reg.count)) [
    | inl top ↦ rw (if_true _ _ top) (full (all_used max reg counted (ground arith)))
    | inr room ↦ rw (if_false _ _ room) (by_found (find_first-Found _ _))
  ]
    where
      by_found :
          {o : Option ℕ}
          → Found (λ i. is_none (reg.slots i)) max o
          → Registered max a reg (elim o [
            | some i ↦ (true, record { slots = update reg.slots i (some a); count = reg.count + 1 })
            | none ↦ (false, reg)
          ])
      by_found (miss used) = full used
      by_found (hit i lt free before) =
          added i lt (empty (reg.slots i) free) before (λ j. refl) refl
            (sym (
              count_below-on (λ j. not (is_none (reg.slots j)))
                (λ j. not (is_none (update reg.slots i (some a) j))) i max lt (rw free refl)
                (ap (λ o. not (is_none o)) (if_true _ _ (eq→== i i refl)))
                (λ j ne. ap (λ o. not (is_none o)) (if_false _ _ (ne→== i j (λ e. ne (sym e)))))
              ∙ omega (arith, counted)))
        where
          empty : (o : Option A) → is_none o ≡ true → o ≡ none
          empty none h = refl
          empty (some b) h = absurd (false≢true h)
