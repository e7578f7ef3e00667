-- ===== src/Idt/Gates.antt =====
-- The gates that `init` of src/idt.rs sets lead each vector to its stub.
use ventura_os.Base.{
  ℕ, zero, suc, ◌+◌, ◌-◌, ◌*◌, ◌/◌, ◌%◌, ◌^◌, ◌≤◌, ◌<◌, ◌≡◌, refl, sym, ◌∙◌, ap, subst, ◌⊎◌, ltb,
  leb, if◌then◌else◌, if_true, if_false, inl, inr, arith, bit_and, ne→==, eq→==, lt→ltb, ℕ_discrete,
}
use ventura_os.Base.Bits.{bit_and-mask}
use ventura_os.Idt.{IdtEntry, irq_label, gate, Table, set_entry, Stubs, set_entries, init}

-- The address that the processor reads from a gate.
abbrev pub offset_of : IdtEntry → ℕ
offset_of e = e.offset_low + e.offset_mid * 2 ^ 16 + e.offset_high * 2 ^ 32

pub offset_of-gate : (handler : ℕ) → handler < 2 ^ 64 → offset_of (gate handler) ≡ handler
unfolding gate
offset_of-gate handler small =
    let low : bit_and handler 0xFFFF ≡ handler % 2 ^ 16 = bit_and-mask 16 handler in
    let mid : bit_and (handler / 2 ^ 16) 0xFFFF ≡ handler / 2 ^ 16 % 2 ^ 16 =
      bit_and-mask 16 (handler / 2 ^ 16) in
    omega (arith, low, mid, small)

-- A present gate with the kernel's code selector, the 64-bit interrupt gate type and ring 0, that
-- leads to the handler.
pub record IsGate (e : IdtEntry) (handler : ℕ) : Type 0 where
  pub leads : offset_of e ≡ handler
  pub selector : e.selector ≡ 0x08
  pub kind : e.type_attr ≡ 0x8E

-- What a loop leaves in a vector: the stub, in its range, and what there was elsewhere.
set_entries_lem :
    (stubs : ℕ → ℕ) (base i left : ℕ) (t : Table) (v : ℕ)
    → base + i + left ≤ 256
    → set_entries stubs base i left t v ≡ (
        if leb (base + i) v
        then (if ltb v (base + i + left) then gate (stubs (v - base)) else t v)
        else t v)
unfolding set_entries set_entry
set_entries_lem stubs base i zero t v room = ground arith
set_entries_lem stubs base i (suc left) t v room =
    set_entries_lem stubs base (suc i) left _ v (omega (arith, room)) ∙ step
  where
    step :
        (if leb (base + suc i) v
          then (if ltb v (base + suc i + left)
              then gate (stubs (v - base))
              else set_entry (base + i) (stubs i) t v)
          else set_entry (base + i) (stubs i) t v)
        ≡ (if leb (base + i) v
            then (if ltb v (base + i + suc left) then gate (stubs (v - base)) else t v)
            else t v)
    step = elim (ℕ_discrete (base + i) v) [
      | yes same ↦
          let index : v - base ≡ i = omega (arith, same) in
          let set : set_entry (base + i) (stubs i) t v ≡ gate (stubs (v - base)) =
            ap (λ (f : Table). f v) (if_true _ _ (lt→ltb (base + i) 256 (omega (arith, room))))
            ∙ if_true _ _ (eq→== (base + i) v same)
            ∙ ap (λ n. gate (stubs n)) (sym index) in
          grind (arith, room, same, set)
      | no ne ↦
          let kept : set_entry (base + i) (stubs i) t v ≡ t v =
            ap (λ (f : Table). f v) (if_true _ _ (lt→ltb (base + i) 256 (omega (arith, room))))
            ∙ if_false _ _ (ne→== (base + i) v ne) in
          grind (arith, room, ne, kept)
    ]

set_entries_in :
    (stubs : ℕ → ℕ) (base left : ℕ) (t : Table) (v : ℕ)
    → base + left ≤ 256
    → base ≤ v
    → v < base + left
    → set_entries stubs base 0 left t v ≡ gate (stubs (v - base))
set_entries_in stubs base left t v room low high =
    set_entries_lem stubs base 0 left t v (omega (arith, room)) ∙ ground arith

set_entries_out :
    (stubs : ℕ → ℕ) (base left : ℕ) (t : Table) (v : ℕ)
    → base + left ≤ 256
    → (v < base) ⊎ (base + left ≤ v)
    → set_entries stubs base 0 left t v ≡ t v
set_entries_out stubs base left t v room out =
    set_entries_lem stubs base 0 left t v (omega (arith, room)) ∙ ground arith

-- The stub for each vector, by the table of the labels for the hardware interrupts.
abbrev pub stub_of : Stubs → ℕ → ℕ
stub_of s v =
    if ltb v 32
    then s.stub v
    else if ltb v 48
    then s.irq_stub (irq_label (v - 32))
    else if ltb v 255
    then s.generic_irq
    else s.spurious_irq

-- The table after the loops and the last entry.
init-stub_of : (s : Stubs) (t : Table) (v : ℕ) → v < 256 → init s t v ≡ gate (stub_of s v)
unfolding init set_entry
init-stub_of s t v small = elim (ℕ_discrete 255 v) [
  | yes same ↦ if_true _ _ (eq→== 255 v same) ∙ ap gate (stub_spurious (sym same))
  | no ne ↦ if_false _ _ (ne→== 255 v ne) ∙ by_range (le_or_lt v 48) (le_or_lt v 32) ne
]
  where
    le_or_lt : (a b : ℕ) → (a < b) ⊎ (b ≤ a)
    le_or_lt a b = ground arith

    stub_spurious : v ≡ 255 → s.spurious_irq ≡ stub_of s v
    stub_spurious e = ground arith

    exceptions : Table
    exceptions = set_entries s.stub 0 0 32 t

    irq_stub_at : ℕ → ℕ
    irq_stub_at i = s.irq_stub (irq_label i)

    irqs : Table
    irqs = set_entries irq_stub_at 32 0 16 exceptions

    by_range :
        (v < 48) ⊎ (48 ≤ v)
        → (v < 32) ⊎ (32 ≤ v)
        → ¬ (255 ≡ v)
        → set_entries (λ _. s.generic_irq) 48 0 207 irqs v ≡ gate (stub_of s v)
    by_range (inr high) _ ne =
        let stub : s.generic_irq ≡ stub_of s v = ground arith in
        set_entries_in (λ _. s.generic_irq) 48 207 irqs v (omega arith) high
          (omega (arith, small, ne))
        ∙ ap gate stub
    by_range (inl low) (inr mid) ne =
        let stub : irq_stub_at (v - 32) ≡ stub_of s v = ground arith in
        set_entries_out (λ _. s.generic_irq) 48 207 irqs v (omega arith) (inl low)
        ∙ set_entries_in irq_stub_at 32 16 exceptions v (omega arith) mid low
        ∙ ap gate stub
    by_range (inl low) (inl first) ne =
        let same : v - 0 ≡ v = omega arith in
        let stub : s.stub v ≡ stub_of s v = ground arith in
        set_entries_out (λ _. s.generic_irq) 48 207 irqs v (omega arith) (inl low)
        ∙ set_entries_out irq_stub_at 32 16 exceptions v (omega arith) (inl first)
        ∙ set_entries_in s.stub 0 32 t v (omega arith) (omega arith) first
        ∙ ap gate (ap s.stub same ∙ stub)

-- After `init` of src/idt.rs every one of the 256 vectors holds a present 64-bit interrupt gate
-- of ring 0 with the kernel's code selector. Its three offset fields give back the address of
-- the stub that belongs to the vector: those of the exceptions below 32, those that the table of
-- labels names for the 16 hardware interrupts, the generic one up to 254 and the spurious one at
-- 255. The condition is that this address has 64 bits.
pub init-IsGate :
    (s : Stubs) (t : Table) (v : ℕ)
    → v < 256
    → stub_of s v < 2 ^ 64
    → IsGate (init s t v) (stub_of s v)
unfolding gate
init-IsGate s t v small wide =
    subst (λ e. IsGate e (stub_of s v)) (sym (init-stub_of s t v small))
      (record { leads = offset_of-gate (stub_of s v) wide; selector = refl; kind = refl })
