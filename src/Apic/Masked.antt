-- ===== src/Apic/Masked.antt =====
-- What the redirection entries of src/apic.rs hold: masked until a driver unmasks them.
use ventura_os.Base.{
  ℕ, zero, suc, ◌+◌, ◌-◌, ◌%◌, ◌≤◌, ◌<◌, ◌≡◌, ◌⊎◌, refl, sym, ◌∙◌, ap, Bool, true, false, ◌&&◌,
  ◌||◌, none, some, leb, ltb, if_true, if_false, Bool-cases, inl, inr, arith, bit_or, ne→==, eq→==,
  ℕ_discrete,
}
use ventura_os.Base.Bits.{test_bit, test_bit-bit_or, test_bit-pow}
use ventura_os.Acpi.{Acpi, MadtInfo, InterruptOverride, madt}
use ventura_os.Apic.{
  Apic, ioapic_masked, reg_low, reg_high, write_redirection, mask_all, inti_flags, route_override,
  route_overrides, max_entries_of, init_ioapic,
}

-- The redirection entry of a pin is masked.
abbrev pub is_masked : Apic → ℕ → Bool
is_masked a pin = test_bit (a.ioapic (reg_low pin)) 16

-- Writing a masked entry masks its pin and unmasks no other.
write_redirection-masked :
    (pin vector dest bits : ℕ) (a : Apic) (q : ℕ)
    → test_bit bits 16 ≡ true
    → (reg_low q ≡ reg_low pin) ⊎ (is_masked a q ≡ true)
    → is_masked (write_redirection pin vector dest bits a) q ≡ true
unfolding write_redirection
write_redirection-masked pin vector dest bits a q masked before =
    elim (ℕ_discrete (reg_low pin) (reg_low q)) [
      | yes same ↦
          ap (λ w. test_bit w 16)
            (if_false _ _ (ne→== (reg_high pin) (reg_low q) (odd_even pin q))
              ∙ if_true _ _ (eq→== (reg_low pin) (reg_low q) same))
          ∙ test_bit-bit_or 16 vector bits
          ∙ rw masked (or_true (test_bit vector 16))
      | no ne ↦
          ap (λ w. test_bit w 16)
            (if_false _ _ (ne→== (reg_high pin) (reg_low q) (odd_even pin q))
              ∙ if_false _ _ (ne→== (reg_low pin) (reg_low q) ne))
          ∙ kept before ne
    ]
  where
    odd_even : (x y : ℕ) → ¬ (reg_high x ≡ reg_low y)
    odd_even x y e = absurd (omega (arith, e))

    or_true : (x : Bool) → (x || true) ≡ true
    or_true true = refl
    or_true false = refl

    kept :
        (reg_low q ≡ reg_low pin) ⊎ (is_masked a q ≡ true)
        → ¬ (reg_low pin ≡ reg_low q)
        → is_masked a q ≡ true
    kept (inl same) ne = absurd (ne (sym same))
    kept (inr was) ne = was

-- The pins below `i`, and then all.
mask_all-masked :
    (i left : ℕ) (a : Apic) (q : ℕ)
    → ((is_masked a q ≡ true) ⊎ ((i ≤ q) × (q < i + left)))
    → is_masked (mask_all i left a) q ≡ true
unfolding mask_all
mask_all-masked i zero a q (inl was) = was
mask_all-masked i zero a q (inr (low, high)) = absurd (omega (arith, low, high))
mask_all-masked i (suc left) a q before = mask_all-masked (suc i) left _ q (by_place before)
  where
    here : test_bit ioapic_masked 16 ≡ true
    here = test_bit-pow 16 16

    by_place :
        (is_masked a q ≡ true) ⊎ ((i ≤ q) × (q < i + suc left))
        → (is_masked (write_redirection i ((0x20 + i % 256) % 256) 0 ioapic_masked a) q ≡ true)
          ⊎ ((suc i ≤ q) × (q < suc i + left))
    by_place (inl was) = inl (write_redirection-masked i _ 0 ioapic_masked a q here (inr was))
    by_place (inr (low, high)) = elim (ℕ_discrete q i) [
      | yes same ↦
          inl (write_redirection-masked i _ 0 ioapic_masked a q here (inl (ap reg_low same)))
      | no ne ↦ inr (omega (arith, low, ne), omega (arith, high))
    ]

route_override-masked :
    (max_entries : ℕ) (o : InterruptOverride) (a : Apic) (q : ℕ)
    → is_masked a q ≡ true
    → is_masked (route_override max_entries o a) q ≡ true
unfolding route_override
route_override-masked max_entries o a q was =
    elim (Bool-cases (leb a.ioapic_gsi_base o.gsi && ltb (o.gsi - a.ioapic_gsi_base) max_entries)) [
      | inr out ↦ ap (λ x. is_masked x q) (if_false _ _ out) ∙ was
      | inl inside ↦
          ap (λ x. is_masked x q) (if_true _ _ inside)
          ∙ write_redirection-masked (o.gsi - a.ioapic_gsi_base) _ 0
              (bit_or ioapic_masked (inti_flags o.flags)) a q
              (test_bit-bit_or 16 ioapic_masked (inti_flags o.flags) ∙ rw (test_bit-pow 16 16) refl)
              (inr was)
    ]

route_overrides-masked :
    (max_entries i left : ℕ) (info : MadtInfo) (a : Apic) (q : ℕ)
    → is_masked a q ≡ true
    → is_masked (route_overrides max_entries i left info a) q ≡ true
unfolding route_overrides
route_overrides-masked max_entries i zero info a q was = was
route_overrides-masked max_entries i (suc left) info a q was =
    route_overrides-masked max_entries (suc i) left info _ q
      (route_override-masked max_entries (info.overrides i) a q was)

-- After `init_ioapic` the redirection entry of every pin that the I/O APIC has is masked, whatever
-- the ACPI tables say about overrides.
pub init_ioapic-masked :
    (acpi : Acpi) (a : Apic) (pin : ℕ)
    → pin < max_entries_of a
    → is_masked (init_ioapic acpi a) pin ≡ true
unfolding init_ioapic
init_ioapic-masked acpi a pin has =
    elim (madt acpi)
      as (λ m.
        is_masked
          (elim m as (λ _. Apic) [
            | none ↦ mask_all 0 (max_entries_of a) a
            | some info ↦
                route_overrides (max_entries_of a) 0 info.override_count info
                  (mask_all 0 (max_entries_of a) a)
          ])
          pin
        ≡ true) [
          | none ↦
              mask_all-masked 0 (max_entries_of a) a pin (inr (omega arith, omega (arith, has)))
          | some info ↦
              route_overrides-masked (max_entries_of a) 0 info.override_count info _ pin
                (mask_all-masked 0 (max_entries_of a) a pin (inr (omega arith, omega (arith, has))))
        ]
