-- ===== src/Idt/Dispatch.antt =====
-- Which handler a hardware interrupt runs: src/idt.rs.
use ventura_os.Base.{
  ℕ, zero, suc, ◌+◌, ◌-◌, ◌%◌, ◌<◌, ◌≡◌, refl, sym, ◌∙◌, ap, subst, Bool, true, Option, some, none,
  if_true, if_false, arith, update, eq→==, ne→==, lt→ltb,
}
use ventura_os.Apic.{Apic, eoi}
use ventura_os.Idt.{
  Irqs, register_irq, run, handle, irq_dispatcher, irq_labels, irq_label, interrupt,
}

-- The stub of each hardware vector passes its own IRQ to the dispatcher.
irq_label_id : (irq : ℕ) → irq < 16 → irq_label irq ≡ irq
unfolding irq_label irq_labels
irq_label_id zero small = refl
irq_label_id (suc zero) small = refl
irq_label_id (suc (suc zero)) small = refl
irq_label_id (suc (suc (suc zero))) small = refl
irq_label_id (suc (suc (suc (suc zero)))) small = refl
irq_label_id (suc (suc (suc (suc (suc zero))))) small = refl
irq_label_id (suc (suc (suc (suc (suc (suc zero)))))) small = refl
irq_label_id (suc (suc (suc (suc (suc (suc (suc zero))))))) small = refl
irq_label_id (suc (suc (suc (suc (suc (suc (suc (suc zero)))))))) small = refl
irq_label_id (suc (suc (suc (suc (suc (suc (suc (suc (suc zero))))))))) small = refl
irq_label_id (suc (suc (suc (suc (suc (suc (suc (suc (suc (suc zero)))))))))) small = refl
irq_label_id (suc (suc (suc (suc (suc (suc (suc (suc (suc (suc (suc zero))))))))))) small = refl
irq_label_id (suc (suc (suc (suc (suc (suc (suc (suc (suc (suc (suc (suc zero)))))))))))) small =
    refl
irq_label_id (suc (suc (suc (suc (suc (suc (suc (suc (suc (suc (suc (suc (suc zero)))))))))))))
      small =
    refl
irq_label_id
      (suc (suc (suc (suc (suc (suc (suc (suc (suc (suc (suc (suc (suc (suc zero))))))))))))))
      small =
    refl
irq_label_id
      (suc (suc (suc (suc (suc (suc (suc (suc (suc (suc (suc (suc (suc (suc (suc zero)))))))))))))))
      small =
    refl
irq_label_id
      (suc (
        suc
          (suc (suc (suc (suc (suc (suc (suc (suc (suc (suc (suc (suc (suc (suc irq))))))))))))))))
      small =
    absurd (omega (arith, small))

module _ {S : Type 0} (t : Irqs S) (apic : Apic) (s : S) where
  irq_dispatcher_small :
      (k : ℕ) → k < 16 → irq_dispatcher k t apic s ≡ ((handle k t s).0, eoi apic, (handle k t s).1)
  unfolding irq_dispatcher
  irq_dispatcher_small k small =
      ap (λ (r : Irqs S × S). (r.0, eoi apic, r.1)) (if_true _ _ (lt→ltb k 16 small))

  interrupt_hardware :
      (irq : ℕ)
      → irq < 16
      → interrupt (32 + irq) t apic s ≡ ((handle irq t s).0, eoi apic, (handle irq t s).1)
  unfolding interrupt
  interrupt_hardware irq small =
      let index : 32 + irq - 32 ≡ irq = omega arith in
      if_true _ _ (lt→ltb (32 + irq) 48 (omega (arith, small)))
      ∙ ap (λ k. irq_dispatcher k t apic s) (ap irq_label index ∙ irq_label_id irq small)
      ∙ irq_dispatcher_small irq small

-- What a registered handler gets of the 16 hardware interrupts: `after` is the result of
-- registering it, with whether it is accepted.
pub record Served {S : Type 0} (irq : ℕ) (h : ℕ → S → S) (t : Irqs S) (apic : Apic) (s : S)
    (after : Bool × Irqs S) : Type 0 where
  pub accepted : after.0 ≡ true
  pub runs : interrupt (32 + irq) after.1 apic s ≡ (after.1, eoi apic, h irq s)
  pub leaves :
      (w : ℕ)
      → w < 16
      → ¬ (w ≡ irq)
      → (interrupt (32 + w) after.1 apic s).2 ≡ (interrupt (32 + w) t apic s).2

module _ {S : Type 0} (irq : ℕ) (h : ℕ → S → S) (t : Irqs S) (s : S) where
  abbrev with_handler : Irqs S
  with_handler = record t { handlers = update t.handlers irq (some h) }

  handle_registered : irq < 16 → handle irq with_handler s ≡ (with_handler, h irq s)
  unfolding run
  handle_registered small =
      let byte : irq % 256 ≡ irq = omega (arith, small) in
      ap (λ o. run o irq with_handler s) (if_true _ _ (eq→== irq irq refl))
      ∙ ap (λ i. (with_handler, h i s)) byte

  run_state :
      (o : Option (ℕ → S → S)) (k : ℕ) (t1 t2 : Irqs S) → (run o k t1 s).1 ≡ (run o k t2 s).1
  unfolding run
  run_state (some g) k t1 t2 = refl
  run_state none k t1 t2 = refl

  handle_other : (k : ℕ) → ¬ (k ≡ irq) → (handle k with_handler s).1 ≡ (handle k t s).1
  handle_other k ne =
      ap (λ o. (run o k with_handler s).1) (if_false _ _ (ne→== irq k (λ e. ne (sym e))))
      ∙ run_state (t.handlers k) k with_handler t

  handler_in : irq < 16 → register_irq irq h t ≡ (true, with_handler)
  unfolding register_irq
  handler_in small = ground arith

-- A handler that is registered for an IRQ below 16 is accepted. Then the interrupt at vector
-- 32 + irq runs it once, with its IRQ, keeps the table and is acknowledged at the local APIC. Every
-- other of the 16 hardware interrupts changes the drivers' state as without the handler.
pub register_irq-Served :
    {S : Type 0} (irq : ℕ) (h : ℕ → S → S) (t : Irqs S) (apic : Apic) (s : S)
    → irq < 16
    → Served irq h t apic s (register_irq irq h t)
register_irq-Served {S = S} irq h t apic s small =
    subst (Served irq h t apic s) (sym (handler_in irq h t s small))
      (record { accepted = refl; runs = runs; leaves = leaves })
  where
    after : Irqs S
    after = with_handler irq h t s

    runs : interrupt (32 + irq) after apic s ≡ (after, eoi apic, h irq s)
    runs =
        interrupt_hardware after apic s irq small
        ∙ ap (λ r. (r.0, eoi apic, r.1)) (handle_registered irq h t s small)

    leaves :
        (w : ℕ)
        → w < 16
        → ¬ (w ≡ irq)
        → (interrupt (32 + w) after apic s).2 ≡ (interrupt (32 + w) t apic s).2
    leaves w few ne =
        ap (λ r. r.2) (interrupt_hardware after apic s w few)
        ∙ handle_other irq h t s (w) ne
        ∙ sym (ap (λ r. r.2) (interrupt_hardware t apic s w few))
