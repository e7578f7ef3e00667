-- ===== src/Idt.antt =====
-- The interrupt table and the dispatch of hardware interrupts: src/idt.rs. The stubs are assembly,
-- their addresses parameters. A handler is a function of the IRQ and of a state `S`.
pub mod Gates
pub mod Dispatch
mod Tests
use ventura_os.Base.{
  ℕ, zero, suc, ◌+◌, ◌-◌, ◌*◌, ◌/◌, ◌%◌, ◌^◌, Bool, true, false, Option, none, some, List, [], ◌∷◌,
  get_elem?, ltb, leb, ◌==◌, if◌then◌else◌, update, bit_and, u32_mod,
}
use ventura_os.Apic.{Apic, eoi}

abbrev pub irq_base_vector : ℕ
irq_base_vector = 32

abbrev pub spurious_vector : ℕ
spurious_vector = 255

abbrev pub kernel_code_selector : ℕ
kernel_code_selector = 0x08

pub record IdtEntry : Type 0 where
  pub offset_low : ℕ
  pub selector : ℕ
  pub ist : ℕ
  pub type_attr : ℕ
  pub offset_mid : ℕ
  pub offset_high : ℕ
  pub reserved : ℕ

abbrev pub missing : IdtEntry
missing = record {
  offset_low = 0;
  selector = 0;
  ist = 0;
  type_attr = 0;
  offset_mid = 0;
  offset_high = 0;
  reserved = 0;
}

-- `set_handler`, which sets every field.
unfoldable pub gate : ℕ → IdtEntry
gate handler = record {
  offset_low = bit_and handler 0xFFFF;
  selector = kernel_code_selector;
  ist = 0;
  type_attr = 0x8E;
  offset_mid = bit_and (handler / 2 ^ 16) 0xFFFF;
  offset_high = handler / 2 ^ 32 % u32_mod;
  reserved = 0;
}

abbrev pub Table : Type 0
Table = ℕ → IdtEntry

unfoldable pub set_entry : ℕ → ℕ → Table → Table
set_entry vector handler t = if ltb vector 256 then update t vector (gate handler) else t

-- The addresses of the labels `stub_k`, `irq_stub_k`, `generic_irq_stub` and `spurious_irq_stub`
-- of the assembly.
pub record Stubs : Type 0 where
  pub stub : ℕ → ℕ
  pub irq_stub : ℕ → ℕ
  pub generic_irq : ℕ
  pub spurious_irq : ℕ

-- The labels of the table `irq_stubs`, in its order.
unfoldable pub irq_labels : List ℕ
irq_labels = 0 ∷ 1 ∷ 2 ∷ 3 ∷ 4 ∷ 5 ∷ 6 ∷ 7 ∷ 8 ∷ 9 ∷ 10 ∷ 11 ∷ 12 ∷ 13 ∷ 14 ∷ 15 ∷ []

-- A Rust array of 16 is read, so no index is past the table.
unfoldable pub irq_label : ℕ → ℕ
unfolding irq_labels
irq_label i = elim (get_elem? irq_labels i) [ some k ↦ k | none ↦ 0 ]

-- A loop that sets the vectors from `base + i` on, `left` of them.
unfoldable pub set_entries : (ℕ → ℕ) → ℕ → ℕ → ℕ → Table → Table
unfolding set_entry
set_entries stubs base i zero t = t
set_entries stubs base i (suc left) t =
    set_entries stubs base (suc i) left (set_entry (base + i) (stubs i) t)

-- The four loops and the table; `lidt` is left out.
unfoldable pub init : Stubs → Table → Table
unfolding set_entries
init stubs t = set_entry spurious_vector stubs.spurious_irq (
    set_entries (λ _. stubs.generic_irq) 48 0 207
      (set_entries (λ i. stubs.irq_stub (irq_label i)) irq_base_vector 0 16
        (set_entries stubs.stub 0 0 32 t)))

-- IRQ_HANDLERS, UNHANDLED_IRQ_COUNT and UNEXPECTED_COUNT.
pub record Irqs (S : Type 0) : Type 0 where
  pub handlers : ℕ → Option (ℕ → S → S)
  pub unhandled : ℕ → ℕ
  pub unexpected : ℕ

module _ {S : Type 0} where
  -- Whether the IRQ is in range, beside the state.
  unfoldable pub register_irq : ℕ → (ℕ → S → S) → Irqs S → Bool × Irqs S
  register_irq irq handler t =
      if leb 16 irq
      then (false, t)
      else (true, record t { handlers = update t.handlers irq (some handler) })

  unfoldable pub unregister_irq : ℕ → Irqs S → Bool × Irqs S
  unregister_irq irq t =
      if leb 16 irq then (false, t) else (true, record t { handlers = update t.handlers irq none })

  -- The handler, or the count of the interrupts without one.
  unfoldable pub run : Option (ℕ → S → S) → ℕ → Irqs S → S → Irqs S × S
  run (some h) irq t s = (t, h (irq % 256) s)
  run none irq t s =
      (record t { unhandled = update t.unhandled irq ((t.unhandled irq + 1) % u32_mod) }, s)

  abbrev pub handle : ℕ → Irqs S → S → Irqs S × S
  handle irq t s = run (t.handlers irq) irq t s

  unfoldable pub irq_dispatcher : ℕ → Irqs S → Apic → S → Irqs S × Apic × S
  irq_dispatcher irq t apic s =
      let done = if ltb irq 16 then handle irq t s else (t, s) in (done.0, eoi apic, done.1)

  unfoldable pub generic_interrupt_dispatcher : Irqs S → Apic → Irqs S × Apic
  generic_interrupt_dispatcher t apic =
      (record t { unexpected = (t.unexpected + 1) % u32_mod }, eoi apic)

  -- What the stub of a vector from 32 on calls: the stub of label k passes k, the spurious one
  -- returns at once.
  unfoldable pub interrupt : ℕ → Irqs S → Apic → S → Irqs S × Apic × S
  unfolding irq_dispatcher generic_interrupt_dispatcher
  interrupt vector t apic s =
      if ltb vector 48
      then irq_dispatcher (irq_label (vector - irq_base_vector)) t apic s
      else if ltb vector 255
      then (let r = generic_interrupt_dispatcher t apic in (r.0, r.1, s))
      else (t, apic, s)
