-- ===== src/Lib.antt =====
-- VenturaOS, a kernel for x86-64 in Rust (src/*.rs of the repository): a model of its memory
-- management, kernel heap, contexts, threads and processes, ACPI parser, interrupts and timer, and
-- text console, with theorems.
--
-- How the parts work together. The firmware's memory map (memory.rs) is loaded into a table of
-- regions. The page allocator (pmm.rs) keeps a bitmap of the pages in use, set up from that table.
-- The virtual memory manager (vmm.rs) builds page tables from frames of the allocator, or from a
-- static pool while it boots, keeps a table of virtual regions and maps whole regions with
-- rollback. The kernel heap (heap.rs) lies in one and grows behind it. Kernel stacks of contexts
-- (context.rs) are such regions; threads (thread.rs) own a context and a stack, processes
-- (process.rs) own threads. ACPI (acpi.rs) gives the interrupt routing to the APICs (apic.rs), the
-- interrupt table (idt.rs) leads interrupts to registered handlers, of which the timer's
-- (timer.rs) counts ticks, and the console (framebuffer.rs, font.rs) draws text.
--
-- Which file models what:
--   Base        names, Boolean tests, lists, 64-bit words, bits, counting and searching
--   Memory      src/memory.rs: types, classification, init_from_uefi
--   Pmm         src/pmm.rs: init, allocate_physical_page, free_physical_page, verify_invariants
--   Paging      src/vmm.rs: addresses, permissions, flags, entries
--   Tables      src/vmm.rs: get_or_create_table, map_page, map_2mb_huge_page, unmap_page, translate;
--               Tables/Mmu is the processor's page walk, the specification; Tables/Tree the invariant
--   Regions     src/vmm.rs: VirtRegion, register, reserve, unregister and find
--   Mapping     src/vmm.rs: map_region, allocate_and_map_region, unmap_region
--   Heap        src/heap.rs: init, allocate, expand_heap, deallocate, verify_invariants; Heap/Layout
--               is the list of blocks that the headers describe, Heap/Invariant the invariant
--   Boot        src/vmm.rs: init, identity_map_mmio, verify_page_tables, shares_kernel_half
--   Context     src/context.rs: create_context_raw and the instructions of switch_context
--   Registry    the tables of src/thread.rs and src/process.rs with their register functions
--   Thread      src/thread.rs: new_raw, switch_to, register_thread
--   Process     src/process.rs: new, create_thread, terminate, verify, register_process
--   AddressSpace  src/address_space.rs: new, map_page, unmap_page, translate, activate, destroy
--   Acpi        src/acpi.rs: init, parse_madt, isa_irq_to_gsi
--   Apic        src/apic.rs: configure_from_acpi, init_lapic, init_ioapic, route_irq, mask_irq
--   Idt         src/idt.rs: init, register_irq, unregister_irq, irq_dispatcher
--   Timer       src/timer.rs: calibrate_lapic_timer, init, timer_irq_handler
--   Font        src/font.rs
--   Console     src/framebuffer.rs: init, draw_glyph, scroll, write_byte
-- A Tests module stands beside the theorems of each part, with runs at fixed inputs.
--
-- How the code is read. Statics become records that the operations take and return; what runs
-- with interrupts disabled is one step. Machine words are natural numbers with the wrap-around of
-- a release build written out. Arrays are functions from an index with the count that the code
-- keeps. Physical memory is read as page tables by `entries`, and as bytes or words where the code
-- reads bytes or words. `for` loops are structural recursion on the rounds that are left. The loop
-- of `parse_madt` runs on fuel, one more than the bytes of the table: each round consumes at least
-- two. The walks along the heap's list run on fuel too, one more than the headers that fit in the
-- heap, which is enough for every well-formed heap. The wait of the timer's calibration ends at the
-- limit of the source. Addresses that the linker assigns (the bootstrap pool,
-- `initial_context_entry`, the interrupt stubs) are parameters or fields. Device registers are
-- functions from their index; a handler is a function of the drivers' state.
--
-- Not modelled: logging, panics and port input and output; the registers that the assembly stubs of
-- interrupts save, and the printing of exceptions; vector registers; the GDT and TSS; the order of
-- the calls in main.rs; the self-tests, which call the modelled operations.
pub mod Base
pub mod Memory
pub mod Pmm
pub mod Paging
pub mod Tables
pub mod Regions
pub mod Acpi
pub mod Font
pub mod Mapping
pub mod Console
pub mod Context
pub mod Registry
pub mod Thread
pub mod Process
pub mod AddressSpace
pub mod Heap
pub mod Boot
pub mod Apic
pub mod Idt
pub mod Timer
