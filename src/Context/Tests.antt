-- ===== src/Context/Tests.antt =====
-- A switch between two stacks and a new context, as src/context.rs makes them.
use ventura_os.Base.{ℕ, ◌≡◌, inl, refl, arith}
use ventura_os.Paging.{kernel_data}
use ventura_os.Regions.{dynamic_kernel, dynamic_region}
use ventura_os.Context.{KernelStack, Cpu, Contexts, Stacks, empty_context, switch_context}
use ventura_os.Context.Switch.{resumed, switch_context-resumes}

abbrev running_at : ℕ → Cpu
running_at rsp = record {
  rax = 9;
  rcx = 10;
  rdx = 11;
  r8 = 12;
  r9 = 13;
  r10 = 14;
  r11 = 15;
  rsp = rsp;
  rbx = 1;
  rbp = 2;
  r12 = 3;
  r13 = 4;
  r14 = 5;
  r15 = 6;
  rdi = 7;
  rsi = 8;
  rflags = 0x202;
  rip = 0x1234;
}

abbrev words : Stacks
words a = a

abbrev suspended_words : Stacks
suspended_words = (switch_context empty_context empty_context (running_at 0x8000) words).words

-- The second stack lies below the first.
switch_context-resumes_example :
    (switch_context empty_context
      ((switch_context empty_context empty_context (running_at 0x8000) words).prev)
      (running_at 0x4000)
      suspended_words).cpu
    ≡ resumed
        (running_at 0x8000)
        words
        (record (running_at 0x4000) { rax = suspended_words 0x4000 })
switch_context-resumes_example =
    switch_context-resumes empty_context empty_context empty_context (running_at 0x8000)
      (running_at 0x4000) words suspended_words (omega arith, omega arith)
      (omega arith, omega arith) (inl (omega arith)) (λ i lt. refl)

abbrev stack : KernelStack
stack = record { region = dynamic_region 0x10_0000 0x4000 kernel_data dynamic_kernel }

abbrev contexts : Contexts
contexts = record { next_context_id = 1; words = words }
