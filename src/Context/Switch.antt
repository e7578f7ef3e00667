-- ===== src/Context/Switch.antt =====
-- `switch_context` and `create_context_raw` of src/context.rs: what a switch saves, a later switch
-- restores, and the first switch to a new context enters its function.
use ventura_os.Base.{
  ℕ, ◌+◌, ◌-◌, ◌*◌, ◌%◌, ◌^◌, ◌≤◌, ◌<◌, ◌≡◌, ◌⊎◌, inl, inr, refl, ◌∙◌, false, add64, sub64, arith,
}
use ventura_os.Memory.{page_size}
use ventura_os.Paging.{is_canonical}
use ventura_os.Context.{
  KernelStack, top, bottom, ExecutionContext, Contexts, Created, ok, err, Stacks, Cpu, load_rip,
  push_all, pop_all, switch_context, write_frame, invalid_entry_point, invalid_stack_pointer,
}

-- The stack pointer leaves room for the saved frame.
abbrev pub HasRoom : Cpu → Type 0
HasRoom cpu = (72 ≤ cpu.rsp) × (cpu.rsp + 8 < 2 ^ 64)

-- The words at the ten places of the frame of 80 bytes at `a` are the same.
abbrev pub SameFrame : ℕ → Stacks → Stacks → Type 0
SameFrame a words words' = (i : ℕ) → i < 10 → words' (a + 8 * i) ≡ words (a + 8 * i)

-- The pushes write only the 72 bytes below the stack pointer.
push_all-outside :
    (cpu : Cpu) (words : Stacks) (a : ℕ)
    → HasRoom cpu
    → (a < cpu.rsp - 72) ⊎ (cpu.rsp ≤ a)
    → push_all cpu words a ≡ words a
unfolding push_all
push_all-outside cpu words a room (inl below) = ground (arith, room)
push_all-outside cpu words a room (inr above) = ground (arith, room)

-- What a CPU has after a return to `cpu` from a switch on `other`: the registers that a callee
-- preserves, and the flags, are those of `cpu`, the scratch registers those of `other`.
abbrev pub resumed : Cpu → Stacks → Cpu → Cpu
resumed cpu words other = record other {
  rsp = cpu.rsp + 8;
  rbx = cpu.rbx;
  rbp = cpu.rbp;
  r12 = cpu.r12;
  r13 = cpu.r13;
  r14 = cpu.r14;
  r15 = cpu.r15;
  rdi = cpu.rdi;
  rsi = cpu.rsi;
  rflags = cpu.rflags;
  rip = words cpu.rsp;
}

-- Popping a saved frame gives back what was pushed, and returns.
pop_all-push_all :
    (cpu other : Cpu) (words words' : Stacks)
    → HasRoom cpu
    → SameFrame (cpu.rsp - 72) (push_all cpu words) words'
    → pop_all other (sub64 cpu.rsp 72) words' ≡ resumed cpu words other
unfolding pop_all push_all
pop_all-push_all cpu other words words' room same =
    let e0 : words' (add64 (sub64 cpu.rsp 72) 0) ≡ cpu.rsi =
      frame 0 (omega arith) ∙ ground (arith, room) in
    let e1 : words' (add64 (sub64 cpu.rsp 72) 8) ≡ cpu.rdi =
      frame 1 (omega arith) ∙ ground (arith, room) in
    let e2 : words' (add64 (sub64 cpu.rsp 72) 16) ≡ cpu.r15 =
      frame 2 (omega arith) ∙ ground (arith, room) in
    let e3 : words' (add64 (sub64 cpu.rsp 72) 24) ≡ cpu.r14 =
      frame 3 (omega arith) ∙ ground (arith, room) in
    let e4 : words' (add64 (sub64 cpu.rsp 72) 32) ≡ cpu.r13 =
      frame 4 (omega arith) ∙ ground (arith, room) in
    let e5 : words' (add64 (sub64 cpu.rsp 72) 40) ≡ cpu.r12 =
      frame 5 (omega arith) ∙ ground (arith, room) in
    let e6 : words' (add64 (sub64 cpu.rsp 72) 48) ≡ cpu.rbp =
      frame 6 (omega arith) ∙ ground (arith, room) in
    let e7 : words' (add64 (sub64 cpu.rsp 72) 56) ≡ cpu.rbx =
      frame 7 (omega arith) ∙ ground (arith, room) in
    let e8 : words' (add64 (sub64 cpu.rsp 72) 64) ≡ cpu.rflags =
      frame 8 (omega arith) ∙ ground (arith, room) in
    let e9 : words' (add64 (sub64 cpu.rsp 72) 72) ≡ words cpu.rsp =
      frame 9 (omega arith) ∙ ground (arith, room) in
    let e10 : add64 (sub64 cpu.rsp 72) 80 ≡ cpu.rsp + 8 = omega (arith, room) in
    rw (e0, e1, e2, e3, e4, e5, e6, e7, e8, e9, e10) refl
  where
    frame :
        (i : ℕ)
        → i < 10
        → words' (add64 (sub64 cpu.rsp 72) (8 * i)) ≡ push_all cpu words (cpu.rsp - 72 + 8 * i)
    frame i lt =
        let e : add64 (sub64 cpu.rsp 72) (8 * i) ≡ cpu.rsp - 72 + 8 * i = omega (arith, room) in
        rw e (same i lt)

-- A context that a switch has suspended continues behind its call at the next switch to it: rsp,
-- rbx, rbp, r12 to r15, rdi, rsi and the flags are those that it had. The registers that a call may
-- change are not kept: rcx, rdx and r8 to r11 are those of the CPU that switches back, rax holds
-- the address that this one will return to. The conditions are that both stacks have room for a
-- frame, that the frame pushed by the switch back lies apart from the saved one, and that nothing
-- has written to the saved frame since.
pub switch_context-resumes :
    (prev next other : ExecutionContext) (cpu cpu' : Cpu) (words words' : Stacks)
    → HasRoom cpu
    → HasRoom cpu'
    → (cpu'.rsp ≤ cpu.rsp - 72) ⊎ (cpu.rsp + 8 ≤ cpu'.rsp - 72)
    → SameFrame (cpu.rsp - 72) ((switch_context prev next cpu words).words) words'
    → (switch_context other ((switch_context prev next cpu words).prev) cpu' words').cpu
      ≡ resumed cpu words (record cpu' { rax = words' cpu'.rsp })
unfolding switch_context
switch_context-resumes prev next other cpu cpu' words words' room room' apart same =
    pop_all-push_all cpu (load_rip cpu' words') words (push_all cpu' words') room (λ i lt.
      push_all-outside cpu' words' (cpu.rsp - 72 + 8 * i) room' (outside i lt apart) ∙ same i lt)
  where
    outside :
        (i : ℕ)
        → i < 10
        → (cpu'.rsp ≤ cpu.rsp - 72) ⊎ (cpu.rsp + 8 ≤ cpu'.rsp - 72)
        → (cpu.rsp - 72 + 8 * i < cpu'.rsp - 72) ⊎ (cpu'.rsp ≤ cpu.rsp - 72 + 8 * i)
    outside i lt (inl h) = inr (omega arith)
    outside i lt (inr h) = inl (omega (arith, room, room'))

-- A kernel stack of whole pages that does not wrap.
pub record IsStack (stack : KernelStack) : Type 0 where
  pub aligned : bottom stack % page_size ≡ 0
  pub whole : stack.region.size_bytes % page_size ≡ 0
  pub some_bytes : 0 < stack.region.size_bytes
  pub no_wrap : bottom stack + stack.region.size_bytes < 2 ^ 64

-- What `create_context_raw` promises.
pub data Creation (initial_context_entry entry_addr : ℕ) (stack : KernelStack) (s : Contexts)
    : Created → Type 0 where
  bad_entry :
      (entry_addr ≡ 0) ⊎ (is_canonical entry_addr ≡ false)
      → Creation initial_context_entry entry_addr stack s (err invalid_entry_point)
  bad_stack :
      is_canonical (top stack) ≡ false
      → Creation initial_context_entry entry_addr stack s (err invalid_stack_pointer)
  ready :
      {s' : Contexts} (context : ExecutionContext)
      → bottom stack ≤ context.rsp
      → context.rsp + 80 ≡ top stack
      → ((a : ℕ) → (a < context.rsp) ⊎ (top stack ≤ a) → s'.words a ≡ s.words a)
      → ((cpu : Cpu)
          → pop_all cpu context.rsp s'.words ≡ record cpu {
            rsp = top stack;
            rbx = 0;
            rbp = 0;
            r12 = entry_addr;
            r13 = context.id;
            r14 = 0;
            r15 = 0;
            rdi = 0;
            rsi = 0;
            rflags = 0x202;
            rip = initial_context_entry;
          })
      → context.id ≡ s.next_context_id
      → Creation initial_context_entry entry_addr stack s (ok context s')

module _ (initial_context_entry entry_addr id rsp : ℕ) (words : Stacks)
    (no_wrap : rsp + 80 < 2 ^ 64) where
  abbrev frame : Stacks
  frame = write_frame initial_context_entry rsp id entry_addr words
