-- ===== src/Context.antt =====
-- Execution contexts: src/context.rs with the naked `switch_context`. The stacks are 64-bit words
-- at their addresses; the address of `initial_context_entry`, which the linker gives, is a
-- parameter.
pub mod Tests
pub mod Switch
use ventura_os.Base.{
  ℕ, ◌+◌, ◌*◌, ◌%◌, ◌^◌, Bool, true, false, not, ◌||◌, ◌==◌, if◌then◌else◌, add64, sub64, not64,
  bit_and, update,
}
use ventura_os.Memory.{page_size}
use ventura_os.Paging.{VirtAddr, is_canonical}
use ventura_os.Regions.{VirtRegion, region_end}

abbrev pub stack_size_bytes : ℕ
stack_size_bytes = 0x4000

pub data ContextState : Type 0 where
  uninitialized initialized ready running suspended terminated : ContextState

pub data ContextError : Type 0 where
  invalid_entry_point invalid_stack_pointer stack_allocation_failed : ContextError

pub record KernelStack : Type 0 where
  pub region : VirtRegion

abbrev pub top : KernelStack → ℕ
top stack = region_end stack.region

abbrev pub bottom : KernelStack → ℕ
bottom stack = stack.region.start

pub record ExecutionContext : Type 0 where
  pub rsp : ℕ
  pub r15 : ℕ
  pub r14 : ℕ
  pub r13 : ℕ
  pub r12 : ℕ
  pub rbx : ℕ
  pub rbp : ℕ
  pub rip : ℕ
  pub rflags : ℕ
  pub state : ContextState
  pub id : ℕ

abbrev pub empty_context : ExecutionContext
empty_context = record {
  rsp = 0;
  r15 = 0;
  r14 = 0;
  r13 = 0;
  r12 = 0;
  rbx = 0;
  rbp = 0;
  rip = 0;
  rflags = 0x202;
  state = uninitialized;
  id = 0;
}

abbrev pub Stacks : Type 0
Stacks = ℕ → ℕ

-- NEXT_CONTEXT_ID and the memory of the stacks.
pub record Contexts : Type 0 where
  pub next_context_id : ℕ
  pub words : Stacks

-- `Result<ExecutionContext, ContextError>`, beside the state.
pub data Created : Type 0 where
  ok : ExecutionContext → Contexts → Created
  err : ContextError → Created

-- The ten writes of the first frame, from `initial_sp` up.
unfoldable pub write_frame : ℕ → ℕ → ℕ → ℕ → Stacks → Stacks
write_frame initial_context_entry initial_sp id entry_addr words =
    let p : ℕ → ℕ = λ i. add64 initial_sp (8 * i) in
    update
      (update
        (update
          (update
            (update
              (update (update (update (update (update words (p 0) 0) (p 1) 0) (p 2) 0) (p 3) 0)
                (p 4) id)
              (p 5) entry_addr)
            (p 6) 0)
          (p 7) 0)
        (p 8) 0x202)
      (p 9) initial_context_entry

unfoldable pub create_context_raw : ℕ → ℕ → KernelStack → Contexts → Created
unfolding write_frame
create_context_raw initial_context_entry entry_addr stack s =
    if (entry_addr == 0) || not (is_canonical entry_addr)
    then err invalid_entry_point
    else if (top stack == 0) || not (is_canonical (top stack))
    then err invalid_stack_pointer
    else (let id = s.next_context_id in
        let initial_sp = sub64 (bit_and (top stack) (not64 0xF)) 80 in
        ok
          (record {
            rsp = initial_sp;
            r15 = 0;
            r14 = 0;
            r13 = id;
            r12 = entry_addr;
            rbx = 0;
            rbp = 0;
            rip = initial_context_entry;
            rflags = 0x202;
            state = initialized;
            id = id;
          })
          (record {
            next_context_id = add64 id 1;
            words = write_frame initial_context_entry initial_sp id entry_addr s.words;
          }))

-- The integer registers; `rip` is the next instruction to run. Vector registers are left out.
pub record Cpu : Type 0 where
  pub rax : ℕ
  pub rcx : ℕ
  pub rdx : ℕ
  pub r8 : ℕ
  pub r9 : ℕ
  pub r10 : ℕ
  pub r11 : ℕ
  pub rsp : ℕ
  pub rbx : ℕ
  pub rbp : ℕ
  pub r12 : ℕ
  pub r13 : ℕ
  pub r14 : ℕ
  pub r15 : ℕ
  pub rdi : ℕ
  pub rsi : ℕ
  pub rflags : ℕ
  pub rip : ℕ

-- `pushfq` and the eight pushes, below `rsp`.
unfoldable pub push_all : Cpu → Stacks → Stacks
push_all cpu words =
    let p : ℕ → ℕ = λ i. sub64 cpu.rsp (8 * i) in
    update
      (update
        (update
          (update
            (update
              (update (update (update (update words (p 1) cpu.rflags) (p 2) cpu.rbx) (p 3) cpu.rbp)
                (p 4) cpu.r12)
              (p 5) cpu.r13)
            (p 6) cpu.r14)
          (p 7) cpu.r15)
        (p 8) cpu.rdi)
      (p 9) cpu.rsi

-- The eight pops, `popfq` and `ret`, from `rsp` up; the other registers stay.
unfoldable pub pop_all : Cpu → ℕ → Stacks → Cpu
pop_all cpu rsp words =
    let p : ℕ → ℕ = λ i. words (add64 rsp (8 * i)) in
    record cpu {
      rsp = add64 rsp 80;
      rsi = p 0;
      rdi = p 1;
      r15 = p 2;
      r14 = p 3;
      r13 = p 4;
      r12 = p 5;
      rbp = p 6;
      rbx = p 7;
      rflags = p 8;
      rip = p 9;
    }

-- What `prev` keeps.
abbrev pub suspend : Cpu → Stacks → ExecutionContext → ExecutionContext
suspend cpu words prev = record prev {
  rip = words cpu.rsp;
  rsp = sub64 cpu.rsp 72;
  state = suspended;
}

-- `mov rax, [rsp]`, which leaves the return address in rax.
abbrev pub load_rip : Cpu → Stacks → Cpu
load_rip cpu words = record cpu { rax = words cpu.rsp }

-- `prev` and `next` after the switch, the registers and the stacks.
pub record Switched : Type 0 where
  pub prev : ExecutionContext
  pub next : ExecutionContext
  pub cpu : Cpu
  pub words : Stacks

unfoldable pub switch_context : ExecutionContext → ExecutionContext → Cpu → Stacks → Switched
unfolding push_all pop_all
switch_context prev next cpu words = record {
  prev = suspend cpu words prev;
  next = record next { state = running };
  cpu = pop_all (load_rip cpu words) next.rsp (push_all cpu words);
  words = push_all cpu words;
}
