-- ===== src/Thread.antt =====
-- Kernel threads: src/thread.rs. The state is the memory manager, the contexts and NEXT_THREAD_ID;
-- a name is the list of its bytes.
use ventura_os.Base.{
  ℕ, Bool, true, false, not, ◌||◌, Option, none, some, List, [], ◌∷◌, ◌==◌, if◌then◌else◌, add64,
}
use ventura_os.Paging.{is_canonical, kernel_data, dynamic_virt_start}
use ventura_os.Regions
use ventura_os.Regions.{VirtRegion, dynamic_kernel}
use ventura_os.Mapping.{Kernel, allocate_and_map_region, unmap_region}
use ventura_os.Context
use ventura_os.Context.{
  KernelStack, ExecutionContext, Contexts, Cpu, Stacks, empty_context, create_context_raw,
  switch_context, stack_size_bytes,
}
use ventura_os.Registry.{Registry, register}

abbrev pub max_threads : ℕ
max_threads = 32

pub data ThreadState : Type 0 where
  created ready running blocked terminated : ThreadState

abbrev pub is_running : ThreadState → Bool
is_running created = false
is_running ready = false
is_running running = true
is_running blocked = false
is_running terminated = false

abbrev pub is_terminated : ThreadState → Bool
is_terminated created = false
is_terminated ready = false
is_terminated running = false
is_terminated blocked = false
is_terminated terminated = true

pub data ThreadError : Type 0 where
  invalid_entry_point stack_allocation_failed context_creation_failed registry_full : ThreadError

pub data SwitchError : Type 0 where
  null_context same_thread target_terminated invalid_state : SwitchError
  invalid_stack_pointer invalid_instruction_pointer : SwitchError

pub record KernelThread : Type 0 where
  pub id : ℕ
  pub process_id : ℕ
  pub name : List ℕ
  pub state : ThreadState
  pub context : ExecutionContext
  pub stack : KernelStack
  pub entry : ℕ
  pub arg : ℕ

pub record System : Type 0 where
  pub kernel : Kernel
  pub contexts : Contexts
  pub next_thread_id : ℕ

-- `Result<KernelThread, ThreadError>`, beside the state.
pub data Made : Type 0 where
  ok : KernelThread → System → Made
  err : ThreadError → System → Made

abbrev pub new_thread : ℕ → List ℕ → ExecutionContext → VirtRegion → ℕ → ℕ → KernelThread
new_thread id name context region entry arg = record {
  id = id;
  process_id = 0;
  name = name;
  state = created;
  context = context;
  stack = record { region = region };
  entry = entry;
  arg = arg;
}

unfoldable pub new_raw : ℕ → List ℕ → ℕ → ℕ → System → Made
unfolding allocate_and_map_region create_context_raw unmap_region
new_raw initial_context_entry name entry_addr arg s =
    if (entry_addr == 0) || not (is_canonical entry_addr)
    then err invalid_entry_point s
    else (let (reservation, kernel') =
          allocate_and_map_region stack_size_bytes kernel_data dynamic_kernel s.kernel in
        elim reservation [
          | Regions.err _ ↦ err stack_allocation_failed (record s { kernel = kernel' })
          | Regions.ok region ↦
              elim (create_context_raw initial_context_entry entry_addr (record { region = region })
                s.contexts) [
                  | Context.err _ ↦
                      err context_creation_failed
                        (record s { kernel = (unmap_region region kernel').1 })
                  | Context.ok context contexts' ↦
                      ok (new_thread s.next_thread_id name context region entry_addr arg) (record {
                        kernel = kernel';
                        contexts = contexts';
                        next_thread_id = add64 s.next_thread_id 1;
                      })
                ]
        ])

-- "bootstrap"
abbrev pub bootstrap_name : List ℕ
bootstrap_name = 0x62 ∷ 0x6F ∷ 0x6F ∷ 0x74 ∷ 0x73 ∷ 0x74 ∷ 0x72 ∷ 0x61 ∷ 0x70 ∷ []

abbrev pub bootstrap : KernelThread
bootstrap = record {
  id = 0;
  process_id = 0;
  name = bootstrap_name;
  state = running;
  context = empty_context;
  stack = record {
    region = record {
      start = dynamic_virt_start;
      size_bytes = 0x4000;
      permissions = kernel_data;
      purpose = dynamic_kernel;
      owns_physical_pages = false;
    };
  };
  entry = 0;
  arg = 0;
}

-- `current` and `target` afterwards, the registers and the stacks; or the error.
pub data Switch : Type 0 where
  ok : KernelThread → KernelThread → Cpu → Stacks → Switch
  err : SwitchError → Switch

unfoldable pub switch_to : KernelThread → KernelThread → Cpu → Stacks → Switch
unfolding switch_context
switch_to current target cpu words =
    if current.id == target.id
    then err same_thread
    else if is_terminated target.state
    then err target_terminated
    else if (target.context.rsp == 0) || not (is_canonical target.context.rsp)
    then err invalid_stack_pointer
    else if (target.context.rip == 0) || not (is_canonical target.context.rip)
    then err invalid_instruction_pointer
    else (let switched = switch_context current.context target.context cpu words in
        ok (record current { state = ready; context = switched.prev })
          (record target { state = running; context = switched.next }) switched.cpu switched.words)

-- `Result<u64, ThreadError>`, beside the registry.
unfoldable pub register_thread :
    KernelThread → Registry KernelThread → (Option ℕ) × Registry KernelThread
unfolding register
register_thread thread reg =
    let (added, reg') = register max_threads thread reg in
    (if added then some thread.id else none, reg')
