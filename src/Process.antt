-- ===== src/Process.antt =====
-- Processes: src/process.rs. The threads are a list and a name is the list of its bytes.
pub mod Tests
pub mod Verify
use ventura_os.Base.{
  add64, ℕ, ◌+◌, Bool, true, false, not, ◌&&◌, ◌||◌, Option, none, some, List, [], ◌∷◌, ◌++◌, ◌==◌,
  leb, ltb, if◌then◌else◌, length, get_elem?, map,
}
use ventura_os.Thread
use ventura_os.Thread.{KernelThread, ThreadError, System, new_raw, is_running}
use ventura_os.AddressSpace
use ventura_os.AddressSpace.{AddressSpace, Spaces}
use ventura_os.Registry.{Registry, register}

abbrev pub max_processes : ℕ
max_processes = 16

pub data ProcessState : Type 0 where
  created ready running terminating terminated : ProcessState

abbrev pub is_terminated : ProcessState → Bool
is_terminated created = false
is_terminated ready = false
is_terminated running = false
is_terminated terminating = false
is_terminated terminated = true

pub data ProcessError : Type 0 where
  invalid_pid registry_full : ProcessError
  thread_creation_failed : ThreadError → ProcessError
  address_space_creation_failed process_terminated invariant_violation : ProcessError

pub record Process : Type 0 where
  pub id : ℕ
  pub name : List ℕ
  pub state : ProcessState
  pub threads : List KernelThread
  pub address_space : AddressSpace

-- "kernel_bootstrap"
abbrev pub kernel_bootstrap : List ℕ
kernel_bootstrap = 0x6B ∷ 0x65 ∷ 0x72 ∷ 0x6E ∷ 0x65 ∷ 0x6C ∷ 0x5F ∷ Thread.bootstrap_name

-- `Result<Process, ProcessError>`, beside NEXT_PID and the address spaces.
pub data Made : Type 0 where
  ok : Process → ℕ → Spaces → Made
  err : ProcessError → ℕ → Spaces → Made

unfoldable pub new : ℕ → List ℕ → ℕ → Spaces → Made
unfolding AddressSpace.new
new kernel_root name next_pid s = elim (AddressSpace.new kernel_root s) [
  | AddressSpace.err _ s' ↦ err address_space_creation_failed next_pid s'
  | AddressSpace.ok space s' ↦
      ok
        (record {
          id = next_pid;
          name = name;
          state = created;
          threads = [];
          address_space = space;
        })
        (add64 next_pid 1) s'
]

abbrev pub bootstrap : ℕ → Process
bootstrap root = record {
  id = 0;
  name = kernel_bootstrap;
  state = running;
  threads = record Thread.bootstrap { process_id = 0 } ∷ [];
  address_space = AddressSpace.bootstrap root;
}

-- `Result<u64, ProcessError>`, beside the process and the system.
pub data Attached : Type 0 where
  ok : ℕ → Process → System → Attached
  err : ProcessError → System → Attached

unfoldable pub create_thread : ℕ → List ℕ → ℕ → ℕ → Process → System → Attached
unfolding new_raw
create_thread initial_context_entry name entry arg p s =
    if is_terminated p.state
    then err process_terminated s
    else elim (new_raw initial_context_entry name entry arg s) [
      | Thread.err e s' ↦ err (thread_creation_failed e) s'
      | Thread.ok thread s' ↦
          ok thread.id
            (record p { threads = p.threads ++ (record thread { process_id = p.id } ∷ []) }) s'
    ]

-- The two threads at the indices, in the order asked for.
unfoldable pub get_two_threads_mut : ℕ → ℕ → Process → Option (KernelThread × KernelThread)
get_two_threads_mut idx1 idx2 p =
    if (idx1 == idx2) || leb (length p.threads) idx1 || leb (length p.threads) idx2
    then none
    else elim (get_elem? p.threads idx1) [
      | none ↦ none
      | some first ↦ elim (get_elem? p.threads idx2) [
        | none ↦ none
        | some second ↦ some (first, second)
      ]
    ]

abbrev pub stopped : KernelThread → KernelThread
stopped t = record t { state = Thread.terminated }

unfoldable pub terminate : Process → Process
terminate p = record p { state = terminated; threads = map stopped p.threads }

unfoldable pub same_bytes : List ℕ → List ℕ → Bool
same_bytes [] [] = true
same_bytes [] (y ∷ ys) = false
same_bytes (x ∷ xs) [] = false
same_bytes (x ∷ xs) (y ∷ ys) = (x == y) && same_bytes xs ys

unfoldable pub any_running : List KernelThread → Bool
any_running [] = false
any_running (t ∷ ts) = is_running t.state || any_running ts

unfoldable pub any_foreign : ℕ → List KernelThread → Bool
any_foreign pid [] = false
any_foreign pid (t ∷ ts) = not (t.process_id == pid) || any_foreign pid ts

unfoldable pub any_with_id : ℕ → List KernelThread → Bool
any_with_id tid [] = false
any_with_id tid (t ∷ ts) = (tid == t.id) || any_with_id tid ts

-- `for i .. for j in (i + 1)..`
unfoldable pub any_duplicate : List KernelThread → Bool
unfolding any_with_id
any_duplicate [] = false
any_duplicate (t ∷ ts) = any_with_id t.id ts || any_duplicate ts

unfoldable pub verify : Process → Option ProcessError
unfolding same_bytes any_running any_foreign any_duplicate
verify p =
    if (p.id == 0) && not (same_bytes p.name kernel_bootstrap)
    then some invariant_violation
    else if is_terminated p.state && any_running p.threads
    then some invariant_violation
    else if any_foreign p.id p.threads
    then some invariant_violation
    else if any_duplicate p.threads
    then some invariant_violation
    else none

unfoldable pub register_process : Process → Registry Process → (Option ℕ) × Registry Process
unfolding register
register_process proc reg =
    let (added, reg') = register max_processes proc reg in
    (if added then some proc.id else none, reg')
