-- ===== src/Process/Tests.antt =====
-- A process with two threads and a registry, as src/process.rs and src/thread.rs hold them.
use ventura_os.Base.{◌≡◌, ◌↔◌, refl, true, false, none, [], ◌∷◌, All, map}
use ventura_os.Base.Count.{count_below}
use ventura_os.Thread.{KernelThread, is_running, bootstrap, max_threads}
use ventura_os.Process.{Process, running, is_terminated, verify, terminate}
use ventura_os.Process.Verify.{IsValid, verify_iff, verify-terminate}
use ventura_os.Registry.{Registered, new_registry, register, register-Registered}

abbrev worker : KernelThread
worker = record bootstrap { id = 2; process_id = 1 }

abbrev two_threads : Process
two_threads = record {
  id = 1;
  name = [];
  state = running;
  threads = worker ∷ record worker { id = 3 } ∷ [];
  address_space = record { id = 1; root_page = 0x5000; owns_root = true };
}

two_threads_verified : verify two_threads ≡ none
unfolding verify
two_threads_verified = refl

verify_iff_example : (verify two_threads ≡ none) ↔ IsValid two_threads
verify_iff_example = verify_iff two_threads

verify-terminate_example :
    (verify (terminate two_threads) ≡ none)
    × (is_terminated (terminate two_threads).state ≡ true)
    × All (λ t. is_running t.state ≡ false) (terminate two_threads).threads
    × (map (λ t. t.id) (terminate two_threads).threads ≡ map (λ t. t.id) two_threads.threads)
verify-terminate_example = verify-terminate two_threads two_threads_verified

register-Registered_example :
    Registered max_threads worker new_registry (register max_threads worker new_registry)
unfolding count_below
register-Registered_example = register-Registered max_threads worker new_registry refl
