-- ===== src/Process/Verify.antt =====
-- The self-check of src/process.rs against the invariant that it stands for.
use ventura_os.Base.{
  ℕ, ◌≡◌, ◌↔◌, refl, true, false, not, ◌&&◌, none, List, [], ◌∷◌, ◌==◌, All, arith, map, Bool-cases,
  inl, inr, ap, ℕ_discrete,
}
use mathlib.Core.Bool.{false≢true}
use ventura_os.Thread.{KernelThread, is_running}
use ventura_os.Process.{
  Process, kernel_bootstrap, is_terminated, same_bytes, any_running, any_foreign, any_with_id,
  any_duplicate, verify, terminate, stopped,
}

abbrev pub Distinct : List KernelThread → Type 0
Distinct [] = Unit
Distinct (t ∷ ts) = All (λ u. ¬ (t.id ≡ u.id)) ts × Distinct ts

-- The invariant of a process.
pub record IsValid (p : Process) : Type 0 where
  pub bootstrap : p.id ≡ 0 → p.name ≡ kernel_bootstrap
  pub halted : is_terminated p.state ≡ true → All (λ t. is_running t.state ≡ false) p.threads
  pub owned : All (λ t. t.process_id ≡ p.id) p.threads
  pub distinct : Distinct p.threads

same_bytes-eq : (xs ys : List ℕ) → same_bytes xs ys ≡ true → xs ≡ ys
unfolding same_bytes
same_bytes-eq [] [] h = refl
same_bytes-eq [] (y ∷ ys) h = absurd (false≢true h)
same_bytes-eq (x ∷ xs) [] h = absurd (false≢true h)
same_bytes-eq (x ∷ xs) (y ∷ ys) h =
    let e : x ≡ y = ground arith in rw e (ap (λ zs. y ∷ zs) (same_bytes-eq xs ys (ground arith)))

same_bytes_refl : (xs : List ℕ) → same_bytes xs xs ≡ true
unfolding same_bytes
same_bytes_refl [] = refl
same_bytes_refl (x ∷ xs) = ground (arith, same_bytes_refl xs)

any_running_iff :
    (ts : List KernelThread) → (any_running ts ≡ false) ↔ All (λ t. is_running t.state ≡ false) ts
unfolding any_running
any_running_iff [] = (λ _. tt, λ _. refl)
any_running_iff (t ∷ ts) = (
  λ h. (ground arith, (any_running_iff ts).0 (ground arith)),
  λ (head, tail). ground (arith, head, (any_running_iff ts).1 tail),
)

any_foreign_iff :
    (pid : ℕ) (ts : List KernelThread)
    → (any_foreign pid ts ≡ false) ↔ All (λ t. t.process_id ≡ pid) ts
unfolding any_foreign
any_foreign_iff pid [] = (λ _. tt, λ _. refl)
any_foreign_iff pid (t ∷ ts) = (
  λ h. (ground arith, (any_foreign_iff pid ts).0 (ground arith)),
  λ (head, tail). ground (arith, head, (any_foreign_iff pid ts).1 tail),
)

any_with_id_iff :
    (tid : ℕ) (ts : List KernelThread) → (any_with_id tid ts ≡ false) ↔ All (λ u. ¬ (tid ≡ u.id)) ts
unfolding any_with_id
any_with_id_iff tid [] = (λ _. tt, λ _. refl)
any_with_id_iff tid (t ∷ ts) = (
  λ h. (λ e. ground arith, (any_with_id_iff tid ts).0 (ground arith)),
  λ (head, tail). ground (arith, head, (any_with_id_iff tid ts).1 tail),
)

any_duplicate_iff : (ts : List KernelThread) → (any_duplicate ts ≡ false) ↔ Distinct ts
unfolding any_duplicate
any_duplicate_iff [] = (λ _. tt, λ _. refl)
any_duplicate_iff (t ∷ ts) = (
  λ h. ((any_with_id_iff t.id ts).0 (ground arith), (any_duplicate_iff ts).0 (ground arith)),
  λ (head, tail). ground (arith, (any_with_id_iff t.id ts).1 head, (any_duplicate_iff ts).1 tail),
)

-- `verify` accepts a process exactly if only the bootstrap process has number 0, no thread of a
-- terminated process runs, every thread carries the process's number and no two threads have the
-- same number.
pub verify_iff : (p : Process) → (verify p ≡ none) ↔ IsValid p
unfolding verify
verify_iff p = (sound, complete)
  where
    sound : verify p ≡ none → IsValid p
    sound h =
        let named : ((p.id == 0) && not (same_bytes p.name kernel_bootstrap)) ≡ false =
          ground arith in
        let quiet : (is_terminated p.state && any_running p.threads) ≡ false = ground arith in
        let own : any_foreign p.id p.threads ≡ false = ground arith in
        let single : any_duplicate p.threads ≡ false = ground arith in
        record {
          bootstrap = λ e. same_bytes-eq p.name kernel_bootstrap (ground (arith, named));
          halted = λ e. (any_running_iff p.threads).0 (ground (arith, quiet));
          owned = (any_foreign_iff p.id p.threads).0 own;
          distinct = (any_duplicate_iff p.threads).0 single;
        }

    named : IsValid p → ((p.id == 0) && not (same_bytes p.name kernel_bootstrap)) ≡ false
    named v = elim (ℕ_discrete p.id 0) [
      | yes e ↦
          let same : same_bytes p.name kernel_bootstrap ≡ true =
            rw (v.bootstrap e) (same_bytes_refl kernel_bootstrap) in
          ground (arith, same)
      | no ne ↦ ground arith
    ]

    quiet : IsValid p → (is_terminated p.state && any_running p.threads) ≡ false
    quiet v = elim (Bool-cases (is_terminated p.state)) [
      | inl halted ↦ ground (arith, (any_running_iff p.threads).1 (v.halted halted))
      | inr other ↦ ground arith
    ]

    complete : IsValid p → verify p ≡ none
    complete v = ground (
      arith,
      named v,
      quiet v,
      (any_foreign_iff p.id p.threads).1 v.owned,
      (any_duplicate_iff p.threads).1 v.distinct,
    )

stopped-quiet : (ts : List KernelThread) → All (λ t. is_running t.state ≡ false) (map stopped ts)
stopped-quiet [] = tt
stopped-quiet (t ∷ ts) = (refl, stopped-quiet ts)

stopped-owned :
    (pid : ℕ) (ts : List KernelThread)
    → All (λ t. t.process_id ≡ pid) ts
    → All (λ t. t.process_id ≡ pid) (map stopped ts)
stopped-owned pid [] all = tt
stopped-owned pid (t ∷ ts) (head, tail) = (head, stopped-owned pid ts tail)

stopped-others :
    (tid : ℕ) (ts : List KernelThread)
    → All (λ u. ¬ (tid ≡ u.id)) ts
    → All (λ u. ¬ (tid ≡ u.id)) (map stopped ts)
stopped-others tid [] all = tt
stopped-others tid (t ∷ ts) (head, tail) = (head, stopped-others tid ts tail)

stopped-Distinct : (ts : List KernelThread) → Distinct ts → Distinct (map stopped ts)
stopped-Distinct [] d = tt
stopped-Distinct (t ∷ ts) (head, tail) = (stopped-others t.id ts head, stopped-Distinct ts tail)

-- Terminating a valid process leaves a process that passes its own check, is terminated, has its
-- number and its threads' numbers and runs none of them.
pub verify-terminate :
    (p : Process)
    → verify p ≡ none
    → (verify (terminate p) ≡ none)
      × (is_terminated (terminate p).state ≡ true)
      × All (λ t. is_running t.state ≡ false) (terminate p).threads
      × (map (λ t. t.id) (terminate p).threads ≡ map (λ t. t.id) p.threads)
unfolding terminate
verify-terminate p h =
    let v = (verify_iff p).0 h in
    (
      (verify_iff _).1 (record {
        bootstrap = v.bootstrap;
        halted = λ _. stopped-quiet p.threads;
        owned = stopped-owned p.id p.threads v.owned;
        distinct = stopped-Distinct p.threads v.distinct;
      }),
      refl,
      stopped-quiet p.threads,
      same_ids p.threads,
    )
  where
    same_ids : (ts : List KernelThread) → map (λ t. t.id) (map stopped ts) ≡ map (λ t. t.id) ts
    same_ids [] = refl
    same_ids (t ∷ ts) = ap (λ ids. t.id ∷ ids) (same_ids ts)
