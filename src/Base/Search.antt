-- ===== src/Base/Search.antt =====
-- A `for i in 0..n` loop that returns at the first index that passes a test.
use Prim.Native.Nat.{ℕ, zero, suc, ◌+◌, ◌<◌}
use mathlib.Core.Path.{◌≡◌}
use mathlib.Core.Logic.{inl, inr}
use mathlib.Core.Bool.{Bool, true, false}
use mathlib.Core.Option.{Option, none, some}
use native.Mathlib.Omega.{arith}
use native.Mathlib.Decide.{ℕ_discrete}
use ventura_os.Base.Tests.{if◌then◌else◌, if_true, if_false, Bool-cases}

-- The indices from `i` on, `left` of them.
unfoldable pub find_from : (ℕ → Bool) → ℕ → ℕ → Option ℕ
find_from p i zero = none
find_from p i (suc left) = let rest = find_from p (suc i) left in if p i then some i else rest

unfoldable pub find_first : (ℕ → Bool) → ℕ → Option ℕ
unfolding find_from
find_first p n = find_from p 0 n

pub data Found (p : ℕ → Bool) (n : ℕ) : Option ℕ → Type 0 where
  hit : (i : ℕ) → i < n → p i ≡ true → ((j : ℕ) → j < i → p j ≡ false) → Found p n (some i)
  miss : ((j : ℕ) → j < n → p j ≡ false) → Found p n none

find_from-Found :
    (p : ℕ → Bool) (n i left : ℕ)
    → i + left ≡ n
    → ((j : ℕ) → j < i → p j ≡ false)
    → Found p n (find_from p i left)
unfolding find_from
find_from-Found p n i zero e before = miss (λ j h. before j (omega (arith, e)))
find_from-Found p n i (suc left) e before = elim (Bool-cases (p i)) [
  | inl yes_p ↦ rw (if_true _ _ yes_p) (hit i (omega (arith, e)) yes_p before)
  | inr no_p ↦ rw (if_false _ _ no_p) (
      find_from-Found p n (suc i) left (omega (arith, e))
        (λ j h. elim (ℕ_discrete j i) [ yes same ↦ rw same no_p | no ne ↦ before j (omega arith) ]))
]

pub find_first-Found : (p : ℕ → Bool) (n : ℕ) → Found p n (find_first p n)
unfolding find_first
find_first-Found p n = find_from-Found p n 0 n (omega arith) (λ j h. absurd (omega arith))
