-- ===== src/Base/Scan.antt =====
-- `trailing_zeros` finds the lowest bit, and `count_ones` counts the bits.
use native.Mathlib.Nat.{pow-suc}
use Prim.Native.Nat.{ℕ, zero, suc, ◌+◌, ◌/◌, ◌%◌, ◌^◌, ◌<◌}
use mathlib.Core.Path.{◌≡◌, refl}
use mathlib.Core.Bool.{Bool, true, false}
use native.Mathlib.Omega.{arith}
use ventura_os.Base.Tests.{ltb, if◌then◌else◌, Bool-cases}
use ventura_os.Base.Bits.{test_bit}
use ventura_os.Base.Words.{trailing_zeros, count_ones}
use ventura_os.Base.Count.{count_below}
use mathlib.Core.Logic.{inl, inr}

-- `b` is the lowest one among the `n` low bits of `w`.
pub record IsLowest (n w b : ℕ) : Type 0 where
  pub in_word : b < n
  pub is_one : test_bit w b ≡ true
  pub below : (j : ℕ) → j < b → test_bit w j ≡ false

pub trailing_zeros-IsLowest : (n w : ℕ) → w < 2 ^ n → 0 < w → IsLowest n w (trailing_zeros n w)
unfolding trailing_zeros test_bit
trailing_zeros-IsLowest zero w h pos = absurd (omega arith)
trailing_zeros-IsLowest (suc n) w h pos = elim (Bool-cases (ltb 0 (w % 2))) [
  | inl odd ↦
      rw odd (record {
        in_word = omega arith;
        is_one = ground arith;
        below = λ j p. absurd (omega arith);
      })
  | inr even ↦
      let half_lt : w / 2 < 2 ^ n = omega (arith, pow-suc 2 n) in
      let rest = trailing_zeros-IsLowest n (w / 2) half_lt (ground arith) in
      rw even (record {
        in_word = omega (arith, rest.in_word);
        is_one = rest.is_one;
        below = low even rest.below;
      })
]
  where
    low :
        ltb 0 (w % 2) ≡ false
        → ((j : ℕ) → j < trailing_zeros n (w / 2) → test_bit (w / 2) j ≡ false)
        → (j : ℕ) → j < suc (trailing_zeros n (w / 2))
        → test_bit w j ≡ false
    low even f zero p = ground arith
    low even f (suc j) p = f j (omega arith)

count_below-suc :
    (f : ℕ → Bool) (n : ℕ)
    → count_below f (suc n) ≡ (if f 0 then 1 else 0) + count_below (λ i. f (suc i)) n
unfolding count_below
count_below-suc f zero = omega arith
count_below-suc f (suc n) = omega (arith, count_below-suc f n)

pub count_ones-count_below : (n w : ℕ) → count_ones n w ≡ count_below (test_bit w) n
unfolding count_ones
count_ones-count_below zero w = unfold count_below in refl
count_ones-count_below (suc n) w =
    rw (count_below-suc (test_bit w) n, count_ones-count_below n (w / 2))
      (unfold test_bit in ground arith)
