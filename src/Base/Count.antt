-- ===== src/Base/Count.antt =====
-- How many numbers below a bound pass a test.
use Prim.Native.Nat.{ℕ, zero, suc, ◌+◌, ◌≤◌, ◌<◌}
use mathlib.Core.Path.{◌≡◌, refl, sym, ap, ◌∙◌}
use mathlib.Core.Bool.{Bool, true, false, ◌&&◌}
use native.Mathlib.Omega.{arith}
use native.Mathlib.Decide.{ℕ_discrete}
use ventura_os.Base.Tests.{ltb, if◌then◌else◌}

unfoldable pub count_below : (ℕ → Bool) → ℕ → ℕ
count_below f zero = 0
count_below f (suc n) = count_below f n + (if f n then 1 else 0)

pub count_below-le : (f : ℕ → Bool) (n : ℕ) → count_below f n ≤ n
unfolding count_below
count_below-le f zero = omega arith
count_below-le f (suc n) = ground (arith, count_below-le f n)

pub count_below_ext :
    (f g : ℕ → Bool) (n : ℕ) → ((i : ℕ) → i < n → f i ≡ g i) → count_below f n ≡ count_below g n
unfolding count_below
count_below_ext f g zero h = refl
count_below_ext f g (suc n) h =
    ground (arith, h n (omega arith), count_below_ext f g n (λ i p. h i (omega arith)))

-- Turning one more number on adds one.
pub count_below-on :
    (f g : ℕ → Bool) (p n : ℕ)
    → p < n
    → f p ≡ false
    → g p ≡ true
    → ((i : ℕ) → ¬ (i ≡ p) → g i ≡ f i)
    → count_below g n ≡ count_below f n + 1
unfolding count_below
count_below-on f g p zero lt off on same = absurd (omega arith)
count_below-on f g p (suc n) lt off on same = elim (ℕ_discrete n p) [
  | yes e ↦
      let same_below : count_below g n ≡ count_below f n =
        count_below_ext g f n (λ i h. same i (omega arith)) in
      let off' : f n ≡ false = rw e off in let on' : g n ≡ true = rw e on in ground arith
  | no ne ↦ ground (arith, same n ne, count_below-on f g p n (omega arith) off on same)
]

pub count_below_pos : (f : ℕ → Bool) (p n : ℕ) → p < n → f p ≡ true → 0 < count_below f n
unfolding count_below
count_below_pos f p zero lt on = absurd (omega arith)
count_below_pos f p (suc n) lt on = elim (ℕ_discrete n p) [
  | yes e ↦ let on' : f n ≡ true = rw e on in ground arith
  | no ne ↦ ground (arith, count_below_pos f p n (omega arith) on)
]

pub count_below_none :
    (f : ℕ → Bool) (n : ℕ) → ((i : ℕ) → i < n → f i ≡ false) → count_below f n ≡ 0
unfolding count_below
count_below_none f zero h = refl
count_below_none f (suc n) h =
    ground (arith, h n (omega arith), count_below_none f n (λ i p. h i (omega arith)))

pub count_below-add :
    (f : ℕ → Bool) (a n : ℕ)
    → count_below f (a + n) ≡ count_below f a + count_below (λ i. f (a + i)) n
unfolding count_below
count_below-add f a zero = let e : a + 0 ≡ a = omega arith in rw e (omega arith)
count_below-add f a (suc n) =
    let e : a + suc n ≡ suc (a + n) = omega arith in rw e (omega (arith, count_below-add f a n))

-- Only the numbers below `k` count.
pub count_below-cut :
    (f : ℕ → Bool) (k n : ℕ) → k ≤ n → count_below (λ i. ltb i k && f i) n ≡ count_below f k
unfolding count_below
count_below-cut f k zero le = let e : k ≡ 0 = omega arith in rw e
count_below-cut f k (suc n) le = elim (ℕ_discrete k (suc n)) [
  | yes e ↦
      count_below_ext (λ i. ltb i k && f i) f (suc n) (λ i h. ground arith)
      ∙ ap (count_below f) (sym e)
  | no ne ↦ ground (arith, count_below-cut f k n (omega arith))
]
