-- ===== src/Base/Bits.antt =====
-- Bits of native numbers: `test_bit` and the laws of `&`, `|` and `!` in terms of it.
use Prim.Native.Nat.{min, max, digits, bitwise, bit_and-bitwise, bit_or-bitwise}
use Prim.Native.Nat.{ℕ, zero, suc, ◌+◌, ◌-◌, ◌*◌, ◌/◌, ◌%◌, ◌^◌, ◌≤◌, ◌<◌, bit_and, bit_or}
use mathlib.Core.Path.{◌≡◌, refl, sym, ap, ◌∙◌}
use mathlib.Core.Bool.{Bool, false, not, ◌&&◌, ◌||◌}
use native.Mathlib.Nat.{le_refl, pow-suc, div-div-eq-div-mul, div-add-mod', mod-lt}
use native.Mathlib.Omega.{arith}
use ventura_os.Base.Tests.{◌==◌}
use ventura_os.Base.Words.{pow_pos}

-- The native operations stand for a recursion on binary digits with fuel; without the fuel they
-- have one equation for the lowest digit.
module _ (on_zero : ℕ → ℕ) (digit : ℕ → ℕ → ℕ) where
  enough_fuel :
      (x y fuel more : ℕ)
      → x ≤ more
      → x ≤ fuel
      → digits on_zero digit more x y ≡ digits on_zero digit fuel x y
  enough_fuel zero y zero zero h h' = refl
  enough_fuel zero y zero (suc more) h h' = refl
  enough_fuel zero y (suc fuel) zero h h' = refl
  enough_fuel zero y (suc fuel) (suc more) h h' = refl
  enough_fuel (suc x) y zero more h h' = absurd (omega arith)
  enough_fuel (suc x) y (suc fuel) zero h h' = absurd (omega arith)
  enough_fuel (suc x) y (suc fuel) (suc more) h h' =
      let halves = enough_fuel (suc x / 2) (y / 2) fuel more (omega arith) (omega arith) in
      ap (λ rest. rest * 2 + digit (suc x % 2) (y % 2)) halves

  lowest_digit :
      (x y : ℕ)
      → bitwise on_zero digit (suc x) y
        ≡ bitwise on_zero digit (suc x / 2) (y / 2) * 2 + digit (suc x % 2) (y % 2)
  lowest_digit x y =
      let halves = enough_fuel (suc x / 2) (y / 2) (suc x / 2) x (omega arith) (le_refl _) in
      ap (λ rest. rest * 2 + digit (suc x % 2) (y % 2)) halves

bit_or_step : (x y : ℕ) → bit_or x y ≡ bit_or (x / 2) (y / 2) * 2 + max (x % 2) (y % 2)
bit_or_step zero y = omega (arith, bit_or-bitwise 0 y, bit_or-bitwise 0 (y / 2))
bit_or_step (suc x) y =
    rw (bit_or-bitwise (suc x) y, bit_or-bitwise (suc x / 2) (y / 2))
      (lowest_digit (λ rest. rest) max x y)

bit_and_step : (x y : ℕ) → bit_and x y ≡ bit_and (x / 2) (y / 2) * 2 + min (x % 2) (y % 2)
bit_and_step zero y = omega (arith, bit_and-bitwise 0 y, bit_and-bitwise 0 (y / 2))
bit_and_step (suc x) y =
    rw (bit_and-bitwise (suc x) y, bit_and-bitwise (suc x / 2) (y / 2))
      (lowest_digit (λ _. 0) min x y)

-- Bit `i` of `w`.
unfoldable pub test_bit : ℕ → ℕ → Bool
test_bit w zero = (w % 2) == 1
test_bit w (suc i) = test_bit (w / 2) i

pub test_bit-bit_or : (i a b : ℕ) → test_bit (bit_or a b) i ≡ (test_bit a i || test_bit b i)
unfolding test_bit
test_bit-bit_or zero a b = ground (arith, bit_or_step a b)
test_bit-bit_or (suc i) a b =
    let half : bit_or a b / 2 ≡ bit_or (a / 2) (b / 2) = omega (arith, bit_or_step a b) in
    rw half (test_bit-bit_or i (a / 2) (b / 2))

pub test_bit-bit_and : (i a b : ℕ) → test_bit (bit_and a b) i ≡ (test_bit a i && test_bit b i)
unfolding test_bit
test_bit-bit_and zero a b = ground (arith, bit_and_step a b)
test_bit-bit_and (suc i) a b =
    let half : bit_and a b / 2 ≡ bit_and (a / 2) (b / 2) = omega (arith, bit_and_step a b) in
    rw half (test_bit-bit_and i (a / 2) (b / 2))

pub test_bit-zero : (i : ℕ) → test_bit 0 i ≡ false
unfolding test_bit
test_bit-zero zero = refl
test_bit-zero (suc i) = test_bit-zero i

pub test_bit-pow : (k i : ℕ) → test_bit (2 ^ k) i ≡ (k == i)
unfolding test_bit
test_bit-pow zero zero = refl
test_bit-pow zero (suc i) = rw (test_bit-zero i) (ground arith)
test_bit-pow (suc k) zero = ground (arith, pow-suc 2 k)
test_bit-pow (suc k) (suc i) =
    let half : 2 ^ suc k / 2 ≡ 2 ^ k = omega (arith, pow-suc 2 k) in
    rw half (test_bit-pow k i ∙ ground arith)

-- `!w` in a word of `n` bits.
pub test_bit-not : (n i w : ℕ) → w < 2 ^ n → i < n → test_bit (2 ^ n - 1 - w) i ≡ not (test_bit w i)
unfolding test_bit
test_bit-not zero i w h lt = absurd (omega arith)
test_bit-not (suc n) zero w h lt = ground (arith, pow-suc 2 n)
test_bit-not (suc n) (suc i) w h lt =
    let half : (2 ^ suc n - 1 - w) / 2 ≡ 2 ^ n - 1 - w / 2 = omega (arith, pow-suc 2 n) in
    rw half (test_bit-not n i (w / 2) (omega (arith, pow-suc 2 n)) (omega arith))

-- A word of `n` bits has no bit at `n` or above.
pub test_bit-high : (n i w : ℕ) → w < 2 ^ n → n ≤ i → test_bit w i ≡ false
unfolding test_bit
test_bit-high zero i w h le = rw (zero_lem) (test_bit-zero i)
  where
    zero_lem : w ≡ 0
    zero_lem = omega arith
test_bit-high (suc n) zero w h le = absurd (omega arith)
test_bit-high (suc n) (suc i) w h le =
    test_bit-high n i (w / 2) (omega (arith, pow-suc 2 n)) (omega arith)

-- Numbers below `2 ^ n` with the same bits are equal.
pub test_bit_ext :
    (n a b : ℕ) → a < 2 ^ n → b < 2 ^ n → ((i : ℕ) → test_bit a i ≡ test_bit b i) → a ≡ b
unfolding test_bit
test_bit_ext zero a b ha hb h = omega arith
test_bit_ext (suc n) a b ha hb h =
    let halves : a / 2 ≡ b / 2 =
      test_bit_ext n (a / 2) (b / 2) (omega (arith, pow-suc 2 n)) (omega (arith, pow-suc 2 n))
        (λ i. h (suc i)) in
    ground (arith, h 0)

pub bit_or-lt : (n a b : ℕ) → a < 2 ^ n → b < 2 ^ n → bit_or a b < 2 ^ n
bit_or-lt zero a b ha hb =
    let ea : a ≡ 0 = omega arith in let eb : b ≡ 0 = omega arith in rw (ea, eb) (omega arith)
bit_or-lt (suc n) a b ha hb = omega (
  arith,
  bit_or_step a b,
  pow-suc 2 n,
  bit_or-lt n (a / 2) (b / 2) (omega (arith, pow-suc 2 n)) (omega (arith, pow-suc 2 n)),
)

pub bit_and-lt : (n a b : ℕ) → a < 2 ^ n → bit_and a b < 2 ^ n
bit_and-lt zero a b ha = let ea : a ≡ 0 = omega arith in rw ea (ground (arith, bit_and-bitwise 0 b))
bit_and-lt (suc n) a b ha = omega (
  arith,
  bit_and_step a b,
  pow-suc 2 n,
  bit_and-lt n (a / 2) (b / 2) (omega (arith, pow-suc 2 n)),
)

pub mul-pow-suc : (x k : ℕ) → x * 2 ^ suc k ≡ x * 2 ^ k * 2
mul-pow-suc x k = grind (arith, pow-suc 2 k)

-- A mask that ends in `k` zeros leaves a multiple of `2 ^ k`.
pub bit_and-shifted : (k a m : ℕ) → bit_and a (m * 2 ^ k) ≡ bit_and (a / 2 ^ k) m * 2 ^ k
bit_and-shifted zero a m =
    let e : m * 2 ^ 0 ≡ m = omega arith in
    let e' : a / 2 ^ 0 ≡ a = omega arith in rw (e, e') (omega arith)
bit_and-shifted (suc k) a m =
    let p : 2 * 2 ^ k ≡ 2 ^ suc k = omega (arith, pow-suc 2 k) in
    let d : a / 2 / 2 ^ k ≡ a / 2 ^ suc k = div-div-eq-div-mul a 2 (2 ^ k) ∙ ap (λ t. a / t) p in
    let h : m * 2 ^ k * 2 / 2 ≡ m * 2 ^ k = omega arith in
    rw (← d, mul-pow-suc m k, bit_and_step, h, bit_and-shifted k (a / 2) m)
      (omega (arith, mul-pow-suc (bit_and (a / 2 / 2 ^ k) m) k))

lt-pow_self : (a : ℕ) → a < 2 ^ a
lt-pow_self zero = omega arith
lt-pow_self (suc a) = omega (arith, pow-suc 2 a, lt-pow_self a)

pub bit_and-zero : (a : ℕ) → bit_and a 0 ≡ 0
bit_and-zero a =
    test_bit_ext a (bit_and a 0) 0 (bit_and-lt a a 0 (lt-pow_self a)) (omega (arith, lt-pow_self a))
      (λ i. ground (arith, test_bit-bit_and i a 0, test_bit-zero i))

pub zero-bit_and : (a : ℕ) → bit_and 0 a ≡ 0
zero-bit_and a = bit_and-bitwise 0 a

pub bit_or-zero : (a : ℕ) → bit_or a 0 ≡ a
bit_or-zero a =
    test_bit_ext a (bit_or a 0) a (bit_or-lt a a 0 (lt-pow_self a) (omega (arith, lt-pow_self a)))
      (lt-pow_self a) (λ i. ground (arith, test_bit-bit_or i a 0, test_bit-zero i))

-- The test of one bit by a mask.
pub bit_and-pow : (k w : ℕ) → (bit_and w (2 ^ k) == 0) ≡ not (test_bit w k)
unfolding test_bit
bit_and-pow zero w = ground (arith, bit_and_step w 1, bit_and-zero (w / 2))
bit_and-pow (suc k) w =
    let half : 2 ^ suc k / 2 ≡ 2 ^ k = omega (arith, pow-suc 2 k) in
    let even : 2 ^ suc k % 2 ≡ 0 = omega (arith, pow-suc 2 k) in
    let doubled : bit_and w (2 ^ suc k) ≡ bit_and (w / 2) (2 ^ k) * 2 =
      rw (bit_and_step, half, even) (omega arith) in
    rw doubled (ground (arith, bit_and-pow k (w / 2)))

-- A mask of `k` low ones is the remainder by `2 ^ k`: first on a number given by its fields.
bit_and-fields : (k q r : ℕ) → r < 2 ^ k → bit_and (q * 2 ^ k + r) (2 ^ k - 1) ≡ r
bit_and-fields zero q r fits = rw bit_and-zero (omega arith)
bit_and-fields (suc k) q r fits =
    let half : (q * 2 ^ suc k + r) / 2 ≡ q * 2 ^ k + r / 2 = omega (arith, mul-pow-suc q k) in
    let half_mask : (2 ^ suc k - 1) / 2 ≡ 2 ^ k - 1 = omega (arith, pow-suc 2 k) in
    let low : (q * 2 ^ suc k + r) % 2 ≡ r % 2 = omega (arith, mul-pow-suc q k) in
    let low_mask : (2 ^ suc k - 1) % 2 ≡ 1 = omega (arith, pow-suc 2 k) in
    rw (bit_and_step, half, half_mask, low, low_mask)
      (omega (arith, bit_and-fields k q (r / 2) (omega (arith, pow-suc 2 k))))

pub bit_and-mask : (k a : ℕ) → bit_and a (2 ^ k - 1) ≡ a % 2 ^ k
bit_and-mask k a =
    ap (λ w. bit_and w (2 ^ k - 1)) (sym (div-add-mod' a (2 ^ k)))
    ∙ bit_and-fields k (a / 2 ^ k) (a % 2 ^ k) (mod-lt a (pow_pos k))

-- The low bits of a multiple of `2 ^ k` are zero.
pub test_bit-shifted : (k m i : ℕ) → i < k → test_bit (m * 2 ^ k) i ≡ false
unfolding test_bit
test_bit-shifted zero m i h = absurd (omega arith)
test_bit-shifted (suc k) m zero h = ground (arith, mul-pow-suc m k)
test_bit-shifted (suc k) m (suc i) h =
    let half : m * 2 ^ suc k / 2 ≡ m * 2 ^ k = omega (arith, mul-pow-suc m k) in
    rw half (test_bit-shifted k m i (omega arith))
