-- ===== src/Pmm/Pages.antt =====
-- The bitmap of src/pmm.rs read page by page: which pages are free, and what the writes change.
use ventura_os.Base.{
  ℕ, ◌+◌, ◌/◌, ◌%◌, ◌^◌, ◌≤◌, ◌<◌, ◌≡◌, sym, Bool, true, false, not, ◌==◌, if◌then◌else◌, not64,
  arith, bit_and, pow-lt,
}
use ventura_os.Base.Bits.{
  bit_and-pow, test_bit, test_bit-bit_or, test_bit-bit_and, test_bit-pow, test_bit-not, bit_or-lt,
  bit_and-lt,
}
use ventura_os.Base.Count.{count_below, count_below-on}
use ventura_os.Pmm.{Pmm, clear_bit, set_bit, max_managed_pages}

unfoldable pub is_free : (ℕ → ℕ) → ℕ → Bool
is_free bitmap p = not (test_bit (bitmap (p / 64)) (p % 64))

unfoldable pub free_below : (ℕ → ℕ) → ℕ → ℕ
free_below bitmap n = count_below (is_free bitmap) n

abbrev pub Words : (ℕ → ℕ) → Type 0
Words bitmap = (w : ℕ) → bitmap w < 2 ^ 64

pub set_bit-Words : (bitmap : ℕ → ℕ) (p : ℕ) → Words bitmap → Words (set_bit bitmap p)
unfolding set_bit
set_bit-Words bitmap p h w = ground (
  arith,
  h w,
  bit_or-lt 64 (bitmap (p / 64)) (2 ^ (p % 64)) (h (p / 64)) (pow-lt (p % 64) 64 (omega arith)),
)

pub clear_bit-Words : (bitmap : ℕ → ℕ) (p : ℕ) → Words bitmap → Words (clear_bit bitmap p)
unfolding clear_bit
clear_bit-Words bitmap p h w =
    ground (arith, h w, bit_and-lt 64 (bitmap (p / 64)) (not64 (2 ^ (p % 64))) (h (p / 64)))

-- The writes change one page.
pub is_free-set_bit :
    (bitmap : ℕ → ℕ) (p q : ℕ)
    → is_free (set_bit bitmap p) q ≡ (if p == q then false else is_free bitmap q)
unfolding is_free set_bit
is_free-set_bit bitmap p q = ground (
  arith,
  test_bit-bit_or (q % 64) (bitmap (p / 64)) (2 ^ (p % 64)),
  test_bit-pow (p % 64) (q % 64),
)

pub is_free-clear_bit :
    (bitmap : ℕ → ℕ) (p q : ℕ)
    → is_free (clear_bit bitmap p) q ≡ (if p == q then true else is_free bitmap q)
unfolding is_free clear_bit
is_free-clear_bit bitmap p q = ground (
  arith,
  test_bit-bit_and (q % 64) (bitmap (p / 64)) (not64 (2 ^ (p % 64))),
  test_bit-not 64 (q % 64) (2 ^ (p % 64)) (pow-lt (p % 64) 64 (omega arith)) (omega arith),
  test_bit-pow (p % 64) (q % 64),
)

pub free_below-set_bit :
    (bitmap : ℕ → ℕ) (p n : ℕ)
    → p < n
    → is_free bitmap p ≡ true
    → free_below (set_bit bitmap p) n + 1 ≡ free_below bitmap n
unfolding free_below
free_below-set_bit bitmap p n lt free = sym (
    count_below-on (is_free (set_bit bitmap p)) (is_free bitmap) p n lt
      (ground (arith, is_free-set_bit bitmap p p)) free
      (λ i ne. ground (arith, is_free-set_bit bitmap p i)))

pub free_below-clear_bit :
    (bitmap : ℕ → ℕ) (p n : ℕ)
    → p < n
    → is_free bitmap p ≡ false
    → free_below (clear_bit bitmap p) n ≡ free_below bitmap n + 1
unfolding free_below
free_below-clear_bit bitmap p n lt used =
    count_below-on (is_free bitmap) (is_free (clear_bit bitmap p)) p n lt used
      (ground (arith, is_free-clear_bit bitmap p p))
      (λ i ne. ground (arith, is_free-clear_bit bitmap p i))

-- The test `bitmap[p / 64] & (1 << p % 64) == 0`.
pub free_test :
    (bitmap : ℕ → ℕ) (p : ℕ) → (bit_and (bitmap (p / 64)) (2 ^ (p % 64)) == 0) ≡ is_free bitmap p
unfolding is_free
free_test bitmap p = bit_and-pow (p % 64) (bitmap (p / 64))

-- What holds of the allocator between operations.
pub record IsValid (s : Pmm) : Type 0 where
  pub bounded : s.total_managed_pages ≤ max_managed_pages
  pub words : Words s.bitmap
  pub page_zero : is_free s.bitmap 0 ≡ false
  pub accounted : s.used_pages + s.free_pages ≡ s.total_managed_pages
  pub counted : s.free_pages ≡ free_below s.bitmap s.total_managed_pages
