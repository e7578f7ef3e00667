-- ===== src/Pmm/Verify.antt =====
-- `verify_invariants` of src/pmm.rs accepts exactly the valid allocators.
use ventura_os.Base.{
  ℕ, zero, suc, ◌+◌, ◌-◌, ◌*◌, ◌/◌, ◌%◌, ◌^◌, ◌≤◌, ◌<◌, ◌≡◌, ◌↔◌, refl, ◌∙◌, ◌&&◌, none, ltb, not64,
  count_ones, arith, inl, inr, ap, Bool-cases, bit_or, ℕ_discrete, pow-lt, pow_pos,
}
use ventura_os.Base.Bits.{
  test_bit, test_bit-not, test_bit-zero, test_bit-high, test_bit-bit_or, bit_or-lt,
}
use ventura_os.Base.Count.{
  count_below, count_below-le, count_below_ext, count_below-add, count_below-cut,
}
use ventura_os.Base.Scan.{count_ones-count_below}
use ventura_os.Pmm.{
  Pmm, max_managed_pages, words_to_scan, free_bits_of, count_free, verify_invariants,
}
use ventura_os.Pmm.Pages.{is_free, free_below, Words, IsValid, free_test}

test_bit-mask : (k j : ℕ) → test_bit (2 ^ k - 1) j ≡ ltb j k
test_bit-mask k j = elim (Bool-cases (ltb j k)) [
  | inl below ↦
      let e : 2 ^ k - 1 - 0 ≡ 2 ^ k - 1 = omega arith in
      rw below (
        ground (
          arith,
          e,
          ap (λ w. test_bit w j) e,
          test_bit-not k j 0 (pow_pos k) (ground arith),
          test_bit-zero j,
        ))
  | inr above ↦ rw above (test_bit-high k j (2 ^ k - 1) (omega (arith, pow_pos k)) (ground arith))
]

module _ (s : Pmm) (words : Words s.bitmap) (w : ℕ) where
  -- Page `i` of the word is free exactly if bit `i` of the complement is set.
  free_at : (i : ℕ) → i < 64 → test_bit (not64 (s.bitmap w)) i ≡ is_free s.bitmap (w * 64 + i)
  unfolding is_free
  free_at i h =
      let e : (w * 64 + i) / 64 ≡ w = omega arith in
      let e' : (w * 64 + i) % 64 ≡ i = omega arith in
      rw (e, e') (test_bit-not 64 i (s.bitmap w) (words w) h)

  full_word_count :
      count_ones 64 (not64 (s.bitmap w)) ≡ count_below (λ i. is_free s.bitmap (w * 64 + i)) 64
  full_word_count = count_ones-count_below 64 (not64 (s.bitmap w)) ∙ count_below_ext _ _ 64 free_at

  masked_at :
      (k i : ℕ)
      → k < 64
      → i < 64
      → test_bit (not64 (bit_or (s.bitmap w) (not64 (2 ^ k - 1)))) i
        ≡ (ltb i k && is_free s.bitmap (w * 64 + i))
  masked_at k i lt h =
      let mask_lt : 2 ^ k - 1 < 2 ^ 64 = omega (arith, pow-lt k 64 lt) in
      let inv_lt : not64 (2 ^ k - 1) < 2 ^ 64 = omega arith in
      ground (
        arith,
        test_bit-not 64 i (bit_or (s.bitmap w) (not64 (2 ^ k - 1)))
            (bit_or-lt 64 (s.bitmap w) (not64 (2 ^ k - 1)) (words w) inv_lt) h,
        test_bit-bit_or i (s.bitmap w) (not64 (2 ^ k - 1)),
        test_bit-not 64 i (2 ^ k - 1) mask_lt h,
        test_bit-mask k i,
        test_bit-not 64 i (s.bitmap w) (words w) h,
        free_at i h,
      )

  last_word_count :
      (k : ℕ)
      → k < 64
      → count_ones 64 (not64 (bit_or (s.bitmap w) (not64 (2 ^ k - 1))))
        ≡ count_below (λ i. is_free s.bitmap (w * 64 + i)) k
  last_word_count k lt =
      count_ones-count_below 64 (not64 (bit_or (s.bitmap w) (not64 (2 ^ k - 1))))
      ∙ count_below_ext _ (λ i. ltb i k && is_free s.bitmap (w * 64 + i)) 64
          (λ i h. masked_at k i lt h)
      ∙ count_below-cut (λ i. is_free s.bitmap (w * 64 + i)) k 64 (omega arith)

module _ (s : Pmm) (words : Words s.bitmap) where
  -- The words before the masked one count all their pages.
  count_free-free_below :
      (n : ℕ) → n * 64 ≤ s.total_managed_pages → count_free s n ≡ free_below s.bitmap (n * 64)
  unfolding count_free free_below
  count_free-free_below zero le = unfold count_below in refl
  count_free-free_below (suc n) le =
      let whole : free_bits_of s n ≡ count_ones 64 (not64 (s.bitmap n)) =
        unfold free_bits_of in ground arith in
      let e : suc n * 64 ≡ n * 64 + 64 = omega arith in
      rw e (
        omega (
          arith,
          whole,
          full_word_count s words n,
          count_below-add (is_free s.bitmap) (n * 64) 64,
          count_free-free_below n (omega arith),
        ))

  count_free_lem : count_free s (words_to_scan s) ≡ free_below s.bitmap s.total_managed_pages
  count_free_lem = elim (ℕ_discrete (s.total_managed_pages % 64) 0) [
    | yes e ↦
        let ew : words_to_scan s * 64 ≡ s.total_managed_pages = omega arith in
        count_free-free_below (words_to_scan s) (omega arith) ∙ ap (free_below s.bitmap) ew
    | no ne ↦
        let q : ℕ = s.total_managed_pages / 64 in
        let k : ℕ = s.total_managed_pages % 64 in
        let ew : words_to_scan s ≡ suc q = omega arith in
        let masked : free_bits_of s q
            ≡ count_ones 64 (not64 (bit_or (s.bitmap q) (not64 (2 ^ k - 1)))) =
          unfold free_bits_of in ground arith in
        let split : q * 64 + k ≡ s.total_managed_pages = omega arith in
        rw ew (
          unfold count_free free_below in
          omega (
            arith,
            masked,
            last_word_count s words q k (omega arith),
            ap (count_below (is_free s.bitmap)) split,
            count_below-add (is_free s.bitmap) (q * 64) k,
            count_free-free_below q (omega arith),
          ))
  ]

verify_invariants-IsValid :
    (s : Pmm)
    → s.total_managed_pages ≤ max_managed_pages
    → Words s.bitmap
    → s.used_pages < 2 ^ 64
    → verify_invariants s ≡ none
    → IsValid s
verify_invariants-IsValid s bounded words used_lt passed = record {
  bounded = bounded;
  words = words;
  page_zero = unfold verify_invariants in ground (arith, passed, free_test s.bitmap 0);
  accounted = omega (arith, sum_ok, counted, free_below-le);
  counted = counted;
}
  where
    sum_ok : (s.used_pages + s.free_pages) % 2 ^ 64 ≡ s.total_managed_pages
    sum_ok = unfold verify_invariants in ground (arith, passed)

    counted : s.free_pages ≡ free_below s.bitmap s.total_managed_pages
    counted = unfold verify_invariants in ground (arith, passed, count_free_lem s words)

    free_below-le : free_below s.bitmap s.total_managed_pages ≤ s.total_managed_pages
    free_below-le = unfold free_below in count_below-le (is_free s.bitmap) s.total_managed_pages

IsValid-verify_invariants : (s : Pmm) → IsValid s → verify_invariants s ≡ none
unfolding verify_invariants
IsValid-verify_invariants s v = ground (
  arith,
  v.bounded,
  v.accounted,
  v.counted,
  v.page_zero,
  free_test s.bitmap 0,
  count_free_lem s v.words,
)

-- Over a bitmap of 64-bit words and at most `MAX_MANAGED_PAGES` pages, `verify_invariants` passes
-- exactly on the valid allocators: its scan with the masked last word counts the free pages.
pub verify_invariants_iff :
    (s : Pmm)
    → s.total_managed_pages ≤ max_managed_pages
    → Words s.bitmap
    → s.used_pages < 2 ^ 64
    → (verify_invariants s ≡ none) ↔ IsValid s
verify_invariants_iff s bounded words used_lt =
    (verify_invariants-IsValid s bounded words used_lt, IsValid-verify_invariants s)
