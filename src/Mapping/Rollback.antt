-- ===== src/Mapping/Rollback.antt =====
-- The frames of `allocate_and_map_region` in src/vmm.rs: all of them or none.
use ventura_os.Base.{
  ℕ, zero, suc, ◌+◌, ◌*◌, ◌<◌, ◌≡◌, refl, ◌∙◌, Bool, true, false, not, ◌&&◌, ◌||◌, Option, none,
  some, List, [], ◌∷◌, ◌++◌, ◌==◌, if◌then◌else◌, length, arith, All, length-append,
}
use ventura_os.Memory.{page_size}
use ventura_os.Pmm.{Pmm, PhysPage, FreeResult, free_physical_page}
use ventura_os.Pmm.Pages.{is_free, IsValid}
use ventura_os.Pmm.Alloc.{Allocation, out_of_memory, page, allocate_physical_page-Allocation}
use ventura_os.Pmm.Free.{
  Freed, unaligned, page_zero, outside, already_free, given, free_physical_page-Freed,
}
use ventura_os.Mapping.{free_pages, allocate_pages}

-- The page is in the list.
abbrev pub member : ℕ → List ℕ → Bool
member p [] = false
member p (x ∷ xs) = (x == p) || member p xs

abbrev pub Distinct : List ℕ → Type 0
Distinct [] = Unit
Distinct (x ∷ xs) = (member x xs ≡ false) × Distinct xs

member-snoc : (p x : ℕ) (xs : List ℕ) → member p (xs ++ (x ∷ [])) ≡ (member p xs || (x == p))
member-snoc p x [] = ground arith
member-snoc p x (y ∷ ys) = ground (arith, member-snoc p x ys)

Distinct-snoc :
    (x : ℕ) (xs : List ℕ) → member x xs ≡ false → Distinct xs → Distinct (xs ++ (x ∷ []))
Distinct-snoc x [] new d = (refl, tt)
Distinct-snoc x (y ∷ ys) new (head, tail) =
    (ground (arith, member-snoc y x ys, head), Distinct-snoc x ys (ground arith) tail)

All-snoc : (P : ℕ → Type 0) (x : ℕ) (xs : List ℕ) → All P xs → P x → All P (xs ++ (x ∷ []))
All-snoc P x [] all at = (at, tt)
All-snoc P x (y ∷ ys) (head, tail) at = (head, All-snoc P x ys tail at)

-- The address of a page that may be handed out.
abbrev pub IsFrame : Pmm → PhysPage → Type 0
IsFrame base p =
    (q : ℕ) × (p ≡ q * page_size)
    × (0 < q)
    × (q < base.total_managed_pages)
    × (is_free base.bitmap q ≡ true)

-- The allocator `s` is `base` less the pages of `got`.
pub record Taken (base s : Pmm) (got : List PhysPage) : Type 0 where
  pub valid : IsValid s
  pub total : s.total_managed_pages ≡ base.total_managed_pages
  pub frames : All (IsFrame base) got
  pub distinct : Distinct got
  pub pages :
      (q : ℕ) → is_free s.bitmap q ≡ (is_free base.bitmap q && not (member (q * page_size) got))
  pub count : s.free_pages + length got ≡ base.free_pages

-- Freeing a taken page gives it back.
give_back :
    (base s : Pmm) (p : PhysPage) (ps : List PhysPage)
    → Taken base s (p ∷ ps)
    → Taken base ((free_physical_page p s).1) ps
give_back base s p ps t = by_result (t.frames.0) (free_physical_page-Freed s t.valid p)
  where
    by_result : IsFrame base p → {r : FreeResult × Pmm} → Freed s p r → Taken base (r.1) ps
    by_result (q, e, pos, lt, free) (unaligned bad) = absurd (omega arith)
    by_result (q, e, pos, lt, free) (page_zero bad) = absurd (omega arith)
    by_result (q, e, pos, lt, free) (outside aligned low high) = absurd (omega (arith, t.total))
    by_result (q, e, pos, lt, free) (already_free q' e' lt' free') =
        let same : q' ≡ q = omega arith in absurd (ground (arith, t.pages q))
    by_result (q, e, pos, lt, free) (given q' e' pos' lt' used bits fewer more total usable v) =
        let same : q' ≡ q = omega arith in
        record {
          valid = v;
          total = total ∙ t.total;
          frames = t.frames.1;
          distinct = t.distinct.1;
          pages = λ r. ground (arith, bits r, t.pages r, t.distinct.0);
          count = omega (arith, t.count, fewer);
        }

free_pages-Taken :
    (base s : Pmm) (got : List PhysPage) → Taken base s got → Taken base (free_pages got s) []
unfolding free_pages
free_pages-Taken base s [] t = t
free_pages-Taken base s (p ∷ ps) t =
    free_pages-Taken base ((free_physical_page p s).1) ps (give_back base s p ps t)

-- What `allocate_pages` promises of `n` pages.
pub data Batch (base : Pmm) (n : ℕ) : Option (List PhysPage) × Pmm → Type 0 where
  batch :
      {s' : Pmm} (got : List PhysPage)
      → length got ≡ n
      → Taken base s' got
      → Batch base n (some got, s')
  rolled_back :
      {s' : Pmm}
      → base.free_pages < n
      → IsValid s'
      → ((q : ℕ) → is_free s'.bitmap q ≡ is_free base.bitmap q)
      → s'.free_pages ≡ base.free_pages
      → s'.total_managed_pages ≡ base.total_managed_pages
      → Batch base n (none, s')

module _ (base : Pmm) (n : ℕ) where
  -- One more frame, which was free.
  Taken-snoc :
      {s s' : Pmm} (got : List PhysPage) (p : ℕ)
      → Taken base s got
      → 0 < p
      → p < s.total_managed_pages
      → is_free s.bitmap p ≡ true
      → ((q : ℕ) → is_free s'.bitmap q ≡ (if p == q then false else is_free s.bitmap q))
      → s'.free_pages + 1 ≡ s.free_pages
      → s'.total_managed_pages ≡ s.total_managed_pages
      → IsValid s'
      → Taken base s' (got ++ (p * page_size ∷ []))
  Taken-snoc {s} {s'} got p t pos lt free bits fewer total v =
      let was_free : is_free base.bitmap p ≡ true = ground (arith, t.pages p) in
      let new : member (p * page_size) got ≡ false = ground (arith, t.pages p) in
      record {
        valid = v;
        total = total ∙ t.total;
        frames =
            All-snoc (IsFrame base) (p * page_size) got t.frames
              (p, refl, pos, omega (arith, t.total), was_free);
        distinct = Distinct-snoc (p * page_size) got new t.distinct;
        pages =
            λ q. ground (arith, bits q, t.pages q, member-snoc (q * page_size) (p * page_size) got);
        count = omega (arith, t.count, fewer, length-append got (p * page_size ∷ []));
      }

  allocate_pages-Taken :
      (left : ℕ) (got : List PhysPage) (s : Pmm)
      → Taken base s got
      → length got + left ≡ n
      → Batch base n (allocate_pages left got s)
  unfolding allocate_pages
  allocate_pages-Taken zero got s t len = batch got (omega (arith, len)) t
  allocate_pages-Taken (suc left) got s t len =
      by_result (λ p s' t' len'. allocate_pages-Taken left (got ++ (p ∷ [])) s' t' len')
        (allocate_physical_page-Allocation s t.valid)
    where
      by_result :
          ((p : PhysPage) (s' : Pmm)
            → Taken base s' (got ++ (p ∷ []))
            → length (got ++ (p ∷ [])) + left ≡ n
            → Batch base n (allocate_pages left (got ++ (p ∷ [])) s'))
          → {r : Option PhysPage × Pmm} → Allocation s r
          → Batch base n (elim r.0 [
            | some p ↦ allocate_pages left (got ++ (p ∷ [])) r.1
            | none ↦ (none, free_pages got r.1)
          ])
      by_result rest (out_of_memory empty none_free) =
          let t' = free_pages-Taken base s got t in
          rolled_back (omega (arith, t.count, len)) t'.valid (λ q. ground (arith, t'.pages q))
            (omega (arith, t'.count)) t'.total
      by_result rest (page {s' = s'} p pos lt free lowest bits fewer more total usable v) =
          rest (p * page_size) s' (Taken-snoc got p t pos lt free bits fewer total v)
            (omega (arith, len, length-append got (p * page_size ∷ [])))

-- On a valid allocator, asking for the frames of a region gives `n` different pages that were
-- free, and exactly these are used afterwards; or there are fewer than `n` free pages, and then
-- every page taken meanwhile is given back. Either way the allocator stays valid.
pub allocate_pages-Batch : (n : ℕ) (s : Pmm) → IsValid s → Batch s n (allocate_pages n [] s)
allocate_pages-Batch n s v =
    allocate_pages-Taken s n n [] s
      (record {
        valid = v;
        total = refl;
        frames = tt;
        distinct = tt;
        pages = λ q. ground arith;
        count = omega arith;
      })
      (omega arith)
