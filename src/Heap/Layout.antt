-- ===== src/Heap/Layout.antt =====
-- The list of blocks that the headers of src/heap.rs lay out one behind the other.
use ventura_os.Base.{
  ℕ, ◌+◌, ◌*◌, ◌%◌, ◌≤◌, ◌<◌, ◌≡◌, refl, sym, ◌∙◌, Bool, true, false, List, [], ◌∷◌, ◌++◌,
  if◌then◌else◌, arith, length,
}
use ventura_os.Heap.{
  Ram, heap_magic, header_size, magic_at, is_free_at, size_at, prev_at, next_at, is_free,
}

pub record Block : Type 0 where
  pub size : ℕ
  pub free : Bool

abbrev pub free_block : ℕ → Block
free_block n = record { size = n; free = true }

abbrev pub used_block : ℕ → Block
used_block n = record { size = n; free = false }

-- The bytes that a list of blocks takes up, its headers included, and those of its payloads.
abbrev pub extent : List Block → ℕ
extent [] = 0
extent (b ∷ bs) = header_size + b.size + extent bs

abbrev pub free_sum : List Block → ℕ
free_sum [] = 0
free_sum (b ∷ bs) = (if b.free then b.size else 0) + free_sum bs

abbrev pub used_sum : List Block → ℕ
used_sum [] = 0
used_sum (b ∷ bs) = (if b.free then 0 else b.size) + used_sum bs

-- The header at `a` of a block.
pub record Header (ram : Ram) (a : ℕ) (b : Block) (before after : ℕ) : Type 0 where
  pub magic : ram (magic_at a) ≡ heap_magic
  pub free : is_free ram a ≡ b.free
  pub size : ram (size_at a) ≡ b.size
  pub prev : ram (prev_at a) ≡ before
  pub next : ram (next_at a) ≡ after

-- Where a link to the first block of `bs` at `a` leads, if `nxt` is behind an empty list.
abbrev pub link : ℕ → List Block → ℕ → ℕ
link a [] nxt = nxt
link a (b ∷ bs) nxt = a

-- The address of the last block of `bs` at `a`, if `prev` is before them.
abbrev pub last_of : ℕ → ℕ → List Block → ℕ
last_of prev a [] = prev
last_of prev a (b ∷ bs) = last_of a (a + header_size + b.size) bs

-- The blocks lie one behind the other from `a` on, between the blocks at `prev` and `nxt`.
abbrev pub Seg : Ram → ℕ → ℕ → List Block → ℕ → Type 0
Seg ram prev a [] nxt = Unit
Seg ram prev a (b ∷ bs) nxt =
    Header ram a b prev (link (a + header_size + b.size) bs nxt)
    × (b.size % 16 ≡ 0)
    × Seg ram a (a + header_size + b.size) bs nxt

-- The header stands in other memory.
pub Header-same :
    {ram ram' : Ram} {a prev next : ℕ} {b : Block}
    → ((x : ℕ) → a ≤ x → x < a + header_size → ram' x ≡ ram x)
    → Header ram a b prev next
    → Header ram' a b prev next
Header-same {ram} {ram'} {a} same h = record {
  magic = same (magic_at a) (omega arith) (omega arith) ∙ h.magic;
  free = rw (same (is_free_at a) (omega arith) (omega arith)) h.free;
  size = same (size_at a) (omega arith) (omega arith) ∙ h.size;
  prev = same (prev_at a) (omega arith) (omega arith) ∙ h.prev;
  next = same (next_at a) (omega arith) (omega arith) ∙ h.next;
}

pub Seg-same :
    (ram ram' : Ram) (prev a : ℕ) (bs : List Block) (nxt : ℕ)
    → ((x : ℕ) → a ≤ x → x < a + extent bs → ram' x ≡ ram x)
    → Seg ram prev a bs nxt
    → Seg ram' prev a bs nxt
Seg-same ram ram' prev a [] nxt same s = tt
Seg-same ram ram' prev a (b ∷ bs) nxt same (h, size, s) = (
  Header-same (λ x low high. same x low (omega arith)) h,
  size,
  Seg-same ram ram' a (a + header_size + b.size) bs nxt
      (λ x low high. same x (omega arith) (omega arith)) s,
)

pub extent-append : (xs ys : List Block) → extent (xs ++ ys) ≡ extent xs + extent ys
extent-append [] ys = omega arith
extent-append (x ∷ xs) ys = omega (arith, extent-append xs ys)

pub free_sum-append : (xs ys : List Block) → free_sum (xs ++ ys) ≡ free_sum xs + free_sum ys
free_sum-append [] ys = omega arith
free_sum-append (x ∷ xs) ys = omega (arith, free_sum-append xs ys)

pub used_sum-append : (xs ys : List Block) → used_sum (xs ++ ys) ≡ used_sum xs + used_sum ys
used_sum-append [] ys = omega arith
used_sum-append (x ∷ xs) ys = omega (arith, used_sum-append xs ys)

pub sums-extent :
    (bs : List Block) → free_sum bs + used_sum bs + header_size * length bs ≡ extent bs
sums-extent [] = refl
sums-extent (b ∷ bs) = ground (arith, sums-extent bs)

link-append :
    (a : ℕ) (xs ys : List Block) (nxt : ℕ)
    → link a (xs ++ ys) nxt ≡ link a xs (link (a + extent xs) ys nxt)
link-append a [] ys nxt = let e : a + extent [] ≡ a = omega arith in rw e refl
link-append a (x ∷ xs) ys nxt = refl

-- Seg lists fall apart and join at any place.
pub Seg-split :
    (ram : Ram) (prev a : ℕ) (xs ys : List Block) (nxt : ℕ)
    → Seg ram prev a (xs ++ ys) nxt
    → Seg ram prev a xs (link (a + extent xs) ys nxt)
      × Seg ram (last_of prev a xs) (a + extent xs) ys nxt
Seg-split ram prev a [] ys nxt s = let e : a + extent [] ≡ a = omega arith in (tt, rw e s)
Seg-split ram prev a (x ∷ xs) ys nxt (h, size, s) =
    let (s1, s2) = Seg-split ram a (a + header_size + x.size) xs ys nxt s in
    let e : a + extent (x ∷ xs) ≡ a + header_size + x.size + extent xs = omega arith in
    ((rw (e, ← link-append (a + header_size + x.size) xs ys nxt) h, size, rw e s1), rw e s2)

pub Seg-join :
    (ram : Ram) (prev a : ℕ) (xs ys : List Block) (nxt : ℕ)
    → Seg ram prev a xs (link (a + extent xs) ys nxt)
    → Seg ram (last_of prev a xs) (a + extent xs) ys nxt
    → Seg ram prev a (xs ++ ys) nxt
Seg-join ram prev a [] ys nxt s1 s2 = let e : a + extent [] ≡ a = omega arith in rw (sym e) s2
Seg-join ram prev a (x ∷ xs) ys nxt (h, size, s1) s2 =
    let e : a + extent (x ∷ xs) ≡ a + header_size + x.size + extent xs = omega arith in
    (
      rw (link-append (a + header_size + x.size) xs ys nxt, sym e) h,
      size,
      Seg-join ram a (a + header_size + x.size) xs ys nxt (rw (sym e) s1) (rw (sym e) s2),
    )
