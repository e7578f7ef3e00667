-- ===== src/Heap/Find.antt =====
-- The walks of src/heap.rs along the list of blocks find what they look for.
use ventura_os.Base.{
  ℕ, zero, suc, ◌+◌, ◌<◌, ◌≡◌, refl, ◌∙◌, ap, Bool, true, false, not, ◌&&◌, ◌||◌, some, List, [],
  ◌∷◌, ◌++◌, leb, ◌==◌, if◌then◌else◌, arith, length, Bool-cases, inl, inr, if_true, if_false,
  ne→==, eq→==,
}
use ventura_os.Heap.{Ram, heap_magic, header_size, magic_at, next_at, found, exhausted, find_fit}
use ventura_os.Heap.Grow.{find_tail}
use ventura_os.Heap.Layout.{Block, extent, link, Header, Seg}

abbrev pub fits : ℕ → Block → Bool
fits need b = b.free && leb need b.size

abbrev pub any_fits : ℕ → List Block → Bool
any_fits need [] = false
any_fits need (b ∷ bs) = fits need b || any_fits need bs

-- The first block of a list that fits.
pub record FirstFit (need : ℕ) (bs : List Block) : Type 0 where
  pub pre : List Block
  pub block : Block
  pub post : List Block
  pub split : bs ≡ pre ++ block ∷ post
  pub unfit : any_fits need pre ≡ false
  pub fit : fits need block ≡ true

pub any_fits-FirstFit : (need : ℕ) (bs : List Block) → any_fits need bs ≡ true → FirstFit need bs
any_fits-FirstFit need [] h = absurd (ground (arith, h))
any_fits-FirstFit need (b ∷ bs) h = elim (Bool-cases (fits need b)) [
  | inl fit ↦ record { pre = []; block = b; post = bs; split = refl; unfit = refl; fit = fit }
  | inr unfit ↦
      let f = any_fits-FirstFit need bs (rw unfit at h) in
      record {
        pre = b ∷ f.pre;
        block = f.block;
        post = f.post;
        split = ap (λ l. b ∷ l) f.split;
        unfit = rw (unfit, f.unfit);
        fit = f.fit;
      }
]

any_fits_none :
    (need : ℕ) (b : Block) (bs : List Block)
    → any_fits need (b ∷ bs) ≡ false
    → (fits need b ≡ false) × (any_fits need bs ≡ false)
any_fits_none need b bs h = elim (Bool-cases (fits need b)) [
  | inl fit ↦ absurd (ground (arith, h, fit))
  | inr unfit ↦ (unfit, rw unfit at h)
]

link_inside :
    (a : ℕ) (pre : List Block) (b : Block) (post : List Block) → link a (pre ++ b ∷ post) 0 ≡ a
link_inside a [] b post = refl
link_inside a (c ∷ pre) b post = refl

module _ (check : Bool) (need : ℕ) (ram : Ram) where
  -- One step of the walk, at a block.
  find_fit-step :
      (fuel prev a next : ℕ) (b : Block)
      → 0 < a
      → Header ram a b prev next
      → find_fit (suc fuel) check need ram a
        ≡ (if fits need b then some (found a) else find_fit fuel check need ram next)
  unfolding find_fit
  find_fit-step fuel prev a next b pos h =
      let magic : (check && not (ram (magic_at a) == heap_magic)) ≡ false =
        rw (eq→== (ram (magic_at a)) heap_magic h.magic)
          (elim (Bool-cases check) [ inl e ↦ rw e | inr e ↦ rw e ]) in
      if_false _ _ (ne→== a 0 (λ e. absurd (omega (arith, e, pos))))
      ∙ if_false _ _ magic
      ∙ rw (h.free, h.size, h.next)

  pub find_fit_hit :
      (fuel prev a : ℕ) (pre : List Block) (b : Block) (post : List Block)
      → 0 < a
      → length pre < fuel
      → any_fits need pre ≡ false
      → fits need b ≡ true
      → Seg ram prev a (pre ++ b ∷ post) 0
      → find_fit fuel check need ram a ≡ some (found (a + extent pre))
  find_fit_hit zero prev a pre b post pos enough unfit fit s = absurd (omega (arith, enough))
  find_fit_hit (suc fuel) prev a [] b post pos enough unfit fit (h, size, s) =
      find_fit-step fuel prev a _ b pos h ∙ if_true _ _ fit ∙ ap (λ x. some (found x)) (omega arith)
  find_fit_hit (suc fuel) prev a (c ∷ pre) b post pos enough unfit fit (h, size, s) =
      let inner : ℕ = a + header_size + c.size in
      let (unfit_c, unfit_pre) = any_fits_none need c pre unfit in
      find_fit-step fuel prev a _ c pos h
      ∙ if_false _ _ unfit_c
      ∙ ap (λ x. find_fit fuel check need ram x) (link_inside inner pre b post)
      ∙ find_fit_hit fuel a inner pre b post (omega (arith, pos)) (omega (arith, enough)) unfit_pre
          fit s
      ∙ ap (λ x. some (found x)) (omega arith)

  pub find_fit_miss :
      (fuel prev a : ℕ) (bs : List Block)
      → 0 < a
      → length bs < fuel
      → any_fits need bs ≡ false
      → Seg ram prev a bs 0
      → find_fit fuel check need ram (link a bs 0) ≡ some exhausted
  unfolding find_fit
  find_fit_miss zero prev a bs pos enough unfit s = absurd (omega (arith, enough))
  find_fit_miss (suc fuel) prev a [] pos enough unfit s = refl
  find_fit_miss (suc fuel) prev a (b ∷ bs) pos enough unfit (h, size, s) =
      let (unfit_b, unfit_bs) = any_fits_none need b bs unfit in
      find_fit-step fuel prev a _ b pos h
      ∙ if_false _ _ unfit_b
      ∙ find_fit_miss fuel a (a + header_size + b.size) bs (omega (arith, pos))
          (omega (arith, enough)) unfit_bs s

pub find_tail_last :
    (fuel : ℕ) (ram : Ram) (prev a : ℕ) (pre : List Block) (b : Block)
    → 0 < a
    → length pre < fuel
    → Seg ram prev a (pre ++ b ∷ []) 0
    → find_tail fuel ram a ≡ some (a + extent pre)
unfolding find_tail
find_tail_last zero ram prev a pre b pos enough s = absurd (omega (arith, enough))
find_tail_last (suc fuel) ram prev a [] b pos enough (h, size, s) =
    if_false _ _ (ne→== a 0 (λ e. absurd (omega (arith, e, pos))))
    ∙ if_true _ _ (eq→== (ram (next_at a)) 0 h.next)
    ∙ ap (λ x. some x) (omega arith)
find_tail_last (suc fuel) ram prev a (c ∷ pre) b pos enough (h, size, s) =
    let inner : ℕ = a + header_size + c.size in
    let next : ram (next_at a) ≡ inner = h.next ∙ link_inside inner pre b [] in
    if_false _ _ (ne→== a 0 (λ e. absurd (omega (arith, e, pos))))
    ∙ if_false _ _ (ne→== (ram (next_at a)) 0 (λ e. absurd (omega (arith, e, next))))
    ∙ ap (λ x. find_tail fuel ram x) next
    ∙ find_tail_last fuel ram a inner pre b (omega arith) (omega (arith, enough)) s
    ∙ ap (λ x. some x) (omega arith)
