-- ===== src/Tables/Chain.antt =====
-- The links that a walk of the page tables of src/vmm.rs has followed so far.
use ventura_os.Base.{ℕ, ◌<◌, ◌≡◌, refl, ◌∙◌, ap, true, some, List, ◌∷◌, length}
use ventura_os.Paging.{is_present, is_huge, phys_addr}
use ventura_os.Tables.Mmu.{walk, Links, walk-Links}
use ventura_os.Tables.Tree.{Trail, Ghost}

-- From a table and indices, links through tables above the last level lead to table `t` with the
-- indices `js` to go.
pub data Chain (pos : Ghost) (entries : ℕ → ℕ → ℕ) (t : ℕ) (js : List ℕ) : ℕ → List ℕ → Type 0 where
  here : Chain pos entries t js t js
  link :
      {r i u j : ℕ} {is : List ℕ} {q : Trail}
      → pos r ≡ some q
      → length q < 4
      → Links entries r i u
      → Chain pos entries t js u (j ∷ is)
      → Chain pos entries t js r (i ∷ j ∷ is)

pub walk-Chain :
    {pos : Ghost} {entries : ℕ → ℕ → ℕ} {t : ℕ} {js : List ℕ} {r : ℕ} {is : List ℕ}
    → Chain pos entries t js r is
    → walk entries r is ≡ walk entries t js
walk-Chain here = refl
walk-Chain {entries} (link {r} {i} {u} {j} {is} at high l c) =
    walk-Links entries r i u j is l ∙ walk-Chain c

-- A chain grows at its end.
pub Chain-snoc :
    {pos : Ghost} {entries : ℕ → ℕ → ℕ} {t i j u : ℕ} {js : List ℕ} {q : Trail} {r : ℕ}
    {is : List ℕ}
    → pos t ≡ some q
    → length q < 4
    → Links entries t i u
    → Chain pos entries t (i ∷ j ∷ js) r is
    → Chain pos entries u (j ∷ js) r is
Chain-snoc at high l here = link at high l here
Chain-snoc at high l (link at' high' l' c) = link at' high' l' (Chain-snoc at high l c)

-- A chain survives changes that keep links.
pub Chain-map :
    {pos pos' : Ghost} {entries entries' : ℕ → ℕ → ℕ} {t : ℕ} {js : List ℕ} {r : ℕ} {is : List ℕ}
    → ((u : ℕ) (q : Trail) → pos u ≡ some q → pos' u ≡ some q)
    → ((u i : ℕ) (q : Trail)
        → pos u ≡ some q
        → length q < 4
        → is_present (entries u i) ≡ true
        → entries' u i ≡ entries u i)
    → Chain pos entries t js r is
    → Chain pos' entries' t js r is
Chain-map trails keep here = here
Chain-map trails keep (link {r} {i} {q} at high l c) =
    let same = keep r i q at high l.present in
    link (trails r q at) high
      (record {
        present = ap is_present same ∙ l.present;
        table = ap is_huge same ∙ l.table;
        leads = ap phys_addr same ∙ l.leads;
      })
      (Chain-map trails keep c)
