-- ===== src/CallGraph/NewEdges.antt =====
-- Edges that are new in an edge table of src/domain/db/table, since they go up with the ids of both ends.
use tarracsh.Prelude.{
  ℕ, suc, ◌<◌, ◌≤◌, ◌==◌, ◌&&◌, ◌≡◌, refl, ap, ◌∙◌, subst, sym, false, inl, inr, ◌⊎◌, List, [], ◌∷◌,
  ◌++◌, append_assoc, append-nil, All, All-append, arith,
}
use tarracsh.Outcome.{ok}
use tarracsh.CallGraph.Rows.{EdgeRow}
use tarracsh.CallGraph.Link.{has_edge, add_edge_row, add_edge_rows}

-- An id is its row's place in the table.
abbrev pub Placed : {A : Type 0} → (A → ℕ) → ℕ → List A → Type 0
Placed id i [] = Unit
Placed id i (a ∷ rows) = (id a ≡ i) × Placed id (suc i) rows

-- The ids count up, from `i` at least.
abbrev pub Rising : {A : Type 0} → (A → ℕ) → ℕ → List A → Type 0
Rising id i [] = Unit
Rising id i (a ∷ rows) = (i ≤ id a) × Rising id (suc (id a)) rows

pub Rising-weaken :
    {A : Type 0} (id : A → ℕ) (i j : ℕ) (rows : List A)
    → i ≤ j
    → Rising id j rows
    → Rising id i rows
Rising-weaken id i j [] k h = tt
Rising-weaken id i j (a ∷ rows) k (p, h) = (omega (arith, k, p), h)

-- Edges that start before `i`, or at it and end before `j`.
abbrev pub Before : ℕ → ℕ → List EdgeRow → Type 0
Before i j edges = All (λ e. (e.from < i) ⊎ ((e.from ≡ i) × (e.to < j))) edges

other_key :
    (e : EdgeRow) (i j to : ℕ)
    → (e.from < i) ⊎ ((e.from ≡ i) × (e.to < j))
    → j ≤ to
    → (e.from == i && e.to == to) ≡ false
other_key e i j to (inl h) k = ground (arith, h)
other_key e i j to (inr (p, h)) k = ground (arith, p, h, k)

has_edge-Before :
    (i j to : ℕ) (edges : List EdgeRow) → Before i j edges → j ≤ to → has_edge i to edges ≡ false
unfolding has_edge
has_edge-Before i j to [] h k = refl
has_edge-Before i j to (e ∷ edges) (p, h) k =
    rw (other_key e i j to p k) (has_edge-Before i j to edges h k)

Before-grows : (i j k : ℕ) (edges : List EdgeRow) → j ≤ k → Before i j edges → Before i k edges
Before-grows i j k [] l h = tt
Before-grows i j k (e ∷ edges) l (inl p, h) = (inl p, Before-grows i j k edges l h)
Before-grows i j k (e ∷ edges) l (inr (p, q), h) =
    (inr (p, omega (arith, q, l)), Before-grows i j k edges l h)

Before-next : (i j : ℕ) (edges : List EdgeRow) → Before i j edges → Before (suc i) 0 edges
Before-next i j [] h = tt
Before-next i j (e ∷ edges) (inl p, h) = (inl (omega (arith, p)), Before-next i j edges h)
Before-next i j (e ∷ edges) (inr (p, q), h) = (inl (omega (arith, p)), Before-next i j edges h)

-- New edges of a reference: their ends count up.
abbrev pub NewFrom : ℕ → ℕ → List EdgeRow → Type 0
NewFrom i j [] = Unit
NewFrom i j (e ∷ new) = (e.from ≡ i) × (j ≤ e.to) × NewFrom i (suc e.to) new

pub add_edge_rows-NewFrom :
    (i j : ℕ) (new edges : List EdgeRow)
    → NewFrom i j new
    → Before i j edges
    → (add_edge_rows new edges ≡ ok (edges ++ new)) × Before (suc i) 0 (edges ++ new)
unfolding add_edge_rows add_edge_row
add_edge_rows-NewFrom i j [] edges n h = (
  ap (λ (es : List EdgeRow). ok es) (sym (append-nil edges)),
  subst (Before (suc i) 0) (sym (append-nil edges)) (Before-next i j edges h),
)
add_edge_rows-NewFrom i j (e ∷ new) edges (p, q, n) h =
    let (added, before) = add_edge_rows-NewFrom i (suc e.to) new (edges ++ (e ∷ [])) n (
      All-append (λ e'. (e'.from < i) ⊎ ((e'.from ≡ i) × (e'.to < suc e.to))) edges e
        (Before-grows i j (suc e.to) edges (omega (arith, q)) h) (inr (p, omega arith))) in
    let key : has_edge e.from e.to edges ≡ false = rw p (has_edge-Before i j e.to edges h q) in
    (
      rw key (added ∙ ap (λ (es : List EdgeRow). ok es) (append_assoc edges (e ∷ []) new)),
      subst (Before (suc i) 0) (append_assoc edges (e ∷ []) new) before,
    )
