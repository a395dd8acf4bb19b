-- ===== src/Store/Lineage/Chain.antt =====
-- The loop of `_lineage_locked` returns, on every table that `create_branch` can build.
use mathlib.Core.Path.{subst}
use joiny_mnemonic.Prelude.{
  ℕ, zero, suc, ◌≤◌, String, true, false, Option, none, some, List, [], ◌∷◌, reverse, ◌==◌,
  string_eq, elem, length, ok, ◌>>=◌, ◌≡◌, refl, sym, ◌∙◌, arith, Bool-cases, eq_iff, inl, inr,
  beq_of_ne, ne_of_beq, beq_refl,
}
use joiny_mnemonic.Store.{Branch}
use joiny_mnemonic.Store.Lineage.{find_branch, Lineage, tighten, walk, lineage}

-- Every branch but the oldest names a parent that is older than itself, and a point at which it
-- forks; no name comes twice.
pub data IsForest : List Branch → Type 0 where
  root : (b : Branch) → b.parent_id ≡ none → IsForest (b ∷ [])
  fork :
      (b : Branch) (rows : List Branch) (parent : String) (row : Branch)
      → IsForest rows
      → find_branch b.id rows ≡ none
      → b.parent_id ≡ some parent
      → find_branch parent rows ≡ some row
      → (seq : ℕ) → b.fork_event_seq ≡ some seq
      → IsForest (b ∷ rows)

-- The lineage as a recursion on the table: from a branch to its parent among the older rows.
unfoldable pub chain : List Branch → String → Option ℕ → Lineage
chain [] branch cutoff = []
chain (row ∷ rows) branch cutoff = elim (row.id == branch) [
  | true ↦ (branch, cutoff) ∷ (elim row.parent_id [
    | none ↦ []
    | some parent ↦ chain rows parent (tighten cutoff row.fork_event_seq)
  ])
  | false ↦ chain rows branch cutoff
]

module _ (b : Branch) (rows : List Branch) (cutoff : Option ℕ) where
  pub chain_top : b.parent_id ≡ none → chain (b ∷ rows) b.id cutoff ≡ (b.id, cutoff) ∷ []
  unfolding chain
  chain_top top = rw (beq_refl b.id, top, chain)

  pub chain_up :
      (parent : String)
      → b.parent_id ≡ some parent
      → chain (b ∷ rows) b.id cutoff
        ≡ (b.id, cutoff) ∷ chain rows parent (tighten cutoff b.fork_event_seq)
  unfolding chain
  chain_up parent up = rw (beq_refl b.id, up, chain)

  pub chain_older :
      (x : String) → (b.id == x) ≡ false → chain (b ∷ rows) x cutoff ≡ chain rows x cutoff
  unfolding chain
  chain_older x other = rw (other, chain)

find-ne :
    (b : Branch) (rows : List Branch) (x : String) {row : Branch}
    → find_branch b.id rows ≡ none
    → find_branch x rows ≡ some row
    → (b.id == x) ≡ false
find-ne b rows x fresh found =
    beq_of_ne b.id x λ e. cc (subst (λ y. find_branch y rows ≡ none) e fresh, found)

-- The rows that the loop can still visit: each is found in the whole table, and not yet visited.
record IsAhead (all rows : List Branch) (visited : List String) : Type 0 where
  found : (x : String) (row : Branch) → find_branch x rows ≡ some row → find_branch x all ≡ some row
  fresh : (x : String) (row : Branch) → find_branch x rows ≡ some row → elem x visited ≡ false

-- one row less
IsAhead-older :
    (all : List Branch) (b : Branch) (rows : List Branch) (visited : List String)
    → find_branch b.id rows ≡ none
    → IsAhead all (b ∷ rows) visited
    → IsAhead all rows visited
unfolding find_branch
IsAhead-older all b rows visited new a = record {
  found = λ x row e. a.found x row (rw (find-ne b rows x new e) e);
  fresh = λ x row e. a.fresh x row (rw (find-ne b rows x new e) e);
}

IsAhead-visit :
    (all : List Branch) (b : Branch) (rows : List Branch) (visited : List String)
    → find_branch b.id rows ≡ none
    → IsAhead all rows visited
    → IsAhead all rows (b.id ∷ visited)
IsAhead-visit all b rows visited new a = record {
  found = a.found;
  fresh = λ x row e.
      let other = beq_of_ne x b.id (λ same. ne_of_beq b.id x (find-ne b rows x new e) (sym same)) in
      rw (other, a.fresh x row e);
}

walk-step :
    (all : List Branch) (fuel : ℕ) (branch : String) (row : Branch) (cutoff : Option ℕ)
    (visited : List String)
    → elem branch visited ≡ false
    → find_branch branch all ≡ some row
    → walk (suc fuel) all (some branch) cutoff visited ≡ (do
      rest ← walk fuel all row.parent_id (tighten cutoff row.fork_event_seq) (branch ∷ visited)
      ok ((branch, cutoff) ∷ rest))
unfolding walk
walk-step all fuel branch row cutoff visited new found = rw (new, found)

walk-top :
    (all : List Branch) (b : Branch) (fuel : ℕ) (cutoff : Option ℕ) (visited : List String)
    → b.parent_id ≡ none
    → walk fuel all b.parent_id cutoff visited ≡ ok []
unfolding walk
walk-top all b fuel cutoff visited top = rw top

-- The loop follows `chain`, with fuel for each row that is ahead.
abbrev Follows : List Branch → List Branch → ℕ → Option ℕ → List String → String → Type 0
Follows all rows fuel cutoff visited branch =
    walk fuel all (some branch) cutoff visited ≡ ok (chain rows branch cutoff)

find_self : (b : Branch) (rows : List Branch) → find_branch b.id (b ∷ rows) ≡ some b
unfolding find_branch
find_self b rows = rw (beq_refl b.id)

walk-chain :
    (all rows : List Branch)
    → IsForest rows
    → (fuel : ℕ) (branch : String) (row : Branch) (cutoff : Option ℕ) (visited : List String)
    → length rows ≤ fuel
    → IsAhead all rows visited
    → find_branch branch rows ≡ some row
    → Follows all rows fuel cutoff visited branch
unfolding find_branch
walk-chain all rows (root b top) zero branch row cutoff visited h a e = absurd (omega arith)
walk-chain all rows (root b top) (suc fuel) branch row cutoff visited h a e =
    elim (Bool-cases (b.id == branch)) [
      | inl same ↦
          subst (Follows all (b ∷ []) (suc fuel) cutoff visited) ((eq_iff b.id branch).0 same) (
            walk-step all fuel b.id b cutoff visited (a.fresh b.id b (find_self b []))
              (a.found b.id b (find_self b []))
            ∙ rw (walk-top, top) (rw (chain_top b [] cutoff top)))
      | inr other ↦ cc (rw other at e)
    ]
walk-chain all rows (fork b older parent above below new up at seq cut) zero branch row cutoff
      visited h a e =
    absurd (omega arith)
walk-chain all rows (fork b older parent above below new up at seq cut) (suc fuel) branch row cutoff
      visited h a e =
    elim (Bool-cases (b.id == branch)) [
      | inl same ↦
          let rest =
            walk-chain all older below fuel parent above (tighten cutoff b.fork_event_seq)
              (b.id ∷ visited) (omega arith)
              (IsAhead-visit all b older visited new (IsAhead-older all b older visited new a))
              at in
          subst (Follows all (b ∷ older) (suc fuel) cutoff visited) ((eq_iff b.id branch).0 same) (
            walk-step all fuel b.id b cutoff visited (a.fresh b.id b (find_self b older))
              (a.found b.id b (find_self b older))
            ∙ rw (chain_up b older cutoff parent up) (rw (up, rest)))
      | inr other ↦ rw (chain_older b older cutoff branch other) (
          walk-chain all older below (suc fuel) branch row cutoff visited (omega arith)
            (IsAhead-older all b older visited new a) (rw other at e))
    ]

-- Where the branches are a forest, `_lineage_locked` returns for every branch in it, with no cycle, no
-- missing row and no lack of fuel, and what it returns is the chain of parents, oldest first.
pub lineage_total :
    (rows : List Branch) (branch : String) (row : Branch)
    → IsForest rows
    → find_branch branch rows ≡ some row
    → lineage rows branch ≡ ok (reverse (chain rows branch none))
unfolding lineage
lineage_total rows branch row f e =
    let ahead : IsAhead rows rows [] = record { found = λ x r p. p; fresh = λ x r p. refl } in
    let steps =
      walk-chain rows rows f (suc (length rows)) branch row none [] (omega arith) ahead e in
    rw steps
