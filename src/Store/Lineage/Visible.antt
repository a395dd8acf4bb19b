-- ===== src/Store/Lineage/Visible.antt =====
-- Which events a branch sees: `query_events` against the parent relation of the branch table.
use mathlib.Core.List.{reverse-append}
use joiny_mnemonic.Prelude.{
  ℕ, String, Bool, true, false, ◌&&◌, ◌||◌, Option, none, some, List, [], ◌∷◌, ◌++◌, reverse, ◌==◌,
  string_eq, keep, All, ok, ◌≡◌, refl, sym, ap, ◌∙◌, arith, Bool-cases, Option-cases, eq_iff, inl,
  inr, beq_of_ne, ne_of_beq,
}
use joiny_mnemonic.Store.{Branch, Event, Store}
use joiny_mnemonic.Store.Lineage.{
  find_branch, Lineage, tighten, within, Query, selects, query_events, covers,
}
use joiny_mnemonic.Store.Lineage.Chain.{IsForest, root, fork, chain, lineage_total}
use joiny_mnemonic.Store.Lineage.Order.{IsOrdered, IsDistinct, sort-select_all, keep_ext}

abbrev Named : (String → Bool) → Lineage → Type 0
Named p steps = All (λ (step : String × Option ℕ). p step.0 ≡ true) steps

All-append :
    (P : String × Option ℕ → Type 0) (xs ys : Lineage) → All P xs → All P ys → All P (xs ++ ys)
All-append P [] ys h k = k
All-append P (x ∷ xs) ys h k = (h.0, All-append P xs ys h.1 k)

reverse-cons : (x : String × Option ℕ) (xs : Lineage) → reverse (x ∷ xs) ≡ reverse xs ++ (x ∷ [])
reverse-cons x xs = reverse-append (x ∷ []) xs

All-reverse : (P : String × Option ℕ → Type 0) (xs : Lineage) → All P xs → All P (reverse xs)
All-reverse P [] h = tt
All-reverse P (x ∷ xs) h =
    rw reverse-cons (All-append P (reverse xs) (x ∷ []) (All-reverse P xs h.1) (h.0, tt))

beq_flip : (s t : String) → (s == t) ≡ false → (t == s) ≡ false
beq_flip s t h = beq_of_ne t s (λ same. ne_of_beq s t h (sym same))

IsDistinct-snoc :
    (x : String × Option ℕ) (xs : Lineage)
    → IsDistinct xs
    → All (λ (y : String × Option ℕ). (y.0 == x.0) ≡ false) xs
    → IsDistinct (xs ++ (x ∷ []))
IsDistinct-snoc x [] d h = (tt, tt)
IsDistinct-snoc x (y ∷ ys) d h =
    (All-append _ ys (x ∷ []) d.0 (beq_flip y.0 x.0 h.0, tt), IsDistinct-snoc x ys d.1 h.1)

pub IsDistinct-reverse : (xs : Lineage) → IsDistinct xs → IsDistinct (reverse xs)
IsDistinct-reverse [] d = tt
IsDistinct-reverse (x ∷ xs) d =
    rw reverse-cons
      (IsDistinct-snoc x (reverse xs) (IsDistinct-reverse xs d.1) (All-reverse _ xs d.0))

covers-append : (xs ys : Lineage) (e : Event) → covers (xs ++ ys) e ≡ (covers xs e || covers ys e)
unfolding covers
covers-append [] ys e = refl
covers-append (x ∷ xs) ys e = ground (arith, covers-append xs ys e)

pub covers-reverse : (xs : Lineage) (e : Event) → covers (reverse xs) e ≡ covers xs e
unfolding covers
covers-reverse [] e = refl
covers-reverse (x ∷ xs) e =
    rw (reverse-cons x xs, covers-append (reverse xs) (x ∷ []) e)
      (ground (arith, covers-reverse xs e))

-- The branches of a chain are rows of the table.
Apart : String → Lineage → Type 0
Apart x steps = All (λ (step : String × Option ℕ). (step.0 == x) ≡ false) steps

chain-Apart :
    (rows : List Branch) (b : String) (cutoff : Option ℕ) (x : String)
    → find_branch x rows ≡ none
    → Apart x (chain rows b cutoff)
unfolding chain find_branch Apart
chain-Apart [] b cutoff x fresh = tt
chain-Apart (row ∷ rows) b cutoff x fresh = elim (Bool-cases (row.id == x)) [
  | inl same ↦ cc (rw same at fresh)
  | inr other ↦ elim (Bool-cases (row.id == b)) [
    | inl here ↦
        let apart : (b == x) ≡ false = rw (← (eq_iff row.id b).0 here) other in
        elim (Option-cases row.parent_id) [
          | inl top ↦ rw (here, top, chain) (apart, tt)
          | inr (parent, up) ↦
              rw (here, up, chain)
                (
                  apart,
                  chain-Apart rows parent (tighten cutoff row.fork_event_seq) x (rw other at fresh),
                )
        ]
    | inr older ↦ rw (older, chain) (chain-Apart rows b cutoff x (rw other at fresh))
  ]
]

pub chain-IsDistinct :
    (rows : List Branch) (b : String) (cutoff : Option ℕ)
    → IsForest rows
    → IsDistinct (chain rows b cutoff)
unfolding chain Apart
chain-IsDistinct rows b cutoff (root top none') = elim (Bool-cases (top.id == b)) [
  | inl here ↦ rw (here, none', chain) (tt, tt)
  | inr other ↦ rw (other, chain) tt
]
chain-IsDistinct rows b cutoff (fork row older parent above below new up at seq cut) =
    elim (Bool-cases (row.id == b)) [
      | inl here ↦
          rw (here, up, chain)
            (
              chain-Apart older parent (tighten cutoff row.fork_event_seq) b
                  (rw (← (eq_iff row.id b).0 here) new),
              chain-IsDistinct older parent (tighten cutoff row.fork_event_seq) below,
            )
      | inr other ↦ rw (other, chain) (chain-IsDistinct older b cutoff below)
    ]

-- Where the branches are a forest and the events stand in the order of `seq`, `query_events` of a
-- known branch is one filter of the event table, in table order: the rows that the chain of parents
-- covers and that the query selects.
pub query_events_lem :
    (s : Store) (branch : String) (row : Branch) (q : Query)
    → IsForest s.branches
    → IsOrdered s.events
    → find_branch branch s.branches ≡ some row
    → query_events s branch q
      ≡ ok (keep (λ e. covers (chain s.branches branch none) e && selects q e) s.events)
unfolding query_events
query_events_lem s branch row q f o at = rw (lineage_total s.branches branch row f at) (
    ap ok (
      sort-select_all q s.events (reverse (chain s.branches branch none)) o
        (IsDistinct-reverse _ (chain-IsDistinct s.branches branch none f))
      ∙ keep_ext _ _ s.events
          (λ e. ap (λ c. c && selects q e) (covers-reverse (chain s.branches branch none) e))))

tighten-within :
    (cutoff limit : Option ℕ) (n : ℕ)
    → within (tighten cutoff limit) n ≡ (within cutoff n && within limit n)
unfolding tighten
tighten-within none none n = refl
tighten-within none (some f) n = refl
tighten-within (some c) none n = ground arith
tighten-within (some c) (some f) n = ground arith

-- A cutoff on a branch cuts all that it inherits.
pub covers-chain :
    (rows : List Branch) (b : String) (cutoff : Option ℕ) (e : Event)
    → covers (chain rows b cutoff) e ≡ (within cutoff e.seq && covers (chain rows b none) e)
unfolding covers chain
covers-chain [] b cutoff e = ground arith
covers-chain (row ∷ rows) b cutoff e = elim (Bool-cases (row.id == b)) [
  | inr other ↦ rw (other, chain) (covers-chain rows b cutoff e)
  | inl here ↦ elim (Option-cases row.parent_id) [
    | inl top ↦ rw (here, top, chain) (ground arith)
    | inr (parent, up) ↦
        let limit = row.fork_event_seq in
        rw (here, up, chain)
          (rw
            (
              covers-chain rows parent (tighten cutoff limit) e,
              covers-chain rows parent (tighten none limit) e,
              tighten-within cutoff limit e.seq,
              tighten-within none limit e.seq,
            )
            (ground arith))
  ]
]
