-- ===== src/Store/Lineage/Order.antt =====
-- `query_events` reads the event table in order: the sort of the rows of each lineage step is one
-- filter of the whole table.
use mathlib.Core.Path.{fun_ext}
use joiny_mnemonic.Prelude.{
  ℕ, ◌<◌, String, Bool, true, false, ◌&&◌, ◌||◌, Option, List, [], ◌∷◌, ◌++◌, ◌==◌, string_eq, keep,
  All, ◌≡◌, refl, sym, ap, ◌∙◌, arith, Bool-cases, eq_iff, inl, inr, and_true,
}
use joiny_mnemonic.Store.{Event}
use joiny_mnemonic.Store.Lineage.{
  Lineage, within, Query, selects, select, select_all, insert_row, sort_rows, covers,
}

-- The rows of `events` in their order: each `seq` is larger than those before it.
pub data IsOrdered : List Event → Type 0 where
  nil : IsOrdered []
  cons :
      (e : Event) (es : List Event)
      → All (λ x. e.seq < x.seq) es
      → IsOrdered es
      → IsOrdered (e ∷ es)

insert_all : List Event → List Event → List Event
insert_all [] ys = ys
insert_all (x ∷ xs) ys = insert_row x (insert_all xs ys)

sort-append : (xs ys : List Event) → sort_rows (xs ++ ys) ≡ insert_all xs (sort_rows ys)
unfolding sort_rows insert_all
sort-append [] ys = refl
sort-append (x ∷ xs) ys = ap (insert_row x) (sort-append xs ys)

insert_row_first :
    (e : Event) (xs : List Event) → All (λ x. e.seq < x.seq) xs → insert_row e xs ≡ e ∷ xs
unfolding insert_row
insert_row_first e [] h = refl
insert_row_first e (x ∷ xs) h = ground arith

insert_all_after :
    (e : Event) (xs ys : List Event)
    → All (λ x. e.seq < x.seq) xs
    → insert_all xs (e ∷ ys) ≡ e ∷ insert_all xs ys
unfolding insert_all insert_row
insert_all_after e [] ys h = refl
insert_all_after e (x ∷ xs) ys h = rw (insert_all_after e xs ys h.1) (ground arith)

pub All-keep {ℓ} :
    {A : Type ℓ} (P : A → Type 0) (p : A → Bool) (xs : List A) → All P xs → All P (keep p xs)
All-keep P p [] h = tt
All-keep P p (x ∷ xs) h = elim (Bool-cases (p x)) [
  | inl yes' ↦ rw yes' (h.0, All-keep P p xs h.1)
  | inr no' ↦ rw no' (All-keep P p xs h.1)
]

-- Two disjoint filters of an ordered table, merged, are the filter by either.
insert_all-keep :
    (p q : Event → Bool) (es : List Event)
    → ((e : Event) → p e ≡ true → q e ≡ false)
    → IsOrdered es
    → insert_all (keep p es) (keep q es) ≡ keep (λ e. p e || q e) es
unfolding insert_all
insert_all-keep p q [] apart o = refl
insert_all-keep p q (e ∷ es) apart (cons _ _ h o) =
    let ih = insert_all-keep p q es apart o in
    elim (Bool-cases (p e)) [
      | inl here ↦ rw (here, apart e here, ih) (insert_row_first e _ (All-keep _ _ es h))
      | inr other ↦ elim (Bool-cases (q e)) [
        | inl there ↦
            rw (other, there)
              (insert_all_after e (keep p es) (keep q es) (All-keep _ p es h)
                ∙ ap (λ xs. e ∷ xs) ih)
        | inr neither ↦ rw (other, neither) ih
      ]
    ]

pub keep_ext :
    (p q : Event → Bool) (es : List Event) → ((e : Event) → p e ≡ q e) → keep p es ≡ keep q es
keep_ext p q es h = ap (λ f. keep f es) (fun_ext h)

-- No branch comes twice among the steps.
abbrev pub IsDistinct : Lineage → Type 0
IsDistinct [] = Unit
IsDistinct (step ∷ steps) =
    All (λ (later : String × Option ℕ). (later.0 == step.0) ≡ false) steps × IsDistinct steps

covers-other :
    (branch : String) (steps : Lineage) (e : Event)
    → All (λ (later : String × Option ℕ). (later.0 == branch) ≡ false) steps
    → branch ≡ e.branch_id
    → covers steps e ≡ false
unfolding covers
covers-other branch [] e h same = refl
covers-other branch (step ∷ steps) e h same =
    let other : (step.0 == e.branch_id) ≡ false = rw (← same) h.0 in
    rw other (covers-other branch steps e h.1 same)

distribute : (a b c : Bool) → (a && c || b && c) ≡ ((a || b) && c)
distribute true true true = refl
distribute true true false = refl
distribute true false true = refl
distribute true false false = refl
distribute false b c = refl

keep_none : (es : List Event) → keep (λ _. false) es ≡ []
keep_none [] = refl
keep_none (e ∷ es) = keep_none es

-- the test of one `SELECT`
here : Query → String → Option ℕ → Event → Bool
here q branch cutoff e = (branch == e.branch_id && within cutoff e.seq) && selects q e

here-apart :
    (q : Query) (branch : String) (cutoff : Option ℕ) (steps : Lineage) (e : Event)
    → All (λ (later : String × Option ℕ). (later.0 == branch) ≡ false) steps
    → here q branch cutoff e ≡ true
    → (covers steps e && selects q e) ≡ false
unfolding here
here-apart q branch cutoff steps e h t =
    let (at, _) = and_true _ _ t in
    let (same, _) = and_true _ _ at in
    rw (covers-other branch steps e h ((eq_iff branch e.branch_id).0 same))

here-or :
    (q : Query) (branch : String) (cutoff : Option ℕ) (steps : Lineage) (e : Event)
    → (here q branch cutoff e || (covers steps e && selects q e))
      ≡ (covers ((branch, cutoff) ∷ steps) e && selects q e)
unfolding here covers
here-or q branch cutoff steps e =
    distribute (branch == e.branch_id && within cutoff e.seq) (covers steps e) (selects q e)

pub sort-select_all :
    (q : Query) (es : List Event) (steps : Lineage)
    → IsOrdered es
    → IsDistinct steps
    → sort_rows (select_all q es steps) ≡ keep (λ e. covers steps e && selects q e) es
unfolding select_all sort_rows covers
sort-select_all q es [] o d = sym (keep_none es)
sort-select_all q es ((branch, cutoff) ∷ steps) o d =
    sort-append (select q es branch cutoff) (select_all q es steps)
    ∙ rw (sort-select_all q es steps o d.1) (
        unfold select here in
        insert_all-keep (here q branch cutoff) (λ e. covers steps e && selects q e) es
          (λ e t. here-apart q branch cutoff steps e d.0 t) o)
    ∙ keep_ext _ _ es (here-or q branch cutoff steps)
