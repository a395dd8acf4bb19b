-- ===== src/Ledgers/Sources/Visible.antt =====
-- What `_assert_source_events` of src/joiny_mnemonic/storage.py accepts.
mod Tests
use joiny_mnemonic.Prelude.{
  ℕ, String, Bool, true, false, not, ◌&&◌, ◌||◌, Option, none, some, List, [], ◌∷◌, reverse,
  if◌then◌else◌, ◌==◌, string_eq, any, keep, get, All, ok, raise, raise_if, ◌>>=◌, ◌≡◌, refl, sym,
  ap, ◌∙◌, ◌≢◌, ◌↔◌, arith, Bool-cases, Option-cases, inl, inr, eq_iff, >>=-eq-ok, raise_if-eq-ok,
}
use mathlib.Core.Path.{subst}
use joiny_mnemonic.Store.{Branch, Event, Store, invisible_sources}
use joiny_mnemonic.Store.Ingest.{find_event}
use joiny_mnemonic.Store.Lineage.{find_branch, Lineage, within, lineage, covers}
use joiny_mnemonic.Store.Lineage.Chain.{chain, lineage_total}
use joiny_mnemonic.Store.Lineage.Order.{IsDistinct}
use joiny_mnemonic.Store.Lineage.Visible.{IsDistinct-reverse, chain-IsDistinct, covers-reverse}
use joiny_mnemonic.Store.Sound.{IsSound}
use joiny_mnemonic.Ledgers.Sources.{
  distinct, with_row, source_rows, is_invisible, check_visible, assert_source_events,
}

apart-covers :
    (steps : Lineage) (b : String) (e : Event)
    → All (λ (later : String × Option ℕ). (later.0 == b) ≡ false) steps
    → b ≡ e.branch_id
    → covers steps e ≡ false
unfolding covers
apart-covers [] b e apart same = refl
apart-covers ((c, cutoff) ∷ steps) b e apart same =
    let other : (c == e.branch_id) ≡ false = rw (← same) apart.0 in
    rw other (apart-covers steps b e apart.1 same)

-- The dictionary of cutoffs and the list of steps agree, where no branch comes twice.
is_invisible-covers :
    (steps : Lineage) (e : Event) → IsDistinct steps → is_invisible steps e ≡ not (covers steps e)
unfolding is_invisible covers
is_invisible-covers [] e d = refl
is_invisible-covers ((b, none) ∷ steps) e d = elim (Bool-cases (b == e.branch_id)) [
  | inl here ↦ rw (is_invisible, here) refl
  | inr other ↦ rw (is_invisible, other) (is_invisible-covers steps e d.1)
]
is_invisible-covers ((b, some cutoff) ∷ steps) e d = elim (Bool-cases (b == e.branch_id)) [
  | inr other ↦ rw (is_invisible, other) (is_invisible-covers steps e d.1)
  | inl here ↦
      rw (is_invisible, here, apart-covers steps b e d.0 ((eq_iff b e.branch_id).0 here))
        (ground arith)
]

-- A source exists and lies in the chain.
abbrev pub IsSource : List Event → Lineage → String → Type 0
IsSource events steps id = (e : Event) × (find_event id events ≡ some e) × (covers steps e ≡ true)

-- The rows that were found, none of them hidden
record Shown (events : List Event) (steps : Lineage) (ids : List String) : Type 0 where
  rows : List Event
  found : source_rows events ids ≡ some rows
  shown : any (λ e. not (covers steps e)) rows ≡ false

Shown-sources :
    (events : List Event) (steps : Lineage) (ids : List String)
    → All (IsSource events steps) ids
    → Shown events steps ids
unfolding source_rows
Shown-sources events steps [] h = record { rows = []; found = refl; shown = refl }
Shown-sources events steps (id ∷ ids) ((e, at, sees), h) =
    let rest = Shown-sources events steps ids h in
    record {
      rows = e ∷ rest.rows;
      found = rw (at, rest.found) refl;
      shown = rw (sees, rest.shown) refl;
    }

sources-Shown :
    (events : List Event) (steps : Lineage) (ids : List String) (rows : List Event)
    → source_rows events ids ≡ some rows
    → any (λ e. not (covers steps e)) rows ≡ false
    → All (IsSource events steps) ids
unfolding source_rows
sources-Shown events steps [] rows found shown = tt
sources-Shown events steps (id ∷ ids) rows found shown =
    elim (Option-cases (find_event id events)) [
      | inl missing ↦ cc (rw missing at found)
      | inr (e, at) ↦ elim (Option-cases (source_rows events ids)) [
        | inl none' ↦ cc (rw (at, none') at found)
        | inr (rest, more) ↦
            let all : e ∷ rest ≡ rows = cc (rw (at, more) at found) in
            let clear : any (λ v. not (covers steps v)) (e ∷ rest) ≡ false =
              subst (λ v. any (λ w. not (covers steps w)) v ≡ false) (sym all) shown in
            ((e, at, ground arith), sources-Shown events steps ids rest more (ground arith))
      ]
    ]

All-keep_other :
    (P : String → Type 0) (v : String) (xs : List String)
    → P v
    → All P (keep (λ w. not (w == v)) xs)
    → All P xs
All-keep_other P v [] p h = tt
All-keep_other P v (x ∷ xs) p h = elim (Bool-cases (x == v)) [
  | inl same ↦ (subst P (sym ((eq_iff x v).0 same)) p, All-keep_other P v xs p (rw same at h))
  | inr other ↦ let k = rw other at h in (k.0, All-keep_other P v xs p k.1)
]

All-keep_some :
    (P : String → Type 0) (v : String) (xs : List String)
    → All P xs
    → All P (keep (λ w. not (w == v)) xs)
All-keep_some P v [] h = tt
All-keep_some P v (x ∷ xs) h = elim (Bool-cases (x == v)) [
  | inl same ↦ rw same (All-keep_some P v xs h.1)
  | inr other ↦ rw other (h.0, All-keep_some P v xs h.1)
]

pub All-distinct : (P : String → Type 0) (ids : List String) → All P (distinct ids) ↔ All P ids
unfolding distinct
All-distinct P [] = ((λ h. h), (λ h. h))
All-distinct P (v ∷ vs) =
    let (to, from) = All-distinct P vs in
    (
      (λ h. (h.0, to (All-keep_other P v (distinct vs) h.0 h.1))),
      (λ h. (h.0, All-keep_some P v (distinct vs) (from h.1))),
    )

any_ext : (p q : Event → Bool) (es : List Event) → ((e : Event) → p e ≡ q e) → any p es ≡ any q es
any_ext p q [] h = refl
any_ext p q (e ∷ es) h = rw (h e, any_ext p q es h)

module _ (s : Store) (branch : String) (row : Branch) (sound : IsSound s)
    (at : find_branch branch s.branches ≡ some row) where
  seen_test :
      (rows : List Event)
      → any (is_invisible (reverse (chain s.branches branch none))) rows
        ≡ any (λ e. not (covers (chain s.branches branch none) e)) rows
  seen_test rows =
      let steps = chain s.branches branch none in
      any_ext (is_invisible (reverse steps)) (λ e. not (covers steps e)) rows
        (λ e.
          is_invisible-covers (reverse steps) e
            (IsDistinct-reverse steps (chain-IsDistinct s.branches branch none sound.forest))
          ∙ ap not (covers-reverse steps e))

  check_visible-shown :
      (rows : List Event)
      → (check_visible s branch rows ≡ ok tt)
        ↔ (any (λ e. not (covers (chain s.branches branch none) e)) rows ≡ false)
  unfolding check_visible
  check_visible-shown rows =
      let hidden = any (is_invisible (reverse (chain s.branches branch none))) rows in
      let total = lineage_total s.branches branch row sound.forest at in
      (
        (λ h.
            sym (seen_test rows)
            ∙ raise_if-eq-ok hidden invisible_sources (rw (check_visible, total) at h)),
        (λ h. rw (check_visible, total, seen_test rows, h) refl),
      )

  accepted-sources :
      (ids : List String)
      → assert_source_events s ids branch ≡ ok tt
      → (ids ≢ []) × All (IsSource s.events (chain s.branches branch none)) ids
  unfolding assert_source_events
  accepted-sources [] h = cc h
  accepted-sources (id ∷ ids) h = elim (Option-cases (source_rows s.events (distinct (id ∷ ids)))) [
    | inl missing ↦ cc (rw (assert_source_events, missing) at h)
    | inr (rows, found) ↦
        let steps = chain s.branches branch none in
        let shown = (check_visible-shown rows).0 (rw (assert_source_events, found) at h) in
        (
          (λ empty. cc empty),
          (All-distinct (IsSource s.events steps) (id ∷ ids)).0
              (sources-Shown s.events steps (distinct (id ∷ ids)) rows found shown),
        )
  ]

  sources-accepted :
      (ids : List String)
      → ids ≢ []
      → All (IsSource s.events (chain s.branches branch none)) ids
      → assert_source_events s ids branch ≡ ok tt
  unfolding assert_source_events
  sources-accepted [] some_id h = absurd (some_id refl)
  sources-accepted (id ∷ ids) some_id h =
      let steps = chain s.branches branch none in
      let z =
        Shown-sources s.events steps (distinct (id ∷ ids))
          ((All-distinct (IsSource s.events steps) (id ∷ ids)).1 h) in
      rw (assert_source_events, z.found) ((check_visible-shown z.rows).1 z.shown)

  -- In a well-formed store, the sources of a record in a known branch are accepted exactly when there is
  -- at least one, and each is the identifier of an event that the chain of the branch covers.
  pub assert_source_events_iff :
      (ids : List String)
      → (assert_source_events s ids branch ≡ ok tt)
        ↔ ((ids ≢ []) × All (IsSource s.events (chain s.branches branch none)) ids)
  assert_source_events_iff ids = (accepted-sources ids, (λ h. sources-accepted ids h.0 h.1))
