-- ===== src/Store/Sound.antt =====
-- The invariant of the canonical tables, and that every write keeps it.
use mathlib.Core.Path.{subst}
use joiny_mnemonic.Prelude.{
  ℕ, ◌+◌, ◌≤◌, ◌<◌, String, false, not, ◌&&◌, ◌||◌, Option, none, some, List, [], ◌∷◌, ◌++◌, ◌==◌,
  string_eq, any, All, All-snoc, last?, last-snoc, ltb, ok, raise_if, ◌>>◌, >>-eq-ok, >>=-eq-ok,
  raise_if-eq-ok, ◌≡◌, refl, sym, ap, ◌∙◌, ◌≢◌, arith, Option-cases, inl, inr,
}
use joiny_mnemonic.Store.{
  Branch, Event, Store, missing_adapter, integrity_error, bad_branch_id, fork_outside_history,
  initial, Externals,
}
use joiny_mnemonic.Store.Append.{
  NewEvent, Stamp, next_seq, redacted, event_row, is_known_branch, check_session, is_truthy,
  append_event_in_tx,
}
use joiny_mnemonic.Store.Lineage.{
  find_branch, query_events, all_events, create_branch, add_branch, tip, or_tip,
}
use joiny_mnemonic.Store.Lineage.Chain.{IsForest, root}
use joiny_mnemonic.Store.Lineage.Order.{IsOrdered, nil, cons}

-- A branch forks within the history that exists.
abbrev pub ForksBelow : ℕ → Branch → Type 0
ForksBelow n b = elim b.fork_event_seq [ none ↦ Unit | some seq ↦ seq < n ]

-- The branch of an event is a row of the table.
abbrev pub IsPlaced : List Branch → Event → Type 0
IsPlaced bs e = find_branch e.branch_id bs ≢ none

pub record IsSound (s : Store) : Type 0 where
  pub forest : IsForest s.branches
  pub ordered : IsOrdered s.events
  pub forks : All (ForksBelow (next_seq (last? s.events))) s.branches
  pub placed : All (IsPlaced s.branches) s.events

pub initial-IsSound : IsSound initial
initial-IsSound = record { forest = root _ refl; ordered = nil; forks = (tt, tt); placed = tt }

All-weaken : (m n : ℕ) (bs : List Branch) → m ≤ n → All (ForksBelow m) bs → All (ForksBelow n) bs
All-weaken m n [] h all = tt
All-weaken m n (b ∷ bs) h all = (weaken_one b.fork_event_seq all.0, All-weaken m n bs h all.1)
  where
    weaken_one :
        (f : Option ℕ)
        → (elim f as (λ _. Type 0) [ none ↦ Unit | some seq ↦ seq < m ])
        → elim f as (λ _. Type 0) [ none ↦ Unit | some seq ↦ seq < n ]
    weaken_one none g = tt
    weaken_one (some seq) g = omega arith

pub below_next : (es : List Event) → IsOrdered es → All (λ e. e.seq < next_seq (last? es)) es
below_next [] o = tt
below_next (e ∷ []) o = (omega arith, tt)
below_next (e ∷ f ∷ es) (cons _ _ h o) = let rest = below_next (f ∷ es) o in (omega arith, rest)

IsOrdered-snoc :
    (es : List Event) (e : Event)
    → IsOrdered es
    → All (λ x. x.seq < e.seq) es
    → IsOrdered (es ++ e ∷ [])
IsOrdered-snoc [] e o h = cons e [] tt nil
IsOrdered-snoc (x ∷ xs) e (cons _ _ g o) h =
    cons x (xs ++ e ∷ []) (All-snoc _ xs e g h.0) (IsOrdered-snoc xs e o h.1)

-- What a successful append did: one row, after the last one, in a branch that exists.
pub record Appended (x : Externals) (s : Store) (n : NewEvent) (stamp : Stamp) (s' : Store)
    (e : Event) : Type 0 where
  pub row : e ≡ event_row x (last? s.events) (redacted x n) stamp
  pub store : s' ≡ record s { events = s.events ++ e ∷ [] }
  pub branch : (b : Branch) × (find_branch n.branch_id s.branches ≡ some b)
  pub unused : any (λ old. old.id == e.id || old.chain_hash == e.chain_hash) s.events ≡ false

known_branch :
    (x : Externals) (b : Option Branch)
    → is_known_branch x b ≡ ok tt
    → (row : Branch) × (b ≡ some row)
known_branch x none h = cc
known_branch x (some b) h = (b, refl)

pub append_event_in_tx-Appended :
    (x : Externals) (s : Store) (n : NewEvent) (stamp : Stamp) (s' : Store) (e : Event)
    → append_event_in_tx x s n stamp ≡ ok (s', e)
    → Appended x s n stamp s' e
unfolding append_event_in_tx
append_event_in_tx-Appended x s n stamp s' e h =
    let r : Event = event_row x (last? s.events) (redacted x n) stamp in
    let taken = any (λ old. old.id == r.id || old.chain_hash == r.chain_hash) s.events in
    let (known, h₁) = >>-eq-ok (is_known_branch x (find_branch n.branch_id s.branches)) _ h in
    let (_, h₂) = >>-eq-ok (check_session s n.branch_id n.session_id) _ h₁ in
    let (_, h₃) =
      >>-eq-ok
        (raise_if (n.origin_channel == "host_hook" && not (is_truthy n.origin_adapter))
          missing_adapter)
        _ h₂ in
    let (unused, h₄) =
      >>-eq-ok (raise_if taken integrity_error) (ok (record s { events = s.events ++ r ∷ [] }, r))
        h₃ in
    let row : r ≡ e = cc h₄ in
    let store : record s { events = s.events ++ r ∷ [] } ≡ s' = cc h₄ in
    record {
      row = sym row;
      store = sym store ∙ ap {B = Store} (λ v. record s { events = s.events ++ v ∷ [] }) row;
      branch = known_branch x _ known;
      unused = rw (← row) (raise_if-eq-ok taken integrity_error unused);
    }

module _ {x : Externals} {s : Store} {n : NewEvent} {stamp : Stamp} {s' : Store} {e : Event}
    (a : Appended x s n stamp s' e) where
  pub Appended-seq : e.seq ≡ next_seq (last? s.events)
  unfolding event_row
  Appended-seq = ap (λ (v : Event). v.seq) a.row

  pub Appended-branch_id : e.branch_id ≡ n.branch_id
  unfolding event_row redacted
  Appended-branch_id = ap (λ (v : Event). v.branch_id) a.row

  pub Appended-IsSound : IsSound s → IsSound s'
  Appended-IsSound sound =
      let below = below_next s.events sound.ordered in
      let found : find_branch e.branch_id s.branches ≡ some a.branch.0 =
        rw Appended-branch_id a.branch.1 in
      subst IsSound (sym a.store) (record {
        forest = sound.forest;
        ordered = IsOrdered-snoc s.events e sound.ordered (rw Appended-seq below);
        forks = rw last-snoc (
            All-weaken (next_seq (last? s.events)) (e.seq + 1) s.branches
              (omega (arith, Appended-seq)) sound.forks);
        placed = All-snoc (IsPlaced s.branches) s.events e sound.placed (λ h. cc (found, h));
      })

-- What a successful `create_branch` did: one row, under a parent that exists, and a fork point
-- within the history that the parent sees.
pub record Created (s : Store) (branch parent : String) (at_seq : Option ℕ) (s' : Store)
    : Type 0 where
  pub seq : ℕ
  pub history : List Event
  pub seen : query_events s parent all_events ≡ ok history
  pub point : seq ≡ or_tip at_seq (tip (last? history))
  pub above : Branch
  pub at : find_branch parent s.branches ≡ some above
  pub within : seq ≤ tip (last? history)
  pub new : find_branch branch s.branches ≡ none
  pub store : s' ≡ record s {
    branches =
        record { id = branch; parent_id = some parent; fork_event_seq = some seq } ∷ s.branches;
  }

not_any-find :
    (id : String) (bs : List Branch) → any (λ b. b.id == id) bs ≡ false → find_branch id bs ≡ none
unfolding find_branch
not_any-find id [] h = refl
not_any-find id (b ∷ bs) h = ground (arith, not_any-find id bs)

add_branch_checks :
    (s : Store) (branch parent : String) (at : Option ℕ) (history : List Event) (s' : Store)
    → add_branch s branch parent at history ≡ ok s'
    → (or_tip at (tip (last? history)) ≤ tip (last? history))
      × (find_branch branch s.branches ≡ none)
      × (s' ≡ record s {
        branches =
            record {
              id = branch;
              parent_id = some parent;
              fork_event_seq = some (or_tip at (tip (last? history)));
            }
            ∷ s.branches;
      })
unfolding add_branch
add_branch_checks s branch parent at history s' h =
    let seq = or_tip at (tip (last? history)) in
    let row : Branch = record { id = branch; parent_id = some parent; fork_event_seq = some seq } in
    let taken = any (λ b. b.id == branch) s.branches in
    let made = record s { branches = row ∷ s.branches } in
    let (inside, h₁) =
      >>-eq-ok (raise_if (ltb (tip (last? history)) seq) fork_outside_history)
        (raise_if taken integrity_error >> ok made) h in
    let (new, h₂) = >>-eq-ok (raise_if taken integrity_error) (ok made) h₁ in
    let past = raise_if-eq-ok (ltb (tip (last? history)) seq) fork_outside_history inside in
    let store : made ≡ s' = cc h₂ in
    (
      ground arith,
      not_any-find branch s.branches (raise_if-eq-ok taken integrity_error new),
      sym store,
    )

pub create_branch-Created :
    (s : Store) (branch parent : String) (at : Option ℕ) (s' : Store)
    → create_branch s branch parent at ≡ ok s'
    → Created s branch parent at s'
unfolding create_branch
create_branch-Created s branch parent at s' h =
    let (_, h₁) = >>-eq-ok (raise_if (branch == "" || branch == "main") bad_branch_id) _ h in
    elim (Option-cases (find_branch parent s.branches)) [
      | inl none' ↦ cc (rw none' at h₁)
      | inr (above, found) ↦
          let (history, seen, h₃) =
            >>=-eq-ok (query_events s parent all_events) (add_branch s branch parent at)
              (rw found at h₁) in
          let (inside, new, store) = add_branch_checks s branch parent at history s' h₃ in
          record {
            seq = or_tip at (tip (last? history));
            history = history;
            seen = seen;
            point = refl;
            above = above;
            at = found;
            within = inside;
            new = new;
            store = store;
          }
    ]
