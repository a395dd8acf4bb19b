-- ===== src/Snapshots/Tails.antt =====
-- `snapshot_tail` of src/joiny_mnemonic/storage.py: what comes after a snapshot.
use joiny_mnemonic.Prelude.{
  ℕ, ◌<◌, String, Bool, true, false, ◌&&◌, none, some, List, [], ◌∷◌, ◌++◌, ltb, leb, keep, All, ok,
  recast, >>=-eq-ok, >>-eq-ok, recast-eq-ok, ◌≡◌, refl, sym, ap, ◌∙◌, arith, Bool-cases, inl, inr,
}
use joiny_mnemonic.Store.{Event, Branch}
use joiny_mnemonic.Store.Lineage.{find_branch, lineage, selects, query_events, all_events, covers}
use joiny_mnemonic.Store.Lineage.Chain.{chain}
use joiny_mnemonic.Store.Lineage.Order.{IsOrdered, nil, cons, All-keep, keep_ext}
use joiny_mnemonic.Store.Lineage.Visible.{query_events_lem}
use joiny_mnemonic.Store.History.{keep-keep}
use joiny_mnemonic.Store.Sound.{IsSound}
use joiny_mnemonic.Snapshots.{Snapshots, Snapshot, store_error, outside_target, beyond_target}
use joiny_mnemonic.Snapshots.Creation.{check_limit, tail_query, snapshot_tail}

IsOrdered-keep : (p : Event → Bool) (es : List Event) → IsOrdered es → IsOrdered (keep p es)
IsOrdered-keep p [] nil = nil
IsOrdered-keep p (e ∷ es) (cons _ _ h o) = elim (Bool-cases (p e)) [
  | inl here ↦ rw here (cons e (keep p es) (All-keep _ p es h) (IsOrdered-keep p es o))
  | inr other ↦ rw other (IsOrdered-keep p es o)
]

-- Of rows after `c`, none is at `c` or before, and each is after it.
none_before :
    (c : ℕ) (es : List Event)
    → All (λ e. c < e.seq) es
    → (keep (λ e. leb e.seq c) es ≡ []) × (keep (λ e. ltb c e.seq) es ≡ es)
none_before c [] h = (refl, refl)
none_before c (e ∷ es) h =
    let (below, above) = none_before c es h.1 in
    let after = h.0 in (ground (arith, below), rw above (ground arith))

after_all : (b c : ℕ) (es : List Event) → c < b → All (λ e. b < e.seq) es → All (λ e. c < e.seq) es
after_all b c [] before h = tt
after_all b c (e ∷ es) before h = (omega arith, after_all b c es before h.1)

-- An ordered table is its part up to a place and its part after it.
split_at :
    (c : ℕ) (es : List Event)
    → IsOrdered es
    → es ≡ keep (λ e. leb e.seq c) es ++ keep (λ e. ltb c e.seq) es
split_at c [] o = refl
split_at c (e ∷ es) (cons _ _ h o) = elim (Bool-cases (leb e.seq c)) [
  | inl early ↦
      let late : ltb c e.seq ≡ false = ground arith in
      rw (early, late) (ap (λ l. e ∷ l) (split_at c es o))
  | inr not_early ↦
      let late : ltb c e.seq ≡ true = ground arith in
      let (below, above) = none_before c es (after_all e.seq c es (ground arith) h) in
      rw (not_early, late, below, above) refl
]

selects-tail :
    (c : ℕ) (e : Event) → selects (tail_query c) e ≡ (selects all_events e && ltb c e.seq)
unfolding selects
selects-tail c e = ground arith

-- In a well-formed store, where the tail of a snapshot is returned for a known branch, the history of the
-- branch is the part of it up to the snapshot and the tail: a restored session misses no event and sees none
-- twice.
pub snapshot_tail-history :
    (t : Snapshots) (s : Snapshot) (target : String) (row : Branch) (tail : List Event)
    → IsSound t.store
    → find_branch target t.store.branches ≡ some row
    → snapshot_tail t s target ≡ ok tail
    → (history : List Event) × (query_events t.store target all_events ≡ ok history)
      × (history ≡ keep (λ e. leb e.seq s.row.cursor_seq) history ++ tail)
unfolding snapshot_tail
snapshot_tail-history t s target row tail sound at h =
    let c = s.row.cursor_seq in
    let steps = chain t.store.branches target none in
    let seen = λ (e : Event). covers steps e && selects all_events e in
    let (got, _, h₁) = >>=-eq-ok (recast store_error (lineage t.store.branches target)) _ h in
    let (_, h₂) = >>-eq-ok (check_limit got s outside_target beyond_target) _ h₁ in
    let read =
      sym (query_events_lem t.store target row (tail_query c) sound.forest sound.ordered at)
      ∙ recast-eq-ok store_error _ h₂ in
    let later : keep (λ e. covers steps e && selects (tail_query c) e) t.store.events ≡ tail =
      cc read in
    let parts : keep (λ e. ltb c e.seq) (keep seen t.store.events) ≡ tail =
      keep-keep (λ e. ltb c e.seq) seen t.store.events
      ∙ (keep_ext _ _ t.store.events (λ e. rw (selects-tail c e) (ground arith)) ∙ later) in
    (
      keep seen t.store.events,
      query_events_lem t.store target row all_events sound.forest sound.ordered at,
      split_at c (keep seen t.store.events) (IsOrdered-keep seen t.store.events sound.ordered)
          ∙ ap (λ l. keep (λ e. leb e.seq c) (keep seen t.store.events) ++ l) parts,
    )
