-- ===== src/Store/History/Forks.antt =====
-- What `create_branch` shows: the new branch sees its parent's history up to the fork, and the
-- branches that were there see what they saw.
use joiny_mnemonic.Prelude.{
  ℕ, String, false, ◌&&◌, Option, none, some, List, [], ◌∷◌, ◌==◌, string_eq, keep, All, last?, ok,
  ◌≡◌, refl, sym, ap, ◌∙◌, arith, beq_refl, beq_of_ne,
}
use joiny_mnemonic.Store.{Branch, Event, Store}
use joiny_mnemonic.Store.Lineage.{
  find_branch, within, Query, selects, tighten, covers, query_events, create_branch, all_events,
  tip, or_tip,
}
use joiny_mnemonic.Store.Lineage.Chain.{chain, chain_up, chain_older}
use joiny_mnemonic.Store.Lineage.Visible.{query_events_lem, covers-chain}
use joiny_mnemonic.Store.Sound.{IsPlaced, IsSound, create_branch-Created}
use joiny_mnemonic.Store.History.{Created-IsSound, keep_on, keep-keep}

abbrev child : String → String → ℕ → Branch
child branch parent seq = record { id = branch; parent_id = some parent; fork_event_seq = some seq }

-- No event of the table is in a branch that is not there.
elsewhere :
    (bs : List Branch) (branch : String) (e : Event)
    → find_branch branch bs ≡ none
    → IsPlaced bs e
    → (branch == e.branch_id) ≡ false
elsewhere bs branch e new placed = beq_of_ne branch e.branch_id (λ same. placed (rw (← same) new))

find_child :
    (branch parent : String) (seq : ℕ) (bs : List Branch)
    → find_branch branch (child branch parent seq ∷ bs) ≡ some (child branch parent seq)
unfolding find_branch
find_child branch parent seq bs = rw (beq_refl branch)

child_test :
    (bs : List Branch) (branch parent : String) (seq : ℕ) (q : Query) (e : Event)
    → find_branch branch bs ≡ none
    → IsPlaced bs e
    → (covers (chain (child branch parent seq ∷ bs) branch none) e && selects q e)
      ≡ ((covers (chain bs parent none) e && selects q e) && within (some seq) e.seq)
unfolding covers tighten
child_test bs branch parent seq q e new placed =
    rw (chain_up (child branch parent seq) bs none parent refl)
      (rw (elsewhere bs branch e new placed, covers-chain bs parent (some seq) e) (ground arith))

child_tests :
    (bs : List Branch) (branch parent : String) (seq : ℕ) (q : Query) (es : List Event)
    → find_branch branch bs ≡ none
    → All (IsPlaced bs) es
    → All
        (λ e.
          (covers (chain (child branch parent seq ∷ bs) branch none) e && selects q e)
          ≡ ((covers (chain bs parent none) e && selects q e) && within (some seq) e.seq))
        es
child_tests bs branch parent seq q [] new placed = tt
child_tests bs branch parent seq q (e ∷ es) new placed = (
  child_test bs branch parent seq q e new placed.0,
  child_tests bs branch parent seq q es new placed.1,
)

-- Right after a fork of a well-formed store, every query of the new branch answers what the same query of its parent
-- answers, less what lies after the fork point: the point that was asked for, or else the last
-- event that the parent sees.
pub query_events-create_branch :
    (s : Store) (branch parent : String) (at : Option ℕ) (s' : Store) (q : Query)
    (history es : List Event)
    → IsSound s
    → create_branch s branch parent at ≡ ok s'
    → query_events s parent all_events ≡ ok history
    → query_events s parent q ≡ ok es
    → query_events s' branch q
      ≡ ok (keep (λ e. within (some (or_tip at (tip (last? history)))) e.seq) es)
query_events-create_branch s branch parent at s' q history es sound h seen before =
    let c = create_branch-Created s branch parent at s' h in
    let sound' = Created-IsSound c sound in
    let b = child branch parent c.seq in
    let was = query_events_lem s parent c.above q sound.forest sound.ordered c.at in
    let kept : es ≡ keep (λ e. covers (chain s.branches parent none) e && selects q e) s.events =
      cc (before, was) in
    let same : c.history ≡ history = cc (c.seen, seen) in
    let point : c.seq ≡ or_tip at (tip (last? history)) =
      c.point ∙ ap (λ v. or_tip at (tip (last? v))) same in
    rw (← point, kept, c.store)
      (query_events_lem _ branch b q (rw c.store at sound'.forest) sound.ordered
          (find_child branch parent c.seq s.branches)
        ∙ ap ok (
            keep_on _ _ s.events
              (child_tests s.branches branch parent c.seq q s.events c.new sound.placed)
            ∙ sym (
                keep-keep (λ e. within (some c.seq) e.seq)
                  (λ e. covers (chain s.branches parent none) e && selects q e) s.events)))

find_older :
    (b : Branch) (bs : List Branch) (x : String)
    → (b.id == x) ≡ false
    → find_branch x (b ∷ bs) ≡ find_branch x bs
unfolding find_branch
find_older b bs x other = rw other

-- In a well-formed store, a fork changes what no query of a known branch returns.
pub query_events-create_other :
    (s : Store) (branch parent : String) (at : Option ℕ) (s' : Store) (other : String)
    (row : Branch) (q : Query)
    → IsSound s
    → create_branch s branch parent at ≡ ok s'
    → find_branch other s.branches ≡ some row
    → query_events s' other q ≡ query_events s other q
query_events-create_other s branch parent at s' other row q sound h found =
    let c = create_branch-Created s branch parent at s' h in
    let sound' = Created-IsSound c sound in
    let b = child branch parent c.seq in
    let apart = beq_of_ne branch other (λ same. cc (rw same at c.new, found)) in
    rw c.store (
      query_events_lem _ other row q (rw c.store at sound'.forest) sound.ordered
        (find_older b s.branches other apart ∙ found)
      ∙ rw (chain_older b s.branches none other apart)
          (sym (query_events_lem s other row q sound.forest sound.ordered found)))
