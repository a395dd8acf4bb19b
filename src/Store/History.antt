-- ===== src/Store/History.antt =====
-- The history that a branch sees, under every write of canonical tables.
pub mod Forks
use mathlib.Core.Path.{subst}
use mathlib.Core.List.{append-nil}
use joiny_mnemonic.Prelude.{
  ℕ, suc, ◌+◌, ◌≤◌, ◌<◌, String, Bool, true, false, not, ◌&&◌, ◌||◌, Option, none, some, List, [],
  ◌∷◌, ◌++◌, if◌then◌else◌, ◌==◌, string_eq, any, keep, keep-snoc, All, last?, ltb, leb, ok, raise,
  ◌>>=◌, ◌≡◌, refl, sym, ap, ◌∙◌, ◌≢◌, arith, Bool-cases, Option-cases, eq_iff, inl, inr, beq_refl,
  beq_of_ne,
}
use joiny_mnemonic.Store.{Branch, Event, Store, Externals}
use joiny_mnemonic.Store.Append.{NewEvent, Stamp, next_seq, append_event_in_tx}
use joiny_mnemonic.Store.Lineage.{
  find_branch, Lineage, within, Query, selects, tighten, covers, query_events, all_events,
  create_branch, tip,
}
use joiny_mnemonic.Store.Lineage.Chain.{
  IsForest, root, fork, chain, chain_top, chain_up, chain_older,
}
use joiny_mnemonic.Store.Lineage.Order.{IsOrdered, All-keep, keep_ext}
use joiny_mnemonic.Store.Lineage.Visible.{query_events_lem, covers-chain}
use joiny_mnemonic.Store.Sound.{
  ForksBelow, IsPlaced, IsSound, below_next, Appended, Appended-seq, Appended-branch_id,
  Appended-IsSound, append_event_in_tx-Appended, Created, create_branch-Created,
}

tip-lt : (n : ℕ) (es : List Event) → 0 < n → All (λ e. e.seq < n) es → tip (last? es) < n
tip-lt n [] h all = h
tip-lt n (e ∷ []) h all = all.0
tip-lt n (e ∷ f ∷ es) h all = tip-lt n (f ∷ es) h all.1

pub next_seq_pos : (o : Option Event) → 0 < next_seq o
next_seq_pos none = omega arith
next_seq_pos (some e) = omega arith

IsPlaced-cons :
    (b : Branch) (bs : List Branch) (es : List Event)
    → All (IsPlaced bs) es
    → All (IsPlaced (b ∷ bs)) es
unfolding find_branch
IsPlaced-cons b bs [] h = tt
IsPlaced-cons b bs (e ∷ es) h = (more, IsPlaced-cons b bs es h.1)
  where
    more : IsPlaced (b ∷ bs) e
    more missing = elim (Bool-cases (b.id == e.branch_id)) [
      | inl here ↦ cc (rw here at missing)
      | inr other ↦ h.0 (rw other at missing)
    ]

module _ {s : Store} {branch parent : String} {at : Option ℕ} {s' : Store}
    (c : Created s branch parent at s') (sound : IsSound s) where
  Created-history :
      c.history
      ≡ keep (λ e. covers (chain s.branches parent none) e && selects all_events e) s.events
  Created-history =
      let seen = query_events_lem s parent c.above all_events sound.forest sound.ordered c.at in
      cc (c.seen, seen)

  Created-seq-lt : c.seq < next_seq (last? s.events)
  Created-seq-lt =
      let n = next_seq (last? s.events) in
      let below =
        tip-lt n c.history (next_seq_pos (last? s.events))
          (rw Created-history (All-keep _ _ s.events (below_next s.events sound.ordered))) in
      let inside = c.within in omega arith

  pub Created-IsSound : IsSound s'
  Created-IsSound = subst IsSound (sym c.store) (record {
    forest = fork _ s.branches parent c.above sound.forest c.new refl c.at c.seq refl;
    ordered = sound.ordered;
    forks = (Created-seq-lt, sound.forks);
    placed = IsPlaced-cons _ s.branches s.events sound.placed;
  })

pub append_event_in_tx-IsSound :
    (x : Externals) (s : Store) (n : NewEvent) (stamp : Stamp) (s' : Store) (e : Event)
    → IsSound s
    → append_event_in_tx x s n stamp ≡ ok (s', e)
    → IsSound s'
append_event_in_tx-IsSound x s n stamp s' e sound h =
    Appended-IsSound (append_event_in_tx-Appended x s n stamp s' e h) sound

pub create_branch-IsSound :
    (s : Store) (branch parent : String) (at : Option ℕ) (s' : Store)
    → IsSound s
    → create_branch s branch parent at ≡ ok s'
    → IsSound s'
create_branch-IsSound s branch parent at s' sound h =
    Created-IsSound (create_branch-Created s branch parent at s' h) sound

-- A fork point below `n` hides what comes at `n` or later.
fork_hides :
    (limit : Option ℕ) (seq n at : ℕ)
    → limit ≡ some seq
    → (elim limit as (λ _. Type 0) [ none ↦ Unit | some m ↦ m < n ])
    → n ≤ at
    → within (tighten none limit) at ≡ false
unfolding tighten
fork_hides none seq n at h below late = cc h
fork_hides (some m) seq n at h below late = ground arith

-- Below the top of its chain a branch is cut at fork points, which lie before the next event.
pub covers-later :
    (rows : List Branch) (b : String) (n : ℕ) (e : Event)
    → IsForest rows
    → All (ForksBelow n) rows
    → n ≤ e.seq
    → b ≢ e.branch_id
    → covers (chain rows b none) e ≡ false
unfolding covers chain
covers-later rows b n e (root top none') forks late other = elim (Bool-cases (top.id == b)) [
  | inl here ↦ rw (here, none', chain) (rw (beq_of_ne b e.branch_id other))
  | inr older ↦ rw (older, chain)
]
covers-later rows b n e (fork row older parent above below new up at seq cut) forks late other =
    elim (Bool-cases (row.id == b)) [
      | inl here ↦
          rw (here, up, chain)
            (rw
              (
                beq_of_ne b e.branch_id other,
                covers-chain older parent (tighten none row.fork_event_seq) e,
                fork_hides row.fork_event_seq seq n e.seq cut forks.0 late,
              )
              refl)
      | inr before ↦ rw (before, chain) (covers-later older b n e below forks.1 late other)
    ]

keep-snoc_none :
    (p : Event → Bool) (es : List Event) (e : Event)
    → p e ≡ false
    → keep p (es ++ e ∷ []) ≡ keep p es
keep-snoc_none p es e h = keep-snoc p es e ∙ rw h (append-nil (keep p es))

-- In a well-formed store, an append changes what no query of any other known branch returns, whether
-- that branch shares ancestors with the event's branch or not.
pub query_events-append_other :
    (x : Externals) (s : Store) (n : NewEvent) (stamp : Stamp) (s' : Store) (e : Event)
    (branch : String) (row : Branch) (q : Query)
    → IsSound s
    → append_event_in_tx x s n stamp ≡ ok (s', e)
    → find_branch branch s.branches ≡ some row
    → branch ≢ n.branch_id
    → query_events s' branch q ≡ query_events s branch q
query_events-append_other x s n stamp s' e branch row q sound h at other =
    let a = append_event_in_tx-Appended x s n stamp s' e h in
    let sound' = Appended-IsSound a sound in
    let hidden =
      covers-later s.branches branch (next_seq (last? s.events)) e sound.forest sound.forks
        (omega (arith, Appended-seq a)) (λ same. other (same ∙ Appended-branch_id a)) in
    rw a.store (
      query_events_lem _ branch row q sound.forest (rw a.store at sound'.ordered) at
      ∙ ap ok (keep-snoc_none _ s.events e (rw hidden refl))
      ∙ sym (query_events_lem s branch row q sound.forest sound.ordered at))

pub covers-own :
    (rows : List Branch) (b : String) (row : Branch) (e : Event)
    → find_branch b rows ≡ some row
    → e.branch_id ≡ b
    → covers (chain rows b none) e ≡ true
unfolding covers chain find_branch
covers-own [] b row e at own = cc at
covers-own (r ∷ rows) b row e at own = elim (Bool-cases (r.id == b)) [
  | inl here ↦ rw (here, chain) (rw (own, beq_refl b))
  | inr other ↦ rw (other, chain) (covers-own rows b row e (rw other at at) own)
]

selects-all : (e : Event) → 0 < e.seq → selects all_events e ≡ true
unfolding selects
selects-all e h = ground arith

-- In a well-formed store, an append adds its event at the end of the history of the event's branch,
-- and changes nothing before it.
pub query_events-append_own :
    (x : Externals) (s : Store) (n : NewEvent) (stamp : Stamp) (s' : Store) (e : Event)
    (history : List Event)
    → IsSound s
    → append_event_in_tx x s n stamp ≡ ok (s', e)
    → query_events s n.branch_id all_events ≡ ok history
    → query_events s' n.branch_id all_events ≡ ok (history ++ e ∷ [])
query_events-append_own x s n stamp s' e history sound h before =
    let a = append_event_in_tx-Appended x s n stamp s' e h in
    let sound' = Appended-IsSound a sound in
    let (row, at) = a.branch in
    let b = n.branch_id in
    let own = covers-own s.branches b row e at (Appended-branch_id a) in
    let chosen = selects-all e (rw (Appended-seq a) (next_seq_pos (last? s.events))) in
    let was = query_events_lem s b row all_events sound.forest sound.ordered at in
    let kept : history
        ≡ keep (λ v. covers (chain s.branches b none) v && selects all_events v) s.events =
      cc (before, was) in
    rw (a.store, kept)
      (query_events_lem _ b row all_events sound.forest (rw a.store at sound'.ordered) at
        ∙ ap ok (
            keep-snoc (λ v. covers (chain s.branches b none) v && selects all_events v) s.events e
            ∙ rw (own, chosen)))

pub keep_on :
    (p q : Event → Bool) (es : List Event) → All (λ e. p e ≡ q e) es → keep p es ≡ keep q es
keep_on p q [] h = refl
keep_on p q (e ∷ es) h = rw (h.0, keep_on p q es h.1)

pub keep-keep :
    (p q : Event → Bool) (es : List Event) → keep p (keep q es) ≡ keep (λ e. q e && p e) es
keep-keep p q [] = refl
keep-keep p q (e ∷ es) = ground (arith, keep-keep p q es)
