-- ===== src/Store/Reach.antt =====
-- The stores that the writes of src/joiny_mnemonic/storage.py can build, one write after the other.
pub mod Log
use mathlib.Core.Path.{subst}
use joiny_mnemonic.Prelude.{
  ℕ, String, Bool, true, false, Option, none, some, List, [], ◌∷◌, map, ◌==◌, string_eq, any, ok,
  raise, raise_if, ◌>>=◌, ◌>>◌, >>=-eq-ok, >>-eq-ok, ◌≡◌, refl, sym, ap, ◌∙◌, ◌≢◌, Bool-cases,
  Option-cases, inl, inr,
}
use joiny_mnemonic.Store.{Event, Receipt, Store, initial, Externals, integrity_error}
use joiny_mnemonic.Store.Append.{NewEvent, Stamp, append_event_in_tx, start_session}
use joiny_mnemonic.Store.Lineage.{find_branch, create_branch}
use joiny_mnemonic.Store.Ingest.{
  Draft, Ingress, new_event, find_receipt, receipt_events, append_batch, replay_receipt,
  write_batch, append_events_once_in,
}
use joiny_mnemonic.Store.Sound.{
  IsSound, initial-IsSound, append_event_in_tx-Appended, create_branch-Created,
}
use joiny_mnemonic.Store.History.{append_event_in_tx-IsSound, create_branch-IsSound}
use joiny_mnemonic.Store.Verify.{verify_chain}
use joiny_mnemonic.Store.Verify.Append.{verify_chain-append}

-- One write; the channel of an event is one that the code still writes.
pub data Write (x : Externals) : Store → Store → Type 0 where
  forked :
      {s s' : Store} (branch parent : String) (at : Option ℕ)
      → create_branch s branch parent at ≡ ok s'
      → Write x s s'
  opened :
      {s s' : Store} (session branch : String)
      → start_session s session branch ≡ ok s'
      → Write x s s'
  appended :
      {s s' : Store} (n : NewEvent) (stamp : Stamp) (e : Event)
      → n.origin_channel ≢ "legacy_untrusted"
      → append_event_in_tx x s n stamp ≡ ok (s', e)
      → Write x s s'
  ingested :
      {s s' : Store} (key : String) (i : Ingress) (batch : List (Draft × Stamp)) (es : List Event)
      (new : Bool)
      → i.origin_channel ≢ "legacy_untrusted"
      → append_events_once_in x s key i batch ≡ ok (s', es, new)
      → Write x s s'

pub data Writes (x : Externals) : Store → Store → Type 0 where
  done : {s : Store} → Writes x s s
  after : {s t u : Store} → Writes x s t → Write x t u → Writes x s u

-- What holds of a store and is kept by every append through a channel, is kept by a batch.
pub append_batch_ind :
    (x : Externals) (P : Store → Type 0) (i : Ingress)
    → ((s : Store) (d : Draft) (stamp : Stamp) (s' : Store) (e : Event)
        → P s
        → append_event_in_tx x s (new_event i d) stamp ≡ ok (s', e)
        → P s')
    → (s : Store) (batch : List (Draft × Stamp)) (s' : Store) (es : List Event) → P s
    → append_batch x s i batch ≡ ok (s', es)
    → P s'
unfolding append_batch
append_batch_ind x P i keeps s [] s' es p h = let same : s ≡ s' = cc h in subst P same p
append_batch_ind x P i keeps s ((d, stamp) ∷ batch) s' es p h =
    let (made, one, h₁) = >>=-eq-ok (append_event_in_tx x s (new_event i d) stamp) _ h in
    let (rest, more, h₂) = >>=-eq-ok (append_batch x made.0 i batch) _ h₁ in
    let same : rest.0 ≡ s' = cc h₂ in
    let p₁ = keeps s d stamp made.0 made.1 p one in
    subst P same (append_batch_ind x P i keeps made.0 batch rest.0 rest.1 p₁ more)

module _ (x : Externals) (P : Store → Type 0) (i : Ingress)
    (keeps : (s : Store) (d : Draft) (stamp : Stamp) (s' : Store) (e : Event)
      → P s
      → append_event_in_tx x s (new_event i d) stamp ≡ ok (s', e)
      → P s')
    (receipts : (s : Store) (rs : List Receipt) → P s → P (record s { receipts = rs })) where
  replay_receipt_ind :
      (s : Store) (r : Receipt) (s' : Store) (es : List Event) (new : Bool)
      → P s
      → replay_receipt x s r ≡ ok (s', es, new)
      → P s'
  unfolding replay_receipt
  replay_receipt_ind s r s' es new p h =
      let (found, _, h₁) = >>=-eq-ok (receipt_events s.events r.event_ids) _ h in
      let same : s ≡ s' = cc h₁ in subst P same p

  write_batch_ind :
      (s : Store) (key : String) (batch : List (Draft × Stamp)) (s' : Store) (es : List Event)
      (new : Bool)
      → P s
      → write_batch x s key i batch ≡ ok (s', es, new)
      → P s'
  unfolding write_batch
  write_batch_ind s key batch s' es new p h =
      let (made, wrote, h₁) = >>=-eq-ok (append_batch x s i batch) _ h in
      let p₁ = append_batch_ind x P i keeps s batch made.0 made.1 p wrote in
      let r : Receipt = record {
        receipt_key = key;
        event_ids = map (λ (e : Event). e.id) made.1;
      } in
      let same : record made.0 { receipts = r ∷ made.0.receipts } ≡ s' = cc h₁ in
      subst P same (receipts made.0 (r ∷ made.0.receipts) p₁)

  pub append_events_once_ind :
      (s : Store) (key : String) (batch : List (Draft × Stamp)) (s' : Store) (es : List Event)
      (new : Bool)
      → P s
      → append_events_once_in x s key i batch ≡ ok (s', es, new)
      → P s'
  unfolding append_events_once_in
  append_events_once_ind s key [] s' es new p h = elim (Bool-cases (key == "")) [
    | inl empty ↦ cc (rw empty at h)
    | inr keyed ↦ cc (rw keyed at h)
  ]
  append_events_once_ind s key (first ∷ batch) s' es new p h = elim (Bool-cases (key == "")) [
    | inl empty ↦ cc (rw empty at h)
    | inr keyed ↦ elim (Option-cases (find_receipt key s.receipts)) [
      | inl fresh ↦ write_batch_ind s key (first ∷ batch) s' es new p (rw (keyed, fresh) at h)
      | inr (r, old) ↦ replay_receipt_ind s r s' es new p (rw (keyed, old) at h)
    ]
  ]

-- A session is a row of its own table.
pub start_session_same :
    (s : Store) (session branch : String) (s' : Store)
    → start_session s session branch ≡ ok s'
    → (rows : _) × (record s { sessions = rows } ≡ s')
unfolding start_session
start_session_same s session branch s' h = elim (Option-cases (find_branch branch s.branches)) [
  | inl missing ↦ cc (rw (start_session, missing) at h)
  | inr (row, found) ↦
      let made = record s { sessions = record { id = session; branch_id = branch } ∷ s.sessions } in
      let (_, h₁) =
        >>-eq-ok (raise_if (any (λ v. v.id == session) s.sessions) integrity_error) (ok made)
          (rw (start_session, found) at h) in
      (record { id = session; branch_id = branch } ∷ s.sessions, cc h₁)
]

Write-IsSound : {x : Externals} {s s' : Store} → Write x s s' → IsSound s → IsSound s'
Write-IsSound {s = s} {s' = s'} (forked branch parent at h) sound =
    create_branch-IsSound s branch parent at s' sound h
Write-IsSound {s = s} {s' = s'} (opened session branch h) sound =
    let (rows, same) = start_session_same s session branch s' h in
    subst IsSound same (record {
      forest = sound.forest;
      ordered = sound.ordered;
      forks = sound.forks;
      placed = sound.placed;
    })
Write-IsSound {x} {s} {s'} (appended n stamp e live h) sound =
    append_event_in_tx-IsSound x s n stamp s' e sound h
Write-IsSound {x} {s} {s'} (ingested key i batch es new live h) sound =
    append_events_once_ind x IsSound i
      (λ t d stamp t' e p k. append_event_in_tx-IsSound x t (new_event i d) stamp t' e p k)
      (λ t rs p. record {
        forest = p.forest;
        ordered = p.ordered;
        forks = p.forks;
        placed = p.placed;
      })
      s key batch s' es new sound h

-- Every store that the writes build from the new database, in any order and with any arguments, is
-- well formed: its branches are a forest whose forks lie in the past, its events are in order, and
-- each lies in a branch that exists.
pub Writes-IsSound : {x : Externals} {s : Store} → Writes x initial s → IsSound s
Writes-IsSound done = initial-IsSound
Writes-IsSound (after ws w) = Write-IsSound w (Writes-IsSound ws)
