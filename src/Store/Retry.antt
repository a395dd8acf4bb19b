-- ===== src/Store/Retry.antt =====
-- The receipts of `_append_events_once`: a retry returns the original events and writes nothing.
use mathlib.Core.Path.{subst, subst₂}
use joiny_mnemonic.Prelude.{
  String, true, false, ◌||◌, none, some, List, [], ◌∷◌, ◌++◌, map, ◌==◌, string_eq, any, ok,
  >>=-eq-ok, ◌≡◌, refl, ap, ◌∙◌, arith, Bool-cases, Option-cases, inl, inr, beq_refl,
}
use joiny_mnemonic.Store.{Event, Receipt, Store, Externals}
use joiny_mnemonic.Store.Append.{NewEvent, Stamp, append_event_in_tx}
use joiny_mnemonic.Store.Ingest.{
  Draft, Ingress, new_event, find_receipt, find_event, receipt_events, append_batch, replay_receipt,
  write_batch, append_events_once_in,
}
use joiny_mnemonic.Store.Sound.{Appended, append_event_in_tx-Appended}

pub unused_id :
    (es : List Event) (e : Event)
    → any (λ old. old.id == e.id || old.chain_hash == e.chain_hash) es ≡ false
    → find_event e.id es ≡ none
unfolding find_event
unused_id [] e h = refl
unused_id (f ∷ es) e h = ground (arith, unused_id es e)

pub find_event-snoc_new :
    (es : List Event) (e : Event)
    → find_event e.id es ≡ none
    → find_event e.id (es ++ e ∷ []) ≡ some e
unfolding find_event
find_event-snoc_new [] e h = rw (beq_refl e.id)
find_event-snoc_new (f ∷ es) e h = elim (Bool-cases (f.id == e.id)) [
  | inl same ↦ cc (rw same at h)
  | inr other ↦ rw other (find_event-snoc_new es e (rw other at h))
]

find_event-snoc_old :
    (id : String) (es : List Event) (e : Event) (f : Event)
    → find_event id es ≡ some f
    → find_event id (es ++ e ∷ []) ≡ some f
unfolding find_event
find_event-snoc_old id [] e f h = cc h
find_event-snoc_old id (g ∷ es) e f h = elim (Bool-cases (g.id == id)) [
  | inl here ↦ rw here (rw here at h)
  | inr later ↦ rw later (find_event-snoc_old id es e f (rw later at h))
]

-- A batch keeps what is found in the table, and leaves the receipts alone.
record Batched (s s' : Store) (es : List Event) : Type 0 where
  keeps :
      (id : String) (f : Event) → find_event id s.events ≡ some f → find_event id s'.events ≡ some f
  names : receipt_events s'.events (map (λ e. e.id) es) ≡ ok es
  receipts : s'.receipts ≡ s.receipts

Batched-nil : (s : Store) → Batched s s []
unfolding receipt_events
Batched-nil s = record { keeps = λ id f h. h; names = refl; receipts = refl }

Batched-cons :
    (x : Externals) (s : Store) (n : NewEvent) (stamp : Stamp) (s₁ s₂ : Store) (e : Event)
    (es : List Event)
    → Appended x s n stamp s₁ e
    → Batched s₁ s₂ es
    → Batched s s₂ (e ∷ es)
unfolding receipt_events
Batched-cons x s n stamp s₁ s₂ e es a b =
    let found : find_event e.id s₁.events ≡ some e =
      rw a.store (find_event-snoc_new s.events e (unused_id s.events e a.unused)) in
    record {
      keeps = λ id f h. b.keeps id f (rw a.store (find_event-snoc_old id s.events e f h));
      names = rw (b.keeps e.id e found, receipt_events) (rw b.names);
      receipts = b.receipts ∙ ap (λ (v : Store). v.receipts) a.store;
    }

append_batch-Batched :
    (x : Externals) (s : Store) (i : Ingress) (batch : List (Draft × Stamp)) (s' : Store)
    (es : List Event)
    → append_batch x s i batch ≡ ok (s', es)
    → Batched s s' es
unfolding append_batch
append_batch-Batched x s i [] s' es h =
    let same : s ≡ s' = cc h in
    let none' : [] ≡ es = cc h in subst₂ (λ v w. Batched s v w) same none' (Batched-nil s)
append_batch-Batched x s i ((draft, stamp) ∷ batch) s' es h =
    let (p, made, h₁) = >>=-eq-ok (append_event_in_tx x s (new_event i draft) stamp) _ h in
    let (r, rest, h₂) = >>=-eq-ok (append_batch x p.0 i batch) _ h₁ in
    let whole =
      Batched-cons x s (new_event i draft) stamp p.0 r.0 p.1 r.1
        (append_event_in_tx-Appended x s (new_event i draft) stamp p.0 p.1 made)
        (append_batch-Batched x p.0 i batch r.0 r.1 rest) in
    let same : r.0 ≡ s' = cc h₂ in
    let all : p.1 ∷ r.1 ≡ es = cc h₂ in subst₂ (λ v w. Batched s v w) same all whole

-- What writing a new batch did: the rows of the batch and a receipt that names them.
record Written (x : Externals) (s : Store) (key : String) (s' : Store) (es : List Event)
    : Type 0 where
  kept : Store
  batched : Batched s kept es
  store :
      record kept {
        receipts = record { receipt_key = key; event_ids = map (λ e. e.id) es } ∷ kept.receipts;
      }
      ≡ s'

write_batch-Written :
    (x : Externals) (s : Store) (key : String) (i : Ingress) (batch : List (Draft × Stamp))
    (s' : Store) (es : List Event)
    → write_batch x s key i batch ≡ ok (s', es, true)
    → Written x s key s' es
unfolding write_batch
write_batch-Written x s key i batch s' es h =
    let (p, made, h₁) = >>=-eq-ok (append_batch x s i batch) _ h in
    let same : p.1 ≡ es = cc h₁ in
    let store : record p.0 {
      receipts = record { receipt_key = key; event_ids = map (λ e. e.id) p.1 } ∷ p.0.receipts;
    }
        ≡ s' =
      cc h₁ in
    subst (Written x s key s') same (record {
      kept = p.0;
      batched = append_batch-Batched x s i batch p.0 p.1 made;
      store = store;
    })

replay_receipt_old :
    (x : Externals) (s : Store) (r : Receipt) (s' : Store) (es : List Event)
    → ¬ (replay_receipt x s r ≡ ok (s', es, true))
unfolding replay_receipt
replay_receipt_old x s r s' es h =
    let (_, _, h₁) = >>=-eq-ok (receipt_events s.events r.event_ids) _ h in cc h₁

-- A call that appended had a key, no receipt under it, and wrote the batch.
once-Written :
    (x : Externals) (s : Store) (key : String) (i : Ingress) (batch : List (Draft × Stamp))
    (s' : Store) (es : List Event)
    → append_events_once_in x s key i batch ≡ ok (s', es, true)
    → ((key == "") ≡ false) × Written x s key s' es
unfolding append_events_once_in
once-Written x s key i [] s' es h = elim (Bool-cases (key == "")) [
  | inl empty ↦ cc (rw empty at h)
  | inr keyed ↦ cc (rw keyed at h)
]
once-Written x s key i (first ∷ batch) s' es h = elim (Bool-cases (key == "")) [
  | inl empty ↦ cc (rw empty at h)
  | inr keyed ↦ elim (Option-cases (find_receipt key s.receipts)) [
    | inl new ↦ (keyed, write_batch-Written x s key i (first ∷ batch) s' es (rw (keyed, new) at h))
    | inr (r, old) ↦ absurd (replay_receipt_old x s r s' es (rw (keyed, old) at h))
  ]
]

abbrev with_receipt : Store → String → List Event → Store
with_receipt kept key es = record kept {
  receipts = record { receipt_key = key; event_ids = map (λ e. e.id) es } ∷ kept.receipts;
}

replay_receipt-with_receipt :
    (x : Externals) (kept : Store) (key : String) (es : List Event)
    → receipt_events kept.events (map (λ e. e.id) es) ≡ ok es
    → replay_receipt x
        (with_receipt kept key es)
        (record { receipt_key = key; event_ids = map (λ e. e.id) es })
      ≡ ok (with_receipt kept key es, es, false)
unfolding replay_receipt
replay_receipt-with_receipt x kept key es h = rw h refl

once-with_receipt :
    (x : Externals) (kept : Store) (key : String) (es : List Event) (j : Ingress)
    (first : Draft × Stamp) (retry : List (Draft × Stamp))
    → ((key == "") ≡ false)
    → receipt_events kept.events (map (λ e. e.id) es) ≡ ok es
    → append_events_once_in x (with_receipt kept key es) key j (first ∷ retry)
      ≡ ok (with_receipt kept key es, es, false)
unfolding append_events_once_in find_receipt
once-with_receipt x kept key es j first retry keyed h =
    rw (keyed, beq_refl key) (replay_receipt-with_receipt x kept key es h)

-- After a call that appended a batch, a call under the same key with any non-empty batch, from any
-- channel, returns the same events in the same order, leaves the store as it is, and answers that
-- nothing was appended.
pub append_events_once_retry :
    (x : Externals) (s : Store) (key : String) (i : Ingress) (batch : List (Draft × Stamp))
    (s' : Store) (es : List Event) (j : Ingress) (draft : Draft) (stamp : Stamp)
    (retry : List (Draft × Stamp))
    → append_events_once_in x s key i batch ≡ ok (s', es, true)
    → append_events_once_in x s' key j ((draft, stamp) ∷ retry) ≡ ok (s', es, false)
append_events_once_retry x s key i batch s' es j draft stamp retry h =
    let (keyed, w) = once-Written x s key i batch s' es h in
    subst (λ v. append_events_once_in x v key j ((draft, stamp) ∷ retry) ≡ ok (v, es, false))
      w.store (once-with_receipt x w.kept key es j (draft, stamp) retry keyed w.batched.names)
