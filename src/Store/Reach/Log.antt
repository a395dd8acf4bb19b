-- ===== src/Store/Reach/Log.antt =====
-- The event log of src/joiny_mnemonic/storage.py under every write: it only grows, and it verifies.
use mathlib.Core.List.{append-nil, append_assoc}
use joiny_mnemonic.Prelude.{none, List, [], ◌∷◌, ◌++◌, ok, ◌≡◌, refl, sym, ap, ◌∙◌}
use joiny_mnemonic.Store.{Event, Store, initial, Externals}
use joiny_mnemonic.Store.Append.{append_event_in_tx}
use joiny_mnemonic.Store.Ingest.{new_event}
use joiny_mnemonic.Store.Sound.{append_event_in_tx-Appended, create_branch-Created}
use joiny_mnemonic.Store.Verify.{verify_chain, verify_rows, verify_artifacts, verify_views}
use joiny_mnemonic.Store.Verify.Append.{verify_chain-append}
use joiny_mnemonic.Store.Reach.{
  Write, forked, opened, appended, ingested, Writes, done, after, append_events_once_ind,
  start_session_same,
}

-- What the log of `s'` holds beyond that of `s`
abbrev pub Extends : Store → Store → Type 0
Extends s s' = (more : List Event) × (s'.events ≡ s.events ++ more)

Extends-same : (s s' : Store) → s'.events ≡ s.events → Extends s s'
Extends-same s s' h = ([], h ∙ sym (append-nil s.events))

Extends-trans : (s t u : Store) → Extends s t → Extends t u → Extends s u
Extends-trans s t u (m, e) (n, f) = (m ++ n, f ∙ ap (λ v. v ++ n) e ∙ append_assoc s.events m n)

append-Extends :
    (x : Externals) (s : Store) (n : _) (stamp : _) (s' : Store) (e : Event)
    → append_event_in_tx x s n stamp ≡ ok (s', e)
    → Extends s s'
append-Extends x s n stamp s' e h =
    let a = append_event_in_tx-Appended x s n stamp s' e h in
    (e ∷ [], ap (λ (v : Store). v.events) a.store)

Write-Extends : {x : Externals} {s s' : Store} → Write x s s' → Extends s s'
Write-Extends {s = s} {s' = s'} (forked branch parent at h) =
    Extends-same s s'
      (ap (λ (v : Store). v.events) (create_branch-Created s branch parent at s' h).store)
Write-Extends {s = s} {s' = s'} (opened session branch h) =
    Extends-same s s'
      (ap (λ (v : Store). v.events) (sym (start_session_same s session branch s' h).1))
Write-Extends {x} {s} {s'} (appended n stamp e live h) = append-Extends x s n stamp s' e h
Write-Extends {x} {s} {s'} (ingested key i batch es new live h) =
    append_events_once_ind x (Extends s) i
      (λ t d stamp t' e p k.
        Extends-trans s t t' p (append-Extends x t (new_event i d) stamp t' e k))
      (λ t rs p. p) s key batch s' es new (Extends-same s s refl) h

-- The log is append-only: after any writes it still begins with all the events that it held, each
-- as it was and in the same place.
pub Writes-Extends : {x : Externals} {s s' : Store} → Writes x s s' → Extends s s'
Writes-Extends {s = s} done = Extends-same s s refl
Writes-Extends {s = s} {s' = u} (after {t = t} ws w) =
    Extends-trans s t u (Writes-Extends ws) (Write-Extends w)

abbrev IsVerified : Externals → Store → Type 0
IsVerified x s = verify_chain x s [] [] ≡ none

IsVerified-same :
    (x : Externals) (s s' : Store) → s.events ≡ s'.events → IsVerified x s → IsVerified x s'
unfolding verify_chain verify_views
IsVerified-same x s s' same h = rw (verify_chain, ← same) h

Write-IsVerified : {x : Externals} {s s' : Store} → Write x s s' → IsVerified x s → IsVerified x s'
Write-IsVerified {x} {s} {s'} (forked branch parent at h) v =
    IsVerified-same x s s'
      (sym (ap (λ (v : Store). v.events) (create_branch-Created s branch parent at s' h).store)) v
Write-IsVerified {x} {s} {s'} (opened session branch h) v =
    IsVerified-same x s s'
      (ap (λ (v : Store). v.events) (start_session_same s session branch s' h).1) v
Write-IsVerified {x} {s} {s'} (appended n stamp e live h) v =
    verify_chain-append x s n stamp s' e [] [] v tt live h
Write-IsVerified {x} {s} {s'} (ingested key i batch es new live h) v =
    append_events_once_ind x (IsVerified x) i
      (λ t d stamp t' e p k. verify_chain-append x t (new_event i d) stamp t' e [] [] p tt live k)
      (λ t rs p. IsVerified-same x t (record t { receipts = rs }) refl p) s key batch s' es new v h

-- Every log that the writes build from the new database passes `verify_chain`, where there is no
-- artifact and no tool view.
pub Writes-verify_chain :
    {x : Externals} {s : Store} → Writes x initial s → verify_chain x s [] [] ≡ none
unfolding verify_chain verify_rows verify_artifacts verify_views
Writes-verify_chain done = refl
Writes-verify_chain (after ws w) = Write-IsVerified w (Writes-verify_chain ws)
