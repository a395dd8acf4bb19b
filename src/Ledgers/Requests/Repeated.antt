-- ===== src/Ledgers/Requests/Repeated.antt =====
-- Requests of src/joiny_mnemonic/storage.py that are made again: nothing is written twice.
use mathlib.Core.Path.{subst}
use joiny_mnemonic.Prelude.{
  String, true, false, not, ◌||◌, some, List, [], ◌∷◌, ◌==◌, string_eq, any, elem, ok, raise_if,
  recast, recast-eq-ok, >>=-eq-ok, >>-eq-ok, ◌≡◌, refl, sym, ap, ◌∙◌, arith, Bool-cases,
  Option-cases, inl, inr, beq_refl, ne_of_beq,
}
use joiny_mnemonic.Transitions.{candidate_rule}
use joiny_mnemonic.Store.{Event, Externals, integrity_error}
use joiny_mnemonic.Store.Append.{append_event_in_tx}
use joiny_mnemonic.Store.Ingest.{find_event}
use joiny_mnemonic.Store.Sound.{append_event_in_tx-Appended}
use joiny_mnemonic.Store.Retry.{find_event-snoc_new, unused_id}
use joiny_mnemonic.Ledgers.{CandidateTransition, Ledgers, store_error}
use joiny_mnemonic.Ledgers.Candidates.{
  Change, candidate_status, has_replacements, joined, gate, candidate_row, insert_candidate,
}
use joiny_mnemonic.Ledgers.Candidates.Gated.{Gated, AreGated, gate-cases, IsPermitted-Gated}
use joiny_mnemonic.Ledgers.Requests.{
  Draws, latest_candidate_transition, CandidateRequest, request_statuses, request_event,
  request_change, made_before, undelegated, record_request, new_request, request_from,
  append_candidate_request,
}

-- The row that a request finds when it is made again
record Made (l : Ledgers) (q : CandidateRequest) (e : Event) (id : String) : Type 0 where
  latest : CandidateTransition
  at : latest_candidate_transition q.candidate_id l.candidate_transitions ≡ some latest
  status : (latest.to_status == q.request_status) ≡ true
  found : find_event latest.source_event_id l.store.events ≡ some e
  is_id : latest.id ≡ id

made_before-some :
    (l : Ledgers) (source id : String) (e : Event)
    → find_event source l.store.events ≡ some e
    → made_before l source id ≡ ok (l, e, id)
unfolding made_before
made_before-some l source id e h = rw (made_before, h)

candidate_status-latest :
    (id : String) (ts : List CandidateTransition) (t : CandidateTransition)
    → latest_candidate_transition id ts ≡ some t
    → candidate_status id ts ≡ some t.to_status
unfolding candidate_status latest_candidate_transition
candidate_status-latest id [] t at = cc
candidate_status-latest id (u ∷ ts) t at = ground (arith, candidate_status-latest id ts t)

-- One new row, gated, in front of the rows that were there
record Requested (casefold : String → String) (l : Ledgers) (q : CandidateRequest)
    (current : String) (e : Event) (l' : Ledgers) (id : String) : Type 0 where
  row : CandidateTransition
  is_row : candidate_row casefold (request_change q e id) current e ≡ row
  gated : (current == q.request_status) ≡ false → Gated candidate_rule false row
  tables : record l { candidate_transitions = row ∷ l.candidate_transitions } ≡ l'

module _ (casefold : String → String) (x : Externals) where
  record_request-Requested :
      (l : Ledgers) (q : CandidateRequest) (current branch : String) (e : Event) (drawn : String)
      (l' : Ledgers) (f : Event) (id : String)
      → record_request casefold x l q current branch e drawn ≡ ok (l', f, id)
      → (e ≡ f) × (drawn ≡ id) × Requested casefold l q current e l' drawn
  unfolding record_request insert_candidate
  record_request-Requested l q current branch e drawn l' f id h =
      let c : Change = request_change q e drawn in
      let row = candidate_row casefold c current e in
      let u = undelegated casefold x l in
      let (d, passed, h₁) =
        >>=-eq-ok (gate casefold u candidate_rule e branch current q.request_status false) _ h in
      let bad = not (has_replacements l c) || any (λ t. t.id == row.id) l.candidate_transitions in
      let made = record l { candidate_transitions = row ∷ l.candidate_transitions } in
      let (p, inserted, h₂) =
        >>=-eq-ok (insert_candidate casefold l row (has_replacements l c)) _ h₁ in
      let (_, h₃) =
        >>-eq-ok (raise_if bad (store_error integrity_error)) (ok (made, some row.id)) inserted in
      let tables : made ≡ p.0 = cc h₃ in
      let last : p.0 ≡ l' = cc h₂ in
      (
        cc h₂,
        cc h₂,
        record {
          row = row;
          is_row = refl;
          gated = λ moves.
              elim (gate-cases casefold u candidate_rule e branch current q.request_status false d
                passed).1 [
                  | inl (_, permitted) ↦
                      IsPermitted-Gated casefold u candidate_rule c current e false permitted
                  | inr (_, same) ↦ absurd (ne_of_beq current q.request_status moves same)
                ];
          tables = tables ∙ last;
        },
      )

  new_request-Made :
      (l : Ledgers) (q : CandidateRequest) (current : String) (drawn : Draws) (l' : Ledgers)
      (f : Event) (id : String)
      → candidate_status q.candidate_id l.candidate_transitions ≡ some current
      → (current == q.request_status) ≡ false
      → new_request casefold x l q current drawn ≡ ok (l', f, id)
      → Made l' q f id × (AreGated l.candidate_transitions → AreGated l'.candidate_transitions)
  unfolding new_request latest_candidate_transition
  new_request-Made l q current drawn l' f id was moves h =
      elim (Option-cases (joined l q.candidate_id)) [
        | inl apart ↦ cc (rw (new_request, apart) at h)
        | inr (row, at) ↦
            let (p, wrote, h₁) =
              >>=-eq-ok
                (recast store_error (append_event_in_tx x l.store (request_event q) drawn.event)) _
                (rw (new_request, at) at h) in
            let a = append_event_in_tx-Appended x l.store (request_event q) drawn.event p.0 p.1 (
              recast-eq-ok store_error (append_event_in_tx x l.store (request_event q) drawn.event)
                wrote) in
            let (same, is_id, r) =
              record_request-Requested (record l { store = p.0 }) q current row.1.branch_id p.1
                drawn.transition_id l' f id h₁ in
            let kept : find_event p.1.id p.0.events ≡ some p.1 =
              rw a.store
                (find_event-snoc_new l.store.events p.1 (unused_id l.store.events p.1 a.unused)) in
            (
              subst (λ (v : Ledgers). Made v q f id) r.tables
                  (record {
                    latest = r.row;
                    at = rw (← r.is_row) (rw (beq_refl q.candidate_id));
                    status = rw (← r.is_row) (beq_refl q.request_status);
                    found = rw (← r.is_row, ← same) kept;
                    is_id = rw (← r.is_row) is_id;
                  }),
              (λ all.
                  subst (λ (v : Ledgers). AreGated v.candidate_transitions) r.tables
                    (inr (inl (rw (← r.is_row) (sym was), r.gated moves)), all)),
            )
      ]

  request_from-Made :
      (l : Ledgers) (q : CandidateRequest) (drawn : Draws) (l' : Ledgers) (f : Event) (id : String)
      → request_from casefold x l q drawn
          (latest_candidate_transition q.candidate_id l.candidate_transitions)
        ≡ ok (l', f, id)
      → Made l' q f id × (AreGated l.candidate_transitions → AreGated l'.candidate_transitions)
  unfolding request_from made_before
  request_from-Made l q drawn l' f id h =
      elim (Option-cases (latest_candidate_transition q.candidate_id l.candidate_transitions)) [
        | inl unknown ↦ cc (rw (unknown, request_from) at h)
        | inr (t, at) ↦ elim (Bool-cases (t.to_status == q.request_status)) [
          | inr moves ↦
              new_request-Made l q t.to_status drawn l' f id
                (candidate_status-latest q.candidate_id l.candidate_transitions t at) moves
                (rw (at, request_from, moves) at h)
          | inl asked ↦ elim (Option-cases (find_event t.source_event_id l.store.events)) [
            | inl missing ↦ cc (rw (at, request_from, asked, made_before, missing) at h)
            | inr (e, found) ↦
                let h₁ = rw (at, request_from, asked, made_before, found) at h in
                let same : l ≡ l' = cc h₁ in
                let event : e ≡ f = cc h₁ in
                (
                  subst (λ (v : Ledgers). Made v q f id) same
                      (record {
                        latest = t;
                        at = at;
                        status = asked;
                        found = found ∙ ap some event;
                        is_id = cc h₁;
                      }),
                  (λ all. subst (λ (v : Ledgers). AreGated v.candidate_transitions) same all),
                )
          ]
        ]
      ]

  -- A candidate request that is made again returns the same event and the same transition, and
  -- leaves the log and the ledgers as they are, whatever identifiers the second call draws.
  pub append_candidate_request-again :
      (l : Ledgers) (q : CandidateRequest) (drawn : Draws) (l' : Ledgers) (e : Event) (id : String)
      (again : Draws)
      → append_candidate_request casefold x l q drawn ≡ ok (l', e, id)
      → append_candidate_request casefold x l' q again ≡ ok (l', e, id)
  unfolding append_candidate_request request_from
  append_candidate_request-again l q drawn l' e id again h =
      elim (Bool-cases (elem q.request_status request_statuses)) [
        | inr unsupported ↦ cc (rw (append_candidate_request, unsupported) at h)
        | inl supported ↦
            let (m, _) =
              request_from-Made l q drawn l' e id (rw (append_candidate_request, supported) at h) in
            rw (append_candidate_request, supported, m.at, request_from, m.status)
              (made_before-some l' m.latest.source_event_id m.latest.id e m.found
                ∙ ap (λ v. ok (l', e, v)) m.is_id)
      ]

  -- Where each row of the candidate ledger either names no status before it and is the first of its
  -- candidate, or names the status that the rows before it give its candidate (for a settlement,
  -- `pending` where they give none or a blank one), is a move that the flow table of candidates or of
  -- settlements has, and records a protected status only with a trusted origin or, for a settlement,
  -- with the process itself as the actor, this is still so after a candidate request.
  pub append_candidate_request-IsGated :
      (l : Ledgers) (q : CandidateRequest) (drawn : Draws) (l' : Ledgers) (e : Event) (id : String)
      → append_candidate_request casefold x l q drawn ≡ ok (l', e, id)
      → AreGated l.candidate_transitions
      → AreGated l'.candidate_transitions
  unfolding append_candidate_request
  append_candidate_request-IsGated l q drawn l' e id h =
      elim (Bool-cases (elem q.request_status request_statuses)) [
        | inr unsupported ↦ cc (rw (append_candidate_request, unsupported) at h)
        | inl supported ↦
            (request_from-Made l q drawn l' e id (rw (append_candidate_request, supported) at h)).1
      ]
