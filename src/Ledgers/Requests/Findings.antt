-- ===== src/Ledgers/Requests/Findings.antt =====
-- `record_security_finding` of src/joiny_mnemonic/storage.py, once for each incident.
use joiny_mnemonic.Prelude.{
  String, Option, some, ◌∷◌, ◌==◌, string_eq, any, ok, raise_if, recast, >>=-eq-ok, >>-eq-ok, ◌≡◌,
  refl, sym, ap, ◌∙◌, Option-cases, inl, inr, beq_refl,
}
use joiny_mnemonic.Json.{Dict}
use joiny_mnemonic.Store.{Externals, integrity_error}
use joiny_mnemonic.Store.Append.{append_event_in_tx}
use joiny_mnemonic.Ledgers.{Finding, FindingTransition, Ledgers, store_error}
use joiny_mnemonic.Ledgers.Candidates.{insert_finding}
use joiny_mnemonic.Ledgers.Requests.{
  Draws, find_incident, finding_event, new_finding_row, first_transition, insert_new_finding,
  finding_from_event, record_security_finding,
}

insert_finding-tables :
    (casefold : String → String) (l : Ledgers) (row : FindingTransition) (l' : Ledgers)
    (r : Option String)
    → insert_finding casefold l row ≡ ok (l', r)
    → record l { finding_transitions = row ∷ l.finding_transitions } ≡ l'
unfolding insert_finding
insert_finding-tables casefold l row l' r h =
    let (_, h₁) =
      >>-eq-ok
        (raise_if (any (λ t. t.id == row.id) l.finding_transitions) (store_error integrity_error))
        (ok (record l { finding_transitions = row ∷ l.finding_transitions }, some row.id)) h in
    cc h₁

-- The incident has a row, of this identifier.
Known : Ledgers → String → String → Type 0
Known l key id = (f : Finding) × (find_incident key l.findings ≡ some f) × (f.id ≡ id)

module _ (casefold : String → String) (x : Externals) where
  insert_new_finding-Known :
      (l : Ledgers) (found : Finding) (first : FindingTransition) (l' : Ledgers) (id : String)
      → insert_new_finding casefold x l found first ≡ ok (l', id)
      → Known l' found.incident_key id
  unfolding insert_new_finding find_incident Known
  insert_new_finding-Known l found first l' id h =
      let (_, h₁) =
        >>-eq-ok (raise_if (any (λ f. f.id == found.id) l.findings) (store_error integrity_error)) _
          h in
      let (p, inserted, h₂) =
        >>=-eq-ok (insert_finding casefold (record l { findings = found ∷ l.findings }) first) _
          h₁ in
      let made =
        insert_finding-tables casefold (record l { findings = found ∷ l.findings }) first p.0 p.1
          inserted in
      let last : p.0 ≡ l' = cc h₂ in
      (
        found,
        ap (λ (v : Ledgers). find_incident found.incident_key v.findings) (sym (made ∙ last))
            ∙ rw (beq_refl found.incident_key) refl,
        cc h₂,
      )

  finding_from_event-Known :
      (l : Ledgers) (finding_type key : String) (details : Dict) (drawn : Draws) (l' : Ledgers)
      (id : String)
      → finding_from_event casefold x l finding_type key details drawn ≡ ok (l', id)
      → Known l' key id
  unfolding finding_from_event
  finding_from_event-Known l finding_type key details drawn l' id h =
      let (p, _, h₁) =
        >>=-eq-ok
          (recast store_error (
            append_event_in_tx x l.store (finding_event casefold x finding_type key details)
              drawn.event))
          _ h in
      insert_new_finding-Known (record l { store = p.0 })
        (new_finding_row casefold x finding_type key details p.1 drawn)
        (first_transition casefold x p.1 drawn) l' id h₁

  recorded-Known :
      (l : Ledgers) (finding_type key : String) (details : Dict) (drawn : Draws) (l' : Ledgers)
      (id : String)
      → record_security_finding casefold x l finding_type key details drawn ≡ ok (l', id)
      → Known l' key id
  unfolding record_security_finding Known
  recorded-Known l finding_type key details drawn l' id h =
      elim (Option-cases (find_incident key l.findings)) [
        | inl new ↦
            finding_from_event-Known l finding_type key details drawn l' id
              (rw (record_security_finding, new) at h)
        | inr (f, old) ↦
            let h₁ = rw (record_security_finding, old) at h in
            let same : l ≡ l' = cc h₁ in
            (f, ap (λ (v : Ledgers). find_incident key v.findings) (sym same) ∙ old, cc h₁)
      ]

  -- An incident that was recorded is not recorded again: a call with its key, and whatever type and
  -- details, returns the identifier of the first finding and leaves the log and the ledgers as they are.
  pub record_security_finding-again :
      (l : Ledgers) (finding_type key : String) (details : Dict) (drawn : Draws) (l' : Ledgers)
      (id : String) (other_type : String) (other : Dict) (again : Draws)
      → record_security_finding casefold x l finding_type key details drawn ≡ ok (l', id)
      → record_security_finding casefold x l' other_type key other again ≡ ok (l', id)
  unfolding record_security_finding Known
  record_security_finding-again l finding_type key details drawn l' id other_type other again h =
      let (f, known, is_id) = recorded-Known l finding_type key details drawn l' id h in
      rw (record_security_finding, known) (ap (λ v. ok (l', v)) is_id)
