-- ===== src/Extraction/Commit/Rounds.antt =====
-- What a round of `commit_extraction_success` in src/joiny_mnemonic/storage.py did, and what every round keeps.
use joiny_mnemonic.Prelude.{
  String, true, false, not, some, List, [], ◌∷◌, ◌++◌, ◌==◌, string_eq, any, ok, raise_if, recast,
  >>=-eq-ok, >>-eq-ok, raise_if-eq-ok, recast-eq-ok, if◌then◌else◌, ◌≡◌, ap, ◌∙◌, Bool-cases,
  Option-cases, inl, inr,
}
use mathlib.Core.Path.{subst}
use joiny_mnemonic.Store.{Event, Store, Externals}
use joiny_mnemonic.Store.Append.{append_event_in_tx}
use joiny_mnemonic.Memory.{Memory}
use joiny_mnemonic.Extraction.Commit.{
  ValidatedCandidate, Tables, CandidateStamp, Commit, MemoryLink, Words, store_error,
  integrity_error, existing_auto_memory, insert_transition, insert_link, is_ignored, same_link,
  candidate_row, memory_link,
}
use joiny_mnemonic.Extraction.Commit.Steps.{
  first_status, first_transition, auto_derivation, auto_memory, auto_derive, link_auto,
  commit_candidate,
}

abbrev pub with_link : Tables → MemoryLink → Tables
with_link t l = record t { links = l ∷ t.links }

pub insert_link-eq-ok :
    (t : Tables) (l : MemoryLink) {t' : Tables} → insert_link t l ≡ ok t' → with_link t l ≡ t'
unfolding insert_link
insert_link-eq-ok t l h =
    let (_, k) = >>-eq-ok (raise_if (any (same_link l) t.links) integrity_error) _ h in cc k

module _ (x : Externals) (std : Words) (c : Commit) where
  -- The tables with the rows of a candidate and of its first transition
  abbrev pub recorded :
      List ValidatedCandidate → Tables → ValidatedCandidate → CandidateStamp → Tables
  recorded all t v s = record t {
    candidates = candidate_row c v s ∷ t.candidates;
    transitions = first_transition x std c all v s ∷ t.transitions;
  }

  -- The tables with a derived memory and the log that it wrote
  abbrev pub remembered : Tables → Store → ValidatedCandidate → CandidateStamp → Event → Tables
  remembered t written v s e = record t {
    queue = record t.queue { store = written };
    memories = t.memories ++ auto_memory x std c v s e ∷ [];
  }

  -- The tables after a round that did not raise
  pub data Round (all : List ValidatedCandidate) (t : Tables) (v : ValidatedCandidate)
      (s : CandidateStamp) : Tables → Type 0 where
    ignored : Round all t v s t
    quarantined :
        (first_status x std c all v == "auto") ≡ false → Round all t v s (recorded all t v s)
    supports :
        (m : Memory)
        → (first_status x std c all v == "auto") ≡ true
        → existing_auto_memory std t.memories v.proposed.memory_type v.proposed.normalized_content
          ≡ some m
        → Round all t v s (with_link (recorded all t v s) (memory_link c s m.id "supports"))
    derives :
        (written : Store) (e : Event)
        → (first_status x std c all v == "auto") ≡ true
        → append_event_in_tx x t.queue.store (auto_derivation x std c v s) s.event ≡ ok (written, e)
        → any (λ m. m.id == s.memory_id) t.memories ≡ false
        → Round all t v s (
            with_link
              (remembered (recorded all t v s) written v s e)
              (memory_link c s s.memory_id "derived"))

  link_auto-Round :
      (all : List ValidatedCandidate) (t : Tables) (v : ValidatedCandidate) (s : CandidateStamp)
      (t' : Tables)
      → (first_status x std c all v == "auto") ≡ true
      → link_auto x std c (recorded all t v s) v s ≡ ok t'
      → Round all t v s t'
  unfolding link_auto auto_derive
  link_auto-Round all t v s t' auto h =
      elim (Option-cases (
        existing_auto_memory std t.memories v.proposed.memory_type v.proposed.normalized_content)) [
          | inr (m, at) ↦
              subst (Round all t v s)
                (insert_link-eq-ok (recorded all t v s) (memory_link c s m.id "supports")
                  (rw (link_auto, at) at h))
                (supports m auto at)
          | inl missing ↦
              let (derived, call, linked) =
                >>=-eq-ok (auto_derive x std c (recorded all t v s) v s) _
                  (rw (link_auto, missing) at h) in
              let (got, append, rest) =
                >>=-eq-ok
                  (recast store_error
                    (append_event_in_tx x t.queue.store (auto_derivation x std c v s) s.event))
                  _ call in
              let (unused, made) =
                >>-eq-ok (raise_if (any (λ m. m.id == s.memory_id) t.memories) integrity_error) _
                  rest in
              let state : remembered (recorded all t v s) got.0 v s got.1 ≡ derived = cc made in
              let after =
                ap (λ d. with_link d (memory_link c s s.memory_id "derived")) state
                ∙ insert_link-eq-ok derived (memory_link c s s.memory_id "derived") linked in
              subst (Round all t v s) after (
                derives got.0 got.1 auto (recast-eq-ok store_error _ append)
                  (raise_if-eq-ok _ _ unused))
        ]

  pub commit_candidate-Round :
      (all : List ValidatedCandidate) (t : Tables) (v : ValidatedCandidate) (s : CandidateStamp)
      (t' : Tables) (ids : List String)
      → commit_candidate x std c all t v s ≡ ok (t', ids)
      → Round all t v s t'
  unfolding commit_candidate insert_transition
  commit_candidate-Round all t v s t' ids h =
      elim (Bool-cases (any (is_ignored (candidate_row c v s)) t.candidates)) [
        | inl old ↦
            let same : t ≡ t' = cc (rw (commit_candidate, old) at h) in
            subst (Round all t v s) same ignored
        | inr new ↦
            let (t₁, call, rest) =
              >>=-eq-ok
                (insert_transition (record t { candidates = candidate_row c v s ∷ t.candidates })
                  (first_transition x std c all v s))
                _ (rw (commit_candidate, new) at h) in
            let r = first_transition x std c all v s in
            let (_, call₁) =
              >>-eq-ok (raise_if (any (λ old. old.id == r.id) t.transitions) integrity_error) _
                call in
            let (_, call₂) =
              >>-eq-ok
                (raise_if (not (any (λ e. e.id == r.source_event_id) t.queue.store.events))
                  integrity_error)
                _ call₁ in
            let state : recorded all t v s ≡ t₁ = cc call₂ in
            let (t₂, last, end) =
              >>=-eq-ok
                (if first_status x std c all v == "auto" then link_auto x std c t₁ v s else ok t₁) _
                rest in
            let same : t₂ ≡ t' = cc end in
            elim (Bool-cases (first_status x std c all v == "auto")) [
              | inl auto ↦
                  link_auto-Round all t v s t' auto
                    (ap (λ w. link_auto x std c w v s) state ∙ (rw auto at last ∙ ap ok same))
              | inr other ↦
                  subst (Round all t v s) (state ∙ (cc (rw other at last) ∙ same))
                    (quarantined other)
            ]
      ]
