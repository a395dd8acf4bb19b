-- ===== src/Extraction/Commit/Kept.antt =====
-- What `commit_extraction_success` in src/joiny_mnemonic/storage.py keeps: the log is well formed, and the event
-- is done with.
use mathlib.Core.Path.{subst}
use mathlib.Core.List.{Memᴰ}
use joiny_mnemonic.Prelude.{
  ℕ, String, Bool, true, false, not, ◌||◌, Option, some, List, [], ◌∷◌, map, ◌==◌, string_eq,
  nat_eq, any, ok, raise_if, recast, >>=-eq-ok, >>-eq-ok, recast-eq-ok, ◌≡◌, refl, sym, ap, arith,
  Bool-cases, inl, inr, beq_refl,
}
use joiny_mnemonic.Store.{Externals}
use joiny_mnemonic.Store.Sound.{IsSound, append_event_in_tx-Appended, Appended-IsSound}
use joiny_mnemonic.Extraction.Queue.{Run, Attempt, Queue, find_run, is_refused, insert_attempt}
use joiny_mnemonic.Extraction.Queue.Pending.{pending_extraction_events}
use joiny_mnemonic.Extraction.Queue.Settled.{
  IsProcessed, Later, pending_extraction_events-processed,
}
use joiny_mnemonic.Extraction.Commit.{
  ValidatedCandidate, Tables, Rejected, CandidateStamp, Commit, Words, queue_error, run_mismatch,
  integrity_error, insert_raw, success_attempt, raw_response,
}
use joiny_mnemonic.Extraction.Commit.Steps.{
  auto_derivation, rejection, insert_rejections, is_run_of, commit_candidate, commit_candidates,
  commit_extraction_success,
}
use joiny_mnemonic.Extraction.Commit.Rounds.{
  Round, ignored, quarantined, supports, derives, commit_candidate-Round,
}

-- The tables after the attempt, the raw answer and the rejections were written
pub record Begun (c : Commit) (t t₁ : Tables) : Type 0 where
  pub queue : t₁.queue ≡ record t.queue { attempts = success_attempt c ∷ t.queue.attempts }
  pub candidates : t₁.candidates ≡ t.candidates
  pub transitions : t₁.transitions ≡ t.transitions
  pub memories : t₁.memories ≡ t.memories
  pub links : t₁.links ≡ t.links

pub insert_attempt-eq-ok :
    (q : Queue) (a : Attempt) {q' : Queue}
    → insert_attempt q a ≡ ok q'
    → q' ≡ record q { attempts = a ∷ q.attempts }
unfolding insert_attempt
insert_attempt-eq-ok q a h = elim (Bool-cases (is_refused q a)) [
  | inl refused ↦ cc (rw (insert_attempt, refused) at h)
  | inr free ↦ cc (rw (insert_attempt, free) at h)
]

module _ (x : Externals) (std : Words) (c : Commit) where
  -- What holds before the loop and is kept by each round holds after it.
  pub commit_candidates_ind {ℓ} :
      (P : Tables → Type ℓ) (all : List ValidatedCandidate)
      (ps : List (ValidatedCandidate × CandidateStamp))
      → ((v : ValidatedCandidate) (s : CandidateStamp) (t t' : Tables)
          → Memᴰ (v, s) ps
          → Round x std c all t v s t'
          → P t
          → P t')
      → (t t' : Tables) (ids : List String) → commit_candidates x std c all t ps ≡ ok (t', ids)
      → P t
      → P t'
  unfolding commit_candidates
  commit_candidates_ind P all [] keeps t t' ids h p = let same : t ≡ t' = cc h in subst P same p
  commit_candidates_ind P all ((v, s) ∷ ps) keeps t t' ids h p =
      let (got, call, rest) = >>=-eq-ok (commit_candidate x std c all t v s) _ h in
      let (last, loop, end) = >>=-eq-ok (commit_candidates x std c all got.0 ps) _ rest in
      let same : last.0 ≡ t' = cc end in
      subst P same (
        commit_candidates_ind P all ps (λ w z u u' m. keeps w z u u' (Memᴰ.tail m)) got.0 last.0
          last.1 loop
          (keeps v s t got.0 (Memᴰ.head refl)
            (commit_candidate-Round x std c all t v s got.0 got.1 call) p))

  insert_rejections-Begun :
      (t t₁ t₂ : Tables) (rs : List Rejected)
      → Begun c t t₁
      → insert_rejections x std c t₁ rs ≡ ok t₂
      → Begun c t t₂
  unfolding insert_rejections
  insert_rejections-Begun t t₁ t₂ [] b h = let same : t₁ ≡ t₂ = cc h in subst (Begun c t) same b
  insert_rejections-Begun t t₁ t₂ (r ∷ rs) b h =
      elim (Bool-cases (any (λ old. old.id == r.id) t₁.rejections)) [
        | inl taken ↦ cc (rw (insert_rejections, taken) at h)
        | inr free ↦
            insert_rejections-Begun t
              (record t₁ { rejections = rejection x std c r ∷ t₁.rejections }) t₂ rs
              (record {
                queue = b.queue;
                candidates = b.candidates;
                transitions = b.transitions;
                memories = b.memories;
                links = b.links;
              })
              (rw (insert_rejections, free) at h)
      ]

  -- The call is the loop over the candidates, from the tables with the rows of the attempt.
  pub commit_extraction_success-Begun :
      (t t' : Tables) (ps : List (ValidatedCandidate × CandidateStamp)) (rs : List Rejected)
      (ids : List String)
      → commit_extraction_success x std c t ps rs ≡ ok (t', ids)
      → (t₁ : Tables) × Begun c t t₁
        × (commit_candidates x std c (map (λ p. p.0) ps) t₁ ps ≡ ok (t', ids))
        × (any (is_run_of x std c) t.queue.runs ≡ true)
  unfolding commit_extraction_success insert_raw
  commit_extraction_success-Begun t t' ps rs ids h =
      let (known, h₁) =
        >>-eq-ok (raise_if (not (any (is_run_of x std c) t.queue.runs)) run_mismatch) _ h in
      let (q, attempt, h₂) =
        >>=-eq-ok (recast queue_error (insert_attempt t.queue (success_attempt c))) _ h₁ in
      let (raw, written, h₃) =
        >>=-eq-ok (insert_raw (record t { queue = q }) (raw_response c)) _ h₂ in
      let (_, made) =
        >>-eq-ok
          (raise_if
            (any (λ old. old.id == c.raw_id || old.attempt_id == c.attempt_id) t.raw_responses)
            integrity_error)
          _ written in
      let state : record t { queue = q; raw_responses = raw_response c ∷ t.raw_responses } ≡ raw =
        cc made in
      let (t₂, rejected, loop) = >>=-eq-ok (insert_rejections x std c raw rs) _ h₃ in
      let b : Begun c t (record t { queue = q; raw_responses = raw_response c ∷ t.raw_responses }) =
        record {
          queue =
              insert_attempt-eq-ok t.queue (success_attempt c) (recast-eq-ok queue_error _ attempt);
          candidates = refl;
          transitions = refl;
          memories = refl;
          links = refl;
        } in
      (
        t₂,
        insert_rejections-Begun t raw t₂ rs (subst (Begun c t) state b) rejected,
        loop,
        (ground (arith, known)),
      )

  Round-IsSound :
      (all : List ValidatedCandidate) (v : ValidatedCandidate) (s : CandidateStamp) (t t' : Tables)
      → Round x std c all t v s t'
      → IsSound t.queue.store
      → IsSound t'.queue.store
  Round-IsSound all v s t _ ignored sound = sound
  Round-IsSound all v s t _ (quarantined other) sound = sound
  Round-IsSound all v s t _ (supports m auto at) sound = sound
  Round-IsSound all v s t _ (derives written e auto append unused) sound =
      Appended-IsSound
        (append_event_in_tx-Appended x t.queue.store (auto_derivation x std c v s) s.event written e
          append)
        sound

  Round-queue :
      (all : List ValidatedCandidate) (v : ValidatedCandidate) (s : CandidateStamp) (t t' : Tables)
      (runs : List Run) (attempts : List Attempt)
      → Round x std c all t v s t'
      → (t.queue.runs ≡ runs) × (t.queue.attempts ≡ attempts)
      → (t'.queue.runs ≡ runs) × (t'.queue.attempts ≡ attempts)
  Round-queue all v s t _ runs attempts ignored h = h
  Round-queue all v s t _ runs attempts (quarantined other) h = h
  Round-queue all v s t _ runs attempts (supports m auto at) h = h
  Round-queue all v s t _ runs attempts (derives written e auto append unused) h = h

  module _ (t t' : Tables) (ps : List (ValidatedCandidate × CandidateStamp)) (rs : List Rejected)
      (ids : List String) (h : commit_extraction_success x std c t ps rs ≡ ok (t', ids)) where
    -- A commit keeps the log well formed, with the events of the memories that it derives.
    pub commit_extraction_success-IsSound : IsSound t.queue.store → IsSound t'.queue.store
    commit_extraction_success-IsSound sound =
        let (t₁, b, loop, _) = commit_extraction_success-Begun t t' ps rs ids h in
        commit_candidates_ind (λ u. IsSound u.queue.store) (map (λ p. p.0) ps) ps
          (λ v s u u' _ round. Round-IsSound (map (λ p. p.0) ps) v s u u' round) t₁ t' ids loop
          (subst (λ q. IsSound q.store) (sym b.queue) sound)

    pub commit-IsProcessed :
        (hash : String) (run : Run)
        → find_run c.event.id hash t.queue.runs ≡ some run
        → run.id ≡ c.run_id
        → IsProcessed t'.queue c.event.id hash
    commit-IsProcessed hash run at named =
        let (t₁, b, loop, _) = commit_extraction_success-Begun t t' ps rs ids h in
        let (runs, attempts) =
          commit_candidates_ind
            (λ u.
              (u.queue.runs ≡ t.queue.runs)
              × (u.queue.attempts ≡ success_attempt c ∷ t.queue.attempts))
            (map (λ p. p.0) ps) ps
            (λ v s u u' _ round.
              Round-queue (map (λ p. p.0) ps) v s u u' t.queue.runs
                (success_attempt c ∷ t.queue.attempts) round)
            t₁ t' ids loop (ap (λ q. q.runs) b.queue, ap (λ q. q.attempts) b.queue) in
        record {
          run = run;
          at = rw runs at;
          succeeded = rw (attempts, named, beq_refl c.run_id) refl;
        }

    -- Once a commit for the run of an event returned, the event is never selected again under its
    -- configuration, with any limit and with or without a retry of failures, whatever writes to the queue and
    -- the log come after.
    pub commit_extraction_success-processed :
        (hash : String) (run : Run)
        → find_run c.event.id hash t.queue.runs ≡ some run
        → run.id ≡ c.run_id
        → (later : Queue) (limit : Option ℕ) (retry_failed : Bool) (max_retries : ℕ)
        → Later t'.queue later
        → any
            (λ e. e.id == c.event.id)
            (pending_extraction_events later hash limit retry_failed max_retries)
          ≡ false
    commit_extraction_success-processed hash run at named later limit retry_failed max_retries
          after =
        pending_extraction_events-processed t'.queue later c.event.id hash limit retry_failed
          max_retries (commit-IsProcessed hash run at named) after
