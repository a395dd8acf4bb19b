-- ===== src/Extraction/Queue/Attempts.antt =====
-- The runs and attempts of a queue in src/joiny_mnemonic/storage.py, and where a new attempt stands.
use mathlib.Core.Path.{subst}
use joiny_mnemonic.Prelude.{
  ℕ, ◌+◌, ◌≤◌, String, Bool, true, false, not, ◌&&◌, ◌||◌, some, List, [], ◌∷◌, ◌==◌, string_eq,
  nat_eq, option_eq, ltb, any, All, ok, ◌≡◌, refl, ap, arith, Bool-cases, Option-cases, inl, inr,
  eq_iff, beq_refl, beq_of_ne, and_true,
}
use joiny_mnemonic.Store.{Event}
use joiny_mnemonic.Store.Ingest.{find_event}
use joiny_mnemonic.Extraction.Queue.{
  Config, Run, AttemptStart, Attempt, Queue, find_config, find_run, has_run, ensure_extraction_run,
  last_start,
}
use joiny_mnemonic.Extraction.Queue.Pending.{
  latest_attempt, has_succeeded, is_run_pending, is_conversation, is_pending, RoundStamp,
}

-- Each attempt has a start, and its run exists.
pub record IsQueue (q : Queue) : Type 0 where
  pub started : All (λ a. a.attempt_no ≤ last_start a.run_id q.starts) q.attempts
  pub placed : All (λ a. has_run a.run_id q.runs ≡ true) q.attempts

-- What a round needs: the event and the configuration are known, and the identifiers are new.
pub record IsReady (q : Queue) (hash : String) (e : Event) (stamp : RoundStamp) : Type 0 where
  pub event : Event
  pub event_at : find_event e.id q.store.events ≡ some event
  pub config : Config
  pub config_at : find_config hash q.configs ≡ some config
  pub new_run : has_run stamp.run_id q.runs ≡ false
  pub new_start : any (λ s. s.id == stamp.start_id) q.starts ≡ false
  pub new_attempt : any (λ a. a.id == stamp.attempt_id) q.attempts ≡ false

pub found_run :
    (event_id hash : String) (rs : List Run) (r : Run)
    → find_run event_id hash rs ≡ some r
    → has_run r.id rs ≡ true
unfolding find_run
found_run event_id hash [] r h = cc h
found_run event_id hash (v ∷ vs) r h =
    elim (Bool-cases (v.event_id == event_id && v.config_hash == hash)) [
      | inl here ↦
          let same : v ≡ r = cc (rw here at h) in rw (ap (λ w. w.id) same, beq_refl r.id) refl
      | inr other ↦ let later = found_run event_id hash vs r (rw other at h) in ground arith
    ]

-- No attempt is of a run that does not exist.
no_attempt :
    (run_id : String) (rs : List Run) (attempts : List Attempt)
    → All (λ a. has_run a.run_id rs ≡ true) attempts
    → has_run run_id rs ≡ false
    → has_succeeded run_id attempts ≡ false
no_attempt run_id rs [] placed new = refl
no_attempt run_id rs (a ∷ rest) placed new =
    let other : (a.run_id == run_id) ≡ false =
      beq_of_ne a.run_id run_id (λ same. cc (rw same at placed.0, new)) in
    rw (other, no_attempt run_id rs rest placed.1 new) refl

has_run-cons :
    (r : Run) (rs : List Run) (attempts : List Attempt)
    → All (λ a. has_run a.run_id rs ≡ true) attempts
    → All (λ a. has_run a.run_id (r ∷ rs) ≡ true) attempts
has_run-cons r rs [] h = tt
has_run-cons r rs (a ∷ rest) h = let known = h.0 in (ground arith, has_run-cons r rs rest h.1)

-- After `ensure_extraction_run`
pub record Ensured (q : Queue) (hash : String) (e : Event) (stamp : RoundStamp) : Type 0 where
  pub runs : List Run
  pub run : Run
  pub call : ensure_extraction_run q e.id hash stamp.run_id ≡ ok (record q { runs = runs }, run.id)
  pub at : find_run e.id hash runs ≡ some run
  pub placed : All (λ a. has_run a.run_id runs ≡ true) q.attempts
  pub unfinished : has_succeeded run.id q.attempts ≡ false

not_true : (b : Bool) → not b ≡ true → b ≡ false
not_true true h = cc h
not_true false h = refl

pub ready-Ensured :
    (q : Queue) (hash : String) (retry_failed : Bool) (max_retries : ℕ) (e : Event)
    (stamp : RoundStamp)
    → IsQueue q
    → IsReady q hash e stamp
    → is_pending q hash retry_failed max_retries e ≡ true
    → Ensured q hash e stamp
unfolding ensure_extraction_run is_pending
ready-Ensured q hash retry_failed max_retries e stamp valid ready pending =
    elim (Option-cases (find_run e.id hash q.runs)) [
      | inr (r, at) ↦
          let (_, of_run) =
            and_true (is_conversation e)
              (is_run_pending q retry_failed max_retries (find_run e.id hash q.runs)) pending in
          let (unended, _) = and_true (not (has_succeeded r.id q.attempts)) _ (rw at at of_run) in
          record {
            runs = q.runs;
            run = r;
            call = rw (ensure_extraction_run, at) refl;
            at = at;
            placed = valid.placed;
            unfinished = not_true _ unended;
          }
      | inl missing ↦
          let r : Run = record { id = stamp.run_id; event_id = e.id; config_hash = hash } in
          record {
            runs = r ∷ q.runs;
            run = r;
            call =
                rw (ensure_extraction_run, missing, ready.event_at, ready.config_at, ready.new_run)
                  refl;
            at = unfold find_run in rw (beq_refl e.id, beq_refl hash) refl;
            placed = has_run-cons r q.runs q.attempts valid.placed;
            unfinished = no_attempt stamp.run_id q.runs q.attempts valid.placed ready.new_run;
          }
    ]

-- The number of a new start is not used by any attempt.
pub number_free :
    (id run_id : String) (starts : List AttemptStart) (attempts : List Attempt)
    → All (λ a. a.attempt_no ≤ last_start a.run_id starts) attempts
    → any (λ a. a.id == id) attempts ≡ false
    → any
        (λ b. b.id == id || b.run_id == run_id && b.attempt_no == last_start run_id starts + 1)
        attempts
      ≡ false
number_free id run_id starts [] started new = refl
number_free id run_id starts (a ∷ rest) started new =
    let below = started.0 in
    let ih = number_free id run_id starts rest started.1 (ground arith) in
    elim (Bool-cases (a.run_id == run_id)) [
      | inr other ↦ rw other (ground arith)
      | inl same ↦
          let bound : a.attempt_no ≤ last_start run_id starts =
            subst (λ v. a.attempt_no ≤ last_start v starts) ((eq_iff a.run_id run_id).0 same)
              below in
          rw same (ground arith)
    ]

latest_ind :
    (P : Attempt → Type 0) (run_id : String) (attempts : List Attempt) (b : Attempt)
    → All P attempts
    → latest_attempt run_id attempts ≡ some b
    → P b × (b.run_id ≡ run_id)
unfolding latest_attempt
latest_ind P run_id [] b all h = cc h
latest_ind P run_id (a ∷ rest) b all h = elim (Bool-cases (a.run_id == run_id)) [
  | inr other ↦ latest_ind P run_id rest b all.1 (rw (latest_attempt, other) at h)
  | inl same ↦
      let own = (eq_iff a.run_id run_id).0 same in
      elim (Option-cases (latest_attempt run_id rest)) [
        | inl first ↦
            let is_a : a ≡ b = cc (rw (latest_attempt, same, first) at h) in
            subst (λ v. P v × (v.run_id ≡ run_id)) is_a (all.0, own)
        | inr (c, at) ↦ elim (Bool-cases (ltb c.attempt_no a.attempt_no)) [
          | inl later ↦
              let is_a : a ≡ b = cc (rw (latest_attempt, same, at, later) at h) in
              subst (λ v. P v × (v.run_id ≡ run_id)) is_a (all.0, own)
          | inr earlier ↦
              let is_c : c ≡ b = cc (rw (latest_attempt, same, at, earlier) at h) in
              subst (λ v. P v × (v.run_id ≡ run_id)) is_c (latest_ind P run_id rest c all.1 at)
        ]
      ]
]

pub latest-new :
    (a : Attempt) (starts : List AttemptStart) (attempts : List Attempt)
    → All (λ b. b.attempt_no ≤ last_start b.run_id starts) attempts
    → a.attempt_no ≡ last_start a.run_id starts + 1
    → latest_attempt a.run_id (a ∷ attempts) ≡ some a
unfolding latest_attempt
latest-new a starts attempts started number =
    elim (Option-cases (latest_attempt a.run_id attempts)) [
      | inl first ↦ rw (latest_attempt, beq_refl a.run_id, first) refl
      | inr (b, at) ↦
          let (bound, own) =
            latest_ind (λ v. v.attempt_no ≤ last_start v.run_id starts) a.run_id attempts b started
              at in
          let below : b.attempt_no ≤ last_start a.run_id starts = rw (← own) bound in
          let later : ltb b.attempt_no a.attempt_no ≡ true = ground arith in
          rw (latest_attempt, beq_refl a.run_id, at, later) refl
    ]

pub started-cons :
    (s : AttemptStart) (starts : List AttemptStart) (attempts : List Attempt)
    → All (λ a. a.attempt_no ≤ last_start a.run_id starts) attempts
    → All (λ a. a.attempt_no ≤ last_start a.run_id (s ∷ starts)) attempts
unfolding last_start
started-cons s starts [] h = tt
started-cons s starts (a ∷ rest) h =
    let below = h.0 in (ground arith, started-cons s starts rest h.1)
