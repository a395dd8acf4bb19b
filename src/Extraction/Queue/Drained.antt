-- ===== src/Extraction/Queue/Drained.antt =====
-- How often a failing extraction is tried, in src/joiny_mnemonic/storage.py and
-- src/joiny_mnemonic/extraction.py.
use joiny_mnemonic.Prelude.{
  ℕ, ◌+◌, String, Bool, true, false, some, ◌∷◌, ◌==◌, string_eq, nat_eq, option_eq, ltb, elem, any,
  ok, ◌≡◌, refl, arith, Bool-cases, inl, inr, beq_refl, and_true,
}
use joiny_mnemonic.Store.{Event, Externals}
use joiny_mnemonic.Extraction.Queue.{
  Run, AttemptStart, Attempt, Queue, find_run, last_start, start_extraction_attempt, insert_attempt,
  failures, failed_attempt, finish_extraction_failure,
}
use joiny_mnemonic.Extraction.Queue.Pending.{
  has_succeeded, is_retried, is_run_pending, is_conversation, is_pending, RoundStamp, round_failure,
  fail_round,
}
use joiny_mnemonic.Extraction.Queue.Attempts.{
  IsQueue, IsReady, Ensured, ready-Ensured, number_free, latest-new, started-cons, found_run,
}

-- What a failing round leaves
pub record Failed (x : Externals) (q : Queue) (hash : String) (max_retries : ℕ) (e : Event)
    (code error : String) (stamp : RoundStamp) : Type 0 where
  pub after : Queue
  pub run : Run
  pub number : ℕ
  pub returns : fail_round x q hash max_retries e code error stamp ≡ ok (after, number)
  pub at : find_run e.id hash after.runs ≡ some run
  pub next : number ≡ last_start run.id q.starts + 1
  pub counted : last_start run.id after.starts ≡ number
  pub valid : IsQueue after
  pub still : is_pending after hash false max_retries e ≡ ltb number max_retries

module _ (x : Externals) (q : Queue) (hash : String) (max_retries : ℕ) (e : Event)
    (code error : String) (stamp : RoundStamp) (valid : IsQueue q)
    (n : Ensured q hash e stamp) where
  outcome_listed :
      (at_no : ℕ)
      → elem (round_failure max_retries n.run.id at_no code error stamp).outcome failures ≡ true
  outcome_listed at_no = elim (Bool-cases (ltb at_no max_retries)) [
    | inl again ↦ rw again refl
    | inr last ↦ rw last refl
  ]

  not_succeeded :
      (at_no : ℕ)
      → ((round_failure max_retries n.run.id at_no code error stamp).outcome == "succeeded") ≡ false
  not_succeeded at_no = elim (Bool-cases (ltb at_no max_retries)) [
    | inl again ↦ rw again refl
    | inr last ↦ rw last refl
  ]

  retried :
      (at_no : ℕ)
      → ((round_failure max_retries n.run.id at_no code error stamp).outcome == "retryable_failure")
        ≡ ltb at_no max_retries
  retried at_no = elim (Bool-cases (ltb at_no max_retries)) [
    | inl again ↦ rw again refl
    | inr last ↦ rw last refl
  ]

  number : ℕ
  number = last_start n.run.id q.starts + 1

  new_row : AttemptStart
  new_row = record {
    id = stamp.start_id;
    run_id = n.run.id;
    attempt_no = number;
    started_at = stamp.started_at;
  }

  new_try : Attempt
  new_try = failed_attempt x (round_failure max_retries n.run.id number code error stamp)

  after : Queue
  after = record q { runs = n.runs; starts = new_row ∷ q.starts; attempts = new_try ∷ q.attempts }

  fail_round-returns :
      any (λ s. s.id == stamp.start_id) q.starts ≡ false
      → any (λ a. a.id == stamp.attempt_id) q.attempts ≡ false
      → fail_round x q hash max_retries e code error stamp ≡ ok (after, number)
  unfolding fail_round start_extraction_attempt finish_extraction_failure insert_attempt after
      number new_row new_try
  fail_round-returns free_start free_attempt =
      let known = found_run e.id hash n.runs n.run n.at in
      let free =
        number_free stamp.attempt_id n.run.id q.starts q.attempts valid.started free_attempt in
      rw (n.call, start_extraction_attempt, known, free_start)
        (rw (finish_extraction_failure, outcome_listed number, insert_attempt, free, known) refl)

  after-last_start : last_start n.run.id after.starts ≡ number
  unfolding after number new_row last_start
  after-last_start = rw (beq_refl n.run.id) (ground arith)

  after-IsQueue : IsQueue after
  unfolding after number new_row new_try
  after-IsQueue =
      let known = found_run e.id hash n.runs n.run n.at in
      record {
        started = (
          rw after-last_start (omega arith),
          started-cons new_row q.starts q.attempts valid.started,
        );
        placed = (known, n.placed);
      }

  after-is_pending :
      is_conversation e ≡ true → is_pending after hash false max_retries e ≡ ltb number max_retries
  unfolding is_pending after new_try number
  after-is_pending spoken =
      let newest = latest-new new_try q.starts q.attempts valid.started refl in
      let finished : has_succeeded n.run.id (new_try ∷ q.attempts) ≡ false =
        rw (beq_refl n.run.id, not_succeeded number, n.unfinished) refl in
      let again : is_retried false max_retries (some new_try) ≡ ltb number max_retries =
        rw (retried number) (ground arith) in
      rw (is_pending, spoken, n.at, finished, newest, again) refl

is_pending-conversation :
    (q : Queue) (hash : String) (retry_failed : Bool) (max_retries : ℕ) (e : Event)
    → is_pending q hash retry_failed max_retries e ≡ true
    → is_conversation e ≡ true
unfolding is_pending
is_pending-conversation q hash retry_failed max_retries e h =
    (and_true (is_conversation e)
      (is_run_pending q retry_failed max_retries (find_run e.id hash q.runs)) h).0

-- Where an event is selected, the event and the configuration are known, and the identifiers that are drawn
-- are new, a round in which extraction fails returns. It takes the next number of the event's run, and the
-- event is selected again, without `retry_failed`, exactly when that number is below `max_retries`: so
-- it is given up after so many failures. The queue stays well formed, with the number counted.
pub fail_round-Failed :
    (x : Externals) (q : Queue) (hash : String) (max_retries : ℕ) (e : Event) (code error : String)
    (stamp : RoundStamp) (retry_failed : Bool)
    → IsQueue q
    → IsReady q hash e stamp
    → is_pending q hash retry_failed max_retries e ≡ true
    → Failed x q hash max_retries e code error stamp
unfolding after number
fail_round-Failed x q hash max_retries e code error stamp retry_failed valid ready pending =
    let n = ready-Ensured q hash retry_failed max_retries e stamp valid ready pending in
    record {
      after = after x q hash max_retries e code error stamp valid n;
      run = n.run;
      number = number x q hash max_retries e code error stamp valid n;
      returns =
          fail_round-returns x q hash max_retries e code error stamp valid n ready.new_start
            ready.new_attempt;
      at = n.at;
      next = refl;
      counted = after-last_start x q hash max_retries e code error stamp valid n;
      valid = after-IsQueue x q hash max_retries e code error stamp valid n;
      still =
          after-is_pending x q hash max_retries e code error stamp valid n
            (is_pending-conversation q hash retry_failed max_retries e pending);
    }
