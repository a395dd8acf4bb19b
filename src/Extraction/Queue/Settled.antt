-- ===== src/Extraction/Queue/Settled.antt =====
-- An event that was processed is not selected again, in src/joiny_mnemonic/storage.py.
use joiny_mnemonic.Prelude.{
  ℕ, zero, suc, String, Bool, true, false, ◌&&◌, Option, none, some, List, [], ◌∷◌, ◌==◌, string_eq,
  nat_eq, option_eq, elem, any, keep, ok, ◌≡◌, refl, ap, ◌∙◌, arith, Bool-cases, Option-cases, inl,
  inr, eq_iff, and_true,
}
use joiny_mnemonic.Json.{Dict}
use joiny_mnemonic.Store.{Event, Store, Externals}
use joiny_mnemonic.Store.Ingest.{find_event}
use joiny_mnemonic.Extraction.Queue.{
  Run, Attempt, Queue, find_config, register_extractor_config, find_run, has_run,
  ensure_extraction_run, start_extraction_attempt, is_refused, insert_attempt, Failure, failures,
  failed_attempt, finish_extraction_failure,
}
use joiny_mnemonic.Extraction.Queue.Pending.{
  has_succeeded, is_pending, take, limited, pending_extraction_events,
}

-- The run of an event and a configuration has an attempt that succeeded.
pub record IsProcessed (q : Queue) (event_id hash : String) : Type 0 where
  pub run : Run
  pub at : find_run event_id hash q.runs ≡ some run
  pub succeeded : has_succeeded run.id q.attempts ≡ true

-- The writes of the queue and of the log, one after the other
pub data Later (q : Queue) : Queue → Type 0 where
  same : Later q q
  logged : {r : Queue} (store : Store) → Later q r → Later q (record r { store = store })
  registered :
      {r s : Queue} (x : Externals) (hash : String) (descriptor : Dict)
      → Later q r
      → register_extractor_config x r hash descriptor ≡ ok s
      → Later q s
  ensured :
      {r s : Queue} (event_id hash id run_id : String)
      → Later q r
      → ensure_extraction_run r event_id hash id ≡ ok (s, run_id)
      → Later q s
  begun :
      {r s : Queue} (run_id id at : String) (attempt_no : ℕ)
      → Later q r
      → start_extraction_attempt r run_id id at ≡ ok (s, attempt_no)
      → Later q s
  failed :
      {r s : Queue} (x : Externals) (f : Failure)
      → Later q r
      → finish_extraction_failure x r f ≡ ok s
      → Later q s
  attempted : {r s : Queue} (a : Attempt) → Later q r → insert_attempt r a ≡ ok s → Later q s

-- A new run is of another event or another configuration.
added-IsProcessed :
    {event_id hash : String} {r : Queue} (done : IsProcessed r event_id hash)
    (other_id other id : String)
    → find_run other_id other r.runs ≡ none
    → IsProcessed
        (record r { runs = record { id = id; event_id = other_id; config_hash = other } ∷ r.runs })
        event_id
        hash
unfolding find_run
added-IsProcessed {event_id} {hash} {r} done other_id other id missing =
    elim (Bool-cases (other_id == event_id && other == hash)) [
      | inr away ↦ record { run = done.run; at = rw away done.at; succeeded = done.succeeded }
      | inl here ↦
          let (event, config) = and_true (other_id == event_id) (other == hash) here in
          let found = done.at in
          cc (
            rw ((eq_iff other_id event_id).0 event, (eq_iff other hash).0 config) at missing,
            found,
          )
    ]

module _ {event_id hash : String} {r s : Queue} (done : IsProcessed r event_id hash) where
  with_tables : s.runs ≡ r.runs → s.attempts ≡ r.attempts → IsProcessed s event_id hash
  with_tables runs attempts = record {
    run = done.run;
    at = ap (find_run event_id hash) runs ∙ done.at;
    succeeded = ap (has_succeeded done.run.id) attempts ∙ done.succeeded;
  }

  registered-IsProcessed :
      (x : Externals) (other : String) (descriptor : Dict)
      → register_extractor_config x r other descriptor ≡ ok s
      → IsProcessed s event_id hash
  unfolding register_extractor_config
  registered-IsProcessed x other descriptor h = with_tables (ground arith) (ground arith)

  begun-IsProcessed :
      (run_id id at : String) (attempt_no : ℕ)
      → start_extraction_attempt r run_id id at ≡ ok (s, attempt_no)
      → IsProcessed s event_id hash
  unfolding start_extraction_attempt
  begun-IsProcessed run_id id at attempt_no h = with_tables (ground arith) (ground arith)

  attempted-IsProcessed : (a : Attempt) → insert_attempt r a ≡ ok s → IsProcessed s event_id hash
  unfolding insert_attempt
  attempted-IsProcessed a h = elim (Bool-cases (is_refused r a)) [
    | inl refused ↦ cc (rw (insert_attempt, refused) at h)
    | inr free ↦
        let added : record r { attempts = a ∷ r.attempts } ≡ s =
          cc (rw (insert_attempt, free) at h) in
        let before = done.succeeded in
        record {
          run = done.run;
          at = rw (← added) done.at;
          succeeded = rw (← added) (ground arith);
        }
  ]

  failed-IsProcessed :
      (x : Externals) (f : Failure)
      → finish_extraction_failure x r f ≡ ok s
      → IsProcessed s event_id hash
  unfolding finish_extraction_failure
  failed-IsProcessed x f h = elim (Bool-cases (elem f.outcome failures)) [
    | inr other ↦ cc (rw (finish_extraction_failure, other) at h)
    | inl listed ↦
        attempted-IsProcessed (failed_attempt x f) (rw (finish_extraction_failure, listed) at h)
  ]

  ensured-IsProcessed :
      (other_id other id run_id : String)
      → ensure_extraction_run r other_id other id ≡ ok (s, run_id)
      → IsProcessed s event_id hash
  unfolding ensure_extraction_run
  ensured-IsProcessed other_id other id run_id h =
      elim (Option-cases (find_run other_id other r.runs)) [
        | inr (known, at) ↦
            let kept : r ≡ s = cc (rw (ensure_extraction_run, at) at h) in rw (← kept) done
        | inl missing ↦ elim (Option-cases (find_event other_id r.store.events)) [
          | inl no_event ↦ cc (rw (ensure_extraction_run, missing, no_event) at h)
          | inr (e, at) ↦ elim (Option-cases (find_config other r.configs)) [
            | inl no_config ↦ cc (rw (ensure_extraction_run, missing, at, no_config) at h)
            | inr (c, config) ↦ elim (Bool-cases (has_run id r.runs)) [
              | inl used ↦ cc (rw (ensure_extraction_run, missing, at, config, used) at h)
              | inr fresh ↦
                  let made : record r {
                    runs = record { id = id; event_id = other_id; config_hash = other } ∷ r.runs;
                  }
                      ≡ s =
                    cc (rw (ensure_extraction_run, missing, at, config, fresh) at h) in
                  rw (← made) (added-IsProcessed done other_id other id missing)
            ]
          ]
        ]
      ]

Later-IsProcessed :
    {q : Queue} {event_id hash : String} {r : Queue}
    → IsProcessed q event_id hash
    → Later q r
    → IsProcessed r event_id hash
Later-IsProcessed done same = done
Later-IsProcessed done (logged store before) = with_tables (Later-IsProcessed done before) refl refl
Later-IsProcessed done (registered x other descriptor before h) =
    registered-IsProcessed (Later-IsProcessed done before) x other descriptor h
Later-IsProcessed done (ensured other_id other id run_id before h) =
    ensured-IsProcessed (Later-IsProcessed done before) other_id other id run_id h
Later-IsProcessed done (begun run_id id at attempt_no before h) =
    begun-IsProcessed (Later-IsProcessed done before) run_id id at attempt_no h
Later-IsProcessed done (failed x f before h) =
    failed-IsProcessed (Later-IsProcessed done before) x f h
Later-IsProcessed done (attempted a before h) =
    attempted-IsProcessed (Later-IsProcessed done before) a h

any-take :
    (t : Event → Bool) (n : ℕ) (es : List Event) → any t es ≡ false → any t (take n es) ≡ false
any-take t zero es h = refl
any-take t (suc n) [] h = refl
any-take t (suc n) (e ∷ es) h = ground (arith, any-take t n es)

any-limited :
    (t : Event → Bool) (limit : Option ℕ) (es : List Event)
    → any t es ≡ false
    → any t (limited limit es) ≡ false
any-limited t none es h = h
any-limited t (some n) es h = any-take t n es h

any-keep_none :
    (p t : Event → Bool) (es : List Event)
    → ((e : Event) → t e ≡ true → p e ≡ false)
    → any t (keep p es) ≡ false
any-keep_none p t [] h = refl
any-keep_none p t (e ∷ es) h = ground (arith, h e, any-keep_none p t es h)

IsProcessed-not_pending :
    (q : Queue) (event_id hash : String) (retry_failed : Bool) (max_retries : ℕ) (e : Event)
    → IsProcessed q event_id hash
    → e.id ≡ event_id
    → is_pending q hash retry_failed max_retries e ≡ false
unfolding is_pending
IsProcessed-not_pending q event_id hash retry_failed max_retries e done named =
    let at : find_run e.id hash q.runs ≡ some done.run =
      ap (λ v. find_run v hash q.runs) named ∙ done.at in
    rw (is_pending, at, done.succeeded) (ground arith)

-- Once an attempt for an event succeeded, `pending_extraction_events` never selects the event again under
-- that configuration, with any limit and with or without a retry of failures, whatever writes to the
-- queue and the log come after.
pub pending_extraction_events-processed :
    (q r : Queue) (event_id hash : String) (limit : Option ℕ) (retry_failed : Bool)
    (max_retries : ℕ)
    → IsProcessed q event_id hash
    → Later q r
    → any (λ e. e.id == event_id) (pending_extraction_events r hash limit retry_failed max_retries)
      ≡ false
unfolding pending_extraction_events
pending_extraction_events-processed q r event_id hash limit retry_failed max_retries done later =
    any-limited (λ e. e.id == event_id) limit _
      (any-keep_none (is_pending r hash retry_failed max_retries) (λ e. e.id == event_id)
        r.store.events
        (λ e named.
          IsProcessed-not_pending r event_id hash retry_failed max_retries e
            (Later-IsProcessed done later) ((eq_iff e.id event_id).0 named)))
