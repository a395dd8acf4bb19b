-- ===== src/Extraction/Backlog/Settles.antt =====
-- A round of `process_backlog` in src/joiny_mnemonic/extraction.py settles its event, whatever the extractor does.
use joiny_mnemonic.Prelude.{
  ◌+◌, String, Bool, true, false, ◌∷◌, string_eq, ok, >>=-eq-ok, ◌≡◌, refl, sym, ◌∙◌, inl, inr,
  Outcome-cases,
}
use joiny_mnemonic.Store.{Event, Externals}
use joiny_mnemonic.Extraction.Queue.{
  Queue, last_start, start_extraction_attempt, finish_extraction_failure,
}
use joiny_mnemonic.Extraction.Queue.Pending.{is_pending, RoundStamp, round_failure, fail_round}
use joiny_mnemonic.Extraction.Queue.Attempts.{IsQueue, IsReady, Ensured, ready-Ensured, found_run}
use joiny_mnemonic.Extraction.Queue.Drained.{Failed, fail_round-Failed}
use joiny_mnemonic.Extraction.Queue.Settled.{IsProcessed}
use joiny_mnemonic.Extraction.Commit.{Tables, Words}
use joiny_mnemonic.Extraction.Commit.Steps.{commit_extraction_success}
use joiny_mnemonic.Extraction.Commit.Kept.{commit-IsProcessed}
use joiny_mnemonic.Extraction.Backlog.{
  Extracted, failed, answered, Service, commit_of, handle, attempt, process_event,
}

module _ (x : Externals) (std : Words) (service : Service) (t : Tables) (e : Event)
    (stamp : RoundStamp) where
  -- After a round the event is processed, or one more failed attempt is counted.
  pub data Settled (extracted : Extracted) : Type 0 where
    succeeds :
        (t' : Tables)
        → process_event x std service t e stamp extracted ≡ ok (t', true)
        → IsProcessed t'.queue e.id service.config_hash
        → Settled extracted
    counts :
        (code error : String)
        (f : Failed x t.queue service.config_hash service.max_retries e code error stamp)
        → process_event x std service t e stamp extracted ≡ ok (record t { queue = f.after }, false)
        → Settled extracted

  module _ (retry_failed : Bool) (valid : IsQueue t.queue)
      (ready : IsReady t.queue service.config_hash e stamp)
      (pending : is_pending t.queue service.config_hash retry_failed service.max_retries e
        ≡ true) where
    ensured : Ensured t.queue service.config_hash e stamp
    ensured =
        ready-Ensured t.queue service.config_hash retry_failed service.max_retries e stamp valid
          ready pending

    begun : Queue
    begun = record t.queue {
      runs = ensured.runs;
      starts =
          record {
            id = stamp.start_id;
            run_id = ensured.run.id;
            attempt_no = last_start ensured.run.id t.queue.starts + 1;
            started_at = stamp.started_at;
          }
          ∷ t.queue.starts;
    }

    start-begun :
        start_extraction_attempt
          (record t.queue { runs = ensured.runs })
          ensured.run.id
          stamp.start_id
          stamp.started_at
        ≡ ok (begun, last_start ensured.run.id t.queue.starts + 1)
    unfolding start_extraction_attempt begun
    start-begun =
        let known = found_run e.id service.config_hash ensured.runs ensured.run ensured.at in
        rw (known, ready.new_start) refl

    round_is_attempt :
        (extracted : Extracted)
        → process_event x std service t e stamp extracted
          ≡ attempt x std service
              (record t { queue = begun })
              e
              ensured.run.id
              (last_start ensured.run.id t.queue.starts + 1)
              stamp
              extracted
    unfolding process_event
    round_is_attempt extracted = rw (ensured.call, start-begun) refl

    handle-Failed :
        (code error : String)
        → (f : Failed x t.queue service.config_hash service.max_retries e code error stamp)
          × (handle x std service
                (record t { queue = begun })
                ensured.run.id
                (last_start ensured.run.id t.queue.starts + 1)
                stamp
                code
                error
              ≡ ok (record t { queue = f.after }, false))
    unfolding handle fail_round
    handle-Failed code error =
        let f =
          fail_round-Failed x t.queue service.config_hash service.max_retries e code error stamp
            retry_failed valid ready pending in
        let at_end = f.returns in
        let (q, finish, same) =
          >>=-eq-ok
            (finish_extraction_failure x begun (
              round_failure service.max_retries ensured.run.id
                (last_start ensured.run.id t.queue.starts + 1) code error stamp))
            _ (rw (fail_round, ensured.call, start-begun) at at_end) in
        let after : q ≡ f.after = cc same in (f, rw (finish, after) refl)

    attempt-Settled :
        (extracted : Extracted)
        → attempt x std service
            (record t { queue = begun })
            e
            ensured.run.id
            (last_start ensured.run.id t.queue.starts + 1)
            stamp
            extracted
          ≡ process_event x std service t e stamp extracted
        → Settled extracted
    unfolding attempt begun
    attempt-Settled (failed code error) same =
        let (f, call) = handle-Failed code error in counts code error f (sym same ∙ call)
    attempt-Settled (answered a) same =
        let c =
          commit_of x std service e ensured.run.id (last_start ensured.run.id t.queue.starts + 1)
            stamp a in
        let start = record t { queue = begun } in
        elim (Outcome-cases (commit_extraction_success x std c start a.candidates a.rejected)) [
          | inl ((t', ids), done) ↦ succeeds t' (sym same ∙ rw (attempt, done) refl) (
              commit-IsProcessed x std c start t' a.candidates a.rejected ids done
                service.config_hash ensured.run ensured.at refl)
          | inr (error, raised) ↦
              let (f, call) = handle-Failed (service.code_of error) (service.text_of error) in
              counts (service.code_of error) (service.text_of error) f
                (sym same ∙ (rw (attempt, raised) refl ∙ call))
        ]

    -- Where the queue is well formed (the run of each attempt is known, and the attempt is numbered no
    -- higher than the run's last start), an event is selected, the event and the configuration are known,
    -- and the identifiers that are drawn are new, a round returns whatever the extractor answers or raises,
    -- and whatever its commit raises. Either it succeeds, and the event's run has an attempt that succeeded, or it counts one more
    -- failed attempt and changes nothing beside the queue.
    pub process_event-Settled : (extracted : Extracted) → Settled extracted
    process_event-Settled extracted = attempt-Settled extracted (sym (round_is_attempt extracted))
