-- ===== src/Extraction/Backlog/Tests.antt =====
-- A round for one message, for an answer of four candidates.
use joiny_mnemonic.Prelude.{true, false, [], string_eq, ◌≡◌, refl}
use joiny_mnemonic.Store.Ingest.{find_event}
use joiny_mnemonic.Extraction.Queue.{find_config, find_run}
use joiny_mnemonic.Extraction.Queue.Pending.{latest_attempt, is_pending, RoundStamp}
use joiny_mnemonic.Extraction.Queue.Attempts.{IsReady}
use joiny_mnemonic.Extraction.Commit.Tests.{plain, words, message, start, answer}
use joiny_mnemonic.Extraction.Backlog.{Extracted, answered, Service}
use joiny_mnemonic.Extraction.Backlog.Settles.{Settled, process_event-Settled}

abbrev service : Service
service = record {
  config_hash = "cfg";
  max_retries = 3;
  code_of = λ error. "ValueError";
  text_of = λ error. "refused";
}

abbrev stamp : RoundStamp
stamp = record {
  run_id = "run_2";
  start_id = "start_2";
  started_at = "2026-07-01T12:00:01+00:00";
  attempt_id = "attempt_2";
  finished_at = "2026-07-01T12:00:02+00:00";
}

abbrev four : Extracted
four = answered (record {
  candidates = answer;
  rejected = [];
  raw_text = "x";
  attempt_id = "attempt_1";
  finished_at = "2026-07-01T12:00:02+00:00";
  raw_id = "raw_1";
  raw_created_at = "2026-07-01T12:00:02+00:00";
})

message-IsReady : IsReady start.queue "cfg" message stamp
unfolding find_event find_config
message-IsReady = record {
  event = message;
  event_at = refl;
  config = record { config_hash = "cfg"; descriptor_json = "x" };
  config_at = refl;
  new_run = refl;
  new_start = refl;
  new_attempt = refl;
}

message_waits : is_pending start.queue "cfg" false 3 message ≡ true
unfolding is_pending find_run latest_attempt
message_waits = refl

process_event-Settled_example : Settled plain words service start message stamp four
process_event-Settled_example =
    process_event-Settled plain words service start message stamp false
      (record { started = tt; placed = tt }) message-IsReady message_waits four
