-- ===== src/Extraction/Queue/Tests.antt =====
-- One message in the queue, before and after an attempt that succeeds.
use joiny_mnemonic.Prelude.{true, false, none, some, [], ◌∷◌, string_eq, ◌≡◌, refl}
use joiny_mnemonic.Json.{empty}
use joiny_mnemonic.Store.{Event, initial, Externals}
use joiny_mnemonic.Extraction.Queue.{Queue, find_run}
use joiny_mnemonic.Extraction.Queue.Pending.{is_pending}

abbrev plain : Externals
plain = record {
  sha256 = λ s. s;
  sha256_bytes = λ bs. "";
  dumps = λ v. "x";
  redact_text = λ s. (s, []);
  redact_payload = λ d. (d, []);
  redact_files = λ fs. (fs, []);
}

abbrev message : Event
message = record {
  seq = 1;
  id = "evt_1";
  branch_id = "main";
  session_id = none;
  kind = "message";
  role = some "user";
  origin_channel = "public_api";
  origin_adapter = none;
  content = "hello";
  payload = empty;
  files = [];
  created_at = "2026-07-01T12:00:00+00:00";
  previous_hash = none;
  content_hash = "x";
  chain_hash = "x";
}

abbrev begin : Queue
begin = record {
  store = record initial { events = message ∷ [] };
  configs = record { config_hash = "cfg"; descriptor_json = "x" } ∷ [];
  runs = [];
  starts = [];
  attempts = [];
}

message_pending : is_pending begin "cfg" false 3 message ≡ true
unfolding is_pending find_run
message_pending = refl

abbrev processed : Queue
processed = record begin {
  runs = record { id = "run_1"; event_id = "evt_1"; config_hash = "cfg" } ∷ [];
  starts =
      record {
        id = "start_1";
        run_id = "run_1";
        attempt_no = 1;
        started_at = "2026-07-01T12:00:01+00:00";
      }
      ∷ [];
  attempts =
      record {
        id = "attempt_1";
        run_id = "run_1";
        attempt_no = 1;
        outcome = "succeeded";
        started_at = "2026-07-01T12:00:01+00:00";
        finished_at = "2026-07-01T12:00:02+00:00";
        error_code = none;
        redacted_error = none;
        raw_response_ref = some "raw_1";
      }
      ∷ [];
}

processed_rests : is_pending processed "cfg" true 3 message ≡ false
unfolding is_pending find_run
processed_rests = refl
