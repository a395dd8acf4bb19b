-- ===== src/Store/Artifacts/Tests.antt =====
-- One artifact of a text in an empty store.
use joiny_mnemonic.Prelude.{false, none, some, List, [], ◌∷◌, map, Outcome, ok, raise, ◌≡◌, refl}
use joiny_mnemonic.Store.{Store, initial, Externals}
use joiny_mnemonic.Store.Append.{append_event_in_tx, redacted, event_row, json_text}
use joiny_mnemonic.Store.Lineage.{find_branch}
use joiny_mnemonic.Store.Verify.{verify_rows, verify_artifacts, verify_views, verify_chain}
use joiny_mnemonic.Store.Artifacts.{
  text, bytes, Codecs, NewArtifact, ArtifactRow, ArtifactStamp, ArtifactError, binary_secret,
  redact_textual, refuse_secret, safe_data, append_artifact,
}
use joiny_mnemonic.Store.Artifacts.Whole.{append_artifact-verifies}

abbrev hiding : Externals
hiding = record {
  sha256 = λ s. s;
  sha256_bytes = λ bs. "sum";
  dumps = λ v. "x";
  redact_text = λ s. (s, []);
  redact_payload = λ d. (d, []);
  redact_files = λ fs. (fs, []);
}

abbrev ascii : Codecs
ascii = record {
  encode_utf8 = λ s. 104 ∷ [];
  decode_utf8 = λ bs. some "h";
  decode_latin1 = λ bs. "key";
  redact_plain = λ s. (s, record { rule = "token"; count = 1 } ∷ []);
  is_text_type = λ s. false;
}

abbrev note : NewArtifact
note = record {
  name = "note";
  content = text "h";
  mime_type = "text/plain";
  branch_id = "main";
  session_id = none;
  files = [];
}

abbrev stamp : ArtifactStamp
stamp = record {
  artifact_id = "art_1";
  created_at = "2026-07-01T12:00:00+00:00";
  event = record { event_id = "evt_1"; created_at = "2026-07-01T12:00:00+00:00" };
}

abbrev result_of : Outcome ArtifactError (Store × List ArtifactRow) → Store × List ArtifactRow
result_of (ok r) = r
result_of (raise e) = (initial, [])

abbrev after : Store × List ArtifactRow
after = result_of (append_artifact hiding ascii initial [] note stamp)

append_note : append_artifact hiding ascii initial [] note stamp ≡ ok (after.0, after.1)
unfolding append_artifact safe_data redact_textual append_event_in_tx redacted event_row json_text
    find_branch
append_note = refl

-- Bytes in which the redactor finds a secret are refused.
secret_is_refused :
    append_artifact hiding ascii initial [] (record note { content = bytes (107 ∷ []) }) stamp
    ≡ raise binary_secret
unfolding append_artifact safe_data refuse_secret
secret_is_refused = refl

empty_verifies : verify_chain hiding initial [] [] ≡ none
unfolding verify_chain verify_rows verify_artifacts verify_views
empty_verifies = refl

append_artifact-verifies_example :
    verify_chain hiding after.0 (map (λ r. r.artifact) after.1) [] ≡ none
append_artifact-verifies_example =
    append_artifact-verifies hiding ascii initial after.0 [] after.1 note stamp [] append_note
      empty_verifies tt
