-- ===== src/Store/Artifacts.antt =====
-- `append_artifact` of src/joiny_mnemonic/storage.py.
pub mod Whole
mod Tests
use Prim.Native.String.{◌++◌ as text_append}
use joiny_mnemonic.Prelude.{
  ℕ, String, Bool, true, false, not, ◌&&◌, ◌||◌, Option, none, some, List, [], ◌∷◌, ◌++◌,
  if◌then◌else◌, ◌==◌, string_eq, any, Outcome, ok, raise, raise_if, recast, ◌>>=◌, ◌>>◌,
}
use joiny_mnemonic.Json.{Dict, empty, item, str}
use joiny_mnemonic.Provenance.{internal}
use joiny_mnemonic.Store.{Event, Store, StoreError, Redaction, Externals}
use joiny_mnemonic.Store.Append.{NewEvent, Stamp, mark_redactions, append_event_in_tx}
use joiny_mnemonic.Store.Verify.{Artifact}

pub data ArtifactData : Type 0 where
  text : String → ArtifactData
  bytes : List ℕ → ArtifactData

-- The standard codecs, where `bytes.decode("utf-8")` may fail; the redactor without private regions; and whether
-- a type starts with `text/` or ends with `json`
pub record Codecs : Type 0 where
  pub encode_utf8 : String → List ℕ
  pub decode_utf8 : List ℕ → Option String
  pub decode_latin1 : List ℕ → String
  pub redact_plain : String → String × List Redaction
  pub is_text_type : String → Bool

-- The arguments of `append_artifact`
pub record NewArtifact : Type 0 where
  pub name : String
  pub content : ArtifactData
  pub mime_type : String
  pub branch_id : String
  pub session_id : Option String
  pub files : List String

-- A row of `artifacts`
pub record ArtifactRow : Type 0 where
  pub artifact : Artifact
  pub event_id : String
  pub name : String
  pub mime_type : String
  pub created_at : String

-- What a call draws
pub record ArtifactStamp : Type 0 where
  pub artifact_id : String
  pub created_at : String
  pub event : Stamp

pub data ArtifactError : Type 0 where
  store_error : StoreError → ArtifactError
  not_utf8 binary_secret integrity_error : ArtifactError

-- The content of an artifact after its redaction, with what was found
pub record SafeData : Type 0 where
  pub stored : List ℕ
  pub found : List Redaction

unfoldable pub redact_textual : Externals → Codecs → Option String → Outcome ArtifactError SafeData
redact_textual x k none = raise not_utf8
redact_textual x k (some decoded) =
    ok (record {
      stored = k.encode_utf8 (x.redact_text decoded).0;
      found = (x.redact_text decoded).1;
    })

unfoldable pub refuse_secret : List ℕ → List Redaction → Outcome ArtifactError SafeData
refuse_secret content [] = ok (record { stored = content; found = [] })
refuse_secret content (r ∷ rs) = raise binary_secret

-- The data is decoded, redacted, and encoded again; data that is no text is kept, or refused.
unfoldable pub safe_data :
    Externals → Codecs → String → ArtifactData → Outcome ArtifactError SafeData
safe_data x k mime (text decoded) = redact_textual x k (some decoded)
safe_data x k mime (bytes content) =
    if k.is_text_type mime
    then redact_textual x k (k.decode_utf8 content)
    else refuse_secret content (k.redact_plain (k.decode_latin1 content)).1

abbrev pub artifact_event : Externals → NewArtifact → SafeData → ArtifactStamp → NewEvent
artifact_event x a d stamp = record {
  branch_id = a.branch_id;
  session_id = a.session_id;
  kind = "artifact";
  role = none;
  content = text_append "artifact:" (x.redact_text a.name).0;
  origin_channel = internal;
  origin_adapter = none;
  payload = mark_redactions ((x.redact_text a.name).1 ++ (x.redact_text a.mime_type).1 ++ d.found) (
      item "artifact_id" (str stamp.artifact_id) (
        item "name" (str (x.redact_text a.name).0) (
          item "mime_type" (str (x.redact_text a.mime_type).0)
            (item "content_hash" (str (x.sha256_bytes d.stored)) empty))));
  files = a.files;
}

abbrev pub artifact_row : Externals → NewArtifact → SafeData → ArtifactStamp → Event → ArtifactRow
artifact_row x a d stamp e = record {
  artifact = record {
    id = stamp.artifact_id;
    content_hash = x.sha256_bytes d.stored;
    bytes = d.stored;
  };
  event_id = e.id;
  name = (x.redact_text a.name).0;
  mime_type = (x.redact_text a.mime_type).0;
  created_at = stamp.created_at;
}

-- `append_artifact`, on the rows with the newest first
unfoldable pub append_artifact :
    Externals
    → Codecs
    → Store
    → List ArtifactRow
    → NewArtifact
    → ArtifactStamp
    → Outcome ArtifactError (Store × List ArtifactRow)
append_artifact x k s rows a stamp = do
  d ← safe_data x k (x.redact_text a.mime_type).0 a.content
  (s', e) ← recast store_error (append_event_in_tx x s (artifact_event x a d stamp) stamp.event)
  raise_if (any (λ r. r.artifact.id == stamp.artifact_id) rows) integrity_error
  ok (s', artifact_row x a d stamp e ∷ rows)
