-- ===== src/Store/Artifacts/Whole.antt =====
-- `append_artifact` of src/joiny_mnemonic/storage.py keeps a store that verifies.
use mathlib.Core.Path.{subst₂}
use joiny_mnemonic.Prelude.{
  none, List, ◌∷◌, map, ◌==◌, string_eq, any, All, ok, raise_if, recast, >>=-eq-ok, >>-eq-ok,
  recast-eq-ok, ◌≡◌, ◌≢◌, refl, beq_refl, ne_of_beq,
}
use joiny_mnemonic.Store.{Store, Externals}
use joiny_mnemonic.Store.Append.{append_event_in_tx}
use joiny_mnemonic.Store.Ingest.{find_event}
use joiny_mnemonic.Store.Verify.{ToolView, verify_artifacts, verify_chain}
use joiny_mnemonic.Store.Verify.Append.{verify_chain-append}
use joiny_mnemonic.Store.Views.Hashed.{chain_parts}
use joiny_mnemonic.Store.Artifacts.{
  Codecs, NewArtifact, ArtifactRow, ArtifactStamp, store_error, integrity_error, safe_data,
  artifact_event, artifact_row, append_artifact,
}

-- A store that verifies, in which each tool view has its event, still verifies with the event and the row of
-- a new artifact, whatever the redactor did to its data.
pub append_artifact-verifies :
    (x : Externals) (k : Codecs) (s s' : Store) (rows rows' : List ArtifactRow) (a : NewArtifact)
    (stamp : ArtifactStamp) (views : List ToolView)
    → append_artifact x k s rows a stamp ≡ ok (s', rows')
    → verify_chain x s (map (λ r. r.artifact) rows) views ≡ none
    → All (λ v. find_event v.event_id s.events ≢ none) views
    → verify_chain x s' (map (λ r. r.artifact) rows') views ≡ none
unfolding append_artifact verify_chain verify_artifacts
append_artifact-verifies x k s s' rows rows' a stamp views h fine known =
    let (d, _, h₁) = >>=-eq-ok (safe_data x k (x.redact_text a.mime_type).0 a.content) _ h in
    let (got, append, h₂) =
      >>=-eq-ok
        (recast store_error (append_event_in_tx x s (artifact_event x a d stamp) stamp.event)) _
        h₁ in
    let (_, h₃) =
      >>-eq-ok (raise_if (any (λ r. r.artifact.id == stamp.artifact_id) rows) integrity_error) _
        h₂ in
    let store : got.0 ≡ s' = cc h₃ in
    let table : artifact_row x a d stamp got.1 ∷ rows ≡ rows' = cc h₃ in
    let (canonical, whole, shown) = chain_parts x got.0 (map (λ r. r.artifact) rows) views (
      verify_chain-append x s (artifact_event x a d stamp) stamp.event got.0 got.1
        (map (λ r. r.artifact) rows) views fine known (ne_of_beq "internal" "legacy_untrusted" refl)
        (recast-eq-ok store_error _ append)) in
    subst₂ (λ t l. verify_chain x t (map (λ r. r.artifact) l) views ≡ none) store table
      (rw (verify_chain, canonical, verify_artifacts, beq_refl (x.sha256_bytes d.stored), whole)
        shown)
