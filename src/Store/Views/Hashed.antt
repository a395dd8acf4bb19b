-- ===== src/Store/Views/Hashed.antt =====
-- When `save_tool_output_view` of src/joiny_mnemonic/storage.py keeps a store that verifies.
use mathlib.Core.Path.{subst}
use joiny_mnemonic.Prelude.{
  String, true, false, not, ◌||◌, none, some, List, [], ◌∷◌, map, ◌==◌, string_eq, any, elem, ok,
  raise_if, >>-eq-ok, raise_if-eq-ok, ◌≡◌, ◌↔◌, arith, Bool-cases, Option-cases, inl, inr, eq_iff,
  beq_refl,
}
use joiny_mnemonic.Store.{Event, Store, Externals}
use joiny_mnemonic.Store.Ingest.{find_event}
use joiny_mnemonic.Store.Verify.{
  Artifact, ToolView, verify_rows, verify_artifacts, verify_views, verify_chain,
}
use joiny_mnemonic.Store.Views.{
  NewView, ViewRow, ViewStamp, unsupported_level, not_tool_output, wrong_source, view_row, same_key,
  find_view, insert_view, read_back, save_tool_output_view,
}

pub chain_parts :
    (x : Externals) (s : Store) (artifacts : List Artifact) (views : List ToolView)
    → verify_chain x s artifacts views ≡ none
    → (verify_rows x none s.events ≡ none)
      × (verify_artifacts x artifacts ≡ none)
      × (verify_views x s.events views ≡ none)
unfolding verify_chain
chain_parts x s artifacts views h = elim (Option-cases (verify_rows x none s.events)) [
  | inr (broken, bad) ↦ cc (rw (verify_chain, bad) at h)
  | inl fine ↦ elim (Option-cases (verify_artifacts x artifacts)) [
    | inr (broken, bad) ↦ cc (rw (verify_chain, fine, bad) at h)
    | inl whole ↦ (fine, whole, (rw (verify_chain, fine, whole) at h))
  ]
]

-- A view of a known event with the event's hash passes exactly when its own hash is right.
view_first :
    (x : Externals) (s : Store) (w : ToolView) (ws : List ToolView) (e : Event)
    → find_event w.event_id s.events ≡ some e
    → (w.source_hash == e.content_hash) ≡ true
    → verify_views x s.events ws ≡ none
    → (verify_views x s.events (w ∷ ws) ≡ none) ↔ (x.sha256 w.content ≡ w.content_hash)
unfolding verify_views
view_first x s w ws e at source rest = elim (Bool-cases (x.sha256 w.content == w.content_hash)) [
  | inl right ↦ (
    (λ _. (eq_iff (x.sha256 w.content) w.content_hash).0 right),
    (λ _. rw (verify_views, at, right, source) rest),
  )
  | inr wrong ↦ (
    (λ k. cc (rw (verify_views, at, wrong) at k)),
    (λ k. cc (wrong, (eq_iff (x.sha256 w.content) w.content_hash).1 k)),
  )
]

module _ (x : Externals) (s : Store) (rows rows' : List ViewRow) (v : NewView) (stamp : ViewStamp)
    (r : ViewRow) (h : save_tool_output_view x s rows v stamp ≡ ok (rows', r)) where
  -- What was checked of the source, and what the table is after it
  record Saved : Type 0 where
    event : Event
    at : find_event v.event_id s.events ≡ some event
    source : (v.source_hash == event.content_hash) ≡ true
    state : insert_view x rows v stamp ≡ rows'

  read_back-eq-ok : (t : List ViewRow) → read_back v t ≡ ok (rows', r) → t ≡ rows'
  read_back-eq-ok t k = elim (Option-cases (find_view v t)) [
    | inl missing ↦ cc (rw (read_back, missing) at k)
    | inr (row, at) ↦ cc (rw (read_back, at) at k)
  ]

  same_hash : (a b : String) → not (a == b) ≡ false → (b == a) ≡ true
  same_hash a b k = rw ((eq_iff a b).0 (ground arith)) (beq_refl b)

  saved : Saved
  unfolding save_tool_output_view
  saved =
      let (_, h₁) =
        >>-eq-ok (raise_if (not (elem v.level ("compact" ∷ "summary" ∷ []))) unsupported_level) _
          h in
      elim (Option-cases (find_event v.event_id s.events)) [
        | inl missing ↦ cc (rw missing at h₁)
        | inr (e, at) ↦
            let (_, h₂) =
              >>-eq-ok (raise_if (not (e.kind == "tool_output")) not_tool_output) _ (rw at at h₁) in
            let (own, h₃) =
              >>-eq-ok (raise_if (not (e.content_hash == v.source_hash)) wrong_source) _ h₂ in
            record {
              event = e;
              at = at;
              source = same_hash e.content_hash v.source_hash (raise_if-eq-ok _ _ own);
              state = read_back-eq-ok (insert_view x rows v stamp) h₃;
            }
      ]

  -- Where a store verifies, and the view is new, it verifies after the view was saved exactly when the hash
  -- that the caller gave is that of the content after its redaction.
  pub save_tool_output_view-verifies :
      (artifacts : List Artifact)
      → verify_chain x s artifacts (map (λ w. w.view) rows) ≡ none
      → any (λ w. w.view.id == stamp.view_id || same_key v w) rows ≡ false
      → (verify_chain x s artifacts (map (λ w. w.view) rows') ≡ none)
        ↔ (x.sha256 (x.redact_text v.content).0 ≡ v.content_hash)
  unfolding verify_chain insert_view
  save_tool_output_view-verifies artifacts fine new =
      let (canonical, whole, shown) = chain_parts x s artifacts (map (λ w. w.view) rows) fine in
      let w = view_row x v stamp in
      let rest = map (λ u. u.view) rows in
      let added : w ∷ rows ≡ rows' = rw (insert_view, new) at saved.state in
      let (to, from) = view_first x s w.view rest saved.event saved.at saved.source shown in
      subst
        (λ l.
          (verify_chain x s artifacts (map (λ u. u.view) l) ≡ none)
          ↔ (x.sha256 (x.redact_text v.content).0 ≡ v.content_hash))
        added
        (
          (λ k. to (rw (verify_chain, canonical, whole) at k)),
          (λ k. rw (verify_chain, canonical, whole) (from k)),
        )
