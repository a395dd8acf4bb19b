-- ===== src/Store/Verify/Append.antt =====
-- An append keeps a chain that verifies.
use mathlib.Core.Path.{subst₂}
use Prim.Native.String.{◌++◌ as text_append}
use joiny_mnemonic.Prelude.{
  String, Option, none, some, List, [], ◌∷◌, ◌++◌, ◌==◌, string_eq, option_eq, last?, All,
  Option-cases, ok, ◌≡◌, refl, sym, ap, ◌∙◌, ◌≢◌, Bool-cases, inl, inr, beq_of_ne,
}
use joiny_mnemonic.Json.{obj, sort_json}
use joiny_mnemonic.Store.{Event, Store, Externals}
use joiny_mnemonic.Store.Append.{
  NewEvent, Stamp, json_text, canonical_fields, hash_or_empty, chain_tip, redacted, event_row,
  append_event_in_tx,
}
use joiny_mnemonic.Store.Ingest.{find_event}
use joiny_mnemonic.Store.Sound.{append_event_in_tx-Appended}
use joiny_mnemonic.Store.Verify.{
  Artifact, ToolView, canonical, verify_rows, verify_artifacts, verify_views, verify_chain,
}
use joiny_mnemonic.Store.Verify.Rows.{IsLinked, tip_after, verify_rows-snoc}

-- The two dictionaries that the write and the check hash differ in order only.
canonical_row :
    (x : Externals) (last : Option Event) (n : NewEvent) (stamp : Stamp)
    → n.origin_channel ≢ "legacy_untrusted"
    → canonical x (event_row x last n stamp) ≡ json_text x (obj (canonical_fields n stamp))
unfolding canonical event_row json_text sort_json
canonical_row x last n stamp h = rw (beq_of_ne n.origin_channel "legacy_untrusted" h)

module _ (x : Externals) (last : Option Event) (n : NewEvent) (stamp : Stamp) where
  row_previous : (event_row x last n stamp).previous_hash ≡ chain_tip last
  unfolding event_row
  row_previous = refl

  row_content :
      (event_row x last n stamp).content_hash
      ≡ x.sha256 (json_text x (obj (canonical_fields n stamp)))
  unfolding event_row
  row_content = refl

  row_chain :
      (event_row x last n stamp).chain_hash
      ≡ x.sha256
          (text_append (hash_or_empty (chain_tip last)) (event_row x last n stamp).content_hash)
  unfolding event_row
  row_chain = refl

  -- The row of an append is linked to the row before it.
  event_row-IsLinked :
      n.origin_channel ≢ "legacy_untrusted" → IsLinked x (chain_tip last) (event_row x last n stamp)
  event_row-IsLinked h =
      let content = row_content ∙ sym (ap x.sha256 (canonical_row x last n stamp h)) in
      record {
        previous_hash = row_previous;
        content_hash = content;
        chain_hash =
            row_chain ∙ ap (λ c. x.sha256 (text_append (hash_or_empty (chain_tip last)) c)) content;
      }

tip_after-chain_tip : (x : Externals) (last : Option Event) → tip_after x none last ≡ chain_tip last
tip_after-chain_tip x none = refl
tip_after-chain_tip x (some e) = refl

redacted_channel : (x : Externals) (n : NewEvent) → (redacted x n).origin_channel ≡ n.origin_channel
unfolding redacted
redacted_channel x n = refl

find_event-append :
    (id : String) (es : List Event) (e : Event)
    → find_event id es ≢ none
    → find_event id (es ++ e ∷ []) ≡ find_event id es
unfolding find_event
find_event-append id [] e h = absurd (h refl)
find_event-append id (f ∷ es) e h = elim (Bool-cases (f.id == id)) [
  | inl here ↦ rw here
  | inr later ↦ rw later (find_event-append id es e (rw later at h))
]

verify_views-append :
    (x : Externals) (es : List Event) (e : Event) (vs : List ToolView)
    → All (λ v. find_event v.event_id es ≢ none) vs
    → verify_views x (es ++ e ∷ []) vs ≡ verify_views x es vs
unfolding verify_views
verify_views-append x es e [] h = refl
verify_views-append x es e (v ∷ vs) h = elim (Option-cases (find_event v.event_id es)) [
  | inl missing ↦ absurd (h.0 missing)
  | inr (row, found) ↦
      rw (find_event-append v.event_id es e h.0 ∙ found, found, verify_views)
        (rw (verify_views-append x es e vs h.1))
]

-- A store that verifies, in which each tool view has its event, still verifies after an append
-- through any channel but `legacy_untrusted`.
pub verify_chain-append :
    (x : Externals) (s : Store) (n : NewEvent) (stamp : Stamp) (s' : Store) (e : Event)
    (artifacts : List Artifact) (views : List ToolView)
    → verify_chain x s artifacts views ≡ none
    → All (λ v. find_event v.event_id s.events ≢ none) views
    → n.origin_channel ≢ "legacy_untrusted"
    → append_event_in_tx x s n stamp ≡ ok (s', e)
    → verify_chain x s' artifacts views ≡ none
unfolding verify_chain
verify_chain-append x s n stamp s' e artifacts views h known live appended =
    let a = append_event_in_tx-Appended x s n stamp s' e appended in
    let row = redacted x n in
    let channel : row.origin_channel ≢ "legacy_untrusted" = rw (redacted_channel x n) live in
    let linked =
      subst₂ (λ p v. IsLinked x p v) (sym (tip_after-chain_tip x (last? s.events))) (sym a.row)
        (event_row-IsLinked x (last? s.events) row stamp channel) in
    elim (Option-cases (verify_rows x none s.events)) [
      | inr (broken, bad) ↦ cc (rw (verify_chain, bad) at h)
      | inl fine ↦ elim (Option-cases (verify_artifacts x artifacts)) [
        | inr (broken, bad) ↦ cc (rw (verify_chain, fine, bad) at h)
        | inl whole ↦
            rw
              (
                a.store,
                verify_chain,
                verify_rows-snoc x none s.events e fine linked,
                whole,
                a.store,
                verify_views-append x s.events e views known,
              )
              (rw (verify_chain, fine, whole) at h)
      ]
    ]
