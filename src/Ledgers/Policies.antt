-- ===== src/Ledgers/Policies.antt =====
-- The policy ledger: `activate_policy` and `active_policy` of src/joiny_mnemonic/storage.py, and
-- `policy_activation_allowed` of src/joiny_mnemonic/policy_contract.py.
pub mod Granted
mod Tests
use joiny_mnemonic.Prelude.{
  ℕ, ◌+◌, ◌<◌, String, Bool, true, false, not, ◌&&◌, ◌||◌, Option, none, some, List, [], ◌∷◌,
  if◌then◌else◌, ◌==◌, string_eq, ltb, elem, any, All, Outcome, ok, raise, raise_if, ◌>>=◌, ◌>>◌,
  >>-eq-ok, raise_if-eq-ok, ◌≡◌, refl, sym, ap, ◌∙◌, ◌≢◌, arith, Bool-cases, Option-cases, inl, inr,
  eq_iff,
}
use joiny_mnemonic.Json.{Dict, obj, lookup}
use joiny_mnemonic.Provenance.{bootstrap_tofu, host_logical_user}
use joiny_mnemonic.Store.{Event, integrity_error, Externals}
use joiny_mnemonic.Store.Append.{json_text}
use joiny_mnemonic.Store.Ingest.{find_event}
use joiny_mnemonic.Ledgers.{
  Policy, Ledgers, LedgerError, store_error, unsupported_policy_operation, unknown_policy_source,
  origin_mismatch, untrusted_policy, latest_policy, is_true, delegation_enabled,
  event_origin_evidence,
}

unfoldable pub policy_activation_allowed : String → Bool
policy_activation_allowed origin = origin == bootstrap_tofu || origin == host_logical_user

-- The identifier and the time that one activation draws
pub record PolicyStamp : Type 0 where
  pub policy_id : String
  pub created_at : String

abbrev pub version_of : Option Policy → ℕ
version_of none = 0
version_of (some p) = p.version

abbrev pub id_of : Option Policy → Option String
id_of none = none
id_of (some p) = some p.id

-- `origin_evidence_type is not None and origin_evidence_type != derived_origin`
abbrev pub is_mismatch : Option String → String → Bool
is_mismatch none derived = false
is_mismatch (some claimed) derived = not (claimed == derived)

-- `active_policy`
unfoldable pub active_policy : Ledgers → Option Policy
active_policy l = latest_policy l.policies

module _ (casefold : String → String) (x : Externals) where
  abbrev pub policy_row : Option Policy → Dict → Event → String → PolicyStamp → Policy
  policy_row previous policy e operation stamp = record {
    id = stamp.policy_id;
    version = version_of previous + 1;
    policy_hash = x.sha256 (json_text x (obj policy));
    policy = policy;
    activation_event_id = e.id;
    previous_policy_id = id_of previous;
    operation = operation;
    origin_evidence_type = event_origin_evidence casefold e;
    created_at = stamp.created_at;
  }

  -- The checks of the source event, and `INSERT INTO policy_ledger`
  unfoldable pub activate_from :
      Ledgers
      → Dict
      → Event
      → Option String
      → String
      → PolicyStamp
      → Outcome LedgerError (Ledgers × Policy)
  unfolding policy_activation_allowed
  activate_from l policy e claimed operation stamp = do
    raise_if (is_mismatch claimed (event_origin_evidence casefold e)) origin_mismatch
    raise_if (not (policy_activation_allowed (event_origin_evidence casefold e))) untrusted_policy
    let row = policy_row (latest_policy l.policies) policy e operation stamp
    raise_if (any (λ old. old.id == row.id) l.policies) (store_error integrity_error)
    ok (record l { policies = row ∷ l.policies }, row)

  unfoldable pub activate_policy :
      Ledgers
      → Dict
      → String
      → Option String
      → String
      → PolicyStamp
      → Outcome LedgerError (Ledgers × Policy)
  activate_policy l policy source_event_id claimed operation stamp = do
    raise_if (not (elem operation ("activated" ∷ "replaced" ∷ "rollback" ∷ [])))
        unsupported_policy_operation
    elim (find_event source_event_id l.store.events) [
      | none ↦ raise unknown_policy_source
      | some e ↦ activate_from l policy e claimed operation stamp
    ]
