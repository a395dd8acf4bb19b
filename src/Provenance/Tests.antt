-- ===== src/Provenance/Tests.antt =====
-- The authority of a few events of provenance.py.
use joiny_mnemonic.Prelude.{String, none, ◌≡◌, refl}
use joiny_mnemonic.Json.{empty, item, str, lookup}
use joiny_mnemonic.Provenance.{EventProvenance, origin_evidence_type, local_operator, internal}

abbrev operator_request : EventProvenance
operator_request = record {
  role = none;
  origin_channel = internal;
  origin_adapter = none;
  payload =
      item "operation" (str "settlement_requested") (item "requested_by" (str "operator") empty);
}

abbrev same_case : String → String
same_case s = s

operator_speaks : origin_evidence_type same_case operator_request ≡ local_operator
unfolding origin_evidence_type lookup
operator_speaks = refl
