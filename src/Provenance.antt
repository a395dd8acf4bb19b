-- ===== src/Provenance.antt =====
-- src/joiny_mnemonic/provenance.py: the authority that an event's canonical fields give it.
-- `casefold` stands for the standard `str.casefold`.
mod Tests
use joiny_mnemonic.Prelude.{
  String, Bool, true, false, not, ◌&&◌, ◌||◌, Option, none, some, if◌then◌else◌, ◌==◌, string_eq,
  ◌≡◌, refl, eq_iff, ◌≢◌, ne_of_beq, beq_of_ne, and_true, both_true, ◌↔◌, sym, ◌∙◌,
}
use joiny_mnemonic.Json
use joiny_mnemonic.Json.{Dict, is_text}

abbrev pub public_api : String
public_api = "public_api"

abbrev pub host_hook : String
host_hook = "host_hook"

abbrev pub internal : String
internal = "internal"

abbrev pub external_untrusted : String
external_untrusted = "external_untrusted"

abbrev pub host_logical_user : String
host_logical_user = "host_logical_user"

abbrev pub host_assistant_finalization : String
host_assistant_finalization = "host_assistant_finalization"

abbrev pub local_operator : String
local_operator = "local_operator"

abbrev pub delegated_agent : String
delegated_agent = "delegated_agent"

abbrev pub bootstrap_tofu : String
bootstrap_tofu = "bootstrap_tofu"

abbrev pub settlement_request_operation : String
settlement_request_operation = "settlement_requested"

abbrev pub workstream_request_operation : String
workstream_request_operation = "workstream_transition_requested"

-- The fields that `EventProvenance` asks of an event.
pub record EventProvenance : Type 0 where
  pub role : Option String
  pub origin_channel : String
  pub origin_adapter : Option String
  pub payload : Dict

-- `(event.role or "")`
abbrev pub or_empty : Option String → String
or_empty none = ""
or_empty (some s) = s

-- `value == adapter` where the adapter is a non-empty text, as `bool(adapter)` demands.
abbrev stamped_by : Option Json.Json → Option String → Bool
stamped_by value none = false
stamped_by value (some adapter) = not (adapter == "") && is_text value adapter

-- The ladder of `origin_evidence_type` over its four tests.
abbrev ladder : Bool → Bool → Bool → Bool → String → String
ladder user assistant bootstrap request requester =
    if user
    then host_logical_user
    else if assistant
    then host_assistant_finalization
    else if bootstrap
    then bootstrap_tofu
    else if request
    then requester
    else external_untrusted

ladder-user :
    (a b c d : Bool) (r : String)
    → (r == host_logical_user) ≡ false
    → (ladder a b c d r == host_logical_user) ≡ a
ladder-user true b c d r h = refl
ladder-user false true c d r h = refl
ladder-user false false true d r h = refl
ladder-user false false false true r h = h
ladder-user false false false false r h = refl

ladder-operator :
    (a b c d : Bool) (r : String)
    → ladder a b c d r ≡ local_operator
    → (a ≡ false) × (d ≡ true) × (r ≡ local_operator)
ladder-operator true b c d r h = absurd (ne_of_beq host_logical_user local_operator refl h)
ladder-operator false true c d r h =
    absurd (ne_of_beq host_assistant_finalization local_operator refl h)
ladder-operator false false true d r h = absurd (ne_of_beq bootstrap_tofu local_operator refl h)
ladder-operator false false false true r h = (refl, refl, h)
ladder-operator false false false false r h =
    absurd (ne_of_beq external_untrusted local_operator refl h)

abbrev requester : Bool → Bool → String
requester operator agent =
    if operator then local_operator else if agent then delegated_agent else external_untrusted

requester-user : (a b : Bool) → (requester a b == host_logical_user) ≡ false
requester-user true b = refl
requester-user false true = refl
requester-user false false = refl

requester-operator : (a b : Bool) → requester a b ≡ local_operator → a ≡ true
requester-operator true b h = refl
requester-operator false true h = absurd (ne_of_beq delegated_agent local_operator refl h)
requester-operator false false h = absurd (ne_of_beq external_untrusted local_operator refl h)

abbrev bootstraps : EventProvenance → Bool
bootstraps event =
    event.origin_channel == internal
    && is_text (Json.lookup "operation" event.payload) "policy_bootstrapped"

abbrev pub asks_operation : EventProvenance → Bool
asks_operation event =
    let operation = Json.lookup "operation" event.payload in
    is_text operation settlement_request_operation || is_text operation workstream_request_operation

abbrev pub asked_by : EventProvenance → String → Bool
asked_by event name = is_text (Json.lookup "requested_by" event.payload) name

module _ (casefold : String → String) where
  abbrev pub speaks_as : EventProvenance → String → Bool
  speaks_as event name = event.origin_channel == host_hook && casefold (or_empty event.role) == name

  abbrev finalizes : EventProvenance → Bool
  finalizes event =
      speaks_as event "assistant"
      && (is_text (Json.lookup "hook_event_name" event.payload) "Stop"
          && stamped_by (Json.lookup "_joiny_origin_adapter" event.payload) event.origin_adapter)

  unfoldable pub origin_evidence_type : EventProvenance → String
  origin_evidence_type event =
      if speaks_as event "user"
      then host_logical_user
      else if finalizes event
      then host_assistant_finalization
      else if bootstraps event
      then bootstrap_tofu
      else if event.origin_channel == internal && asks_operation event
      then (if asked_by event "operator"
          then local_operator
          else if asked_by event "agent"
          then delegated_agent
          else external_untrusted)
      else external_untrusted

  unfoldable pub is_host_logical_user : EventProvenance → Bool
  unfolding origin_evidence_type
  is_host_logical_user event = origin_evidence_type event == host_logical_user

  -- A channel that is neither the host's nor the process's own gives no authority, whatever the
  -- payload claims.
  pub origin_evidence_type_untrusted :
      (event : EventProvenance)
      → event.origin_channel ≢ host_hook
      → event.origin_channel ≢ internal
      → origin_evidence_type event ≡ external_untrusted
  unfolding origin_evidence_type
  origin_evidence_type_untrusted event h k =
      rw (beq_of_ne event.origin_channel host_hook h, beq_of_ne event.origin_channel internal k)

  -- An event is a logical user's exactly when a host hook delivered it for the role `user`.
  pub is_host_logical_user_iff :
      (event : EventProvenance)
      → (is_host_logical_user event ≡ true)
        ↔ ((event.origin_channel ≡ host_hook) × (casefold (or_empty event.role) ≡ "user"))
  unfolding is_host_logical_user
  is_host_logical_user_iff event =
      let operator = asked_by event "operator" in
      let agent = asked_by event "agent" in
      let same =
        ladder-user (speaks_as event "user") (finalizes event) (bootstraps event)
          (event.origin_channel == internal && asks_operation event) (requester operator agent)
          (requester-user operator agent) in
      (
        (λ h.
            let (channel, role) = and_true _ _ (sym same ∙ h) in
            ((eq_iff _ _).0 channel, (eq_iff _ _).0 role)),
        (λ h. same ∙ both_true _ _ ((eq_iff _ _).1 h.0) ((eq_iff _ _).1 h.1)),
      )

  -- The local operator's authority comes from an internal request that names the operator, and
  -- from nothing else.
  pub origin_evidence_type-operator :
      (event : EventProvenance)
      → origin_evidence_type event ≡ local_operator
      → (event.origin_channel ≡ internal)
        × (asked_by event "operator" ≡ true)
        × (asks_operation event ≡ true)
  unfolding origin_evidence_type
  origin_evidence_type-operator event h =
      let operator = asked_by event "operator" in
      let agent = asked_by event "agent" in
      let (_, request, asked) =
        ladder-operator (speaks_as event "user") (finalizes event) (bootstraps event)
          (event.origin_channel == internal && asks_operation event) (requester operator agent) h in
      let (channel, operation) = and_true _ _ request in
      ((eq_iff _ _).0 channel, requester-operator operator agent asked, operation)
