-- ===== src/Transitions.antt =====
-- src/joiny_mnemonic/transition_rules.py: the status flows and `validate_transition`.
pub mod Gate
pub mod Ledger
pub mod Trust
mod Tests
use Prim.Native.Char.{Char, code}
use Prim.Native.String
use joiny_mnemonic.Prelude.{
  ℕ, String, Bool, true, false, not, ◌&&◌, ◌||◌, Option, none, some, List, [], ◌∷◌, if◌then◌else◌,
  ◌==◌, string_eq, nat_eq, elem, get, leb, Outcome, ok, raise, ◌>>=◌, ◌>>◌, raise_if,
}
use joiny_mnemonic.Provenance.{host_logical_user, local_operator, delegated_agent, bootstrap_tofu}

abbrev pub Flow : Type 0
Flow = List (String × List String)

abbrev pub workstream_flow : Flow
workstream_flow =
    ("active", "blocked" ∷ "completed" ∷ "cancelled" ∷ [])
    ∷ ("blocked", "active" ∷ "completed" ∷ "cancelled" ∷ [])
    ∷ ("completed", [])
    ∷ ("cancelled", [])
    ∷ []

abbrev pub candidate_flow : Flow
candidate_flow =
    ("auto", "confirmation_requested" ∷ "rejection_requested" ∷ "supersession_requested" ∷ [])
    ∷ ("quarantined", "confirmation_requested" ∷ "rejection_requested" ∷ [])
    ∷ ("confirmation_requested", "confirmed" ∷ "rejected" ∷ [])
    ∷ ("rejection_requested", "rejected" ∷ [])
    ∷ ("supersession_requested", "superseded" ∷ [])
    ∷ ("confirmed", "supersession_requested" ∷ [])
    ∷ ("rejected", [])
    ∷ ("superseded", [])
    ∷ []

abbrev pub finding_flow : Flow
finding_flow =
    ("active", "acknowledgement_requested" ∷ [])
    ∷ ("acknowledgement_requested", "acknowledged" ∷ [])
    ∷ ("acknowledged", [])
    ∷ []

abbrev pub settlement_flow : Flow
settlement_flow =
    ("pending", "applied" ∷ "contested" ∷ [])
    ∷ ("applied", "reverted" ∷ "contested" ∷ [])
    ∷ ("reverted", [])
    ∷ ("contested", [])
    ∷ []

abbrev pub user_or_operator : List String
user_or_operator = host_logical_user ∷ local_operator ∷ []

abbrev pub user_operator_or_delegate : List String
user_operator_or_delegate = host_logical_user ∷ local_operator ∷ delegated_agent ∷ []

-- `TransitionRule`; the name is used in messages only
pub record TransitionRule : Type 0 where
  pub name : String
  pub flow : Flow
  pub trusted_targets : List String
  pub trusted_origins : List String
  pub reopen_origins : List String

pub record TransitionDecision : Type 0 where
  pub changed : Bool
  pub origin : String

-- The keyword arguments of `validate_transition`.
pub record Request : Type 0 where
  pub current : String
  pub target : String
  pub origin : String
  pub source_visible : Bool
  pub delegated_enabled : Bool
  pub reopen : Bool
  pub reason : String
  pub system_actor : Bool

-- What `validate_transition` raises, one constructor for each `raise`.
pub data TransitionError : Type 0 where
  source_not_visible delegation_disabled : TransitionError
  reopen_not_terminal reopen_without_reason reopen_untrusted : TransitionError
  illegal_transition untrusted_target : TransitionError

-- The exception class of each: `PermissionError` or `ValueError`
unfoldable pub is_permission_error : TransitionError → Bool
is_permission_error source_not_visible = true
is_permission_error delegation_disabled = true
is_permission_error reopen_not_terminal = false
is_permission_error reopen_without_reason = false
is_permission_error reopen_untrusted = true
is_permission_error illegal_transition = false
is_permission_error untrusted_target = true

-- The white space that `str.strip` removes.
is_space : ℕ → Bool
is_space c =
    leb 0x9 c && leb c 0xd
    || (leb 0x1c c && leb c 0x20
        || (elem c (0x85 ∷ 0xa0 ∷ 0x1680 ∷ 0x2028 ∷ 0x2029 ∷ 0x202f ∷ 0x205f ∷ 0x3000 ∷ [])
            || leb 0x2000 c && leb c 0x200a))

-- `not text.strip()`
unfoldable pub is_blank : String → Bool
unfolding is_space
is_blank String.[] = true
is_blank (String.◌∷◌ c s) = is_space (code c) && is_blank s

-- `rule.flow.get(current, frozenset())`
abbrev pub targets : Option (List String) → List String
targets none = []
targets (some ts) = ts

-- The branch of `validate_transition` under `if reopen`
unfoldable pub validate_reopen :
    TransitionRule → Request → Outcome TransitionError TransitionDecision
unfolding is_blank
validate_reopen rule q = do
  raise_if (not (q.target == "active") || not (elem q.current ("completed" ∷ "cancelled" ∷ [])))
      reopen_not_terminal
  raise_if (is_blank q.reason) reopen_without_reason
  raise_if (not (elem q.origin rule.reopen_origins)) reopen_untrusted
  ok (record { changed = true; origin = q.origin })

-- The last part of `validate_transition`: the flow table and the trusted targets
unfoldable pub validate_flow : TransitionRule → Request → Outcome TransitionError TransitionDecision
validate_flow rule q = do
  raise_if (not (elem q.target (targets (get q.current rule.flow)))) illegal_transition
  raise_if
      (not q.system_actor
        && (elem q.target rule.trusted_targets && not (elem q.origin rule.trusted_origins)))
      untrusted_target
  ok (record { changed = true; origin = q.origin })

unfoldable pub validate_transition :
    TransitionRule → Request → Outcome TransitionError TransitionDecision
validate_transition rule q =
    if not q.source_visible
    then raise source_not_visible
    else if q.current == q.target
    then ok (record { changed = false; origin = q.origin })
    else if q.origin == delegated_agent && not q.delegated_enabled
    then raise delegation_disabled
    else if q.reopen
    then validate_reopen rule q
    else validate_flow rule q

abbrev pub workstream_rule : TransitionRule
workstream_rule = record {
  name = "workstream";
  flow = workstream_flow;
  trusted_targets = "completed" ∷ "cancelled" ∷ [];
  trusted_origins = user_operator_or_delegate;
  reopen_origins = user_operator_or_delegate;
}

abbrev pub candidate_rule : TransitionRule
candidate_rule = record {
  name = "memory candidate";
  flow = candidate_flow;
  trusted_targets = "confirmed" ∷ "rejected" ∷ "superseded" ∷ [];
  trusted_origins = user_operator_or_delegate;
  reopen_origins = [];
}

abbrev pub finding_rule : TransitionRule
finding_rule = record {
  name = "security finding";
  flow = finding_flow;
  trusted_targets = "acknowledged" ∷ [];
  trusted_origins = user_or_operator;
  reopen_origins = [];
}

abbrev pub settlement_rule : TransitionRule
settlement_rule = record {
  name = "settlement";
  flow = settlement_flow;
  trusted_targets = "applied" ∷ "reverted" ∷ "contested" ∷ [];
  trusted_origins = bootstrap_tofu ∷ host_logical_user ∷ local_operator ∷ delegated_agent ∷ [];
  reopen_origins = [];
}
