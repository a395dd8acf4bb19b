-- ===== src/Ledgers/Policies/Granted.antt =====
-- Which policies get in force, in src/joiny_mnemonic/storage.py.
use joiny_mnemonic.Prelude.{
  ◌+◌, String, Bool, true, false, not, Option, some, List, [], ◌∷◌, ◌==◌, string_eq, ltb, elem, any,
  All, ok, raise_if, >>-eq-ok, raise_if-eq-ok, ◌≡◌, refl, sym, ap, ◌∙◌, ◌⊎◌, arith, Bool-cases,
  Option-cases, inl, inr, eq_iff,
}
use mathlib.Core.Path.{subst}
use joiny_mnemonic.Json.{Dict, lookup}
use joiny_mnemonic.Provenance.{bootstrap_tofu, host_logical_user}
use joiny_mnemonic.Store.{Event, integrity_error, Externals}
use joiny_mnemonic.Store.Ingest.{find_event}
use joiny_mnemonic.Ledgers.{
  Policy, Ledgers, store_error, unsupported_policy_operation, origin_mismatch, untrusted_policy,
  latest_policy, is_true, delegation_enabled, event_origin_evidence,
}
use joiny_mnemonic.Ledgers.Policies.{
  policy_activation_allowed, PolicyStamp, version_of, is_mismatch, active_policy, policy_row,
  activate_from, activate_policy,
}

-- The event that a policy names as its activation is in the log, and its origin may activate one.
pub record IsGranted (casefold : String → String) (events : List Event) (p : Policy) : Type 0 where
  pub source : Event
  pub at : find_event p.activation_event_id events ≡ some source
  pub origin : p.origin_evidence_type ≡ event_origin_evidence casefold source
  pub trusted :
      (p.origin_evidence_type ≡ bootstrap_tofu) ⊎ (p.origin_evidence_type ≡ host_logical_user)

allowed_origin :
    (origin : String)
    → policy_activation_allowed origin ≡ true
    → (origin ≡ bootstrap_tofu) ⊎ (origin ≡ host_logical_user)
unfolding policy_activation_allowed
allowed_origin origin h = elim (Bool-cases (origin == bootstrap_tofu)) [
  | inl first ↦ inl ((eq_iff origin bootstrap_tofu).0 first)
  | inr other ↦ inr ((eq_iff origin host_logical_user).0 (rw other at h))
]

find_event_id : (id : String) (es : List Event) (e : Event) → find_event id es ≡ some e → e.id ≡ id
unfolding find_event
find_event_id id [] e at = cc
find_event_id id (f ∷ es) e at = elim (Bool-cases (f.id == id)) [
  | inl same ↦
      let found : f ≡ e = cc (rw same at at) in
      subst (λ (v : Event). v.id ≡ id) found ((eq_iff f.id id).0 same)
  | inr other ↦ find_event_id id es e (rw other at at)
]

not_false : (b : Bool) → not b ≡ false → b ≡ true
not_false true h = refl
not_false false h = cc

-- What an activation did: the row of the next version, from an event that may make it.
record Activated (casefold : String → String) (x : Externals) (l : Ledgers) (policy : Dict)
    (source_event_id operation : String) (stamp : PolicyStamp) (l' : Ledgers) (p : Policy)
    : Type 0 where
  source : Event
  at : find_event source_event_id l.store.events ≡ some source
  allowed : policy_activation_allowed (event_origin_evidence casefold source) ≡ true
  row : p ≡ policy_row casefold x (latest_policy l.policies) policy source operation stamp
  state : l' ≡ record l { policies = p ∷ l.policies }

module _ (casefold : String → String) (x : Externals) (l : Ledgers) (policy : Dict)
    (source_event_id : String) (claimed : Option String) (operation : String) (stamp : PolicyStamp)
    (l' : Ledgers) (p : Policy) where
  activate_from-Activated :
      (e : Event)
      → find_event source_event_id l.store.events ≡ some e
      → activate_from casefold x l policy e claimed operation stamp ≡ ok (l', p)
      → Activated casefold x l policy source_event_id operation stamp l' p
  unfolding activate_from
  activate_from-Activated e at h =
      let origin = event_origin_evidence casefold e in
      let row : Policy =
        policy_row casefold x (latest_policy l.policies) policy e operation stamp in
      let taken = any (λ old. old.id == row.id) l.policies in
      let (_, h₁) = >>-eq-ok (raise_if (is_mismatch claimed origin) origin_mismatch) _ h in
      let (free, h₂) =
        >>-eq-ok (raise_if (not (policy_activation_allowed origin)) untrusted_policy) _ h₁ in
      let (_, h₃) =
        >>-eq-ok (raise_if taken (store_error integrity_error))
          (ok (record l { policies = row ∷ l.policies }, row)) h₂ in
      let same : row ≡ p = cc h₃ in
      let made : record l { policies = row ∷ l.policies } ≡ l' = cc h₃ in
      record {
        source = e;
        at = at;
        allowed = not_false _ (raise_if-eq-ok (not (policy_activation_allowed origin)) _ free);
        row = sym same;
        state = sym made ∙ ap {B = Ledgers} (λ v. record l { policies = v ∷ l.policies }) same;
      }

  activate_policy-Activated :
      activate_policy casefold x l policy source_event_id claimed operation stamp ≡ ok (l', p)
      → Activated casefold x l policy source_event_id operation stamp l' p
  unfolding activate_policy
  activate_policy-Activated h =
      let (_, h₁) =
        >>-eq-ok
          (raise_if (not (elem operation ("activated" ∷ "replaced" ∷ "rollback" ∷ [])))
            unsupported_policy_operation)
          _ h in
      elim (Option-cases (find_event source_event_id l.store.events)) [
        | inl missing ↦ cc (rw missing at h₁)
        | inr (e, at) ↦ activate_from-Activated e at (rw at at h₁)
      ]

  activation_event_id_lem :
      Activated casefold x l policy source_event_id operation stamp l' p
      → p.activation_event_id ≡ source_event_id
  activation_event_id_lem a =
      ap (λ v. v.activation_event_id) a.row
      ∙ find_event_id source_event_id l.store.events a.source a.at

  Activated-IsGranted :
      Activated casefold x l policy source_event_id operation stamp l' p
      → IsGranted casefold l.store.events p
  Activated-IsGranted a = record {
    source = a.source;
    at = rw (activation_event_id_lem a) a.at;
    origin = ap (λ v. v.origin_evidence_type) a.row;
    trusted =
        subst (λ v. (v ≡ bootstrap_tofu) ⊎ (v ≡ host_logical_user))
          (sym (ap (λ v. v.origin_evidence_type) a.row)) (allowed_origin _ a.allowed);
  }

  newest :
      (older : List Policy)
      → p.version ≡ version_of (latest_policy older) + 1
      → latest_policy (p ∷ older) ≡ some p
  unfolding latest_policy
  newest older next = elim (Option-cases (latest_policy older)) [
    | inl first ↦ rw first refl
    | inr (q, at) ↦
        let gap : p.version ≡ q.version + 1 = rw at at next in
        let later : ltb q.version p.version ≡ true = ground arith in
        rw (latest_policy, at, later) refl
  ]

  -- A policy that is activated is the active one at once, whatever the ledger held before, and agents may
  -- settle by delegation exactly when it says so. It names the event of the call as its activation, and
  -- this event is in the log and has the origin that the policy records, which is `host_logical_user` or
  -- `bootstrap_tofu`, whatever origin the caller claims.
  pub activate_policy-active :
      activate_policy casefold x l policy source_event_id claimed operation stamp ≡ ok (l', p)
      → (active_policy l' ≡ some p)
        × (delegation_enabled l' ≡ is_true (lookup "agent_settlement_delegation_enabled" policy))
        × (p.activation_event_id ≡ source_event_id)
        × IsGranted casefold l.store.events p
  unfolding active_policy delegation_enabled
  activate_policy-active h =
      let a = activate_policy-Activated h in
      let first = newest l.policies (ap (λ v. v.version) a.row) in
      (
        rw a.state first,
        rw (a.state, delegation_enabled, first)
            (ap (λ v. is_true (lookup "agent_settlement_delegation_enabled" v.policy)) a.row),
        activation_event_id_lem a,
        Activated-IsGranted a,
      )

  -- Where each policy of the ledger rests on an event of the log that may activate one, this is still so
  -- after an activation.
  pub activate_policy-IsGranted :
      activate_policy casefold x l policy source_event_id claimed operation stamp ≡ ok (l', p)
      → All (IsGranted casefold l.store.events) l.policies
      → All (IsGranted casefold l'.store.events) l'.policies
  activate_policy-IsGranted h granted =
      let a = activate_policy-Activated h in
      subst (λ v. All (IsGranted casefold v.store.events) v.policies) (sym a.state)
        (Activated-IsGranted a, granted)
