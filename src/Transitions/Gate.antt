-- ===== src/Transitions/Gate.antt =====
-- What `validate_transition` accepts, over every rule and request.
use joiny_mnemonic.Prelude.{
  true, false, not, ◌||◌, [], ◌∷◌, ◌≡◌, ◌↔◌, ◌⊎◌, inl, inr, arith, ◌==◌, string_eq, elem, get, ok,
  Outcome, Bool-cases, eq_iff,
}
use joiny_mnemonic.Provenance.{delegated_agent}
use joiny_mnemonic.Transitions.{
  TransitionRule, TransitionDecision, TransitionError, Request, is_blank, targets, validate_reopen,
  validate_flow, validate_transition,
}

-- A terminal state is left for `active`, for a stated reason, by one of the reopen origins.
pub record MayReopen (rule : TransitionRule) (q : Request) : Type 0 where
  pub to_active : (q.target == "active") ≡ true
  pub from_terminal : elem q.current ("completed" ∷ "cancelled" ∷ []) ≡ true
  pub reasoned : is_blank q.reason ≡ false
  pub trusted : elem q.origin rule.reopen_origins ≡ true

-- The flow table has the edge, and its target is free, or the origin or the actor is trusted.
pub record MayFlow (rule : TransitionRule) (q : Request) : Type 0 where
  pub edge : elem q.target (targets (get q.current rule.flow)) ≡ true
  pub trusted :
      (q.system_actor
        || (not (elem q.target rule.trusted_targets) || elem q.origin rule.trusted_origins))
      ≡ true

pub record IsPermitted (rule : TransitionRule) (q : Request) : Type 0 where
  pub visible : q.source_visible ≡ true
  pub moves : (q.current == q.target) ≡ false
  pub delegated : (not (q.origin == delegated_agent) || q.delegated_enabled) ≡ true
  pub way : ((q.reopen ≡ true) × MayReopen rule q) ⊎ ((q.reopen ≡ false) × MayFlow rule q)

abbrev pub accepted : Request → Outcome TransitionError TransitionDecision
accepted q = ok (record { changed = true; origin = q.origin })

reopen_iff :
    (rule : TransitionRule) (q : Request) → (validate_reopen rule q ≡ accepted q) ↔ MayReopen rule q
unfolding validate_reopen
reopen_iff rule q = (
  (λ h. record {
    to_active = ground arith;
    from_terminal = ground arith;
    reasoned = ground arith;
    trusted = ground arith;
  }),
  (λ h. ground arith),
)

flow_iff :
    (rule : TransitionRule) (q : Request) → (validate_flow rule q ≡ accepted q) ↔ MayFlow rule q
unfolding validate_flow
flow_iff rule q =
    ((λ h. record { edge = ground arith; trusted = ground arith }), (λ h. ground arith))

module _ (rule : TransitionRule) (q : Request) where
  -- the tests that stand before the two branches
  IsPermitted-of_accepted : validate_transition rule q ≡ accepted q → IsPermitted rule q
  unfolding validate_transition
  IsPermitted-of_accepted h = record {
    visible = ground arith;
    moves = ground arith;
    delegated = ground arith;
    way = elim (Bool-cases q.reopen) [
      | inl e ↦ inl (e, (reopen_iff rule q).0 (ground arith))
      | inr e ↦ inr (e, (flow_iff rule q).0 (ground arith))
    ];
  }

  accepted-of_IsPermitted : IsPermitted rule q → validate_transition rule q ≡ accepted q
  unfolding validate_transition
  accepted-of_IsPermitted p = elim p.way [
    | inl (e, may) ↦
        let r = (reopen_iff rule q).1 may in
        let visible = p.visible in
        let moves = p.moves in let delegated = p.delegated in ground arith
    | inr (e, may) ↦
        let r = (flow_iff rule q).1 may in
        let visible = p.visible in
        let moves = p.moves in let delegated = p.delegated in ground arith
  ]

  -- A request is accepted as a change exactly when its source is visible, its target is not the current
  -- status, delegation is enabled where its origin is a delegated agent, and one of two ways is open. A
  -- request to reopen wants the target `active`, the current status `completed` or `cancelled`, a reason
  -- that is not blank, and an origin among the rule's reopen origins. Any other request wants the edge in
  -- the rule's flow table and, where its target is among the trusted targets, a system actor or an origin
  -- among the trusted origins.
  pub validate_transition_iff : (validate_transition rule q ≡ accepted q) ↔ IsPermitted rule q
  validate_transition_iff = (IsPermitted-of_accepted, accepted-of_IsPermitted)

  -- A request for the status that is current, from a visible source, is accepted for every rule and
  -- every origin, and changes nothing.
  pub validate_transition_repeat :
      q.source_visible ≡ true
      → q.current ≡ q.target
      → validate_transition rule q ≡ ok (record { changed = false; origin = q.origin })
  unfolding validate_transition
  validate_transition_repeat v same = rw (v, (eq_iff _ _).1 same)

  -- A decision that is no exception carries the origin of the request and either accepts a change, or
  -- changes nothing, and then the target is the current status.
  pub validate_transition-cases :
      (d : TransitionDecision)
      → validate_transition rule q ≡ ok d
      → ((d.changed ≡ true) × (validate_transition rule q ≡ accepted q))
        ⊎ ((d.changed ≡ false) × (q.current ≡ q.target))
  unfolding validate_transition validate_reopen validate_flow
  validate_transition-cases d h = ground (arith, eq_iff q.current q.target)

  pub validate_transition-visible :
      (d : TransitionDecision) → validate_transition rule q ≡ ok d → q.source_visible ≡ true
  unfolding validate_transition validate_reopen validate_flow
  validate_transition-visible d h = ground arith
