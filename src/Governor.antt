-- ===== src/Governor.antt =====
-- src/joiny_mnemonic/governor.py: the thresholds and the decision of the budget governor.
-- A ratio is a floating point number of the host, and `math.ceil` of a product is a parameter. Where
-- the reserve exceeds the window Python's values are negative and the policy is refused; the numbers
-- here stop at 0, and it is refused as well.
pub mod Counters
mod Tests
use joiny_mnemonic.Prelude.{
  ℕ, ◌+◌, ◌-◌, ◌≤◌, ◌<◌, min, max, String, Bool, true, false, not, ◌||◌, Option, none, some, List,
  [], ◌∷◌, ◌++◌, if◌then◌else◌, ◌==◌, nat_eq, ltb, leb, Outcome, ok, raise, ◌>>=◌, ◌≡◌, refl, arith,
  >>=-eq-ok, Bool-cases, inl, inr,
}

-- The fields of `BudgetPolicy` that the governor reads
pub record BudgetPolicy (Ratio : Type 0) : Type 0 where
  pub id : String
  pub context_window_tokens : ℕ
  pub snapshot_ratio : Ratio
  pub compact_ratio : Ratio
  pub handoff_ratio : Ratio
  pub hard_limit_ratio : Ratio
  pub recommended_handoff_tokens : Option ℕ
  pub reserve_tokens : ℕ

pub record Thresholds : Type 0 where
  pub snapshot : ℕ
  pub compact : ℕ
  pub handoff : ℕ
  pub handoff_required : ℕ

pub data GovernorError : Type 0 where
  invalid_policy : GovernorError

pub data Action : Type 0 where
  snapshot compact handoff handoff_required : Action

-- `min(value, window - policy.reserve_tokens)`, where there is a reserve
abbrev pub within_reserve : ℕ → ℕ → ℕ → ℕ
within_reserve window reserve value = if reserve == 0 then value else min value (window - reserve)

abbrev pub or_recommended : Option ℕ → ℕ → ℕ
or_recommended none physical = physical
or_recommended (some recommended) physical = min physical recommended

-- `ceil_product window ratio` is `math.ceil(window * ratio)`, and `ceil_scaled window ratio a b` is
-- `math.ceil(window * ratio * scale)` with the scale `a / b`, or 1 where `b` is 0.
module _ (Ratio : Type 0) (ceil_product : ℕ → Ratio → ℕ) (ceil_scaled : ℕ → Ratio → ℕ → ℕ → ℕ) where
  -- The check at the end of `thresholds`
  unfoldable pub checked : Thresholds → Outcome GovernorError Thresholds
  checked t = if leb t.handoff_required t.handoff then raise invalid_policy else ok t

  unfoldable pub thresholds : BudgetPolicy Ratio → Outcome GovernorError Thresholds
  unfolding checked
  thresholds policy =
      let window = policy.context_window_tokens in
      let physical_handoff =
        within_reserve window policy.reserve_tokens (ceil_product window policy.handoff_ratio) in
      let target = or_recommended policy.recommended_handoff_tokens physical_handoff in
      let low = max 1 (ceil_scaled window policy.snapshot_ratio target physical_handoff) in
      let middle =
        max (low + 1) (ceil_scaled window policy.compact_ratio target physical_handoff) in
      let hard =
        within_reserve window policy.reserve_tokens (ceil_product window policy.hard_limit_ratio) in
      checked (record {
        snapshot = low;
        compact = middle;
        handoff = max (middle + 1) target;
        handoff_required = hard;
      })

  -- The loop of `decide` over the four actions
  unfoldable pub actions_at : Thresholds → ℕ → List Action
  actions_at t context_tokens =
      (if leb t.snapshot context_tokens then snapshot ∷ [] else [])
      ++ ((if leb t.compact context_tokens then compact ∷ [] else [])
          ++ ((if leb t.handoff context_tokens then handoff ∷ [] else [])
              ++ (if leb t.handoff_required context_tokens then handoff_required ∷ [] else [])))

  -- `decide`, for the estimate that `estimate_context` gave
  unfoldable pub decide : BudgetPolicy Ratio → ℕ → Outcome GovernorError (List Action)
  decide policy context_tokens = do t ← thresholds policy; ok (actions_at t context_tokens)

  -- `estimate_context`: the tokens, from the provider's report, the hooks' total, or the estimates of
  -- the events
  unfoldable pub estimate_context : Option ℕ → ℕ → List ℕ → ℕ
  estimate_context (some reported) hook_total estimates =
      if leb hook_total reported then reported else hook_total
  estimate_context none hook_total estimates = if hook_total == 0 then sum estimates else hook_total
    where
      sum : List ℕ → ℕ
      sum [] = 0
      sum (n ∷ ns) = n + sum ns

  -- Thresholds that are returned are positive, rise strictly from the snapshot to the hard handoff, and
  -- keep the reserve of the policy, whatever the floating point numbers are.
  pub thresholds-ordered :
      (policy : BudgetPolicy Ratio) (t : Thresholds)
      → thresholds policy ≡ ok t
      → (0 < t.snapshot)
        × (t.snapshot < t.compact)
        × (t.compact < t.handoff)
        × (t.handoff < t.handoff_required)
        × (t.handoff_required + policy.reserve_tokens
            ≤ max policy.context_window_tokens
                (ceil_product policy.context_window_tokens policy.hard_limit_ratio))
  unfolding thresholds checked
  thresholds-ordered policy t h = ground arith

  -- A decision asks for the actions whose threshold is reached, and these are the first so many of the
  -- four: never a later one without all that come before it.
  pub decide-staged :
      (policy : BudgetPolicy Ratio) (t : Thresholds) (context_tokens : ℕ)
      → thresholds policy ≡ ok t
      → decide policy context_tokens
        ≡ ok (
            if ltb context_tokens t.snapshot
            then []
            else if ltb context_tokens t.compact
            then snapshot ∷ []
            else if ltb context_tokens t.handoff
            then snapshot ∷ compact ∷ []
            else if ltb context_tokens t.handoff_required
            then snapshot ∷ compact ∷ handoff ∷ []
            else snapshot ∷ compact ∷ handoff ∷ handoff_required ∷ [])
  unfolding decide actions_at
  decide-staged policy t context_tokens h =
      let (_, first, second, third, _) = thresholds-ordered policy t h in rw h (ground arith)
