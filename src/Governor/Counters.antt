-- ===== src/Governor/Counters.antt =====
-- The hook context counters of src/joiny_mnemonic/storage.py: `record_hook_context_increment` and
-- `hook_context_total` of a session. The branch, the session and the event of a call are taken to exist, as
-- the foreign keys demand.
use mathlib.Core.Path.{subst}
use joiny_mnemonic.Prelude.{
  ℕ, ◌+◌, String, Bool, true, false, ◌&&◌, Option, none, some, List, [], ◌∷◌, if◌then◌else◌, ◌==◌,
  string_eq, ◌≡◌, refl, sym, ap, ◌∙◌, Bool-cases, Option-cases, inl, inr, eq_iff,
}

-- A row of `hook_context_counters`; the newest stands first.
pub record Counter : Type 0 where
  pub receipt_key : String
  pub branch_id : String
  pub session_id : String
  pub event_id : Option String
  pub event_name : String
  pub increment_tokens : ℕ
  pub cumulative_tokens : ℕ

-- The arguments; an increment is natural, so that none is refused as negative.
pub record Increment : Type 0 where
  pub receipt_key : String
  pub branch_id : String
  pub session_id : String
  pub event_id : Option String
  pub event_name : String
  pub increment_tokens : ℕ

unfoldable pub find_counter : String → List Counter → Option Counter
find_counter key [] = none
find_counter key (c ∷ cs) = if c.receipt_key == key then some c else find_counter key cs

unfoldable pub latest_counter : String → String → List Counter → Option Counter
latest_counter branch session [] = none
latest_counter branch session (c ∷ cs) =
    if c.branch_id == branch && c.session_id == session
    then some c
    else latest_counter branch session cs

abbrev pub total_of : Option Counter → ℕ
total_of none = 0
total_of (some c) = c.cumulative_tokens

-- `hook_context_total` for a session
unfoldable pub hook_context_total : String → String → List Counter → ℕ
hook_context_total branch session counters = total_of (latest_counter branch session counters)

abbrev pub counter_row : Increment → ℕ → Counter
counter_row i cumulative = record {
  receipt_key = i.receipt_key;
  branch_id = i.branch_id;
  session_id = i.session_id;
  event_id = i.event_id;
  event_name = i.event_name;
  increment_tokens = i.increment_tokens;
  cumulative_tokens = cumulative;
}

-- The table, and what the method returns: the increment, the total, and whether a row is new
unfoldable pub record_hook_context_increment :
    List Counter → Increment → List Counter × ℕ × ℕ × Bool
record_hook_context_increment counters i = elim (find_counter i.receipt_key counters) [
  | some existing ↦ (counters, existing.increment_tokens, existing.cumulative_tokens, false)
  | none ↦
      let cumulative = hook_context_total i.branch_id i.session_id counters + i.increment_tokens in
      (counter_row i cumulative ∷ counters, i.increment_tokens, cumulative, true)
]

-- A new receipt adds its increment to the total of its session and to no other, and a receipt that was
-- recorded before changes no total.
pub hook_context_total-record :
    (counters : List Counter) (i : Increment) (branch session : String)
    → let after = record_hook_context_increment counters i in
      hook_context_total branch session after.0 ≡ (
        if after.3 && (i.branch_id == branch && i.session_id == session)
        then hook_context_total i.branch_id i.session_id counters + i.increment_tokens
        else hook_context_total branch session counters)
unfolding record_hook_context_increment hook_context_total latest_counter
hook_context_total-record counters i branch session =
    elim (Option-cases (find_counter i.receipt_key counters)) [
      | inr (c, old) ↦ rw (record_hook_context_increment, old) refl
      | inl new ↦ elim (Bool-cases (i.branch_id == branch && i.session_id == session)) [
        | inl same ↦ rw (record_hook_context_increment, new, same) refl
        | inr other ↦ rw (record_hook_context_increment, new, other) refl
      ]
    ]

-- A second call with the same receipt writes nothing and returns what the first call returned.
record_hook_context_increment-again :
    (counters : List Counter) (i j : Increment)
    → j.receipt_key ≡ i.receipt_key
    → let after = record_hook_context_increment counters i in
      record_hook_context_increment after.0 j ≡ (after.0, after.1, after.2, false)
unfolding record_hook_context_increment find_counter
record_hook_context_increment-again counters i j same =
    elim (Option-cases (find_counter i.receipt_key counters)) [
      | inr (c, old) ↦
          let answer : List Counter × ℕ × ℕ × Bool =
            (counters, c.increment_tokens, c.cumulative_tokens, false) in
          let first : record_hook_context_increment counters i ≡ answer =
            rw (record_hook_context_increment, old) refl in
          let second : record_hook_context_increment counters j ≡ answer =
            rw (record_hook_context_increment, ap (λ v. find_counter v counters) same ∙ old) refl in
          subst (λ v. record_hook_context_increment v.0 j ≡ (v.0, v.1, v.2, false)) (sym first)
            second
      | inl new ↦
          let total = hook_context_total i.branch_id i.session_id counters + i.increment_tokens in
          let row = counter_row i total in
          let first : record_hook_context_increment counters i
              ≡ (row ∷ counters, i.increment_tokens, total, true) =
            rw (record_hook_context_increment, new) refl in
          let second : record_hook_context_increment (row ∷ counters) j
              ≡ (row ∷ counters, i.increment_tokens, total, false) =
            rw (record_hook_context_increment, (eq_iff i.receipt_key j.receipt_key).1 (sym same))
              refl in
          subst (λ v. record_hook_context_increment v.0 j ≡ (v.0, v.1, v.2, false)) (sym first)
            second
    ]
