-- ===== src/Transitions/Ledger.antt =====
-- Sequences of accepted transitions: how far each status flow can go.
use mathlib.Core.Path.{subst}
use joiny_mnemonic.Prelude.{
  ℕ, suc, ◌+◌, ◌≤◌, ◌<◌, String, true, false, Option, none, some, List, [], ◌∷◌, All, ◌≡◌, refl,
  arith, ◌==◌, string_eq, elem, elem_ind, get, get_ind, ◌⊎◌, inl, inr, ◌||◌, if◌then◌else◌,
  Option-cases, Bool-cases, eq_iff,
}
use joiny_mnemonic.Transitions.{
  Flow, TransitionRule, Request, targets, validate_transition, candidate_rule, finding_rule,
  settlement_rule, candidate_flow,
}
use joiny_mnemonic.Transitions.Gate.{IsPermitted, MayFlow, accepted, validate_transition_iff}

-- The ledger records a change of status that `validate_transition` accepts, without `reopen`.
pub record Step (rule : TransitionRule) (s t : String) : Type 0 where
  pub request : Request
  pub from_s : request.current ≡ s
  pub to_t : request.target ≡ t
  pub closed : request.reopen ≡ false
  pub is_accepted : validate_transition rule request ≡ accepted request

-- Runs of `n` recorded changes.
pub data Run (rule : TransitionRule) : ℕ → String → String → Type 0 where
  here : {s : String} → Run rule 0 s s
  step : {n : ℕ} {s t u : String} → Step rule s t → Run rule n t u → Run rule (suc n) s u

-- What holds of every edge of a table holds of every edge that the code finds in it.
pub flow_ind :
    (P : String → String → Type 0) (flow : Flow)
    → All (λ (row : String × List String). All (λ t. P row.0 t) row.1) flow
    → (s t : String) → elem t (targets (get s flow)) ≡ true
    → P s t
flow_ind P flow all s t h = elim (Option-cases (get s flow)) [
  | inl e ↦ cc (rw e at h)
  | inr (ts, e) ↦
      elem_ind (λ u. P s u) t ts (get_ind (λ c us. All (λ u. P c u) us) s flow ts all e) (rw e at h)
]

pub no_reopen :
    {rule : TransitionRule} {q : Request} → IsPermitted rule q → q.reopen ≡ false → MayFlow rule q
no_reopen p e = elim p.way [ inl (r, _) ↦ cc (r, e) | inr (_, m) ↦ m ]

Step-edge :
    {rule : TransitionRule} (s t : String)
    → Step rule s t
    → elem t (targets (get s rule.flow)) ≡ true
Step-edge {rule} s t st =
    let may = no_reopen ((validate_transition_iff rule st.request).0 st.is_accepted) st.closed in
    rw (st.from_s, st.to_t) at may.edge

-- A rank that falls along every edge bounds the runs.
Run-rank :
    (rule : TransitionRule) (rank : String → ℕ)
    → All (λ (row : String × List String). All (λ t. rank t < rank row.0) row.1) rule.flow
    → {n : ℕ} {s t : String} → Run rule n s t
    → n + rank t ≤ rank s
Run-rank rule rank falls here = omega arith
Run-rank rule rank falls (step {s = s} {t = t} st r) = omega (
  arith,
  flow_ind (λ a b. rank b < rank a) rule.flow falls s t (Step-edge s t st),
  Run-rank rule rank falls r,
)

abbrev number : Option ℕ → ℕ
number none = 0
number (some n) = n

abbrev candidate_rank : String → ℕ
candidate_rank s = number (
    get s (
      ("auto", 4)
      ∷ ("quarantined", 4)
      ∷ ("confirmation_requested", 3)
      ∷ ("confirmed", 2)
      ∷ ("rejection_requested", 1)
      ∷ ("supersession_requested", 1)
      ∷ []))

abbrev finding_rank : String → ℕ
finding_rank s = number (get s (("active", 2) ∷ ("acknowledgement_requested", 1) ∷ []))

abbrev settlement_rank : String → ℕ
settlement_rank s = number (get s (("pending", 2) ∷ ("applied", 1) ∷ []))

-- The ledgers whose flows have no cycle, and the most changes that an entry of each can see.
pub data ForwardLedger : Type 0 where
  candidates findings settlements : ForwardLedger

abbrev pub rule_of : ForwardLedger → TransitionRule
rule_of candidates = candidate_rule
rule_of findings = finding_rule
rule_of settlements = settlement_rule

abbrev pub most_changes : ForwardLedger → ℕ
most_changes candidates = 4
most_changes findings = 2
most_changes settlements = 2

candidate_rank-le : (s : String) → candidate_rank s ≤ 4
candidate_rank-le s = ground arith

finding_rank-le : (s : String) → finding_rank s ≤ 2
finding_rank-le s = ground arith

settlement_rank-le : (s : String) → settlement_rank s ≤ 2
settlement_rank-le s = ground arith

-- By accepted changes that are no reopenings, no candidate sees more than four changes of status, no
-- finding and no settlement more than two,
-- from whatever status and by whatever requests.
pub Run-le :
    (ledger : ForwardLedger) {n : ℕ} {s t : String}
    → Run (rule_of ledger) n s t
    → n ≤ most_changes ledger
Run-le candidates {n} {s} {t} r =
    omega (arith, Run-rank candidate_rule candidate_rank (omega arith) r, candidate_rank-le s)
Run-le findings {n} {s} {t} r =
    omega (arith, Run-rank finding_rule finding_rank (omega arith) r, finding_rank-le s)
Run-le settlements {n} {s} {t} r =
    omega (arith, Run-rank settlement_rule settlement_rank (omega arith) r, settlement_rank-le s)

-- The statuses of a quarantined candidate before it is confirmed
abbrev unconfirmed : List String
unconfirmed = "quarantined" ∷ "confirmation_requested" ∷ "rejection_requested" ∷ "rejected" ∷ []

abbrev Onward : String → String → Type 0
Onward s t = (if elem s unconfirmed then elem t unconfirmed || t == "confirmed" else true) ≡ true

Step-Onward : {s t : String} → Step candidate_rule s t → Onward s t
Step-Onward {s} {t} st = flow_ind Onward candidate_flow (ground arith) s t (Step-edge s t st)

confirmed_now :
    (s t : String)
    → Onward s t
    → elem s unconfirmed ≡ true
    → elem t unconfirmed ≡ false
    → (t == "confirmed") ≡ true
confirmed_now s t o h k = rw (h, k) at o

-- A run that passes through the status `u`.
pub record Via (rule : TransitionRule) (u s t : String) : Type 0 where
  pub before : ℕ
  pub after : ℕ
  pub arrives : Run rule before s u
  pub goes_on : Run rule after u t

Via-Step :
    {rule : TransitionRule} {u s t v : String} → Step rule s t → Via rule u t v → Via rule u s v
Via-Step st v = record {
  before = suc v.before;
  after = v.after;
  arrives = step st v.arrives;
  goes_on = v.goes_on;
}

Run-unconfirmed :
    {n : ℕ} {s t : String}
    → Run candidate_rule n s t
    → elem s unconfirmed ≡ true
    → (elem t unconfirmed ≡ true) ⊎ Via candidate_rule "confirmed" s t
Run-unconfirmed here h = inl h
Run-unconfirmed (step {n = n} {s = s} {t = t} {u = u} st r) h =
    elim (Bool-cases (elem t unconfirmed)) [
      | inl still ↦ elim (Run-unconfirmed r still) [
        | inl last ↦ inl last
        | inr via ↦ inr (Via-Step st via)
      ]
      | inr out ↦
          let arrived = (eq_iff t "confirmed").0 (confirmed_now s t (Step-Onward st) h out) in
          inr record {
            before = 1;
            after = n;
            arrives = step st (subst (λ v. Run candidate_rule 0 t v) arrived here);
            goes_on = subst (λ v. Run candidate_rule n v u) arrived r;
          }
    ]

-- By accepted changes that are no reopenings, a quarantined candidate becomes superseded only after it
-- was confirmed.
pub quarantined-superseded :
    {n : ℕ}
    → Run candidate_rule n "quarantined" "superseded"
    → Via candidate_rule "confirmed" "quarantined" "superseded"
quarantined-superseded r = elim (Run-unconfirmed r refl) [ inl never ↦ cc never | inr via ↦ via ]
