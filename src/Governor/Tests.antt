-- ===== src/Governor/Tests.antt =====
-- The governor on a window of 1000 tokens, with ratios in percent.
use joiny_mnemonic.Prelude.{
  ℕ, ◌+◌, ◌*◌, ◌/◌, ◌≤◌, ◌<◌, max, none, if◌then◌else◌, string_eq, ltb, ok, ◌≡◌, refl,
}
use joiny_mnemonic.Governor.{BudgetPolicy, Thresholds, checked, thresholds, thresholds-ordered}

abbrev percent : ℕ → ℕ → ℕ
percent window ratio = (window * ratio + 99) / 100

abbrev percent_scaled : ℕ → ℕ → ℕ → ℕ → ℕ
percent_scaled window ratio a b = if ltb b a then window else (window * ratio + 99) / 100

abbrev policy : BudgetPolicy ℕ
policy = record {
  id = "default";
  context_window_tokens = 1000;
  snapshot_ratio = 45;
  compact_ratio = 60;
  handoff_ratio = 75;
  hard_limit_ratio = 90;
  recommended_handoff_tokens = none;
  reserve_tokens = 50;
}

abbrev levels : Thresholds
levels = record { snapshot = 450; compact = 600; handoff = 750; handoff_required = 900 }

policy_levels : thresholds ℕ percent percent_scaled policy ≡ ok levels
unfolding thresholds checked
policy_levels = refl

thresholds-ordered_example :
    (0 < 450) × (450 < 600) × (600 < 750) × (750 < 900) × (900 + 50 ≤ max 1000 (percent 1000 90))
thresholds-ordered_example = thresholds-ordered ℕ percent percent_scaled policy levels policy_levels
