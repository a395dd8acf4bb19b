-- ===== src/Extraction/Lease/Held.antt =====
-- The lease of the one worker of src/joiny_mnemonic/extraction.py, while others act on the table.
use joiny_mnemonic.Prelude.{
  ℕ, ◌+◌, ◌<◌, String, true, false, Option, none, some, List, [], ◌∷◌, if◌then◌else◌, ◌==◌,
  string_eq, nat_eq, option_eq, ◌≡◌, ◌≢◌, refl, sym, ap, ◌∙◌, arith, Bool-cases, Option-cases, inl,
  inr, eq_iff, beq_of_ne,
}
use joiny_mnemonic.Extraction.Lease.{
  Wakeup, find_wakeup, update_wakeup, advance, signal_extraction_worker, is_taken, take_lease,
  claim_extraction_worker, is_owner, release, renew, complete_extraction_worker_cycle,
}

abbrev mapped : (Wakeup → Wakeup) → Option Wakeup → Option Wakeup
mapped f none = none
mapped f (some w) = some (f w)

pub find_wakeup-update_wakeup :
    (hash asked : String) (change : Wakeup → Wakeup) (ws : List Wakeup)
    → ((w : Wakeup) → (change w).config_hash ≡ w.config_hash)
    → find_wakeup asked (update_wakeup hash change ws)
      ≡ (if hash == asked then mapped change (find_wakeup asked ws) else find_wakeup asked ws)
unfolding find_wakeup update_wakeup
find_wakeup-update_wakeup hash asked change [] same = ground arith
find_wakeup-update_wakeup hash asked change (w ∷ ws) same = ground (
  arith,
  same w,
  eq_iff w.config_hash hash,
  eq_iff w.config_hash asked,
  eq_iff hash asked,
  find_wakeup-update_wakeup hash asked change ws same,
)

-- The worker `owner` holds the lease of a configuration until an instant, and the generation is `n`.
pub record Holds (hash owner : String) (until n : ℕ) (ws : List Wakeup) : Type 0 where
  pub row : Wakeup
  pub at : find_wakeup hash ws ≡ some row
  pub held : row.owner ≡ some owner
  pub ends : row.lease_until ≡ some until
  pub generation : row.generation ≡ n

-- What others do to the table before the lease ends: signals, and claims and completions of other owners.
-- The number counts the signals for the configuration.
pub data Meanwhile (hash owner : String) (until : ℕ) (begin : List Wakeup)
    : ℕ → List Wakeup → Type 0 where
  start : Meanwhile hash owner until begin 0 begin
  signalled :
      {n k : ℕ} {ws : List Wakeup} (asked : String)
      → Meanwhile hash owner until begin n ws
      → k ≡ (if asked == hash then n + 1 else n)
      → Meanwhile hash owner until begin k (signal_extraction_worker ws asked).0
  claimed :
      {n : ℕ} {ws : List Wakeup} (asked other : String) (now lease : ℕ)
      → Meanwhile hash owner until begin n ws
      → other ≢ owner
      → now < until
      → Meanwhile hash owner until begin n (claim_extraction_worker ws asked other now lease).0
  completed :
      {n : ℕ} {ws : List Wakeup} (asked other : String) (observed now lease : ℕ)
      → Meanwhile hash owner until begin n ws
      → other ≢ owner
      → Meanwhile hash owner until begin n
          (complete_extraction_worker_cycle ws asked other observed now lease).0

update-other :
    (hash asked : String) (change : Wakeup → Wakeup) (ws : List Wakeup)
    → ((w : Wakeup) → (change w).config_hash ≡ w.config_hash)
    → (asked == hash) ≡ false
    → find_wakeup hash (update_wakeup asked change ws) ≡ find_wakeup hash ws
update-other hash asked change ws same other =
    rw (find_wakeup-update_wakeup asked hash change ws same, other) refl

signal-other :
    (hash asked : String) (ws : List Wakeup)
    → (asked == hash) ≡ false
    → find_wakeup hash (signal_extraction_worker ws asked).0 ≡ find_wakeup hash ws
unfolding signal_extraction_worker find_wakeup
signal-other hash asked ws other = elim (Option-cases (find_wakeup asked ws)) [
  | inl missing ↦ rw (signal_extraction_worker, missing) (rw (find_wakeup, other) refl)
  | inr (w, at) ↦
      rw (signal_extraction_worker, at) (update-other hash asked advance ws (λ _. refl) other)
]

claim-other :
    (hash asked other : String) (now lease : ℕ) (ws : List Wakeup)
    → (asked == hash) ≡ false
    → find_wakeup hash (claim_extraction_worker ws asked other now lease).0 ≡ find_wakeup hash ws
unfolding claim_extraction_worker
claim-other hash asked other now lease ws apart = elim (Option-cases (find_wakeup asked ws)) [
  | inl missing ↦ rw (claim_extraction_worker, missing) refl
  | inr (w, at) ↦ elim (Bool-cases (is_taken w other now)) [
    | inl taken ↦ rw (claim_extraction_worker, at, taken) refl
    | inr free ↦
        rw (claim_extraction_worker, at, free)
          (update-other hash asked (take_lease other (now + lease)) ws (λ _. refl) apart)
  ]
]

pub release-config_hash :
    (owner : String) (w : Wakeup) → (release owner w).config_hash ≡ w.config_hash
release-config_hash owner w = ground arith

pub renew-config_hash :
    (owner : String) (until : ℕ) (w : Wakeup) → (renew owner until w).config_hash ≡ w.config_hash
renew-config_hash owner until w = ground arith

complete-other :
    (hash asked other : String) (observed now lease : ℕ) (ws : List Wakeup)
    → (asked == hash) ≡ false
    → find_wakeup hash (complete_extraction_worker_cycle ws asked other observed now lease).0
      ≡ find_wakeup hash ws
unfolding complete_extraction_worker_cycle
complete-other hash asked other observed now lease ws apart =
    elim (Option-cases (find_wakeup asked ws)) [
      | inl missing ↦ rw (complete_extraction_worker_cycle, missing) refl
      | inr (w, at) ↦ elim (Bool-cases (is_owner w other)) [
        | inr not_own ↦ rw (complete_extraction_worker_cycle, at, not_own) refl
        | inl own ↦ elim (Bool-cases (w.generation == observed)) [
          | inl stable ↦
              rw (complete_extraction_worker_cycle, at, own, stable)
                (update-other hash asked (release other) ws (release-config_hash other) apart)
          | inr moved ↦
              rw (complete_extraction_worker_cycle, at, own, moved)
                (update-other hash asked (renew other (now + lease)) ws
                  (renew-config_hash other (now + lease)) apart)
        ]
      ]
    ]

module _ {hash owner : String} {until n : ℕ} {ws : List Wakeup}
    (holds : Holds hash owner until n ws) where
  kept :
      (ws' : List Wakeup)
      → find_wakeup hash ws' ≡ find_wakeup hash ws
      → Holds hash owner until n ws'
  kept ws' same = record {
    row = holds.row;
    at = same ∙ holds.at;
    held = holds.held;
    ends = holds.ends;
    generation = holds.generation;
  }

  pub signalled-Holds :
      (asked : String)
      → Holds hash owner until
          (if asked == hash then n + 1 else n)
          (signal_extraction_worker ws asked).0
  unfolding signal_extraction_worker
  signalled-Holds asked = elim (Bool-cases (asked == hash)) [
    | inr other ↦ rw other (kept _ (signal-other hash asked ws other))
    | inl same ↦
        let found : find_wakeup asked ws ≡ some holds.row =
          rw ((eq_iff asked hash).0 same) holds.at in
        rw same (record {
          row = advance holds.row;
          at =
              rw (signal_extraction_worker, found)
                (find_wakeup-update_wakeup asked hash advance ws (λ _. refl)
                  ∙ rw (same, holds.at) refl);
          held = holds.held;
          ends = holds.ends;
          generation = ap (λ v. v + 1) holds.generation;
        })
  ]

  -- A claim of another owner before the lease ends is refused.
  pub Holds-refuses :
      (other : String) (now lease : ℕ)
      → other ≢ owner
      → now < until
      → claim_extraction_worker ws hash other now lease ≡ (ws, none)
  unfolding claim_extraction_worker
  Holds-refuses other now lease apart early =
      let taken : is_taken holds.row other now ≡ true =
        rw (holds.held, holds.ends, beq_of_ne owner other (λ same. apart (sym same)))
          (ground arith) in
      rw (claim_extraction_worker, holds.at, taken) refl

  pub claimed-Holds :
      (asked other : String) (now lease : ℕ)
      → other ≢ owner
      → now < until
      → Holds hash owner until n (claim_extraction_worker ws asked other now lease).0
  claimed-Holds asked other now lease apart early = elim (Bool-cases (asked == hash)) [
    | inr away ↦ kept _ (claim-other hash asked other now lease ws away)
    | inl same ↦ rw ((eq_iff asked hash).0 same, Holds-refuses other now lease apart early) holds
  ]

  pub completed-Holds :
      (asked other : String) (observed now lease : ℕ)
      → other ≢ owner
      → Holds hash owner until n
          (complete_extraction_worker_cycle ws asked other observed now lease).0
  unfolding complete_extraction_worker_cycle
  completed-Holds asked other observed now lease apart = elim (Bool-cases (asked == hash)) [
    | inr away ↦ kept _ (complete-other hash asked other observed now lease ws away)
    | inl same ↦
        let stranger : is_owner holds.row other ≡ false =
          rw (holds.held, beq_of_ne owner other (λ equal. apart (sym equal))) refl in
        rw ((eq_iff asked hash).0 same, complete_extraction_worker_cycle, holds.at, stranger) holds
  ]
