-- ===== src/Extraction/Lease.antt =====
-- The worker's wakeups in src/joiny_mnemonic/storage.py: `signal_extraction_worker`,
-- `claim_extraction_worker` and `complete_extraction_worker_cycle`. An instant of `time.time()` and the length
-- of a lease are natural numbers of one unit.
pub mod Held
pub mod Rounds
mod Tests
use joiny_mnemonic.Prelude.{
  ℕ, ◌+◌, String, Bool, true, false, not, ◌&&◌, Option, none, some, List, [], ◌∷◌, if◌then◌else◌,
  ◌==◌, string_eq, nat_eq, option_eq, ltb,
}

-- A row of `extraction_wakeups`
pub record Wakeup : Type 0 where
  pub config_hash : String
  pub generation : ℕ
  pub owner : Option String
  pub lease_until : Option ℕ

unfoldable pub find_wakeup : String → List Wakeup → Option Wakeup
find_wakeup hash [] = none
find_wakeup hash (w ∷ ws) = if w.config_hash == hash then some w else find_wakeup hash ws

-- `UPDATE extraction_wakeups SET … WHERE config_hash=?`
unfoldable pub update_wakeup : String → (Wakeup → Wakeup) → List Wakeup → List Wakeup
update_wakeup hash change [] = []
update_wakeup hash change (w ∷ ws) =
    (if w.config_hash == hash then change w else w) ∷ update_wakeup hash change ws

abbrev pub advance : Wakeup → Wakeup
advance w = record w { generation = w.generation + 1 }

abbrev pub fresh_wakeup : String → Wakeup
fresh_wakeup hash = record { config_hash = hash; generation = 1; owner = none; lease_until = none }

-- `signal_extraction_worker`: the table, and the generation that it returns
unfoldable pub signal_extraction_worker : List Wakeup → String → List Wakeup × ℕ
signal_extraction_worker ws hash = elim (find_wakeup hash ws) [
  | none ↦ (fresh_wakeup hash ∷ ws, 1)
  | some w ↦ (update_wakeup hash advance ws, w.generation + 1)
]

abbrev pub lease_end : Option ℕ → ℕ
lease_end none = 0
lease_end (some until) = until

-- Another owner holds a lease that has not run out.
abbrev pub is_taken : Wakeup → String → ℕ → Bool
is_taken w owner now = elim w.owner [
  | none ↦ false
  | some holder ↦ not (holder == owner) && ltb now (lease_end w.lease_until)
]

abbrev pub take_lease : String → ℕ → Wakeup → Wakeup
take_lease owner until w = record w { owner = some owner; lease_until = some until }

-- `claim_extraction_worker`: the generation, for a claim that was granted
unfoldable pub claim_extraction_worker :
    List Wakeup → String → String → ℕ → ℕ → List Wakeup × Option ℕ
claim_extraction_worker ws hash owner now lease = elim (find_wakeup hash ws) [
  | none ↦ (ws, none)
  | some w ↦
      if is_taken w owner now
      then (ws, none)
      else (update_wakeup hash (take_lease owner (now + lease)) ws, some w.generation)
]

abbrev pub is_owner : Wakeup → String → Bool
is_owner w owner = w.owner == some owner

abbrev pub release : String → Wakeup → Wakeup
release owner w = if is_owner w owner then record w { owner = none; lease_until = none } else w

abbrev pub renew : String → ℕ → Wakeup → Wakeup
renew owner until w = if is_owner w owner then record w { lease_until = some until } else w

-- `complete_extraction_worker_cycle`: whether the worker is done, and the generation
unfoldable pub complete_extraction_worker_cycle :
    List Wakeup → String → String → ℕ → ℕ → ℕ → List Wakeup × Bool × ℕ
complete_extraction_worker_cycle ws hash owner observed now lease = elim (find_wakeup hash ws) [
  | none ↦ (ws, true, observed)
  | some w ↦
      if not (is_owner w owner)
      then (ws, true, observed)
      else if w.generation == observed
      then (update_wakeup hash (release owner) ws, true, w.generation)
      else (update_wakeup hash (renew owner (now + lease)) ws, false, w.generation)
]
