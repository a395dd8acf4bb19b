-- ===== src/Extraction/Lease/Rounds.antt =====
-- What a worker that was granted a claim finds at the end of its round, in src/joiny_mnemonic/extraction.py.
use mathlib.Core.Path.{subst}
use native.Mathlib.Nat.{add-zero}
use joiny_mnemonic.Prelude.{
  ℕ, ◌+◌, ◌<◌, ◌≤◌, String, true, false, none, some, List, if◌then◌else◌, ◌==◌, string_eq, nat_eq,
  option_eq, ◌≡◌, ◌≢◌, refl, ap, ◌∙◌, arith, Bool-cases, Option-cases, inl, inr, beq_refl,
  beq_of_ne,
}
use joiny_mnemonic.Extraction.Lease.{
  Wakeup, find_wakeup, update_wakeup, signal_extraction_worker, is_taken, take_lease,
  claim_extraction_worker, is_owner, release, renew, complete_extraction_worker_cycle,
}
use joiny_mnemonic.Extraction.Lease.Held.{
  find_wakeup-update_wakeup, release-config_hash, renew-config_hash, Holds, Meanwhile, start,
  signalled, claimed, completed, signalled-Holds, claimed-Holds, completed-Holds, Holds-refuses,
}

module _ {hash owner : String} {until n : ℕ} {ws : List Wakeup}
    (holds : Holds hash owner until n ws) where
  owned : is_owner holds.row owner ≡ true
  owned = rw (holds.held, beq_refl owner) refl

  -- A completion of the owner that saw the present generation gives the lease up.
  Holds-done :
      (now lease : ℕ)
      → (ws' : List Wakeup) × (complete_extraction_worker_cycle ws hash owner n now lease
          ≡ (ws', true, n))
        × (find_wakeup hash ws' ≡ some (record holds.row { owner = none; lease_until = none }))
  unfolding complete_extraction_worker_cycle
  Holds-done now lease = (
    update_wakeup hash (release owner) ws,
    rw (complete_extraction_worker_cycle, holds.at, owned, holds.generation, beq_refl n) refl,
    find_wakeup-update_wakeup hash hash (release owner) ws (release-config_hash owner)
        ∙ rw (beq_refl hash, holds.at, owned) refl,
  )

  -- One that saw another generation keeps it, for one more round.
  Holds-more :
      (observed now lease : ℕ)
      → n ≢ observed
      → (ws' : List Wakeup) × (complete_extraction_worker_cycle ws hash owner observed now lease
          ≡ (ws', false, n))
        × Holds hash owner (now + lease) n ws'
  unfolding complete_extraction_worker_cycle
  Holds-more observed now lease moved = (
    update_wakeup hash (renew owner (now + lease)) ws,
    rw
        (
          complete_extraction_worker_cycle,
          holds.at,
          owned,
          holds.generation,
          beq_of_ne n observed moved,
        )
        refl,
    record {
      row = record holds.row { lease_until = some (now + lease) };
      at =
          find_wakeup-update_wakeup hash hash (renew owner (now + lease)) ws
            (renew-config_hash owner (now + lease))
          ∙ rw (beq_refl hash, holds.at, owned) refl;
      held = holds.held;
      ends = refl;
      generation = holds.generation;
    },
  )

  -- A lease that has run out can be taken by anyone.
  Holds-expires :
      (other : String) (now lease : ℕ)
      → until ≤ now
      → (claim_extraction_worker ws hash other now lease).1 ≡ some n
  unfolding claim_extraction_worker
  Holds-expires other now lease late =
      let free : is_taken holds.row other now ≡ false =
        rw (holds.held, holds.ends) (ground arith) in
      rw (claim_extraction_worker, holds.at, free) (ap some holds.generation)

-- A claim that is granted
granted-Holds :
    (hash owner : String) (now lease g : ℕ) (ws ws' : List Wakeup)
    → claim_extraction_worker ws hash owner now lease ≡ (ws', some g)
    → Holds hash owner (now + lease) g ws'
unfolding claim_extraction_worker
granted-Holds hash owner now lease g ws ws' h = elim (Option-cases (find_wakeup hash ws)) [
  | inl missing ↦ cc (rw (claim_extraction_worker, missing) at h)
  | inr (w, at) ↦ elim (Bool-cases (is_taken w owner now)) [
    | inl taken ↦ cc (rw (claim_extraction_worker, at, taken) at h)
    | inr free ↦
        let k = rw (claim_extraction_worker, at, free) at h in
        let table : update_wakeup hash (take_lease owner (now + lease)) ws ≡ ws' = cc k in
        record {
          row = take_lease owner (now + lease) w;
          at = rw (← table) (
              find_wakeup-update_wakeup hash hash (take_lease owner (now + lease)) ws (λ _. refl)
              ∙ rw (beq_refl hash, at) refl);
          held = refl;
          ends = refl;
          generation = cc k;
        }
  ]
]

Meanwhile-Holds :
    {hash owner : String} {until g : ℕ} {begin : List Wakeup} {n : ℕ} {ws : List Wakeup}
    → Holds hash owner until g begin
    → Meanwhile hash owner until begin n ws
    → Holds hash owner until (g + n) ws
Meanwhile-Holds {g = g} holds start = rw (add-zero g) holds
Meanwhile-Holds {hash} {owner} {until} {g} holds (signalled {n} {k} {ws} asked before counted) =
    let next = signalled-Holds (Meanwhile-Holds holds before) asked in
    let total : (if asked == hash then g + n + 1 else g + n) ≡ g + k = ground arith in
    subst (λ v. Holds hash owner until v (signal_extraction_worker ws asked).0) total next
Meanwhile-Holds holds (claimed asked other now lease before apart early) =
    claimed-Holds (Meanwhile-Holds holds before) asked other now lease apart early
Meanwhile-Holds holds (completed asked other observed now lease before apart) =
    completed-Holds (Meanwhile-Holds holds before) asked other observed now lease apart

module _ (hash owner : String) (now lease g : ℕ) (ws begin : List Wakeup)
    (granted : claim_extraction_worker ws hash owner now lease ≡ (begin, some g)) (n : ℕ)
    (ws' : List Wakeup) (meanwhile : Meanwhile hash owner (now + lease) begin n ws') where
  held : Holds hash owner (now + lease) (g + n) ws'
  held = Meanwhile-Holds (granted-Holds hash owner now lease g ws begin granted) meanwhile

  -- Once a worker was granted a claim, any claim of another before the lease ends is refused and changes
  -- nothing, whatever signals and completions the others made in between, and whatever claims they made
  -- before the lease ends.
  pub claim_extraction_worker-exclusive :
      (other : String) (later longer : ℕ)
      → other ≢ owner
      → later < now + lease
      → claim_extraction_worker ws' hash other later longer ≡ (ws', none)
  claim_extraction_worker-exclusive = Holds-refuses held

  -- Where a lease that was granted has run out, as after a crash, and every claim of another since was
  -- made before that, any worker's claim is granted, and the generation that it sees counts every signal
  -- that came since the grant.
  pub claim_extraction_worker-expired :
      (other : String) (later longer : ℕ)
      → now + lease ≤ later
      → (claim_extraction_worker ws' hash other later longer).1 ≡ some (g + n)
  claim_extraction_worker-expired = Holds-expires held

  -- Where every claim of another since the grant was made before the lease ends, no signal is lost: at
  -- the end of its round the worker that was granted the claim is done, and the lease is free, exactly
  -- when no signal came since the grant; otherwise it is told the new generation and holds the lease anew
  -- from then on. The round itself may end after the lease. Nothing is said where another claimed later.
  pub complete_extraction_worker_cycle-signals :
      (later longer : ℕ)
      → (after : List Wakeup) × (complete_extraction_worker_cycle ws' hash owner g later longer
          ≡ (after, n == 0, g + n))
        × (if n == 0
            then ((row : Wakeup) × (find_wakeup hash after ≡ some row) × (row.owner ≡ none))
            else Holds hash owner (later + longer) (g + n) after)
  complete_extraction_worker_cycle-signals later longer = elim (Bool-cases (n == 0)) [
    | inl none' ↦
        let still : g + n ≡ g = ground arith in
        let (after, done, free) =
          Holds-done (subst (λ v. Holds hash owner (now + lease) v ws') still held) later longer in
        (
          after,
          rw (none', still) done,
          rw none' (record held.row { owner = none; lease_until = none }, free, refl),
        )
    | inr some' ↦
        let (after, more, kept) = Holds-more held g later longer (ground arith) in
        (after, rw some' more, rw some' kept)
  ]
