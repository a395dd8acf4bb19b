-- ===== src/Extraction/Evidence/Located.antt =====
-- Which evidence src/joiny_mnemonic/extraction.py accepts.
use mathlib.Core.Path.{subst}
use joiny_mnemonic.Prelude.{
  ℕ, zero, suc, ◌+◌, ◌-◌, ◌≤◌, ◌<◌, Bool, true, false, not, ◌&&◌, Option, List, [], ◌∷◌, ◌==◌,
  nat_eq, string_eq, ltb, leb, any, All, length, ok, >>=-eq-ok, ◌≡◌, ◌≢◌, refl, sym, ap, ◌∙◌, arith,
  Bool-cases, inl, inr, and_true, nat_beq_iff, ne_of_beq,
}
use joiny_mnemonic.Extraction.Queue.Pending.{take}
use joiny_mnemonic.Extraction.Evidence.{
  Text, Zone, prose, fenced_code, blockquote, inline_code, zone_beq, drop, starts_with,
  match_starts, only_zone, Place, slice, place_at, one_match, locate_evidence, Verdict, Validated,
  is_rejected, initial_status, validate_candidate, zone_map,
}

take-starts_with :
    (quote text : Text) → starts_with quote text ≡ true → take (length quote) text ≡ quote
unfolding starts_with
take-starts_with [] text h = refl
take-starts_with (q ∷ qs) [] h = cc h
take-starts_with (q ∷ qs) (c ∷ cs) h =
    let (first, rest) = and_true (q == c) (starts_with qs cs) h in
    rw (take-starts_with qs cs rest) (ap (λ v. v ∷ qs) (sym ((nat_beq_iff q c).0 first)))

-- A place counted from `at` where the quote stands in the text
abbrev Occurs : Text → ℕ → Text → ℕ → Type 0
Occurs quote at text x = (k : ℕ) × (x ≡ at + k) × (starts_with quote (drop k text) ≡ true)

Occurs-cons :
    (quote : Text) (at c : ℕ) (cs : Text) (xs : List ℕ)
    → All (Occurs quote (at + 1) cs) xs
    → All (Occurs quote at (c ∷ cs)) xs
Occurs-cons quote at c cs [] h = tt
Occurs-cons quote at c cs (x ∷ xs) h =
    let (k, place, stands) = h.0 in ((suc k, omega arith, stands), Occurs-cons quote at c cs xs h.1)

match_starts-Occurs :
    (quote : Text) (skip at : ℕ) (text : Text)
    → All (Occurs quote at text) (match_starts quote skip at text)
unfolding match_starts
match_starts-Occurs quote skip at [] = tt
match_starts-Occurs quote (suc skip) at (c ∷ cs) =
    Occurs-cons quote at c cs (match_starts quote skip (at + 1) cs)
      (match_starts-Occurs quote skip (at + 1) cs)
match_starts-Occurs quote zero at (c ∷ cs) = elim (Bool-cases (starts_with quote (c ∷ cs))) [
  | inl here ↦ rw here (
    (0, omega arith, here),
    Occurs-cons quote at c cs (match_starts quote (length quote - 1) (at + 1) cs)
        (match_starts-Occurs quote (length quote - 1) (at + 1) cs),
  )
  | inr other ↦ rw other (
      Occurs-cons quote at c cs (match_starts quote 0 (at + 1) cs)
        (match_starts-Occurs quote 0 (at + 1) cs))
]

-- The place `p` lies in one of the matches.
abbrev within_match : ℕ → ℕ → List ℕ → Bool
within_match size p xs = any (λ x. leb x p && ltb p (x + size)) xs

none_there : (q : ℕ) (qs : Text) → starts_with (q ∷ qs) [] ≡ true → ⊥
unfolding starts_with
none_there q qs h = cc h

-- Every occurrence begins within a match.
match_starts-covers :
    (q : ℕ) (qs : Text) (skip at : ℕ) (text : Text) (j : ℕ)
    → skip ≤ j
    → starts_with (q ∷ qs) (drop j text) ≡ true
    → within_match (suc (length qs)) (at + j) (match_starts (q ∷ qs) skip at text) ≡ true
unfolding match_starts
match_starts-covers q qs skip at [] zero late h = absurd (none_there q qs h)
match_starts-covers q qs skip at [] (suc j) late h = absurd (none_there q qs h)
match_starts-covers q qs (suc skip) at (c ∷ cs) zero late h = absurd (omega arith)
match_starts-covers q qs (suc skip) at (c ∷ cs) (suc j) late h =
    let ih = match_starts-covers q qs skip (at + 1) cs j (omega arith) h in
    let moved : at + 1 + j ≡ at + suc j = omega arith in
    subst (λ p. within_match (suc (length qs)) p (match_starts (q ∷ qs) skip (at + 1) cs) ≡ true)
      moved ih
match_starts-covers q qs zero at (c ∷ cs) zero late h = rw h (ground arith)
match_starts-covers q qs zero at (c ∷ cs) (suc j) late h =
    let moved : at + 1 + j ≡ at + suc j = omega arith in
    elim (Bool-cases (starts_with (q ∷ qs) (c ∷ cs))) [
      | inr other ↦
          let ih = match_starts-covers q qs 0 (at + 1) cs j (omega arith) h in
          rw other (
            subst
              (λ p. within_match (suc (length qs)) p (match_starts (q ∷ qs) 0 (at + 1) cs) ≡ true)
              moved ih)
      | inl here ↦ rw here (elim (Bool-cases (ltb j (length qs))) [
        | inl inside ↦
            let first : (leb at (at + suc j) && ltb (at + suc j) (at + suc (length qs))) ≡ true =
              ground arith in
            rw first refl
        | inr past ↦
            let skip = suc (length qs) - 1 in
            let ih = match_starts-covers q qs skip (at + 1) cs j (ground arith) h in
            let later =
              subst
                (λ p.
                  within_match (suc (length qs)) p (match_starts (q ∷ qs) skip (at + 1) cs) ≡ true)
                moved ih in
            ground arith
      ])
    ]

-- The evidence that a text gives for a quote: it stands at the place, and nowhere begins outside of it.
pub record IsEvidence (content quote : Text) (place : Place) : Type 0 where
  pub stands : slice place.first place.past content ≡ quote
  pub size : place.past ≡ place.first + length quote
  pub alone :
      (j : ℕ) → starts_with quote (drop j content) ≡ true → (place.first ≤ j) × (j < place.past)
  pub zone : place.zone ≡ only_zone (slice place.first place.past (zone_map content))

one_match-first :
    (content quote : Text) (starts : List ℕ) (place : Place)
    → one_match content quote starts ≡ ok place
    → (first : ℕ) × (starts ≡ first ∷ []) × (place ≡ place_at content quote first)
one_match-first content quote [] place h = cc h
one_match-first content quote (first ∷ []) place h = (first, refl, cc h)
one_match-first content quote (first ∷ second ∷ rest) place h = cc h

-- `locate_evidence` returns only a place where the quote stands, such that no other occurrence of the quote
-- begins before the place or after it.
pub locate_evidence-IsEvidence :
    (content quote : Text) (place : Place)
    → locate_evidence content quote ≡ ok place
    → IsEvidence content quote place
unfolding locate_evidence
locate_evidence-IsEvidence content [] place h = cc h
locate_evidence-IsEvidence content (q ∷ qs) place h =
    let starts = match_starts (q ∷ qs) 0 0 content in
    let (first, one, is_place) = one_match-first content (q ∷ qs) starts place h in
    let (k, at, here) =
      (subst (All (Occurs (q ∷ qs) 0 content)) one (match_starts-Occurs (q ∷ qs) 0 0 content)).0 in
    let same : k ≡ first = omega arith in
    let found : starts_with (q ∷ qs) (drop first content) ≡ true =
      subst (λ v. starts_with (q ∷ qs) (drop v content) ≡ true) same here in
    let size : first + suc (length qs) - first ≡ suc (length qs) = omega arith in
    subst (IsEvidence content (q ∷ qs)) (sym is_place) (record {
      stands = rw size (take-starts_with (q ∷ qs) (drop first content) found);
      size = refl;
      alone = λ j there.
          let covered : within_match (suc (length qs)) (0 + j) (first ∷ []) ≡ true =
            subst (λ v. within_match (suc (length qs)) (0 + j) v ≡ true) one
              (match_starts-covers q qs 0 0 content j (omega arith) there) in
          ground arith;
      zone = refl;
    })

prose_apart : fenced_code ≡ prose → ⊥
prose_apart h = cc h

All-alike :
    (zs : List Zone) → any (λ w. not (zone_beq w prose)) zs ≡ false → All (λ z. z ≡ prose) zs
All-alike [] h = tt
All-alike (prose ∷ zs) h = (refl, All-alike zs h)
All-alike (fenced_code ∷ zs) h = cc h
All-alike (blockquote ∷ zs) h = cc h
All-alike (inline_code ∷ zs) h = cc h

only_zone-prose :
    (zones : List Zone) → only_zone zones ≡ prose → All (λ z. z ≡ prose) zones × (zones ≢ [])
unfolding only_zone
only_zone-prose [] h = absurd (prose_apart h)
only_zone-prose (z ∷ zs) h = elim (Bool-cases (any (λ w. not (zone_beq w z)) zs)) [
  | inl mixed ↦ absurd (prose_apart (rw mixed at h))
  | inr alike ↦
      let is_prose : z ≡ prose = rw alike at h in
      (
        (
          is_prose,
          All-alike zs (subst (λ v. any (λ w. not (zone_beq w v)) zs ≡ false) is_prose alike),
        ),
        (λ empty. cc empty),
      )
]

prose_status :
    (verdict : Option Verdict) (below : Bool)
    → (initial_status prose verdict below).0 ≡ "auto"
    → (is_rejected verdict ≡ false) × (below ≡ false)
unfolding initial_status
prose_status verdict true h = elim (Bool-cases (is_rejected verdict)) [
  | inl rejected ↦ absurd (ne_of_beq "quarantined" "auto" refl (rw rejected at h))
  | inr upheld ↦ absurd (ne_of_beq "quarantined" "auto" refl (rw upheld at h))
]
prose_status verdict false h = elim (Bool-cases (is_rejected verdict)) [
  | inl rejected ↦ absurd (ne_of_beq "quarantined" "auto" refl (rw rejected at h))
  | inr upheld ↦ (upheld, refl)
]

status-auto :
    (zone : Zone) (verdict : Option Verdict) (below : Bool)
    → (initial_status zone verdict below).0 ≡ "auto"
    → (zone ≡ prose) × (is_rejected verdict ≡ false) × (below ≡ false)
unfolding initial_status
status-auto prose verdict below h = let s = prose_status verdict below h in (refl, s.0, s.1)
status-auto fenced_code verdict below h = absurd (ne_of_beq "quarantined" "auto" refl h)
status-auto blockquote verdict below h = absurd (ne_of_beq "quarantined" "auto" refl h)
status-auto inline_code verdict below h = absurd (ne_of_beq "quarantined" "auto" refl h)

-- Why a candidate may be applied with no one asked
pub record IsTrusted (content quote : Text) (verdict : Option Verdict) (below : Bool)
    (v : Validated) : Type 0 where
  pub evidence :
      IsEvidence content quote
        (record { first = v.evidence_start; past = v.evidence_end; zone = v.evidence_zone })
  pub in_prose : All (λ z. z ≡ prose) (slice v.evidence_start v.evidence_end (zone_map content))
  pub not_empty : slice v.evidence_start v.evidence_end (zone_map content) ≢ []
  pub upheld : is_rejected verdict ≡ false
  pub sure : below ≡ false

-- A candidate gets the status that needs no review only where its quote stands in the message and nowhere
-- begins outside of that place, each character of the place is prose (no code, no quotation), the
-- verifier did not reject it, and its confidence is not below the threshold.
pub validate_candidate-auto :
    (content quote : Text) (verdict : Option Verdict) (below : Bool) (v : Validated)
    → validate_candidate content quote verdict below ≡ ok v
    → v.initial_status ≡ "auto"
    → IsTrusted content quote verdict below v
unfolding validate_candidate
validate_candidate-auto content quote verdict below v h auto =
    let (place, found, rest) = >>=-eq-ok (locate_evidence content quote) _ h in
    let decided = initial_status place.zone verdict below in
    let row : Validated = record {
      evidence_start = place.first;
      evidence_end = place.past;
      evidence_zone = place.zone;
      initial_status = decided.0;
      rule_id = decided.1;
    } in
    let same : row ≡ v = cc rest in
    let evidence = locate_evidence-IsEvidence content quote place found in
    let (in_prose, upheld, sure) =
      status-auto place.zone verdict below (ap (λ w. w.initial_status) same ∙ auto) in
    let (all, some') =
      only_zone-prose (slice place.first place.past (zone_map content))
        (sym evidence.zone ∙ in_prose) in
    subst (IsTrusted content quote verdict below) same (record {
      evidence = evidence;
      in_prose = all;
      not_empty = some';
      upheld = upheld;
      sure = sure;
    })
