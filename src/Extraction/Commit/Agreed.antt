-- ===== src/Extraction/Commit/Agreed.antt =====
-- Which candidates `commit_extraction_success` in src/joiny_mnemonic/storage.py lets pass without review.
use mathlib.Core.Path.{subst}
use mathlib.Core.List.{Memᴰ}
use joiny_mnemonic.Prelude.{
  suc, String, Bool, true, false, not, List, [], ◌∷◌, ◌++◌, map, ◌==◌, string_eq, nat_eq, ltb, keep,
  length, All, All-replace, ok, ◌≡◌, refl, sym, ap, ◌∙◌, arith, Bool-cases, inl, inr, beq_refl,
}
use joiny_mnemonic.Store.{Externals}
use joiny_mnemonic.Ledgers.{CandidateTransition}
use joiny_mnemonic.Ledgers.Sources.{distinct}
use joiny_mnemonic.Ledgers.Sources.Visible.{All-distinct}
use joiny_mnemonic.Extraction.Commit.{
  ValidatedCandidate, Tables, Rejected, CandidateStamp, Commit, Words, normalized_key, same_place,
  interpretations, is_conflict,
}
use joiny_mnemonic.Extraction.Commit.Steps.{
  first_status, first_transition, commit_extraction_success,
}
use joiny_mnemonic.Extraction.Commit.Rounds.{
  recorded, Round, ignored, quarantined, supports, derives,
}
use joiny_mnemonic.Extraction.Commit.Kept.{commit_candidates_ind, commit_extraction_success-Begun}

abbrev pub key_of : Words → ValidatedCandidate → String
key_of std v = normalized_key std v.proposed.normalized_content

-- A transition that is to `auto` is of a candidate that was validated so, and every candidate at the same
-- place has the same key.
pub record IsAgreed (std : Words) (ps : List (ValidatedCandidate × CandidateStamp))
    (tr : CandidateTransition) : Type 0 where
  pub candidate : ValidatedCandidate
  pub stamp : CandidateStamp
  pub listed : Memᴰ (candidate, stamp) ps
  pub named : stamp.candidate_id ≡ tr.candidate_id
  pub upheld : candidate.initial_status ≡ "auto"
  pub alone :
      All
        (λ w. same_place candidate w ≡ true → key_of std w ≡ key_of std candidate)
        (map (λ p. p.0) ps)

short_All : (P : String → Type 0) (ks : List String) → ltb 1 (suc (length ks)) ≡ false → All P ks
short_All P [] h = tt
short_All P (k ∷ ks) h = absurd (ground arith)

-- A set of at most one element
one_key :
    (ks : List String) → ltb 1 (length (distinct ks)) ≡ false → (k : String) × All (λ z. z ≡ k) ks
unfolding distinct
one_key [] h = ("", tt)
one_key (k ∷ ks) h = (
  k,
  (All-distinct (λ z. z ≡ k) (k ∷ ks)).0
      (refl, short_All (λ z. z ≡ k) (keep (λ w. not (w == k)) (distinct ks)) h),
)

kept-All :
    {A : Type 0} (P : String → Type 0) (f : A → String) (p : A → Bool) (xs : List A)
    → All P (map f (keep p xs))
    → All (λ v. p v ≡ true → P (f v)) xs
kept-All P f p [] h = tt
kept-All P f p (v ∷ vs) h = elim (Bool-cases (p v)) [
  | inl passes ↦ let k = rw passes at h in ((λ _. k.0), kept-All P f p vs k.1)
  | inr fails ↦ ((λ k. cc (fails, k)), kept-All P f p vs (rw fails at h))
]

at_member :
    {A B : Type 0} (P : B → Type 0) (f : A → B) (xs : List A) (v : A)
    → Memᴰ v xs
    → All P (map f xs)
    → P (f v)
at_member P f [] v m h = elim m [ ]
at_member P f (w ∷ ws) v (Memᴰ.head same) h = subst (λ u. P (f u)) (sym same) h.0
at_member P f (w ∷ ws) v (Memᴰ.tail m) h = at_member P f ws v m h.1

same_place_refl : (v : ValidatedCandidate) → same_place v v ≡ true
unfolding same_place
same_place_refl v =
    rw (beq_refl v.proposed.memory_type, beq_refl v.evidence_start, beq_refl v.evidence_end) refl

module _ (x : Externals) (std : Words) (c : Commit)
    (ps : List (ValidatedCandidate × CandidateStamp)) where
  abbrev batch : List ValidatedCandidate
  batch = map (λ p. p.0) ps

  alone-of_no_conflict :
      (v : ValidatedCandidate) (s : CandidateStamp)
      → Memᴰ (v, s) ps
      → is_conflict std batch v ≡ false
      → All (λ w. same_place v w ≡ true → key_of std w ≡ key_of std v) batch
  unfolding is_conflict interpretations
  alone-of_no_conflict v s m clear =
      let (k, ones) = one_key (map (key_of std) (keep (λ w. same_place v w) batch)) clear in
      let agree = kept-All (λ z. z ≡ k) (key_of std) (λ w. same_place v w) batch ones in
      let own : key_of std v ≡ k =
        at_member (λ w. same_place v w ≡ true → key_of std w ≡ k) (λ p. p.0) ps (v, s) m agree
          (same_place_refl v) in
      All-replace _ _ batch (λ w f same. f same ∙ sym own) agree

  first-IsAgreed :
      (v : ValidatedCandidate) (s : CandidateStamp)
      → Memᴰ (v, s) ps
      → first_status x std c batch v ≡ "auto"
      → IsAgreed std ps (first_transition x std c batch v s)
  first-IsAgreed v s m auto = elim (Bool-cases (is_conflict std batch v)) [
    | inl conflict ↦ cc (rw conflict at auto)
    | inr clear ↦ record {
      candidate = v;
      stamp = s;
      listed = m;
      named = refl;
      upheld = rw clear at auto;
      alone = alone-of_no_conflict v s m clear;
    }
  ]

  -- The transitions that were added to those of the start
  record Grown (before : List CandidateTransition) (t : Tables) : Type 0 where
    new : List CandidateTransition
    is_new : t.transitions ≡ new ++ before
    agreed : All (λ tr. tr.to_status ≡ "auto" → IsAgreed std ps tr) new

  first-Grown :
      (before : List CandidateTransition) (v : ValidatedCandidate) (s : CandidateStamp) (t : Tables)
      → Memᴰ (v, s) ps
      → Grown before t
      → Grown before (recorded x std c batch t v s)
  first-Grown before v s t m g = record {
    new = first_transition x std c batch v s ∷ g.new;
    is_new = ap (λ l. first_transition x std c batch v s ∷ l) g.is_new;
    agreed = (first-IsAgreed v s m, g.agreed);
  }

  same-Grown :
      (before : List CandidateTransition) (t t' : Tables)
      → t'.transitions ≡ t.transitions
      → Grown before t
      → Grown before t'
  same-Grown before t t' same g = record {
    new = g.new;
    is_new = same ∙ g.is_new;
    agreed = g.agreed;
  }

  Round-Grown :
      (before : List CandidateTransition) (v : ValidatedCandidate) (s : CandidateStamp)
      (t t' : Tables)
      → Memᴰ (v, s) ps
      → Round x std c batch t v s t'
      → Grown before t
      → Grown before t'
  Round-Grown before v s t _ m ignored g = g
  Round-Grown before v s t _ m (quarantined other) g = first-Grown before v s t m g
  Round-Grown before v s t t' m (supports _ auto at) g =
      same-Grown before (recorded x std c batch t v s) t' refl (first-Grown before v s t m g)
  Round-Grown before v s t t' m (derives written e auto append unused) g =
      same-Grown before (recorded x std c batch t v s) t' refl (first-Grown before v s t m g)

  -- The transitions that a commit adds stand before those that there were, and one to `auto` is of a
  -- candidate of the answer whose initial status is `auto`, where every candidate of the answer with its type and at
  -- its place has the same normalized text: an ambiguous reading is never stored without review.
  pub commit_extraction_success-agreed :
      (t t' : Tables) (rs : List Rejected) (ids : List String)
      → commit_extraction_success x std c t ps rs ≡ ok (t', ids)
      → (new : List CandidateTransition) × (t'.transitions ≡ new ++ t.transitions)
        × All (λ tr. tr.to_status ≡ "auto" → IsAgreed std ps tr) new
  commit_extraction_success-agreed t t' rs ids h =
      let (t₁, b, loop, _) = commit_extraction_success-Begun x std c t t' ps rs ids h in
      let g =
        commit_candidates_ind x std c (Grown t.transitions) batch ps
          (λ v s u u' m. Round-Grown t.transitions v s u u' m) t₁ t' ids loop
          (record { new = []; is_new = b.transitions; agreed = tt }) in
      (g.new, g.is_new, g.agreed)
