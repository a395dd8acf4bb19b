-- ===== src/Extraction/Commit/Linked.antt =====
-- The memories behind the candidates that `commit_extraction_success` in src/joiny_mnemonic/storage.py lets pass.
use mathlib.Core.Path.{subst}
use mathlib.Core.List.{append-nil}
use joiny_mnemonic.Prelude.{
  String, Bool, true, not, ◌&&◌, ◌||◌, none, some, List, [], ◌∷◌, ◌++◌, map, ◌==◌, string_eq,
  option_eq, any, any-append, keep, sort_by, any-sort_by, All, All-replace, any_mono, any-keep, ok,
  ◌≡◌, refl, sym, ap, ◌∙◌, arith, Bool-cases, inl, inr, beq_refl,
}
use joiny_mnemonic.Store.{Externals}
use joiny_mnemonic.Ledgers.{CandidateTransition}
use joiny_mnemonic.Memory.{Memory, by_created_at}
use joiny_mnemonic.Extraction.Commit.{
  ValidatedCandidate, CandidateRow, MemoryLink, Tables, Rejected, CandidateStamp, Commit, Words,
  normalized_key, first_match, existing_auto_memory, candidate_row, memory_link,
}
use joiny_mnemonic.Extraction.Commit.Steps.{
  first_transition, auto_memory, commit_extraction_success,
}
use joiny_mnemonic.Extraction.Commit.Rounds.{Round, ignored, quarantined, supports, derives}
use joiny_mnemonic.Extraction.Commit.Kept.{commit_candidates_ind, commit_extraction_success-Begun}

-- A memory has the type and, up to case and blanks, the text of a candidate.
abbrev pub says : Words → CandidateRow → Memory → Bool
says std r m =
    m.memory_type == r.proposed.memory_type
    && normalized_key std m.content == normalized_key std r.proposed.normalized_content

-- A link leads from a candidate to a memory that says the same.
abbrev pub is_supported : Words → List CandidateRow → List Memory → MemoryLink → Bool
is_supported std candidates memories l =
    any (λ r. r.id == l.candidate_id && any (λ m. m.id == l.memory_id && says std r m) memories)
      candidates

-- A transition that lets a new candidate pass has a link.
abbrev pub is_linked : List MemoryLink → CandidateTransition → Bool
is_linked links tr =
    not (tr.from_status == none && tr.to_status == "auto")
    || any (λ l. l.candidate_id == tr.candidate_id) links

-- Every candidate that passed at once has a link, and every link leads to a memory that says the same.
pub record IsLinked (std : Words) (t : Tables) : Type 0 where
  pub linked : All (λ tr. is_linked t.links tr ≡ true) t.transitions
  pub supported : All (λ l. is_supported std t.candidates t.memories l ≡ true) t.links

-- The memory that is found is in the table and has the key.
first_match-any :
    (std : Words) (key : String) (ms : List Memory) (m : Memory)
    → first_match std key ms ≡ some m
    → any (λ v. v.id == m.id && normalized_key std v.content == key) ms ≡ true
unfolding first_match
first_match-any std key [] m h = cc h
first_match-any std key (v ∷ vs) m h = elim (Bool-cases (normalized_key std v.content == key)) [
  | inl here ↦
      let same : v ≡ m = cc (rw here at h) in rw (here, ap (λ w. w.id) same, beq_refl m.id) refl
  | inr other ↦ let later = first_match-any std key vs m (rw other at h) in ground (arith, later)
]

existing_auto_memory-says :
    (std : Words) (rows : List Memory) (r : CandidateRow) (m : Memory)
    → existing_auto_memory std rows r.proposed.memory_type r.proposed.normalized_content ≡ some m
    → any (λ v. v.id == m.id && says std r v) rows ≡ true
unfolding existing_auto_memory
existing_auto_memory-says std rows r m h =
    let typed = keep (λ v. v.memory_type == r.proposed.memory_type) rows in
    let key = normalized_key std r.proposed.normalized_content in
    let test = λ (v : Memory). v.id == m.id && normalized_key std v.content == key in
    any_mono (λ v. v.memory_type == r.proposed.memory_type && test v)
      (λ v. v.id == m.id && says std r v) rows (λ v k. ground arith)
      (sym (any-keep (λ v. v.memory_type == r.proposed.memory_type) test rows)
        ∙ (sym (any-sort_by test by_created_at typed)
            ∙ first_match-any std key (sort_by by_created_at typed) m h))

module _ (x : Externals) (std : Words) (c : Commit) (all : List ValidatedCandidate) where
  is_supported-grow :
      (t : Tables) (r : CandidateRow) (more : List Memory) (l : MemoryLink)
      → is_supported std t.candidates t.memories l ≡ true
      → is_supported std (r ∷ t.candidates) (t.memories ++ more) l ≡ true
  is_supported-grow t r more l h =
      let wider =
        any_mono
          (λ v. v.id == l.candidate_id && any (λ m. m.id == l.memory_id && says std v m) t.memories)
          (λ v.
            v.id == l.candidate_id
            && any (λ m. m.id == l.memory_id && says std v m) (t.memories ++ more))
          t.candidates
          (λ v k.
            ground (arith, any-append (λ m. m.id == l.memory_id && says std v m) t.memories more))
          h in
      rw wider (ground arith)

  -- A new candidate with its transition and its link
  linked_first :
      (t : Tables) (v : ValidatedCandidate) (s : CandidateStamp) (l : MemoryLink)
      → l.candidate_id ≡ s.candidate_id
      → All (λ tr. is_linked t.links tr ≡ true) t.transitions
      → All
          (λ tr. is_linked (l ∷ t.links) tr ≡ true)
          (first_transition x std c all v s ∷ t.transitions)
  linked_first t v s l named k =
      let here : (l.candidate_id == s.candidate_id) ≡ true =
        rw (named, beq_refl s.candidate_id) refl in
      (ground arith, All-replace _ _ t.transitions (λ tr g. ground arith) k)

  supported_first :
      (t : Tables) (v : ValidatedCandidate) (s : CandidateStamp) (l : MemoryLink)
      (more : List Memory)
      → l.candidate_id ≡ s.candidate_id
      → any (λ m. m.id == l.memory_id && says std (candidate_row c v s) m) (t.memories ++ more)
        ≡ true
      → All (λ o. is_supported std t.candidates t.memories o ≡ true) t.links
      → All
          (λ o. is_supported std (candidate_row c v s ∷ t.candidates) (t.memories ++ more) o ≡ true)
          (l ∷ t.links)
  supported_first t v s l more named found k =
      let here : (s.candidate_id == l.candidate_id) ≡ true =
        rw (named, beq_refl s.candidate_id) refl in
      (
        rw (here, found) refl,
        All-replace _ _ t.links (λ o g. is_supported-grow t (candidate_row c v s) more o g) k,
      )

  Round-IsLinked :
      (v : ValidatedCandidate) (s : CandidateStamp) (t t' : Tables)
      → Round x std c all t v s t'
      → IsLinked std t
      → IsLinked std t'
  Round-IsLinked v s t _ ignored k = k
  Round-IsLinked v s t _ (quarantined other) k = record {
    linked = (rw other refl, k.linked);
    supported = All-replace _ _ t.links (λ l g. ground arith) k.supported;
  }
  Round-IsLinked v s t _ (supports m auto at) k =
      let l = memory_link c s m.id "supports" in
      let found = existing_auto_memory-says std t.memories (candidate_row c v s) m at in
      let same = append-nil t.memories in
      let r = candidate_row c v s in
      record {
        linked = linked_first t v s l refl k.linked;
        supported =
            subst (λ ms. All (λ o. is_supported std (r ∷ t.candidates) ms o ≡ true) (l ∷ t.links))
              same
              (supported_first t v s l [] refl
                (subst (λ ms. any (λ n. n.id == m.id && says std r n) ms ≡ true) (sym same) found)
                k.supported);
      }
  Round-IsLinked v s t _ (derives written e auto append unused) k =
      let l = memory_link c s s.memory_id "derived" in
      let r = candidate_row c v s in
      let m = auto_memory x std c v s e in
      let own : (m.id == l.memory_id && says std r m) ≡ true =
        rw
          (
            beq_refl s.memory_id,
            beq_refl v.proposed.memory_type,
            beq_refl (normalized_key std v.proposed.normalized_content),
          )
          refl in
      record {
        linked = linked_first t v s l refl k.linked;
        supported =
            supported_first t v s l (m ∷ []) refl
              (any-append (λ n. n.id == l.memory_id && says std r n) t.memories (m ∷ [])
                ∙ rw own (ground arith))
              k.supported;
      }

-- A commit keeps the candidates and memories in step: every candidate that passed at once has a link to a
-- memory, and each linked memory exists, has the candidate's type and, up to case and blanks, its text.
pub commit_extraction_success-IsLinked :
    (x : Externals) (std : Words) (c : Commit) (t t' : Tables)
    (ps : List (ValidatedCandidate × CandidateStamp)) (rs : List Rejected) (ids : List String)
    → commit_extraction_success x std c t ps rs ≡ ok (t', ids)
    → IsLinked std t
    → IsLinked std t'
commit_extraction_success-IsLinked x std c t t' ps rs ids h k =
    let (t₁, b, loop, _) = commit_extraction_success-Begun x std c t t' ps rs ids h in
    let all = map (λ p. p.0) ps in
    commit_candidates_ind x std c (IsLinked std) all ps
      (λ v s u u' _ round. Round-IsLinked x std c all v s u u' round) t₁ t' ids loop
      (record {
        linked = rw (b.transitions, b.links) k.linked;
        supported = rw (b.candidates, b.memories, b.links) k.supported;
      })
