-- ===== src/Extraction/Evidence/Overlaps.antt =====
-- Where src/joiny_mnemonic/extraction.py does not see that a quote occurs twice.
use joiny_mnemonic.Prelude.{ℕ, true, [], ◌∷◌, nat_eq, ok, ◌≡◌, ◌≢◌, refl, beq_refl, beq_of_ne}
use joiny_mnemonic.Extraction.Evidence.{drop, starts_with, match_starts, place_at, locate_evidence}

-- A quote that occurs twice is accepted as if it occurred once, where its occurrences overlap: `aba` in
-- `ababa`, for any two characters, stands at the start and two places on, and the first is returned.
pub locate_evidence-overlaps :
    (a b : ℕ)
    → a ≢ b
    → let quote = a ∷ b ∷ a ∷ [] in
      let content = a ∷ b ∷ a ∷ b ∷ a ∷ [] in
      (starts_with quote content ≡ true)
      × (starts_with quote (drop 2 content) ≡ true)
      × (locate_evidence content quote ≡ ok (place_at content quote 0))
unfolding locate_evidence match_starts starts_with
locate_evidence-overlaps a b apart = (
  rw (beq_refl a, beq_refl b) refl,
  rw (beq_refl a, beq_refl b) refl,
  rw (beq_refl a, beq_refl b, beq_of_ne a b apart, beq_refl a) refl,
)
