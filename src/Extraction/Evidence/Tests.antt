-- ===== src/Extraction/Evidence/Tests.antt =====
-- Quotes in a message with a quotation and a piece of code.
use joiny_mnemonic.Prelude.{true, false, none, [], ◌∷◌, ok, raise, ◌≡◌, refl, ne_of_beq, nat_eq}
use joiny_mnemonic.Extraction.Evidence.{
  Text, prose, blockquote, inline_code, split_lines, lstrip_blanks, run, marker, starts_with,
  find_ticks, scan, next_fence, open_zones, line_zones, zones_of, zone_map, match_starts, only_zone,
  place_at, locate_evidence, ambiguous_evidence, Validated, initial_status, validate_candidate,
}
use joiny_mnemonic.Extraction.Evidence.Located.{IsTrusted, validate_candidate-auto}
use joiny_mnemonic.Extraction.Evidence.Overlaps.{locate_evidence-overlaps}

-- a`b`, a line break, > and c
abbrev message : Text
message = b'a' ∷ b'`' ∷ b'b' ∷ b'`' ∷ 10 ∷ b'>' ∷ b'c' ∷ []

message_zones :
    zone_map message
    ≡ prose ∷ inline_code ∷ inline_code ∷ inline_code ∷ prose ∷ blockquote ∷ blockquote ∷ []
unfolding zone_map zones_of line_zones open_zones scan next_fence marker lstrip_blanks find_ticks
    run split_lines
message_zones = refl

quote_a : locate_evidence message (b'a' ∷ []) ≡ ok (record { first = 0; past = 1; zone = prose })
unfolding locate_evidence match_starts starts_with only_zone zone_map zones_of line_zones open_zones
    scan next_fence marker lstrip_blanks find_ticks run split_lines
quote_a = refl

quote_ab : locate_evidence (b'a' ∷ b'b' ∷ b'a' ∷ []) (b'a' ∷ []) ≡ raise ambiguous_evidence
unfolding locate_evidence match_starts starts_with
quote_ab = refl

abbrev accepted : Validated
accepted = record {
  evidence_start = 0;
  evidence_end = 1;
  evidence_zone = prose;
  initial_status = "auto";
  rule_id = "exact_prose_above_threshold";
}

accepts_a : validate_candidate message (b'a' ∷ []) none false ≡ ok accepted
unfolding validate_candidate initial_status locate_evidence match_starts starts_with only_zone
    zone_map zones_of line_zones open_zones scan next_fence marker lstrip_blanks find_ticks run
    split_lines
accepts_a = refl

validate_candidate-auto_example : IsTrusted message (b'a' ∷ []) none false accepted
validate_candidate-auto_example =
    validate_candidate-auto message (b'a' ∷ []) none false accepted accepts_a refl

locate_evidence-overlaps_example :
    (starts_with (1 ∷ 2 ∷ 1 ∷ []) (1 ∷ 2 ∷ 1 ∷ 2 ∷ 1 ∷ []) ≡ true)
    × (starts_with (1 ∷ 2 ∷ 1 ∷ []) (1 ∷ 2 ∷ 1 ∷ []) ≡ true)
    × (locate_evidence (1 ∷ 2 ∷ 1 ∷ 2 ∷ 1 ∷ []) (1 ∷ 2 ∷ 1 ∷ [])
        ≡ ok (place_at (1 ∷ 2 ∷ 1 ∷ 2 ∷ 1 ∷ []) (1 ∷ 2 ∷ 1 ∷ []) 0))
locate_evidence-overlaps_example = locate_evidence-overlaps 1 2 (ne_of_beq 1 2 refl)
