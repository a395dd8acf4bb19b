-- ===== src/Extraction/Evidence/Zones.antt =====
-- `_zone_map` of src/joiny_mnemonic/extraction.py gives each character one zone.
use joiny_mnemonic.Prelude.{
  ℕ, zero, suc, ◌+◌, Option, none, some, List, [], ◌∷◌, ◌++◌, nat_eq, length, ◌≡◌, refl, ap, ◌∙◌,
  arith, Bool-cases, inl, inr,
}
use joiny_mnemonic.Extraction.Evidence.{
  Text, Zone, prose, fenced_code, blockquote, fill, onto, ends_line, split_lines, lstrip_blanks,
  Fence, marker, scan, is_quoted, next_fence, open_zones, line_zones, zones_of, zone_map,
}

length-append : (xs ys : List Zone) → length (xs ++ ys) ≡ length xs + length ys
length-append [] ys = omega arith
length-append (x ∷ xs) ys = omega (arith, length-append xs ys)

length-fill : (n : ℕ) (zone : Zone) → length (fill n zone) ≡ n
length-fill zero zone = refl
length-fill (suc n) zone = ap suc (length-fill n zone)

length-scan :
    (pending : ℕ) (zone : Zone) (line : Text) → length (scan pending zone line) ≡ length line
unfolding scan
length-scan pending zone [] = refl
length-scan (suc pending) zone (c ∷ cs) = ap suc (length-scan pending zone cs)
length-scan zero zone (c ∷ cs) = ap suc (length-scan _ _ cs)

length-open_zones :
    (mark : Option Fence) (line : Text) → length (open_zones mark line) ≡ length line
unfolding open_zones
length-open_zones (some mark) line = length-fill (length line) fenced_code
length-open_zones none line = elim (Bool-cases (is_quoted (lstrip_blanks line))) [
  | inl quoted ↦ rw quoted (length-fill (length line) blockquote)
  | inr plain ↦ rw plain (length-scan 0 prose line)
]

length-line_zones :
    (fence : Option Fence) (line : Text) → length (line_zones fence line) ≡ length line
unfolding line_zones
length-line_zones (some fence) line = length-fill (length line) fenced_code
length-line_zones none line = length-open_zones (marker (lstrip_blanks line)) line

abbrev total : List Text → ℕ
total [] = 0
total (line ∷ lines) = length line + total lines

length-zones_of :
    (fence : Option Fence) (lines : List Text) → length (zones_of fence lines) ≡ total lines
unfolding zones_of
length-zones_of fence [] = refl
length-zones_of fence (line ∷ lines) = omega (
  arith,
  length-append (line_zones fence line) (zones_of (next_fence fence line) lines),
  length-line_zones fence line,
  length-zones_of (next_fence fence line) lines,
)

total-onto : (c : ℕ) (lines : List Text) → total (onto c lines) ≡ suc (total lines)
total-onto c [] = refl
total-onto c (line ∷ lines) = omega arith

total-split_lines : (text : Text) → total (split_lines text) ≡ length text
unfolding split_lines
total-split_lines [] = refl
total-split_lines (c ∷ cs) = elim (Bool-cases (ends_line c cs)) [
  | inl end ↦ rw end (omega (arith, total-split_lines cs))
  | inr more ↦ rw more (omega (arith, total-onto c (split_lines cs), total-split_lines cs))
]

-- The map has exactly one zone for each character of the text, whatever breaks its lines have and however its
-- fences and backticks are matched.
pub length-zone_map : (text : Text) → length (zone_map text) ≡ length text
unfolding zone_map
length-zone_map text = length-zones_of none (split_lines text) ∙ total-split_lines text
