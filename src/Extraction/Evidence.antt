-- ===== src/Extraction/Evidence.antt =====
-- The evidence of a candidate in src/joiny_mnemonic/extraction.py: `_zone_map`, `locate_evidence` and
-- `validate_candidate`. A text is the list of its code points.
pub mod Located
pub mod Zones
pub mod Overlaps
mod Tests
use Prim.Native.String.{◌++◌ as text_append}
use joiny_mnemonic.Prelude.{
  ℕ, zero, suc, ◌+◌, ◌-◌, String, Bool, true, false, not, ◌&&◌, ◌||◌, Option, none, some, List, [],
  ◌∷◌, ◌++◌, if◌then◌else◌, ◌==◌, nat_eq, string_eq, ltb, leb, any, length, Outcome, ok, raise,
  ◌>>=◌, ◌≡◌, ◌↔◌, refl, Eq,
}
use joiny_mnemonic.Extraction.Queue.Pending.{take}

abbrev pub Text : Type 0
Text = List ℕ

pub data Zone : Type 0 where
  prose fenced_code blockquote inline_code : Zone

abbrev pub zone_beq : Zone → Zone → Bool
zone_beq prose prose = true
zone_beq fenced_code fenced_code = true
zone_beq blockquote blockquote = true
zone_beq inline_code inline_code = true
zone_beq _ _ = false

-- The name that the code writes for a zone
abbrev pub zone_name : Zone → String
zone_name prose = "prose"
zone_name fenced_code = "fenced_code"
zone_name blockquote = "blockquote"
zone_name inline_code = "inline_code"

abbrev pub drop {ℓ} : {A : Type ℓ} → ℕ → List A → List A
drop zero xs = xs
drop (suc n) [] = []
drop (suc n) (x ∷ xs) = drop n xs

abbrev pub fill : ℕ → Zone → List Zone
fill zero zone = []
fill (suc n) zone = zone ∷ fill n zone

-- The characters at which `str.splitlines` ends a line
abbrev pub is_line_break : ℕ → Bool
is_line_break c =
    (leb 0x0a c && leb c 0x0d || leb 0x1c c && leb c 0x1e)
    || (c == 0x85 || (c == 0x2028 || c == 0x2029))

abbrev pub onto : ℕ → List Text → List Text
onto c [] = (c ∷ []) ∷ []
onto c (line ∷ lines) = (c ∷ line) ∷ lines

-- Whether a line ends after `c`, where `rest` follows; `\r\n` is one break.
abbrev pub ends_line : ℕ → Text → Bool
ends_line c [] = true
ends_line c (d ∷ rest) = is_line_break c && not (c == 0x0d && d == 0x0a)

-- `text.splitlines(keepends=True)`
unfoldable pub split_lines : Text → List Text
split_lines [] = []
split_lines (c ∷ cs) =
    let rest = split_lines cs in if ends_line c cs then (c ∷ []) ∷ rest else onto c rest

-- `line.lstrip(" \t")`
unfoldable pub lstrip_blanks : Text → Text
lstrip_blanks [] = []
lstrip_blanks (c ∷ cs) = let rest = lstrip_blanks cs in if c == b' ' || c == 9 then rest else c ∷ cs

-- How often `c` stands at the start
unfoldable pub run : ℕ → Text → ℕ
run c [] = 0
run c (d ∷ ds) = let rest = run c ds in if d == c then suc rest else 0

-- The first character and the length of a token of three backticks or tildes, or more
pub record Fence : Type 0 where
  pub token : ℕ
  pub width : ℕ

abbrev pub fence_of : ℕ → Text → Option Fence
fence_of c line =
    if leb 3 (run c line) then some (record { token = c; width = run c line }) else none

-- `re.match(r"(`{3,}|~{3,})", stripped)`
unfoldable pub marker : Text → Option Fence
unfolding run
marker [] = none
marker (c ∷ cs) = if c == b'`' || c == b'~' then fence_of c (c ∷ cs) else none

-- `line.find(quote)`: the distance to the first place where the text stands
unfoldable pub starts_with : Text → Text → Bool
starts_with [] text = true
starts_with (q ∷ qs) [] = false
starts_with (q ∷ qs) (c ∷ cs) = q == c && starts_with qs cs

unfoldable pub find_ticks : ℕ → Text → Option ℕ
unfolding run
find_ticks width [] = none
find_ticks width (c ∷ cs) =
    let rest = find_ticks width cs in
    if leb width (run b'`' (c ∷ cs))
    then some 0
    else elim rest [ none ↦ none | some d ↦ some (suc d) ]

-- The zone of a backtick at which the scan stands, where `cs` follows, and the number of characters after
-- it that have the same zone
abbrev pub after_tick : Text → Zone × ℕ
after_tick cs =
    let more = run b'`' cs in
    elim (find_ticks (suc more) (drop more cs)) [
      | none ↦ (prose, more)
      | some d ↦ (inline_code, more + d + suc more)
    ]

abbrev pub scan_step : ℕ → Text → Zone × ℕ
scan_step c cs = if c == b'`' then after_tick cs else (prose, 0)

-- The `while` loop over a line, whose index stands `pending` characters of `zone` ahead
unfoldable pub scan : ℕ → Zone → Text → List Zone
scan pending zone [] = []
scan (suc pending) zone (c ∷ cs) = zone ∷ scan pending zone cs
scan zero zone (c ∷ cs) = (scan_step c cs).0 ∷ scan (scan_step c cs).1 (scan_step c cs).0 cs

abbrev pub closes : Option Fence → Fence → Bool
closes none fence = false
closes (some mark) fence = mark.token == fence.token && leb fence.width mark.width

-- The fence after a line, from the one before it
unfoldable pub next_fence : Option Fence → Text → Option Fence
unfolding marker lstrip_blanks
next_fence none line = marker (lstrip_blanks line)
next_fence (some fence) line =
    if closes (marker (lstrip_blanks line)) fence then none else some fence

-- `stripped.startswith(">")`
abbrev pub is_quoted : Text → Bool
is_quoted [] = false
is_quoted (c ∷ cs) = c == b'>'

-- The zones of a line outside of a fence
unfoldable pub open_zones : Option Fence → Text → List Zone
open_zones (some mark) line = fill (length line) fenced_code
open_zones none line =
    if is_quoted (lstrip_blanks line) then fill (length line) blockquote else scan 0 prose line

unfoldable pub line_zones : Option Fence → Text → List Zone
line_zones (some fence) line = fill (length line) fenced_code
line_zones none line = open_zones (marker (lstrip_blanks line)) line

unfoldable pub zones_of : Option Fence → List Text → List Zone
zones_of fence [] = []
zones_of fence (line ∷ lines) = line_zones fence line ++ zones_of (next_fence fence line) lines

-- `_zone_map`
unfoldable pub zone_map : Text → List Zone
zone_map text = zones_of none (split_lines text)

pub data EvidenceError : Type 0 where
  empty_evidence evidence_not_found ambiguous_evidence : EvidenceError

-- The starts that `re.finditer(re.escape(quote), content)` gives, from the place `at`: a match begins
-- after the end of the one before.
unfoldable pub match_starts : Text → ℕ → ℕ → Text → List ℕ
match_starts quote skip at [] = []
match_starts quote (suc skip) at (c ∷ cs) = match_starts quote skip (at + 1) cs
match_starts quote zero at (c ∷ cs) =
    let here = starts_with quote (c ∷ cs) in
    let rest = match_starts quote (if here then length quote - 1 else 0) (at + 1) cs in
    if here then at ∷ rest else rest

-- `next(iter(quote_zones)) if len(quote_zones) == 1 else "fenced_code"`
unfoldable pub only_zone : List Zone → Zone
only_zone [] = fenced_code
only_zone (z ∷ zs) = if any (λ w. not (zone_beq w z)) zs then fenced_code else z

pub record Place : Type 0 where
  pub first : ℕ
  pub past : ℕ
  pub zone : Zone

abbrev pub slice {ℓ} : {A : Type ℓ} → ℕ → ℕ → List A → List A
slice first past xs = take (past - first) (drop first xs)

abbrev pub place_at : Text → Text → ℕ → Place
place_at content quote first = record {
  first = first;
  past = first + length quote;
  zone = only_zone (slice first (first + length quote) (zone_map content));
}

abbrev pub one_match : Text → Text → List ℕ → Outcome EvidenceError Place
one_match content quote [] = raise evidence_not_found
one_match content quote (first ∷ []) = ok (place_at content quote first)
one_match content quote (first ∷ second ∷ rest) = raise ambiguous_evidence

unfoldable pub locate_evidence : Text → Text → Outcome EvidenceError Place
locate_evidence content [] = raise empty_evidence
locate_evidence content (q ∷ qs) = one_match content (q ∷ qs) (match_starts (q ∷ qs) 0 0 content)

-- The verifier's answer
pub record Verdict : Type 0 where
  pub holds : Bool
  pub reason : String

-- What `validate_candidate` decides, beside the fields of the candidate that it copies
pub record Validated : Type 0 where
  pub evidence_start : ℕ
  pub evidence_end : ℕ
  pub evidence_zone : Zone
  pub initial_status : String
  pub rule_id : String

abbrev pub is_rejected : Option Verdict → Bool
is_rejected none = false
is_rejected (some v) = not v.holds

abbrev pub reason_of : Option Verdict → String
reason_of none = ""
reason_of (some v) = v.reason

-- The status and the rule; `below` says whether the confidence is below the threshold.
unfoldable pub initial_status : Zone → Option Verdict → Bool → String × String
initial_status zone verdict below =
    if not (zone_beq zone prose)
    then ("quarantined", text_append "untrusted_evidence_zone:" (zone_name zone))
    else if is_rejected verdict
    then ("quarantined", text_append "verifier_rejected:" (reason_of verdict))
    else if below
    then ("quarantined", "below_auto_threshold")
    else ("auto", "exact_prose_above_threshold")

unfoldable pub validate_candidate :
    Text → Text → Option Verdict → Bool → Outcome EvidenceError Validated
validate_candidate content quote verdict below = do
  place ← locate_evidence content quote
  let (status, rule) = initial_status place.zone verdict below
  ok (record {
    evidence_start = place.first;
    evidence_end = place.past;
    evidence_zone = place.zone;
    initial_status = status;
    rule_id = rule;
  })
