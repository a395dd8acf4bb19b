-- ===== src/Security.antt =====
-- The scanner of private regions in src/joiny_mnemonic/security.py: `_private_tag_at` and
-- `_remove_private_regions`. A text is the list of its code points, a cursor is the text that it stands at,
-- and a position that a tag returns is the number of characters up to its end.
pub mod Hidden
mod Tests
use joiny_mnemonic.Prelude.{
  ℕ, zero, suc, ◌+◌, ◌-◌, Bool, true, false, not, ◌&&◌, ◌||◌, Option, none, some, List, [], ◌∷◌,
  ◌++◌, if◌then◌else◌, ◌==◌, nat_eq, option_eq, length,
}
use joiny_mnemonic.Extraction.Queue.Pending.{take}
use joiny_mnemonic.Extraction.Evidence.{Text, drop}

abbrev pub text_beq : Text → Text → Bool
text_beq [] [] = true
text_beq [] (d ∷ ds) = false
text_beq (c ∷ cs) [] = false
text_beq (c ∷ cs) (d ∷ ds) = c == d && text_beq cs ds

-- `<private` and `</private`
abbrev pub opening_name : Text
opening_name = b'<' ∷ b'p' ∷ b'r' ∷ b'i' ∷ b'v' ∷ b'a' ∷ b't' ∷ b'e' ∷ []

abbrev pub closing_name : Text
closing_name = b'<' ∷ b'/' ∷ b'p' ∷ b'r' ∷ b'i' ∷ b'v' ∷ b'a' ∷ b't' ∷ b'e' ∷ []

-- `[PRIVATE CONTENT OMITTED]`
abbrev pub omitted : Text
omitted =
    b'[' ∷ b'P' ∷ b'R' ∷ b'I' ∷ b'V' ∷ b'A' ∷ b'T' ∷ b'E' ∷ b' ' ∷ b'C' ∷ b'O' ∷ b'N' ∷ b'T' ∷ b'E'
    ∷ b'N' ∷ b'T' ∷ b' ' ∷ b'O' ∷ b'M' ∷ b'I' ∷ b'T' ∷ b'T' ∷ b'E' ∷ b'D' ∷ b']' ∷ []

pub data Tag : Type 0 where
  opens : ℕ → Tag
  closes : ℕ → Tag

-- The loop over an opening tag: the characters up to and with its `>`, outside of quotation marks
unfoldable pub attributes : Option ℕ → Text → ℕ
attributes quote [] = 0
attributes (some mark) (c ∷ cs) = suc (attributes (if c == mark then none else some mark) cs)
attributes none (c ∷ cs) =
    let rest = attributes (if c == 39 || c == b'"' then some c else none) cs in
    if c == b'>' then 1 else suc rest

-- `casefold` and `is_space` stand for the standard `str.casefold` and `str.isspace`.
module _ (casefold : Text → Text) (is_space : ℕ → Bool) where
  -- The blanks before a `>`
  unfoldable pub closing_end : Text → Option ℕ
  closing_end [] = none
  closing_end (c ∷ cs) =
      let rest = closing_end cs in
      if is_space c
      then elim rest [ none ↦ none | some n ↦ some (suc n) ]
      else if c == b'>'
      then some 1
      else none

  -- The name of the tag ends here.
  abbrev pub ends_name : Text → Bool
  ends_name [] = true
  ends_name (c ∷ cs) = is_space c || c == b'>'

  abbrev pub closing_tag : Option ℕ → Option Tag
  closing_tag none = none
  closing_tag (some n) = some (closes (9 + n))

  -- `_private_tag_at`
  unfoldable pub private_tag_at : Text → Option Tag
  unfolding attributes closing_end
  private_tag_at text =
      if text_beq (casefold (take 9 text)) closing_name
      then (if ends_name (drop 9 text) then closing_tag (closing_end (drop 9 text)) else none)
      else if text_beq (casefold (take 8 text)) opening_name
      then (if ends_name (drop 8 text)
          then some (opens (8 + attributes none (drop 8 text)))
          else none)
      else none

  -- What a step of the loops does: its output, the regions that it counts, the characters that it jumps over
  -- beside the first, and the depth after it
  pub record Step : Type 0 where
    pub output : Text
    pub regions : ℕ
    pub jump : ℕ
    pub depth : ℕ

  abbrev pub tag_here : ℕ → Text → Option Tag
  tag_here c cs = if c == b'<' then private_tag_at (c ∷ cs) else none

  -- The outer loop
  abbrev pub outside : ℕ → Option Tag → Step
  outside c (some (opens n)) = record { output = omitted; regions = 1; jump = n - 1; depth = 1 }
  outside c (some (closes n)) = record { output = c ∷ []; regions = 0; jump = 0; depth = 0 }
  outside c none = record { output = c ∷ []; regions = 0; jump = 0; depth = 0 }

  -- The inner loop, in a region of the given depth
  abbrev pub inside : ℕ → Option Tag → Step
  inside depth (some (opens n)) = record {
    output = [];
    regions = 1;
    jump = n - 1;
    depth = suc depth;
  }
  inside depth (some (closes n)) = record {
    output = [];
    regions = 0;
    jump = n - 1;
    depth = depth - 1;
  }
  inside depth none = record { output = []; regions = 0; jump = 0; depth = depth }

  abbrev pub step : ℕ → ℕ → Text → Step
  step zero c cs = outside c (tag_here c cs)
  step (suc depth) c cs = inside (suc depth) (tag_here c cs)

  abbrev pub before : Step → Text × ℕ → Text × ℕ
  before s (rest, count) = (s.output ++ rest, s.regions + count)

  -- Both loops, from a cursor that stands `jump` characters ahead
  unfoldable pub remove_from : ℕ → ℕ → Text → Text × ℕ
  remove_from jump depth [] = ([], 0)
  remove_from (suc jump) depth (c ∷ cs) = remove_from jump depth cs
  remove_from zero depth (c ∷ cs) =
      before (step depth c cs) (remove_from (step depth c cs).jump (step depth c cs).depth cs)

  -- `_remove_private_regions`
  unfoldable pub remove_private_regions : Text → Text × ℕ
  remove_private_regions text = remove_from 0 0 text
