-- ===== src/Security/Hidden.antt =====
-- What src/joiny_mnemonic/security.py hides, and what it leaves.
use native.Mathlib.Nat.{zero-add}
use joiny_mnemonic.Prelude.{
  ℕ, zero, suc, ◌+◌, ◌-◌, Bool, false, not, ◌&&◌, ◌||◌, some, [], ◌∷◌, ◌++◌, ◌==◌, nat_eq,
  option_eq, ltb, leb, any, All, ◌≡◌, ◌≢◌, refl, arith, Option-cases, inl, inr,
}
use joiny_mnemonic.Extraction.Evidence.{Text}
use joiny_mnemonic.Security.{
  opening_name, closing_name, omitted, opens, closes, attributes, closing_end, private_tag_at,
  tag_here, remove_from, remove_private_regions,
}

-- No character of the text begins a tag.
abbrev pub IsPlain : Text → Type 0
IsPlain text = All (λ c. (c == b'<') ≡ false) text

module _ (casefold : Text → Text) (is_space : ℕ → Bool) where
  -- No place of a text closes a region.
  abbrev pub NeverCloses : Text → Type 0
  NeverCloses [] = Unit
  NeverCloses (c ∷ cs) =
      ((n : ℕ) → tag_here casefold is_space c cs ≢ some (closes n)) × NeverCloses cs

  -- Outside of a region a plain text is kept as it is.
  remove_from-outside :
      (text rest : Text)
      → IsPlain text
      → remove_from casefold is_space 0 0 (text ++ rest) ≡ (
        text ++ (remove_from casefold is_space 0 0 rest).0,
        (remove_from casefold is_space 0 0 rest).1,
      )
  unfolding remove_from
  remove_from-outside [] rest plain = refl
  remove_from-outside (c ∷ cs) rest plain =
      rw (plain.0, remove_from-outside cs rest plain.1, zero-add) refl

  -- Inside of a region a plain text leaves nothing.
  remove_from-inside :
      (depth : ℕ) (text rest : Text)
      → IsPlain text
      → remove_from casefold is_space 0 (suc depth) (text ++ rest)
        ≡ remove_from casefold is_space 0 (suc depth) rest
  unfolding remove_from
  remove_from-inside depth [] rest plain = refl
  remove_from-inside depth (c ∷ cs) rest plain =
      rw (plain.0, remove_from-inside depth cs rest plain.1, zero-add) refl

  remove_from-NeverCloses :
      (jump depth : ℕ) (text : Text)
      → NeverCloses text
      → (remove_from casefold is_space jump (suc depth) text).0 ≡ []
  unfolding remove_from
  remove_from-NeverCloses jump depth [] h = refl
  remove_from-NeverCloses (suc jump) depth (c ∷ cs) h = remove_from-NeverCloses jump depth cs h.1
  remove_from-NeverCloses zero depth (c ∷ cs) h =
      elim (Option-cases (tag_here casefold is_space c cs)) [
        | inl none' ↦ rw none' (remove_from-NeverCloses 0 depth cs h.1)
        | inr (opens n, at) ↦ rw at (remove_from-NeverCloses (n - 1) (suc depth) cs h.1)
        | inr (closes n, at) ↦ absurd (h.0 n at)
      ]

-- `str.casefold` leaves a text as it is whose characters are ASCII and no capital letters.
abbrev pub FoldsAscii : (Text → Text) → Type 0
FoldsAscii casefold =
    (text : Text)
    → any (λ c. not (ltb c 128) || leb b'A' c && leb c b'Z') text ≡ false
    → casefold text ≡ text

abbrev pub opening : Text
opening = opening_name ++ b'>' ∷ []

abbrev pub closing : Text
closing = closing_name ++ b'>' ∷ []

module _ (casefold : Text → Text) (is_space : ℕ → Bool) (folds : FoldsAscii casefold)
    (no_space : is_space b'>' ≡ false) where
  opening_read : (rest : Text) → private_tag_at casefold is_space (opening ++ rest) ≡ some (opens 9)
  unfolding private_tag_at attributes
  opening_read rest = rw (folds opening refl, folds opening_name refl, no_space) refl

  closing_read :
      (rest : Text) → private_tag_at casefold is_space (closing ++ rest) ≡ some (closes 10)
  unfolding private_tag_at closing_end
  closing_read rest = rw (folds closing_name refl, no_space) refl

  remove_from-opening :
      (rest : Text)
      → remove_from casefold is_space 0 0 (opening ++ rest) ≡ (
        omitted ++ (remove_from casefold is_space 0 1 rest).0,
        1 + (remove_from casefold is_space 0 1 rest).1,
      )
  unfolding remove_from
  remove_from-opening rest = rw (opening_read rest) refl

  remove_from-closing :
      (depth : ℕ) (rest : Text)
      → remove_from casefold is_space 0 (suc depth) (closing ++ rest)
        ≡ remove_from casefold is_space 0 depth rest
  unfolding remove_from
  remove_from-closing depth rest =
      let up : suc depth - 1 ≡ depth = omega arith in rw (closing_read rest, zero-add, up) refl

  -- Where `str.casefold` leaves ASCII that has no capitals as it is, and `>` is no blank: of a plain text, a
  -- private region with any plain body, and more text, the first part is kept, the region is replaced by the
  -- marker and counted once, and the rest is treated as if it stood alone. So the result does not depend on the
  -- body.
  pub remove_private_regions-region :
      (head body rest : Text)
      → IsPlain head
      → IsPlain body
      → remove_private_regions casefold is_space (head ++ (opening ++ (body ++ (closing ++ rest))))
        ≡ (
          head ++ (omitted ++ (remove_private_regions casefold is_space rest).0),
          1 + (remove_private_regions casefold is_space rest).1,
        )
  unfolding remove_private_regions
  remove_private_regions-region head body rest plain hidden =
      rw
        (
          remove_from-outside casefold is_space head (opening ++ (body ++ (closing ++ rest))) plain,
          remove_from-opening (body ++ (closing ++ rest)),
          remove_from-inside casefold is_space 0 body (closing ++ rest) hidden,
          remove_from-closing 0 rest,
        )
        refl

  -- Under the same conditions, a region that is opened after a plain text and never closed hides all that
  -- follows, whatever it holds.
  pub remove_private_regions-unclosed :
      (head body : Text)
      → IsPlain head
      → NeverCloses casefold is_space body
      → (remove_private_regions casefold is_space (head ++ (opening ++ body))).0 ≡ head ++ omitted
  unfolding remove_private_regions
  remove_private_regions-unclosed head body plain unclosed =
      rw
        (
          remove_from-outside casefold is_space head (opening ++ body) plain,
          remove_from-opening body,
          remove_from-NeverCloses casefold is_space 0 0 body unclosed,
        )
        refl
