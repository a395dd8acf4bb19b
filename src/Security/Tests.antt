-- ===== src/Security/Tests.antt =====
-- A text with a private region, and one that is never closed.
use joiny_mnemonic.Prelude.{ℕ, Bool, [], ◌∷◌, ◌++◌, ◌+◌, ◌==◌, nat_eq, ◌≡◌, refl}
use joiny_mnemonic.Extraction.Evidence.{Text}
use joiny_mnemonic.Security.{
  omitted, private_tag_at, attributes, closing_end, remove_from, remove_private_regions,
}
use joiny_mnemonic.Security.Hidden.{opening, closing, remove_private_regions-region}

abbrev same : Text → Text
same text = text

abbrev is_blank : ℕ → Bool
is_blank c = c == b' '

nested :
    remove_private_regions same is_blank
      (b'a' ∷ (opening ++ (opening ++ (b'x' ∷ (closing ++ (b'y' ∷ (closing ++ b'b' ∷ [])))))))
    ≡ (b'a' ∷ (omitted ++ b'b' ∷ []), 2)
unfolding remove_private_regions remove_from private_tag_at attributes closing_end
nested = refl

remove_private_regions-region_example :
    remove_private_regions same is_blank
      ((b'a' ∷ []) ++ (opening ++ ((b'x' ∷ []) ++ (closing ++ (b'b' ∷ [])))))
    ≡ (
      (b'a' ∷ []) ++ (omitted ++ (remove_private_regions same is_blank (b'b' ∷ [])).0),
      1 + (remove_private_regions same is_blank (b'b' ∷ [])).1,
    )
remove_private_regions-region_example =
    remove_private_regions-region same is_blank (λ text ascii. refl) refl (b'a' ∷ []) (b'x' ∷ [])
      (b'b' ∷ []) (refl, tt) (refl, tt)
