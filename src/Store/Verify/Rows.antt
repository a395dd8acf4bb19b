-- ===== src/Store/Verify/Rows.antt =====
-- The loop of `verify_chain` over the rows, row by row.
use mathlib.Core.Path.{subst}
use Prim.Native.String.{◌++◌ as text_append}
use joiny_mnemonic.Prelude.{
  String, Option, none, some, List, [], ◌∷◌, ◌++◌, ◌==◌, string_eq, option_eq, last?, ◌≡◌, refl,
  Bool-cases, eq_iff, option_beq_iff, inl, inr,
}
use joiny_mnemonic.Store.{Event, Externals}
use joiny_mnemonic.Store.Append.{hash_or_empty}
use joiny_mnemonic.Store.Verify.{canonical, verify_rows}

module _ (x : Externals) where
  abbrev pub content_digest : Event → String
  content_digest e = x.sha256 (canonical x e)

  abbrev pub chain_digest : Option String → Event → String
  chain_digest previous e = x.sha256 (text_append (hash_or_empty previous) (content_digest e))

  -- The three hashes of a row are those that the loop computes.
  pub record IsLinked (previous : Option String) (e : Event) : Type 0 where
    pub previous_hash : e.previous_hash ≡ previous
    pub content_hash : e.content_hash ≡ content_digest e
    pub chain_hash : e.chain_hash ≡ chain_digest previous e

  pub verify_rows-cons :
      (previous : Option String) (e : Event) (es : List Event)
      → verify_rows x previous (e ∷ es) ≡ none
      → IsLinked previous e × (verify_rows x (some (chain_digest previous e)) es ≡ none)
  unfolding verify_rows
  verify_rows-cons previous e es h =
      let p = option_beq_iff e.previous_hash previous in
      let c = eq_iff e.content_hash (content_digest e) in
      let k = eq_iff e.chain_hash (chain_digest previous e) in
      elim (Bool-cases (e.previous_hash == previous)) [
        | inr e₁ ↦ cc (rw e₁ at h)
        | inl e₁ ↦ elim (Bool-cases (e.content_hash == content_digest e)) [
          | inr e₂ ↦ cc (rw (e₁, e₂) at h)
          | inl e₂ ↦ elim (Bool-cases (e.chain_hash == chain_digest previous e)) [
            | inr e₃ ↦ cc (rw (e₁, e₂, e₃) at h)
            | inl e₃ ↦ (
              record { previous_hash = p.0 e₁; content_hash = c.0 e₂; chain_hash = k.0 e₃ },
              rw (e₁, e₂, e₃) at h,
            )
          ]
        ]
      ]

  pub verify_rows-link :
      (previous : Option String) (e : Event) (es : List Event)
      → IsLinked previous e
      → verify_rows x (some (chain_digest previous e)) es ≡ none
      → verify_rows x previous (e ∷ es) ≡ none
  unfolding verify_rows
  verify_rows-link previous e es l h =
      rw
        (
          (option_beq_iff e.previous_hash previous).1 l.previous_hash,
          (eq_iff e.content_hash (content_digest e)).1 l.content_hash,
          (eq_iff e.chain_hash (chain_digest previous e)).1 l.chain_hash,
        )
        h

  abbrev pub tip_after : Option String → Option Event → Option String
  tip_after previous none = previous
  tip_after previous (some e) = some e.chain_hash

  verify_rows-nil : (previous : Option String) → verify_rows x previous [] ≡ none
  unfolding verify_rows
  verify_rows-nil previous = refl

  pub tip_after_any :
      (p q : Option String) (g : Event) (es : List Event)
      → tip_after p (last? (g ∷ es)) ≡ tip_after q (last? (g ∷ es))
  tip_after_any p q g [] = refl
  tip_after_any p q g (f ∷ es) = tip_after_any p q f es

  -- One more row verifies if it is linked to the last row.
  pub verify_rows-snoc :
      (previous : Option String) (es : List Event) (e : Event)
      → verify_rows x previous es ≡ none
      → IsLinked (tip_after previous (last? es)) e
      → verify_rows x previous (es ++ e ∷ []) ≡ none
  verify_rows-snoc previous [] e h l = verify_rows-link previous e [] l (verify_rows-nil _)
  verify_rows-snoc previous (f ∷ []) e h l =
      let (linked, rest) = verify_rows-cons previous f [] h in
      verify_rows-link previous f (e ∷ []) linked
        (rw (← linked.chain_hash) (verify_rows-link (some f.chain_hash) e [] l (verify_rows-nil _)))
  verify_rows-snoc previous (f ∷ g ∷ es) e h l =
      let (linked, rest) = verify_rows-cons previous f (g ∷ es) h in
      verify_rows-link previous f (g ∷ es ++ e ∷ []) linked (
        verify_rows-snoc (some (chain_digest previous f)) (g ∷ es) e rest
          (subst (λ p. IsLinked p e) (tip_after_any previous _ g es) l))
