-- ===== src/Store/Verify/Tamper.antt =====
-- What a verified chain of `verify_chain` of src/joiny_mnemonic/storage.py is evidence of.
use mathlib.Core.Path.{subst}
use Prim.Native.String.{◌++◌ as text_append, count}
use text.Mathlib.TextLemmas.{append_inj}
use joiny_mnemonic.Prelude.{
  String, Option, none, some, List, [], ◌∷◌, ◌==◌, string_eq, length, last?, ◌≡◌, refl, sym, ap,
  ◌∙◌, ◌≢◌, ◌⊎◌, arith, Bool-cases, eq_iff, ne_of_beq, inl, inr,
}
use joiny_mnemonic.Store.{Event, Externals}
use joiny_mnemonic.Store.Append.{hash_or_empty}
use joiny_mnemonic.Store.Verify.{canonical, verify_rows}
use joiny_mnemonic.Store.Verify.Rows.{
  IsLinked, content_digest, chain_digest, tip_after, tip_after_any, verify_rows-cons,
}

module _ (x : Externals) where
  -- The hash before the row, then the digest of the row: what the chain hash is the digest of
  abbrev pub chain_text : Option String → Event → String
  chain_text previous e = text_append (hash_or_empty previous) (content_digest x e)

  -- Two different texts with one digest, which the loop hashes at one position of two tables: the
  -- canonical texts of the two rows there, or the texts of their chain hashes.
  pub data Collides : Option String → Option String → List Event → List Event → Type 0 where
    content_collides :
        {p q : Option String} {e f : Event} {es fs : List Event}
        → canonical x e ≢ canonical x f
        → content_digest x e ≡ content_digest x f
        → Collides p q (e ∷ es) (f ∷ fs)
    chain_collides :
        {p q : Option String} {e f : Event} {es fs : List Event}
        → chain_text p e ≢ chain_text q f
        → chain_digest x p e ≡ chain_digest x q f
        → Collides p q (e ∷ es) (f ∷ fs)
    later :
        {p q : Option String} {e f : Event} {es fs : List Event}
        → Collides (some (chain_digest x p e)) (some (chain_digest x q f)) es fs
        → Collides p q (e ∷ es) (f ∷ fs)

-- Two rows with the same canonical text and the same stored hashes
pub record SameRow (x : Externals) (e f : Event) : Type 0 where
  pub text : canonical x e ≡ canonical x f
  pub previous_hash : e.previous_hash ≡ f.previous_hash
  pub content_hash : e.content_hash ≡ f.content_hash
  pub chain_hash : e.chain_hash ≡ f.chain_hash

-- Two tables with such rows, one by one
abbrev pub SameRows : Externals → List Event → List Event → Type 0
SameRows x [] [] = Unit
SameRows x (e ∷ es) (f ∷ fs) = SameRow x e f × SameRows x es fs
SameRows x _ _ = ⊥

equal_or_other : (s t : String) → (s ≡ t) ⊎ (s ≢ t)
equal_or_other s t = elim (Bool-cases (s == t)) [
  | inl same ↦ inl ((eq_iff s t).0 same)
  | inr other ↦ inr (ne_of_beq s t other)
]

-- Where two rows are linked to the same hash, equal texts mean equal rows.
linked-SameRow :
    (x : Externals) (p : Option String) (e f : Event)
    → IsLinked x p e
    → IsLinked x p f
    → canonical x e ≡ canonical x f
    → SameRow x e f
linked-SameRow x p e f l m text =
    let content : content_digest x e ≡ content_digest x f = ap x.sha256 text in
    record {
      text = text;
      previous_hash = l.previous_hash ∙ sym m.previous_hash;
      content_hash = l.content_hash ∙ content ∙ sym m.content_hash;
      chain_hash =
          l.chain_hash
          ∙ ap (λ v. x.sha256 (text_append (hash_or_empty p) v)) content
          ∙ sym m.chain_hash;
    }

module _ (x : Externals) (digit_count : (s : String) → count (x.sha256 s) ≡ 64) where
  -- One row: the chain hash fixes the hash before it and the text of the row.
  row_fixed :
      (p q : Option String) (e f : Event) (es fs : List Event)
      → count (hash_or_empty p) ≡ count (hash_or_empty q)
      → chain_digest x p e ≡ chain_digest x q f
      → ((hash_or_empty p ≡ hash_or_empty q) × (canonical x e ≡ canonical x f))
        ⊎ Collides x p q (e ∷ es) (f ∷ fs)
  row_fixed p q e f es fs long h = elim (equal_or_other (chain_text x p e) (chain_text x q f)) [
    | inr other ↦ inr (chain_collides other h)
    | inl joined ↦
        let (before, content) = append_inj joined long in
        elim (equal_or_other (canonical x e) (canonical x f)) [
          | inr other ↦ inr (content_collides other content)
          | inl text ↦ inl (before, text)
        ]
  ]

  tip_step :
      (p : Option String) (e : Event) (es : List Event)
      → IsLinked x p e
      → tip_after x p (last? (e ∷ es)) ≡ tip_after x (some (chain_digest x p e)) (last? es)
  tip_step p e [] l = ap some l.chain_hash
  tip_step p e (g ∷ es) l = tip_after_any x p (some (chain_digest x p e)) g es

  rows_fixed :
      (es fs : List Event) (p q : Option String)
      → count (hash_or_empty p) ≡ count (hash_or_empty q)
      → (hash_or_empty p ≡ hash_or_empty q → p ≡ q)
      → length es ≡ length fs
      → verify_rows x p es ≡ none
      → verify_rows x q fs ≡ none
      → hash_or_empty (tip_after x p (last? es)) ≡ hash_or_empty (tip_after x q (last? fs))
      → ((hash_or_empty p ≡ hash_or_empty q) × SameRows x es fs) ⊎ Collides x p q es fs
  rows_fixed [] [] p q long joint n v w t = inl (t, tt)
  rows_fixed [] (f ∷ fs) p q long joint n v w t = absurd (omega arith)
  rows_fixed (e ∷ es) [] p q long joint n v w t = absurd (omega arith)
  rows_fixed (e ∷ es) (f ∷ fs) p q long joint n v w t =
      let (l, v') = verify_rows-cons x p e es v in
      let (m, w') = verify_rows-cons x q f fs w in
      let d = chain_digest x p e in
      let c = chain_digest x q f in
      let tips : hash_or_empty (tip_after x (some d) (last? es))
          ≡ hash_or_empty (tip_after x (some c) (last? fs)) =
        sym (ap hash_or_empty (tip_step p e es l)) ∙ t ∙ ap hash_or_empty (tip_step q f fs m) in
      elim (rows_fixed es fs (some d) (some c) (digit_count _ ∙ sym (digit_count _))
        (λ h. ap some h) (omega arith) v' w' tips) [
          | inr collision ↦ inr (later collision)
          | inl (same, rows) ↦ elim (row_fixed p q e f es fs long same) [
            | inr collision ↦ inr collision
            | inl (before, text) ↦
                let linked = subst (λ v. IsLinked x v f) (sym (joint before)) m in
                inl (before, (linked-SameRow x p e f l linked text, rows))
          ]
        ]

  -- Where a digest has 64 characters: two tables of one length that verify, and whose last chain
  -- hashes agree, hold row by row the same canonical texts and the same three stored hashes, or else at
  -- one position of the two tables two different texts have one digest: the canonical texts of the two
  -- rows there, or what their chain hashes are taken of.
  pub verify_rows_tamper :
      (es fs : List Event)
      → length es ≡ length fs
      → verify_rows x none es ≡ none
      → verify_rows x none fs ≡ none
      → hash_or_empty (tip_after x none (last? es)) ≡ hash_or_empty (tip_after x none (last? fs))
      → SameRows x es fs ⊎ Collides x none none es fs
  verify_rows_tamper es fs n v w t = elim (rows_fixed es fs none none refl (λ _. refl) n v w t) [
    | inl (_, rows) ↦ inl rows
    | inr collision ↦ inr collision
  ]
