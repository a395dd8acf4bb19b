-- ===== src/Store/Search.antt =====
-- The filters of `query_events` of src/joiny_mnemonic/storage.py that Python applies to the rows: text,
-- file and limit. `casefold` stands for the standard `str.casefold`.
mod Tests
use text.Mathlib.Text.{find?}
use joiny_mnemonic.Prelude.{
  ℕ, zero, suc, ◌+◌, ◌-◌, ◌≤◌, min, String, Bool, true, false, ◌||◌, Option, none, some, List, [],
  ◌∷◌, ◌++◌, if◌then◌else◌, ◌==◌, string_eq, elem, keep, length, Outcome, ok, raise, ◌>>=◌,
  >>=-eq-ok, ◌≡◌, refl, sym, ap, ◌∙◌, arith,
}
use joiny_mnemonic.Json.{obj}
use joiny_mnemonic.Store.{Event, Store, StoreError, Externals}
use joiny_mnemonic.Store.Append.{json_text}
use joiny_mnemonic.Store.Lineage.{Query, query_events}

-- A limit is any integer.
pub data ℤ : Type 0 where
  pos : ℕ → ℤ
  negsuc : ℕ → ℤ

pub record Filters : Type 0 where
  pub text : Option String
  pub file : Option String
  pub limit : Option ℤ

-- `needle in hay`
abbrev pub is_in : String → String → Bool
is_in needle hay = elim (find? hay needle) [ none ↦ false | some at ↦ true ]

unfoldable pub drop {ℓ} : {A : Type ℓ} → ℕ → List A → List A
drop zero xs = xs
drop (suc n) [] = []
drop (suc n) (x ∷ xs) = drop n xs

-- `events[-limit:]`
unfoldable pub last_items {ℓ} : {A : Type ℓ} → ℤ → List A → List A
unfolding drop
last_items (pos zero) xs = xs
last_items (pos (suc n)) xs = drop (length xs - suc n) xs
last_items (negsuc n) xs = drop (suc n) xs

module _ (casefold : String → String) (x : Externals) where
  -- An empty text is no filter, nor is an empty file.
  unfoldable pub mentions : Option String → Event → Bool
  mentions none e = true
  mentions (some text) e =
      let needle = casefold text in
      text == ""
      || (is_in needle (casefold e.content)
          || is_in needle (casefold (json_text x (obj e.payload))))

  unfoldable pub touches : Option String → Event → Bool
  touches none e = true
  touches (some file) e = file == "" || elem file e.files

  unfoldable pub limited : Option ℤ → List Event → List Event
  limited none events = events
  limited (some limit) events = last_items limit events

  -- `query_events` with all its arguments
  unfoldable pub filter_events : Store → String → Query → Filters → Outcome StoreError (List Event)
  filter_events s branch_id q f = do
    events ← query_events s branch_id q
    ok (limited f.limit (keep (touches f.file) (keep (mentions f.text) events)))

length-drop : (n : ℕ) (xs : List Event) → n ≤ length xs → length (drop n xs) + n ≡ length xs
unfolding drop
length-drop zero xs h = omega arith
length-drop (suc n) [] h = absurd (omega arith)
length-drop (suc n) (y ∷ ys) h = omega (arith, length-drop n ys (omega arith))

length-drop_lem : (n : ℕ) (xs : List Event) → length (drop n xs) ≡ length xs - n
unfolding drop
length-drop_lem zero xs = omega arith
length-drop_lem (suc n) [] = omega arith
length-drop_lem (suc n) (y ∷ ys) = omega (arith, length-drop_lem n ys)

drop-front : (n : ℕ) (xs : List Event) → (front : List Event) × (xs ≡ front ++ drop n xs)
unfolding drop
drop-front zero xs = ([], refl)
drop-front (suc n) [] = ([], refl)
drop-front (suc n) (y ∷ ys) =
    let (front, same) = drop-front n ys in (y ∷ front, ap (λ v. y ∷ v) same)

-- How many of `n` events a limit leaves
abbrev pub limit_size : ℤ → ℕ → ℕ
limit_size (pos zero) n = n
limit_size (pos (suc k)) n = min (suc k) n
limit_size (negsuc k) n = n - suc k

last_items-suffix :
    (limit : ℤ) (xs : List Event)
    → (front : List Event) × (xs ≡ front ++ last_items limit xs)
      × (length (last_items limit xs) ≡ limit_size limit (length xs))
unfolding last_items
last_items-suffix (pos zero) xs = ([], refl, refl)
last_items-suffix (pos (suc k)) xs =
    let n = length xs - suc k in
    let (front, parts) = drop-front n xs in
    (front, parts, omega (arith, length-drop n xs (omega arith)))
last_items-suffix (negsuc k) xs =
    let (front, parts) = drop-front (suc k) xs in (front, parts, length-drop_lem (suc k) xs)

-- With a limit, which may be any integer, a query returns the last events of what the same query returns
-- without one, in the same order: as many as a positive limit says, or all if there are fewer; all for the
-- limit zero; and for a negative limit all but as many of the first as its absolute value says.
pub filter_events-limit :
    (casefold : String → String) (x : Externals) (s : Store) (branch : String) (q : Query)
    (f : Filters) (limit : ℤ) (events : List Event)
    → filter_events casefold x s branch q (record f { limit = none }) ≡ ok events
    → (front : List Event) × (tail : List Event) × (filter_events casefold x s branch q
          (record f { limit = some limit })
        ≡ ok tail)
      × (events ≡ front ++ tail)
      × (length tail ≡ limit_size limit (length events))
unfolding filter_events limited
filter_events-limit casefold x s branch q f limit events h =
    let (rows, found, h₁) = >>=-eq-ok (query_events s branch q) _ h in
    let same : keep (touches casefold x f.file) (keep (mentions casefold x f.text) rows) ≡ events =
      cc h₁ in
    let (front, parts, size) = last_items-suffix limit events in
    (front, last_items limit events, rw found (ap (λ v. ok (last_items limit v)) same), parts, size)
