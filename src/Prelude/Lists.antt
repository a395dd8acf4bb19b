-- ===== src/Prelude/Lists.antt =====
-- Lists: membership tests, association lists, and predicates by recursion.
use Prim.Native.Nat.{ℕ, suc}
use mathlib.Core.Path.{◌≡◌, refl, sym, subst, subst₂}
use mathlib.Core.Logic.{inl, inr}
use mathlib.Core.Bool.{Bool, true, false, ◌&&◌, ◌||◌}
use mathlib.Core.Option.{Option, none, some}
use mathlib.Core.List.{List, [], ◌∷◌, ◌++◌}
use native.Mathlib.Omega.{arith}
use joiny_mnemonic.Prelude.Tests.{if◌then◌else◌, Eq, ◌==◌, Bool-cases}

module _ {ℓ} {A : Type ℓ} where
  abbrev pub length : List A → ℕ
  length [] = 0
  length (x ∷ xs) = suc (length xs)

  -- A filter by a Boolean test, as in a list comprehension.
  abbrev pub keep : (A → Bool) → List A → List A
  keep p [] = []
  keep p (x ∷ xs) = let rest = keep p xs in if p x then x ∷ rest else rest

  -- `any(p(x) for x in xs)`
  abbrev pub any : (A → Bool) → List A → Bool
  any p [] = false
  any p (x ∷ xs) = p x || any p xs

  -- `xs[-1] if xs else None`
  abbrev pub last? : List A → Option A
  last? [] = none
  last? (x ∷ []) = some x
  last? (x ∷ y ∷ xs) = last? (y ∷ xs)

  abbrev pub All {κ} : (A → Type κ) → List A → Type κ
  All P [] = Unit
  All P (x ∷ xs) = P x × All P xs

  -- `sorted(xs, key=…)`, stable, for a test of the keys
  unfoldable pub insert_by : (A → A → Bool) → A → List A → List A
  insert_by le x [] = x ∷ []
  insert_by le x (y ∷ ys) = if le x y then x ∷ y ∷ ys else y ∷ insert_by le x ys

  unfoldable pub sort_by : (A → A → Bool) → List A → List A
  sort_by le [] = []
  sort_by le (x ∷ xs) = insert_by le x (sort_by le xs)

  any-insert_by :
      (p : A → Bool) (le : A → A → Bool) (x : A) (xs : List A)
      → any p (insert_by le x xs) ≡ (p x || any p xs)
  unfolding insert_by
  any-insert_by p le x [] = refl
  any-insert_by p le x (y ∷ ys) = ground (arith, any-insert_by p le x ys)

  pub any-sort_by :
      (p : A → Bool) (le : A → A → Bool) (xs : List A) → any p (sort_by le xs) ≡ any p xs
  unfolding sort_by
  any-sort_by p le [] = refl
  any-sort_by p le (x ∷ xs) =
      ground (arith, any-insert_by p le x (sort_by le xs), any-sort_by p le xs)

  pub any-append : (p : A → Bool) (xs ys : List A) → any p (xs ++ ys) ≡ (any p xs || any p ys)
  any-append p [] ys = refl
  any-append p (x ∷ xs) ys = ground (arith, any-append p xs ys)

  pub keep-snoc :
      (p : A → Bool) (xs : List A) (x : A)
      → keep p (xs ++ x ∷ []) ≡ keep p xs ++ (if p x then x ∷ [] else [])
  keep-snoc p [] x = refl
  keep-snoc p (y ∷ ys) x = ground (arith, keep-snoc p ys x)

  pub All-snoc {κ} : (P : A → Type κ) (xs : List A) (x : A) → All P xs → P x → All P (xs ++ x ∷ [])
  All-snoc P [] x h k = (k, tt)
  All-snoc P (y ∷ ys) x h k = (h.0, All-snoc P ys x h.1 k)

  pub All-replace {κ μ} :
      (P : A → Type κ) (Q : A → Type μ) (xs : List A) → ((v : A) → P v → Q v) → All P xs → All Q xs
  All-replace P Q [] f h = tt
  All-replace P Q (v ∷ vs) f h = (f v h.0, All-replace P Q vs f h.1)

  pub any_mono :
      (p q : A → Bool) (xs : List A)
      → ((v : A) → p v ≡ true → q v ≡ true)
      → any p xs ≡ true
      → any q xs ≡ true
  any_mono p q [] f h = h
  any_mono p q (v ∷ vs) f h = ground (arith, f v, any_mono p q vs f)

  pub any-keep : (p q : A → Bool) (xs : List A) → any q (keep p xs) ≡ any (λ v. p v && q v) xs
  any-keep p q [] = refl
  any-keep p q (v ∷ vs) = ground (arith, any-keep p q vs)

  pub last-snoc : (xs : List A) (x : A) → last? (xs ++ x ∷ []) ≡ some x
  last-snoc [] x = refl
  last-snoc (y ∷ []) x = refl
  last-snoc (y ∷ z ∷ ys) x = last-snoc (z ∷ ys) x

module _ {ℓ} {A : Type ℓ} ⦃e : Eq A⦄ where
  -- `a in xs`
  abbrev pub elem : A → List A → Bool
  elem a [] = false
  elem a (x ∷ xs) = a == x || elem a xs

  -- `d.get(k)` of a dictionary that is given as a list of its items.
  abbrev pub get {κ} : {V : Type κ} → A → List (A × V) → Option V
  get k [] = none
  get k ((j, v) ∷ m) = if j == k then some v else get k m

  -- What holds of each member of a list holds of whatever the test finds in it.
  pub elem_ind {κ} : (P : A → Type κ) (a : A) (xs : List A) → All P xs → elem a xs ≡ true → P a
  elem_ind P a [] hs h = cc
  elem_ind P a (x ∷ xs) hs h = elim (Bool-cases (a == x)) [
    | inl same ↦ subst P (sym ((e.beq_iff a x).0 same)) hs.0
    | inr other ↦ elem_ind P a xs hs.1 (rw other at h)
  ]

  pub get_ind {κ μ} :
      {V : Type κ} (P : A → V → Type μ) (k : A) (m : List (A × V)) (v : V)
      → All (λ (item : A × V). P item.0 item.1) m
      → get k m ≡ some v
      → P k v
  get_ind P k [] v hs h = cc
  get_ind P k ((j, w) ∷ m) v hs h = elim (Bool-cases (j == k)) [
    | inl same ↦ subst₂ P ((e.beq_iff j k).0 same) (cc (rw same at h)) hs.0
    | inr other ↦ get_ind P k m v hs.1 (rw other at h)
  ]
