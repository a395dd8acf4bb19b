-- ===== src/Temporal/Kleene/Laws.antt =====
-- The laws of the three-valued connectives of temporal.py, over argument lists of any length.
use joiny_mnemonic.Prelude.{◌≡◌, refl, ◌↔◌, List, [], ◌∷◌, map, All, arith}
use joiny_mnemonic.Temporal.Kleene.{Truth, and3, or3, not3, truth_eq}

abbrev join : Truth → Truth → Truth
join Truth.false b = Truth.false
join Truth.true b = b
join Truth.unknown Truth.false = Truth.false
join Truth.unknown b = Truth.unknown

pub and3-cons : (v : Truth) (vs : List Truth) → and3 (v ∷ vs) ≡ join v (and3 vs)
unfolding and3
and3-cons v vs = ground arith

-- De Morgan: the negated conjunction is the disjunction of the negations, for any arguments.
pub not3-and3 : (vs : List Truth) → not3 (and3 vs) ≡ or3 (map not3 vs)
unfolding and3 or3 not3
not3-and3 [] = refl
not3-and3 (v ∷ vs) = ground (arith, not3-and3 vs)

pub not3-not3 : (v : Truth) → not3 (not3 v) ≡ v
unfolding not3
not3-not3 v = ground arith

-- A conjunction is TRUE exactly when each of its arguments is.
pub and3-true_iff : (vs : List Truth) → (and3 vs ≡ Truth.true) ↔ All (λ v. v ≡ Truth.true) vs
unfolding and3
and3-true_iff [] = ((λ _. tt), (λ _. refl))
and3-true_iff (v ∷ vs) =
    let ih = and3-true_iff vs in
    ((λ h. (ground arith, ih.0 (ground arith))), (λ h. ground (arith, ih.1 h.1)))
