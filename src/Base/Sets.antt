-- ===== src/Base/Sets.antt =====
-- JavaScript's `Set` of texts.
use Prim.Native.String.{String}
use mathlib.Core.Path.{◌≡◌, refl}
use mathlib.Core.Bool.{Bool, false, ◌||◌}
use mathlib.Core.List.{List, [], ◌∷◌}
use native.Mathlib.Omega.{arith}
use text.Mathlib.Text.{◌==◌}
use text.Mathlib.TextEquality.{eq_iff}
use remote_ttys.Base.Tests.{if◌then◌else◌}

unfoldable pub has : String → List String → Bool
has a [] = false
has a (x ∷ xs) = x == a || has a xs

unfoldable pub add : String → List String → List String
add a [] = a ∷ []
add a (x ∷ xs) = if x == a then x ∷ xs else x ∷ add a xs

unfoldable pub remove : String → List String → List String
remove a [] = []
remove a (x ∷ xs) = if x == a then remove a xs else x ∷ remove a xs

pub has-add : (a b : String) (xs : List String) → has b (add a xs) ≡ (a == b || has b xs)
unfolding has add
has-add a b [] = refl
has-add a b (x ∷ xs) = ground (arith, eq_iff x a, eq_iff a b, eq_iff x b, has-add a b xs)

pub has-remove :
    (a b : String) (xs : List String) → has b (remove a xs) ≡ (if a == b then false else has b xs)
unfolding has remove
has-remove a b [] = ground arith
has-remove a b (x ∷ xs) = ground (arith, eq_iff x a, eq_iff a b, eq_iff x b, has-remove a b xs)

pub has-singleton : (a b : String) → has b (a ∷ []) ≡ (a == b)
unfolding has
has-singleton a b = ground arith
