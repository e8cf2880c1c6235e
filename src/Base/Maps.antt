-- ===== src/Base/Maps.antt =====
-- JavaScript's `Map` with text keys: entries in the order of insertion.
use Prim.Native.Nat.{ℕ, ◌+◌, ◌≤◌}
use Prim.Native.String.{String}
use mathlib.Core.Path.{◌≡◌, refl}
use mathlib.Core.Bool.{Bool, true, false}
use mathlib.Core.List.{List, [], ◌∷◌}
use mathlib.Core.Option.{Option, none, some}
use mathlib.Core.Option
use native.Mathlib.Omega.{arith}
use text.Mathlib.Text.{◌==◌}
use text.Mathlib.TextEquality.{eq_iff}
use text.Mathlib.TextPositions.{eq_refl}
use remote_ttys.Base.Tests.{if◌then◌else◌}
use remote_ttys.Base.Lists.{length}

abbrev pub Map {ℓ} : Type ℓ → Type ℓ
Map V = List (String × V)

module _ {ℓ} {V : Type ℓ} where
  unfoldable pub get : String → Map V → Option V
  get k [] = none
  get k ((j, v) ∷ m) = if j == k then some v else get k m

  abbrev is_some : Option V → Bool
  is_some none = false
  is_some (some v) = true

  unfoldable pub has_key : String → Map V → Bool
  unfolding get
  has_key k m = is_some (get k m)

  -- A key that is present keeps its place; a new one goes to the end.
  unfoldable pub set : String → V → Map V → Map V
  set k v [] = (k, v) ∷ []
  set k v ((j, w) ∷ m) = if j == k then (j, v) ∷ m else (j, w) ∷ set k v m

  unfoldable pub delete : String → Map V → Map V
  delete k [] = []
  delete k ((j, w) ∷ m) = if j == k then delete k m else (j, w) ∷ delete k m

  -- A change in place of the object stored under a key.
  unfoldable pub modify : String → (V → V) → Map V → Map V
  modify k f [] = []
  modify k f ((j, w) ∷ m) = if j == k then (j, f w) ∷ modify k f m else (j, w) ∷ modify k f m

  unfoldable pub map_values : (V → V) → Map V → Map V
  map_values f [] = []
  map_values f ((j, w) ∷ m) = (j, f w) ∷ map_values f m

  abbrev pub size : Map V → ℕ
  size m = length m

  -- How many of the values pass a test.
  unfoldable pub count_if : (V → Bool) → Map V → ℕ
  count_if p [] = 0
  count_if p ((j, w) ∷ m) = (if p w then 1 else 0) + count_if p m

  pub get-set :
      (k j : String) (v : V) (m : Map V) → get j (set k v m) ≡ (if k == j then some v else get j m)
  unfolding get set
  get-set k j v [] = refl
  get-set k j v ((i, w) ∷ m) = ground (arith, eq_iff k j, eq_iff i k, eq_iff i j, get-set k j v m)

  pub get-delete :
      (k j : String) (m : Map V) → get j (delete k m) ≡ (if k == j then none else get j m)
  unfolding get delete
  get-delete k j [] = ground arith
  get-delete k j ((i, w) ∷ m) = ground (arith, eq_iff k j, eq_iff i k, eq_iff i j, get-delete k j m)

  pub get-modify :
      (k j : String) (f : V → V) (m : Map V)
      → get j (modify k f m) ≡ (if k == j then Option.map f (get j m) else get j m)
  unfolding get modify
  get-modify k j f [] = ground arith
  get-modify k j f ((i, w) ∷ m) =
      ground (arith, eq_iff k j, eq_iff i k, eq_iff i j, get-modify k j f m)

  pub get-map_values :
      (j : String) (f : V → V) (m : Map V) → get j (map_values f m) ≡ Option.map f (get j m)
  unfolding get map_values
  get-map_values j f [] = refl
  get-map_values j f ((i, w) ∷ m) = ground (arith, get-map_values j f m)

  pub size-set-le : (k : String) (v : V) (m : Map V) → size (set k v m) ≤ size m + 1
  unfolding set
  size-set-le k v [] = omega arith
  size-set-le k v ((i, w) ∷ m) = ground (arith, size-set-le k v m)

  pub size-delete-le : (k : String) (m : Map V) → size (delete k m) ≤ size m
  unfolding delete
  size-delete-le k [] = omega arith
  size-delete-le k ((i, w) ∷ m) = ground (arith, size-delete-le k m)

  pub size-modify : (k : String) (f : V → V) (m : Map V) → size (modify k f m) ≡ size m
  unfolding modify
  size-modify k f [] = refl
  size-modify k f ((i, w) ∷ m) = ground (arith, size-modify k f m)

  pub size-map_values : (f : V → V) (m : Map V) → size (map_values f m) ≡ size m
  unfolding map_values
  size-map_values f [] = refl
  size-map_values f ((i, w) ∷ m) = ground (arith, size-map_values f m)

  pub count_if-set-le :
      (p : V → Bool) (k : String) (v : V) (m : Map V)
      → count_if p (set k v m) ≤ count_if p m + (if p v then 1 else 0)
  unfolding count_if set
  count_if-set-le p k v [] = ground arith
  count_if-set-le p k v ((i, w) ∷ m) = ground (arith, count_if-set-le p k v m)

  pub count_if-delete-le :
      (p : V → Bool) (k : String) (m : Map V) → count_if p (delete k m) ≤ count_if p m
  unfolding count_if delete
  count_if-delete-le p k [] = omega arith
  count_if-delete-le p k ((i, w) ∷ m) = ground (arith, count_if-delete-le p k m)

  -- A change that the test does not see leaves the count.
  pub count_if-modify :
      (p : V → Bool) (k : String) (f : V → V) (m : Map V)
      → ((v : V) → p (f v) ≡ p v)
      → count_if p (modify k f m) ≡ count_if p m
  unfolding count_if modify
  count_if-modify p k f [] same = refl
  count_if-modify p k f ((i, w) ∷ m) same = ground (arith, same w, count_if-modify p k f m same)

  -- A change that can only take the test away lowers the count.
  pub count_if-modify-le :
      (p : V → Bool) (k : String) (f : V → V) (m : Map V)
      → ((v : V) → p (f v) ≡ true → p v ≡ true)
      → count_if p (modify k f m) ≤ count_if p m
  unfolding count_if modify
  count_if-modify-le p k f [] weaker = omega arith
  count_if-modify-le p k f ((i, w) ∷ m) weaker =
      ground (arith, weaker w, count_if-modify-le p k f m weaker)

  pub get_first : (k : String) (v : V) (m : Map V) → get k ((k, v) ∷ m) ≡ some v
  unfolding get
  get_first k v m = rw (eq_refl k)
