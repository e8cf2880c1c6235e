-- ===== src/Base/Keys.antt =====
-- The keys of a map are distinct, and stay so.
use Prim.Native.String.{String}
use mathlib.Core.Path.{◌≡◌}
use mathlib.Core.List.{[], ◌∷◌}
use mathlib.Core.Option.{none, some}
use native.Mathlib.Omega.{arith}
use text.Mathlib.TextEquality.{eq_iff}
use remote_ttys.Base.Maps.{
  Map, get, set, delete, modify, map_values, get-set, get-delete, get-modify, get-map_values,
}

module _ {ℓ} {V : Type ℓ} where
  abbrev pub IsUnique : Map V → Type ℓ
  IsUnique [] = Unit
  IsUnique ((k, v) ∷ m) = (get k m ≡ none) × IsUnique m

  pub set-IsUnique : (k : String) (v : V) (m : Map V) → IsUnique m → IsUnique (set k v m)
  unfolding set get
  set-IsUnique k v [] h = ground arith
  set-IsUnique k v ((i, w) ∷ m) h =
      ground (arith, eq_iff i k, eq_iff k i, get-set k i v m, set-IsUnique k v m h.1)

  pub delete-IsUnique : (k : String) (m : Map V) → IsUnique m → IsUnique (delete k m)
  unfolding delete
  delete-IsUnique k [] h = tt
  delete-IsUnique k ((i, w) ∷ m) h = ground (arith, get-delete k i m, delete-IsUnique k m h.1)

  pub modify-IsUnique : (k : String) (f : V → V) (m : Map V) → IsUnique m → IsUnique (modify k f m)
  unfolding modify
  modify-IsUnique k f [] h = tt
  modify-IsUnique k f ((i, w) ∷ m) h = ground (arith, get-modify k i f m, modify-IsUnique k f m h.1)

  pub map_values-IsUnique : (f : V → V) (m : Map V) → IsUnique m → IsUnique (map_values f m)
  unfolding map_values
  map_values-IsUnique f [] h = tt
  map_values-IsUnique f ((i, w) ∷ m) h =
      ground (arith, get-map_values i f m, map_values-IsUnique f m h.1)

  -- What a later entry says is what the map says.
  pub get-tail :
      (i k : String) (w v : V) (m : Map V)
      → get i m ≡ none
      → get k m ≡ some v
      → get k ((i, w) ∷ m) ≡ some v
  unfolding get
  get-tail i k w v m fresh found = ground (arith, eq_iff i k)
