-- ===== src/Common/Maps.antt =====
-- A `Map` with text keys, as the list of its entries in the order of insertion.
use Prim.Native.Nat.{◌+◌, ◌≤◌}
use mathlib.Core.Path.{◌≡◌, refl}
use mathlib.Core.Option.{Option, none, some}
use mathlib.Core.List.{List, [], ◌∷◌}
use native.Mathlib.Omega.{arith}
use res_ex_machina.Common.Tests.{if◌then◌else◌}
use res_ex_machina.Common.Lists.{length}
use res_ex_machina.Common.Texts.{Text, text_eq, text_eq_iff}

module _ {ℓ} {V : Type ℓ} where
  unfoldable pub map_get : Text → List (Text × V) → Option V
  map_get k [] = none
  map_get k ((j, v) ∷ m) = let rest = map_get k m in if text_eq j k then some v else rest

  -- An entry that is there keeps its place.
  unfoldable pub map_set : Text → V → List (Text × V) → List (Text × V)
  map_set k v [] = (k, v) ∷ []
  map_set k v ((j, w) ∷ m) =
      let rest = map_set k v m in if text_eq j k then (k, v) ∷ m else (j, w) ∷ rest

  unfoldable pub map_delete : Text → List (Text × V) → List (Text × V)
  map_delete k [] = []
  map_delete k ((j, w) ∷ m) =
      let rest = map_delete k m in if text_eq j k then rest else (j, w) ∷ rest

  pub map_get-map_set :
      (k j : Text) (v : V) (m : List (Text × V))
      → map_get j (map_set k v m) ≡ (if text_eq k j then some v else map_get j m)
  unfolding map_get map_set
  map_get-map_set k j v [] = refl
  map_get-map_set k j v ((i, w) ∷ m) =
      ground (arith, text_eq_iff k j, text_eq_iff i k, text_eq_iff i j, map_get-map_set k j v m)

  pub map_get-map_delete :
      (k j : Text) (m : List (Text × V))
      → map_get j (map_delete k m) ≡ (if text_eq k j then none else map_get j m)
  unfolding map_get map_delete
  map_get-map_delete k j [] = ground arith
  map_get-map_delete k j ((i, w) ∷ m) =
      ground (arith, text_eq_iff k j, text_eq_iff i k, text_eq_iff i j, map_get-map_delete k j m)

  pub length-map_set :
      (k : Text) (v : V) (m : List (Text × V)) → length (map_set k v m) ≤ length m + 1
  unfolding map_set
  length-map_set k v [] = omega arith
  length-map_set k v ((j, w) ∷ m) = ground (arith, length-map_set k v m)

  pub length-map_delete : (k : Text) (m : List (Text × V)) → length (map_delete k m) ≤ length m
  unfolding map_delete
  length-map_delete k [] = omega arith
  length-map_delete k ((j, w) ∷ m) = ground (arith, length-map_delete k m)
