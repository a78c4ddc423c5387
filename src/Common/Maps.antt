-- ===== src/Common/Maps.antt =====
-- Association lists for the program's hash maps. The order of a list stands for an order of
-- iteration, and theorems are about every order.
use mathlib.Core.Path.{◌≡◌, refl}
use mathlib.Core.Option.{Option, none, some}
use mathlib.Core.List.{List, [], ◌∷◌}
use native.Mathlib.Omega.{arith}
use octa.Common.Tests.{Eq, ◌==◌, ==_iff, if◌then◌else◌}

module _ {ℓ κ} {K : Type ℓ} {V : Type κ} ⦃e : Eq K⦄ where
  abbrev pub lookup : K → List (K × V) → Option V
  lookup k [] = none
  lookup k ((j, v) ∷ m) = if j == k then some v else lookup k m

  -- `HashMap::insert`: the value of a present key is replaced.
  unfoldable pub insert : K → V → List (K × V) → List (K × V)
  insert k v [] = (k, v) ∷ []
  insert k v ((j, w) ∷ m) = if j == k then (j, v) ∷ m else (j, w) ∷ insert k v m

  -- `HashMap::remove`.
  unfoldable pub remove : K → List (K × V) → List (K × V)
  remove k [] = []
  remove k ((j, w) ∷ m) = let rest = remove k m in if j == k then rest else (j, w) ∷ rest

  pub lookup-insert :
      (k j : K) (v : V) (m : List (K × V))
      → lookup j (insert k v m) ≡ (if k == j then some v else lookup j m)
  unfolding insert
  lookup-insert k j v [] = refl
  lookup-insert k j v ((i, w) ∷ m) =
      ground (arith, ==_iff k j, ==_iff i k, ==_iff i j, lookup-insert k j v m)

  pub lookup-remove :
      (k j : K) (m : List (K × V)) → lookup j (remove k m) ≡ (if k == j then none else lookup j m)
  unfolding remove
  lookup-remove k j [] = ground arith
  lookup-remove k j ((i, w) ∷ m) =
      ground (arith, ==_iff k j, ==_iff i k, ==_iff i j, lookup-remove k j m)

  -- No key stands twice.
  abbrev pub KeysDistinct : List (K × V) → Type κ
  KeysDistinct [] = Unit
  KeysDistinct ((k, v) ∷ m) = (lookup k m ≡ none) × KeysDistinct m

  pub remove_absent : (k : K) (m : List (K × V)) → lookup k m ≡ none → remove k m ≡ m
  unfolding remove
  remove_absent k [] h = refl
  remove_absent k ((j, w) ∷ m) h = ground (arith, remove_absent k m)

  pub insert-KeysDistinct :
      (k : K) (v : V) (m : List (K × V)) → KeysDistinct m → KeysDistinct (insert k v m)
  unfolding insert
  insert-KeysDistinct k v [] h = (refl, tt)
  insert-KeysDistinct k v ((j, w) ∷ m) h =
      ground (arith, insert-KeysDistinct k v m h.1, lookup-insert k j v m, ==_iff k j, ==_iff j k)

  pub remove-KeysDistinct : (k : K) (m : List (K × V)) → KeysDistinct m → KeysDistinct (remove k m)
  unfolding remove
  remove-KeysDistinct k [] h = tt
  remove-KeysDistinct k ((j, w) ∷ m) h =
      ground (arith, remove-KeysDistinct k m h.1, lookup-remove k j m, ==_iff k j, ==_iff j k)
