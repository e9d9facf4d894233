-- ===== src/Prelude/Maps.antt =====
-- Go's maps with string keys, and a bucket of the key-value store, as association lists.
use mathlib.Core.Path.{◌≡◌, refl}
use mathlib.Core.Logic.{◌≢◌}
use mathlib.Core.Option.{Option, none, some}
use mathlib.Core.List.{List, [], ◌∷◌}
use native.Mathlib.Omega.{arith}
use alg_bc_db.Prelude.Tests.{if◌then◌else◌}
use alg_bc_db.Prelude.ByteStrings.{Bytes, equal, equal_iff, equal_refl}

module _ {ℓ} {V : Type ℓ} where
  unfoldable pub lookup : Bytes → List (Bytes × V) → Option V
  lookup k [] = none
  lookup k ((j, v) ∷ m) = if equal j k then some v else lookup k m

  unfoldable pub insert : Bytes → V → List (Bytes × V) → List (Bytes × V)
  insert k v [] = (k, v) ∷ []
  insert k v ((j, w) ∷ m) = if equal j k then (k, v) ∷ m else (j, w) ∷ insert k v m

  unfoldable pub delete : Bytes → List (Bytes × V) → List (Bytes × V)
  delete k [] = []
  delete k ((j, w) ∷ m) = if equal j k then delete k m else (j, w) ∷ delete k m

  pub lookup-insert :
      (k j : Bytes) (v : V) (m : List (Bytes × V))
      → lookup j (insert k v m) ≡ (if equal k j then some v else lookup j m)
  unfolding lookup insert
  lookup-insert k j v [] = refl
  lookup-insert k j v ((i, w) ∷ m) =
      ground (arith, equal_iff k j, equal_iff i k, equal_iff i j, lookup-insert k j v m)

  pub lookup-delete :
      (k j : Bytes) (m : List (Bytes × V))
      → lookup j (delete k m) ≡ (if equal k j then none else lookup j m)
  unfolding lookup delete
  lookup-delete k j [] = ground arith
  lookup-delete k j ((i, w) ∷ m) =
      ground (arith, equal_iff k j, equal_iff i k, equal_iff i j, lookup-delete k j m)

  pub lookup-insert_self :
      (k : Bytes) (v : V) (m : List (Bytes × V)) → lookup k (insert k v m) ≡ some v
  lookup-insert_self k v m = simp (lookup-insert, equal_refl)

  pub lookup-insert_ne :
      (k j : Bytes) (v : V) (m : List (Bytes × V)) → k ≢ j → lookup j (insert k v m) ≡ lookup j m
  lookup-insert_ne k j v m h = ground (arith, lookup-insert k j v m, equal_iff k j)

  pub lookup-delete_self : (k : Bytes) (m : List (Bytes × V)) → lookup k (delete k m) ≡ none
  lookup-delete_self k m = simp (lookup-delete, equal_refl)

  pub lookup-delete_ne :
      (k j : Bytes) (m : List (Bytes × V)) → k ≢ j → lookup j (delete k m) ≡ lookup j m
  lookup-delete_ne k j m h = ground (arith, lookup-delete k j m, equal_iff k j)
