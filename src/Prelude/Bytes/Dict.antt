-- ===== src/Prelude/Bytes/Dict.antt =====
-- A Go map with byte-string keys, as an association list. Go iterates a map in any order: no
-- theorem may depend on the order of the entries.
use d7024e_lab.Prelude.Bytes.Defs.{Bytes, bytes_eq, bytes_eq_iff}
use mathlib.Core.Path.{◌≡◌, refl}
use mathlib.Core.Bool.{Bool, true, false}
use mathlib.Core.Option.{Option, none, some}
use mathlib.Core.List.{List, [], ◌∷◌}
use native.Mathlib.Omega.{arith}
use d7024e_lab.Prelude.Tests.{if◌then◌else◌}

abbrev pub Dict {ℓ} : Type ℓ → Type ℓ
Dict V = List (Bytes × V)

module _ {ℓ} {V : Type ℓ} where
  unfoldable pub lookup : Bytes → Dict V → Option V
  lookup k [] = none
  lookup k ((j, v) ∷ m) = if bytes_eq j k then some v else lookup k m

  -- m[k] = v
  unfoldable pub insert : Bytes → V → Dict V → Dict V
  insert k v [] = (k, v) ∷ []
  insert k v ((j, w) ∷ m) = if bytes_eq j k then (j, v) ∷ m else (j, w) ∷ insert k v m

  -- delete(m, k)
  unfoldable pub remove : Bytes → Dict V → Dict V
  remove k [] = []
  remove k ((j, w) ∷ m) = let rest = remove k m in if bytes_eq j k then rest else (j, w) ∷ rest

  unfoldable pub has : Bytes → Dict V → Bool
  has k m = elim (lookup k m) [ none ↦ false | some _ ↦ true ]

  pub lookup-insert :
      (k j : Bytes) (v : V) (m : Dict V)
      → lookup j (insert k v m) ≡ (if bytes_eq k j then some v else lookup j m)
  unfolding lookup insert
  lookup-insert k j v [] = refl
  lookup-insert k j v ((i, w) ∷ m) =
      ground (arith, bytes_eq_iff k j, bytes_eq_iff i k, bytes_eq_iff i j, lookup-insert k j v m)

  pub lookup-remove :
      (k j : Bytes) (m : Dict V)
      → lookup j (remove k m) ≡ (if bytes_eq k j then none else lookup j m)
  unfolding lookup remove
  lookup-remove k j [] = ground arith
  lookup-remove k j ((i, w) ∷ m) =
      ground (arith, bytes_eq_iff k j, bytes_eq_iff i k, bytes_eq_iff i j, lookup-remove k j m)

  pub has-lookup : (k : Bytes) (v : V) (m : Dict V) → lookup k m ≡ some v → has k m ≡ true
  unfolding has
  has-lookup k v m h = rw (has, h) refl
