-- ===== src/Base/StdMap.antt =====
-- std::map with numbers as keys: an association list in the order of the keys.
use mathlib.Core.Path.{◌≡◌, refl}
use mathlib.Core.Option.{Option, none, some}
use mathlib.Core.List.{List, [], ◌∷◌}
use Prim.Native.Nat.{ℕ}
use native.Mathlib.Omega.{arith}
use cse_yet_another_file_sys.Base.Compare.{ltb, ◌==◌, if◌then◌else◌}

abbrev pub Map {ℓ} : Type ℓ → Type ℓ
Map V = List (ℕ × V)

module _ {ℓ} {V : Type ℓ} where
  unfoldable pub lookup : ℕ → Map V → Option V
  lookup key [] = none
  lookup key ((here, value) ∷ rest) = if here == key then some value else lookup key rest

  -- m[k] = v, and insert of a key that is not there.
  unfoldable pub insert : ℕ → V → Map V → Map V
  insert key value [] = (key, value) ∷ []
  insert key value ((here, old) ∷ rest) =
      let later = insert key value rest in
      if here == key
      then (key, value) ∷ rest
      else if ltb key here
      then (key, value) ∷ (here, old) ∷ rest
      else (here, old) ∷ later

  unfoldable pub erase : ℕ → Map V → Map V
  erase k [] = []
  erase k ((j, w) ∷ m) = let rest = erase k m in if j == k then rest else (j, w) ∷ rest

  pub lookup-insert :
      (key sought : ℕ) (value : V) (entries : Map V)
      → lookup sought (insert key value entries)
        ≡ (if key == sought then some value else lookup sought entries)
  unfolding insert lookup
  lookup-insert key sought value [] = refl
  lookup-insert key sought value ((here, old) ∷ rest) =
      ground (arith, lookup-insert key sought value rest)

  pub lookup-erase :
      (k j : ℕ) (m : Map V) → lookup j (erase k m) ≡ (if k == j then none else lookup j m)
  unfolding lookup erase
  lookup-erase k j [] = ground arith
  lookup-erase k j ((i, w) ∷ m) = ground (arith, lookup-erase k j m)

  -- m[k] on a map whose values default to `d`, read only.
  unfoldable pub at_or : V → ℕ → Map V → V
  at_or d k m = elim (lookup k m) [ none ↦ d | some v ↦ v ]

  pub at_or-insert :
      (d : V) (k j : ℕ) (v : V) (m : Map V)
      → at_or d j (insert k v m) ≡ (if k == j then v else at_or d j m)
  unfolding at_or
  at_or-insert d k j v m = ground (arith, lookup-insert k j v m)

pub ruleset map_laws = (lookup-insert, lookup-erase, at_or-insert)
