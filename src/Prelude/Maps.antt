-- ===== src/Prelude/Maps.antt =====
-- Association lists for `std::unordered_map` with numeric keys: `find`, `insert` (which keeps an
-- entry that is there), assignment through `operator[]`, and `erase`.
use Prim.Native.Nat.{ℕ, suc, ◌≤◌}
use mathlib.Core.Path.{◌≡◌, refl}
use mathlib.Core.Bool.{Bool, true, false}
use mathlib.Core.List.{List, [], ◌∷◌}
use mathlib.Core.Option.{Option, none, some}
use native.Mathlib.Omega.{arith}
use libe2c_cpp.Prelude.Tests.{if◌then◌else◌, ◌==◌}
use libe2c_cpp.Prelude.Lists.{length}

abbrev pub Assoc {ℓ} : Type ℓ → Type ℓ
Assoc V = List (ℕ × V)

module _ {ℓ} {V : Type ℓ} where
  unfoldable pub lookup : ℕ → Assoc V → Option V
  lookup k [] = none
  lookup k ((j, v) ∷ m) = if j == k then some v else lookup k m

  abbrev pub is_some : Option V → Bool
  is_some none = false
  is_some (some _) = true

  -- `m.insert({k, v})`: an entry that is there stays.
  unfoldable pub insert : ℕ → V → Assoc V → Assoc V
  insert k v [] = (k, v) ∷ []
  insert k v ((j, w) ∷ m) = if j == k then (j, w) ∷ m else (j, w) ∷ insert k v m

  -- `m[k] = v`.
  unfoldable pub assign : ℕ → V → Assoc V → Assoc V
  assign k v [] = (k, v) ∷ []
  assign k v ((j, w) ∷ m) = if j == k then (j, v) ∷ m else (j, w) ∷ assign k v m

  -- `m.erase(k)`, where keys are distinct; every entry of the key goes.
  unfoldable pub erase : ℕ → Assoc V → Assoc V
  erase k [] = []
  erase k ((j, w) ∷ m) = let rest = erase k m in if j == k then rest else (j, w) ∷ rest

module _ {ℓ} {V : Type ℓ} where
  pub lookup-insert :
      (k j : ℕ) (v : V) (m : Assoc V)
      → lookup j (insert k v m)
        ≡ (if k == j then some (elim (lookup k m) [ none ↦ v | some w ↦ w ]) else lookup j m)
  unfolding lookup insert
  lookup-insert k j v [] = refl
  lookup-insert k j v ((i, w) ∷ m) = ground (arith, lookup-insert k j v m)

  pub lookup-assign :
      (k j : ℕ) (v : V) (m : Assoc V)
      → lookup j (assign k v m) ≡ (if k == j then some v else lookup j m)
  unfolding lookup assign
  lookup-assign k j v [] = refl
  lookup-assign k j v ((i, w) ∷ m) = ground (arith, lookup-assign k j v m)

  pub lookup-erase :
      (k j : ℕ) (m : Assoc V) → lookup j (erase k m) ≡ (if k == j then none else lookup j m)
  unfolding lookup erase
  lookup-erase k j [] = ground arith
  lookup-erase k j ((i, w) ∷ m) = ground (arith, lookup-erase k j m)

  pub length-insert-le : (k : ℕ) (v : V) (m : Assoc V) → length (insert k v m) ≤ suc (length m)
  unfolding insert
  length-insert-le k v [] = omega arith
  length-insert-le k v ((i, w) ∷ m) = ground (arith, length-insert-le k v m)

  pub length-erase-le : (k : ℕ) (m : Assoc V) → length (erase k m) ≤ length m
  unfolding erase
  length-erase-le k [] = omega arith
  length-erase-le k ((i, w) ∷ m) = ground (arith, length-erase-le k m)

  pub length-assign_old :
      (k : ℕ) (v w : V) (m : Assoc V) → lookup k m ≡ some w → length (assign k v m) ≡ length m
  unfolding lookup assign
  length-assign_old k v w [] h = cc
  length-assign_old k v w ((i, u) ∷ m) h = ground (arith, length-assign_old k v w m)

  pub length-insert_new :
      (k : ℕ) (v : V) (m : Assoc V) → lookup k m ≡ none → length (insert k v m) ≡ suc (length m)
  unfolding lookup insert
  length-insert_new k v [] h = refl
  length-insert_new k v ((i, w) ∷ m) h = ground (arith, length-insert_new k v m)

  pub insert_old : (k : ℕ) (v w : V) (m : Assoc V) → lookup k m ≡ some w → insert k v m ≡ m
  unfolding lookup insert
  insert_old k v w [] h = cc
  insert_old k v w ((i, u) ∷ m) h = ground (arith, insert_old k v w m)
