-- ===== src/Common/Maps.antt =====
-- std::unordered_map with integer keys, as an association list. The order of the list is one that an
-- iteration may follow. Keys stand once; `erase` removes every binding of a key all the same.
use Prim.Native.Nat.{ℕ}
use mathlib.Core.Path.{◌≡◌, refl}
use mathlib.Core.List.{List, [], ◌∷◌}
use mathlib.Core.Option.{Option, none, some}
use native.Mathlib.Omega.{arith}
use testing.Common.Tests.{◌==◌, if◌then◌else◌}

module _ {ℓ} {A : Type ℓ} where
  unfoldable pub lookup : ℕ → List (ℕ × A) → Option A
  lookup k [] = none
  lookup k ((j, v) ∷ m) = if j == k then some v else lookup k m

  -- A write through the iterator of a key that is there.
  unfoldable pub put : ℕ → A → List (ℕ × A) → List (ℕ × A)
  put k v [] = []
  put k v ((j, w) ∷ m) = if j == k then (j, v) ∷ m else (j, w) ∷ put k v m

  -- `emplace` of a key that is not there.
  abbrev pub insert : ℕ → A → List (ℕ × A) → List (ℕ × A)
  insert k v m = (k, v) ∷ m

  unfoldable pub erase : ℕ → List (ℕ × A) → List (ℕ × A)
  erase k [] = []
  erase k ((j, v) ∷ m) = if j == k then erase k m else (j, v) ∷ erase k m

  pub lookup-insert :
      (k j : ℕ) (v : A) (m : List (ℕ × A))
      → lookup j (insert k v m) ≡ (if k == j then some v else lookup j m)
  unfolding lookup
  lookup-insert k j v m = refl

  pub lookup-put :
      (k j : ℕ) (v w : A) (m : List (ℕ × A))
      → lookup k m ≡ some w
      → lookup j (put k v m) ≡ (if k == j then some v else lookup j m)
  unfolding lookup put
  lookup-put k j v w [] h = ground arith
  lookup-put k j v w ((i, x) ∷ m) h = ground (arith, lookup-put k j v w m)

  pub lookup-erase :
      (k j : ℕ) (m : List (ℕ × A)) → lookup j (erase k m) ≡ (if k == j then none else lookup j m)
  unfolding lookup erase
  lookup-erase k j [] = ground arith
  lookup-erase k j ((i, w) ∷ m) = ground (arith, lookup-erase k j m)
