-- ===== src/Base/Dict.antt =====
-- Maps from numbers: association lists, and the sorted ones of `std::map`.
use Prim.Native.Nat.{ℕ, suc, ◌≤◌, ◌<◌}
use mathlib.Core.Path.{◌≡◌, refl}
use mathlib.Core.List.{List, [], ◌∷◌}
use mathlib.Core.Option.{Option, none, some}
use native.Mathlib.Omega.{arith}
use codec_single_thread.Base.Tests.{◌==◌, ltb, if◌then◌else◌}

module _ {ℓ} {V : Type ℓ} where
  unfoldable pub lookup : ℕ → List (ℕ × V) → Option V
  lookup j [] = none
  lookup j ((k, v) ∷ m) = if k == j then some v else lookup j m

  -- `m[k] = v` of an unordered map.
  unfoldable pub insert : ℕ → V → List (ℕ × V) → List (ℕ × V)
  insert k v [] = (k, v) ∷ []
  insert k v ((j, w) ∷ m) = if j == k then (k, v) ∷ m else (j, w) ∷ insert k v m

  unfoldable pub erase : ℕ → List (ℕ × V) → List (ℕ × V)
  erase k [] = []
  erase k ((j, w) ∷ m) = let rest = erase k m in if j == k then rest else (j, w) ∷ rest

  -- `m.insert(k, v)` of a sorted map without the key.
  unfoldable pub insert_sorted : ℕ → V → List (ℕ × V) → List (ℕ × V)
  insert_sorted k v [] = (k, v) ∷ []
  insert_sorted k v ((j, w) ∷ m) =
      if ltb k j then (k, v) ∷ ((j, w) ∷ m) else (j, w) ∷ insert_sorted k v m

  pub lookup-insert :
      (j k : ℕ) (v : V) (m : List (ℕ × V))
      → lookup j (insert k v m) ≡ (if j == k then some v else lookup j m)
  unfolding lookup insert
  lookup-insert j k v [] = ground arith
  lookup-insert j k v ((i, w) ∷ m) = ground (arith, lookup-insert j k v m)

  pub lookup-erase :
      (j k : ℕ) (m : List (ℕ × V)) → lookup j (erase k m) ≡ (if j == k then none else lookup j m)
  unfolding lookup erase
  lookup-erase j k [] = ground arith
  lookup-erase j k ((i, w) ∷ m) = ground (arith, lookup-erase j k m)

  -- The keys rise strictly, from `lo` on.
  abbrev pub Rising : ℕ → List (ℕ × V) → Type 0
  Rising lo [] = Unit
  Rising lo ((k, v) ∷ m) = (lo ≤ k) × Rising (suc k) m

  pub Rising-weaken : (lo lo' : ℕ) (m : List (ℕ × V)) → lo' ≤ lo → Rising lo m → Rising lo' m
  Rising-weaken lo lo' [] h r = tt
  Rising-weaken lo lo' ((k, v) ∷ m) h r = (omega arith, r.1)

  pub lookup-below : (j lo : ℕ) (m : List (ℕ × V)) → j < lo → Rising lo m → lookup j m ≡ none
  unfolding lookup
  lookup-below j lo [] h r = refl
  lookup-below j lo ((k, v) ∷ m) h r = ground (arith, lookup-below j (suc k) m)

  pub insert_sorted-Rising :
      (lo k : ℕ) (v : V) (m : List (ℕ × V))
      → lo ≤ k
      → lookup k m ≡ none
      → Rising lo m
      → Rising lo (insert_sorted k v m)
  unfolding lookup insert_sorted
  insert_sorted-Rising lo k v [] h e r = omega arith
  insert_sorted-Rising lo k v ((j, w) ∷ m) h e r =
      ground (arith, insert_sorted-Rising (suc j) k v m)

  pub erase-Rising : (lo k : ℕ) (m : List (ℕ × V)) → Rising lo m → Rising lo (erase k m)
  unfolding erase
  erase-Rising lo k [] r = tt
  erase-Rising lo k ((j, w) ∷ m) r =
      ground (arith, erase-Rising (suc j) k m, Rising-weaken (suc j) lo (erase k m))

module _ {V : Type 0} where
  pub lookup-insert_sorted :
      (j k : ℕ) (v : V) (m : List (ℕ × V))
      → lookup k m ≡ none
      → lookup j (insert_sorted k v m) ≡ (if j == k then some v else lookup j m)
  unfolding lookup insert_sorted
  lookup-insert_sorted j k v [] h = ground arith
  lookup-insert_sorted j k v ((i, w) ∷ m) h = ground (arith, lookup-insert_sorted j k v m)
