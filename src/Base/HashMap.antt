-- ===== src/Base/HashMap.antt =====
-- `std::collections::HashMap` over numbers. A map is a list of entries; what an iteration over it
-- sees goes through a `Hasher`, since the order of the buckets is not specified.
use v3_node.Base.Tests.{◌==◌, if◌then◌else◌, Bool-cases}
use mathlib.Core.Logic.{inl, inr}
use v3_node.Base.Lists.{length}
use v3_node.Base.Count.{except, count}
use Prim.Native.Nat.{ℕ, ◌<◌}
use mathlib.Core.Path.{◌≡◌, refl}
use mathlib.Core.Bool.{Bool, true, false}
use mathlib.Core.Option.{Option, none, some}
use mathlib.Core.List.{List, [], ◌∷◌}
use native.Mathlib.Omega.{arith}

-- An iteration visits every key, as often as the table holds it, in an order of its own.
pub record Hasher : Type 0 where
  pub order : List ℕ → List ℕ
  pub count-order : (ks : List ℕ) (k : ℕ) → count k (order ks) ≡ count k ks
  pub length-order : (ks : List ℕ) → length (order ks) ≡ length ks

abbrev pub HashMap {ℓ} : Type ℓ → Type ℓ
HashMap V = List (ℕ × V)

module _ {ℓ} {V : Type ℓ} where
  unfoldable pub get : ℕ → HashMap V → Option V
  get k [] = none
  get k ((j, v) ∷ m) = if j == k then some v else get k m

  unfoldable pub contains_key : ℕ → HashMap V → Bool
  contains_key k m = elim (get k m) [ none ↦ false | some v ↦ true ]

  unfoldable pub remove : ℕ → HashMap V → HashMap V
  remove k [] = []
  remove k ((j, v) ∷ m) = let rest = remove k m in if j == k then rest else (j, v) ∷ rest

  unfoldable pub insert : ℕ → V → HashMap V → HashMap V
  insert k v m = (k, v) ∷ remove k m

  -- `map.remove(&k)` gives back the value that it removes.
  unfoldable pub take_out : ℕ → HashMap V → Option V × HashMap V
  take_out k m = (get k m, remove k m)

  -- The keys in the order of the table.
  unfoldable pub stored_keys : HashMap V → List ℕ
  stored_keys [] = []
  stored_keys ((k, v) ∷ m) = k ∷ stored_keys m

  unfoldable pub keys : Hasher → HashMap V → List ℕ
  keys h m = h.order (stored_keys m)

  unfoldable pub lookup_all : HashMap V → List ℕ → List V
  lookup_all m [] = []
  lookup_all m (k ∷ ks) =
      let rest = lookup_all m ks in elim (get k m) [ none ↦ rest | some v ↦ v ∷ rest ]

  -- The values, in the order of the keys.
  unfoldable pub values : Hasher → HashMap V → List V
  values h m = lookup_all m (keys h m)

  pub get-remove :
      (k j : ℕ) (m : HashMap V) → get j (remove k m) ≡ (if k == j then none else get j m)
  unfolding get remove
  get-remove k j [] = ground arith
  get-remove k j ((i, v) ∷ m) = ground (arith, get-remove k j m)

  pub get-insert :
      (k j : ℕ) (v : V) (m : HashMap V)
      → get j (insert k v m) ≡ (if k == j then some v else get j m)
  unfolding insert get
  get-insert k j v m = ground (arith, get-remove k j m)

  pub count-remove :
      (k j : ℕ) (m : HashMap V)
      → count j (stored_keys (remove k m)) ≡ (if k == j then 0 else count j (stored_keys m))
  unfolding remove stored_keys
  count-remove k j [] = ground arith
  count-remove k j ((i, v) ∷ m) = ground (arith, count-remove k j m)

  pub count-insert :
      (k j : ℕ) (v : V) (m : HashMap V)
      → count j (stored_keys (insert k v m)) ≡ (if k == j then 1 else count j (stored_keys m))
  unfolding insert stored_keys
  count-insert k j v m = ground (arith, count-remove k j m)

  -- A key is stored exactly when it has a value.
  pub get-of-count :
      (k : ℕ) (m : HashMap V) → 0 < count k (stored_keys m) → (v : V) × (get k m ≡ some v)
  unfolding get stored_keys
  get-of-count k [] h = absurd (omega arith)
  get-of-count k ((j, v) ∷ m) h = elim (Bool-cases (j == k)) [
    | inl hit ↦ (v, rw hit)
    | inr miss ↦ let (w, e) = get-of-count k m (ground arith) in (w, rw miss e)
  ]

  pub count-of-get :
      (k : ℕ) (m : HashMap V) (v : V) → get k m ≡ some v → 0 < count k (stored_keys m)
  unfolding get stored_keys
  count-of-get k [] v h = ground arith
  count-of-get k ((j, w) ∷ m) v h = ground (arith, count-of-get k m v)

  pub length-stored_keys : (m : HashMap V) → length (stored_keys m) ≡ length m
  unfolding stored_keys
  length-stored_keys [] = refl
  length-stored_keys ((k, v) ∷ m) = ground (arith, length-stored_keys m)

  pub stored_keys-remove :
      (k : ℕ) (m : HashMap V) → stored_keys (remove k m) ≡ except k (stored_keys m)
  unfolding stored_keys remove
  stored_keys-remove k [] = refl
  stored_keys-remove k ((j, v) ∷ m) = ground (arith, stored_keys-remove k m)

-- What a lookup and a count see of an insertion and a removal.
pub ruleset map_laws = (get-remove, get-insert, count-remove, count-insert)
