-- ===== src/Base/Dict.antt =====
-- A Go map with string keys, as an association list. The order in which Go ranges over a map is
-- unspecified; here it is the order of insertion, and no theorem depends on it.
use Prim.Native.Nat.{◌+◌, ◌≤◌}
use Prim.Native.String.{String}
use mathlib.Core.Path.{◌≡◌, refl}
use mathlib.Core.Option.{Option, none, some}
use mathlib.Core.List.{List, [], ◌∷◌}
use native.Mathlib.Omega.{arith}
use text.Mathlib.Text.{◌==◌}
use text.Mathlib.TextEquality.{eq_iff}
use page_spy_api.Base.Tests.{if◌then◌else◌}
use page_spy_api.Base.Lists.{length}

abbrev pub Dict {ℓ} : Type ℓ → Type ℓ
Dict V = List (String × V)

module _ {ℓ} {V : Type ℓ} where
  -- v, ok := m[key]
  unfoldable pub lookup : String → Dict V → Option V
  lookup key [] = none
  lookup key ((name, v) ∷ rest) = if name == key then some v else lookup key rest

  -- m[key] = v, in the place of the entry that is there, or behind all
  unfoldable pub insert : String → V → Dict V → Dict V
  insert key v [] = (key, v) ∷ []
  insert key v ((name, old) ∷ rest) =
      let behind = (name, old) ∷ insert key v rest in
      if name == key then (name, v) ∷ rest else behind

  -- delete(m, k)
  unfoldable pub delete : String → Dict V → Dict V
  delete k [] = []
  delete k ((j, v) ∷ m) = let rest = delete k m in if j == k then rest else (j, v) ∷ rest

  -- The values that ranging over the map gives.
  unfoldable pub values : Dict V → List V
  values [] = []
  values ((k, v) ∷ m) = v ∷ values m

  -- What an insertion shows at its own key and at any other.
  pub lookup-insert :
      (key other : String) (v : V) (entries : Dict V)
      → lookup other (insert key v entries)
        ≡ (if key == other then some v else lookup other entries)
  unfolding lookup insert
  lookup-insert key other v [] = refl
  lookup-insert key other v ((name, old) ∷ rest) =
      ground (
        arith,
        eq_iff name key,
        eq_iff key other,
        eq_iff name other,
        lookup-insert key other v rest,
      )

  -- To store what is there changes nothing.
  pub insert_same :
      (key : String) (v : V) (entries : Dict V)
      → lookup key entries ≡ some v
      → insert key v entries ≡ entries
  unfolding lookup insert
  insert_same key v [] h = absurd cc
  insert_same key v ((name, old) ∷ rest) h = ground (arith, eq_iff name key, insert_same key v rest)

  pub lookup-delete :
      (k j : String) (m : Dict V) → lookup j (delete k m) ≡ (if k == j then none else lookup j m)
  unfolding lookup delete
  lookup-delete k j [] = ground arith
  lookup-delete k j ((i, w) ∷ m) =
      ground (arith, eq_iff k j, eq_iff i k, eq_iff i j, lookup-delete k j m)

  pub length-insert_new :
      (k : String) (v : V) (m : Dict V) → lookup k m ≡ none → length (insert k v m) ≡ length m + 1
  unfolding lookup insert
  length-insert_new k v [] h = omega arith
  length-insert_new k v ((j, w) ∷ m) h = ground (arith, length-insert_new k v m)

  pub length-insert : (k : String) (v : V) (m : Dict V) → length (insert k v m) ≤ length m + 1
  unfolding insert
  length-insert k v [] = omega arith
  length-insert k v ((j, w) ∷ m) = ground (arith, length-insert k v m)

  pub length-delete : (k : String) (m : Dict V) → length (delete k m) ≤ length m
  unfolding delete
  length-delete k [] = omega arith
  length-delete k ((j, w) ∷ m) = ground (arith, length-delete k m)

  pub length-values : (m : Dict V) → length (values m) ≡ length m
  unfolding values
  length-values [] = refl
  length-values ((k, v) ∷ m) = omega (arith, length-values m)

pub ruleset dict_laws = (lookup-insert, lookup-delete)
