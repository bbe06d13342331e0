-- ===== src/Base/Tables.antt =====
-- A `GHashTable` as an association list: each key stands in it once at most. GLib leaves the order of
-- an iteration open, and no theorem depends on it.
use mathlib.Core.Path.{◌≡◌}
use mathlib.Core.List.{List, [], ◌∷◌}
use mathlib.Core.Option.{Option, none, some}
use mathlib.Core.Bool.{Bool}
use native.Mathlib.Omega.{arith}
use tracker_miners.Base.Tests.{Eq, ◌==◌, if◌then◌else◌}

abbrev pub Table {ℓ} : Type ℓ → Type ℓ → Type ℓ
Table K V = List (K × V)

module _ {ℓ} {K V : Type ℓ} ⦃e : Eq K⦄ where
  -- g_hash_table_lookup
  unfoldable pub lookup : K → Table K V → Option V
  lookup k [] = none
  lookup k ((j, v) ∷ t) = if j == k then some v else lookup k t

  -- g_hash_table_remove and g_hash_table_steal
  unfoldable pub remove_key : K → Table K V → Table K V
  remove_key k [] = []
  remove_key k ((j, v) ∷ t) = let rest = remove_key k t in if j == k then rest else (j, v) ∷ rest

  -- g_hash_table_insert and g_hash_table_replace
  unfoldable pub insert : K → V → Table K V → Table K V
  insert k v t = (k, v) ∷ remove_key k t

  -- g_hash_table_foreach_remove, with a test on the key
  unfoldable pub remove_keys : (K → Bool) → Table K V → Table K V
  remove_keys p [] = []
  remove_keys p ((j, v) ∷ t) = let rest = remove_keys p t in if p j then rest else (j, v) ∷ rest

  pub lookup-remove_key :
      (k j : K) (t : Table K V) → lookup j (remove_key k t) ≡ (if k == j then none else lookup j t)
  unfolding lookup remove_key
  lookup-remove_key k j [] = ground arith
  lookup-remove_key k j ((i, v) ∷ t) =
      ground (arith, lookup-remove_key k j t, e.same_iff i k, e.same_iff i j, e.same_iff k j)

  pub lookup-insert :
      (k j : K) (v : V) (t : Table K V)
      → lookup j (insert k v t) ≡ (if k == j then some v else lookup j t)
  unfolding lookup insert
  lookup-insert k j v t = ground (arith, lookup-remove_key k j t)

  pub lookup-remove_keys :
      (p : K → Bool) (j : K) (t : Table K V)
      → lookup j (remove_keys p t) ≡ (if p j then none else lookup j t)
  unfolding lookup remove_keys
  lookup-remove_keys p j [] = ground arith
  lookup-remove_keys p j ((i, v) ∷ t) = ground (arith, lookup-remove_keys p j t, e.same_iff i j)

pub ruleset table_laws = (lookup-remove_key, lookup-insert, lookup-remove_keys)
