-- ===== src/Base/UniqueKeys.antt =====
-- Tables with no key twice.
use tracker_miners.Base.{
  ◌+◌, ◌≡◌, refl, ap, none, Bool-cases, inl, inr, [], ◌∷◌, arith, if◌then◌else◌, Eq, ◌==◌, ==_refl,
  length, Table, lookup, insert, remove_key, lookup-remove_key, is_some,
}

module _ {K V : Type 0} ⦃keys : Eq K⦄ where
  abbrev pub IsTable : Table K V → Type 0
  IsTable [] = Unit {0}
  IsTable ((k, v) ∷ t) = (lookup k t ≡ none) × IsTable t

  pub remove_key-absent : (k : K) (t : Table K V) → lookup k t ≡ none → remove_key k t ≡ t
  unfolding lookup remove_key
  remove_key-absent k [] h = refl
  remove_key-absent k ((j, v) ∷ t) h = ground (arith, h, remove_key-absent k t)

  pub remove_key-IsTable : (k : K) (t : Table K V) → IsTable t → IsTable (remove_key k t)
  unfolding remove_key
  remove_key-IsTable k [] h = tt
  remove_key-IsTable k ((j, v) ∷ t) h =
      ground (arith, h, remove_key-IsTable k t, lookup-remove_key k j t)

  pub insert-IsTable : (k : K) (v : V) (t : Table K V) → IsTable t → IsTable (insert k v t)
  unfolding insert
  insert-IsTable k v t h =
      (ground (arith, lookup-remove_key k k t, ==_refl k), remove_key-IsTable k t h)

  pub length-remove_key :
      (k : K) (t : Table K V)
      → IsTable t
      → length (remove_key k t) + (if is_some (lookup k t) then 1 else 0) ≡ length t
  unfolding remove_key lookup
  length-remove_key k [] h = omega arith
  length-remove_key k ((j, v) ∷ t) h = elim (Bool-cases (j == k)) [
    | inl here ↦ ground (
      arith,
      here,
      remove_key-absent k t,
      (keys.same_iff j k).0 here,
      h.0,
      ap (λ x. lookup x t) ((keys.same_iff j k).0 here),
    )
    | inr there ↦ ground (arith, there, length-remove_key k t h.1)
  ]
