-- ===== src/Map/Same.antt =====
-- Maps with the same bindings, whatever the order of their entries is.
use plant_minder.Base.{◌≡◌, refl, sym, ◌∙◌, none, [], ◌∷◌, arith, Eq, length}
use plant_minder.Map.{Map, lookup, insert, remove, IsMap}
use plant_minder.Map.Laws.{lookup-insert, lookup-remove, remove-IsMap, length-remove}

module _ {ℓ κ} {K : Type ℓ} {V : Type κ} ⦃e : Eq K⦄ where
  abbrev pub SameMap : Map K V → Map K V → Type (ℓ ⊔ κ)
  SameMap a b = (k : K) → lookup k a ≡ lookup k b

  pub insert-SameMap :
      (k : K) (v w : V) (a b : Map K V)
      → v ≡ w
      → SameMap a b
      → SameMap (insert k v a) (insert k w b)
  insert-SameMap k v w a b values same j =
      lookup-insert k j v a ∙ ground (arith, values, same j) ∙ sym (lookup-insert k j w b)

  pub remove-SameMap : (k : K) (a b : Map K V) → SameMap a b → SameMap (remove k a) (remove k b)
  remove-SameMap k a b same j =
      lookup-remove k j a ∙ ground (arith, same j) ∙ sym (lookup-remove k j b)

  first_removed :
      (k : K) (v : V) (a b : Map K V)
      → lookup k a ≡ none
      → SameMap ((k, v) ∷ a) b
      → SameMap a (remove k b)
  unfolding lookup
  first_removed k v a b fresh same j =
      ground (arith, e.beq_iff k j, same j, lookup-remove k j b, fresh)

  -- Without repeated keys they have the same size.
  pub length-SameMap : (a b : Map K V) → IsMap a → IsMap b → SameMap a b → length a ≡ length b
  unfolding lookup
  length-SameMap [] [] ha hb same = refl
  length-SameMap [] ((k, v) ∷ b) ha hb same = ground (arith, e.beq_iff k k, same k)
  length-SameMap ((k, v) ∷ a) b ha hb same = ground (
    arith,
    e.beq_iff k k,
    same k,
    length-remove k b hb,
    length-SameMap a (remove k b) ha.1 (remove-IsMap k b hb) (first_removed k v a b ha.0 same),
  )
