-- ===== src/Map/Laws.antt =====
-- The laws of the maps: what a lookup sees after an operation, and that no key is repeated.
use plant_minder.Base.{
  ◌≡◌, refl, none, some, [], ◌∷◌, arith, if◌then◌else◌, Eq, ◌==◌, All, length, ◌+◌,
}
use plant_minder.Map.{Map, lookup, insert, remove, contains_key, IsMap}

module _ {ℓ κ} {K : Type ℓ} {V : Type κ} ⦃e : Eq K⦄ where
  pub lookup-insert :
      (new key : K) (v : V) (m : Map K V)
      → lookup key (insert new v m) ≡ (if new == key then some v else lookup key m)
  unfolding insert lookup
  lookup-insert new key v [] = refl
  lookup-insert new key v ((i, w) ∷ rest) =
      ground
        (arith, e.beq_iff new key, e.beq_iff i new, e.beq_iff i key, lookup-insert new key v rest)

  pub lookup-remove :
      (k j : K) (m : Map K V) → lookup j (remove k m) ≡ (if k == j then none else lookup j m)
  unfolding lookup remove
  lookup-remove k j [] = ground arith
  lookup-remove k j ((i, w) ∷ m) =
      ground (arith, e.beq_iff k j, e.beq_iff i k, e.beq_iff i j, lookup-remove k j m)

  pub insert-IsMap : (k : K) (v : V) (m : Map K V) → IsMap m → IsMap (insert k v m)
  unfolding lookup insert
  insert-IsMap k v [] h = (refl, tt)
  insert-IsMap k v ((i, w) ∷ m) h =
      ground (arith, e.beq_iff i k, e.beq_iff k i, insert-IsMap k v m h.1, lookup-insert k i v m)

  pub remove-IsMap : (k : K) (m : Map K V) → IsMap m → IsMap (remove k m)
  unfolding lookup remove
  remove-IsMap k [] h = tt
  remove-IsMap k ((i, w) ∷ m) h = ground (arith, remove-IsMap k m h.1, lookup-remove k i m)

  -- Every binding satisfies `P`.
  pub All-insert {ν} :
      (P : K × V → Type ν) (k : K) (v : V) (m : Map K V) → P (k, v) → All P m → All P (insert k v m)
  unfolding insert
  All-insert P k v [] p h = (p, tt)
  All-insert P k v ((i, w) ∷ m) p h = ground (arith, All-insert P k v m p h.1)

  pub All-remove {ν} : (P : K × V → Type ν) (k : K) (m : Map K V) → All P m → All P (remove k m)
  unfolding remove
  All-remove P k [] h = tt
  All-remove P k ((i, w) ∷ m) h = ground (arith, All-remove P k m h.1)

  pub All-lookup {ν} :
      (P : K × V → Type ν) (k : K) (v : V) (m : Map K V) → All P m → lookup k m ≡ some v → P (k, v)
  unfolding lookup
  All-lookup P k v [] h q = cc
  All-lookup P k v ((i, w) ∷ m) h q = ground (arith, e.beq_iff i k, All-lookup P k v m h.1)

  pub remove_absent : (k : K) (m : Map K V) → lookup k m ≡ none → remove k m ≡ m
  unfolding lookup remove
  remove_absent k [] h = refl
  remove_absent k ((i, w) ∷ m) h = ground (arith, remove_absent k m)

  -- Without repeated keys a removal takes one entry at most.
  pub length-remove :
      (k : K) (m : Map K V)
      → IsMap m
      → length m ≡ length (remove k m) + (if contains_key k m then 1 else 0)
  unfolding lookup remove
  length-remove k [] h = omega arith
  length-remove k ((i, w) ∷ m) h =
      ground (arith, e.beq_iff i k, length-remove k m h.1, remove_absent k m)

  pub length-insert :
      (k : K) (v : V) (m : Map K V)
      → length (insert k v m) ≡ length m + (if contains_key k m then 0 else 1)
  unfolding lookup insert
  length-insert k v [] = omega arith
  length-insert k v ((i, w) ∷ m) = ground (arith, length-insert k v m)
