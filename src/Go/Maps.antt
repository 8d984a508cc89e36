-- ===== src/Go/Maps.antt =====
-- Go maps with string keys, as association lists. The agent never depends on their order.
use init_agent.Base.{
  ◌≡◌, Option, none, some, List, [], ◌∷◌, arith, Text, text_eq, text_eq_iff, if◌then◌else◌,
}

abbrev pub Map {ℓ} : Type ℓ → Type ℓ
Map V = List (Text × V)

module _ {ℓ} {V : Type ℓ} where
  -- `v, ok := m[key]`
  unfoldable pub lookup : Text → Map V → Option V
  lookup key [] = none
  lookup key ((k, v) ∷ m) = let rest = lookup key m in if text_eq k key then some v else rest

  -- `delete(m, key)`
  unfoldable pub delete : Text → Map V → Map V
  delete key [] = []
  delete key ((k, v) ∷ m) = let rest = delete key m in if text_eq k key then rest else (k, v) ∷ rest

  -- `m[key] = v`
  unfoldable pub insert : Text → V → Map V → Map V
  unfolding delete
  insert key v m = (key, v) ∷ delete key m

  pub lookup-delete :
      (key j : Text) (m : Map V)
      → lookup j (delete key m) ≡ (if text_eq key j then none else lookup j m)
  unfolding lookup delete
  lookup-delete key j [] = ground arith
  lookup-delete key j ((k, v) ∷ m) =
      ground (arith, lookup-delete key j m, text_eq_iff k key, text_eq_iff k j, text_eq_iff key j)

  pub lookup-insert :
      (key j : Text) (v : V) (m : Map V)
      → lookup j (insert key v m) ≡ (if text_eq key j then some v else lookup j m)
  unfolding lookup insert
  lookup-insert key j v m = ground (arith, lookup-delete key j m)
