-- ===== src/Table.antt =====
-- BTreeMap and HashMap with `u64` keys, as association lists in the order of the keys.
pub mod Laws
pub mod Collect
use ckb_vm_deterministic_sch.Prelude.{
  ℕ, Bool, Option, none, some, List, [], ◌∷◌, ◌==◌, ltb, if◌then◌else◌, is_some,
}

abbrev pub Table {ℓ} : Type ℓ → Type ℓ
Table V = List (ℕ × V)

module _ {ℓ} {V : Type ℓ} where
  unfoldable pub lookup : ℕ → Table V → Option V
  lookup k [] = none
  lookup k ((j, v) ∷ m) = if k == j then some v else lookup k m

  abbrev pub contains : ℕ → Table V → Bool
  contains k m = is_some (lookup k m)

  unfoldable pub insert : ℕ → V → Table V → Table V
  insert k v [] = (k, v) ∷ []
  insert k v ((j, w) ∷ m) =
      if k == j then (k, v) ∷ m else if ltb k j then (k, v) ∷ (j, w) ∷ m else (j, w) ∷ insert k v m

  unfoldable pub retain : (ℕ → V → Bool) → Table V → Table V
  retain p [] = []
  retain p ((j, v) ∷ m) = let rest = retain p m in if p j v then (j, v) ∷ rest else rest

  unfoldable pub remove : ℕ → Table V → Table V
  remove k [] = []
  remove k ((j, v) ∷ m) = let rest = remove k m in if k == j then rest else (j, v) ∷ rest

  unfoldable pub keys : Table V → List ℕ
  keys [] = []
  keys ((j, v) ∷ m) = j ∷ keys m

  -- `collect` into a map: a later pair overwrites an earlier one.
  unfoldable pub collect : List (ℕ × V) → Table V → Table V
  unfolding insert
  collect [] m = m
  collect ((k, v) ∷ l) m = collect l (insert k v m)

  -- `BTreeMap::first_entry`
  abbrev pub first_key : Table V → Option ℕ
  first_key [] = none
  first_key ((k, _) ∷ _) = some k
