-- ===== src/Table/Laws.antt =====
-- What the operations on maps do to a lookup, to the order of the keys and to the size.
use ckb_vm_deterministic_sch.Prelude.{
  mem, ℕ, suc, ◌+◌, ◌≤◌, ◌<◌, ◌≡◌, refl, Bool, true, Option, none, some, [], ◌∷◌, arith, ◌==◌,
  if◌then◌else◌, length,
}
use ckb_vm_deterministic_sch.Prelude.Distinct.{IsDistinct}
use ckb_vm_deterministic_sch.Table.{keys, Table, lookup, contains, insert, retain, remove}

module _ {ℓ} {V : Type ℓ} where
  -- Keys rise strictly, from `n` on.
  abbrev pub IsAbove : ℕ → Table V → Type 0
  IsAbove n [] = Unit
  IsAbove n ((k, v) ∷ m) = (n ≤ k) × IsAbove (suc k) m

  abbrev pub IsSorted : Table V → Type 0
  IsSorted m = IsAbove 0 m

  pub lookup-insert :
      (k j : ℕ) (v : V) (m : Table V)
      → lookup j (insert k v m) ≡ (if k == j then some v else lookup j m)
  unfolding lookup insert
  lookup-insert k j v [] = ground arith
  lookup-insert k j v ((i, w) ∷ m) = ground (arith, lookup-insert k j v m)

  pub lookup-remove :
      (k j : ℕ) (m : Table V) → lookup j (remove k m) ≡ (if k == j then none else lookup j m)
  unfolding lookup remove
  lookup-remove k j [] = ground arith
  lookup-remove k j ((i, w) ∷ m) = ground (arith, lookup-remove k j m)

  IsAbove-le : (n l : ℕ) (m : Table V) → l ≤ n → IsAbove n m → IsAbove l m
  IsAbove-le n l [] h a = tt
  IsAbove-le n l ((k, v) ∷ m) h a = (omega arith, a.1)

  pub lookup-above : (n k : ℕ) (m : Table V) → IsAbove n m → k < n → lookup k m ≡ none
  unfolding lookup
  lookup-above n k [] a h = refl
  lookup-above n k ((j, v) ∷ m) a h = ground (arith, lookup-above (suc j) k m a.1)

  IsAbove-insert : (n k : ℕ) (v : V) (m : Table V) → IsAbove n m → n ≤ k → IsAbove n (insert k v m)
  unfolding insert
  IsAbove-insert n k v [] a h = (h, tt)
  IsAbove-insert n k v ((j, w) ∷ m) a h =
      ground (arith, IsAbove-insert (suc j) k v m a.1, IsAbove-le (suc j) (suc k) m)

  pub insert-IsSorted : (k : ℕ) (v : V) (m : Table V) → IsSorted m → IsSorted (insert k v m)
  insert-IsSorted k v m a = IsAbove-insert 0 k v m a (omega arith)

  IsAbove-remove : (n k : ℕ) (m : Table V) → IsAbove n m → IsAbove n (remove k m)
  unfolding remove
  IsAbove-remove n k [] a = tt
  IsAbove-remove n k ((j, w) ∷ m) a =
      ground (arith, IsAbove-remove (suc j) k m a.1, IsAbove-le (suc j) n (remove k m))

  pub remove-IsSorted : (k : ℕ) (m : Table V) → IsSorted m → IsSorted (remove k m)
  remove-IsSorted k m a = IsAbove-remove 0 k m a

  IsAbove-retain : (n : ℕ) (p : ℕ → V → Bool) (m : Table V) → IsAbove n m → IsAbove n (retain p m)
  unfolding retain
  IsAbove-retain n p [] a = tt
  IsAbove-retain n p ((j, w) ∷ m) a =
      ground (arith, IsAbove-retain (suc j) p m a.1, IsAbove-le (suc j) n (retain p m))

  pub retain-IsSorted : (p : ℕ → V → Bool) (m : Table V) → IsSorted m → IsSorted (retain p m)
  retain-IsSorted p m a = IsAbove-retain 0 p m a

  -- `filter` on the value that a lookup finds.
  abbrev pub keep : (V → Bool) → Option V → Option V
  keep p none = none
  keep p (some v) = if p v then some v else none

  lookup-retain_above :
      (n j : ℕ) (p : ℕ → V → Bool) (m : Table V)
      → IsAbove n m
      → lookup j (retain p m) ≡ keep (p j) (lookup j m)
  unfolding lookup retain
  lookup-retain_above n j p [] a = refl
  lookup-retain_above n j p ((i, w) ∷ m) a =
      ground (arith, lookup-retain_above (suc i) j p m a.1, lookup-above (suc i) j m a.1)

  pub lookup-retain :
      (j : ℕ) (p : ℕ → V → Bool) (m : Table V)
      → IsSorted m
      → lookup j (retain p m) ≡ keep (p j) (lookup j m)
  lookup-retain j p m a = lookup-retain_above 0 j p m a

  pub length-insert : (k : ℕ) (v : V) (m : Table V) → length (insert k v m) ≤ length m + 1
  unfolding insert
  length-insert k v [] = omega arith
  length-insert k v ((j, w) ∷ m) = ground (arith, length-insert k v m)

  pub length-remove-le : (k : ℕ) (m : Table V) → length (remove k m) ≤ length m
  unfolding remove
  length-remove-le k [] = omega arith
  length-remove-le k ((j, w) ∷ m) = ground (arith, length-remove-le k m)

  pub length-remove : (k : ℕ) (m : Table V) → contains k m ≡ true → length (remove k m) < length m
  unfolding remove lookup
  length-remove k [] h = cc
  length-remove k ((j, w) ∷ m) h = ground (arith, length-remove k m, length-remove-le k m)

  length-insert_above :
      (n k : ℕ) (v : V) (m : Table V)
      → IsAbove n m
      → contains k m ≡ true
      → length (insert k v m) ≡ length m
  unfolding insert lookup
  length-insert_above n k v [] a h = cc
  length-insert_above n k v ((j, w) ∷ m) a h =
      ground (arith, length-insert_above (suc j) k v m a.1, lookup-above (suc j) k m a.1)

  -- Overwriting a key that is there keeps the size.
  pub length-insert_there :
      (k : ℕ) (v : V) (m : Table V)
      → IsSorted m
      → contains k m ≡ true
      → length (insert k v m) ≡ length m
  length-insert_there k v m a h = length-insert_above 0 k v m a h

module _ {ℓ} {V : Type ℓ} where
  pub mem-keys : (k : ℕ) (m : Table V) → mem k (keys m) ≡ contains k m
  unfolding keys lookup
  mem-keys k [] = refl
  mem-keys k ((j, v) ∷ m) = ground (arith, mem-keys k m)

  pub length-keys : (m : Table V) → length (keys m) ≡ length m
  unfolding keys
  length-keys [] = refl
  length-keys ((j, v) ∷ m) = omega (arith, length-keys m)

  IsDistinct-keys_above : (n : ℕ) (m : Table V) → IsAbove n m → IsDistinct (keys m)
  unfolding keys
  IsDistinct-keys_above n [] a = tt
  IsDistinct-keys_above n ((j, v) ∷ m) a = (
    ground (arith, mem-keys j m, lookup-above (suc j) j m a.1),
    IsDistinct-keys_above (suc j) m a.1,
  )

  pub IsDistinct-keys : (m : Table V) → IsSorted m → IsDistinct (keys m)
  IsDistinct-keys m a = IsDistinct-keys_above 0 m a
