-- ===== src/Table/Collect.antt =====
-- Collecting the entries of a map gives the map back.
use mathlib.Core.List.{append-nil, append_assoc}
use ckb_vm_deterministic_sch.Prelude.{
  ℕ, suc, ◌≤◌, ◌≡◌, refl, sym, ap, subst, ◌∙◌, ◌||◌, [], ◌∷◌, ◌++◌, arith,
}
use ckb_vm_deterministic_sch.Table.{Table, lookup, contains, insert, collect}
use ckb_vm_deterministic_sch.Table.Laws.{IsAbove, IsSorted, lookup-insert}

module _ {ℓ} {V : Type ℓ} where
  IsAbove-key : (n k : ℕ) (v : V) (m l : Table V) → IsAbove n (m ++ (k, v) ∷ l) → n ≤ k
  IsAbove-key n k v [] l a = a.0
  IsAbove-key n k v ((j, w) ∷ m) l a = omega (arith, IsAbove-key (suc j) k v m l a.1, a.0)

  insert-last :
      (n k : ℕ) (v : V) (m l : Table V)
      → IsAbove n (m ++ (k, v) ∷ l)
      → insert k v m ≡ m ++ (k, v) ∷ []
  unfolding insert
  insert-last n k v [] l a = refl
  insert-last n k v ((j, w) ∷ m) l a =
      ground (arith, IsAbove-key (suc j) k v m l a.1, insert-last (suc j) k v m l a.1)

  collect-append : (m l : Table V) → IsSorted (m ++ l) → collect l m ≡ m ++ l
  unfolding collect
  collect-append m [] a = sym (append-nil m)
  collect-append m ((k, v) ∷ l) a =
      let step = insert-last 0 k v m l a in
      ap (collect l) step
      ∙ collect-append (m ++ (k, v) ∷ []) l
          (subst IsSorted (sym (append_assoc m ((k, v) ∷ []) l)) a)
      ∙ append_assoc m ((k, v) ∷ []) l

  -- A map in the order of its keys, written out and collected.
  pub collect_all : (l : Table V) → IsSorted l → collect l [] ≡ l
  collect_all l a = collect-append [] l a

  pub contains-collect :
      (k : ℕ) (l m : Table V) → contains k (collect l m) ≡ (contains k l || contains k m)
  unfolding collect lookup
  contains-collect k [] m = refl
  contains-collect k ((j, v) ∷ l) m =
      ground (arith, contains-collect k l (insert j v m), lookup-insert j k v m)
