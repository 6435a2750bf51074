-- ===== src/Scheduler/Run/Choice.antt =====
-- Which VM `iterate` runs.
use mathlib.Core.List.{reverse-cons}
use ckb_vm_deterministic_sch.Prelude.{
  ◌↔◌, ℕ, suc, ◌≤◌, ◌≡◌, refl, true, Option, none, some, List, [], ◌∷◌, ◌++◌, reverse, arith,
  Option-cases, inl, inr, if◌then◌else◌,
}
use ckb_vm_deterministic_sch.Table.{Table, lookup}
use ckb_vm_deterministic_sch.Table.Laws.{IsAbove, IsSorted}
use ckb_vm_deterministic_sch.Types.{VmState, runnable}
use ckb_vm_deterministic_sch.Scheduler.Run.{is_runnable, first_runnable, pick}

abbrev or_else : Option ℕ → Option ℕ → Option ℕ
or_else none o = o
or_else (some x) o = some x

first_runnable-append :
    (xs ys : List (ℕ × VmState))
    → first_runnable (xs ++ ys) ≡ or_else (first_runnable xs) (first_runnable ys)
unfolding first_runnable
first_runnable-append [] ys = refl
first_runnable-append ((id, st) ∷ xs) ys = ground (arith, first_runnable-append xs ys)

-- `pick` by recursion on the table: the last one that may run.
pick-cons :
    (id : ℕ) (st : VmState) (m : Table VmState)
    → pick ((id, st) ∷ m) ≡ or_else (pick m) (if is_runnable st then some id else none)
unfolding pick first_runnable
pick-cons id st m =
    rw (reverse-cons (id, st) m, first_runnable-append (reverse m) ((id, st) ∷ [])) refl

runnable_of : (st : VmState) → is_runnable st ≡ true → st ≡ runnable
runnable_of runnable h = refl
runnable_of _ h = cc

is_runnable_of : (st : VmState) → some st ≡ some runnable → is_runnable st ≡ true
is_runnable_of st h = ground arith

pick-none : (m : Table VmState) (k : ℕ) → pick m ≡ none → ¬ (lookup k m ≡ some runnable)
unfolding lookup
pick-none [] k h r = cc
pick-none ((j, st) ∷ m) k h r = ground (arith, pick-cons j st m, pick-none m k, is_runnable_of st)

pick_above :
    (n : ℕ) (m : Table VmState) (id : ℕ)
    → IsAbove n m
    → pick m ≡ some id
    → (n ≤ id) × (lookup id m ≡ some runnable) × ((k : ℕ) → lookup k m ≡ some runnable → k ≤ id)
unfolding lookup
pick_above n [] id a h = absurd (unfold pick first_runnable in cc)
pick_above n ((j, st) ∷ m) id a h = elim (Option-cases (pick m)) [
  | inl none_later ↦ (
    ground (arith, pick-cons j st m),
    ground (arith, pick-cons j st m, runnable_of st),
    λ k r. ground (arith, pick-cons j st m, pick-none m k),
  )
  | inr (later, found) ↦
      let ih = pick_above (suc j) m later a.1 found in
      (
        ground (arith, pick-cons j st m, ih.0),
        ground (arith, pick-cons j st m, ih.0, ih.1),
        λ k r. ground (arith, pick-cons j st m, ih.0, ih.2 k),
      )
]

-- The VM that runs next may run, and no VM with a larger id may.
pub pick-largest :
    (m : Table VmState) (id : ℕ)
    → IsSorted m
    → pick m ≡ some id
    → (lookup id m ≡ some runnable) × ((k : ℕ) → lookup k m ≡ some runnable → k ≤ id)
pick-largest m id a h = ((pick_above 0 m id a h).1, (pick_above 0 m id a h).2)

-- There is no such VM exactly if none may run: then `iterate` reports a deadlock.
pub pick-none_iff :
    (m : Table VmState) → IsSorted m → (pick m ≡ none) ↔ ((k : ℕ) → ¬ (lookup k m ≡ some runnable))
pick-none_iff m a = (
  λ h k. pick-none m k h,
  λ all. elim (Option-cases (pick m)) [
    | inl nothing ↦ nothing
    | inr (id, found) ↦ absurd (all id (pick-largest m id a found).0)
  ],
)
