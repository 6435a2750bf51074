-- ===== src/DevUtils/Cycles.antt =====
-- The cycles that `verify_tx` counts, and those that it allows.
use ckb_vm_deterministic_sch.DevUtils.{
  go_on, Verdict, passed, refused, panicked, endless, Group, Limits, account, judge, suspend_if_due,
  verify_group, verify_groups, verify_tx,
}
use ckb_vm_deterministic_sch.Prelude.{
  subst, ℕ, zero, suc, ◌+◌, ◌≤◌, ◌<◌, ◌≡◌, refl, List, [], ◌∷◌, arith, u64_mod, ltb, Bool-cases,
  inl, inr, Option, none, some,
}
use ckb_vm_deterministic_sch.Outcome.{
  Outcome, ok, err, panic, diverge, cycles_exceeded, gets, pure, ◌>>=◌,
}
use ckb_vm_deterministic_sch.Outcome.Partial.{Gives, Gives-bind, Gives-any}
use ckb_vm_deterministic_sch.Types.{Bytes, limit_cycles, RunMode}
use ckb_vm_deterministic_sch.Types.TxData.{load_data}
use ckb_vm_deterministic_sch.Engine.{Engine, Source}
use ckb_vm_deterministic_sch.Scheduler.State.{State, new}
use ckb_vm_deterministic_sch.Scheduler.Run.{run}

module _ (e : Engine) (source : Source) where
  abbrev IsCounted : ℕ × ℕ → State e → Type 0
  IsCounted a s = s.total_cycles ≡ a.1

  count_lem :
      (code : ℕ) (s : State e)
      → Gives IsCounted ((gets (λ s. s.total_cycles) >>= λ total. pure (code, total)) s)
  unfolding ◌>>=◌ gets pure
  count_lem code s = record { at = refl }

  -- What `run` returns as its cycles is the total of the scheduler that it leaves.
  run-Gives :
      (fuel : ℕ) (mode : RunMode e.Pause) (s : State e) → Gives IsCounted (run e source fuel mode s)
  unfolding run
  run-Gives fuel mode s = Gives-bind _ _ s (Gives-any _) λ _ s1 _.
      Gives-bind _ _ s1 (Gives-any _) λ _ s2 _.
        Gives-bind _ _ s2 (Gives-any _)
          λ found s3 _. Gives-bind _ _ s3 (Gives-any _) λ vm s4 _. count_lem (e.exit_code vm.1) s4

  run-total :
      (fuel : ℕ) (mode : RunMode e.Pause) (s s' : State e) (code total : ℕ)
      → run e source fuel mode s ≡ (ok (code, total), s')
      → s'.total_cycles ≡ total
  run-total fuel mode s s' code total h = (subst (Gives IsCounted) h (run-Gives fuel mode s)).at

-- The rounds of `verify_tx` for one group: the scheduler may be suspended and resumed, and `run` is
-- called; at a limit of cycles there is one more round, and in the last one the script ends with the exit
-- code zero. `total` is what the scheduler that it leaves has counted. No round starts above the maximum.
pub data Passes (e : Engine) (limits : Limits) (source : Source) : State e → ℕ → ℕ → Type 0 where
  ends :
      (fuel last last' total : ℕ) (s started s' : State e)
      → s.total_cycles ≤ limits.max_cycles
      → suspend_if_due e limits last s ≡ passed (started, last')
      → run e source fuel (limit_cycles limits.cycles_per_iterate) started ≡ (ok (0, total), s')
      → s'.total_cycles ≡ total
      → Passes e limits source s last total
  goes_on :
      (fuel last last' total : ℕ) (s started s' : State e)
      → s.total_cycles ≤ limits.max_cycles
      → suspend_if_due e limits last s ≡ passed (started, last')
      → run e source fuel (limit_cycles limits.cycles_per_iterate) started
        ≡ (err cycles_exceeded, s')
      → Passes e limits source s' last' total
      → Passes e limits source s last total

-- Each group passes in its own scheduler, with its total.
abbrev pub AllPass : {Cell : Type 0} → Limits → List (Group Cell) → List ℕ → Type 0
AllPass limits [] [] = Unit
AllPass limits [] (n ∷ totals) = ⊥
AllPass limits (group ∷ groups) [] = ⊥
AllPass limits (group ∷ groups) (n ∷ totals) =
    ((program : Bytes) × (group.script ≡ some program)
      × Passes group.engine limits (load_data (group.tx_data program)) (new group.engine) 0 n)
    × AllPass limits groups totals

abbrev pub sum_of : List ℕ → ℕ
sum_of [] = 0
sum_of (n ∷ l) = n + sum_of l

-- If there is a sum, `P` holds of it.
abbrev OnPassed : {A : Type 0} → (A → Type 0) → Verdict A → Type 0
OnPassed P (passed a) = P a
OnPassed P _ = Unit

OnPassed-go_on :
    {A B : Type 0} (P : A → Type 0) (Q : B → Type 0) (v : Verdict A) (f : A → Verdict B)
    → OnPassed P v
    → ((a : A) → v ≡ passed a → P a → OnPassed Q (f a))
    → OnPassed Q (go_on v f)
OnPassed-go_on P Q (passed a) f h k = k a refl h
OnPassed-go_on P Q (refused x) f h k = tt
OnPassed-go_on P Q panicked f h k = tt
OnPassed-go_on P Q endless f h k = tt

OnPassed-weaken :
    {A : Type 0} (P Q : A → Type 0) (v : Verdict A)
    → OnPassed P v
    → ((a : A) → P a → Q a)
    → OnPassed Q v
OnPassed-weaken P Q (passed a) h k = k a h
OnPassed-weaken P Q (refused x) h k = tt
OnPassed-weaken P Q panicked h k = tt
OnPassed-weaken P Q endless h k = tt

OnPassed-any : {A : Type 0} (v : Verdict A) → OnPassed (λ _. Unit {0}) v
OnPassed-any (passed a) = tt
OnPassed-any (refused x) = tt
OnPassed-any panicked = tt
OnPassed-any endless = tt

module _ (limits : Limits) (small : limits.max_cycles + limits.max_cycles < u64_mod) where
  module _ (e : Engine) (source : Source) where
    -- What one group adds to the sum.
    abbrev Adds : ℕ → ℕ → State e → ℕ → Type 0
    Adds consumed last s sum =
        (total : ℕ) × Passes e limits source s last total
        × (sum ≡ consumed + total)
        × (sum ≤ limits.max_cycles)

    abbrev IsCharged : ℕ → ℕ → ℕ → ℕ → Type 0
    IsCharged consumed code total sum =
        (code ≡ 0) × (sum ≡ consumed + total) × (sum ≤ limits.max_cycles)

    account_lem :
        (consumed code total : ℕ)
        → consumed ≤ limits.max_cycles
        → OnPassed (IsCharged consumed code total) (account e limits consumed code total)
    unfolding account
    account_lem consumed code total h = ground arith

    judge_lem :
        (fuel consumed last last' : ℕ) (s started s' : State e) (r : Outcome (ℕ × ℕ))
        (again : Verdict ℕ)
        → consumed ≤ limits.max_cycles
        → s.total_cycles ≤ limits.max_cycles
        → suspend_if_due e limits last s ≡ passed (started, last')
        → run e source fuel (limit_cycles limits.cycles_per_iterate) started ≡ (r, s')
        → OnPassed (Adds consumed last' s') again
        → OnPassed (Adds consumed last s) (judge e limits consumed r again)
    judge_lem fuel consumed last last' s started s' (ok (code, total)) again h below due went k =
        OnPassed-weaken (IsCharged consumed code total) (Adds consumed last s) _
          (account_lem consumed code total h)
          λ sum counted. (
            total,
            ends fuel last last' total s started s' below due
                (subst
                  (λ n.
                    run e source fuel (limit_cycles limits.cycles_per_iterate) started
                    ≡ (ok (n, total), s'))
                  counted.0 went)
                (run-total e source fuel _ started s' code total went),
            counted.1,
            counted.2,
          )
    judge_lem fuel consumed last last' s started s' (err cycles_exceeded) again h below due went k =
        OnPassed-weaken (Adds consumed last' s') (Adds consumed last s) again k
          λ sum (total, passes, same, bound).
            (total, goes_on fuel last last' total s started s' below due went passes, same, bound)
    judge_lem fuel consumed last last' s started s' (err x) again h below due went k = tt
    judge_lem fuel consumed last last' s started s' panic again h below due went k = tt
    judge_lem fuel consumed last last' s started s' diverge again h below due went k = tt

    verify_group_lem :
        (fuel consumed last : ℕ) (s : State e)
        → consumed ≤ limits.max_cycles
        → OnPassed (Adds consumed last s) (verify_group e limits source fuel consumed last s)
    unfolding verify_group
    verify_group_lem zero consumed last s h = tt
    verify_group_lem (suc fuel) consumed last s h =
        elim (Bool-cases (ltb limits.max_cycles s.total_cycles)) [
          | inl over ↦ rw over tt
          | inr under ↦ rw under (
              OnPassed-go_on (λ _. Unit {0}) _ (suspend_if_due e limits last s) _ (OnPassed-any _)
                λ started due _.
                  judge_lem fuel consumed last started.1 s started.0 _ _ _ h (ground arith) due refl
                    (verify_group_lem fuel consumed started.1 _ h))
        ]

  -- What groups add to the sum.
  abbrev AllAdd : {Cell : Type 0} → ℕ → List (Group Cell) → ℕ → Type 0
  AllAdd consumed groups sum =
      (totals : List ℕ) × AllPass limits groups totals
      × (sum ≡ consumed + sum_of totals)
      × (sum ≤ limits.max_cycles)

  group_lem :
      {Cell : Type 0} (fuel consumed : ℕ) (group : Group Cell) (groups : List (Group Cell))
      (o : Option Bytes)
      → group.script ≡ o
      → consumed ≤ limits.max_cycles
      → ((sum : ℕ)
          → sum ≤ limits.max_cycles
          → OnPassed (AllAdd sum groups) (verify_groups limits fuel sum groups))
      → OnPassed (AllAdd consumed (group ∷ groups)) (elim o [
        | none ↦ panicked
        | some program ↦
            go_on
              (verify_group group.engine limits
                (load_data (group.tx_data program))
                fuel
                consumed
                0
                (new group.engine))
              λ total. verify_groups limits fuel total groups
      ])
  group_lem fuel consumed group groups none there h k = tt
  group_lem fuel consumed group groups (some program) there h k =
      OnPassed-go_on
        (Adds group.engine (load_data (group.tx_data program)) consumed 0 (new group.engine))
        (AllAdd consumed (group ∷ groups)) _ _ (verify_group_lem group.engine _ fuel consumed 0 _ h)
        λ sum _ (total, passes, same, bound).
          OnPassed-weaken (AllAdd sum groups) (AllAdd consumed (group ∷ groups)) _ (k sum bound)
            λ all (totals, pass, sum_eq, within).
              (total ∷ totals, ((program, there, passes), pass), omega arith, within)

  verify_groups_lem :
      {Cell : Type 0} (fuel consumed : ℕ) (groups : List (Group Cell))
      → consumed ≤ limits.max_cycles
      → OnPassed (AllAdd consumed groups) (verify_groups limits fuel consumed groups)
  unfolding verify_groups
  verify_groups_lem fuel consumed [] h = ([], tt, omega arith, h)
  verify_groups_lem fuel consumed (group ∷ groups) h =
      group_lem fuel consumed group groups group.script refl h
        (λ sum bound. verify_groups_lem fuel sum groups bound)

-- With a maximum below 2^63, if a transaction passes verify_tx, each of its script groups has
-- passed in a scheduler of its own: after rounds that stop at a limit of cycles, each with a
-- suspension where one is due, run has returned the exit code zero. The totals of cycles that these
-- schedulers have counted at their ends add up to the sum that is returned, which is at most the
-- maximum.
pub verify_tx-totals :
    {Cell : Type 0} (limits : Limits) (fuel : ℕ) (groups : List (Group Cell)) (sum : ℕ)
    → limits.max_cycles + limits.max_cycles < u64_mod
    → verify_tx limits fuel groups ≡ passed sum
    → (totals : List ℕ) × AllPass limits groups totals
      × (sum ≡ sum_of totals)
      × (sum ≤ limits.max_cycles)
unfolding verify_tx
verify_tx-totals limits fuel groups sum small h =
    let found : AllAdd limits small 0 groups sum =
      subst (OnPassed (AllAdd limits small 0 groups)) h
        (verify_groups_lem limits small fuel 0 groups (omega arith)) in
    let (totals, pass, same, bound) = found in (totals, pass, omega (arith, same), bound)
