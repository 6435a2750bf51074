-- ===== src/Scheduler/Suspend/Finished.antt =====
-- A scheduler that has finished: `run` on it, and on what becomes of it by a suspension.
use ckb_vm_deterministic_sch.Prelude.{
  ℕ, suc, ◌≡◌, refl, ap, subst, ◌∙◌, inl, inr, some, List, [], ◌∷◌, arith, Option-cases,
}
use ckb_vm_deterministic_sch.Outcome.{ok, err, panic, diverge, Outcome, assert, gets, pure, ◌>>=◌}
use ckb_vm_deterministic_sch.Outcome.Partial.{Gives, Gives-any, Gives-bind}
use ckb_vm_deterministic_sch.Table.{Table, lookup, collect, insert}
use ckb_vm_deterministic_sch.Types.{RunMode, VmState, terminated, FullSuspendedState}
use ckb_vm_deterministic_sch.Engine.{Engine, Source}
use ckb_vm_deterministic_sch.Scheduler.State.{State, Vm, root_vm_id}
use ckb_vm_deterministic_sch.Scheduler.Frame.{Leaves, Leaves-then, Leaves-pure}
use ckb_vm_deterministic_sch.Scheduler.Instances.Steady.{all_states, suspend_vm-states}
use ckb_vm_deterministic_sch.Scheduler.Run.{run, boot, run_loop}
use ckb_vm_deterministic_sch.Scheduler.Run.Finish.{IsFinished}
use ckb_vm_deterministic_sch.Scheduler.Suspend.{suspend, suspend_all, collect_vms, resume}
use ckb_vm_deterministic_sch.Scheduler.Suspend.Whole.{states_of}

module _ (e : Engine) where
  suspend_all-states : (ids : List ℕ) → Leaves (all_states e) (suspend_all e ids)
  unfolding suspend_all
  suspend_all-states [] = Leaves-pure _ _
  suspend_all-states (id ∷ ids) =
      Leaves-then _ _ _ (suspend_vm-states e id) (suspend_all-states ids)

  gives_left :
      (r : Outcome (Unit {0}) × State e) (l : Table VmState)
      → all_states e r.1 ≡ l
      → Gives (λ _ s'. all_states e s' ≡ l) r
  gives_left (ok tt, s) l h = record { at = h }
  gives_left (err x, s) l h = record { at = tt }
  gives_left (panic, s) l h = record { at = tt }
  gives_left (diverge, s) l h = record { at = tt }

  cons_lem :
      (id : ℕ) (st : VmState) (x : e.Snapshot) (l : Table VmState)
      (vms : List (ℕ × VmState × e.Snapshot)) (s : State e)
      → states_of e vms ≡ l
      → Gives {S = State e} (λ vms' _. states_of e vms' ≡ (id, st) ∷ l) (pure ((id, st, x) ∷ vms) s)
  unfolding pure
  cons_lem id st x l vms s h = record { at = ap (λ m. (id, st) ∷ m) h }

  -- The VMs that `suspend` writes have the states of the scheduler.
  collect_vms-states :
      (l : Table VmState) (s : State e) → Gives (λ vms _. states_of e vms ≡ l) (collect_vms e l s)
  unfolding collect_vms pure
  collect_vms-states [] s = record { at = refl }
  collect_vms-states ((id, st) ∷ l) s = Gives-bind _ _ s (Gives-any _) λ found s1 _.
      Gives-bind _ _ s1 (Gives-any _) λ x s2 _. Gives-bind _ _ s2 (Gives-any _) λ _ s3 _.
        Gives-bind _ _ s3 (collect_vms-states l s3) λ vms s4 h. cons_lem id st x l vms s4 h

  -- The states of a scheduler that is suspended and resumed.
  suspend-states :
      (s : State e) → Gives (λ full _. (resume e full).states ≡ collect s.states []) (suspend e s)
  unfolding suspend resume gets
  suspend-states s =
      Gives-bind {P = λ ids s1. all_states e s1 ≡ s.states} _ _ s (record { at = refl })
        λ ids s1 h1.
          Gives-bind _ _ s1 (gives_left _ s.states ((suspend_all-states ids).at s1 ∙ h1)) λ _ s2 h2.
            Gives-bind {P = λ states _. states ≡ s.states} _ _ s2 (record { at = h2 })
              λ states s3 same.
                Gives-bind _ _ s3 (collect_vms-states states s3)
                  λ vms s4 all. record { at = ap (λ m. collect m []) (all ∙ same) }

module _ (e : Engine) (source : Source) where
  -- no VM is instantiated
  run_asleep :
      (fuel : ℕ) (mode : RunMode e.Pause) (s : State e)
      → s.states ≡ (root_vm_id, terminated) ∷ []
      → s.instantiated ≡ []
      → (run e source (suc fuel) mode s).0 ≡ panic
  unfolding run boot run_loop lookup ◌>>=◌ assert
  run_asleep fuel mode s over asleep = rw (over, asleep) refl

  run_awake :
      (fuel : ℕ) (mode : RunMode e.Pause) (s : State e) (vm : Vm e)
      → s.states ≡ (root_vm_id, terminated) ∷ []
      → lookup root_vm_id s.instantiated ≡ some vm
      → run e source (suc fuel) mode s ≡ (ok (e.exit_code vm.1, s.total_cycles), s)
  unfolding run boot run_loop lookup ◌>>=◌ assert
  run_awake fuel mode s vm over found = rw (over, found) refl

  -- A scheduler whose root VM has ended and is the only VM left, and is instantiated, is left alone
  -- by run, which returns the exit code of the root VM and the total of cycles. If it is suspended
  -- with success and resumed, run panics on what is resumed.
  pub run-resumed_panics :
      (fuel : ℕ) (mode : RunMode e.Pause) (s s' : State e) (full : FullSuspendedState e.Snapshot)
      → IsFinished s
      → suspend e s ≡ (ok full, s')
      → ((vm : Vm e) × (lookup root_vm_id s.instantiated ≡ some vm)
          × (run e source (suc fuel) mode s ≡ (ok (e.exit_code vm.1, s.total_cycles), s)))
        × ((run e source (suc fuel) mode (resume e full)).0 ≡ panic)
  run-resumed_panics fuel mode s s' full f went =
      let resumed : (resume e full).states ≡ (root_vm_id, terminated) ∷ [] =
        (subst (Gives (λ full _. (resume e full).states ≡ collect s.states [])) went
          (suspend-states e s)).at
        ∙ ap (λ m. collect m []) f.over
        ∙ (unfold collect insert in refl) in
      (
        elim (Option-cases (lookup root_vm_id s.instantiated)) [
          | inl absent ↦ absurd (ground (arith, f.here, absent))
          | inr (vm, found) ↦ (vm, found, run_awake fuel mode s vm f.over found)
        ],
        run_asleep fuel mode (resume e full) resumed (unfold resume in refl),
      )
