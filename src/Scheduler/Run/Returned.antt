-- ===== src/Scheduler/Run/Returned.antt =====
-- A call of `iterate` that returns has made a run of a machine that returned.
use ckb_vm_deterministic_sch.Outcome.{
  Outcome, ok, err, panic, diverge, unexpected, deadlock, lift, or_raise, gets,
}
use ckb_vm_deterministic_sch.Prelude.{ℕ, refl, subst, some, [], ◌∷◌}
use ckb_vm_deterministic_sch.Engine.{Engine, Source}
use ckb_vm_deterministic_sch.Syscalls.{ecall}
use ckb_vm_deterministic_sch.Scheduler.State.{State}
use ckb_vm_deterministic_sch.Scheduler.Run.{settle, at_machine, run_machine, run_vm, iterate, pick}
use ckb_vm_deterministic_sch.Scheduler.Run.Machine.{run_start, RunReturns}
use ckb_vm_deterministic_sch.Scheduler.Run.Rounds.{PickedReturns}
use ckb_vm_deterministic_sch.Scheduler.Io.{process_io}
use ckb_vm_deterministic_sch.Scheduler.Instances.{ensure_vms_instantiated}
use ckb_vm_deterministic_sch.Outcome.Ensures.{IsSettled}
use ckb_vm_deterministic_sch.Outcome.Partial.{rest-IsSettled, first-IsSettled}

run-IsSettled : (r : Outcome ℕ) → IsSettled (settle r) → IsSettled r
run-IsSettled (ok code) h = tt
run-IsSettled (err x) h = tt
run-IsSettled panic h = h
run-IsSettled diverge h = h

module _ (e : Engine) (source : Source) where
  machine_settled :
      (signal : e.Pause) (limit id : ℕ) (s : State e)
      → IsSettled (run_machine e source signal limit id s).0
      → RunReturns e source signal limit id s
  unfolding run_machine
  machine_settled signal limit id s h vm found =
      let r = e.run (ecall e source) (run_start e signal limit vm s) in
      let there : IsSettled (at_machine e source signal limit id (some vm) s).0 =
        subst (λ o. IsSettled (at_machine e source signal limit id o s).0) found h in
      run-IsSettled r.0 (first-IsSettled (lift (settle r.0)) _ _ there)

  -- A call of `iterate` that returns has made a run that returned.
  pub PickedReturns-of_settled :
      (signal : e.Pause) (limit : ℕ) (s : State e)
      → IsSettled (iterate e source signal limit s).0
      → PickedReturns e source signal limit s
  unfolding iterate run_vm or_raise gets
  PickedReturns-of_settled signal limit s h id s1 s2 io picked came =
      let from_io = rest-IsSettled (process_io e source) _ s s1 tt io h in
      let chosen =
        rest-IsSettled (gets (λ (s : State e). pick s.states)) _ s1 s1 (pick s1.states) refl
          from_io in
      let running =
        rest-IsSettled (or_raise (unexpected deadlock) (pick s1.states)) _ s1 s1 id (rw picked refl)
          chosen in
      let instantiated =
        rest-IsSettled (ensure_vms_instantiated e source (id ∷ [])) _ s1 s2 tt came running in
      machine_settled signal limit id s2
        (first-IsSettled (run_machine e source signal limit id) _ s2 instantiated)
