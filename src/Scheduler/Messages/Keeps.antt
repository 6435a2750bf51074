-- ===== src/Scheduler/Messages/Keeps.antt =====
-- Joins, reads and writes keep the scheduler valid.
use ckb_vm_deterministic_sch.Scheduler.Valid.Visits.{
  IsCalm, visit_vm-IsValid, set_state-IsValid, set_a0-IsCalm, store8_success-IsCalm,
}
use ckb_vm_deterministic_sch.Scheduler.Messages.{visit_vm, process_join, process_pipe_io}
use ckb_vm_deterministic_sch.Scheduler.State.{Vm, State, is_owner}
use ckb_vm_deterministic_sch.Outcome.{Exec, Outcome}
use ckb_vm_deterministic_sch.Prelude.{
  ℕ, ◌≡◌, ap, ◌∙◌, true, Option, none, some, arith, inl, inr, Option-cases, Bool-cases,
}
use ckb_vm_deterministic_sch.Outcome.Ensures.{Ends, Ends-bind, Ends-bind_gets, Ends-weaken}
use ckb_vm_deterministic_sch.Table.{lookup, contains}
use ckb_vm_deterministic_sch.Types.{VmState, runnable, JoinArgs}
use ckb_vm_deterministic_sch.Types.Pipe.{other_pipe}
use ckb_vm_deterministic_sch.Engine.{Engine, Source}
use ckb_vm_deterministic_sch.Engine.Laws.{IsTotal}
use ckb_vm_deterministic_sch.Scheduler.Valid.{IsValid, Fits}

abbrev pub KeepsValid : {e : Engine} {A : Type 0} → Outcome A × State e → Type 0
KeepsValid r = Ends (λ _ s'. IsValid s') (λ s'. IsValid s') r

pub is_owner-eq : (v : ℕ) (o : Option ℕ) → is_owner v o ≡ true → o ≡ some v
is_owner-eq v none h = cc
is_owner-eq v (some w) h = ground arith

module _ (e : Engine) (source : Source) (t : IsTotal e) where
  visit-KeepsValid :
      (id : ℕ) (m : Exec (Vm e) (Unit {0})) (s : State e)
      → IsValid s
      → contains id s.states ≡ true
      → IsCalm m
      → KeepsValid (visit_vm e source id m s)
  visit-KeepsValid id m s v there calm =
      Ends-weaken _ (visit_vm-IsValid e source t id m s v there calm) (λ _ s' p. p.0) (λ s' p. p)

  pub process_pipe_io-KeepsValid :
      (id p : ℕ) (waiting : VmState) (s : State e)
      → IsValid s
      → contains id s.states ≡ true
      → (lookup p s.pipes ≡ some id → Fits s.pipes id waiting)
      → KeepsValid (process_pipe_io e source id p waiting s)
  unfolding process_pipe_io
  process_pipe_io-KeepsValid id p waiting s v there fits = Ends-bind_gets _ _ s (
      Ends-bind_gets _ _ s (elim (Bool-cases (is_owner id (lookup p s.pipes))) [
        | inr other ↦ rw other (visit-KeepsValid id _ s v there (set_a0-IsCalm e 6))
        | inl own ↦ rw own (elim (Bool-cases (contains (other_pipe p) s.pipes)) [
          | inl connected ↦
              rw connected (set_state-IsValid id waiting s v there (fits (is_owner-eq id _ own)))
          | inr closed ↦ rw closed (visit-KeepsValid id _ s v there (set_a0-IsCalm e 7))
        ])
      ]))

  pub process_join-KeepsValid :
      (id : ℕ) (args : JoinArgs) (s : State e)
      → IsValid s
      → contains id s.states ≡ true
      → KeepsValid (process_join e source id args s)
  unfolding process_join
  process_join-KeepsValid id args s v there = Ends-bind_gets _ _ s (
      Ends-bind_gets _ _ s (elim (Option-cases (lookup args.target_id s.terminated_vms)) [
        | inl still ↦ rw still (elim (Bool-cases (contains args.target_id s.states)) [
          | inl running ↦ rw running (set_state-IsValid id _ s v there tt)
          | inr unknown ↦ rw unknown (visit-KeepsValid id _ s v there (set_a0-IsCalm e 5))
        ])
        | inr (code, ended) ↦ rw ended (
            Ends-bind _ _ s
              (visit_vm-IsValid e source t id _ s v there
                (store8_success-IsCalm e t args.exit_code_addr (e.from_i8 code)))
              λ _ s1 p.
                set_state-IsValid id runnable s1 p.0
                  (ap (λ (x : State e). contains id x.states) p.1.rest ∙ there) tt)
      ]))
