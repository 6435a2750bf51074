-- ===== src/Scheduler/Run/Machine.antt =====
-- The run of the machine of one VM within `iterate` (steps 2 and 3): what it leaves in the message
-- box, and that the scheduler stays valid.
use ckb_vm_deterministic_sch.Outcome.{pure, Outcome, ok, err, panic, diverge, lift, ◌>>=◌}
use ckb_vm_deterministic_sch.Prelude.{
  ℕ, ◌≡◌, refl, ap, ◌∙◌, true, ◌⊎◌, inl, inr, some, List, [], ◌∷◌, ◌++◌, Option-cases,
}
use ckb_vm_deterministic_sch.Outcome.Ensures.{IsSettled, Ends}
use ckb_vm_deterministic_sch.Table.{lookup, contains, insert}
use ckb_vm_deterministic_sch.Types.{Message}
use ckb_vm_deterministic_sch.Engine.{Engine, Source}
use ckb_vm_deterministic_sch.Engine.Laws.{After, IsRunner, HasWords}
use ckb_vm_deterministic_sch.Syscalls.{ecall}
use ckb_vm_deterministic_sch.Syscalls.Access.{Guest, Sys}
use ckb_vm_deterministic_sch.Syscalls.Speech.{sender, IsChecked, Said}
use ckb_vm_deterministic_sch.Syscalls.Messages.{ecall-says}
use ckb_vm_deterministic_sch.Scheduler.State.{State, Vm}
use ckb_vm_deterministic_sch.Scheduler.Run.{Stop, exited, failed, settle, at_machine, run_machine}
use ckb_vm_deterministic_sch.Scheduler.Valid.{IsValid, Moved-IsValid}
use ckb_vm_deterministic_sch.Scheduler.Valid.Visits.{replaced_Touched}

-- What the machine of a VM is run on within `iterate`.
abbrev pub run_start : (e : Engine) → e.Pause → ℕ → Vm e → State e → Sys e
run_start e signal limit vm s = (
  record { context = record vm.0 { base_cycles = s.total_cycles }; message_box = s.message_box },
  e.set_pause signal (e.set_max_cycles limit vm.1),
)

-- The one run that `iterate` makes from here, for this VM, returns.
abbrev pub RunReturns : (e : Engine) → Source → e.Pause → ℕ → ℕ → State e → Type 0
RunReturns e source signal limit id s =
    (vm : Vm e)
    → lookup id s.instantiated ≡ some vm
    → IsSettled (e.run (ecall e source) (run_start e signal limit vm s)).0

-- Nothing, or one message of this VM that its system call has checked.
abbrev pub AtMostOne : ℕ → List Message → Type 0
AtMostOne id box =
    (box ≡ []) ⊎ ((msg : Message) × (box ≡ msg ∷ []) × (sender msg ≡ id) × IsChecked msg)

-- A VM that has exited has sent nothing.
abbrev pub Sent : ℕ → Stop → List Message → Type 0
Sent id (exited _) box = box ≡ []
Sent id (failed _) box = AtMostOne id box

module _ {e : Engine} where
  -- between two system calls of a VM
  abbrev Mute : ℕ → Guest e → Type 0
  Mute id g = (g.message_box ≡ []) × (g.context.id ≡ id)

  abbrev Heard : ℕ → Guest e → Type 0
  Heard id g = AtMostOne id g.message_box × (g.context.id ≡ id)

  Said-After :
      {A : Type 0} (id : ℕ) (s : Sys e) (r : Outcome A × Sys e)
      → Mute id s.0
      → Said s r
      → After (Mute id) (Heard id) r
  Said-After id s (ok a, (g, m)) (empty, own) (same, inl quiet) = (quiet ∙ empty, same ∙ own)
  Said-After id s (ok a, (g, m)) (empty, own) (same, inr (msg, box, from, c, yields)) = cc
  Said-After id s (err x, (g, m)) (empty, own) (same, inl quiet) = (inl (quiet ∙ empty), same ∙ own)
  Said-After id s (err x, (g, m)) (empty, own) (same, inr (msg, box, from, c, yields)) =
      (inr (msg, box ∙ ap (λ b. b ++ msg ∷ []) empty, from ∙ own, c), same ∙ own)
  Said-After id s (panic, (g, m)) (empty, own) (same, inl quiet) = (inl (quiet ∙ empty), same ∙ own)
  Said-After id s (panic, (g, m)) (empty, own) (same, inr (msg, box, from, c, yields)) = cc
  Said-After id s (diverge, (g, m)) (empty, own) (same, inl quiet) =
      (inl (quiet ∙ empty), same ∙ own)
  Said-After id s (diverge, (g, m)) (empty, own) (same, inr (msg, box, from, c, yields)) = cc

  pub box-IsValid :
      (box : List Message) (s : State e) → IsValid s → IsValid (record s { message_box = box })
  box-IsValid box s v = record {
    placed = record {
      few = v.placed.few;
      sorted = v.placed.sorted;
      apart = v.placed.apart;
      named = v.placed.named;
    };
    known = v.known;
    ordered = v.ordered;
    fresh = v.fresh;
    pipes_ordered = v.pipes_ordered;
    owned = v.owned;
    slots = v.slots;
    even = v.even;
    waiting = v.waiting;
  }

  -- The machine has run: nothing but its VM and the message box has changed.
  pub record Ran (id : ℕ) (stop : Stop) (s s' : State e) : Type 0 where
    pub valid : IsValid s'
    pub sent : Sent id stop s'.message_box
    pub states : s'.states ≡ s.states
    pub total : s'.total_cycles ≡ s.total_cycles
    pub ended : s'.terminated_vms ≡ s.terminated_vms
    pub ids : s'.next_vm_id ≡ s.next_vm_id
    pub slots : s'.next_pipe_slot ≡ s.next_pipe_slot

  -- the state once the VM and the box are put back
  abbrev put : ℕ → Vm e → List Message → State e → State e
  put id vm box s = record s { instantiated = insert id vm s.instantiated; message_box = box }

  put-Ran :
      (id : ℕ) (stop : Stop) (vm : Vm e) (box : List Message) (s : State e)
      → IsValid s
      → contains id s.instantiated ≡ true
      → vm.0.id ≡ id
      → Sent id stop box
      → Ran id stop s (put id vm box s)
  put-Ran id stop vm box s v here own sent = record {
    valid =
        box-IsValid box (record s { instantiated = insert id vm s.instantiated })
          (Moved-IsValid s _ v (replaced_Touched id vm s v.placed here own).moved);
    sent = sent;
    states = refl;
    total = refl;
    ended = refl;
    ids = refl;
    slots = refl;
  }

module _ (e : Engine) (source : Source) where
  finished_lem :
      (id : ℕ) (r : Outcome ℕ × Sys e) (s : State e)
      → IsValid s
      → contains id s.instantiated ≡ true
      → IsSettled r.0
      → After (Mute id) (Heard id) r
      → Ends
          (λ (a : Stop × ℕ) s'. Ran id a.0 s s')
          (λ s'. IsValid s')
          ((lift (settle r.0) >>= λ stop. pure (stop, e.cycles r.1.1))
            (put id (r.1.0.context, e.set_cycles 0 r.1.1) r.1.0.message_box s))
  unfolding ◌>>=◌
  finished_lem id (ok code, (g, m)) s v here t (box, own) = record {
    at = put-Ran id (exited code) _ _ s v here own box;
  }
  finished_lem id (err x, (g, m)) s v here t (box, own) = record {
    at = put-Ran id (failed x) _ _ s v here own box;
  }
  finished_lem id (panic, (g, m)) s v here t h = absurd t
  finished_lem id (diverge, (g, m)) s v here t h = absurd t

module _ (e : Engine) (source : Source) (w : HasWords e) (runner : IsRunner e) where
  run-After :
      (id : ℕ) (g : Guest e) (m : e.Machine)
      → Mute id g
      → After (Mute id) (Heard id) (e.run (ecall e source) (g, m))
  run-After id g m mute =
      runner.keeps (ecall e source) (Mute id) (Heard id) (λ x h. (inl h.0, h.1))
        (λ x m' h. Said-After id (x, m') _ h (ecall-says e source w (x, m'))) g m mute

  at_machine_lem :
      (signal : e.Pause) (limit id : ℕ) (vm : Vm e) (s : State e)
      → IsValid s
      → s.message_box ≡ []
      → contains id s.instantiated ≡ true
      → vm.0.id ≡ id
      → IsSettled (e.run (ecall e source) (run_start e signal limit vm s)).0
      → Ends
          (λ (a : Stop × ℕ) s'. Ran id a.0 s s')
          (λ s'. IsValid s')
          (at_machine e source signal limit id (some vm) s)
  unfolding run_machine
  at_machine_lem signal limit id (c, mac) s v empty here own returns =
      finished_lem e source id _ s v here returns (run-After id _ _ (empty, own))

  -- In a valid state with an empty message box, if the run of an instantiated VM returns, the state is
  -- valid afterwards. A VM that exits has sent nothing; a VM that stops has sent nothing or one
  -- message, in its own name, that its system call has checked.
  pub run_machine_lem :
      (signal : e.Pause) (limit id : ℕ) (s : State e)
      → IsValid s
      → s.message_box ≡ []
      → contains id s.instantiated ≡ true
      → RunReturns e source signal limit id s
      → Ends
          (λ (a : Stop × ℕ) s'. Ran id a.0 s s')
          (λ s'. IsValid s')
          (run_machine e source signal limit id s)
  unfolding run_machine
  run_machine_lem signal limit id s v empty here returns =
      elim (Option-cases (lookup id s.instantiated)) [
        | inl absent ↦ cc
        | inr (vm, found) ↦
            rw (found, run_machine)
              (at_machine_lem signal limit id vm s v empty here (v.placed.named id vm found)
                (returns vm found))
      ]
