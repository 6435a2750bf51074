-- ===== src/Tests/Scheduling.antt =====
-- The scheduler on five VMs, of which four are instantiated.
use ckb_vm_deterministic_sch.Scheduler.State.{set_state, State, Vm}
use ckb_vm_deterministic_sch.Table.{insert, retain, Table, lookup}
use ckb_vm_deterministic_sch.Scheduler.Messages.{process_message_box, process_messages}
use ckb_vm_deterministic_sch.Outcome.{modify, assert, ◌>>=◌, panic}
use ckb_vm_deterministic_sch.Syscalls.Access.{reg, checked_add}
use ckb_vm_deterministic_sch.Syscalls.{ecall}
use ckb_vm_deterministic_sch.Scheduler.Instances.{fill, ensure_vms_instantiated}
use ckb_vm_deterministic_sch.Scheduler.Io.{
  finish_all_closed, collect_writes, collect_reads, transfer_all, process_io,
}
use ckb_vm_deterministic_sch.Scheduler.Run.{
  run_vm, run_machine, charge, conclude, terminate, purge_others, pick, iterate, run_loop,
}
use ckb_vm_deterministic_sch.Prelude.{
  ◌≤◌, ◌↔◌, ℕ, ◌≡◌, refl, [], ◌∷◌, none, some, arith, true, false,
}
use ckb_vm_deterministic_sch.Types.Pipe.{other_pipe}
use ckb_vm_deterministic_sch.Scheduler.Run.Limits.{run_loop-limit_zero}
use ckb_vm_deterministic_sch.Scheduler.Io.Closed.{process_io_closed_panics}
use ckb_vm_deterministic_sch.Scheduler.Run.Choice.{pick-largest, pick-none_iff}
use ckb_vm_deterministic_sch.Outcome.Ensures.{Ends}
use ckb_vm_deterministic_sch.Types.{VmState, runnable, join, wait_for_read}
use ckb_vm_deterministic_sch.Scheduler.Instances.Carry.{ensure_vms_instantiated-Carried}
use ckb_vm_deterministic_sch.Scheduler.Instances.Course.{Carried}
use ckb_vm_deterministic_sch.Scheduler.Instances.Placement.{IsPlaced, Moved}
use ckb_vm_deterministic_sch.Scheduler.Instances.Ensure.{Instantiated}
use ckb_vm_deterministic_sch.Tests.Toy.{toy, toy_source, toy-IsTotal, idle}

abbrev pub vm : ℕ → Vm toy
vm id = (record { id = id; base_cycles = 0; tracker = tt }, idle)

abbrev pub five_vms : State toy
five_vms = record {
  total_cycles = 100;
  next_vm_id = 5;
  next_pipe_slot = 6;
  states =
      (0, wait_for_read 2 16 0x100 0x200)
      ∷ (1, runnable)
      ∷ (2, runnable)
      ∷ (3, join 1 0x80)
      ∷ (4, runnable)
      ∷ [];
  pipes = (2, 0) ∷ (4, 1) ∷ (5, 2) ∷ [];
  instantiated = (1, vm 1) ∷ (2, vm 2) ∷ (3, vm 3) ∷ (4, vm 4) ∷ [];
  suspended = (0, idle) ∷ [];
  terminated_vms = [];
  message_box = [];
}

pub five_vms-IsPlaced : IsPlaced five_vms
unfolding lookup
five_vms-IsPlaced = record {
  few = omega arith;
  sorted = omega arith;
  apart = λ k h. ground arith;
  named = λ k v h. ground arith;
}

ensure_vms_instantiated-Carried_example :
    Ends
      (λ _ s'. Instantiated (0 ∷ []) five_vms s' × Carried toy toy_source true five_vms s')
      (λ s'. Moved five_vms s' × Carried toy toy_source false five_vms s')
      (ensure_vms_instantiated toy toy_source (0 ∷ []) five_vms)
unfolding lookup
ensure_vms_instantiated-Carried_example =
    ensure_vms_instantiated-Carried toy toy_source toy-IsTotal (0 ∷ []) five_vms five_vms-IsPlaced
      (refl, tt) (omega arith) (λ k h. ground arith)

pick-largest_example :
    (lookup 4 five_vms.states ≡ some runnable)
    × ((k : ℕ) → lookup k five_vms.states ≡ some runnable → k ≤ 4)
unfolding pick lookup
pick-largest_example = pick-largest five_vms.states 4 (omega arith) refl

abbrev waiting_states : Table VmState
waiting_states = (0, wait_for_read 2 16 0x100 0x200) ∷ (3, join 1 0x80) ∷ []

pick-none_iff_example :
    (pick waiting_states ≡ none) ↔ ((k : ℕ) → ¬ (lookup k waiting_states ≡ some runnable))
pick-none_iff_example = pick-none_iff waiting_states (omega arith)

-- The root VM is suspended while it waits for VM 1, which has gone and closed its end.
process_io_closed_panics_example : (process_io toy toy_source five_vms).0 ≡ panic
unfolding lookup other_pipe
process_io_closed_panics_example =
    process_io_closed_panics toy toy_source 0 2 16 0x100 0x200 _ five_vms refl refl refl

-- Only the root VM, which runs, makes an unknown system call and exits.
abbrev one_vm : State toy
one_vm = record five_vms {
  states = (0, runnable) ∷ [];
  pipes = [];
  instantiated = (0, vm 0) ∷ [];
  suspended = [];
}

abbrev after_one : State toy
after_one = (iterate toy toy_source tt 7 one_vm).1

run_loop-limit_zero_example :
    run_loop toy toy_source 3 tt 7 one_vm ≡ run_loop toy toy_source 2 tt 0 after_one
unfolding iterate lookup ◌>>=◌ process_io finish_all_closed collect_writes collect_reads
    transfer_all pick run_vm ensure_vms_instantiated fill run_machine ecall reg charge checked_add
    modify process_message_box process_messages assert conclude terminate purge_others insert retain
    set_state
run_loop-limit_zero_example =
    run_loop-limit_zero toy toy_source 2 tt 7 0 one_vm after_one runnable refl refl refl
