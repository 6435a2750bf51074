-- ===== src/Tests/Rounds.antt =====
-- A scheduler on the small machine, from boot to the exit of its root VM.
use ckb_vm_deterministic_sch.Prelude.{some, ◌∷◌, [], arith, subst, sym, ℕ, ◌≡◌, refl}
use ckb_vm_deterministic_sch.Table.{keys, lookup, insert, retain}
use ckb_vm_deterministic_sch.Types.{FullSuspendedState, terminated, limit_cycles, VmState, runnable}
use ckb_vm_deterministic_sch.Scheduler.State.{Vm, root_vm_id, set_state, State, new}
use ckb_vm_deterministic_sch.Scheduler.Run.{
  run, pick, run_vm, run_machine, charge, conclude, terminate, purge_others, boot, iterate,
}
use ckb_vm_deterministic_sch.Scheduler.Suspend.{suspend, suspend_all, collect_vms, resume}
use ckb_vm_deterministic_sch.Scheduler.Suspend.Finished.{run-resumed_panics}
use ckb_vm_deterministic_sch.Scheduler.Run.Returned.{PickedReturns-of_settled}
use ckb_vm_deterministic_sch.Scheduler.Run.Finish.{IsFinished, Stepped}
use ckb_vm_deterministic_sch.Syscalls.{transferred_byte_cycles, ecall}
use ckb_vm_deterministic_sch.Scheduler.Valid.{IsValid}
use ckb_vm_deterministic_sch.Scheduler.Messages.Every.{HasRoom}
use ckb_vm_deterministic_sch.Scheduler.Io.Collected.{WaitsClosed}
use ckb_vm_deterministic_sch.Scheduler.Io.Valid.{IsAttended}
use ckb_vm_deterministic_sch.Scheduler.Run.Reach.{
  IsLive, live-IsValid, Holds, Reach, booted, round, boot_lem, Reach-Holds,
}
use ckb_vm_deterministic_sch.Scheduler.Messages.{process_message_box, process_messages}
use ckb_vm_deterministic_sch.Syscalls.Access.{reg, checked_add}
use ckb_vm_deterministic_sch.Scheduler.Io.{
  process_io, finish_all_closed, collect_writes, collect_reads, transfer_all,
}
use ckb_vm_deterministic_sch.Scheduler.Instances.{
  boot_vm, make_room, create_dummy_vm, build, on_tracked, load_program, on_second,
  ensure_vms_instantiated, fill, suspend_vm, take_snapshot,
}
use ckb_vm_deterministic_sch.Outcome.{Outcome, ok, panic, ◌>>=◌, assert, modify}
use ckb_vm_deterministic_sch.Outcome.Ensures.{Ends, IsSettled}
use ckb_vm_deterministic_sch.Scheduler.Run.Rounds.{PickedReturns, IsSound, IsReady, iterate_lem}
use ckb_vm_deterministic_sch.Tests.Toy.{
  toy, toy_source, toy-IsTotal, toy-HasWords, toy-IsRunner, toy_source-IsServing,
}

toy-IsSound : IsSound toy toy_source
toy-IsSound = record {
  total = toy-IsTotal;
  words = toy-HasWords;
  runner = toy-IsRunner;
  serving = toy_source-IsServing;
}

abbrev started : State toy
started = (boot toy toy_source (new toy)).1

started_lem : boot toy toy_source (new toy) ≡ (ok tt, started)
unfolding boot ◌>>=◌ new boot_vm make_room modify create_dummy_vm build on_tracked load_program
    on_second assert lookup insert
started_lem = refl

abbrev finished : State toy
finished = (iterate toy toy_source tt 7 started).1

first_Reach : Reach toy toy_source started
first_Reach = booted started started_lem

sole_runnable : (k : ℕ) (st : VmState) → lookup k started.states ≡ some st → st ≡ runnable
unfolding boot ◌>>=◌ new boot_vm make_room modify create_dummy_vm build on_tracked load_program
    on_second assert lookup insert
sole_runnable k st h = ground arith

started-IsAttended : IsAttended started
started-IsAttended k st h w = absurd (subst (WaitsClosed started.pipes) (sole_runnable k st h) w)

started-HasRoom : HasRoom started
unfolding boot ◌>>=◌ new boot_vm make_room modify create_dummy_vm build on_tracked load_program
    on_second assert lookup insert
started-HasRoom = record { for_vm = omega arith; for_pipe = omega arith }

started-IsLive : IsLive started
unfolding boot ◌>>=◌ new boot_vm make_room modify create_dummy_vm build on_tracked load_program
    on_second assert lookup insert
started-IsLive h = cc

finished_lem : iterate toy toy_source tt 7 started ≡ (ok 2, finished)
unfolding boot ◌>>=◌ new boot_vm make_room modify create_dummy_vm build on_tracked load_program
    on_second assert lookup insert iterate process_io finish_all_closed collect_writes collect_reads
    transfer_all pick run_vm ensure_vms_instantiated fill run_machine ecall reg charge checked_add
    process_message_box process_messages conclude terminate purge_others retain set_state
    transferred_byte_cycles
finished_lem = refl

-- The root VM exits in the first round.
Reach-Holds_example : Holds finished
Reach-Holds_example = Reach-Holds toy toy_source toy-IsSound finished (
    round tt 7 2 started finished first_Reach started-IsLive started-HasRoom started-IsAttended
      finished_lem)

started-IsReady : IsReady started
unfolding boot ◌>>=◌ new boot_vm make_room modify create_dummy_vm build on_tracked load_program
    on_second assert lookup insert
started-IsReady = record {
  valid =
      live-IsValid started started-IsLive
        (Reach-Holds toy toy_source toy-IsSound started first_Reach).settled;
  quiet = refl;
  room = started-HasRoom;
}

started-PickedReturns : PickedReturns toy toy_source tt 7 started
started-PickedReturns =
    PickedReturns-of_settled toy toy_source tt 7 started
      (subst (λ (o : Outcome ℕ × State toy). IsSettled o.0) (sym finished_lem) tt)

iterate_lem_example :
    Ends
      (λ consumed s'. Stepped consumed started s')
      (λ s'. IsValid s')
      (iterate toy toy_source tt 7 started)
iterate_lem_example =
    iterate_lem toy toy_source toy-IsSound tt 7 started started-IsReady started-IsAttended
      started-PickedReturns

boot_lem_example :
    Ends
      (λ _ s'. Holds s' × (s'.states ≡ (root_vm_id, runnable) ∷ []))
      (λ s'. IsValid s')
      (boot toy toy_source (new toy))
boot_lem_example = boot_lem toy toy_source toy-IsTotal toy_source-IsServing

-- The root VM of the test alone, ended.
abbrev over : State toy
over = record {
  total_cycles = 9;
  next_vm_id = 1;
  next_pipe_slot = 2;
  states = (0, terminated) ∷ [];
  pipes = [];
  instantiated =
      (
        0,
        (
          record { id = 0; base_cycles = 0; tracker = tt },
          record { registers = []; memory = []; spent = 0 },
        ),
      )
      ∷ [];
  suspended = [];
  terminated_vms = (0, 0) ∷ [];
  message_box = [];
}

over-IsFinished : IsFinished over
unfolding lookup
over-IsFinished = record {
  over = refl;
  here = refl;
  alone = λ k h. ground (arith, h);
  asleep = refl;
}

abbrev written : FullSuspendedState toy.Snapshot
written = record {
  total_cycles = 9;
  next_vm_id = 1;
  next_pipe_slot = 2;
  vms = (0, terminated, record { registers = []; memory = []; spent = 0 }) ∷ [];
  pipes = [];
  terminated_vms = (0, 0) ∷ [];
}

over-suspends : suspend toy over ≡ (ok written, (suspend toy over).1)
unfolding suspend suspend_all collect_vms ◌>>=◌ modify lookup keys suspend_vm take_snapshot insert
over-suspends = refl

run-resumed_panics_example :
    ((vm : Vm toy) × (lookup root_vm_id over.instantiated ≡ some vm)
      × (run toy toy_source 1 (limit_cycles 70) over
          ≡ (ok (toy.exit_code vm.1, over.total_cycles), over)))
    × ((run toy toy_source 1 (limit_cycles 70) (resume toy written)).0 ≡ panic)
run-resumed_panics_example =
    run-resumed_panics toy toy_source 0 (limit_cycles 70) over (suspend toy over).1 written
      over-IsFinished over-suspends
