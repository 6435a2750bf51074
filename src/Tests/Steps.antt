-- ===== src/Tests/Steps.antt =====
-- Messages, transfers and endings among five VMs.
use ckb_vm_deterministic_sch.Prelude.{
  none, ◌↔◌, ℕ, ◌≡◌, refl, subst, true, some, [], ◌∷◌, arith, ◌==◌, inl, inr, Bool-cases, mem,
  Among,
}
use ckb_vm_deterministic_sch.Scheduler.Run.{pick, terminate}
use ckb_vm_deterministic_sch.Scheduler.Run.Progress.{process_io-runnable}
use ckb_vm_deterministic_sch.Scheduler.Io.Collected.{IsMatched, WaitsClosed}
use ckb_vm_deterministic_sch.Scheduler.Io.{Pair, transfer, process_io}
use ckb_vm_deterministic_sch.Scheduler.Io.Complete.{pairs_of, pairs_of_iff}
use ckb_vm_deterministic_sch.Scheduler.Suspend.Whole.{Resumes, suspend_lem}
use ckb_vm_deterministic_sch.Scheduler.Suspend.{suspend}
use ckb_vm_deterministic_sch.Scheduler.Instances.Boot.{Booted, boot_vm_lem}
use ckb_vm_deterministic_sch.Scheduler.Instances.{boot_vm}
use ckb_vm_deterministic_sch.Tests.Toy.{toy_source-IsServing, toy, toy_source, toy-IsTotal}
use ckb_vm_deterministic_sch.Scheduler.Run.Endings.{Ended, terminate_lem}
use ckb_vm_deterministic_sch.Scheduler.Io.Valid.{IsAttended, Kin, process_io_lem}
use ckb_vm_deterministic_sch.Scheduler.Io.Transfers.{Transferred, transfer_lem}
use ckb_vm_deterministic_sch.Scheduler.Messages.Keeps.{KeepsValid}
use ckb_vm_deterministic_sch.Scheduler.Messages.Every.{process_message-KeepsValid}
use ckb_vm_deterministic_sch.Scheduler.Messages.Pipes.{
  Spawned, Extended, process_spawn_lem, process_pipe_lem,
}
use ckb_vm_deterministic_sch.Types.{
  SpawnArgs, PipeArgs, VmState, runnable, join, wait_for_read, wait_for_write, spawn,
}
use ckb_vm_deterministic_sch.Outcome.Ensures.{Ends}
use ckb_vm_deterministic_sch.Table.{Table, lookup}
use ckb_vm_deterministic_sch.Types.Pipe.{is_read, is_write, other_pipe}
use ckb_vm_deterministic_sch.Types.Piece.{program}
use ckb_vm_deterministic_sch.Scheduler.State.{State}
use ckb_vm_deterministic_sch.Scheduler.Valid.{IsValid, Fits}
use ckb_vm_deterministic_sch.Scheduler.Messages.{process_message, process_spawn, process_pipe}
use ckb_vm_deterministic_sch.Tests.Scheduling.{five_vms, five_vms-IsPlaced}

abbrev AllFit : Table ℕ → Table VmState → Type 0
AllFit pipes [] = Unit
AllFit pipes ((k, st) ∷ m) = Fits pipes k st × AllFit pipes m

AllFit-lookup :
    (pipes : Table ℕ) (m : Table VmState) (k : ℕ) (st : VmState)
    → AllFit pipes m
    → lookup k m ≡ some st
    → Fits pipes k st
unfolding lookup
AllFit-lookup pipes [] k st f h = cc
AllFit-lookup pipes ((j, w) ∷ m) k st f h = elim (Bool-cases (k == j)) [
  | inl same ↦
      let e1 : w ≡ st = ground (arith, h) in
      let e2 : j ≡ k = ground (arith, same) in
      subst (λ x. Fits pipes k x) e1 (subst (λ i. Fits pipes i w) e2 f.0)
  | inr other ↦ AllFit-lookup pipes m k st f.1 (ground (arith, h))
]

five_vms-IsValid : IsValid five_vms
unfolding lookup is_read
five_vms-IsValid = record {
  placed = five_vms-IsPlaced;
  known = λ k. ground arith;
  ordered = omega arith;
  fresh = λ k h. ground arith;
  pipes_ordered = omega arith;
  owned = λ p o h. ground arith;
  slots = λ p o h. ground arith;
  even = refl;
  waiting = λ k st h.
      AllFit-lookup five_vms.pipes five_vms.states k st ((refl, refl), (tt, (tt, (tt, (tt, tt)))))
        h;
}

-- VM 1 reads 16 bytes from VM 2, which writes 24.
abbrev piped_vms : State toy
piped_vms = record five_vms {
  states =
      (0, join 1 0x80)
      ∷ (1, wait_for_read 4 16 0x100 0x200)
      ∷ (2, wait_for_write 5 0 24 0x300 0x400)
      ∷ (3, join 1 0x80)
      ∷ (4, runnable)
      ∷ [];
}

piped_vms-IsValid : IsValid piped_vms
unfolding lookup is_read is_write
piped_vms-IsValid = record {
  placed = record {
    few = five_vms-IsPlaced.few;
    sorted = five_vms-IsPlaced.sorted;
    apart = five_vms-IsPlaced.apart;
    named = five_vms-IsPlaced.named;
  };
  known = λ k. ground arith;
  ordered = omega arith;
  fresh = λ k h. ground arith;
  pipes_ordered = omega arith;
  owned = λ p o h. ground arith;
  slots = λ p o h. ground arith;
  even = refl;
  waiting = λ k st h.
      AllFit-lookup piped_vms.pipes piped_vms.states k st
        (tt, ((refl, refl), ((refl, refl, omega arith, omega arith), (tt, (tt, tt))))) h;
}

abbrev spawn_args : SpawnArgs
spawn_args = record {
  data_piece_id = program;
  offset = 0;
  length = 0;
  argv = [];
  pipes = 5 ∷ [];
  instance_id_addr = 0x500;
}

-- VM 2 passes its write end on.
process_spawn_lem_example :
    Ends
      (λ _ s'.
        Spawned spawn_args.pipes five_vms s'
        × ((p : ℕ) → mem p spawn_args.pipes ≡ true → lookup p five_vms.pipes ≡ some 2))
      (λ s'. IsValid s')
      (process_spawn toy toy_source 2 spawn_args five_vms)
unfolding lookup
process_spawn_lem_example =
    process_spawn_lem toy toy_source toy-IsTotal toy_source-IsServing 2 spawn_args five_vms
      five_vms-IsValid refl (omega arith)

abbrev pipe_args : PipeArgs
pipe_args = record { pipe1_addr = 0x80; pipe2_addr = 0x88 }

process_pipe_lem_example :
    Ends
      (λ _ s'. Extended 4 five_vms s')
      (λ s'. IsValid s')
      (process_pipe toy toy_source 4 pipe_args five_vms)
unfolding lookup
process_pipe_lem_example =
    process_pipe_lem toy toy_source toy-IsTotal 4 pipe_args five_vms five_vms-IsValid refl
      (omega arith)

process_message-KeepsValid_example :
    KeepsValid (process_message toy toy_source (spawn 2 spawn_args) five_vms)
unfolding lookup
process_message-KeepsValid_example =
    process_message-KeepsValid toy toy_source toy-IsTotal toy_source-IsServing (spawn 2 spawn_args)
      five_vms five_vms-IsValid (record { for_vm = omega arith; for_pipe = omega arith }) tt refl

transfer_lem_example :
    Ends
      (λ _ s'. Transferred 1 2 (wait_for_write 5 16 24 0x300 0x400) piped_vms s')
      (λ s'. IsValid s')
      (transfer toy toy_source 1
        (wait_for_read 4 16 0x100 0x200)
        2
        (wait_for_write 5 0 24 0x300 0x400)
        piped_vms)
unfolding lookup is_write
transfer_lem_example =
    transfer_lem toy toy_source toy-IsTotal 1 2 4 16 0x100 0x200 5 0 24 0x300 0x400 piped_vms
      piped_vms-IsValid (λ h. omega (arith, h)) refl refl (refl, refl, omega arith, omega arith)

abbrev AllLinked : Table ℕ → Table VmState → Type 0
AllLinked pipes [] = Unit
AllLinked pipes ((k, st) ∷ m) = (¬ (WaitsClosed pipes st)) × AllLinked pipes m

AllLinked-lookup :
    (pipes : Table ℕ) (m : Table VmState) (k : ℕ) (st : VmState)
    → AllLinked pipes m
    → lookup k m ≡ some st
    → ¬ (WaitsClosed pipes st)
unfolding lookup
AllLinked-lookup pipes [] k st f h = cc
AllLinked-lookup pipes ((j, w) ∷ m) k st f h = elim (Bool-cases (k == j)) [
  | inl same ↦ let e1 : w ≡ st = ground (arith, h) in subst (λ x. ¬ (WaitsClosed pipes x)) e1 f.0
  | inr other ↦ AllLinked-lookup pipes m k st f.1 (ground (arith, h))
]

piped_vms-IsAttended : IsAttended piped_vms
unfolding lookup other_pipe
piped_vms-IsAttended k st h w = absurd (
    AllLinked-lookup piped_vms.pipes piped_vms.states k st
      ((λ x. x), ((λ x. cc), ((λ x. cc), ((λ x. x), ((λ x. x), tt))))) h w)

process_io_lem_example :
    Ends (λ _ s'. Kin piped_vms s') (λ s'. IsValid s') (process_io toy toy_source piped_vms)
process_io_lem_example =
    process_io_lem toy toy_source toy-IsTotal piped_vms piped_vms-IsValid piped_vms-IsAttended

-- VMs 0 and 3 join VM 1.
terminate_lem_example :
    Ends
      (λ _ s'. Ended 1 7 piped_vms s')
      (λ s'. IsValid s')
      (terminate toy toy_source 1 7 piped_vms)
terminate_lem_example =
    terminate_lem toy toy_source toy-IsTotal 1 7 piped_vms piped_vms-IsValid (λ h. omega (arith, h))

boot_vm_lem_example :
    Ends
      (λ id s'. Booted id five_vms s')
      (λ s'. IsValid s')
      (boot_vm toy toy_source program 0 0 [] five_vms)
boot_vm_lem_example =
    boot_vm_lem toy toy_source toy-IsTotal toy_source-IsServing program 0 0 [] five_vms
      five_vms-IsValid (omega arith)

suspend_lem_example : Ends (λ full _. Resumes five_vms full) (λ _. Unit {0}) (suspend toy five_vms)
suspend_lem_example = suspend_lem toy toy-IsTotal five_vms five_vms-IsValid tt

abbrev first_pair : Pair
first_pair = record {
  read_vm_id = 1;
  read_state = wait_for_read 4 16 0x100 0x200;
  write_vm_id = 2;
  write_state = wait_for_write 5 0 24 0x300 0x400;
}

-- VM 1 reads what VM 2 writes.
pairs_of_iff_example : Among first_pair (pairs_of piped_vms) ↔ IsMatched piped_vms.states first_pair
pairs_of_iff_example = pairs_of_iff piped_vms piped_vms-IsValid first_pair

first_pair-IsMatched : IsMatched piped_vms.states first_pair
unfolding lookup other_pipe
first_pair-IsMatched = record {
  read_pipe = 4;
  read_length = 16;
  read_buffer = 0x100;
  read_length_addr = 0x200;
  write_pipe = 5;
  consumed = 0;
  length = 24;
  buffer = 0x300;
  length_addr = 0x400;
  connected = refl;
  reads = refl;
  writes = refl;
  reader = refl;
  writer = refl;
}

process_io-runnable_example :
    Ends
      (λ _ s'. (lookup 1 s'.states ≡ some runnable) × ¬ (pick s'.states ≡ none))
      (λ s'. IsValid s')
      (process_io toy toy_source piped_vms)
process_io-runnable_example =
    process_io-runnable toy toy_source toy-IsTotal piped_vms first_pair piped_vms-IsValid
      piped_vms-IsAttended first_pair-IsMatched
