-- ===== src/Tests/Verify.antt =====
-- A transaction with one script group.
use ckb_vm_deterministic_sch.Types.TxData.{load_data, load_whole, window, TxData}
use ckb_vm_deterministic_sch.Table.{insert, retain, lookup, keys, collect}
use ckb_vm_deterministic_sch.Scheduler.Messages.{process_message_box, process_messages}
use ckb_vm_deterministic_sch.Outcome.{modify, assert, ◌>>=◌}
use ckb_vm_deterministic_sch.Syscalls.Access.{reg, checked_add, new_context}
use ckb_vm_deterministic_sch.Syscalls.{ecall, transferred_byte_cycles}
use ckb_vm_deterministic_sch.Scheduler.Instances.{
  ensure_vms_instantiated, fill, boot_vm, make_room, load_program, on_tracked, on_second, build,
  create_dummy_vm,
}
use ckb_vm_deterministic_sch.Scheduler.Io.{
  process_io, finish_all_closed, collect_writes, collect_reads, transfer_all,
}
use ckb_vm_deterministic_sch.Scheduler.Run.{
  run, boot, run_loop, iterate, pick, run_vm, run_machine, charge, conclude, terminate,
  purge_others, checked_sub,
}
use ckb_vm_deterministic_sch.Scheduler.State.{new, set_state}
use ckb_vm_deterministic_sch.Scheduler.Suspend.{suspend, suspend_all, collect_vms, resume}
use ckb_vm_deterministic_sch.DevUtils.Cycles.{AllPass, sum_of, verify_tx-totals}
use ckb_vm_deterministic_sch.DevUtils.{
  verify_groups, verify_group, suspend_if_due, account, Group, Limits, passed, verify_tx,
}
use ckb_vm_deterministic_sch.Prelude.{ℕ, ◌≤◌, ◌≡◌, refl, some, List, [], ◌∷◌, arith}
use ckb_vm_deterministic_sch.Types.{Bytes}
use ckb_vm_deterministic_sch.Tests.Toy.{toy}

abbrev tx : Bytes → TxData (List ℕ)
tx script = record {
  resolved_inputs = [];
  resolved_cell_deps = [];
  outputs_data = [];
  input_indices = [];
  output_indices = [];
  load_cell_data = λ cell. some cell;
  script = script;
}

abbrev one_group : List (Group (List ℕ))
one_group = record { engine = toy; script = some (1 ∷ 2 ∷ []); tx_data = tx } ∷ []

abbrev limits : Limits
limits = record { max_cycles = 1000; cycles_per_iterate = 100; cycles_per_suspend = 0 }

passes : verify_tx limits 5 one_group ≡ passed 1
unfolding verify_tx verify_groups verify_group suspend_if_due account suspend suspend_all
    collect_vms resume new run boot run_loop iterate process_io finish_all_closed collect_writes
    collect_reads transfer_all pick run_vm ensure_vms_instantiated fill run_machine ecall reg charge
    checked_add modify process_message_box process_messages assert conclude terminate purge_others
    insert retain set_state lookup ◌>>=◌ keys collect boot_vm make_room load_program on_tracked
    on_second build create_dummy_vm load_data load_whole window checked_sub transferred_byte_cycles
    new_context
passes = refl

verify_tx-totals_example :
    (totals : List ℕ) × AllPass limits one_group totals × (1 ≡ sum_of totals) × (1 ≤ 1000)
verify_tx-totals_example = verify_tx-totals limits 5 one_group 1 (omega arith) passes
