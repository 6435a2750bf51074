-- ===== src/Lib.antt =====
-- The deterministic scheduler of CKB-VM instances.
--
-- A scheduler verifies one script of a transaction. It holds virtual machines (VMs), at most four
-- of them instantiated and the others suspended as snapshots, and runs one at a time. A VM asks for
-- spawns, joins and pipes by system calls: each puts a message into a box that all VMs share and
-- yields, and the scheduler handles the box when the VM has stopped. Before it picks the next VM it
-- lets pending reads and writes on pipes meet.
--
-- The files and the code they model (paths from the root of the repository):
--   Types, Types/Pipe, Types/Piece, Types/TxData: src/types.rs. `VmState`, the messages, `PipeId`,
--     `DataPieceId`, `FullSuspendedState::size` (Types/Size), `TxData::load_data` (as `load_whole`,
--     and `window` for the closure at its end).
--   Syscalls, Syscalls/Access, Syscalls/Text: src/syscalls.rs. One function for each syscall:
--     `spawn` is `spawn_vm`, `pipe_write` is `write_to_pipe`, `pipe_read` is `read_from_pipe`; the
--     loops over guest memory stand in Syscalls/Text. `Guest` is what a syscall can reach beside its
--     machine: its `MachineContext` and the message box.
--   Scheduler/State: `Scheduler` of src/lib.rs. `tx_data` and `verifier` never change and are
--     parameters. The shared `Arc<Mutex<..>>` cells are fields: the base cycles and the snapshot
--     context of each VM, and one message box of the scheduler, lent to the VM that runs.
--   Scheduler/Instances: `resume_vm`, `suspend_vm`, `ensure_vms_instantiated`, `boot_vm`,
--     `create_dummy_vm`. Scheduler/Messages: `process_message_box`. Scheduler/Io: `process_io`.
--     Scheduler/Valid says what holds of a scheduler between its operations (`IsValid`): at most four
--     VMs are instantiated and none is in both places, each VM has a state and is somewhere, each pipe
--     has an owner that exists, and a VM that waits on a pipe owns the right end of it.
--     Scheduler/Frame has rules for what an operation leaves alone, and Scheduler/Steady and
--     Scheduler/Instances/Steady apply them.
--   Scheduler/Run: `iterate` and `run`; Scheduler/Run/Reach has the states that a scheduler reaches,
--     and Scheduler/Run/Errors what is left after a call of `iterate` that fails. Scheduler/Suspend:
--     `suspend` and `resume`. Scheduler/Instances/Course and Carry follow the machines and the snapshots.
--   DevUtils: `verify_tx` of src/dev_utils/mod.rs, on a list of script groups. A group has its own
--     `engine`: the version that the verifier selects and the syscalls of the machine depend on it.
--   DevUtils/Layout, DevUtils/Dag: src/dev_utils/dag.rs, which molecule generates from
--     test-contracts/dag.mol. Layout has the code for any schema, and Dag each type: `vm` of `Pipe` is
--     `vm_of_pipe`, `get` of `Pipes` is `pipes_get`, `write` of `PipeBuilder` is `build_pipe`, `verify`
--     of `PipeReader` is `verify_pipe`. `pack_number` and `unpack_number` are a parameter, `Numbers`;
--     an unpack of too few bytes is taken to panic. Dag/Iterate has the iterators, as the list of all
--     that `next` gives (`iterated`). The reader types repeat the accessors.
--     DevUtils/Index: `build_vm_index` of src/dev_utils/mod.rs and `vm_index_to_u64` of
--     examples/dag_generator.rs, and the same for pipes.
--   DevUtils/Graph: `generate_data_graph` of src/dev_utils/mod.rs. Draw has the two random graphs,
--     Tree the traversal, the search for an ancestor and the way down from it, and Plan
--     the loop over the writes and the lists (`generate_plan`). rand and daggy are parameters
--     (Foreign), with the laws that are assumed of them; the sets and maps of the standard library are
--     lists and tables. Written has the builders at its end, and what examples/dag_generator.rs reads
--     from the graph to show it, as a value. Owned says what a plan is for; Tests/Crates has crates
--     that meet the laws.
--   Outcome: results and errors, and the monad of methods on `&mut self`; a panic is an outcome
--     of its own. Outcome/Ensures: rules for total correctness; Outcome/Partial: for partial
--     correctness. Table: BTreeMap and HashMap as lists in the order of the keys. The order in
--     which a HashMap is iterated shows only in the lists that `suspend` writes; it is taken to be
--     that of the keys.
--   Engine: ckb-vm and ckb-script, of which the repository has no code. They are a parameter, a
--     record of operations; Engine/Laws has what is assumed of them. Tests/Toy gives a small machine
--     that meets the assumptions.
--
-- Numbers: ids, addresses, lengths and cycles are `u64` as natural numbers. `+` and `-` wrap around
-- as in a release build, `checked_add` and `checked_sub` fail. An exit code is the bit pattern of an
-- `i8`. The texts of `Error::Unexpected` are data, by the place that makes them.
--
-- Fuel: `read_c_string` and `read_pipes` have one more than the size of guest memory, past which
-- no read succeeds; `make_room` one more than the number of instantiated VMs; `run_loop` and
-- `verify_group` a number that their caller chooses. In DevUtils/Graph the traversal has a round for
-- each VM, `find_ancestor` the sum of the two numbers and one, `pass_down` the number of its VM, and
-- the draw of a second index what the law of the random numbers grants. Running out is the outcome
-- `diverge`, which is neither a value nor an error.
--
-- Not modelled: of src/dev_utils/mod.rs the builder of test transactions; of src/dev_utils/dag.rs
-- formatting, default values and setters; the rest of the command lines of examples, and
-- test-contracts, which is in C. Logging has no effect on the state.
mod Prelude
pub mod Outcome
pub mod Table
pub mod Types
pub mod Engine
pub mod Syscalls
pub mod Scheduler
pub mod DevUtils
pub mod Tests
