-- ===== src/Scheduler/Messages.antt =====
-- `process_message_box` of src/lib.rs, a function for each kind of message.
pub mod Keeps
pub mod Owners
pub mod Pipes
pub mod Every
use ckb_vm_deterministic_sch.Prelude.{ℕ, none, some, List, [], ◌∷◌, if◌then◌else◌}
use ckb_vm_deterministic_sch.Outcome.{
  Exec, unexpected, not_owner, pure, raise, gets, modify, ◌>>=◌, ◌>>◌,
}
use ckb_vm_deterministic_sch.Table.{lookup, contains, insert}
use ckb_vm_deterministic_sch.Types.{
  VmState, runnable, join, wait_for_read, wait_for_write, Message, spawn, join_vm, create_pipe,
  pipe_read, pipe_write, SpawnArgs, JoinArgs, PipeArgs,
}
use ckb_vm_deterministic_sch.Types.Pipe.{create, other_pipe}
use ckb_vm_deterministic_sch.Engine.{Engine, Source}
use ckb_vm_deterministic_sch.Syscalls.{join_failure, invalid_pipe, other_end_closed}
use ckb_vm_deterministic_sch.Scheduler.State.{
  State, Vm, is_owner, with_vm, on_machine, set_a0, set_state, store8_success, store64_success,
}
use ckb_vm_deterministic_sch.Scheduler.Instances.{ensure_vms_instantiated, boot_vm}

module _ (e : Engine) where
  -- `for pipe in &args.pipes`, the check of the owner
  unfoldable pub check_owned : ℕ → List ℕ → Exec (State e) (Unit {0})
  check_owned vm_id [] = pure tt
  check_owned vm_id (pipe ∷ pipes) = do
    owned ← gets (λ s. is_owner vm_id (lookup pipe s.pipes))
    let rest = check_owned vm_id pipes
    if owned then rest else raise (unexpected (not_owner vm_id pipe))

  -- `for pipe in &args.pipes`, the move to the new VM
  unfoldable pub move_pipes : ℕ → List ℕ → Exec (State e) (Unit {0})
  move_pipes vm_id [] = pure tt
  move_pipes vm_id (pipe ∷ pipes) = do
    modify (λ s. record s { pipes = insert pipe vm_id s.pipes })
    move_pipes vm_id pipes

  -- `self.next_pipe_slot = slot` and the two insertions
  unfoldable pub add_pipes : ℕ → Exec (State e) (ℕ × ℕ)
  add_pipes vm_id = do
    slot ← gets (λ s. s.next_pipe_slot)
    modify λ s. record s {
      next_pipe_slot = (create slot).2;
      pipes = insert (create slot).1 vm_id (insert (create slot).0 vm_id s.pipes);
    }
    pure ((create slot).0, (create slot).1)

module _ (e : Engine) (source : Source) where
  -- Instantiate a VM and operate on it.
  unfoldable pub visit_vm : ℕ → Exec (Vm e) (Unit {0}) → Exec (State e) (Unit {0})
  visit_vm vm_id m = do ensure_vms_instantiated e source (vm_id ∷ []); with_vm e vm_id m

  unfoldable pub process_spawn : ℕ → SpawnArgs → Exec (State e) (Unit {0})
  process_spawn vm_id args = do
    check_owned e vm_id args.pipes
    spawned ← boot_vm e source args.data_piece_id args.offset args.length args.argv
    move_pipes e spawned args.pipes
    visit_vm vm_id (store64_success e args.instance_id_addr spawned)

  unfoldable pub process_join : ℕ → JoinArgs → Exec (State e) (Unit {0})
  process_join vm_id args = do
    finished ← gets (λ s. lookup args.target_id s.terminated_vms)
    running ← gets (λ s. contains args.target_id s.states)
    elim finished [
      | some exit_code ↦ (do
        visit_vm vm_id (store8_success e args.exit_code_addr (e.from_i8 exit_code))
        set_state e vm_id runnable)
      | none ↦
          if running
          then set_state e vm_id (join args.target_id args.exit_code_addr)
          else visit_vm vm_id (set_a0 e join_failure)
    ]

  unfoldable pub process_pipe : ℕ → PipeArgs → Exec (State e) (Unit {0})
  process_pipe vm_id args = do
    pair ← add_pipes e vm_id
    visit_vm vm_id
        do on_machine e (e.store64 args.pipe1_addr pair.0); store64_success e args.pipe2_addr pair.1

  -- The two guards that reads and writes share; `waiting` is the state to enter.
  unfoldable pub process_pipe_io : ℕ → ℕ → VmState → Exec (State e) (Unit {0})
  process_pipe_io vm_id pipe waiting = do
    owned ← gets (λ s. is_owner vm_id (lookup pipe s.pipes))
    connected ← gets (λ s. contains (other_pipe pipe) s.pipes)
    if owned
        then if connected
          then set_state e vm_id waiting
          else visit_vm vm_id (set_a0 e other_end_closed)
        else visit_vm vm_id (set_a0 e invalid_pipe)

  unfoldable pub process_message : Message → Exec (State e) (Unit {0})
  process_message (spawn vm_id args) = process_spawn vm_id args
  process_message (join_vm vm_id args) = process_join vm_id args
  process_message (create_pipe vm_id args) = process_pipe vm_id args
  process_message (pipe_read vm_id args) =
      process_pipe_io vm_id args.pipe
        (wait_for_read args.pipe args.length args.buffer_addr args.length_addr)
  process_message (pipe_write vm_id args) =
      process_pipe_io vm_id args.pipe
        (wait_for_write args.pipe 0 args.length args.buffer_addr args.length_addr)

  unfoldable pub process_messages : List Message → Exec (State e) (Unit {0})
  process_messages [] = pure tt
  process_messages (message ∷ messages) = do process_message message; process_messages messages

  -- `drain` empties the box before the first message is handled.
  unfoldable pub process_message_box : Exec (State e) (Unit {0})
  process_message_box = do
    messages ← gets (λ s. s.message_box)
    modify (λ s. record s { message_box = [] })
    process_messages messages
