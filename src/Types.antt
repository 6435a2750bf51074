-- ===== src/Types.antt =====
-- src/types.rs: the data that the scheduler and the syscalls exchange.
pub mod Pipe
pub mod Piece
pub mod TxData
pub mod Size
use ckb_vm_deterministic_sch.Prelude.{ℕ, List}
use Piece.{DataPieceId}

-- `VmId`, `PipeId` and `Cycle` are `u64`, an exit code is the bit pattern of an `i8`, and bytes
-- are numbers.
abbrev pub Bytes : Type 0
Bytes = List ℕ

abbrev pub first_vm_id : ℕ
first_vm_id = 0

pub data VmState : Type 0 where
  runnable : VmState
  terminated : VmState
  -- target_vm_id, exit_code_addr
  join : ℕ → ℕ → VmState
  -- pipe, consumed, length, buffer_addr, length_addr
  wait_for_write : ℕ → ℕ → ℕ → ℕ → ℕ → VmState
  -- pipe, length, buffer_addr, length_addr
  wait_for_read : ℕ → ℕ → ℕ → ℕ → VmState

pub record SpawnArgs : Type 0 where
  pub data_piece_id : DataPieceId
  pub offset : ℕ
  pub length : ℕ
  pub argv : List Bytes
  pub pipes : List ℕ
  pub instance_id_addr : ℕ

pub record JoinArgs : Type 0 where
  pub target_id : ℕ
  pub exit_code_addr : ℕ

pub record PipeArgs : Type 0 where
  pub pipe1_addr : ℕ
  pub pipe2_addr : ℕ

pub record PipeIoArgs : Type 0 where
  pub pipe : ℕ
  pub length : ℕ
  pub buffer_addr : ℕ
  pub length_addr : ℕ

-- The number is the id of the VM that sends the message.
pub data Message : Type 0 where
  spawn : ℕ → SpawnArgs → Message
  join_vm : ℕ → JoinArgs → Message
  create_pipe : ℕ → PipeArgs → Message
  pipe_read : ℕ → PipeIoArgs → Message
  pipe_write : ℕ → PipeIoArgs → Message

-- `FullSuspendedState`, over the type of snapshots.
pub record FullSuspendedState (Snapshot : Type 0) : Type 0 where
  pub total_cycles : ℕ
  pub next_vm_id : ℕ
  pub next_pipe_slot : ℕ
  pub vms : List (ℕ × VmState × Snapshot)
  pub pipes : List (ℕ × ℕ)
  pub terminated_vms : List (ℕ × ℕ)

pub data RunMode (Pause : Type 0) : Type 0 where
  limit_cycles : ℕ → RunMode Pause
  pause : Pause → RunMode Pause
