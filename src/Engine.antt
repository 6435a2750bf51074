-- ===== src/Engine.antt =====
-- ckb-vm and ckb-script as the scheduler uses them: none of their code is in the repository, so
-- they are a parameter. An operation that may fail keeps what it wrote before it failed.
pub mod Laws
use ckb_vm_deterministic_sch.Prelude.{ℕ, Bool, List, Option}
use ckb_vm_deterministic_sch.Outcome.{Outcome, Exec}
use ckb_vm_deterministic_sch.Types.{Bytes}
use ckb_vm_deterministic_sch.Types.Piece.{DataPieceId}

-- `ckb_script::ScriptVersion`
pub data ScriptVersion : Type 0 where
  v0 v1 v2 : ScriptVersion

-- `DataSource<DataPieceId>::load_data`: the bytes and the full length.
abbrev pub Source : Type 0
Source = DataPieceId → ℕ → ℕ → Outcome (Bytes × ℕ)

pub record Engine : Type 1 where
  -- AsmMachine, Snapshot2, Snapshot2Context, ProgramMetadata and Pause
  pub Machine : Type 0
  pub Snapshot : Type 0
  pub Tracker : Type 0
  pub Metadata : Type 0
  pub Pause : Type 0
  pub new_pause : Pause
  -- `select_version` of the verifier, and the machine with its syscalls for two versions
  pub select_version : Option ScriptVersion
  pub new_machine : ScriptVersion → ScriptVersion → Machine
  pub new_tracker : Tracker
  -- registers, cycles, memory
  pub register : Machine → ℕ → ℕ
  pub set_register : ℕ → ℕ → Machine → Machine
  pub exit_code : Machine → ℕ
  pub cycles : Machine → ℕ
  pub set_cycles : ℕ → Machine → Machine
  pub set_max_cycles : ℕ → Machine → Machine
  pub set_pause : Pause → Machine → Machine
  pub add_cycles_no_checking : ℕ → Exec Machine (Unit {0})
  pub load8 : ℕ → Exec Machine ℕ
  pub load64 : ℕ → Exec Machine ℕ
  pub load_bytes : ℕ → ℕ → Exec Machine Bytes
  pub store8 : ℕ → ℕ → Exec Machine (Unit {0})
  pub store64 : ℕ → ℕ → Exec Machine (Unit {0})
  pub store_bytes : ℕ → Bytes → Exec Machine (Unit {0})
  -- address, size, flags, source, offset from the address
  pub init_pages : ℕ → ℕ → ℕ → Option Bytes → ℕ → Exec Machine (Unit {0})
  -- `FLAG_EXECUTABLE | FLAG_FREEZED`, the number of bytes of memory, and `size_of::<Bytes>()`
  pub executable_freezed : ℕ
  pub memory_size : ℕ
  pub bytes_size : ℕ
  -- `u64::from_i8`
  pub from_i8 : ℕ → ℕ
  -- loading a program
  pub parse_elf : Bytes → Machine → Outcome Metadata
  pub load_program_with_metadata : Bytes → Metadata → List Bytes → Exec Machine ℕ
  -- Snapshot2Context
  pub mark_program : Metadata → DataPieceId → ℕ → Exec (Tracker × Machine) (Unit {0})
  pub track_pages : ℕ → ℕ → DataPieceId → ℕ → Exec (Tracker × Machine) (Unit {0})
  pub store_piece : Source → ℕ → DataPieceId → ℕ → ℕ → Exec (Tracker × Machine) (ℕ × ℕ)
  pub make_snapshot : Tracker → Exec Machine Snapshot
  pub resume : Source → Snapshot → Exec (Tracker × Machine) (Unit {0})
  -- `machine.run()` with the first syscall handler, over what that handler reaches; the syscalls
  -- of ckb-script, which come after it, belong to the machine
  pub run : {X : Type 0} → Exec (X × Machine) Bool → Exec (X × Machine) ℕ
