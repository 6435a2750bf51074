-- ===== src/Scheduler/Io.antt =====
-- `process_io` of src/lib.rs: pending reads and writes meet.
pub mod Closed
pub mod Collected
pub mod Transfers
pub mod Valid
pub mod Found
pub mod Complete
use ckb_vm_deterministic_sch.Prelude.{
  ℕ, Option, none, some, List, [], ◌∷◌, ◌++◌, min, ◌==◌, if◌then◌else◌, add64, sub64,
}
use ckb_vm_deterministic_sch.Outcome.{Exec, panic, pure, lift, gets, unwrap, ◌>>=◌, ◌>>◌}
use ckb_vm_deterministic_sch.Table.{Table, lookup, contains, insert}
use ckb_vm_deterministic_sch.Types.{VmState, runnable, wait_for_read, wait_for_write}
use ckb_vm_deterministic_sch.Types.Pipe.{other_pipe}
use ckb_vm_deterministic_sch.Engine.{Engine, Source}
use ckb_vm_deterministic_sch.Scheduler.State.{
  State, with_vm, on_machine, set_state, store64_success,
}
use ckb_vm_deterministic_sch.Scheduler.Instances.{ensure_vms_instantiated}

-- The body of the first `for_each`, on `reads` and `closed_pipes`.
unfoldable pub note_read :
    Table ℕ → ℕ → VmState → Table (ℕ × VmState) × List ℕ → Table (ℕ × VmState) × List ℕ
note_read pipes vm_id (wait_for_read pipe length buffer_addr length_addr) (reads, closed) =
    if contains (other_pipe pipe) pipes
    then (insert pipe (vm_id, wait_for_read pipe length buffer_addr length_addr) reads, closed)
    else (reads, closed ++ vm_id ∷ [])
note_read pipes vm_id _ acc = acc

unfoldable pub collect_reads :
    Table ℕ → Table VmState → Table (ℕ × VmState) × List ℕ → Table (ℕ × VmState) × List ℕ
unfolding note_read
collect_reads pipes [] acc = acc
collect_reads pipes ((vm_id, state) ∷ states) acc =
    collect_reads pipes states (note_read pipes vm_id state acc)

-- `[(read_vm_id, read_state), (write_vm_id, write_state)]`
pub record Pair : Type 0 where
  pub read_vm_id : ℕ
  pub read_state : VmState
  pub write_vm_id : ℕ
  pub write_state : VmState

abbrev pub add_pair : ℕ → VmState → Option (ℕ × VmState) → List Pair → List Pair
add_pair vm_id state none pairs = pairs
add_pair vm_id state (some (reader, read_state)) pairs = pairs ++ pair ∷ []
  where
    pair : Pair
    pair = record {
      read_vm_id = reader;
      read_state = read_state;
      write_vm_id = vm_id;
      write_state = state;
    }

-- The body of the second `for_each`, on `pairs` and `closed_pipes`.
unfoldable pub note_write :
    Table ℕ → Table (ℕ × VmState) → ℕ → VmState → List Pair × List ℕ → List Pair × List ℕ
note_write pipes reads vm_id (wait_for_write pipe consumed length buffer_addr length_addr)
      (pairs, closed) =
    if contains (other_pipe pipe) pipes
    then (
      add_pair vm_id (wait_for_write pipe consumed length buffer_addr length_addr)
          (lookup (other_pipe pipe) reads) pairs,
      closed,
    )
    else (pairs, closed ++ vm_id ∷ [])
note_write pipes reads vm_id _ acc = acc

unfoldable pub collect_writes :
    Table ℕ → Table (ℕ × VmState) → Table VmState → List Pair × List ℕ → List Pair × List ℕ
unfolding note_write
collect_writes pipes reads [] acc = acc
collect_writes pipes reads ((vm_id, state) ∷ states) acc =
    collect_writes pipes reads states (note_write pipes reads vm_id state acc)

module _ (e : Engine) where
  -- A call whose other end is closed returns what it has transferred. The VM is taken to be
  -- instantiated.
  unfoldable pub finish_closed : ℕ → VmState → Exec (State e) (Unit {0})
  finish_closed vm_id (wait_for_read pipe length buffer_addr length_addr) = do
    with_vm e vm_id (store64_success e length_addr 0)
    set_state e vm_id runnable
  finish_closed vm_id (wait_for_write pipe consumed length buffer_addr length_addr) = do
    with_vm e vm_id (store64_success e length_addr consumed)
    set_state e vm_id runnable
  finish_closed vm_id _ = pure tt

  unfoldable pub finish_all_closed : List ℕ → Exec (State e) (Unit {0})
  finish_all_closed [] = pure tt
  finish_all_closed (vm_id ∷ closed) = do
    found ← gets (λ s. lookup vm_id s.states)
    state ← unwrap found
    finish_closed vm_id state
    finish_all_closed closed

  -- Bytes go from the writer's buffer to the reader's, as many as both sides allow.
  unfoldable pub copy_bytes : ℕ → ℕ → ℕ → ℕ → ℕ → Exec (State e) (Unit {0})
  copy_bytes reader to writer from amount = do
    bytes ← with_vm e writer (on_machine e (e.load_bytes from amount))
    with_vm e reader (on_machine e (e.store_bytes to bytes))

  -- The writer is done when all its bytes are written, and waits on otherwise.
  unfoldable pub update_writer : ℕ → ℕ → ℕ → ℕ → ℕ → ℕ → Exec (State e) (Unit {0})
  update_writer writer pipe consumed length buffer_addr length_addr =
      if consumed == length
      then (do with_vm e writer (store64_success e length_addr length); set_state e writer runnable)
      else set_state e writer (wait_for_write pipe consumed length buffer_addr length_addr)

module _ (e : Engine) (source : Source) where
  unfoldable pub transfer : ℕ → VmState → ℕ → VmState → Exec (State e) (Unit {0})
  transfer reader (wait_for_read _ read_length read_buffer read_length_addr) writer
        (wait_for_write pipe consumed write_length write_buffer write_length_addr) =
      do
        ensure_vms_instantiated e source (reader ∷ writer ∷ [])
        let copiable = min read_length (sub64 write_length consumed)
        copy_bytes e reader read_buffer writer (add64 write_buffer consumed) copiable
        with_vm e reader (store64_success e read_length_addr copiable)
        set_state e reader runnable
        update_writer e writer pipe (add64 consumed copiable) write_length write_buffer
            write_length_addr
  transfer reader _ writer _ = lift panic

  unfoldable pub transfer_all : List Pair → Exec (State e) (Unit {0})
  transfer_all [] = pure tt
  transfer_all (p ∷ pairs) = do
    transfer p.read_vm_id p.read_state p.write_vm_id p.write_state
    transfer_all pairs

  unfoldable pub process_io : Exec (State e) (Unit {0})
  process_io = do
    states ← gets (λ s. s.states)
    pipes ← gets (λ s. s.pipes)
    let (reads, closed_reads) = collect_reads pipes states ([], [])
    let (pairs, closed) = collect_writes pipes reads states ([], closed_reads)
    finish_all_closed e closed
    transfer_all pairs
