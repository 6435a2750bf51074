-- ===== src/Syscalls.antt =====
-- src/syscalls.rs: the syscalls that `MachineContext` implements.
pub mod Speech
pub mod Answers
pub mod Returns
pub mod Messages
pub mod Access
pub mod Text
use ckb_vm_deterministic_sch.Prelude.{
  ℕ, ◌+◌, ◌-◌, ◌/◌, ◌%◌, ◌^◌, Bool, true, false, ◌||◌, Option, none, some, ◌==◌, ltb, leb, length,
  take, drop, if◌then◌else◌, add64, sub64, List, is_some, [], ◌∷◌,
}
use ckb_vm_deterministic_sch.Outcome.{
  Error, cycles_overflow, mem_out_of_bound, external, Exec, pure, lift, raise, gets, or_raise,
  ◌>>=◌, ◌>>◌,
}
use ckb_vm_deterministic_sch.Types.{
  Bytes, Message, spawn, join_vm, create_pipe, pipe_read, pipe_write, SpawnArgs,
}
use ckb_vm_deterministic_sch.Types.Pipe.{is_read, is_write}
use ckb_vm_deterministic_sch.Types.Piece.{DataPieceId, try_from}
use ckb_vm_deterministic_sch.Engine.{Engine, Source}
use Access.{
  Context, Guest, Sys, a0, a1, a2, a3, a4, a5, a7, checked_add, on_machine, on_tracker, reg, set_a0,
  push, yield_control, catch_index,
}
use Text.{load_c_string, load_argv, load_pipes, is_utf8}

abbrev pub success : ℕ
success = 0

abbrev pub index_out_of_bound : ℕ
index_out_of_bound = 1

abbrev pub slice_out_of_bound : ℕ
slice_out_of_bound = 3

abbrev pub join_failure : ℕ
join_failure = 5

abbrev pub invalid_pipe : ℕ
invalid_pipe = 6

abbrev pub other_end_closed : ℕ
other_end_closed = 7

abbrev pub bytes_per_cycle : ℕ
bytes_per_cycle = 4

unfoldable pub transferred_byte_cycles : ℕ → ℕ
transferred_byte_cycles bytes = sub64 (add64 bytes bytes_per_cycle) 1 / bytes_per_cycle

module _ (e : Engine) where
  unfoldable pub current_cycles : Exec (Sys e) (Unit {0})
  current_cycles = do
    base ← gets (λ s. s.0.context.base_cycles)
    own ← gets (λ s. e.cycles s.1)
    cycles ← or_raise cycles_overflow (checked_add base own)
    set_a0 e cycles

  unfoldable pub debug : Exec (Sys e) (Unit {0})
  debug = do
    addr ← reg e a0
    buffer ← on_machine e (load_c_string e addr)
    on_machine e (e.add_cycles_no_checking (transferred_byte_cycles (length buffer)))
    if is_utf8 buffer then pure tt else raise (external "String from buffer")

  unfoldable pub join : Exec (Sys e) (Unit {0})
  join = do
    target_id ← reg e a0
    exit_code_addr ← reg e a1
    id ← gets (λ s. s.0.context.id)
    push e (join_vm id (record { target_id = target_id; exit_code_addr = exit_code_addr }))
    yield_control e

  unfoldable pub instance_id : Exec (Sys e) (Unit {0})
  instance_id = do id ← gets (λ s. s.0.context.id); set_a0 e id

  unfoldable pub pipe : Exec (Sys e) (Unit {0})
  pipe = do
    pipe1_addr ← reg e a0
    id ← gets (λ s. s.0.context.id)
    push e (create_pipe id (record { pipe1_addr = pipe1_addr; pipe2_addr = add64 pipe1_addr 8 }))
    yield_control e

  -- `pipe_write` and `pipe_read` send their request by different messages and accept different
  -- ends.
  unfoldable pub write_to_pipe : Exec (Sys e) (Unit {0})
  write_to_pipe = do
    buffer_addr ← reg e a0
    length_addr ← reg e a1
    len ← on_machine e (e.load64 length_addr)
    p ← reg e a2
    id ← gets (λ s. s.0.context.id)
    if is_write p
        then (do
          push e (
              pipe_write id (record {
                pipe = p;
                length = len;
                buffer_addr = buffer_addr;
                length_addr = length_addr;
              }))
          yield_control e)
        else set_a0 e invalid_pipe

  unfoldable pub read_from_pipe : Exec (Sys e) (Unit {0})
  read_from_pipe = do
    buffer_addr ← reg e a0
    length_addr ← reg e a1
    len ← on_machine e (e.load64 length_addr)
    p ← reg e a2
    id ← gets (λ s. s.0.context.id)
    if is_read p
        then (do
          push e (
              pipe_read id (record {
                pipe = p;
                length = len;
                buffer_addr = buffer_addr;
                length_addr = length_addr;
              }))
          yield_control e)
        else set_a0 e invalid_pipe

module _ (e : Engine) (source : Source) where
  finish_load : ℕ → Option (ℕ × ℕ) → Exec (Sys e) (Unit {0})
  finish_load size_addr none = set_a0 e index_out_of_bound
  finish_load size_addr (some (wrote_size, full_size)) = do
    on_machine e (e.store64 size_addr full_size)
    on_machine e (e.add_cycles_no_checking (transferred_byte_cycles wrote_size))
    set_a0 e success

  load_piece : Option DataPieceId → Exec (Sys e) (Unit {0})
  unfolding finish_load
  load_piece none = set_a0 e index_out_of_bound
  load_piece (some piece) = do
    addr ← reg e a0
    size_addr ← reg e a1
    size ← on_machine e (e.load64 size_addr)
    offset ← reg e a2
    sizes ← catch_index (on_tracker e (e.store_piece source addr piece offset size))
    finish_load size_addr sizes

  unfoldable pub load_cell_data : Exec (Sys e) (Unit {0})
  unfolding load_piece
  load_cell_data = do index ← reg e a3; origin ← reg e a4; load_piece (try_from origin index)

  -- Whether the part `offset..end` of a cell fits the cell and the pages that are asked for.
  abbrev pub slice_fits : ℕ → ℕ → ℕ → ℕ → ℕ → Bool
  slice_fits offset end size len memory =
      if leb len offset || ltb len end || ltb memory size then false else true

  place_code : DataPieceId → ℕ → ℕ → ℕ → ℕ → Option (Bytes × ℕ) → Exec (Sys e) (Unit {0})
  place_code piece addr memory_size offset size none = set_a0 e index_out_of_bound
  place_code piece addr memory_size offset size (some (cell, _)) = do
    end ← or_raise mem_out_of_bound (checked_add offset size)
    if slice_fits offset end size (length cell) memory_size
        then (do
          on_machine e (
              e.init_pages addr memory_size e.executable_freezed
                (some (take (end - offset) (drop offset cell))) 0)
          on_tracker e (e.track_pages addr memory_size piece offset)
          on_machine e (e.add_cycles_no_checking (transferred_byte_cycles memory_size))
          set_a0 e success)
        else set_a0 e slice_out_of_bound

  load_code : Option DataPieceId → Exec (Sys e) (Unit {0})
  unfolding place_code
  load_code none = set_a0 e index_out_of_bound
  load_code (some piece) = do
    addr ← reg e a0
    memory_size ← reg e a1
    offset ← reg e a2
    size ← reg e a3
    cell ← catch_index (lift (source piece 0 (2 ^ 64 - 1)))
    place_code piece addr memory_size offset size cell

  unfoldable pub load_cell_data_as_code : Exec (Sys e) (Unit {0})
  unfolding load_code
  load_cell_data_as_code = do index ← reg e a4; origin ← reg e a5; load_code (try_from origin index)

  -- The in-place validation of the cell, and the message.
  send_spawn : SpawnArgs → Option (Bytes × ℕ) → Exec (Sys e) (Unit {0})
  send_spawn args none = set_a0 e index_out_of_bound
  send_spawn args (some (_, full_length)) =
      if leb full_length args.offset then set_a0 e slice_out_of_bound else do
        end ←
            or_raise mem_out_of_bound
              (if ltb 0 args.length then checked_add args.offset args.length else some 0)
        if ltb full_length end
            then set_a0 e slice_out_of_bound
            else do id ← gets (λ s. s.0.context.id); push e (Message.spawn id args); yield_control e

  spawn_piece : Option DataPieceId → Exec (Sys e) (Unit {0})
  unfolding send_spawn
  spawn_piece none = set_a0 e index_out_of_bound
  spawn_piece (some piece) = do
    bounds ← reg e a2
    argc ← reg e a3
    argv_addr ← reg e a4
    argv ← on_machine e (load_argv e argc argv_addr)
    spgs_addr ← reg e a5
    instance_id_addr ← on_machine e (e.load64 spgs_addr)
    pipes_addr ← on_machine e (e.load64 (add64 spgs_addr 8))
    pipes ← on_machine e (load_pipes e pipes_addr)
    cell ← catch_index (lift (source piece 0 0))
    send_spawn
        (record {
          data_piece_id = piece;
          offset = bounds / 2 ^ 32;
          length = bounds % 2 ^ 32;
          argv = argv;
          pipes = pipes;
          instance_id_addr = instance_id_addr;
        })
        cell

  unfoldable pub spawn_vm : Exec (Sys e) (Unit {0})
  unfolding spawn_piece
  spawn_vm = do index ← reg e a0; origin ← reg e a1; spawn_piece (try_from origin index)

  -- `match code` of `ecall`; `none` is a code that belongs to another handler.
  unfoldable pub handler : ℕ → Option (Exec (Sys e) (Unit {0}))
  handler code =
      if code == 2042
      then some (current_cycles e)
      else if code == 2091
      then some load_cell_data_as_code
      else if code == 2092
      then some load_cell_data
      else if code == 2177
      then some (debug e)
      else if code == 2601
      then some spawn_vm
      else if code == 2602
      then some (join e)
      else if code == 2603
      then some (instance_id e)
      else if code == 2604
      then some (pipe e)
      else if code == 2605
      then some (write_to_pipe e)
      else if code == 2606
      then some (read_from_pipe e)
      else none

  handle : Option (Exec (Sys e) (Unit {0})) → Exec (Sys e) Bool
  handle none = pure false
  handle (some m) = do m; pure true

  unfoldable pub ecall : Exec (Sys e) Bool
  unfolding handler handle
  ecall = do code ← reg e a7; handle (handler code)
