-- ===== src/Syscalls/Messages.antt =====
-- What a system call puts into the message box.
use ckb_vm_deterministic_sch.Engine.Laws.{HasWords}
use ckb_vm_deterministic_sch.Prelude.{
  ℕ, ◌≡◌, refl, Bool, true, false, ◌⊎◌, Option, none, some, [], ◌∷◌, ◌++◌, if◌then◌else◌,
}
use ckb_vm_deterministic_sch.Outcome.{err, external, Exec}
use ckb_vm_deterministic_sch.Types.{Message, SpawnArgs, Bytes}
use ckb_vm_deterministic_sch.Types.Piece.{DataPieceId}
use ckb_vm_deterministic_sch.Engine.{Engine, Source}
use ckb_vm_deterministic_sch.Syscalls.Access.{Sys}
use ckb_vm_deterministic_sch.Syscalls.{
  current_cycles, debug, join, instance_id, pipe, write_to_pipe, read_from_pipe, load_cell_data,
  load_cell_data_as_code, spawn_vm, handler, handle, ecall, load_piece, finish_load, load_code,
  place_code, spawn_piece, send_spawn,
}
use ckb_vm_deterministic_sch.Syscalls.Speech.{
  sender, IsChecked, Speaks, Quiet-reg, Speaks-bind, Speaks-word, Speaks-then, speaks_rules,
}

module _ (e : Engine) (id : ℕ) where
  current_cycles-Speaks : Speaks id (current_cycles e)
  unfolding current_cycles
  current_cycles-Speaks = search speaks_rules

  debug-Speaks : Speaks id (debug e)
  unfolding debug
  debug-Speaks = search speaks_rules depth 9

  join-Speaks : Speaks id (join e)
  unfolding join
  join-Speaks = search speaks_rules

  instance_id-Speaks : Speaks id (instance_id e)
  unfolding instance_id
  instance_id-Speaks = search speaks_rules

  pipe-Speaks : Speaks id (pipe e)
  unfolding pipe
  pipe-Speaks = search speaks_rules

  write_to_pipe-Speaks : HasWords e → Speaks id (write_to_pipe e)
  unfolding write_to_pipe
  write_to_pipe-Speaks w = Speaks-bind _ _ _ (Quiet-reg _) λ buffer_addr.
      Speaks-bind _ _ _ (Quiet-reg _)
        λ length_addr. Speaks-word _ _ _ w λ len fits. search speaks_rules depth 9

  read_from_pipe-Speaks : Speaks id (read_from_pipe e)
  unfolding read_from_pipe
  read_from_pipe-Speaks = search speaks_rules depth 9

module _ (e : Engine) (source : Source) (id : ℕ) where
  finish_load-Speaks :
      (size_addr : ℕ) (sizes : Option (ℕ × ℕ)) → Speaks id (finish_load e source size_addr sizes)
  unfolding finish_load
  finish_load-Speaks size_addr none = search speaks_rules
  finish_load-Speaks size_addr (some _) = search speaks_rules

  load_piece-Speaks : (o : Option DataPieceId) → Speaks id (load_piece e source o)
  unfolding load_piece
  load_piece-Speaks none = search speaks_rules
  load_piece-Speaks (some piece) = search (speaks_rules, finish_load-Speaks) depth 12

  load_cell_data-Speaks : Speaks id (load_cell_data e source)
  unfolding load_cell_data
  load_cell_data-Speaks = search (speaks_rules, load_piece-Speaks)

  place_code-Speaks :
      (piece : DataPieceId) (addr memory_size offset size : ℕ) (cell : Option (Bytes × ℕ))
      → Speaks id (place_code e source piece addr memory_size offset size cell)
  unfolding place_code
  place_code-Speaks piece addr memory_size offset size none = search speaks_rules
  place_code-Speaks piece addr memory_size offset size (some _) = search speaks_rules depth 12

  load_code-Speaks : (o : Option DataPieceId) → Speaks id (load_code e source o)
  unfolding load_code
  load_code-Speaks none = search speaks_rules
  load_code-Speaks (some piece) = search (speaks_rules, place_code-Speaks) depth 12

  load_cell_data_as_code-Speaks : Speaks id (load_cell_data_as_code e source)
  unfolding load_cell_data_as_code
  load_cell_data_as_code-Speaks = search (speaks_rules, load_code-Speaks)

  send_spawn-Speaks :
      (args : SpawnArgs) (cell : Option (Bytes × ℕ)) → Speaks id (send_spawn e source args cell)
  unfolding send_spawn
  send_spawn-Speaks args none = search speaks_rules
  send_spawn-Speaks args (some _) = search speaks_rules depth 12

  spawn_piece-Speaks : (o : Option DataPieceId) → Speaks id (spawn_piece e source o)
  unfolding spawn_piece
  spawn_piece-Speaks none = search speaks_rules
  spawn_piece-Speaks (some piece) = search (speaks_rules, send_spawn-Speaks) depth 14

  spawn_vm-Speaks : Speaks id (spawn_vm e source)
  unfolding spawn_vm
  spawn_vm-Speaks = search (speaks_rules, spawn_piece-Speaks)

  handle-if :
      (b : Bool) (m : Exec (Sys e) (Unit {0})) (o : Option (Exec (Sys e) (Unit {0})))
      → Speaks id m
      → Speaks id (handle e source o)
      → Speaks id (handle e source (if b then some m else o))
  unfolding handle
  handle-if true m o h k = Speaks-then id m true h
  handle-if false m o h k = k

  handle-none : Speaks id (handle e source none)
  unfolding handle
  handle-none = search speaks_rules

  handler-Speaks : HasWords e → (code : ℕ) → Speaks id (handle e source (handler e source code))
  unfolding handler
  handler-Speaks w code =
      search
        (
          handle-if, handle-none, current_cycles-Speaks, load_cell_data_as_code-Speaks,
          load_cell_data-Speaks, debug-Speaks, spawn_vm-Speaks, join-Speaks, instance_id-Speaks,
          pipe-Speaks, write_to_pipe-Speaks, read_from_pipe-Speaks,
        )
        depth 14

  ecall-Speaks : HasWords e → Speaks id (ecall e source)
  unfolding ecall
  ecall-Speaks w = search (speaks_rules, handler-Speaks)

-- A system call keeps the id of its VM and leaves the message box as it was, or adds one message at
-- its end; then the message names the calling VM as its sender, a read is on a read end, a write is on
-- a write end and of a length below 2^64, and the call returns the error that yields control.
pub ecall-says :
    (e : Engine) (source : Source) (w : HasWords e) (s : Sys e)
    → let after = ecall e source s in
      (after.1.0.context.id ≡ s.0.context.id)
      × ((after.1.0.message_box ≡ s.0.message_box)
          ⊎ ((msg : Message) × (after.1.0.message_box ≡ s.0.message_box ++ msg ∷ [])
              × (sender msg ≡ s.0.context.id)
              × IsChecked msg
              × (after.0 ≡ err (external "YIELD"))))
ecall-says e source w s = (ecall-Speaks e source s.0.context.id w).at s refl
