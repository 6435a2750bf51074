-- ===== src/Syscalls/Returns.antt =====
-- Which system calls return: all but a `spawn` that reserves too much.
use ckb_vm_deterministic_sch.Syscalls.Text.{load_argv}
use ckb_vm_deterministic_sch.Syscalls.Access.{a0, a1, on_machine, Sys, a3, a7, reg}
use ckb_vm_deterministic_sch.Types.Piece.{try_from, DataPieceId}
use ckb_vm_deterministic_sch.Outcome.{bind_panic, panic, gets, assert, lift, Exec, pure, ◌>>=◌}
use ckb_vm_deterministic_sch.Prelude.{
  ℕ, ◌-◌, ◌*◌, ◌^◌, ◌≤◌, ◌<◌, ◌≡◌, refl, Bool, true, false, Option, none, some, ◌==◌, leb,
  if◌then◌else◌, arith,
}
use ckb_vm_deterministic_sch.Outcome.Ensures.{IsSettled}
use ckb_vm_deterministic_sch.Types.{Bytes, SpawnArgs}
use ckb_vm_deterministic_sch.Engine.{Engine, Source}
use ckb_vm_deterministic_sch.Engine.Laws.{IsTotal, IsServing, IsBounded}
use ckb_vm_deterministic_sch.Syscalls.{
  current_cycles, debug, join, instance_id, pipe, write_to_pipe, read_from_pipe, load_cell_data,
  load_cell_data_as_code, spawn_vm, handler, handle, ecall, load_piece, finish_load, load_code,
  place_code, spawn_piece, send_spawn,
}
use ckb_vm_deterministic_sch.Syscalls.Answers.{
  Settles, Settles-Returns, Settles-set_a0, load64-Settles, load_c_string-Settles,
  load_argv-Settles, load_pipes-Settles, continue-IsSettled, SettlesAt, at_state, at_reg,
  settles_rules,
}

module _ (e : Engine) (t : IsTotal e) (b : IsBounded e) where
  store64-Settles : (addr v : ℕ) → Settles (e.store64 addr v)
  store64-Settles addr v = Settles-Returns _ (t.store64 addr v)

  add_cycles-Settles : (c : ℕ) → Settles (e.add_cycles_no_checking c)
  add_cycles-Settles c = Settles-Returns _ (t.add_cycles_no_checking c)

  init_pages-Settles :
      (a size flags : ℕ) (bytes : Option Bytes) (offset : ℕ)
      → Settles (e.init_pages a size flags bytes offset)
  init_pages-Settles a size flags bytes offset =
      Settles-Returns _ (t.init_pages a size flags bytes offset)

  track_pages-Settles :
      (a size : ℕ) (piece : DataPieceId) (offset : ℕ) → Settles (e.track_pages a size piece offset)
  track_pages-Settles a size piece offset = Settles-Returns _ (t.track_pages a size piece offset)

  store_piece-Settles :
      (source : Source) (a : ℕ) (piece : DataPieceId) (offset size : ℕ)
      → Settles (e.store_piece source a piece offset size)
  store_piece-Settles source a piece offset size =
      Settles-Returns _ (t.store_piece source a piece offset size)

ruleset engine_rules = (
  settles_rules, store64-Settles, add_cycles-Settles, init_pages-Settles, track_pages-Settles,
  store_piece-Settles, load64-Settles, load_c_string-Settles, load_pipes-Settles,
)

module _ (e : Engine) (t : IsTotal e) (b : IsBounded e) where
  current_cycles-Settles : Settles (current_cycles e)
  unfolding current_cycles
  current_cycles-Settles = search engine_rules depth 9

  debug-Settles : Settles (debug e)
  unfolding debug
  debug-Settles = search engine_rules depth 9

  join-Settles : Settles (join e)
  unfolding join
  join-Settles = search engine_rules depth 9

  instance_id-Settles : Settles (instance_id e)
  unfolding instance_id
  instance_id-Settles = search engine_rules depth 9

  pipe-Settles : Settles (pipe e)
  unfolding pipe
  pipe-Settles = search engine_rules depth 9

  write_to_pipe-Settles : Settles (write_to_pipe e)
  unfolding write_to_pipe
  write_to_pipe-Settles = search engine_rules depth 12

  read_from_pipe-Settles : Settles (read_from_pipe e)
  unfolding read_from_pipe
  read_from_pipe-Settles = search engine_rules depth 12

module _ (e : Engine) (source : Source) (t : IsTotal e) (b : IsBounded e)
    (serving : IsServing source) where
  finish_load-Settles :
      (addr : ℕ) (sizes : Option (ℕ × ℕ)) → Settles (finish_load e source addr sizes)
  unfolding finish_load
  finish_load-Settles addr none = search engine_rules
  finish_load-Settles addr (some _) = search engine_rules depth 9

  load_piece-Settles : (o : Option DataPieceId) → Settles (load_piece e source o)
  unfolding load_piece
  load_piece-Settles none = search engine_rules
  load_piece-Settles (some piece) = search (engine_rules, finish_load-Settles) depth 14

  load_cell_data-Settles : Settles (load_cell_data e source)
  unfolding load_cell_data
  load_cell_data-Settles = search (engine_rules, load_piece-Settles)

  place_code-Settles :
      (piece : DataPieceId) (addr memory_size offset size : ℕ) (cell : Option (Bytes × ℕ))
      → Settles (place_code e source piece addr memory_size offset size cell)
  unfolding place_code
  place_code-Settles piece addr memory_size offset size none = search engine_rules
  place_code-Settles piece addr memory_size offset size (some _) = search engine_rules depth 14

  load_code-Settles : (o : Option DataPieceId) → Settles (load_code e source o)
  unfolding load_code
  load_code-Settles none = search engine_rules
  load_code-Settles (some piece) = search (engine_rules, place_code-Settles, serving) depth 14

  load_cell_data_as_code-Settles : Settles (load_cell_data_as_code e source)
  unfolding load_cell_data_as_code
  load_cell_data_as_code-Settles = search (engine_rules, load_code-Settles)

  send_spawn-Settles :
      (args : SpawnArgs) (cell : Option (Bytes × ℕ)) → Settles (send_spawn e source args cell)
  unfolding send_spawn
  send_spawn-Settles args none = search engine_rules
  send_spawn-Settles args (some _) = search engine_rules depth 14

-- The reservation of `spawn` for its arguments fits.
abbrev pub IsReserved : {e : Engine} → Sys e → Type 0
IsReserved {e} s = e.register s.1 a3 * e.bytes_size < 2 ^ 63

module _ (e : Engine) (source : Source) (t : IsTotal e) (b : IsBounded e)
    (serving : IsServing source) where
  spawn_piece-IsSettled :
      (o : Option DataPieceId) (s : Sys e) → IsReserved s → SettlesAt s (spawn_piece e source o)
  unfolding spawn_piece
  spawn_piece-IsSettled none s small = at_state s _ (Settles-set_a0 _)
  spawn_piece-IsSettled (some piece) s small =
      let fits : leb (e.register s.1 a3 * e.bytes_size) (2 ^ 63 - 1) ≡ true = ground arith in
      at_reg s _ _ (
        at_reg s _ _ (
          at_state s _
            (search (engine_rules, send_spawn-Settles, load_argv-Settles, serving) depth 20)))

  spawn_vm-IsSettled : (s : Sys e) → IsReserved s → SettlesAt s (spawn_vm e source)
  unfolding spawn_vm
  spawn_vm-IsSettled s small = at_reg s _ _ (at_reg s _ _ (spawn_piece-IsSettled _ s small))

  spawn_case :
      (code : ℕ) (s : Sys e)
      → (code ≡ 2601 → IsReserved s)
      → (code == 2601) ≡ true
      → SettlesAt s (spawn_vm e source)
  spawn_case code s small h =
      let same : code ≡ 2601 = ground (arith, h) in spawn_vm-IsSettled s (small same)

  -- `handle` adds nothing that could fail to return.
  handle-some :
      (m : Exec (Sys e) (Unit {0})) (s : Sys e)
      → SettlesAt s m
      → SettlesAt s (handle e source (some m))
  unfolding handle ◌>>=◌ pure
  handle-some m s h = record { at = continue-IsSettled (m s) _ h.at (λ _ _. tt) }

  handle-none : (s : Sys e) → SettlesAt s (handle e source none)
  unfolding handle pure
  handle-none s = record { at = tt }

  handle_if :
      (b : Bool) (m : Exec (Sys e) (Unit {0})) (o : Option (Exec (Sys e) (Unit {0}))) (s : Sys e)
      → (b ≡ true → SettlesAt s m)
      → SettlesAt s (handle e source o)
      → SettlesAt s (handle e source (if b then some m else o))
  handle_if true m o s h k = handle-some m s (h refl)
  handle_if false m o s h k = k

  handler_lem :
      (code : ℕ) (s : Sys e)
      → (code ≡ 2601 → IsReserved s)
      → SettlesAt s (handle e source (handler e source code))
  unfolding handler
  handler_lem code s small =
      let spawns = spawn_case code s small in
      search
        (
          handle_if, handle-none, at_state, spawns, current_cycles-Settles,
          load_cell_data_as_code-Settles, load_cell_data-Settles, debug-Settles, join-Settles,
          instance_id-Settles, pipe-Settles, write_to_pipe-Settles, read_from_pipe-Settles,
        )
        depth 14

  -- A system call returns, with a value or an error: its loops over guest memory end, and nothing
  -- panics. A spawn has to ask for so few arguments that their vector takes less than 2^63 bytes.
  pub ecall-IsSettled :
      (s : Sys e) → (e.register s.1 a7 ≡ 2601 → IsReserved s) → IsSettled (ecall e source s).0
  unfolding ecall
  ecall-IsSettled s small = (at_reg s _ _ (handler_lem _ s small)).at

-- A panic inside stays one.
reg_panic :
    {e : Engine} {A : Type 0} (s : Sys e) (i : ℕ) (f : ℕ → Exec (Sys e) A)
    → (f (e.register s.1 i) s).0 ≡ panic
    → ((reg e i >>= f) s).0 ≡ panic
unfolding ◌>>=◌ reg gets
reg_panic s i f h = h

module _ (e : Engine) (source : Source) where
  load_argv_panic :
      (argc addr : ℕ) (s : Sys e)
      → 2 ^ 63 ≤ argc * e.bytes_size
      → (on_machine e (load_argv e argc addr) s).0 ≡ panic
  unfolding on_machine load_argv assert ◌>>=◌ lift
  load_argv_panic argc addr s big = ground arith

  spawn_piece_panic :
      (piece : DataPieceId) (s : Sys e)
      → 2 ^ 63 ≤ e.register s.1 a3 * e.bytes_size
      → (spawn_piece e source (some piece) s).0 ≡ panic
  unfolding spawn_piece
  spawn_piece_panic piece s big =
      reg_panic s _ _
        (reg_panic s _ _ (reg_panic s _ _ (bind_panic _ _ s (load_argv_panic _ _ s big))))

  -- A guest that spawns a cell that can be named, with so many arguments that their vector would take
  -- 2^63 bytes or more, makes the system call panic, whatever stands in its memory.
  pub ecall_overflow :
      (s : Sys e) (piece : DataPieceId)
      → e.register s.1 a7 ≡ 2601
      → try_from (e.register s.1 a1) (e.register s.1 a0) ≡ some piece
      → 2 ^ 63 ≤ e.register s.1 a3 * e.bytes_size
      → (ecall e source s).0 ≡ panic
  unfolding ecall handler handle spawn_vm
  ecall_overflow s piece code found big = reg_panic s _ _ (
      rw code (
        bind_panic _ _ s
          (reg_panic s _ _ (reg_panic s _ _ (rw found (spawn_piece_panic piece s big))))))
