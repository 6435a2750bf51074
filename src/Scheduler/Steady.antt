-- ===== src/Scheduler/Steady.antt =====
-- Messages leave the cycles, the exit codes and the message box alone, and pending reads and
-- writes also the counters.
use ckb_vm_deterministic_sch.Types.Piece.{DataPieceId}
use ckb_vm_deterministic_sch.Types.{
  Bytes, VmState, runnable, terminated, join, wait_for_read, wait_for_write, Message, spawn,
  join_vm, create_pipe, pipe_read, pipe_write, SpawnArgs, JoinArgs, PipeArgs,
}
use ckb_vm_deterministic_sch.Prelude.{suc, ℕ, ◌≡◌, refl, Option, none, some, List, [], ◌∷◌, ◌==◌}
use ckb_vm_deterministic_sch.Outcome.{Exec}
use ckb_vm_deterministic_sch.Table.{Table, lookup}
use ckb_vm_deterministic_sch.Engine.{Engine, Source}
use ckb_vm_deterministic_sch.Scheduler.State.{State, Vm, at_vm, with_vm, set_state}
use ckb_vm_deterministic_sch.Scheduler.Frame.{
  Leaves, Leaves-pure, Leaves-bind, Leaves-then, Leaves-gets, Leaves-if, Leaves-cases, Leaves-lift,
  Leaves-raise, Leaves-modify, Leaves-unwrap, Leaves-of,
}
use ckb_vm_deterministic_sch.Scheduler.Instances.{boot_vm}
use ckb_vm_deterministic_sch.Scheduler.Instances.Steady.{
  Counters, counters, make_room-Leaves, ensure_vms_instantiated-Leaves,
}
use ckb_vm_deterministic_sch.Scheduler.Messages.{
  visit_vm, check_owned, move_pipes, add_pipes, process_spawn, process_join, process_pipe,
  process_pipe_io, process_message,
}
use ckb_vm_deterministic_sch.Scheduler.Io.{
  Pair, finish_closed, finish_all_closed, copy_bytes, update_writer, transfer, transfer_all,
  process_io,
}

-- the cycles, the exit codes and the message box
abbrev pub kept_of : Counters → ℕ × Table ℕ × List Message
kept_of c = (c.0, c.3, c.4)

abbrev pub kept : (e : Engine) → State e → ℕ × Table ℕ × List Message
kept e s = kept_of (counters e s)

module _ (e : Engine) where
  at_vm-counters :
      {A : Type 0} (id : ℕ) (m : Exec (Vm e) A) (o : Option (Vm e)) (s : State e)
      → counters e (at_vm e id m o s).1 ≡ counters e s
  unfolding with_vm
  at_vm-counters id m none s = refl
  at_vm-counters id m (some vm) s = refl

  with_vm-Leaves : {A : Type 0} (id : ℕ) (m : Exec (Vm e) A) → Leaves (counters e) (with_vm e id m)
  unfolding with_vm
  with_vm-Leaves id m = record { at = λ s. at_vm-counters id m (lookup id s.instantiated) s }

  pub set_state-Leaves : (id : ℕ) (st : VmState) → Leaves (counters e) (set_state e id st)
  unfolding set_state
  set_state-Leaves id st = record { at = λ s. refl }

  check_owned-Leaves : (id : ℕ) (l : List ℕ) → Leaves (kept e) (check_owned e id l)
  unfolding check_owned
  check_owned-Leaves id [] = Leaves-pure _ _
  check_owned-Leaves id (p ∷ l) =
      Leaves-bind _ _ _ (Leaves-gets _ _)
        λ b. Leaves-if _ b _ _ (check_owned-Leaves id l) (Leaves-raise _ _)

  move_pipes-Leaves : (id : ℕ) (l : List ℕ) → Leaves (kept e) (move_pipes e id l)
  unfolding move_pipes
  move_pipes-Leaves id [] = Leaves-pure _ _
  move_pipes-Leaves id (p ∷ l) =
      Leaves-then _ _ _ (Leaves-modify _ _ λ s. refl) (move_pipes-Leaves id l)

  add_pipes-Leaves : (id : ℕ) → Leaves (kept e) (add_pipes e id)
  unfolding add_pipes
  add_pipes-Leaves id =
      Leaves-bind _ _ _ (Leaves-gets _ _)
        λ slot. Leaves-then _ _ _ (Leaves-modify _ _ λ s. refl) (Leaves-pure _ _)

  finish_closed-Leaves : (id : ℕ) (st : VmState) → Leaves (counters e) (finish_closed e id st)
  unfolding finish_closed
  finish_closed-Leaves id (wait_for_read p l b a) =
      Leaves-then _ _ _ (with_vm-Leaves id _) (set_state-Leaves id _)
  finish_closed-Leaves id (wait_for_write p c l b a) =
      Leaves-then _ _ _ (with_vm-Leaves id _) (set_state-Leaves id _)
  finish_closed-Leaves id runnable = Leaves-pure _ _
  finish_closed-Leaves id terminated = Leaves-pure _ _
  finish_closed-Leaves id (join _ _) = Leaves-pure _ _

  finish_all_closed-Leaves : (l : List ℕ) → Leaves (counters e) (finish_all_closed e l)
  unfolding finish_all_closed
  finish_all_closed-Leaves [] = Leaves-pure _ _
  finish_all_closed-Leaves (id ∷ l) = Leaves-bind _ _ _ (Leaves-gets _ _) λ found.
      Leaves-bind _ _ _ (Leaves-unwrap _ found)
        λ st. Leaves-then _ _ _ (finish_closed-Leaves id st) (finish_all_closed-Leaves l)

  copy_bytes-Leaves : (r a w b n : ℕ) → Leaves (counters e) (copy_bytes e r a w b n)
  unfolding copy_bytes
  copy_bytes-Leaves r a w b n = Leaves-bind _ _ _ (with_vm-Leaves w _) λ bytes. with_vm-Leaves r _

  update_writer-Leaves : (w p c l b a : ℕ) → Leaves (counters e) (update_writer e w p c l b a)
  unfolding update_writer
  update_writer-Leaves w p c l b a =
      Leaves-if _ (c == l) _ _ (Leaves-then _ _ _ (with_vm-Leaves w _) (set_state-Leaves w _))
        (set_state-Leaves w _)

module _ (e : Engine) (source : Source) where
  pub visit_vm-Leaves :
      (id : ℕ) (m : Exec (Vm e) (Unit {0})) → Leaves (counters e) (visit_vm e source id m)
  unfolding visit_vm
  visit_vm-Leaves id m =
      Leaves-then _ _ _ (ensure_vms_instantiated-Leaves e source _) (with_vm-Leaves e id m)

  visit-kept : (id : ℕ) (m : Exec (Vm e) (Unit {0})) → Leaves (kept e) (visit_vm e source id m)
  visit-kept id m = Leaves-of (counters e) kept_of _ (visit_vm-Leaves id m)

  state-kept : (id : ℕ) (st : VmState) → Leaves (kept e) (set_state e id st)
  state-kept id st = Leaves-of (counters e) kept_of _ (set_state-Leaves e id st)

  pub boot_vm-kept :
      (piece : DataPieceId) (offset len : ℕ) (args : List Bytes)
      → Leaves (kept e) (boot_vm e source piece offset len args)
  unfolding boot_vm
  boot_vm-kept piece offset len args = Leaves-bind _ _ _ (Leaves-gets _ _) λ size.
      Leaves-then _ _ _ (Leaves-of (counters e) kept_of _ (make_room-Leaves e (suc size))) (
        Leaves-bind _ _ _ (Leaves-gets _ _) λ id. Leaves-then _ _ _ (Leaves-modify _ _ λ s. refl) (
          Leaves-bind _ _ _ (Leaves-lift _ _) λ vm.
            Leaves-bind _ _ _ (Leaves-lift _ _)
              λ booted. Leaves-then _ _ _ (Leaves-modify _ _ λ s. refl) (Leaves-pure _ _)))

  process_spawn-kept :
      (id : ℕ) (args : SpawnArgs) → Leaves (kept e) (process_spawn e source id args)
  unfolding process_spawn
  process_spawn-kept id args = Leaves-then _ _ _ (check_owned-Leaves e id _) (
      Leaves-bind _ _ _ (boot_vm-kept _ _ _ _)
        λ spawned. Leaves-then _ _ _ (move_pipes-Leaves e spawned _) (visit-kept id _))

  process_join-kept : (id : ℕ) (args : JoinArgs) → Leaves (kept e) (process_join e source id args)
  unfolding process_join
  process_join-kept id args = Leaves-bind _ _ _ (Leaves-gets _ _) λ finished.
      Leaves-bind _ _ _ (Leaves-gets _ _) λ running.
        Leaves-cases _ finished _ _ (λ code. Leaves-then _ _ _ (visit-kept id _) (state-kept id _))
          (Leaves-if _ running _ _ (state-kept id _) (visit-kept id _))

  process_pipe-kept : (id : ℕ) (args : PipeArgs) → Leaves (kept e) (process_pipe e source id args)
  unfolding process_pipe
  process_pipe-kept id args = Leaves-bind _ _ _ (add_pipes-Leaves e id) λ pair. visit-kept id _

  process_pipe_io-kept :
      (id pipe : ℕ) (st : VmState) → Leaves (kept e) (process_pipe_io e source id pipe st)
  unfolding process_pipe_io
  process_pipe_io-kept id pipe st = Leaves-bind _ _ _ (Leaves-gets _ _) λ owned.
      Leaves-bind _ _ _ (Leaves-gets _ _) λ connected.
        Leaves-if _ owned _ _ (Leaves-if _ connected _ _ (state-kept id st) (visit-kept id _))
          (visit-kept id _)

  pub process_message-kept : (m : Message) → Leaves (kept e) (process_message e source m)
  unfolding process_message
  process_message-kept (spawn id args) = process_spawn-kept id args
  process_message-kept (join_vm id args) = process_join-kept id args
  process_message-kept (create_pipe id args) = process_pipe-kept id args
  process_message-kept (pipe_read id args) = process_pipe_io-kept id _ _
  process_message-kept (pipe_write id args) = process_pipe_io-kept id _ _

  transfer-Leaves :
      (r : ℕ) (a : VmState) (w : ℕ) (b : VmState) → Leaves (counters e) (transfer e source r a w b)
  unfolding transfer
  transfer-Leaves r (wait_for_read _ n to addr) w (wait_for_write pipe c l from length_addr) =
      Leaves-then _ _ _ (ensure_vms_instantiated-Leaves e source _) (
        Leaves-then _ _ _ (copy_bytes-Leaves e r to w _ _) (
          Leaves-then _ _ _ (with_vm-Leaves e r _) (
            Leaves-then _ _ _ (set_state-Leaves e r runnable)
              (update_writer-Leaves e w pipe _ l from length_addr))))
  transfer-Leaves r _ w _ = Leaves-lift _ _

  transfer_all-Leaves : (pairs : List Pair) → Leaves (counters e) (transfer_all e source pairs)
  unfolding transfer_all
  transfer_all-Leaves [] = Leaves-pure _ _
  transfer_all-Leaves (p ∷ pairs) =
      Leaves-then _ _ _ (transfer-Leaves p.read_vm_id p.read_state p.write_vm_id p.write_state)
        (transfer_all-Leaves pairs)

  pub process_io-Leaves : Leaves (counters e) (process_io e source)
  unfolding process_io
  process_io-Leaves = Leaves-bind _ _ _ (Leaves-gets _ _) λ states.
      Leaves-bind _ _ _ (Leaves-gets _ _)
        λ pipes. Leaves-then _ _ _ (finish_all_closed-Leaves e _) (transfer_all-Leaves _)
