-- ===== src/Scheduler/Messages/Every.antt =====
-- Every message of a running VM keeps the scheduler valid.
use ckb_vm_deterministic_sch.Prelude.{◌+◌, ◌<◌, ◌≡◌, ap, some, arith, u64_mod, is_some}
use ckb_vm_deterministic_sch.Outcome.Ensures.{Ends-weaken}
use ckb_vm_deterministic_sch.Table.{lookup}
use ckb_vm_deterministic_sch.Types.{
  runnable, Message, spawn, join_vm, create_pipe, pipe_read, pipe_write,
}
use ckb_vm_deterministic_sch.Engine.{Engine, Source}
use ckb_vm_deterministic_sch.Engine.Laws.{IsTotal, IsServing}
use ckb_vm_deterministic_sch.Syscalls.Speech.{sender, IsChecked}
use ckb_vm_deterministic_sch.Scheduler.State.{State}
use ckb_vm_deterministic_sch.Scheduler.Messages.{process_message}
use ckb_vm_deterministic_sch.Scheduler.Messages.Keeps.{
  KeepsValid, process_join-KeepsValid, process_pipe_io-KeepsValid,
}
use ckb_vm_deterministic_sch.Scheduler.Messages.Pipes.{process_spawn_lem, process_pipe_lem}
use ckb_vm_deterministic_sch.Scheduler.Valid.{IsValid}

-- There are ids left for a VM and for a pipe.
pub record HasRoom {e : Engine} (s : State e) : Type 0 where
  pub for_vm : s.next_vm_id + 1 < u64_mod
  pub for_pipe : s.next_pipe_slot + 2 < u64_mod

module _ (e : Engine) (source : Source) (t : IsTotal e) (serving : IsServing source) where
  -- In a valid state with ids left for a VM and for a pipe, a message of a runnable VM that its
  -- syscall has checked is handled without a panic, and the state is valid afterwards, also after
  -- an error.
  pub process_message-KeepsValid :
      (m : Message) (s : State e)
      → IsValid s
      → HasRoom s
      → IsChecked m
      → lookup (sender m) s.states ≡ some runnable
      → KeepsValid (process_message e source m s)
  unfolding process_message
  process_message-KeepsValid (spawn id args) s v room c ready =
      Ends-weaken _ (process_spawn_lem e source t serving id args s v ready room.for_vm)
        (λ _ s' h. h.0.valid) (λ s' h. h)
  process_message-KeepsValid (join_vm id args) s v room c ready =
      process_join-KeepsValid e source t id args s v (ap is_some ready)
  process_message-KeepsValid (create_pipe id args) s v room c ready =
      Ends-weaken _ (process_pipe_lem e source t id args s v (ap is_some ready) room.for_pipe)
        (λ _ s' h. h.valid) (λ s' h. h)
  process_message-KeepsValid (pipe_read id args) s v room c ready =
      process_pipe_io-KeepsValid e source t id _ _ s v (ap is_some ready) (λ own. (own, c))
  process_message-KeepsValid (pipe_write id args) s v room c ready =
      process_pipe_io-KeepsValid e source t id _ _ s v (ap is_some ready)
        (λ own. (own, c.0, omega arith, c.1))
