-- ===== src/Scheduler/Suspend.antt =====
-- `suspend` and `resume` of src/lib.rs: the whole scheduler as a serializable value, and back.
pub mod Whole
pub mod Finished
use ckb_vm_deterministic_sch.Prelude.{ℕ, List, [], ◌∷◌, map}
use ckb_vm_deterministic_sch.Outcome.{Exec, pure, gets, modify, unwrap, ◌>>=◌, ◌>>◌}
use ckb_vm_deterministic_sch.Table.{lookup, remove, keys, collect}
use ckb_vm_deterministic_sch.Types.{VmState, FullSuspendedState}
use ckb_vm_deterministic_sch.Engine.{Engine}
use ckb_vm_deterministic_sch.Scheduler.State.{State}
use ckb_vm_deterministic_sch.Scheduler.Instances.{suspend_vm}

module _ (e : Engine) where
  unfoldable pub suspend_all : List ℕ → Exec (State e) (Unit {0})
  suspend_all [] = pure tt
  suspend_all (id ∷ ids) = do suspend_vm e id; suspend_all ids

  -- `for (id, state) in self.states`
  unfoldable pub collect_vms : List (ℕ × VmState) → Exec (State e) (List (ℕ × VmState × e.Snapshot))
  collect_vms [] = pure []
  collect_vms ((id, state) ∷ states) = do
    found ← gets (λ s. lookup id s.suspended)
    snapshot ← unwrap found
    modify (λ s. record s { suspended = remove id s.suspended })
    vms ← collect_vms states
    pure ((id, state, snapshot) ∷ vms)

  unfoldable pub suspend : Exec (State e) (FullSuspendedState e.Snapshot)
  suspend = do
    ids ← gets (λ s. keys s.instantiated)
    suspend_all ids
    states ← gets (λ s. s.states)
    vms ← collect_vms states
    gets λ s. record {
      total_cycles = s.total_cycles;
      next_vm_id = s.next_vm_id;
      next_pipe_slot = s.next_pipe_slot;
      vms = vms;
      pipes = s.pipes;
      terminated_vms = s.terminated_vms;
    }

  unfoldable pub resume : FullSuspendedState e.Snapshot → State e
  resume full = record {
    total_cycles = full.total_cycles;
    next_vm_id = full.next_vm_id;
    next_pipe_slot = full.next_pipe_slot;
    states = collect (map (λ v. (v.0, v.1)) full.vms) [];
    pipes = collect full.pipes [];
    instantiated = [];
    suspended = collect (map (λ v. (v.0, v.2)) full.vms) [];
    terminated_vms = collect full.terminated_vms [];
    message_box = [];
  }
