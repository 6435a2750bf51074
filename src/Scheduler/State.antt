-- ===== src/Scheduler/State.antt =====
-- `Scheduler` of src/lib.rs: the state, and the ways to reach a VM of it.
use ckb_vm_deterministic_sch.Prelude.{ℕ, Bool, true, false, Option, none, some, List, [], ◌==◌}
use ckb_vm_deterministic_sch.Outcome.{panic, Exec, modify, ◌>>=◌, ◌>>◌}
use ckb_vm_deterministic_sch.Table.{Table, lookup, insert}
use ckb_vm_deterministic_sch.Types.{VmState, terminated, Message, first_vm_id}
use ckb_vm_deterministic_sch.Types.Pipe.{first_pipe_slot}
use ckb_vm_deterministic_sch.Engine.{Engine}
use ckb_vm_deterministic_sch.Syscalls.Access.{Context}

abbrev pub root_vm_id : ℕ
root_vm_id = first_vm_id

abbrev pub max_instantiated_vms : ℕ
max_instantiated_vms = 4

-- `(MachineContext<DL>, AsmMachine)`
abbrev pub Vm : Engine → Type 0
Vm e = Context e × e.Machine

-- `tx_data` and `verifier` do not change and are parameters of the operations.
pub record State (e : Engine) : Type 0 where
  pub total_cycles : ℕ
  pub next_vm_id : ℕ
  pub next_pipe_slot : ℕ
  pub states : Table VmState
  pub pipes : Table ℕ
  pub instantiated : Table (Vm e)
  pub suspended : Table e.Snapshot
  pub terminated_vms : Table ℕ
  pub message_box : List Message

-- `Scheduler::new`
unfoldable pub new : (e : Engine) → State e
new e = record {
  total_cycles = 0;
  next_vm_id = first_vm_id;
  next_pipe_slot = first_pipe_slot;
  states = [];
  pipes = [];
  instantiated = [];
  suspended = [];
  terminated_vms = [];
  message_box = [];
}

-- `self.pipes.contains_key(pipe) && self.pipes[pipe] == vm_id`
abbrev pub is_owner : ℕ → Option ℕ → Bool
is_owner vm_id none = false
is_owner vm_id (some owner) = owner == vm_id

abbrev pub is_terminated : VmState → Bool
is_terminated terminated = true
is_terminated _ = false

module _ (e : Engine) where
  -- an operation on the machine of a VM
  unfoldable pub on_machine : {A : Type 0} → Exec e.Machine A → Exec (Vm e) A
  on_machine m (c, mac) = let (r, mac') = m mac in (r, (c, mac'))

  pub at_vm : {A : Type 0} → ℕ → Exec (Vm e) A → Option (Vm e) → Exec (State e) A
  at_vm id m none s = (panic, s)
  at_vm id m (some vm) s =
      let (r, vm') = m vm in (r, record s { instantiated = insert id vm' s.instantiated })

  -- `self.instantiated.get_mut(&id).unwrap()`, and an operation on what is there
  unfoldable pub with_vm : {A : Type 0} → ℕ → Exec (Vm e) A → Exec (State e) A
  unfolding at_vm
  with_vm id m s = at_vm id m (lookup id s.instantiated) s

  -- `machine.set_register(A0, code)`
  unfoldable pub set_a0 : ℕ → Exec (Vm e) (Unit {0})
  unfolding on_machine modify
  set_a0 code = on_machine (modify (e.set_register 10 code))

  -- `memory_mut().store8(..)?` or `store64(..)?`, and then success in A0
  unfoldable pub store8_success : ℕ → ℕ → Exec (Vm e) (Unit {0})
  unfolding on_machine ◌>>=◌
  store8_success addr value = do on_machine (e.store8 addr value); set_a0 0

  unfoldable pub store64_success : ℕ → ℕ → Exec (Vm e) (Unit {0})
  unfolding on_machine ◌>>=◌
  store64_success addr value = do on_machine (e.store64 addr value); set_a0 0

  -- `self.states.insert(id, state)`
  unfoldable pub set_state : ℕ → VmState → Exec (State e) (Unit {0})
  unfolding modify
  set_state id state = modify (λ s. record s { states = insert id state s.states })
