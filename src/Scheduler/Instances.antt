-- ===== src/Scheduler/Instances.antt =====
-- src/lib.rs: which VMs are instantiated (`resume_vm`, `suspend_vm`, `ensure_vms_instantiated`,
-- `boot_vm`, `create_dummy_vm`).
pub mod Steady
pub mod Placement
pub mod Exchange
pub mod Ensure
pub mod Course
pub mod Carry
pub mod Boot
use ckb_vm_deterministic_sch.Prelude.{
  ℕ, zero, suc, not, Option, none, some, List, [], ◌∷◌, reverse, leb, ltb, if◌then◌else◌, add64,
  length, mem, keep_if,
}
use ckb_vm_deterministic_sch.Outcome.{
  Outcome, ok, err, panic, diverge, unexpected, too_many, not_suspended, not_instantiated,
  select_version_failed, Exec, pure, lift, raise, gets, modify, assert, unwrap, ◌>>=◌, ◌>>◌,
}
use ckb_vm_deterministic_sch.Table.{lookup, contains, insert, remove, keys, first_key}
use ckb_vm_deterministic_sch.Types.{Bytes, runnable}
use ckb_vm_deterministic_sch.Types.Piece.{DataPieceId}
use ckb_vm_deterministic_sch.Engine.{Engine, Source, ScriptVersion, v1, v2}
use ckb_vm_deterministic_sch.Syscalls.{transferred_byte_cycles}
use ckb_vm_deterministic_sch.Syscalls.Access.{new_context}
use ckb_vm_deterministic_sch.Scheduler.State.{State, Vm, max_instantiated_vms}

-- The spawn of ckb-script is left out.
abbrev pub syscalls_version : ScriptVersion → ScriptVersion
syscalls_version v2 = v1
syscalls_version v = v

abbrev settle : {A X : Type 0} → Outcome A × X → Outcome X
settle (ok _, y) = ok y
settle (err z, y) = err z
settle (panic, y) = panic
settle (diverge, y) = diverge

-- An operation on a VM that is dropped if it fails.
unfoldable pub build : {A X : Type 0} → Exec X A → X → Outcome X
build m x = settle (m x)

module _ (e : Engine) where
  create_vm : ℕ → Option ScriptVersion → Outcome (Vm e)
  create_vm id none = err (unexpected select_version_failed)
  create_vm id (some version) =
      ok (new_context e id, e.new_machine version (syscalls_version version))

  unfoldable pub create_dummy_vm : ℕ → Outcome (Vm e)
  unfolding create_vm
  create_dummy_vm id = create_vm id e.select_version

  -- the snapshot context and the machine of a VM
  unfoldable pub on_tracked : {A : Type 0} → Exec (e.Tracker × e.Machine) A → Exec (Vm e) A
  on_tracked m (c, mac) = let (r, t) = m (c.tracker, mac) in (r, (record c { tracker = t.0 }, t.1))

  unfoldable pub on_second : {A : Type 0} → Exec e.Machine A → Exec (e.Tracker × e.Machine) A
  on_second m (t, mac) = let (r, mac') = m mac in (r, (t, mac'))

  unfoldable pub take_snapshot : Exec (Vm e) e.Snapshot
  take_snapshot (c, mac) = let (r, mac') = e.make_snapshot c.tracker mac in (r, (c, mac'))

  keep_snapshot : ℕ → Outcome e.Snapshot × Vm e → Exec (State e) (Unit {0})
  keep_snapshot id (ok snapshot, vm) s = (
    ok tt,
    record s {
      suspended = insert id snapshot s.suspended;
      instantiated = remove id s.instantiated;
    },
  )
  keep_snapshot id (err x, vm) s = (err x, record s { instantiated = insert id vm s.instantiated })
  keep_snapshot id (panic, vm) s = (panic, s)
  keep_snapshot id (diverge, vm) s = (diverge, s)

  suspend_found : ℕ → Option (Vm e) → Exec (State e) (Unit {0})
  unfolding keep_snapshot
  suspend_found id none = raise (unexpected (not_instantiated id))
  suspend_found id (some vm) = keep_snapshot id (take_snapshot vm)

  unfoldable pub suspend_vm : ℕ → Exec (State e) (Unit {0})
  unfolding suspend_found
  suspend_vm id s = suspend_found id (lookup id s.instantiated) s

  -- `while self.instantiated.len() >= MAX_INSTANTIATED_VMS` of `boot_vm`
  unfoldable pub make_room : ℕ → Exec (State e) (Unit {0})
  make_room zero = lift diverge
  make_room (suc fuel) = do
    size ← gets (λ s. length s.instantiated)
    let rest = make_room fuel
    if leb max_instantiated_vms size
        then (do
          first ← gets (λ s. first_key s.instantiated)
          id ← unwrap first
          suspend_vm id
          rest)
        else pure tt

module _ (e : Engine) (source : Source) where
  resume_found : ℕ → Option e.Snapshot → Exec (State e) (Unit {0})
  resume_found id none = raise (unexpected (not_suspended id))
  resume_found id (some snapshot) = do
    vm ← lift (create_dummy_vm e id)
    resumed ← lift (build (on_tracked e (e.resume source snapshot)) vm)
    modify λ s. record s {
      instantiated = insert id resumed s.instantiated;
      suspended = remove id s.suspended;
    }

  unfoldable pub resume_vm : ℕ → Exec (State e) (Unit {0})
  unfolding resume_found
  resume_vm id s = resume_found id (lookup id s.suspended) s

  -- `while !uninstantiated_ids.is_empty() && self.instantiated.len() < MAX_INSTANTIATED_VMS`, over
  -- the ids in the order of `pop`; what is left comes back.
  unfoldable pub fill : List ℕ → Exec (State e) (List ℕ)
  fill [] = pure []
  fill (id ∷ ids) = do
    size ← gets (λ s. length s.instantiated)
    let rest = fill ids
    if ltb size max_instantiated_vms then (do resume_vm id; rest) else pure (id ∷ ids)

  -- `for i in 0..uninstantiated_ids.len()`
  unfoldable pub exchange : List ℕ → List ℕ → Exec (State e) (Unit {0})
  exchange suspendable [] = pure tt
  exchange [] (id ∷ ids) = lift panic
  exchange (victim ∷ suspendable) (id ∷ ids) = do
    suspend_vm e victim
    resume_vm id
    exchange suspendable ids

  make_instances : List ℕ → List ℕ → Exec (State e) (Unit {0})
  make_instances ids [] = pure tt
  make_instances ids (id ∷ left) = do
    suspendable ← gets (λ s. keep_if (λ k. not (mem k ids)) (keys s.instantiated))
    assert (leb (length (id ∷ left)) (length suspendable))
    exchange suspendable (reverse (id ∷ left))

  instantiate : List ℕ → Exec (State e) (Unit {0})
  unfolding make_instances
  instantiate ids = do
    uninstantiated ← gets (λ s. keep_if (λ k. not (contains k s.instantiated)) ids)
    left ← fill (reverse uninstantiated)
    make_instances ids left

  unfoldable pub ensure_vms_instantiated : List ℕ → Exec (State e) (Unit {0})
  unfolding instantiate
  ensure_vms_instantiated ids =
      if ltb max_instantiated_vms (length ids)
      then raise (unexpected (too_many (length ids)))
      else instantiate ids

  -- The program of a new VM is loaded, marked and charged for.
  unfoldable pub load_program :
      DataPieceId → ℕ → ℕ → List Bytes → Exec (e.Tracker × e.Machine) (Unit {0})
  load_program piece offset len args = do
    loaded ← lift (source piece offset len)
    mac ← gets (λ t. t.1)
    metadata ← lift (e.parse_elf loaded.0 mac)
    bytes ← on_second e (e.load_program_with_metadata loaded.0 metadata args)
    e.mark_program metadata piece offset
    on_second e (e.add_cycles_no_checking (transferred_byte_cycles bytes))

  unfoldable pub boot_vm : DataPieceId → ℕ → ℕ → List Bytes → Exec (State e) ℕ
  boot_vm piece offset len args = do
    size ← gets (λ s. length s.instantiated)
    make_room e (suc size)
    id ← gets (λ s. s.next_vm_id)
    modify (λ s. record s { next_vm_id = add64 s.next_vm_id 1 })
    vm ← lift (create_dummy_vm e id)
    booted ← lift (build (on_tracked e (load_program piece offset len args)) vm)
    modify λ s. record s {
      instantiated = insert id booted s.instantiated;
      states = insert id runnable s.states;
    }
    pure id
