-- ===== src/Scheduler/Instances/Steady.antt =====
-- Moving VMs leaves the counters, the exit codes and the message box alone.
use ckb_vm_deterministic_sch.Prelude.{ℕ, zero, suc, ◌≡◌, refl, Option, none, some, List, [], ◌∷◌}
use ckb_vm_deterministic_sch.Outcome.{Outcome, ok, err, panic, diverge}
use ckb_vm_deterministic_sch.Table.{Table, lookup}
use ckb_vm_deterministic_sch.Types.{Message, VmState}
use ckb_vm_deterministic_sch.Engine.{Engine, Source}
use ckb_vm_deterministic_sch.Scheduler.Frame.{
  Leaves, Leaves-if, Leaves-then, Leaves-unwrap, Leaves-pure, Leaves-modify, Leaves-bind,
  Leaves-gets, leaves_rules,
}
use ckb_vm_deterministic_sch.Scheduler.State.{State, Vm}
use ckb_vm_deterministic_sch.Scheduler.Instances.{
  suspend_vm, suspend_found, keep_snapshot, take_snapshot, resume_vm, resume_found, fill, exchange,
  make_instances, instantiate, ensure_vms_instantiated, make_room,
}

abbrev pub Counters : Type 0
Counters = ℕ × ℕ × ℕ × Table ℕ × List Message

abbrev pub counters : (e : Engine) → State e → Counters
counters e s = (s.total_cycles, s.next_vm_id, s.next_pipe_slot, s.terminated_vms, s.message_box)

module _ (e : Engine) where
  keep_snapshot-counters :
      (id : ℕ) (r : Outcome e.Snapshot × Vm e) (s : State e)
      → counters e (keep_snapshot e id r s).1 ≡ counters e s
  unfolding keep_snapshot
  keep_snapshot-counters id (ok x, vm) s = refl
  keep_snapshot-counters id (err x, vm) s = refl
  keep_snapshot-counters id (panic, vm) s = refl
  keep_snapshot-counters id (diverge, vm) s = refl

  suspend_found-Leaves : (id : ℕ) (o : Option (Vm e)) → Leaves (counters e) (suspend_found e id o)
  unfolding suspend_found
  suspend_found-Leaves id none = search leaves_rules
  suspend_found-Leaves id (some vm) = record { at = keep_snapshot-counters id (take_snapshot e vm) }

  pub suspend_vm-Leaves : (id : ℕ) → Leaves (counters e) (suspend_vm e id)
  unfolding suspend_vm
  suspend_vm-Leaves id = record {
    at = λ s. (suspend_found-Leaves id (lookup id s.instantiated)).at s;
  }

  -- the states of the VMs
  abbrev pub all_states : State e → Table VmState
  all_states s = s.states

  keep_snapshot-states :
      (id : ℕ) (r : Outcome e.Snapshot × Vm e) (s : State e)
      → all_states (keep_snapshot e id r s).1 ≡ all_states s
  unfolding keep_snapshot
  keep_snapshot-states id (ok x, vm) s = refl
  keep_snapshot-states id (err x, vm) s = refl
  keep_snapshot-states id (panic, vm) s = refl
  keep_snapshot-states id (diverge, vm) s = refl

  suspend_found-states : (id : ℕ) (o : Option (Vm e)) → Leaves all_states (suspend_found e id o)
  unfolding suspend_found
  suspend_found-states id none = search leaves_rules
  suspend_found-states id (some vm) = record { at = keep_snapshot-states id (take_snapshot e vm) }

  pub suspend_vm-states : (id : ℕ) → Leaves all_states (suspend_vm e id)
  unfolding suspend_vm
  suspend_vm-states id = record {
    at = λ s. (suspend_found-states id (lookup id s.instantiated)).at s;
  }

  pub make_room-Leaves : (fuel : ℕ) → Leaves (counters e) (make_room e fuel)
  unfolding make_room
  make_room-Leaves zero = search leaves_rules
  make_room-Leaves (suc fuel) = Leaves-bind _ _ _ (Leaves-gets _ _) λ size.
      Leaves-if _ _ _ _
        (Leaves-bind _ _ _ (Leaves-gets _ _) λ first.
          Leaves-bind _ _ _ (Leaves-unwrap _ first)
            λ id. Leaves-then _ _ _ (suspend_vm-Leaves id) (make_room-Leaves fuel))
        (Leaves-pure _ _)

module _ (e : Engine) (source : Source) where
  resume_found-Leaves :
      (id : ℕ) (o : Option e.Snapshot) → Leaves (counters e) (resume_found e source id o)
  unfolding resume_found
  resume_found-Leaves id none = search leaves_rules
  resume_found-Leaves id (some x) = search (leaves_rules, Leaves-modify)

  resume_vm-Leaves : (id : ℕ) → Leaves (counters e) (resume_vm e source id)
  unfolding resume_vm
  resume_vm-Leaves id = record { at = λ s. (resume_found-Leaves id (lookup id s.suspended)).at s }

  fill-Leaves : (l : List ℕ) → Leaves (counters e) (fill e source l)
  unfolding fill
  fill-Leaves [] = search leaves_rules
  fill-Leaves (id ∷ l) = Leaves-bind _ _ _ (Leaves-gets _ _) λ size.
      Leaves-if _ _ _ _ (Leaves-then _ _ _ (resume_vm-Leaves id) (fill-Leaves l)) (Leaves-pure _ _)

  exchange-Leaves : (vs l : List ℕ) → Leaves (counters e) (exchange e source vs l)
  unfolding exchange
  exchange-Leaves vs [] = search leaves_rules
  exchange-Leaves [] (id ∷ l) = search leaves_rules
  exchange-Leaves (v ∷ vs) (id ∷ l) =
      Leaves-then _ _ _ (suspend_vm-Leaves e v)
        (Leaves-then _ _ _ (resume_vm-Leaves id) (exchange-Leaves vs l))

  make_instances-Leaves :
      (ids left : List ℕ) → Leaves (counters e) (make_instances e source ids left)
  unfolding make_instances
  make_instances-Leaves ids [] = search leaves_rules
  make_instances-Leaves ids (id ∷ left) = search (leaves_rules, exchange-Leaves)

  pub ensure_vms_instantiated-Leaves :
      (ids : List ℕ) → Leaves (counters e) (ensure_vms_instantiated e source ids)
  unfolding ensure_vms_instantiated instantiate
  ensure_vms_instantiated-Leaves ids = search (leaves_rules, fill-Leaves, make_instances-Leaves)
