-- ===== src/Scheduler/Instances/Placement.antt =====
-- Where the VMs are: at most four instantiated, the others suspended, none in both places.
use ckb_vm_deterministic_sch.Syscalls.Access.{new_context}
use ckb_vm_deterministic_sch.Prelude.{
  sym, ap, Bool-cases, ◌==◌, inl, inr, Option-cases, ◌∙◌, ℕ, ◌≤◌, ◌<◌, ◌≡◌, ◌≢◌, refl, Bool, true,
  false, ◌||◌, Option, none, some, [], arith, length,
}
use ckb_vm_deterministic_sch.Outcome.{Exec, Outcome, ok, err, panic, diverge}
use ckb_vm_deterministic_sch.Outcome.Ensures.{IsSettled, Ends-bind_lift, Ends-modify, Ends}
use ckb_vm_deterministic_sch.Table.{lookup, contains, insert, remove}
use ckb_vm_deterministic_sch.Table.Laws.{
  IsSorted, lookup-insert, lookup-remove, insert-IsSorted, remove-IsSorted, length-insert,
  length-remove, length-insert_there,
}
use ckb_vm_deterministic_sch.Engine.{ScriptVersion, Engine, Source}
use ckb_vm_deterministic_sch.Engine.Laws.{Returns-via, Returns, IsTotal}
use ckb_vm_deterministic_sch.Scheduler.State.{State, Vm, max_instantiated_vms}
use ckb_vm_deterministic_sch.Scheduler.Instances.{
  syscalls_version, build, settle, create_vm, create_dummy_vm, on_tracked, resume_vm, resume_found,
  take_snapshot, keep_snapshot, suspend_vm, suspend_found,
}

pub record IsPlaced {e : Engine} (s : State e) : Type 0 where
  pub few : length s.instantiated ≤ max_instantiated_vms
  pub sorted : IsSorted s.instantiated
  pub apart : (k : ℕ) → contains k s.instantiated ≡ true → contains k s.suspended ≡ false
  pub named : (k : ℕ) (vm : Vm e) → lookup k s.instantiated ≡ some vm → vm.0.id ≡ k

-- The state without its VMs.
abbrev pub rest_of : {e : Engine} → State e → State e
rest_of s = record s { instantiated = []; suspended = [] }

abbrev pub is_known : {e : Engine} → ℕ → State e → Bool
is_known k s = contains k s.instantiated || contains k s.suspended

-- VMs may have moved between the two places, and nothing beside them has changed; of their machines and
-- snapshots this says nothing.
pub record Moved {e : Engine} (s s' : State e) : Type 0 where
  pub placed : IsPlaced s'
  pub known : (k : ℕ) → is_known k s' ≡ is_known k s
  pub rest : rest_of s' ≡ rest_of s

-- One VM has left the instantiated ones.
pub record Left {e : Engine} (id : ℕ) (s s' : State e) : Type 0 where
  pub moved : Moved s s'
  pub gone : contains id s'.instantiated ≡ false
  pub others : (k : ℕ) → id ≢ k → contains k s'.instantiated ≡ contains k s.instantiated
  pub asleep : (k : ℕ) → contains k s.suspended ≡ true → contains k s'.suspended ≡ true
  pub smaller : length s'.instantiated < length s.instantiated

module _ {e : Engine} where
  pub insert-named :
      (id : ℕ) (vm : Vm e) (s : State e)
      → IsPlaced s
      → vm.0.id ≡ id
      → (k : ℕ) (v : Vm e) → lookup k (insert id vm s.instantiated) ≡ some v
      → v.0.id ≡ k
  insert-named id vm s p n k v f = elim (Bool-cases (id == k)) [
    | inl same ↦
        let e1 : vm ≡ v = ground (arith, lookup-insert id k vm s.instantiated) in
        let e2 = ap (λ (x : Vm e). x.0.id) e1 in ground (arith, e2)
    | inr other ↦ p.named k v (ground (arith, lookup-insert id k vm s.instantiated))
  ]

module _ (e : Engine) where
  take_snapshot-id : (vm : Vm e) → (take_snapshot e vm).1.0.id ≡ vm.0.id
  unfolding take_snapshot
  take_snapshot-id (c, mac) = refl

  keep_snapshot_lem :
      (id : ℕ) (r : Outcome e.Snapshot × Vm e) (s : State e)
      → Returns r
      → IsPlaced s
      → contains id s.instantiated ≡ true
      → r.1.0.id ≡ id
      → Ends (λ _ s'. Left id s s') (λ s'. Moved s s') (keep_snapshot e id r s)
  unfolding keep_snapshot
  keep_snapshot_lem id (ok snapshot, vm) s t p h n = record {
    at = record {
      moved = record {
        placed = record {
          few = omega (arith, p.few, length-remove id s.instantiated h);
          sorted = remove-IsSorted id s.instantiated p.sorted;
          apart = λ k. grind (
            arith,
            lookup-remove id k s.instantiated,
            lookup-insert id k snapshot s.suspended,
            p.apart k,
          );
          named = λ k v f. p.named k v (ground (arith, lookup-remove id k s.instantiated));
        };
        known = λ k.
            grind
              (arith, lookup-remove id k s.instantiated, lookup-insert id k snapshot s.suspended);
        rest = refl;
      };
      gone = ground (arith, lookup-remove id id s.instantiated);
      others = λ k n. ground (arith, lookup-remove id k s.instantiated);
      asleep = λ k h. ground (arith, lookup-insert id k snapshot s.suspended);
      smaller = length-remove id s.instantiated h;
    };
  }
  keep_snapshot_lem id (err x, vm) s t p h n = record {
    at = record {
      placed = record {
        few = omega (arith, p.few, length-insert_there id vm s.instantiated p.sorted h);
        sorted = insert-IsSorted id vm s.instantiated p.sorted;
        apart = λ k. grind (arith, lookup-insert id k vm s.instantiated, p.apart k);
        named = λ k v f. insert-named id vm s p n k v f;
      };
      known = λ k. grind (arith, lookup-insert id k vm s.instantiated);
      rest = refl;
    };
  }
  keep_snapshot_lem id (panic, vm) s t p h n = absurd t.at
  keep_snapshot_lem id (diverge, vm) s t p h n = absurd t.at

  take_snapshot-Returns : IsTotal e → (vm : Vm e) → Returns (take_snapshot e vm)
  unfolding take_snapshot
  take_snapshot-Returns t (c, mac) =
      Returns-via (e.make_snapshot c.tracker mac) (λ m. (c, m)) (t.make_snapshot c.tracker mac)

  -- An instantiated VM is suspended, or a failed snapshot leaves every VM where it is.
  pub suspend_vm_lem :
      IsTotal e
      → (id : ℕ) (s : State e) → IsPlaced s
      → contains id s.instantiated ≡ true
      → Ends (λ _ s'. Left id s s') (λ s'. Moved s s') (suspend_vm e id s)
  unfolding suspend_vm suspend_found
  suspend_vm_lem t id s p h = elim (Option-cases (lookup id s.instantiated)) [
    | inl absent ↦ cc
    | inr (vm, found) ↦
        rw (found, suspend_vm)
          (keep_snapshot_lem id (take_snapshot e vm) s (take_snapshot-Returns t vm) p h
            (take_snapshot-id vm ∙ p.named id vm found))
  ]

pub Moved-refl : {e : Engine} (s : State e) → IsPlaced s → Moved s s
Moved-refl s p = record { placed = p; known = λ k. refl; rest = refl }

pub Moved-trans : {e : Engine} (s t u : State e) → Moved s t → Moved t u → Moved s u
Moved-trans s t u h k = record {
  placed = k.placed;
  known = λ i. k.known i ∙ h.known i;
  rest = k.rest ∙ h.rest;
}

-- One VM has come to the instantiated ones.
pub record Came {e : Engine} (id : ℕ) (s s' : State e) : Type 0 where
  pub moved : Moved s s'
  pub there : contains id s'.instantiated ≡ true
  pub others : (k : ℕ) → contains k s.instantiated ≡ true → contains k s'.instantiated ≡ true
  pub asleep : (k : ℕ) → id ≢ k → contains k s'.suspended ≡ contains k s.suspended

settle-IsSettled : {A X : Type 0} (r : Outcome A × X) → Returns r → IsSettled (settle r)
settle-IsSettled (ok a, m) h = tt
settle-IsSettled (err x, m) h = tt
settle-IsSettled (panic, m) h = absurd h.at
settle-IsSettled (diverge, m) h = absurd h.at

pub build-IsSettled : {A X : Type 0} (m : Exec X A) (x : X) → Returns (m x) → IsSettled (build m x)
unfolding build
build-IsSettled m x h = settle-IsSettled (m x) h

module _ (e : Engine) where
  pub on_tracked-Returns :
      {A : Type 0} (m : Exec (e.Tracker × e.Machine) A) (vm : Vm e)
      → Returns (m (vm.0.tracker, vm.1))
      → Returns (on_tracked e m vm)
  unfolding on_tracked
  on_tracked-Returns m (c, mac) h = Returns-via _ (λ t. (record c { tracker = t.0 }, t.1)) h

  create_vm-IsSettled : (id : ℕ) (v : Option ScriptVersion) → IsSettled (create_vm e id v)
  unfolding create_vm
  create_vm-IsSettled id none = tt
  create_vm-IsSettled id (some v) = tt

  create_vm-id :
      (id : ℕ) (v : Option ScriptVersion) (vm : Vm e) → create_vm e id v ≡ ok vm → vm.0.id ≡ id
  unfolding create_vm new_context
  create_vm-id id none vm h = cc
  create_vm-id id (some v) vm h =
      let same : (new_context e id, e.new_machine v (syscalls_version v)) ≡ vm = cc in
      ap (λ (x : Vm e). x.0.id) (sym same)

  pub create_dummy_vm-id : (id : ℕ) (vm : Vm e) → create_dummy_vm e id ≡ ok vm → vm.0.id ≡ id
  unfolding create_dummy_vm
  create_dummy_vm-id id vm h = create_vm-id id e.select_version vm h

  settle-ok : {A X : Type 0} (r : Outcome A × X) (x : X) → settle r ≡ ok x → r.1 ≡ x
  settle-ok (ok a, y) x h = cc
  settle-ok (err z, y) x h = cc
  settle-ok (panic, y) x h = cc
  settle-ok (diverge, y) x h = cc

  pub build-id :
      {A : Type 0} (m : Exec (e.Tracker × e.Machine) A) (vm vm' : Vm e)
      → build (on_tracked e m) vm ≡ ok vm'
      → vm'.0.id ≡ vm.0.id
  unfolding build on_tracked
  build-id m (c, mac) vm' h =
      ap (λ (x : Vm e). x.0.id) (sym (settle-ok (on_tracked e m (c, mac)) vm' h))

  pub create_dummy_vm-IsSettled : (id : ℕ) → IsSettled (create_dummy_vm e id)
  unfolding create_dummy_vm
  create_dummy_vm-IsSettled id = create_vm-IsSettled id e.select_version

module _ (e : Engine) (source : Source) (t : IsTotal e) where
  resumed_Came :
      (id : ℕ) (vm : Vm e) (s : State e)
      → IsPlaced s
      → length s.instantiated < max_instantiated_vms
      → contains id s.suspended ≡ true
      → vm.0.id ≡ id
      → Came id s (record s {
        instantiated = insert id vm s.instantiated;
        suspended = remove id s.suspended;
      })
  resumed_Came id vm s p few h n = record {
    moved = record {
      placed = record {
        few = omega (arith, length-insert id vm s.instantiated);
        sorted = insert-IsSorted id vm s.instantiated p.sorted;
        apart = λ k. grind (
          arith,
          lookup-insert id k vm s.instantiated,
          lookup-remove id k s.suspended,
          p.apart k,
        );
        named = λ k v f. insert-named id vm s p n k v f;
      };
      known =
          λ k. grind (arith, lookup-insert id k vm s.instantiated, lookup-remove id k s.suspended);
      rest = refl;
    };
    there = ground (arith, lookup-insert id id vm s.instantiated);
    others = λ k o. ground (arith, lookup-insert id k vm s.instantiated);
    asleep = λ k n. ground (arith, lookup-remove id k s.suspended);
  }

  -- With a place free, a suspended VM is resumed, or every VM stays where it is.
  pub resume_vm_lem :
      (id : ℕ) (s : State e)
      → IsPlaced s
      → length s.instantiated < max_instantiated_vms
      → contains id s.suspended ≡ true
      → Ends (λ _ s'. Came id s s') (λ s'. Moved s s') (resume_vm e source id s)
  unfolding resume_vm resume_found
  resume_vm_lem id s p few h = elim (Option-cases (lookup id s.suspended)) [
    | inl absent ↦ cc
    | inr (snapshot, found) ↦
        rw (found, resume_vm)
          (Ends-bind_lift _ _ s (create_dummy_vm-IsSettled e id) (Moved-refl s p) λ vm made.
            Ends-bind_lift _ _ s
              (build-IsSettled _ vm (on_tracked-Returns e _ vm (t.resume source snapshot _)))
              (Moved-refl s p)
              λ resumed built.
                let n = build-id e _ vm resumed built ∙ create_dummy_vm-id e id vm made in
                Ends-modify _ s (resumed_Came id resumed s p few h n))
  ]
