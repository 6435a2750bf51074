-- ===== src/Scheduler/Instances/Carry.antt =====
-- What the operations that move VMs do to the machine and the snapshot of each.
use ckb_vm_deterministic_sch.Prelude.{
  ℕ, ◌≡◌, refl, sym, ap, subst, Bool, true, false, Option, none, some, List, [], ◌∷◌, ◌==◌, inl,
  inr, Bool-cases, arith, length, ◌≤◌, mem,
}
use ckb_vm_deterministic_sch.Prelude.Distinct.{IsDistinct}
use ckb_vm_deterministic_sch.Outcome.{Outcome, ok, err, panic, diverge, lift, modify, raise, ◌>>=◌}
use ckb_vm_deterministic_sch.Outcome.Ensures.{Ends}
use ckb_vm_deterministic_sch.Table.{lookup, insert, remove}
use ckb_vm_deterministic_sch.Table.Laws.{lookup-insert, lookup-remove}
use ckb_vm_deterministic_sch.Engine.{Engine, Source}
use ckb_vm_deterministic_sch.Engine.Laws.{IsTotal}
use ckb_vm_deterministic_sch.Scheduler.State.{State, Vm, max_instantiated_vms}
use ckb_vm_deterministic_sch.Scheduler.Frame.{
  Leaves-pure, Leaves-gets, Leaves-lift, Leaves-raise, Leaves-assert,
}
use ckb_vm_deterministic_sch.Scheduler.Instances.{
  build, on_tracked, create_dummy_vm, suspend_vm, suspend_found, keep_snapshot, take_snapshot,
  resume_vm, resume_found, fill, exchange, make_instances, instantiate, ensure_vms_instantiated,
}
use ckb_vm_deterministic_sch.Scheduler.Instances.Placement.{IsPlaced, Moved, is_known}
use ckb_vm_deterministic_sch.Scheduler.Instances.Ensure.{Instantiated, ensure_vms_instantiated_lem}
use ckb_vm_deterministic_sch.Scheduler.Instances.Course.{
  place, Step, woken, slept, tried, Course, stays, next, Carried, Course-same, Goes, Carries,
  Carries-still, Carries-if, Carries-bind, Carries-then,
}

==-refl : (n : ℕ) → (n == n) ≡ true
==-refl n = ground arith

module _ (e : Engine) (source : Source) where
  -- One VM is moved, and the places of the others are as before.
  one_Course :
      (id : ℕ) (clean : Bool) (s s' : State e)
      → ((k : ℕ) → (id == k) ≡ false → place k s' ≡ place k s)
      → Step e source id clean (place id s) (place id s')
      → Carried e source clean s s'
  one_Course id clean s s' others here k = elim (Bool-cases (id == k)) [
    | inl same ↦
        let e1 : id ≡ k = ground (arith, same) in
        subst (λ j. Course e source j clean (place j s) (place j s')) e1 (next stays here)
    | inr other ↦ Course-same e source k clean _ _ (sym (others k other))
  ]

  -- the states in which one VM has been suspended, put back, or resumed
  abbrev asleep : ℕ → e.Snapshot → State e → State e
  asleep id snapshot s = record s {
    suspended = insert id snapshot s.suspended;
    instantiated = remove id s.instantiated;
  }

  abbrev back : ℕ → Vm e → State e → State e
  back id vm s = record s { instantiated = insert id vm s.instantiated }

  abbrev awake : ℕ → Vm e → State e → State e
  awake id vm s = record s {
    instantiated = insert id vm s.instantiated;
    suspended = remove id s.suspended;
  }

  keep_snapshot-Goes :
      (id : ℕ) (vm : Vm e) (r : Outcome e.Snapshot × Vm e) (s : State e)
      → take_snapshot e vm ≡ r
      → lookup id s.instantiated ≡ some vm
      → Goes e source s (keep_snapshot e id r s)
  unfolding keep_snapshot
  keep_snapshot-Goes id vm (ok snapshot, vm') s made found =
      one_Course id true s (asleep id snapshot s)
        (λ k n.
          rw (lookup-remove id k s.instantiated, lookup-insert id k snapshot s.suspended, n) refl)
        (slept vm snapshot found (ap (λ (x : Outcome e.Snapshot × Vm e). x.0) made) (
          rw
            (
              lookup-remove id id s.instantiated,
              lookup-insert id id snapshot s.suspended,
              ==-refl id,
            )
            refl))
  keep_snapshot-Goes id vm (err x, vm') s made found =
      one_Course id false s (back id vm' s)
        (λ k n. rw (lookup-insert id k vm' s.instantiated, n) refl)
        (tried vm x refl found (ap (λ (x : Outcome e.Snapshot × Vm e). x.0) made) (
          rw (lookup-insert id id vm' s.instantiated, ==-refl id)
            (ap (λ (x : Outcome e.Snapshot × Vm e). (some x.1, lookup id s.suspended)) (sym made))))
  keep_snapshot-Goes id vm (panic, vm') s made found = λ k. stays
  keep_snapshot-Goes id vm (diverge, vm') s made found = λ k. stays

  suspend_found-Goes :
      (id : ℕ) (o : Option (Vm e)) (s : State e)
      → lookup id s.instantiated ≡ o
      → Goes e source s (suspend_found e id o s)
  unfolding suspend_found raise
  suspend_found-Goes id none s h = λ k. stays
  suspend_found-Goes id (some vm) s h = keep_snapshot-Goes id vm (take_snapshot e vm) s refl h

  suspend_vm-Carries : (id : ℕ) → Carries e source (suspend_vm e id)
  unfolding suspend_vm
  suspend_vm-Carries id = record {
    at = λ s. suspend_found-Goes id (lookup id s.instantiated) s refl;
  }

  woken_Goes :
      (id : ℕ) (snapshot : e.Snapshot) (fresh : Vm e) (o : Outcome (Vm e)) (s : State e)
      → lookup id s.suspended ≡ some snapshot
      → create_dummy_vm e id ≡ ok fresh
      → build (on_tracked e (e.resume source snapshot)) fresh ≡ o
      → Goes e source s ((lift o >>= λ vm. modify (awake id vm)) s)
  unfolding ◌>>=◌ modify
  woken_Goes id snapshot fresh (ok vm) s found made built =
      one_Course id true s (awake id vm s)
        (λ k n. rw (lookup-insert id k vm s.instantiated, lookup-remove id k s.suspended, n) refl)
        (woken snapshot fresh vm found made built (
          rw (lookup-insert id id vm s.instantiated, lookup-remove id id s.suspended, ==-refl id)
            refl))
  woken_Goes id snapshot fresh (err x) s found made built = λ k. stays
  woken_Goes id snapshot fresh panic s found made built = λ k. stays
  woken_Goes id snapshot fresh diverge s found made built = λ k. stays

  fresh_Goes :
      (id : ℕ) (snapshot : e.Snapshot) (o : Outcome (Vm e)) (s : State e)
      → lookup id s.suspended ≡ some snapshot
      → create_dummy_vm e id ≡ o
      → Goes e source s (
          (lift o >>= λ vm. lift (build (on_tracked e (e.resume source snapshot)) vm) >>= λ resumed.
          modify (awake id resumed))
            s)
  unfolding ◌>>=◌
  fresh_Goes id snapshot (ok fresh) s found made = woken_Goes id snapshot fresh _ s found made refl
  fresh_Goes id snapshot (err x) s found made = λ k. stays
  fresh_Goes id snapshot panic s found made = λ k. stays
  fresh_Goes id snapshot diverge s found made = λ k. stays

  resume_found-Goes :
      (id : ℕ) (o : Option e.Snapshot) (s : State e)
      → lookup id s.suspended ≡ o
      → Goes e source s (resume_found e source id o s)
  unfolding resume_found raise
  resume_found-Goes id none s h = λ k. stays
  resume_found-Goes id (some snapshot) s h = fresh_Goes id snapshot (create_dummy_vm e id) s h refl

  resume_vm-Carries : (id : ℕ) → Carries e source (resume_vm e source id)
  unfolding resume_vm
  resume_vm-Carries id = record { at = λ s. resume_found-Goes id (lookup id s.suspended) s refl }

  fill-Carries : (l : List ℕ) → Carries e source (fill e source l)
  unfolding fill
  fill-Carries [] = Carries-still e source _ (Leaves-pure _ _)
  fill-Carries (id ∷ l) =
      Carries-bind e source _ _ (Carries-still e source _ (Leaves-gets _ _)) λ size.
        Carries-if e source _ _ _
          (Carries-then e source _ _ (resume_vm-Carries id) (fill-Carries l))
          (Carries-still e source _ (Leaves-pure _ _))

  exchange-Carries : (vs l : List ℕ) → Carries e source (exchange e source vs l)
  unfolding exchange
  exchange-Carries vs [] = Carries-still e source _ (Leaves-pure _ _)
  exchange-Carries [] (id ∷ l) = Carries-still e source _ (Leaves-lift _ _)
  exchange-Carries (v ∷ vs) (id ∷ l) =
      Carries-then e source _ _ (suspend_vm-Carries v)
        (Carries-then e source _ _ (resume_vm-Carries id) (exchange-Carries vs l))

  make_instances-Carries : (ids left : List ℕ) → Carries e source (make_instances e source ids left)
  unfolding make_instances
  make_instances-Carries ids [] = Carries-still e source _ (Leaves-pure _ _)
  make_instances-Carries ids (id ∷ left) =
      Carries-bind e source _ _ (Carries-still e source _ (Leaves-gets _ _)) λ vs.
        Carries-then e source _ _ (Carries-still e source _ (Leaves-assert _ _))
          (exchange-Carries vs _)

  ensure_vms_instantiated-Carries :
      (ids : List ℕ) → Carries e source (ensure_vms_instantiated e source ids)
  unfolding ensure_vms_instantiated instantiate
  ensure_vms_instantiated-Carries ids =
      Carries-if e source _ _ _ (Carries-still e source _ (Leaves-raise _ _)) (
        Carries-bind e source _ _ (Carries-still e source _ (Leaves-gets _ _)) λ absent.
          Carries-bind e source _ _ (fill-Carries _) λ left. make_instances-Carries ids left)

  Ends-Goes :
      {A : Type 0} {Q : A → State e → Type 0} {R : State e → Type 0} (s : State e)
      (r : Outcome A × State e)
      → Goes e source s r
      → Ends Q R r
      → Ends
          (λ a s'. Q a s' × Carried e source true s s')
          (λ s'. R s' × Carried e source false s s')
          r
  Ends-Goes s (ok a, s') h k = record { at = (k.at, h) }
  Ends-Goes s (err x, s') h k = record { at = (k.at, h) }
  Ends-Goes s (panic, s') h k = absurd k.at
  Ends-Goes s (diverge, s') h k = absurd k.at

module _ (e : Engine) (source : Source) (t : IsTotal e) where
  -- For distinct known VMs, four at most, in a state with at most four instantiated VMs and none in
  -- both places, ensure_vms_instantiated does not panic; on success all of them are instantiated,
  -- and on success and on an error at most four are and no VM is lost or gained. Each VM has its
  -- machine and its snapshot as before, or has come to them by steps that resume its snapshot into
  -- a fresh machine or make a snapshot of its machine; on an error, a machine may be left whose
  -- snapshot could not be made. The rest of the state is as before. The foreign operations are
  -- assumed to return.
  pub ensure_vms_instantiated-Carried :
      (ids : List ℕ) (s : State e)
      → IsPlaced s
      → IsDistinct ids
      → length ids ≤ max_instantiated_vms
      → ((k : ℕ) → mem k ids ≡ true → is_known k s ≡ true)
      → Ends
          (λ _ s'. Instantiated ids s s' × Carried e source true s s')
          (λ s'. Moved s s' × Carried e source false s s')
          (ensure_vms_instantiated e source ids s)
  ensure_vms_instantiated-Carried ids s p d few known =
      Ends-Goes e source s _ ((ensure_vms_instantiated-Carries e source ids).at s)
        (ensure_vms_instantiated_lem e source t ids s p d few known)
