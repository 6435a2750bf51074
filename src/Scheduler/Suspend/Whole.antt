-- ===== src/Scheduler/Suspend/Whole.antt =====
-- A suspended scheduler resumes as it was, with every VM suspended.
use ckb_vm_deterministic_sch.Prelude.{
  ◌%◌, ◌<◌, ℕ, ◌≡◌, refl, sym, ap, subst, ◌∙◌, true, false, List, [], ◌∷◌, arith, inl, inr,
  Option-cases, mem, map,
}
use ckb_vm_deterministic_sch.Prelude.Distinct.{IsDistinct}
use ckb_vm_deterministic_sch.Outcome.Ensures.{
  Ends, Ends-bind, Ends-bind_gets, Ends-bind_modify, Ends-bind_unwrap, Ends-gets, Ends-pure,
  Ends-weaken,
}
use ckb_vm_deterministic_sch.Table.{Table, lookup, contains, remove, keys, collect}
use ckb_vm_deterministic_sch.Table.Laws.{IsSorted, lookup-remove, mem-keys, IsDistinct-keys}
use ckb_vm_deterministic_sch.Table.Collect.{collect_all, contains-collect}
use ckb_vm_deterministic_sch.Types.{VmState, FullSuspendedState}
use ckb_vm_deterministic_sch.Engine.{Engine}
use ckb_vm_deterministic_sch.Engine.Laws.{IsTotal}
use ckb_vm_deterministic_sch.Scheduler.State.{State}
use ckb_vm_deterministic_sch.Scheduler.Instances.Placement.{
  IsPlaced, Moved, Moved-refl, Moved-trans, rest_of, suspend_vm_lem,
}
use ckb_vm_deterministic_sch.Scheduler.Suspend.{suspend, suspend_all, collect_vms, resume}
use ckb_vm_deterministic_sch.Scheduler.Valid.{IsValid, Fits}

module _ (e : Engine) (t : IsTotal e) where
  -- the end of `suspend_all`
  record AllAsleep (ids : List ℕ) (s s' : State e) : Type 0 where
    moved : Moved s s'
    left :
        (k : ℕ)
        → contains k s'.instantiated ≡ true
        → (contains k s.instantiated ≡ true) × (mem k ids ≡ false)

  suspend_all_lem :
      (ids : List ℕ) (s : State e)
      → IsPlaced s
      → IsDistinct ids
      → ((k : ℕ) → mem k ids ≡ true → contains k s.instantiated ≡ true)
      → Ends (λ _ s'. AllAsleep ids s s') (λ s'. Moved s s') (suspend_all e ids s)
  unfolding suspend_all
  suspend_all_lem [] s p d h =
      Ends-pure _ _ (record { moved = Moved-refl s p; left = λ k c. (c, refl) })
  suspend_all_lem (id ∷ ids) s p d h =
      Ends-bind _ _ s (suspend_vm_lem e t id s p (h id (ground arith))) λ _ s1 l.
        Ends-weaken _
          (suspend_all_lem ids s1 l.moved.placed d.1 (λ k m. ground (arith, l.others k, h k, d.0)))
          (λ _ s2 a. record {
            moved = Moved-trans s s1 s2 l.moved a.moved;
            left =
                λ k c. let (in1, out) = a.left k c in ground (arith, l.others k, l.gone, in1, out);
          })
          (λ s2 m. Moved-trans s s1 s2 l.moved m)

module _ (e : Engine) where
  abbrev pub states_of : List (ℕ × VmState × e.Snapshot) → Table VmState
  states_of vms = map (λ v. (v.0, v.1)) vms

  abbrev snapshots_of : List (ℕ × VmState × e.Snapshot) → Table e.Snapshot
  snapshots_of vms = map (λ v. (v.0, v.2)) vms

  same_keys :
      (k : ℕ) (vms : List (ℕ × VmState × e.Snapshot))
      → contains k (snapshots_of vms) ≡ contains k (states_of vms)
  unfolding lookup
  same_keys k [] = refl
  same_keys k ((j, st, x) ∷ vms) = ground (arith, same_keys k vms)

  collect_vms_lem :
      (l : Table VmState) (s : State e)
      → IsDistinct (keys l)
      → ((k : ℕ) → contains k l ≡ true → contains k s.suspended ≡ true)
      → Ends
          (λ vms s'. (states_of vms ≡ l) × (rest_of s' ≡ rest_of s))
          (λ _. Unit {0})
          (collect_vms e l s)
  unfolding collect_vms keys
  collect_vms_lem [] s d h = Ends-pure _ _ (refl, refl)
  collect_vms_lem ((id, st) ∷ l) s d h =
      let there : contains id s.suspended ≡ true = h id (unfold lookup in ground arith) in
      Ends-bind_gets _ _ s (elim (Option-cases (lookup id s.suspended)) [
        | inl absent ↦ cc
        | inr (snapshot, found) ↦
            let s1 : State e = record s { suspended = remove id s.suspended } in
            Ends-bind_unwrap _ _ snapshot s found (
              Ends-bind_modify _ _ s (
                Ends-bind _ _ s1
                  (collect_vms_lem l s1 d.1 (λ k c.
                    unfold lookup in
                    ground (
                      arith,
                      d.0,
                      h k,
                      mem-keys k l,
                      mem-keys id l,
                      lookup-remove id k s.suspended,
                    )))
                  λ vms s2 r. Ends-pure _ _ (ap (λ m. (id, st) ∷ m) r.0, r.1)))
      ])

-- The resumed scheduler is valid and has the same data, with no VM instantiated.
pub record Resumes {e : Engine} (s : State e) (full : FullSuspendedState e.Snapshot) : Type 0 where
  pub valid : IsValid (resume e full)
  pub states : (resume e full).states ≡ s.states
  pub pipes : (resume e full).pipes ≡ s.pipes
  pub terminated_vms : (resume e full).terminated_vms ≡ s.terminated_vms
  pub next_vm_id : (resume e full).next_vm_id ≡ s.next_vm_id
  pub next_pipe_slot : (resume e full).next_pipe_slot ≡ s.next_pipe_slot
  pub total_cycles : (resume e full).total_cycles ≡ s.total_cycles
  pub instantiated : (resume e full).instantiated ≡ []

module _ (e : Engine) where
  -- the value that `suspend` returns
  abbrev written : List (ℕ × VmState × e.Snapshot) → State e → FullSuspendedState e.Snapshot
  written vms s = record {
    total_cycles = s.total_cycles;
    next_vm_id = s.next_vm_id;
    next_pipe_slot = s.next_pipe_slot;
    vms = vms;
    pipes = s.pipes;
    terminated_vms = s.terminated_vms;
  }

  resumed_lem :
      (vms : List (ℕ × VmState × e.Snapshot)) (s s' : State e)
      → IsValid s
      → IsSorted s.terminated_vms
      → states_of e vms ≡ s.states
      → rest_of s' ≡ rest_of s
      → Resumes s (written vms s')
  unfolding resume
  resumed_lem vms s s' v sorted all rest =
      let states : collect (states_of e vms) [] ≡ s.states =
        ap (λ m. collect m []) all ∙ collect_all s.states v.ordered in
      let pipes : collect s'.pipes [] ≡ s.pipes =
        ap (λ (x : State e). collect x.pipes []) rest ∙ collect_all s.pipes v.pipes_ordered in
      let ended : collect s'.terminated_vms [] ≡ s.terminated_vms =
        ap (λ (x : State e). collect x.terminated_vms []) rest
        ∙ collect_all s.terminated_vms sorted in
      let id_same = ap (λ (x : State e). x.next_vm_id) rest in
      let slot_same = ap (λ (x : State e). x.next_pipe_slot) rest in
      let known = λ (k : ℕ). contains-collect k (snapshots_of e vms) [] in
      record {
        valid = record {
          placed = record {
            few = omega arith;
            sorted = tt;
            apart = λ k h. unfold lookup in cc;
            named = λ k vm h. unfold lookup in cc;
          };
          known = λ k.
              unfold lookup in
              ground (arith, known k, contains-collect k (states_of e vms) [], same_keys e k vms);
          ordered = subst IsSorted (sym states) v.ordered;
          fresh = λ k h.
              subst (λ n. k < n) (sym id_same) (v.fresh k (sym (ap (contains k) states) ∙ h));
          pipes_ordered = subst IsSorted (sym pipes) v.pipes_ordered;
          owned = λ p o h. ap (contains o) states ∙ v.owned p o (sym (ap (lookup p) pipes) ∙ h);
          slots = λ p o h.
              subst (λ n. p < n) (sym slot_same) (v.slots p o (sym (ap (lookup p) pipes) ∙ h));
          even = ap (λ n. n % 2) slot_same ∙ v.even;
          waiting = λ k st h.
              subst (λ ps. Fits ps k st) (sym pipes)
                (v.waiting k st (sym (ap (lookup k) states) ∙ h));
        };
        states = states;
        pipes = pipes;
        terminated_vms = ended;
        next_vm_id = id_same;
        next_pipe_slot = slot_same;
        total_cycles = ap (λ (x : State e). x.total_cycles) rest;
        instantiated = refl;
      }

module _ (e : Engine) (t : IsTotal e) where
  -- A valid scheduler, with the map of exit codes in the order of its keys, is suspended without a
  -- panic. Resumed, it is valid, no VM is instantiated, and its states, pipes, exit codes, counters and
  -- cycles are those of the scheduler before.
  pub suspend_lem :
      (s : State e)
      → IsValid s
      → IsSorted s.terminated_vms
      → Ends (λ full _. Resumes s full) (λ _. Unit {0}) (suspend e s)
  unfolding suspend
  suspend_lem s v sorted = Ends-bind_gets _ _ s (
      Ends-bind _ _ s
        (Ends-weaken _
          (suspend_all_lem e t (keys s.instantiated) s v.placed
            (IsDistinct-keys s.instantiated v.placed.sorted)
            (λ k m. sym (mem-keys k s.instantiated) ∙ m))
          (λ _ s1 a. a) (λ _ _. tt))
        λ _ s1 a.
          let same = ap (λ (x : State e). x.states) a.moved.rest in
          Ends-bind_gets _ _ s1 (
            Ends-bind _ _ s1
              (collect_vms_lem e s1.states s1
                (subst (λ m. IsDistinct (keys m)) (sym same) (IsDistinct-keys s.states v.ordered))
                (λ k c. ground (
                  arith,
                  c,
                  ap (contains k) same,
                  a.moved.known k,
                  v.known k,
                  a.left k,
                  mem-keys k s.instantiated,
                )))
              λ vms s2 r.
                Ends-gets _ s2 (resumed_lem e vms s s2 v sorted (r.0 ∙ same) (r.1 ∙ a.moved.rest))))
