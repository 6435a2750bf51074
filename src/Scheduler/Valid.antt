-- ===== src/Scheduler/Valid.antt =====
-- What holds of a scheduler between its operations, while the root VM runs.
pub mod Visits
use ckb_vm_deterministic_sch.Prelude.{
  ℕ, ◌+◌, ◌%◌, ◌≤◌, ◌<◌, ◌≡◌, ◌≢◌, refl, sym, ap, subst, ◌∙◌, Bool, true, false, Option, none, some,
  arith, ◌==◌, u64_mod, if◌then◌else◌, Bool-cases, inl, inr,
}
use ckb_vm_deterministic_sch.Table.{Table, lookup, contains, insert}
use ckb_vm_deterministic_sch.Table.Laws.{IsSorted, lookup-insert, insert-IsSorted}
use ckb_vm_deterministic_sch.Types.{
  VmState, runnable, terminated, join, wait_for_read, wait_for_write,
}
use ckb_vm_deterministic_sch.Types.Pipe.{is_read, is_write}
use ckb_vm_deterministic_sch.Engine.{Engine}
use ckb_vm_deterministic_sch.Scheduler.State.{State}
use ckb_vm_deterministic_sch.Scheduler.Instances.Placement.{IsPlaced, Moved, is_known}

-- A VM that waits on a pipe owns the right end of it, and a write is within its buffer.
abbrev pub Fits : Table ℕ → ℕ → VmState → Type 0
Fits pipes k (wait_for_read p l b a) = (lookup p pipes ≡ some k) × (is_read p ≡ true)
Fits pipes k (wait_for_write p c l b a) =
    (lookup p pipes ≡ some k) × (is_write p ≡ true) × (c ≤ l) × (l < u64_mod)
Fits pipes k _ = Unit

pub record IsValid {e : Engine} (s : State e) : Type 0 where
  pub placed : IsPlaced s
  pub known : (k : ℕ) → is_known k s ≡ contains k s.states
  pub ordered : IsSorted s.states
  pub fresh : (k : ℕ) → contains k s.states ≡ true → k < s.next_vm_id
  pub pipes_ordered : IsSorted s.pipes
  pub owned : (p v : ℕ) → lookup p s.pipes ≡ some v → contains v s.states ≡ true
  pub slots : (p v : ℕ) → lookup p s.pipes ≡ some v → p < s.next_pipe_slot
  pub even : s.next_pipe_slot % 2 ≡ 0
  pub waiting : (k : ℕ) (st : VmState) → lookup k s.states ≡ some st → Fits s.pipes k st

module _ {e : Engine} where
  -- Moves of VMs between the two places keep the state valid.
  pub Moved-IsValid : (s s' : State e) → IsValid s → Moved s s' → IsValid s'
  Moved-IsValid s s' v m =
      let states_same = ap (λ (x : State e). x.states) m.rest in
      let pipes_same = ap (λ (x : State e). x.pipes) m.rest in
      let id_same = ap (λ (x : State e). x.next_vm_id) m.rest in
      let slot_same = ap (λ (x : State e). x.next_pipe_slot) m.rest in
      record {
        placed = m.placed;
        known = λ k. m.known k ∙ v.known k ∙ sym (ap (contains k) states_same);
        ordered = subst IsSorted (sym states_same) v.ordered;
        fresh = λ k h.
            subst (λ n. k < n) (sym id_same) (v.fresh k (ap (contains k) (sym states_same) ∙ h));
        pipes_ordered = subst IsSorted (sym pipes_same) v.pipes_ordered;
        owned =
            λ p o h. ap (contains o) states_same ∙ v.owned p o (ap (lookup p) (sym pipes_same) ∙ h);
        slots = λ p o h.
            subst (λ n. p < n) (sym slot_same) (v.slots p o (ap (lookup p) (sym pipes_same) ∙ h));
        even = ap (λ n. n % 2) slot_same ∙ v.even;
        waiting = λ k st h.
            subst (λ ps. Fits ps k st) (sym pipes_same)
              (v.waiting k st (ap (lookup k) (sym states_same) ∙ h));
      }

  -- A VM of the scheduler enters another state.
  pub insert-IsValid :
      (id : ℕ) (st : VmState) (s : State e)
      → IsValid s
      → contains id s.states ≡ true
      → Fits s.pipes id st
      → IsValid (record s { states = insert id st s.states })
  insert-IsValid id st s v there fits = record {
    placed = record {
      few = v.placed.few;
      sorted = v.placed.sorted;
      apart = v.placed.apart;
      named = v.placed.named;
    };
    known = λ k. ground (arith, v.known k, lookup-insert id k st s.states);
    ordered = insert-IsSorted id st s.states v.ordered;
    fresh = λ k h. ground (arith, v.fresh k, v.fresh id there, lookup-insert id k st s.states);
    pipes_ordered = v.pipes_ordered;
    owned = λ p o h. ground (arith, v.owned p o, lookup-insert id o st s.states);
    slots = v.slots;
    even = v.even;
    waiting = λ k st' h. elim (Bool-cases (id == k)) [
      | inl same ↦
          let e1 : st ≡ st' = ground (arith, lookup-insert id k st s.states) in
          subst (λ x. Fits s.pipes k x) e1 (subst (λ i. Fits s.pipes i st) (ground arith) fits)
      | inr other ↦ v.waiting k st' (ground (arith, lookup-insert id k st s.states))
    ];
  }
