-- ===== src/Scheduler/Run/Finish.antt =====
-- The end of a VM, the root VM included, and the cycles that a run is charged for.
use ckb_vm_deterministic_sch.Outcome.{modify, gets, ◌>>=◌, ◌>>◌, external}
use text.Mathlib.Text.{◌==◌ as str_eq}
use ckb_vm_deterministic_sch.Prelude.{
  if◌then◌else◌, ltb, u64_mod, ℕ, ◌+◌, ◌≡◌, refl, sym, ap, subst, ◌∙◌, true, ◌⊎◌, inl, inr, none,
  some, List, [], ◌∷◌, ◌==◌, arith, Bool-cases,
}
use ckb_vm_deterministic_sch.Outcome.Ensures.{
  Ends, Ends-bind, Ends-bind_modify, Ends-modify, Ends-pure, Ends-raise, Ends-weaken,
}
use ckb_vm_deterministic_sch.Table.{contains, insert}
use ckb_vm_deterministic_sch.Table.Laws.{IsSorted, insert-IsSorted, lookup-retain}
use ckb_vm_deterministic_sch.Types.{runnable, terminated, Message}
use ckb_vm_deterministic_sch.Engine.{Engine, Source}
use ckb_vm_deterministic_sch.Engine.Laws.{IsTotal}
use ckb_vm_deterministic_sch.Syscalls.Access.{checked_add}
use ckb_vm_deterministic_sch.Scheduler.State.{State, root_vm_id}
use ckb_vm_deterministic_sch.Scheduler.Frame.{
  Leaves, Leaves-pure, Leaves-bind, Leaves-then, Leaves-gets, Leaves-if, Leaves-modify, Leaves-of,
}
use ckb_vm_deterministic_sch.Scheduler.Steady.{kept_of, kept, visit_vm-Leaves, set_state-Leaves}
use ckb_vm_deterministic_sch.Scheduler.Instances.Steady.{
  Counters, counters, ensure_vms_instantiated-Leaves,
}
use ckb_vm_deterministic_sch.Scheduler.Instances.Ensure.{ensure_vms_instantiated_lem}
use ckb_vm_deterministic_sch.Scheduler.Run.{
  Stop, exited, failed, release_joining, purge_others, purge_vm, terminate, conclude, charge,
  joining,
}
use ckb_vm_deterministic_sch.Scheduler.Run.Endings.{terminate_lem}
use ckb_vm_deterministic_sch.Scheduler.Run.Purges.{noted_IsValid}
use ckb_vm_deterministic_sch.Scheduler.Run.Deliver.{Still, Ends-kept}
use ckb_vm_deterministic_sch.Scheduler.Valid.{IsValid, Moved-IsValid}

-- The root VM has ended: it is the one VM left, and it is instantiated.
pub record IsFinished {e : Engine} (s : State e) : Type 0 where
  pub over : s.states ≡ (root_vm_id, terminated) ∷ []
  pub here : contains root_vm_id s.instantiated ≡ true
  pub alone : (k : ℕ) → contains k s.instantiated ≡ true → k ≡ root_vm_id
  pub asleep : s.suspended ≡ []

module _ {e : Engine} where
  -- the state after a VM has ended
  abbrev pub Settled : State e → Type 0
  Settled s = IsValid s ⊎ IsFinished s

  -- The exit codes stay in the order of their keys.
  abbrev KeepsOrder : State e → State e → Type 0
  KeepsOrder s s' = IsSorted s.terminated_vms → IsSorted s'.terminated_vms

  -- what `charge` changes
  abbrev pub charged : ℕ → State e → State e
  charged consumed s = record s { total_cycles = s.total_cycles + consumed }

  charged-IsValid : (consumed : ℕ) (s : State e) → IsValid s → IsValid (charged consumed s)
  charged-IsValid consumed s v = record {
    placed = record {
      few = v.placed.few;
      sorted = v.placed.sorted;
      apart = v.placed.apart;
      named = v.placed.named;
    };
    known = v.known;
    ordered = v.ordered;
    fresh = v.fresh;
    pipes_ordered = v.pipes_ordered;
    owned = v.owned;
    slots = v.slots;
    even = v.even;
    waiting = v.waiting;
  }

  -- A call of `iterate` that succeeds: the state is valid or the root VM has ended, the message box is
  -- empty, and the consumed cycles are charged.
  pub record Stepped (consumed : ℕ) (s s' : State e) : Type 0 where
    pub settled : Settled s'
    pub quiet : s'.message_box ≡ []
    pub total : s'.total_cycles ≡ s.total_cycles + consumed
    pub ordered : KeepsOrder s s'

-- the cycles and the message box
abbrev spent_of : Counters → ℕ × List Message
spent_of c = (c.0, c.4)

abbrev spent : (e : Engine) → State e → ℕ × List Message
spent e s = spent_of (counters e s)

module _ (e : Engine) (source : Source) where
  pub release_joining-kept :
      (code : ℕ) (l : List (ℕ × ℕ)) → Leaves (kept e) (release_joining e source code l)
  unfolding release_joining
  release_joining-kept code [] = Leaves-pure _ _
  release_joining-kept code ((id, addr) ∷ l) =
      Leaves-then _ _ _ (Leaves-of (counters e) kept_of _ (visit_vm-Leaves e source id _)) (
        Leaves-then _ _ _ (Leaves-of (counters e) kept_of _ (set_state-Leaves e id runnable))
          (release_joining-kept code l))

  pub purge_others-kept : (id : ℕ) → Leaves (kept e) (purge_others e source id)
  unfolding purge_others insert
  purge_others-kept id =
      Leaves-then _ _ _
        (Leaves-of (counters e) kept_of _ (ensure_vms_instantiated-Leaves e source _))
        (Leaves-modify _ _ λ s. refl)

  pub purge_vm-kept : (id : ℕ) → Leaves (kept e) (purge_vm e source id)
  unfolding purge_vm
  purge_vm-kept id = Leaves-modify _ _ λ s. refl

  -- what follows the note of the exit code
  pub terminated-kept :
      (id code : ℕ)
      → Leaves (kept e) (
          if id == root_vm_id
          then purge_others e source id
          else (gets (λ s. joining id s.states) >>= λ vms.
              release_joining e source code vms >> purge_vm e source id))
  terminated-kept id code = Leaves-if _ (id == root_vm_id) _ _ (purge_others-kept id) (
      Leaves-bind _ _ _ (Leaves-gets _ _)
        λ vms. Leaves-then _ _ _ (release_joining-kept code vms) (purge_vm-kept id))

  terminate-spent : (id code : ℕ) → Leaves (spent e) (terminate e source id code)
  unfolding terminate
  terminate-spent id code =
      Leaves-then _ _ _ (Leaves-modify _ _ λ s. refl)
        (Leaves-of (kept e) (λ k. (k.0, k.2)) _ (terminated-kept id code))

module _ (e : Engine) (source : Source) (t : IsTotal e) where
  purge_others_lem :
      (s : State e)
      → IsValid s
      → contains root_vm_id s.states ≡ true
      → Ends
          (λ _ s'. IsFinished s' × (s'.terminated_vms ≡ s.terminated_vms))
          (λ s'. IsValid s')
          (purge_others e source root_vm_id s)
  unfolding purge_others insert
  purge_others_lem s v known =
      Ends-bind _ _ s
        (Ends-weaken _
          (ensure_vms_instantiated_lem e source t (root_vm_id ∷ []) s v.placed (refl, tt)
            (omega arith) (λ k h. ground (arith, v.known k, known)))
          (λ _ s1 i. i) (λ s1 m. Moved-IsValid s s1 v m))
        λ _ s1 i. Ends-modify _ s1 (
          (record {
            over = refl;
            here = ground (
              arith,
              lookup-retain root_vm_id (λ k _. k == root_vm_id) s1.instantiated
                  i.moved.placed.sorted,
              i.arrived root_vm_id refl,
            );
            alone = λ k h. ground (
              arith,
              h,
              lookup-retain k (λ k _. k == root_vm_id) s1.instantiated i.moved.placed.sorted,
            );
            asleep = refl;
          }),
          ap (λ (x : State e). x.terminated_vms) i.moved.rest,
        )

  terminate_any :
      (id code : ℕ) (s : State e)
      → IsValid s
      → contains id s.states ≡ true
      → Ends
          (λ _ s'. Settled s' × KeepsOrder s s')
          (λ s'. IsValid s')
          (terminate e source id code s)
  terminate_any id code s v known = elim (Bool-cases (id == root_vm_id)) [
    | inl root ↦
        let same : id ≡ root_vm_id = ground (arith, root) in
        subst
          (λ k.
            Ends (λ _ s'. Settled s' × KeepsOrder s s') (λ s'. IsValid s')
              (terminate e source k code s))
          (sym same)
          (unfold terminate in
            Ends-bind_modify _ _ s (
              Ends-weaken _
                (purge_others_lem _ (noted_IsValid root_vm_id code s v)
                  (ap (λ k. contains k s.states) (sym same) ∙ known))
                (λ _ s' f. (
                  inr f.0,
                  λ o.
                      subst IsSorted (sym f.1) (insert-IsSorted root_vm_id code s.terminated_vms o),
                ))
                (λ s' h. h)))
    | inr other ↦
        Ends-weaken _ (terminate_lem e source t id code s v (ground (arith, other)))
          (λ _ s' d. (
            inl d.valid,
            λ o. subst IsSorted (sym d.ended) (insert-IsSorted id code s.terminated_vms o),
          ))
          (λ s' h. h)
  ]

  checked_add_sum : (a b : ℕ) → (checked_add a b ≡ none) ⊎ (checked_add a b ≡ some (a + b))
  unfolding checked_add
  checked_add_sum a b = elim (Bool-cases (ltb (a + b) u64_mod)) [
    | inl fits ↦ inr (rw fits refl)
    | inr over ↦ inl (rw over refl)
  ]

  -- The cycles of a run are added to the total, or the sum does not fit.
  pub charge_lem :
      (consumed : ℕ) (s : State e)
      → IsValid s
      → Ends
          (λ _ s'. IsValid s' × (s' ≡ charged consumed s))
          (λ s'. IsValid s')
          (charge e source consumed s)
  unfolding charge ◌>>=◌ modify
  charge_lem consumed s v = elim (checked_add_sum s.total_cycles consumed) [
    | inl over ↦ rw over (record { at = v })
    | inr fits ↦ rw fits (record { at = (charged-IsValid consumed s v, refl) })
  ]

  -- The end of a run, after its messages.
  pub conclude_lem :
      (id : ℕ) (a : Stop × ℕ) (s0 s : State e)
      → IsValid s
      → s.message_box ≡ []
      → s.total_cycles ≡ s0.total_cycles + a.1
      → s.terminated_vms ≡ s0.terminated_vms
      → contains id s0.states ≡ true
      → Still a.0 s0 s
      → Ends (λ consumed s'. Stepped consumed s0 s') (λ s'. IsValid s') (conclude e source id a s)
  unfolding conclude
  conclude_lem id (exited code, consumed) s0 s v empty total ended known still =
      Ends-bind _ _ s
        (Ends-kept (spent e) _ _ ((terminate-spent e source id code).at s)
          (terminate_any id code s v (ap (contains id) still ∙ known)))
        λ _ s' h. Ends-pure _ _ (record {
          settled = h.0.0;
          ordered = subst (λ m. IsSorted m → IsSorted s'.terminated_vms) ended h.0.1;
          quiet = ap (λ (p : ℕ × List Message). p.1) h.1 ∙ empty;
          total = ap (λ (p : ℕ × List Message). p.0) h.1 ∙ total;
        })
  conclude_lem id (failed (external x), consumed) s0 s v empty total ended known still =
      elim (Bool-cases (str_eq x "YIELD")) [
        | inl yields ↦ rw yields (
            Ends-pure _ _ (record {
              settled = inl v;
              quiet = empty;
              total = total;
              ordered = subst IsSorted (sym ended);
            }))
        | inr other ↦ rw other (Ends-raise _ s v)
      ]
  conclude_lem id (failed x, consumed) s0 s v empty total ended known still = Ends-raise _ s v
