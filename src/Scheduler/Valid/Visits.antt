-- ===== src/Scheduler/Valid/Visits.antt =====
-- Operations on one VM keep the scheduler valid.
use ckb_vm_deterministic_sch.Types.{VmState}
use ckb_vm_deterministic_sch.Prelude.{
  ℕ, ◌≡◌, refl, ◌∙◌, true, some, [], ◌∷◌, arith, inl, inr, Option-cases,
}
use ckb_vm_deterministic_sch.Outcome.{Outcome, Exec, ◌>>=◌}
use ckb_vm_deterministic_sch.Outcome.Ensures.{Ends, Ends-bind, Ends-via, Ends-weaken}
use ckb_vm_deterministic_sch.Table.{lookup, contains, insert}
use ckb_vm_deterministic_sch.Table.Laws.{lookup-insert, insert-IsSorted, length-insert_there}
use ckb_vm_deterministic_sch.Engine.{Engine, Source}
use ckb_vm_deterministic_sch.Engine.Laws.{Returns, IsTotal}
use ckb_vm_deterministic_sch.Scheduler.State.{
  State, Vm, at_vm, with_vm, on_machine, set_a0, store8_success, store64_success, set_state,
}
use ckb_vm_deterministic_sch.Scheduler.Instances.Placement.{
  IsPlaced, Moved, Moved-trans, is_known, insert-named,
}
use ckb_vm_deterministic_sch.Scheduler.Instances.Ensure.{ensure_vms_instantiated_lem}
use ckb_vm_deterministic_sch.Scheduler.Messages.{visit_vm}
use ckb_vm_deterministic_sch.Scheduler.Valid.{Fits, IsValid, Moved-IsValid, insert-IsValid}

-- The operation returns, and the VM keeps its id.
abbrev pub SameId : {e : Engine} {A : Type 0} → Vm e → Outcome A × Vm e → Type 0
SameId vm r = Ends (λ _ vm'. vm'.0.id ≡ vm.0.id) (λ vm'. vm'.0.id ≡ vm.0.id) r

abbrev pub IsCalm : {e : Engine} {A : Type 0} → Exec (Vm e) A → Type 0
IsCalm {e} m = (vm : Vm e) → SameId vm (m vm)

-- One VM has changed where it stands.
pub record Touched {e : Engine} (s s' : State e) : Type 0 where
  pub moved : Moved s s'
  pub same : (k : ℕ) → contains k s'.instantiated ≡ contains k s.instantiated

module _ {e : Engine} where
  pub replaced_Touched :
      (id : ℕ) (vm : Vm e) (s : State e)
      → IsPlaced s
      → contains id s.instantiated ≡ true
      → vm.0.id ≡ id
      → Touched s (record s { instantiated = insert id vm s.instantiated })
  replaced_Touched id vm s p h n = record {
    moved = record {
      placed = record {
        few = omega (arith, p.few, length-insert_there id vm s.instantiated p.sorted h);
        sorted = insert-IsSorted id vm s.instantiated p.sorted;
        apart = λ k. grind (arith, lookup-insert id k vm s.instantiated, p.apart k);
        named = λ k v f. insert-named id vm s p n k v f;
      };
      known = λ k. grind (arith, lookup-insert id k vm s.instantiated);
      rest = refl;
    };
    same = λ k. grind (arith, lookup-insert id k vm s.instantiated);
  }

  at_vm_lem :
      {A : Type 0} (id : ℕ) (m : Exec (Vm e) A) (vm : Vm e) (s : State e)
      → IsPlaced s
      → lookup id s.instantiated ≡ some vm
      → SameId vm (m vm)
      → Ends (λ _ s'. Touched s s') (λ s'. Touched s s') (at_vm e id m (some vm) s)
  unfolding with_vm
  at_vm_lem id m vm s p found calm =
      let put = λ (vm' : Vm e) (n : vm'.0.id ≡ vm.0.id).
        replaced_Touched id vm' s p (rw found refl) (n ∙ p.named id vm found) in
      Ends-via (m vm) (λ vm'. record s { instantiated = insert id vm' s.instantiated }) calm
        (λ _ vm' n. put vm' n) put

  -- An operation on an instantiated VM.
  pub with_vm_lem :
      {A : Type 0} (id : ℕ) (m : Exec (Vm e) A) (s : State e)
      → IsPlaced s
      → contains id s.instantiated ≡ true
      → IsCalm m
      → Ends (λ _ s'. Touched s s') (λ s'. Touched s s') (with_vm e id m s)
  unfolding with_vm
  with_vm_lem id m s p h calm = elim (Option-cases (lookup id s.instantiated)) [
    | inl absent ↦ cc
    | inr (vm, found) ↦ rw (found, with_vm) (at_vm_lem id m vm s p found (calm vm))
  ]

module _ (e : Engine) where
  pub on_machine-IsCalm :
      {A : Type 0} (m : Exec e.Machine A)
      → ((mac : e.Machine) → Returns (m mac))
      → IsCalm (on_machine e m)
  unfolding on_machine
  on_machine-IsCalm m h (c, mac) =
      Ends-via (m mac) (λ mac'. (c, mac')) (h mac) (λ _ _ _. refl) (λ _ _. refl)

  pub set_a0-IsCalm : (code : ℕ) → IsCalm (set_a0 e code)
  unfolding set_a0
  set_a0-IsCalm code (c, mac) = record { at = refl }

  pub bind-IsCalm :
      {A B : Type 0} (m : Exec (Vm e) A) (f : A → Exec (Vm e) B)
      → IsCalm m
      → ((a : A) → IsCalm (f a))
      → IsCalm (m >>= f)
  bind-IsCalm m f h k vm =
      Ends-bind m f vm (h vm)
        λ a vm' n. Ends-weaken _ (k a vm') (λ _ vm'' n'. n' ∙ n) (λ vm'' n'. n' ∙ n)

module _ (e : Engine) (t : IsTotal e) where
  pub store8_success-IsCalm : (addr value : ℕ) → IsCalm (store8_success e addr value)
  unfolding store8_success
  store8_success-IsCalm addr value =
      bind-IsCalm e _ _ (on_machine-IsCalm e _ (t.store8 addr value)) (λ _. set_a0-IsCalm e 0)

  pub store64_success-IsCalm : (addr value : ℕ) → IsCalm (store64_success e addr value)
  unfolding store64_success
  store64_success-IsCalm addr value =
      bind-IsCalm e _ _ (on_machine-IsCalm e _ (t.store64 addr value)) (λ _. set_a0-IsCalm e 0)

module _ (e : Engine) (source : Source) (t : IsTotal e) where
  -- A VM of the scheduler is instantiated first if need be.
  pub visit_vm_lem :
      (id : ℕ) (m : Exec (Vm e) (Unit {0})) (s : State e)
      → IsPlaced s
      → is_known id s ≡ true
      → IsCalm m
      → Ends (λ _ s'. Moved s s') (λ s'. Moved s s') (visit_vm e source id m s)
  unfolding visit_vm
  visit_vm_lem id m s p known calm =
      Ends-bind _ _ s
        (ensure_vms_instantiated_lem e source t (id ∷ []) s p (refl, tt) (omega arith)
          (λ k h. ground (arith, known)))
        λ _ s1 i.
          Ends-weaken _ (with_vm_lem id m s1 i.moved.placed (i.arrived id (ground arith)) calm)
            (λ _ s2 c. Moved-trans s s1 s2 i.moved c.moved)
            (λ s2 c. Moved-trans s s1 s2 i.moved c.moved)

  -- Visiting a VM of a valid scheduler: nothing but VMs' places and insides changes.
  pub visit_vm-IsValid :
      (id : ℕ) (m : Exec (Vm e) (Unit {0})) (s : State e)
      → IsValid s
      → contains id s.states ≡ true
      → IsCalm m
      → Ends (λ _ s'. IsValid s' × Moved s s') (λ s'. IsValid s') (visit_vm e source id m s)
  visit_vm-IsValid id m s v there calm =
      Ends-weaken _ (visit_vm_lem id m s v.placed (v.known id ∙ there) calm)
        (λ _ s' moved. (Moved-IsValid s s' v moved, moved)) (λ s' moved. Moved-IsValid s s' v moved)

-- `set_state` for a VM of the scheduler.
pub set_state-IsValid :
    {e : Engine} (id : ℕ) (st : VmState) (s : State e)
    → IsValid s
    → contains id s.states ≡ true
    → Fits s.pipes id st
    → Ends (λ _ s'. IsValid s') (λ s'. IsValid s') (set_state e id st s)
unfolding set_state
set_state-IsValid id st s v there fits = record { at = insert-IsValid id st s v there fits }
