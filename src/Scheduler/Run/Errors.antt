-- ===== src/Scheduler/Run/Errors.antt =====
-- The state after a call of `iterate` that fails: `verify_tx` suspends it, or calls `run` again.
use ckb_vm_deterministic_sch.Outcome.{
  Error, Outcome, ok, err, panic, diverge, Exec, cycles_overflow, external, lift, or_raise, modify,
  assert, pure, raise, ◌>>=◌,
}
use text.Mathlib.Text.{◌==◌ as str_eq}
use ckb_vm_deterministic_sch.Prelude.{
  ℕ, Bool, true, false, ◌≡◌, refl, sym, ap, subst, ◌∙◌, ◌⊎◌, inl, inr, Option, none, some, List, [],
  ◌∷◌, Bool-cases,
}
use ckb_vm_deterministic_sch.Table.{Table, lookup, insert}
use ckb_vm_deterministic_sch.Table.Laws.{IsSorted, insert-IsSorted}
use ckb_vm_deterministic_sch.Types.{Message}
use ckb_vm_deterministic_sch.Engine.{Engine, Source}
use ckb_vm_deterministic_sch.Syscalls.{ecall}
use ckb_vm_deterministic_sch.Syscalls.Access.{checked_add}
use ckb_vm_deterministic_sch.Scheduler.State.{State, Vm}
use ckb_vm_deterministic_sch.Scheduler.Frame.{
  Leaves, Leaves-bind, Leaves-then, Leaves-gets, Leaves-pure, Leaves-of, Leaves-or_raise,
  Leaves-modify, Leaves-assert,
}
use ckb_vm_deterministic_sch.Scheduler.Steady.{
  kept, kept_of, process_message-kept, process_io-Leaves,
}
use ckb_vm_deterministic_sch.Scheduler.Instances.Steady.{counters, ensure_vms_instantiated-Leaves}
use ckb_vm_deterministic_sch.Scheduler.Messages.{process_message_box, process_messages}
use ckb_vm_deterministic_sch.Scheduler.Run.{
  Stop, exited, failed, settle, at_machine, run_machine, charge, terminate, conclude, run_vm,
  iterate,
}
use ckb_vm_deterministic_sch.Scheduler.Run.Deliver.{Kept}
use ckb_vm_deterministic_sch.Scheduler.Run.Machine.{run_start}
use ckb_vm_deterministic_sch.Scheduler.Run.Finish.{terminated-kept}
use ckb_vm_deterministic_sch.Outcome.Partial.{Fails, Fails-bind, Fails-gets}

-- What is asked of the state before an operation that may fail, and what holds after it has failed: the
-- message box is empty, unless the cycles overflow, and the exit codes are in the order of their keys.
abbrev Quiet : {e : Engine} → State e → Type 0
Quiet s = (s.message_box ≡ []) × IsSorted s.terminated_vms

abbrev pub AfterError : {e : Engine} → Error → State e → Type 0
AfterError x s = ((x ≡ cycles_overflow) ⊎ (s.message_box ≡ [])) × IsSorted s.terminated_vms

module _ {e : Engine} where
  same-Quiet : (s s' : State e) → kept e s' ≡ kept e s → Quiet s → Quiet s'
  same-Quiet s s' same q =
      (ap (λ (k : Kept). k.2) same ∙ q.0, subst IsSorted (sym (ap (λ (k : Kept). k.1) same)) q.1)

  module _ {A : Type 0} where
    kept-AtError :
        (r : Outcome A × State e) (s : State e)
        → kept e r.1 ≡ kept e s
        → Quiet s
        → Fails AfterError r
    kept-AtError (ok a, s') s same q = record { at = tt }
    kept-AtError (err x, s') s same q =
        let q' = same-Quiet s s' same q in record { at = (inr q'.0, q'.1) }
    kept-AtError (panic, s') s same q = record { at = tt }
    kept-AtError (diverge, s') s same q = record { at = tt }

    kept-Fails :
        (m : Exec (State e) A)
        → Leaves (kept e) m
        → (s : State e) → Quiet s
        → Fails AfterError (m s)
    kept-Fails m h s q = kept-AtError (m s) s (h.at s) q

    -- the state after a value
    after-same :
        {T : Type 0} (g : State e → T) (m : Exec (State e) A) (s s' : State e) (a : A)
        → Leaves g m
        → m s ≡ (ok a, s')
        → g s' ≡ g s
    after-same g m s s' a h went = ap (λ (r : Outcome A × State e). g r.1) (sym went) ∙ h.at s

module _ (e : Engine) (source : Source) where
  abbrev ended : State e → Table ℕ
  ended s = s.terminated_vms

  abbrev stopped : Outcome ℕ → ℕ → Exec (State e) (Stop × ℕ)
  stopped r n = lift (settle r) >>= λ stop. pure (stop, n)

  settled_lem :
      (r : Outcome ℕ) (n : ℕ) (s : State e)
      → Fails AfterError (stopped r n s) × ((stopped r n s).1 ≡ s)
  unfolding ◌>>=◌
  settled_lem (ok code) n s = (record { at = tt }, refl)
  settled_lem (err x) n s = (record { at = tt }, refl)
  settled_lem panic n s = (record { at = tt }, refl)
  settled_lem diverge n s = (record { at = tt }, refl)

  at_machine-Fails :
      (signal : e.Pause) (limit id : ℕ) (o : Option (Vm e)) (s : State e)
      → Fails AfterError (at_machine e source signal limit id o s)
        × (ended (at_machine e source signal limit id o s).1 ≡ ended s)
  unfolding run_machine
  at_machine-Fails signal limit id none s = (record { at = tt }, refl)
  at_machine-Fails signal limit id (some vm) s =
      let t = e.run (ecall e source) (run_start e signal limit vm s) in
      let h = settled_lem t.0 (e.cycles t.1.1) (record s {
        instantiated = insert id (t.1.0.context, e.set_cycles 0 t.1.1) s.instantiated;
        message_box = t.1.0.message_box;
      }) in
      (h.0, ap ended h.1)

  run_machine-Fails :
      (signal : e.Pause) (limit id : ℕ) (s : State e)
      → Fails AfterError (run_machine e source signal limit id s)
        × (ended (run_machine e source signal limit id s).1 ≡ ended s)
  unfolding run_machine
  run_machine-Fails signal limit id s =
      at_machine-Fails signal limit id (lookup id s.instantiated) s

  charge-ended : (consumed : ℕ) → Leaves ended (charge e source consumed)
  unfolding charge
  charge-ended consumed =
      Leaves-bind _ _ _ (Leaves-gets _ _)
        λ old. Leaves-bind _ _ _ (Leaves-or_raise _ _ _) λ total. Leaves-modify _ _ λ s. refl

  raised_lem :
      (o : Option ℕ) (s : State e)
      → IsSorted s.terminated_vms
      → Fails AfterError (or_raise cycles_overflow o s)
  unfolding or_raise
  raised_lem none s o = record { at = (inl refl, o) }
  raised_lem (some n) s o = record { at = tt }

  charge-Fails :
      (consumed : ℕ) (s : State e)
      → IsSorted s.terminated_vms
      → Fails AfterError (charge e source consumed s)
  unfolding charge modify
  charge-Fails consumed s o = Fails-gets _ _ s (
      Fails-bind _ _ s (raised_lem (checked_add s.total_cycles consumed) s o)
        λ total s' went. record { at = tt })

  process_messages-kept : (box : List Message) → Leaves (kept e) (process_messages e source box)
  unfolding process_messages
  process_messages-kept [] = Leaves-pure _ _
  process_messages-kept (x ∷ box) =
      Leaves-then _ _ _ (process_message-kept e source x) (process_messages-kept box)

  -- After the box is drained: nothing is in it, whatever happens to the messages.
  process_message_box-Fails :
      (s : State e)
      → IsSorted s.terminated_vms
      → Fails AfterError (process_message_box e source s)
        × (kept e (process_message_box e source s).1 ≡ kept e (record s { message_box = [] }))
  unfolding process_message_box ◌>>=◌ modify
  process_message_box-Fails s o =
      let same = (process_messages-kept s.message_box).at (record s { message_box = [] }) in
      (kept-AtError _ (record s { message_box = [] }) same (refl, o), same)

  terminate-Fails :
      (id code : ℕ) (s : State e) → Quiet s → Fails AfterError (terminate e source id code s)
  unfolding terminate ◌>>=◌ modify
  terminate-Fails id code s q =
      let noted = record s { terminated_vms = insert id code s.terminated_vms } in
      kept-Fails _ (terminated-kept e source id code) noted
        (q.0, insert-IsSorted id code s.terminated_vms q.1)

  raise-Fails :
      {A : Type 0} (x : Error) (s : State e) → Quiet s → Fails {A = A} AfterError (raise x s)
  unfolding raise
  raise-Fails x s q = record { at = (inr q.0, q.1) }

  pure-Fails : {A : Type 0} (a : A) (s : State e) → Fails AfterError (pure a s)
  unfolding pure
  pure-Fails a s = record { at = tt }

  assert-Fails : (b : Bool) (s : State e) → Fails AfterError (assert b s)
  unfolding assert
  assert-Fails true s = record { at = tt }
  assert-Fails false s = record { at = tt }

  conclude-Fails :
      (id : ℕ) (a : Stop × ℕ) (s : State e) → Quiet s → Fails AfterError (conclude e source id a s)
  unfolding conclude
  conclude-Fails id (exited code, consumed) s q =
      Fails-bind _ _ s (terminate-Fails id code s q) λ _ s' went. pure-Fails consumed s'
  conclude-Fails id (failed (external x), consumed) s q = elim (Bool-cases (str_eq x "YIELD")) [
    | inl yields ↦ rw yields (pure-Fails consumed s)
    | inr other ↦ rw other (raise-Fails _ s q)
  ]
  conclude-Fails id (failed x, consumed) s q = raise-Fails _ s q

  run_vm-Fails :
      (signal : e.Pause) (limit id : ℕ) (s : State e)
      → Quiet s
      → Fails AfterError (run_vm e source signal limit id s)
  unfolding run_vm
  run_vm-Fails signal limit id s q =
      let ensure_kept =
        Leaves-of (counters e) kept_of _ (ensure_vms_instantiated-Leaves e source (id ∷ [])) in
      Fails-bind _ _ s (kept-Fails _ ensure_kept s q) λ _ s1 went1.
        let q1 = same-Quiet s s1 (after-same (kept e) _ s s1 _ ensure_kept went1) q in
        let ran = run_machine-Fails signal limit id s1 in
        Fails-bind _ _ s1 ran.0 λ a s2 went2.
          let o2 =
            subst IsSorted (sym ran.1 ∙ ap (λ (r : Outcome (Stop × ℕ) × State e). ended r.1) went2)
              q1.1 in
          Fails-bind _ _ s2 (charge-Fails a.1 s2 o2) λ _ s3 went3.
            let o3 =
              subst IsSorted (sym (after-same ended _ s2 s3 _ (charge-ended a.1) went3)) o2 in
            let drained = process_message_box-Fails s3 o3 in
            Fails-bind _ _ s3 drained.0 λ _ s4 went4.
              let q4 =
                same-Quiet (record s3 { message_box = [] }) s4
                  (ap (λ (r : Outcome (Unit {0}) × State e). kept e r.1) (sym went4) ∙ drained.1)
                  (refl, o3) in
              Fails-gets _ _ s4 (
                Fails-bind _ _ s4 (assert-Fails _ s4) λ _ s5 went5. conclude-Fails id a s5 (
                  same-Quiet s4 s5
                    (ap (kept e) (after-same (λ s. s) _ s4 s5 _ (Leaves-assert _ _) went5)) q4))

  iterate-Fails :
      (signal : e.Pause) (limit : ℕ) (s : State e)
      → Quiet s
      → Fails AfterError (iterate e source signal limit s)
  unfolding iterate
  iterate-Fails signal limit s q =
      let io_kept = Leaves-of (counters e) kept_of _ (process_io-Leaves e source) in
      Fails-bind _ _ s (kept-Fails _ io_kept s q) λ _ s1 went1.
        let q1 = same-Quiet s s1 (after-same (kept e) _ s s1 _ io_kept went1) q in
        Fails-gets _ _ s1 (
          Fails-bind _ _ s1 (kept-Fails _ (Leaves-or_raise _ _ _) s1 q1) λ id s2 went2.
            run_vm-Fails signal limit id s2
              (same-Quiet s1 s2 (after-same (kept e) _ s1 s2 _ (Leaves-or_raise _ _ _) went2) q1))

  -- After a call of `iterate` that fails, from a state with an empty message box and the exit codes in
  -- order: unless the cycles overflow, the box is empty; the exit codes are in order.
  pub iterate-AfterError :
      (signal : e.Pause) (limit : ℕ) (s s' : State e) (x : Error)
      → s.message_box ≡ []
      → IsSorted s.terminated_vms
      → iterate e source signal limit s ≡ (err x, s')
      → AfterError x s'
  iterate-AfterError signal limit s s' x empty o went =
      (subst (Fails AfterError) went (iterate-Fails signal limit s (empty, o))).at
