-- ===== src/Scheduler/Run/Rounds.antt =====
-- A call of `iterate` as a whole.
use ckb_vm_deterministic_sch.Table.Laws.{IsSorted}
use ckb_vm_deterministic_sch.Outcome.{Error, Exec, or_raise, ◌>>=◌, ok}
use ckb_vm_deterministic_sch.Prelude.{
  ℕ, ◌+◌, ◌≡◌, refl, sym, ap, subst, ◌∙◌, true, Option, none, some, [], ◌∷◌, arith, is_some,
}
use ckb_vm_deterministic_sch.Outcome.Ensures.{
  Ends, Ends-bind, Ends-bind_gets, Ends-bind_assert, Ends-weaken, Ends-same,
}
use ckb_vm_deterministic_sch.Table.{lookup, contains}
use ckb_vm_deterministic_sch.Types.{runnable}
use ckb_vm_deterministic_sch.Engine.{Engine, Source}
use ckb_vm_deterministic_sch.Engine.Laws.{IsTotal, IsServing, IsRunner, HasWords}
use ckb_vm_deterministic_sch.Scheduler.State.{State}
use ckb_vm_deterministic_sch.Scheduler.Steady.{process_io-Leaves}
use ckb_vm_deterministic_sch.Scheduler.Instances.Steady.{
  Counters, counters, ensure_vms_instantiated-Leaves,
}
use ckb_vm_deterministic_sch.Scheduler.Instances.{ensure_vms_instantiated}
use ckb_vm_deterministic_sch.Scheduler.Io.{process_io}
use ckb_vm_deterministic_sch.Scheduler.Instances.Ensure.{ensure_vms_instantiated_lem}
use ckb_vm_deterministic_sch.Scheduler.Messages.Every.{HasRoom}
use ckb_vm_deterministic_sch.Scheduler.Io.Valid.{IsAttended, process_io_lem}
use ckb_vm_deterministic_sch.Scheduler.Run.{Stop, exited, failed, run_vm, iterate, pick}
use ckb_vm_deterministic_sch.Scheduler.Run.Choice.{pick-largest}
use ckb_vm_deterministic_sch.Scheduler.Run.Machine.{Sent, RunReturns, run_machine_lem}
use ckb_vm_deterministic_sch.Scheduler.Run.Deliver.{Still, Ends-kept, process_message_box_lem}
use ckb_vm_deterministic_sch.Scheduler.Run.Finish.{Stepped, charge_lem, conclude_lem}
use ckb_vm_deterministic_sch.Scheduler.Valid.{IsValid, Moved-IsValid}

-- What is assumed of the foreign code for a call of `iterate`.
pub record IsSound (e : Engine) (source : Source) : Type 1 where
  pub total : IsTotal e
  pub words : HasWords e
  pub runner : IsRunner e
  pub serving : IsServing source

-- An operation that needs a value: with one it goes on, and without one the state is as before.
Ends-or_raise :
    {S A B : Type 0} {T : B → S → Type 0} {R : S → Type 0} (x : Error) (o : Option A)
    (f : A → Exec S B) (s : S)
    → R s
    → ((a : A) → o ≡ some a → Ends T R (f a s))
    → Ends T R ((or_raise x o >>= f) s)
unfolding ◌>>=◌ or_raise
Ends-or_raise x none f s h k = record { at = h }
Ends-or_raise x (some a) f s h k = k a refl

module _ {e : Engine} where
  -- between two calls
  pub record IsReady (s : State e) : Type 0 where
    pub valid : IsValid s
    pub quiet : s.message_box ≡ []
    pub room : HasRoom s

  same-HasRoom : (s s' : State e) → counters e s' ≡ counters e s → HasRoom s → HasRoom s'
  same-HasRoom s s' same room = record {
    for_vm = rw (ap (λ (c : Counters). c.1) same) room.for_vm;
    for_pipe = rw (ap (λ (c : Counters). c.2) same) room.for_pipe;
  }

  same-IsReady :
      (s s' : State e) → counters e s' ≡ counters e s → IsValid s' → IsReady s → IsReady s'
  same-IsReady s s' same v r = record {
    valid = v;
    quiet = ap (λ (c : Counters). c.4) same ∙ r.quiet;
    room = same-HasRoom s s' same r.room;
  }

  earlier :
      (stop : Stop) (s s1 s2 : State e) → s1.states ≡ s.states → Still stop s1 s2 → Still stop s s2
  earlier (exited _) s s1 s2 same still = still ∙ same
  earlier (failed _) s s1 s2 same still = tt

module _ (e : Engine) (source : Source) where
  -- The run of the VM that `iterate` picks returns. Of the runs that the scheduler could make, this is
  -- the only one that is asked about.
  abbrev pub PickedReturns : e.Pause → ℕ → State e → Type 0
  PickedReturns signal limit s =
      (id : ℕ) (s1 s2 : State e)
      → process_io e source s ≡ (ok tt, s1)
      → pick s1.states ≡ some id
      → ensure_vms_instantiated e source (id ∷ []) s1 ≡ (ok tt, s2)
      → RunReturns e source signal limit id s2

module _ (e : Engine) (source : Source) (sound : IsSound e source) where
  -- Steps 2 to 4, once the VM stands among the instantiated ones.
  pub run_vm_lem :
      (signal : e.Pause) (limit id : ℕ) (s : State e)
      → IsReady s
      → lookup id s.states ≡ some runnable
      → ((s1 : State e)
          → ensure_vms_instantiated e source (id ∷ []) s ≡ (ok tt, s1)
          → RunReturns e source signal limit id s1)
      → Ends
          (λ consumed s'. Stepped consumed s s')
          (λ s'. IsValid s')
          (run_vm e source signal limit id s)
  unfolding run_vm
  run_vm_lem signal limit id s ready runs returns =
      let t = sound.total in
      let known : contains id s.states ≡ true = ap is_some runs in
      Ends-bind _ _ s
        (Ends-same _ (
          Ends-kept (counters e) _ _ ((ensure_vms_instantiated-Leaves e source (id ∷ [])).at s) (
            Ends-weaken _
              (ensure_vms_instantiated_lem e source t (id ∷ []) s ready.valid.placed (refl, tt)
                (omega arith) (λ k h. ground (arith, ready.valid.known k, known)))
              (λ _ s1 i. i) (λ s1 m. Moved-IsValid s s1 ready.valid m))))
        λ _ s1 came.
          let i = came.1 in
          let ready1 = same-IsReady s s1 i.1 (Moved-IsValid s s1 ready.valid i.0.moved) ready in
          let states1 = ap (λ (x : State e). x.states) i.0.moved.rest in
          Ends-bind _ _ s1
            (run_machine_lem e source sound.words sound.runner signal limit id s1 ready1.valid
              ready1.quiet (i.0.arrived id (ground arith)) (returns s1 came.0))
            λ a s2 r. Ends-bind _ _ s2 (charge_lem e source t a.1 s2 r.valid) λ _ s3 c.
              let states3 = ap (λ (x : State e). x.states) c.1 ∙ r.states ∙ states1 in
              let ids3 = ap (λ (x : State e). x.next_vm_id) c.1 ∙ r.ids in
              let slots3 = ap (λ (x : State e). x.next_pipe_slot) c.1 ∙ r.slots in
              let total1 = ap (λ (x : Counters). x.0) i.1 in
              Ends-bind _ _ s3
                (process_message_box_lem e source t sound.serving id a.0 s3 c.0
                  (record {
                    for_vm = rw ids3 ready1.room.for_vm;
                    for_pipe = rw slots3 ready1.room.for_pipe;
                  })
                  (ap (lookup id) states3 ∙ runs)
                  (subst (Sent id a.0) (sym (ap (λ (x : State e). x.message_box) c.1)) r.sent))
                λ _ s4 d. Ends-bind_gets _ _ s4 (
                  Ends-bind_assert _ _ s4 (rw d.empty refl) (
                    conclude_lem e source t id a s s4 d.valid d.empty
                      (d.total
                        ∙ ap (λ (x : State e). x.total_cycles) c.1
                        ∙ ap (λ n. n + a.1) (r.total ∙ total1))
                      (d.ended
                        ∙ ap (λ (x : State e). x.terminated_vms) c.1
                        ∙ r.ended
                        ∙ ap (λ (x : Counters). x.3) i.1)
                      known (earlier a.0 s s3 s4 states3 d.still)))

  -- In a valid state with an empty message box, ids left for a VM and a pipe, and every VM that
  -- waits on a pipe with a closed other end instantiated, iterate returns and does not panic, if
  -- the one run of a machine that it makes does not; its assertion holds. If it succeeds, the state
  -- is valid or the root VM has ended and is the only one left, the message box is empty, the total
  -- has grown by the consumed cycles, and the exit codes keep their order. After an error the state
  -- is valid. The other foreign operations are assumed to return, loads of words to give words
  -- below 2^64, and a run to call its handler up to its first failure and to reach the message box
  -- in no other way.
  pub iterate_lem :
      (signal : e.Pause) (limit : ℕ) (s : State e)
      → IsReady s
      → IsAttended s
      → PickedReturns e source signal limit s
      → Ends
          (λ consumed s'. Stepped consumed s s')
          (λ s'. IsValid s')
          (iterate e source signal limit s)
  unfolding iterate
  iterate_lem signal limit s ready attended returns =
      Ends-bind _ _ s
        (Ends-same _ (
          Ends-kept (counters e) _ _ ((process_io-Leaves e source).at s)
            (process_io_lem e source sound.total s ready.valid attended)))
        λ _ s1 went.
          let k = went.1 in
          let ready1 = same-IsReady s s1 k.1 k.0.valid ready in
          let total1 = ap (λ (x : Counters). x.0) k.1 in
          Ends-bind_gets _ _ s1 (
            Ends-or_raise _ (pick s1.states) _ s1 ready1.valid λ id found.
              Ends-weaken _
                (run_vm_lem signal limit id s1 ready1
                  (pick-largest s1.states id ready1.valid.ordered found).0
                  (λ s2 came. returns id s1 s2 went.0 found came))
                (λ n s2 h. record {
                  settled = h.settled;
                  quiet = h.quiet;
                  total = h.total ∙ ap (λ m. m + n) total1;
                  ordered =
                      λ o. h.ordered (subst IsSorted (sym (ap (λ (x : Counters). x.3) k.1)) o);
                })
                (λ s2 h. h))
