-- ===== src/Scheduler/Run/Reach.antt =====
-- The states that a scheduler passes through: after booting, between calls of `iterate`, and resumed
-- from a suspension.
use ckb_vm_deterministic_sch.Prelude.{
  ℕ, ◌≡◌, ◌≢◌, refl, sym, ap, subst, ◌∙◌, inl, inr, some, [], ◌∷◌, arith,
}
use ckb_vm_deterministic_sch.Outcome.{Outcome, ok, err, Error, cycles_overflow}
use ckb_vm_deterministic_sch.Outcome.Ensures.{
  IsSettled, Ends, Ends-bind, Ends-bind_gets, Ends-assert,
}
use ckb_vm_deterministic_sch.Table.{lookup, insert}
use ckb_vm_deterministic_sch.Table.Laws.{IsSorted}
use ckb_vm_deterministic_sch.Types.{runnable, terminated, FullSuspendedState}
use ckb_vm_deterministic_sch.Types.Piece.{program}
use ckb_vm_deterministic_sch.Engine.{Engine, Source}
use ckb_vm_deterministic_sch.Scheduler.State.{State, new, root_vm_id}
use ckb_vm_deterministic_sch.Scheduler.Steady.{kept, boot_vm-kept}
use ckb_vm_deterministic_sch.Scheduler.Instances.Boot.{boot_vm_lem}
use ckb_vm_deterministic_sch.Scheduler.Messages.Every.{HasRoom}
use ckb_vm_deterministic_sch.Scheduler.Io.Valid.{IsAttended}
use ckb_vm_deterministic_sch.Scheduler.Run.{boot, iterate}
use ckb_vm_deterministic_sch.Scheduler.Run.Deliver.{Kept, Ends-kept}
use ckb_vm_deterministic_sch.Scheduler.Run.Finish.{Settled}
use ckb_vm_deterministic_sch.Scheduler.Run.Rounds.{IsSound, iterate_lem}
use ckb_vm_deterministic_sch.Engine.Laws.{IsTotal, IsServing}
use ckb_vm_deterministic_sch.Scheduler.Run.Errors.{iterate-AfterError}
use ckb_vm_deterministic_sch.Scheduler.Run.Returned.{PickedReturns-of_settled}
use ckb_vm_deterministic_sch.Scheduler.Suspend.{suspend, resume}
use ckb_vm_deterministic_sch.Scheduler.Suspend.Whole.{suspend_lem}
use ckb_vm_deterministic_sch.Scheduler.Valid.{IsValid}

-- `run` goes on: the root VM has not ended.
abbrev pub IsLive : {e : Engine} → State e → Type 0
IsLive s = ¬ (lookup root_vm_id s.states ≡ some terminated)

-- What holds of every state on the way.
pub record Holds {e : Engine} (s : State e) : Type 0 where
  pub settled : Settled s
  pub quiet : s.message_box ≡ []
  pub ordered : IsSorted s.terminated_vms

module _ (e : Engine) (source : Source) where
  -- What `run` and `verify_tx` do with a scheduler: `boot`, which succeeds; `iterate`, as the loop of
  -- `run` calls it, while the root VM has not ended; once more after a call that failed; `suspend` and
  -- `resume`, while the root VM has not ended. There are ids left for a VM and a pipe, and every VM is
  -- instantiated that waits on a pipe with a closed other end. `verify_tx` goes on after an error only
  -- if it is that of a cycle limit; here it is any but an overflow of the total, after which messages may
  -- be left in the box.
  pub data Reach : State e → Type 0 where
    booted : (s : State e) → boot e source (new e) ≡ (ok tt, s) → Reach s
    round :
        (signal : e.Pause) (limit consumed : ℕ) (s s' : State e)
        → Reach s
        → IsLive s
        → HasRoom s
        → IsAttended s
        → iterate e source signal limit s ≡ (ok consumed, s')
        → Reach s'
    interrupted :
        (signal : e.Pause) (limit : ℕ) (x : Error) (s s' : State e)
        → Reach s
        → IsLive s
        → HasRoom s
        → IsAttended s
        → iterate e source signal limit s ≡ (err x, s')
        → x ≢ cycles_overflow
        → Reach s'
    resumed :
        (s s' : State e) (full : FullSuspendedState e.Snapshot)
        → Reach s
        → IsLive s
        → suspend e s ≡ (ok full, s')
        → Reach (resume e full)

-- What an outcome that is a value comes with.
Ends-ok :
    {S A : Type 0} {Q : A → S → Type 0} {R : S → Type 0} (r : Outcome A × S) (a : A) (s : S)
    → r ≡ (ok a, s)
    → Ends Q R r
    → Q a s
Ends-ok {Q = Q} {R = R} r a s same h = (subst (λ x. Ends Q R x) same h).at

Ends-err :
    {S A : Type 0} {Q : A → S → Type 0} {R : S → Type 0} (r : Outcome A × S) (x : Error) (s : S)
    → r ≡ (err x, s)
    → Ends Q R r
    → R s
Ends-err {Q = Q} {R = R} r x s same h = (subst (λ y. Ends Q R y) same h).at

module _ {e : Engine} where
  pub live-IsValid : (s : State e) → IsLive s → Settled s → IsValid s
  live-IsValid s live (inl v) = v
  live-IsValid s live (inr f) =
      absurd (live (ap (lookup root_vm_id) f.over ∙ (unfold lookup in refl)))

  new-IsValid : IsValid (new e)
  unfolding new lookup
  new-IsValid = record {
    placed = record {
      few = omega arith;
      sorted = tt;
      apart = λ k h. ground arith;
      named = λ k vm h. cc;
    };
    known = λ k. ground arith;
    ordered = tt;
    fresh = λ k h. ground arith;
    pipes_ordered = tt;
    owned = λ p o h. ground arith;
    slots = λ p o h. ground arith;
    even = refl;
    waiting = λ k st h. cc;
  }

module _ (e : Engine) (source : Source) (total : IsTotal e) (serving : IsServing source) where
  -- A new scheduler boots without a panic; if that succeeds, its one VM is the root VM, which may
  -- run, its state is valid and its message box is empty. After an error the state is valid. The
  -- foreign operations are assumed to return.
  pub boot_lem :
      Ends
        (λ _ s'. Holds s' × (s'.states ≡ (root_vm_id, runnable) ∷ []))
        (λ s'. IsValid s')
        (boot e source (new e))
  unfolding boot new insert lookup
  boot_lem = Ends-bind_gets _ _ (new e) (
      Ends-bind {Q = λ _ s'. Holds s' × (s'.states ≡ (root_vm_id, runnable) ∷ [])} _ _ (new e)
        (Ends-bind _ _ (new e)
          (Ends-kept (kept e) _ _ ((boot_vm-kept e source program 0 _ []).at (new e))
            (boot_vm_lem e source total serving program 0 _ [] (new e) new-IsValid (omega arith)))
          λ id s1 b. Ends-assert _ s1 (rw b.0.fresh_id refl) (
            record {
              settled = inl b.0.valid;
              quiet = ap (λ (k : Kept). k.2) b.1;
              ordered = subst IsSorted (sym (ap (λ (k : Kept). k.1) b.1)) tt;
            },
            b.0.states ∙ ap (λ k. insert k runnable []) b.0.fresh_id,
          ))
        λ _ s1 h. Ends-bind_gets _ _ s1 (Ends-assert _ s1 (rw h.1 refl) h))

module _ (e : Engine) (source : Source) (sound : IsSound e source) where
  -- Every state that a scheduler reaches by a boot that succeeds, by calls of iterate that succeed
  -- or that fail with any error but an overflow of the total of cycles, and by suspensions from
  -- which it is resumed, is valid (so at most four VMs are instantiated), or the root VM has ended
  -- and is the only one left; its message box is empty and its exit codes are in the order of their
  -- keys. iterate is called, and a scheduler is suspended, while the root VM has not ended; for
  -- iterate there are ids left for a VM and a pipe, and every VM that waits on a pipe with a closed
  -- other end is instantiated. The foreign operations are assumed to return, loads of words to give
  -- words below 2^64, and a run to call its handler up to its first failure and to reach the
  -- message box in no other way; that runs return is not assumed.
  pub Reach-Holds : (s : State e) → Reach e source s → Holds s
  Reach-Holds s (booted _ went) =
      (Ends-ok _ tt s went (boot_lem e source sound.total sound.serving)).0
  Reach-Holds s' (round signal limit consumed s _ r live room attended went) =
      let h = Reach-Holds s r in
      let returns =
        PickedReturns-of_settled e source signal limit s
          (subst (λ (o : Outcome ℕ × State e). IsSettled o.0) (sym went) tt) in
      let stepped = Ends-ok _ consumed s' went (
        iterate_lem e source sound signal limit s
          (record { valid = live-IsValid s live h.settled; quiet = h.quiet; room = room }) attended
          returns) in
      record {
        settled = stepped.settled;
        quiet = stepped.quiet;
        ordered = stepped.ordered h.ordered;
      }
  Reach-Holds s' (interrupted signal limit x s _ r live room attended went fits) =
      let h = Reach-Holds s r in
      let returns =
        PickedReturns-of_settled e source signal limit s
          (subst (λ (o : Outcome ℕ × State e). IsSettled o.0) (sym went) tt) in
      let left = iterate-AfterError e source signal limit s s' x h.quiet h.ordered went in
      record {
        settled = inl (
            Ends-err _ x s' went (
              iterate_lem e source sound signal limit s
                (record { valid = live-IsValid s live h.settled; quiet = h.quiet; room = room })
                attended returns));
        quiet = elim left.0 [ inl over ↦ absurd (fits over) | inr empty ↦ empty ];
        ordered = left.1;
      }
  Reach-Holds _ (resumed s s' full r live went) =
      let h = Reach-Holds s r in
      let again =
        Ends-ok _ full s' went
          (suspend_lem e sound.total s (live-IsValid s live h.settled) h.ordered) in
      record {
        settled = inl again.valid;
        quiet = unfold resume in refl;
        ordered = subst IsSorted (sym again.terminated_vms) h.ordered;
      }
