-- ===== src/Scheduler/Run/Deliver.antt =====
-- The message box within `iterate`: emptied after each run, and empty before the next.
use ckb_vm_deterministic_sch.Prelude.{ℕ, ◌≡◌, refl, ap, ◌∙◌, inl, inr, some, List, [], ◌∷◌}
use ckb_vm_deterministic_sch.Outcome.{Outcome, ok, err, panic, diverge}
use ckb_vm_deterministic_sch.Outcome.Ensures.{
  Ends, Ends-bind, Ends-bind_gets, Ends-bind_modify, Ends-pure, Ends-weaken,
}
use ckb_vm_deterministic_sch.Table.{Table, lookup}
use ckb_vm_deterministic_sch.Types.{runnable, Message}
use ckb_vm_deterministic_sch.Engine.{Engine, Source}
use ckb_vm_deterministic_sch.Engine.Laws.{IsTotal, IsServing}
use ckb_vm_deterministic_sch.Syscalls.Speech.{sender, IsChecked}
use ckb_vm_deterministic_sch.Scheduler.State.{State}
use ckb_vm_deterministic_sch.Scheduler.Steady.{kept, process_message-kept}
use ckb_vm_deterministic_sch.Scheduler.Messages.{process_messages, process_message_box}
use ckb_vm_deterministic_sch.Scheduler.Messages.Every.{HasRoom, process_message-KeepsValid}
use ckb_vm_deterministic_sch.Scheduler.Run.{Stop, exited, failed}
use ckb_vm_deterministic_sch.Scheduler.Run.Machine.{Sent, box-IsValid}
use ckb_vm_deterministic_sch.Scheduler.Valid.{IsValid}

-- What an operation leaves alone is as before, along with what it ends in.
pub Ends-kept :
    {S T A : Type 0} {Q : A → S → Type 0} {R : S → Type 0} (f : S → T) (c : T) (r : Outcome A × S)
    → f r.1 ≡ c
    → Ends Q R r
    → Ends (λ a s. Q a s × (f s ≡ c)) R r
Ends-kept f c (ok a, s) h k = record { at = (k.at, h) }
Ends-kept f c (err x, s) h k = record { at = k.at }
Ends-kept f c (panic, s) h k = absurd k.at
Ends-kept f c (diverge, s) h k = absurd k.at

abbrev pub Kept : Type 0
Kept = ℕ × Table ℕ × List Message

-- A VM that has exited has left the states as they were.
abbrev pub Still : {e : Engine} → Stop → State e → State e → Type 0
Still (exited _) s s' = s'.states ≡ s.states
Still (failed _) s s' = Unit

pub record Delivered {e : Engine} (stop : Stop) (s s' : State e) : Type 0 where
  pub valid : IsValid s'
  pub empty : s'.message_box ≡ []
  pub total : s'.total_cycles ≡ s.total_cycles
  pub ended : s'.terminated_vms ≡ s.terminated_vms
  pub still : Still stop s s'

module _ (e : Engine) (source : Source) (t : IsTotal e) (serving : IsServing source) where
  -- nothing is sent
  silent_lem :
      (stop : Stop) (s : State e)
      → IsValid s
      → s.message_box ≡ []
      → Ends (λ _ s'. Delivered stop s s') (λ s'. IsValid s') (process_messages e source [] s)
  unfolding process_messages
  silent_lem (exited _) s v empty =
      Ends-pure _ _ (record { valid = v; empty = empty; total = refl; ended = refl; still = refl })
  silent_lem (failed _) s v empty =
      Ends-pure _ _ (record { valid = v; empty = empty; total = refl; ended = refl; still = tt })

  one_lem :
      (x : Message) (id : ℕ) (stop : Stop) (s : State e)
      → IsValid s
      → HasRoom s
      → s.message_box ≡ []
      → sender x ≡ id
      → IsChecked x
      → lookup id s.states ≡ some runnable
      → Still stop s s
      → Ends
          (λ _ s'. IsValid s' × (kept e s' ≡ kept e s))
          (λ s'. IsValid s')
          (process_messages e source (x ∷ []) s)
  unfolding process_messages
  one_lem x id stop s v room empty from c ready still =
      Ends-bind _ _ s
        (Ends-kept (kept e) _ _ ((process_message-kept e source x).at s) (
          process_message-KeepsValid e source t serving x s v room c
            (ap (λ k. lookup k s.states) from ∙ ready)))
        λ _ s' h. Ends-pure _ _ h

  -- what is processed once the box is empty
  box_lem :
      (box : List Message) (id : ℕ) (stop : Stop) (s : State e)
      → IsValid s
      → HasRoom s
      → s.message_box ≡ []
      → lookup id s.states ≡ some runnable
      → Sent id stop box
      → Ends (λ _ s'. Delivered stop s s') (λ s'. IsValid s') (process_messages e source box s)
  box_lem box id (exited code) s v room empty ready none_sent =
      rw none_sent (silent_lem (exited code) s v empty)
  box_lem box id (failed x) s v room empty ready (inl none_sent) =
      rw none_sent (silent_lem (failed x) s v empty)
  box_lem box id (failed x) s v room empty ready (inr (msg, sent, from, c)) = rw sent (
      Ends-weaken _ (one_lem msg id (failed x) s v room empty from c ready tt)
        (λ _ s' h. record {
          valid = h.0;
          empty = ap (λ (p : Kept). p.2) h.1 ∙ empty;
          total = ap (λ (p : Kept). p.0) h.1;
          ended = ap (λ (p : Kept). p.1) h.1;
          still = tt;
        })
        (λ s' h. h))

  -- After a run, the box is emptied: the message in it, if any, is handled without a panic, and none is
  -- left for the next run.
  pub process_message_box_lem :
      (id : ℕ) (stop : Stop) (s : State e)
      → IsValid s
      → HasRoom s
      → lookup id s.states ≡ some runnable
      → Sent id stop s.message_box
      → Ends (λ _ s'. Delivered stop s s') (λ s'. IsValid s') (process_message_box e source s)
  unfolding process_message_box
  process_message_box_lem id stop s v room ready sent = Ends-bind_gets _ _ s (
      Ends-bind_modify _ _ s (
        Ends-weaken _
          (box_lem s.message_box id stop _ (box-IsValid [] s v)
            (record { for_vm = room.for_vm; for_pipe = room.for_pipe }) refl ready sent)
          (λ _ s' d. record {
            valid = d.valid;
            empty = d.empty;
            total = d.total;
            ended = d.ended;
            still = still_of stop s s' d.still;
          })
          (λ s' h. h)))
    where
      still_of :
          (stop : Stop) (s s' : State e)
          → Still stop (record s { message_box = [] }) s'
          → Still stop s s'
      still_of (exited _) s s' h = h
      still_of (failed _) s s' h = h
