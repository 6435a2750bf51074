-- ===== src/Scheduler/Io/Transfers.antt =====
-- A pending read and a pending write meet.
use ckb_vm_deterministic_sch.Prelude.{
  ℕ, ◌+◌, ◌-◌, ◌≡◌, ◌≢◌, refl, sym, ap, subst, ◌∙◌, true, List, [], ◌∷◌, arith, ◌==◌, inl, inr,
  Bool-cases, add64, sub64, min, if◌then◌else◌, mem,
}
use ckb_vm_deterministic_sch.Outcome.{Exec}
use ckb_vm_deterministic_sch.Outcome.Ensures.{Ends, Ends-bind, Ends-weaken}
use ckb_vm_deterministic_sch.Table.{contains, insert}
use ckb_vm_deterministic_sch.Table.Laws.{lookup-insert}
use ckb_vm_deterministic_sch.Types.{VmState, runnable, wait_for_read, wait_for_write}
use ckb_vm_deterministic_sch.Engine.{Engine, Source}
use ckb_vm_deterministic_sch.Engine.Laws.{IsTotal}
use ckb_vm_deterministic_sch.Scheduler.State.{State, Vm, with_vm, set_state}
use ckb_vm_deterministic_sch.Scheduler.Instances.{ensure_vms_instantiated}
use ckb_vm_deterministic_sch.Scheduler.Instances.Ensure.{ensure_vms_instantiated_lem}
use ckb_vm_deterministic_sch.Scheduler.Io.{copy_bytes, update_writer, transfer}
use ckb_vm_deterministic_sch.Scheduler.Valid.{IsValid, Fits, Moved-IsValid, insert-IsValid}
use ckb_vm_deterministic_sch.Scheduler.Valid.Visits.{
  IsCalm, with_vm_lem, Touched, on_machine-IsCalm, store64_success-IsCalm,
}

module _ {e : Engine} where
  -- A valid state with the same states and pipes, in which given VMs are instantiated.
  record Ready (s : State e) (ids : List ℕ) (s' : State e) : Type 0 where
    valid : IsValid s'
    states : s'.states ≡ s.states
    pipes : s'.pipes ≡ s.pipes
    there : (k : ℕ) → mem k ids ≡ true → contains k s'.instantiated ≡ true

  Ready-touch :
      (s : State e) (ids : List ℕ) (s' s'' : State e)
      → Ready s ids s'
      → Touched s' s''
      → Ready s ids s''
  Ready-touch s ids s' s'' r c =
      let moved = c.moved in
      record {
        valid = Moved-IsValid s' s'' r.valid moved;
        states = ap (λ (x : State e). x.states) moved.rest ∙ r.states;
        pipes = ap (λ (x : State e). x.pipes) moved.rest ∙ r.pipes;
        there = λ k m. c.same k ∙ r.there k m;
      }

  touch_lem :
      {A : Type 0} (s : State e) (ids : List ℕ) (id : ℕ) (m : Exec (Vm e) A) (s' : State e)
      → Ready s ids s'
      → mem id ids ≡ true
      → IsCalm m
      → Ends (λ _ s''. Ready s ids s'') (λ s''. IsValid s'') (with_vm e id m s')
  touch_lem s ids id m s' r h calm =
      Ends-weaken _ (with_vm_lem id m s' r.valid.placed (r.there id h) calm)
        (λ _ s'' c. Ready-touch s ids s' s'' r c) (λ s'' c. Moved-IsValid s' s'' r.valid c.moved)

-- The state of a writer that has written `consumed` bytes.
abbrev pub writer_after : ℕ → ℕ → ℕ → ℕ → ℕ → VmState
writer_after pipe consumed length buffer_addr length_addr =
    if consumed == length
    then runnable
    else wait_for_write pipe consumed length buffer_addr length_addr

-- The read ends, and the write goes on or ends; no other VM and no pipe changes.
pub record Transferred {e : Engine} (reader writer : ℕ) (after : VmState) (s s' : State e)
    : Type 0 where
  pub valid : IsValid s'
  pub states : s'.states ≡ insert writer after (insert reader runnable s.states)
  pub pipes : s'.pipes ≡ s.pipes

module _ {e : Engine} where
  -- A VM of the scheduler has entered another state.
  Ready-insert :
      (id : ℕ) (st : VmState) (s : State e) (ids : List ℕ) (s' : State e)
      → Ready s ids s'
      → contains id s.states ≡ true
      → Fits s.pipes id st
      → Ready
          (record s { states = insert id st s.states })
          ids
          (record s' { states = insert id st s'.states })
  Ready-insert id st s ids s' r known fits = record {
    valid =
        insert-IsValid id st s' r.valid (ap (contains id) r.states ∙ known)
          (subst (λ ps. Fits ps id st) (sym r.pipes) fits);
    states = ap (insert id st) r.states;
    pipes = r.pipes;
    there = r.there;
  }

  abbrev end_lem :
      (reader writer : ℕ) (after : VmState) (s : State e) (ids : List ℕ) (s' : State e)
      → Ready (record s { states = insert writer after (insert reader runnable s.states) }) ids s'
      → Transferred reader writer after s s'
  end_lem reader writer after s ids s' r = record {
    valid = r.valid;
    states = r.states;
    pipes = r.pipes;
  }

module _ (e : Engine) (t : IsTotal e) where
  set_state_lem :
      (id : ℕ) (st : VmState) (s : State e) (ids : List ℕ) (s' : State e)
      → Ready s ids s'
      → contains id s.states ≡ true
      → Fits s.pipes id st
      → Ends
          (λ _ s''. Ready (record s { states = insert id st s.states }) ids s'')
          (λ s''. IsValid s'')
          (set_state e id st s')
  unfolding set_state
  set_state_lem id st s ids s' r known fits = record {
    at = Ready-insert id st s ids s' r known fits;
  }

  update_writer_lem :
      (writer q total wl wb wa : ℕ) (s : State e) (ids : List ℕ) (s' : State e)
      → Ready s ids s'
      → mem writer ids ≡ true
      → contains writer s.states ≡ true
      → Fits s.pipes writer (wait_for_write q total wl wb wa)
      → Ends
          (λ _ s''.
            Ready
              (record s { states = insert writer (writer_after q total wl wb wa) s.states })
              ids
              s'')
          (λ s''. IsValid s'')
          (update_writer e writer q total wl wb wa s')
  unfolding update_writer
  update_writer_lem writer q total wl wb wa s ids s' r m known fits =
      elim (Bool-cases (total == wl)) [
        | inl done ↦ rw done (
            Ends-bind _ _ s' (touch_lem s ids writer _ s' r m (store64_success-IsCalm e t wa wl))
              λ _ s1 r1. set_state_lem writer runnable s ids s1 r1 known tt)
        | inr more ↦
            rw more (set_state_lem writer (wait_for_write q total wl wb wa) s ids s' r known fits)
      ]

module _ (e : Engine) (source : Source) (t : IsTotal e) where
  ready_lem :
      (reader writer : ℕ) (s : State e)
      → IsValid s
      → reader ≢ writer
      → contains reader s.states ≡ true
      → contains writer s.states ≡ true
      → Ends
          (λ _ s'. Ready s (reader ∷ writer ∷ []) s')
          (λ s'. IsValid s')
          (ensure_vms_instantiated e source (reader ∷ writer ∷ []) s)
  ready_lem reader writer s v apart known_r known_w =
      Ends-weaken _
        (ensure_vms_instantiated_lem e source t (reader ∷ writer ∷ []) s v.placed
          (ground (arith, apart), (refl, tt)) (omega arith) (λ k m. ground (arith, v.known k)))
        (λ _ s' i.
          let moved = i.moved in
          record {
            valid = Moved-IsValid s s' v moved;
            states = ap (λ (x : State e). x.states) moved.rest;
            pipes = ap (λ (x : State e). x.pipes) moved.rest;
            there = i.arrived;
          })
        (λ s' moved. Moved-IsValid s s' v moved)

  -- A read and a write by two known VMs of a valid state, where the writer owns the write end, has
  -- written no more than its length, and that is below 2^64. The write advances by what the read asks
  -- for, or by all that is left if that is less. Then the reader is runnable, the writer is runnable
  -- if its last byte is written and waits with the rest otherwise, and nothing else changes in the
  -- states and pipes. The state is valid afterwards, also after an error.
  pub transfer_lem :
      (reader writer p rl rb ra q consumed wl wb wa : ℕ) (s : State e)
      → IsValid s
      → reader ≢ writer
      → contains reader s.states ≡ true
      → contains writer s.states ≡ true
      → Fits s.pipes writer (wait_for_write q consumed wl wb wa)
      → Ends
          (λ _ s'.
            Transferred reader writer
              (writer_after q (consumed + min rl (wl - consumed)) wl wb wa)
              s
              s')
          (λ s'. IsValid s')
          (transfer e source reader
            (wait_for_read p rl rb ra)
            writer
            (wait_for_write q consumed wl wb wa)
            s)
  unfolding transfer copy_bytes
  transfer_lem reader writer p rl rb ra q consumed wl wb wa s v apart known_r known_w fits =
      let left : sub64 wl consumed ≡ wl - consumed = omega (arith, fits.2, fits.3) in
      let moved = min rl (wl - consumed) in
      let total : add64 consumed moved ≡ consumed + moved = omega (arith, fits.2, fits.3) in
      let ids = reader ∷ writer ∷ [] in
      let s_r : State e = record s { states = insert reader runnable s.states } in
      rw left (
        rw total (
          Ends-bind _ _ s (ready_lem reader writer s v apart known_r known_w) λ _ s1 r1.
            Ends-bind _ _ s1
              (Ends-bind _ _ s1
                (touch_lem s ids writer _ s1 r1 (ground arith)
                  (on_machine-IsCalm e _ (t.load_bytes _ _)))
                λ bytes s2 r2.
                  touch_lem s ids reader _ s2 r2 (ground arith)
                    (on_machine-IsCalm e _ (t.store_bytes _ bytes)))
              λ _ s3 r3.
                Ends-bind _ _ s3
                  (touch_lem s ids reader _ s3 r3 (ground arith)
                    (store64_success-IsCalm e t ra moved))
                  λ _ s4 r4.
                    Ends-bind {Q = λ _ s5. Ready s_r ids s5} _ _ s4
                      (set_state_lem e t reader runnable s ids s4 r4 known_r tt)
                      λ _ s5 r5.
                        Ends-weaken _
                          (update_writer_lem e t writer q (consumed + moved) wl wb wa s_r ids s5 r5
                            (ground arith)
                            (ground (arith, lookup-insert reader writer runnable s.states))
                            (fits.0, fits.1, omega (arith, fits.2), fits.3))
                          (λ _ s6 r6. end_lem reader writer _ s ids s6 r6) (λ s6 w. w)))
