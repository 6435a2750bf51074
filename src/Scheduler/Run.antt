-- ===== src/Scheduler/Run.antt =====
-- `iterate` and `run` of src/lib.rs.
pub mod Choice
pub mod Machine
pub mod Deliver
pub mod Finish
pub mod Rounds
pub mod Errors
pub mod Returned
pub mod Reach
pub mod Progress
pub mod Limits
pub mod Purges
pub mod Endings
use text.Mathlib.Text.{◌==◌ as str_eq}
use ckb_vm_deterministic_sch.Prelude.{
  ℕ, zero, suc, ◌-◌, ◌^◌, Bool, true, false, not, Option, none, some, List, [], ◌∷◌, reverse, ◌==◌,
  leb, if◌then◌else◌, length,
}
use ckb_vm_deterministic_sch.Outcome.{
  Error, external, unexpected, deadlock, cycles_exceeded, cycles_overflow, Outcome, ok, err, panic,
  diverge, Exec, pure, lift, raise, gets, modify, assert, unwrap, or_raise, ◌>>=◌, ◌>>◌,
}
use ckb_vm_deterministic_sch.Table.{Table, lookup, contains, insert, retain, remove}
use ckb_vm_deterministic_sch.Types.{
  VmState, runnable, terminated, join, RunMode, limit_cycles, pause,
}
use ckb_vm_deterministic_sch.Types.Piece.{program}
use ckb_vm_deterministic_sch.Engine.{Engine, Source}
use ckb_vm_deterministic_sch.Syscalls.{ecall}
use ckb_vm_deterministic_sch.Syscalls.Access.{Guest, checked_add}
use ckb_vm_deterministic_sch.Scheduler.State.{
  State, Vm, root_vm_id, is_terminated, set_state, store8_success,
}
use ckb_vm_deterministic_sch.Scheduler.Instances.{ensure_vms_instantiated, boot_vm}
use ckb_vm_deterministic_sch.Scheduler.Messages.{process_message_box, visit_vm}
use ckb_vm_deterministic_sch.Scheduler.Io.{process_io}

abbrev pub is_runnable : VmState → Bool
is_runnable runnable = true
is_runnable _ = false

unfoldable pub first_runnable : List (ℕ × VmState) → Option ℕ
first_runnable [] = none
first_runnable ((id, state) ∷ states) =
    let rest = first_runnable states in if is_runnable state then some id else rest

-- `self.states.iter().rev().filter(..).map(..).next()`
unfoldable pub pick : Table VmState → Option ℕ
unfolding first_runnable
pick states = first_runnable (reverse states)

-- `u64::checked_sub`
unfoldable pub checked_sub : ℕ → ℕ → Option ℕ
checked_sub a b = if leb b a then some (a - b) else none

-- The `Result<i8, Error>` of `machine.run()`, which `iterate` looks at.
pub data Stop : Type 0 where
  exited : ℕ → Stop
  failed : Error → Stop

abbrev pub settle : Outcome ℕ → Outcome Stop
settle (ok code) = ok (exited code)
settle (err x) = ok (failed x)
settle panic = panic
settle diverge = diverge

-- The VMs that join `target`, with the addresses for the exit code.
unfoldable pub joining : ℕ → List (ℕ × VmState) → List (ℕ × ℕ)
joining target [] = []
joining target ((vm_id, join target_vm_id exit_code_addr) ∷ states) =
    let rest = joining target states in
    if target_vm_id == target then (vm_id, exit_code_addr) ∷ rest else rest
joining target (_ ∷ states) = joining target states

module _ (e : Engine) (source : Source) where
  at_machine : e.Pause → ℕ → ℕ → Option (Vm e) → Exec (State e) (Stop × ℕ)
  at_machine signal limit id none s = (panic, s)
  at_machine signal limit id (some (c, mac)) s =
      let guest : Guest e = record {
        context = record c { base_cycles = s.total_cycles };
        message_box = s.message_box;
      } in
      let (r, t) =
        e.run (ecall e source) (guest, e.set_pause signal (e.set_max_cycles limit mac)) in
      (do stop ← lift (settle r); pure (stop, e.cycles t.1))
        (record s {
          instantiated = insert id (t.0.context, e.set_cycles 0 t.1) s.instantiated;
          message_box = t.0.message_box;
        })

  -- From `set_base_cycles` to `set_cycles(0)`: the result and the cycles that were consumed.
  unfoldable pub run_machine : e.Pause → ℕ → ℕ → Exec (State e) (Stop × ℕ)
  unfolding at_machine ◌>>=◌
  run_machine signal limit id s = at_machine signal limit id (lookup id s.instantiated) s

  -- `self.total_cycles.checked_add(consumed_cycles)`
  unfoldable pub charge : ℕ → Exec (State e) (Unit {0})
  charge consumed = do
    old ← gets (λ s. s.total_cycles)
    total ← or_raise cycles_overflow (checked_add old consumed)
    modify (λ s. record s { total_cycles = total })

  -- The joining VMs get the exit code and may run.
  unfoldable pub release_joining : ℕ → List (ℕ × ℕ) → Exec (State e) (Unit {0})
  release_joining code [] = pure tt
  release_joining code ((vm_id, exit_code_addr) ∷ vms) = do
    visit_vm e source vm_id (store8_success e exit_code_addr (e.from_i8 code))
    set_state e vm_id runnable
    release_joining code vms

  -- Only the root VM is kept.
  unfoldable pub purge_others : ℕ → Exec (State e) (Unit {0})
  purge_others id = do
    ensure_vms_instantiated e source (id ∷ [])
    modify λ s. record s {
      instantiated = retain (λ k _. k == id) s.instantiated;
      suspended = [];
      states = insert id terminated [];
    }

  -- Its pipes are closed and its VM is dropped.
  unfoldable pub purge_vm : ℕ → Exec (State e) (Unit {0})
  purge_vm id = modify λ s. record s {
    pipes = retain (λ _ owner. not (owner == id)) s.pipes;
    states = remove id s.states;
    instantiated = remove id s.instantiated;
    suspended = remove id s.suspended;
  }

  unfoldable pub terminate : ℕ → ℕ → Exec (State e) (Unit {0})
  terminate id code = do
    modify (λ s. record s { terminated_vms = insert id code s.terminated_vms })
    if id == root_vm_id
        then purge_others id
        else do vms ← gets (λ s. joining id s.states); release_joining code vms; purge_vm id

  -- Step 4 of `iterate`.
  unfoldable pub conclude : ℕ → Stop × ℕ → Exec (State e) ℕ
  conclude id (exited code, consumed) = do terminate id code; pure consumed
  conclude id (failed (external t), consumed) =
      if str_eq t "YIELD" then pure consumed else raise (external t)
  conclude id (failed x, consumed) = raise x

  unfoldable pub run_vm : e.Pause → ℕ → ℕ → Exec (State e) ℕ
  run_vm signal limit id = do
    ensure_vms_instantiated e source (id ∷ [])
    result ← run_machine signal limit id
    charge result.1
    process_message_box e source
    left ← gets (λ s. length s.message_box)
    assert (left == 0)
    conclude id result

  unfoldable pub iterate : e.Pause → ℕ → Exec (State e) ℕ
  iterate signal limit = do
    process_io e source
    found ← gets (λ s. pick s.states)
    id ← or_raise (unexpected deadlock) found
    run_vm signal limit id

  -- The `while` loop of `run`; fuel bounds the calls of `iterate`.
  unfoldable pub run_loop : ℕ → e.Pause → ℕ → Exec (State e) (Unit {0})
  run_loop zero signal limit = lift diverge
  run_loop (suc fuel) signal limit = do
    found ← gets (λ s. lookup root_vm_id s.states)
    root ← unwrap found
    if is_terminated root then pure tt else do
      consumed ← iterate signal limit
      rest ← or_raise cycles_exceeded (checked_sub consumed consumed)
      run_loop fuel signal rest

  -- The booting phase of `run`.
  unfoldable pub boot : Exec (State e) (Unit {0})
  boot = do
    count ← gets (λ s. length s.states)
    if count == 0
        then (do id ← boot_vm e source program 0 (2 ^ 64 - 1) []; assert (id == root_vm_id))
        else pure tt
    rooted ← gets (λ s. contains root_vm_id s.states)
    assert rooted

  -- the pause signal and the limit of a run mode
  unfoldable pub open_mode : RunMode e.Pause → e.Pause × ℕ
  open_mode (limit_cycles limit) = (e.new_pause, limit)
  open_mode (pause signal) = (signal, 2 ^ 64 - 1)

  unfoldable pub run : ℕ → RunMode e.Pause → Exec (State e) (ℕ × ℕ)
  unfolding open_mode
  run fuel mode = do
    boot
    run_loop fuel (open_mode mode).0 (open_mode mode).1
    found ← gets (λ s. lookup root_vm_id s.instantiated)
    vm ← unwrap found
    total ← gets (λ s. s.total_cycles)
    pure (e.exit_code vm.1, total)
