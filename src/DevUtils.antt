-- ===== src/DevUtils.antt =====
-- `verify_tx` of src/dev_utils/mod.rs: each script group of a transaction runs in its own scheduler,
-- which is suspended and resumed now and then.
pub mod Cycles
pub mod Layout
pub mod Dag
pub mod Index
pub mod Graph
use ckb_vm_deterministic_sch.Prelude.{
  ℕ, zero, suc, Bool, ◌||◌, not, Option, none, some, List, [], ◌∷◌, ◌==◌, ltb, leb, if◌then◌else◌,
  add64, sub64,
}
use ckb_vm_deterministic_sch.Outcome.{Outcome, ok, err, panic, diverge, Error, cycles_exceeded}
use ckb_vm_deterministic_sch.Types.{Bytes, limit_cycles, FullSuspendedState}
use ckb_vm_deterministic_sch.Types.TxData.{TxData, load_data}
use ckb_vm_deterministic_sch.Engine.{Engine, Source}
use ckb_vm_deterministic_sch.Scheduler.State.{State, new}
use ckb_vm_deterministic_sch.Scheduler.Run.{run}
use ckb_vm_deterministic_sch.Scheduler.Suspend.{suspend, resume}

-- The errors that `verify_tx` makes itself. The kind and the hash of the group, which stand in the
-- texts too, are left out.
pub data Refusal : Type 0 where
  -- consumed by the group, maximum
  out_of_cycles : ℕ → ℕ → Refusal
  -- consumed by all groups, consumed by the group, maximum
  out_of_total : ℕ → ℕ → ℕ → Refusal
  non_zero_code : ℕ → Refusal
  encounters : Error → Refusal

pub data Verdict (A : Type 0) : Type 0 where
  passed : A → Verdict A
  refused : Refusal → Verdict A
  panicked : Verdict A
  endless : Verdict A

abbrev pub go_on : {A B : Type 0} → Verdict A → (A → Verdict B) → Verdict B
go_on (passed a) f = f a
go_on (refused x) f = refused x
go_on panicked f = panicked
go_on endless f = endless

-- What depends on the script group: the versions that its verifier selects and the syscalls of its
-- machines, which are fields of `engine`, the program of its `TxData`, which `extract_script` may fail to
-- find, and the rest of its `TxData`.
pub record Group (Cell : Type 0) : Type 1 where
  pub engine : Engine
  pub script : Option Bytes
  pub tx_data : Bytes → TxData Cell

pub record Limits : Type 0 where
  pub max_cycles : ℕ
  pub cycles_per_iterate : ℕ
  pub cycles_per_suspend : ℕ

-- A full suspension, and the scheduler that goes on, with its `last_suspended_cycles`.
abbrev pub resumed : {e : Engine} → Outcome (FullSuspendedState e.Snapshot) → Verdict (State e × ℕ)
resumed {e} (ok full) = passed (resume e full, (resume e full).total_cycles)
resumed (err x) = panicked
resumed panic = panicked
resumed diverge = endless

module _ (e : Engine) (limits : Limits) where
  unfoldable pub suspend_if_due : ℕ → State e → Verdict (State e × ℕ)
  suspend_if_due last s =
      if leb limits.cycles_per_suspend (sub64 s.total_cycles last)
      then resumed (suspend e s).0
      else passed (s, last)

  -- `Ok((exit_code, total_cycles))` of `run`
  unfoldable pub account : ℕ → ℕ → ℕ → Verdict ℕ
  account consumed code total =
      if not (code == 0)
      then refused (non_zero_code code)
      else let sum = add64 consumed total in
        if ltb limits.max_cycles total || ltb limits.max_cycles sum
        then refused (out_of_total sum total limits.max_cycles)
        else passed sum

  -- what `run` has returned, and what a further round of the loop would return
  abbrev pub judge : ℕ → Outcome (ℕ × ℕ) → Verdict ℕ → Verdict ℕ
  judge consumed (ok (code, total)) again = account consumed code total
  judge consumed (err cycles_exceeded) again = again
  judge consumed (err x) again = refused (encounters x)
  judge consumed panic again = panicked
  judge consumed diverge again = endless

module _ (e : Engine) (limits : Limits) (source : Source) where
  -- The `loop` for one group; `fuel` bounds its rounds and the rounds of `run`.
  unfoldable pub verify_group : ℕ → ℕ → ℕ → State e → Verdict ℕ
  verify_group zero consumed last s = endless
  verify_group (suc fuel) consumed last s =
      if ltb limits.max_cycles s.total_cycles
      then refused (out_of_cycles s.total_cycles limits.max_cycles)
      else go_on (suspend_if_due e limits last s) λ started.
        let after = run e source fuel (limit_cycles limits.cycles_per_iterate) started.0 in
        judge e limits consumed after.0 (verify_group fuel consumed started.1 after.1)

module _ {Cell : Type 0} (limits : Limits) (fuel : ℕ) where
  -- `for (t, hash, group) in groups`
  unfoldable pub verify_groups : ℕ → List (Group Cell) → Verdict ℕ
  verify_groups consumed [] = passed consumed
  verify_groups consumed (group ∷ groups) =
      let e = group.engine in
      elim group.script [
        | none ↦ panicked
        | some program ↦
            go_on
              (verify_group e limits (load_data (group.tx_data program)) fuel consumed 0 (new e))
              λ total. verify_groups total groups
      ]

  unfoldable pub verify_tx : List (Group Cell) → Verdict ℕ
  verify_tx groups = verify_groups 0 groups
