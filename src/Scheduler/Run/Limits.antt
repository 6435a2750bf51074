-- ===== src/Scheduler/Run/Limits.antt =====
-- The cycle limit of `run`, from one call of `iterate` to the next.
use ckb_vm_deterministic_sch.Outcome.{ok, ◌>>=◌}
use ckb_vm_deterministic_sch.Prelude.{ℕ, suc, ◌≡◌, refl, false, some, arith}
use ckb_vm_deterministic_sch.Types.{VmState}
use ckb_vm_deterministic_sch.Scheduler.State.{State, root_vm_id, is_terminated}
use ckb_vm_deterministic_sch.Scheduler.Run.{checked_sub, iterate, run_loop}
use ckb_vm_deterministic_sch.Table.{lookup}
use ckb_vm_deterministic_sch.Engine.{Engine, Source}

checked_sub_self : (n : ℕ) → checked_sub n n ≡ some 0
unfolding checked_sub
checked_sub_self n = ground arith

-- After a call of `iterate` that succeeds, `run` goes on with a limit of zero cycles, whatever the
-- limit was and however many cycles were consumed: it subtracts the consumed cycles from
-- themselves.
pub run_loop-limit_zero :
    (e : Engine) (source : Source) (fuel : ℕ) (signal : e.Pause) (limit consumed : ℕ)
    (s s' : State e) (root : VmState)
    → lookup root_vm_id s.states ≡ some root
    → is_terminated root ≡ false
    → iterate e source signal limit s ≡ (ok consumed, s')
    → run_loop e source (suc fuel) signal limit s ≡ run_loop e source fuel signal 0 s'
unfolding run_loop ◌>>=◌
run_loop-limit_zero e source fuel signal limit consumed s s' root found live went =
    rw (found, live, went, checked_sub_self consumed) refl
