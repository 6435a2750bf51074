-- ===== src/Syscalls/Access.antt =====
-- What a syscall reaches: its machine, the machine's context and the shared message box
-- (`MachineContext` of src/syscalls.rs).
use ckb_vm_deterministic_sch.Prelude.{
  ℕ, ◌+◌, Option, none, some, List, [], ◌∷◌, ◌++◌, ltb, if◌then◌else◌, u64_mod,
}
use text.Mathlib.Text.{◌==◌ as str_eq}
use ckb_vm_deterministic_sch.Outcome.{
  external, Outcome, ok, err, panic, diverge, Exec, gets, modify, raise,
}
use ckb_vm_deterministic_sch.Types.{Message}
use ckb_vm_deterministic_sch.Engine.{Engine}

-- `snapshot2_context` is the tracker. The message box is one for all machines and stands beside.
pub record Context (e : Engine) : Type 0 where
  pub id : ℕ
  pub base_cycles : ℕ
  pub tracker : e.Tracker

pub record Guest (e : Engine) : Type 0 where
  pub context : Context e
  pub message_box : List Message

abbrev pub Sys : Engine → Type 0
Sys e = Guest e × e.Machine

abbrev pub a0 : ℕ
a0 = 10

abbrev pub a1 : ℕ
a1 = 11

abbrev pub a2 : ℕ
a2 = 12

abbrev pub a3 : ℕ
a3 = 13

abbrev pub a4 : ℕ
a4 = 14

abbrev pub a5 : ℕ
a5 = 15

abbrev pub a7 : ℕ
a7 = 17

-- `u64::checked_add`
unfoldable pub checked_add : ℕ → ℕ → Option ℕ
checked_add a b = if ltb (a + b) u64_mod then some (a + b) else none

-- `MachineContext::new`
unfoldable pub new_context : (e : Engine) → ℕ → Context e
new_context e id = record { id = id; base_cycles = 0; tracker = e.new_tracker }

module _ (e : Engine) where
  unfoldable pub on_machine : {A : Type 0} → Exec e.Machine A → Exec (Sys e) A
  on_machine m (g, mac) = let (r, mac') = m mac in (r, (g, mac'))

  unfoldable pub on_tracker : {A : Type 0} → Exec (e.Tracker × e.Machine) A → Exec (Sys e) A
  on_tracker m (g, mac) =
      let (r, t) = m (g.context.tracker, mac) in
      (r, (record g { context = record g.context { tracker = t.0 } }, t.1))

  unfoldable pub reg : ℕ → Exec (Sys e) ℕ
  unfolding gets
  reg i = gets (λ s. e.register s.1 i)

  unfoldable pub set_a0 : ℕ → Exec (Sys e) (Unit {0})
  unfolding modify
  set_a0 v = modify (λ s. (s.0, e.set_register a0 v s.1))

  -- `self.message_box.lock().push(message)`
  unfoldable pub push : Message → Exec (Sys e) (Unit {0})
  unfolding modify
  push msg = modify λ s. (record s.0 { message_box = s.0.message_box ++ msg ∷ [] }, s.1)

  -- `Err(Error::External("YIELD"))`: the call hands control back to the scheduler.
  unfoldable pub yield_control : Exec (Sys e) (Unit {0})
  unfolding raise
  yield_control = raise (external "YIELD")

module _ {S A : Type 0} where
  unfoldable pub recover : Outcome A × S → Outcome (Option A) × S
  recover (ok a, s) = (ok (some a), s)
  recover (err (external t), s) =
      (if str_eq t "INDEX_OUT_OF_BOUND" then ok none else err (external t), s)
  recover (err x, s) = (err x, s)
  recover (panic, s) = (panic, s)
  recover (diverge, s) = (diverge, s)

  -- `match` on a result whose arm for `External("INDEX_OUT_OF_BOUND")` goes on.
  unfoldable pub catch_index : Exec S A → Exec S (Option A)
  unfolding recover
  catch_index m s = recover (m s)
