-- ===== src/Syscalls/Answers.antt =====
-- A system call comes to an end: its loops over guest memory do, and it does not panic but for the
-- reservation of `spawn`.
use ckb_vm_deterministic_sch.Prelude.{
  ℕ, zero, suc, ◌+◌, ◌-◌, ◌*◌, ◌^◌, ◌<◌, ◌≡◌, refl, Bool, true, false, Option, none, some, leb,
  if◌then◌else◌, arith, add64,
}
use ckb_vm_deterministic_sch.Outcome.{
  Error, external, Outcome, ok, err, panic, diverge, Exec, pure, lift, raise, gets, modify,
  or_raise, continue, ◌>>=◌,
}
use ckb_vm_deterministic_sch.Outcome.Ensures.{IsSettled}
use ckb_vm_deterministic_sch.Types.{Message}
use ckb_vm_deterministic_sch.Engine.{Engine}
use ckb_vm_deterministic_sch.Engine.Laws.{Returns, IsTotal, IsBounded}
use ckb_vm_deterministic_sch.Syscalls.Access.{
  Sys, on_machine, on_tracker, reg, set_a0, push, yield_control, catch_index, recover,
}
use ckb_vm_deterministic_sch.Syscalls.Text.{
  read_c_string, load_c_string, read_argv, load_argv, read_pipes, load_pipes,
}

-- The code returns, with a value or an error, wherever it starts.
pub record Settles {S A : Type 0} (m : Exec S A) : Type 0 where
  pub at : (s : S) → IsSettled (m s).0

pub Returns-IsSettled : {S A : Type 0} (r : Outcome A × S) → Returns r → IsSettled r.0
Returns-IsSettled (ok a, s) h = tt
Returns-IsSettled (err x, s) h = tt
Returns-IsSettled (panic, s) h = absurd h.at
Returns-IsSettled (diverge, s) h = absurd h.at

module _ {S A : Type 0} where
  pub Settles-Returns : (m : Exec S A) → ((s : S) → Returns (m s)) → Settles m
  Settles-Returns m h = record { at = λ s. Returns-IsSettled (m s) (h s) }

  pub Settles-pure : (a : A) → Settles {S = S} (pure a)
  unfolding pure
  Settles-pure a = record { at = λ s. tt }

  pub Settles-lift : (r : Outcome A) → IsSettled r → Settles {S = S} (lift r)
  unfolding lift
  Settles-lift r h = record { at = λ s. h }

  pub Settles-raise : (x : Error) → Settles {S = S} (raise {A = A} x)
  unfolding raise
  Settles-raise x = record { at = λ s. tt }

  pub Settles-gets : (f : S → A) → Settles (gets f)
  unfolding gets
  Settles-gets f = record { at = λ s. tt }

  pub Settles-or_raise : (x : Error) (o : Option A) → Settles {S = S} (or_raise x o)
  unfolding or_raise
  Settles-or_raise x none = record { at = λ s. tt }
  Settles-or_raise x (some a) = record { at = λ s. tt }

  pub Settles-if :
      (b : Bool) (m n : Exec S A) → Settles m → Settles n → Settles (if b then m else n)
  Settles-if true m n h k = h
  Settles-if false m n h k = k

  recover-IsSettled : (r : Outcome A × S) → IsSettled r.0 → IsSettled (recover r).0
  unfolding recover
  recover-IsSettled (ok a, s) h = tt
  recover-IsSettled (err (external t), s) h = ground arith
  recover-IsSettled (err _, s) h = tt
  recover-IsSettled (panic, s) h = h
  recover-IsSettled (diverge, s) h = h

  pub Settles-catch_index : (m : Exec S A) → Settles m → Settles (catch_index m)
  unfolding catch_index
  Settles-catch_index m h = record { at = λ s. recover-IsSettled (m s) (h.at s) }

module _ {S A B : Type 0} where
  pub continue-IsSettled :
      (r : Outcome A × S) (f : A → Exec S B)
      → IsSettled r.0
      → ((a : A) → r.0 ≡ ok a → IsSettled (f a r.1).0)
      → IsSettled (continue r.0 f r.1).0
  continue-IsSettled (ok a, s) f h k = k a refl
  continue-IsSettled (err x, s) f h k = tt
  continue-IsSettled (panic, s) f h k = h
  continue-IsSettled (diverge, s) f h k = h

  pub Settles-bind :
      (m : Exec S A) (f : A → Exec S B) → Settles m → ((a : A) → Settles (f a)) → Settles (m >>= f)
  unfolding ◌>>=◌
  Settles-bind m f h k = record {
    at = λ s. continue-IsSettled (m s) f (h.at s) (λ a q. (k a).at (m s).1);
  }

  -- the same, where the value matters
  pub Settles-value :
      (m : Exec S A) (f : A → Exec S B)
      → Settles m
      → ((s : S) (a : A) → (m s).0 ≡ ok a → Settles (f a))
      → Settles (m >>= f)
  unfolding ◌>>=◌
  Settles-value m f h k = record {
    at = λ s. continue-IsSettled (m s) f (h.at s) (λ a q. (k s a q).at (m s).1);
  }

module _ {e : Engine} where
  pub Settles-on_machine :
      {A : Type 0} (m : Exec e.Machine A) → Settles m → Settles (on_machine e m)
  unfolding on_machine
  Settles-on_machine m h = record { at = λ s. h.at s.1 }

  pub Settles-on_tracker :
      {A : Type 0} (m : Exec (e.Tracker × e.Machine) A) → Settles m → Settles (on_tracker e m)
  unfolding on_tracker
  Settles-on_tracker m h = record { at = λ s. h.at (s.0.context.tracker, s.1) }

  pub Settles-reg : (i : ℕ) → Settles (reg e i)
  unfolding reg gets
  Settles-reg i = record { at = λ s. tt }

  pub Settles-set_a0 : (v : ℕ) → Settles (set_a0 e v)
  unfolding set_a0 modify
  Settles-set_a0 v = record { at = λ s. tt }

  pub Settles-push : (msg : Message) → Settles (push e msg)
  unfolding push modify
  Settles-push msg = record { at = λ s. tt }

  pub Settles-yield_control : Settles (yield_control e)
  unfolding yield_control
  Settles-yield_control = Settles-raise _

-- At one state.
pub record SettlesAt {S A : Type 0} (s : S) (m : Exec S A) : Type 0 where
  pub at : IsSettled (m s).0

pub at_state : {S A : Type 0} (s : S) (m : Exec S A) → Settles m → SettlesAt s m
at_state s m h = record { at = h.at s }

pub at_reg :
    {e : Engine} {A : Type 0} (s : Sys e) (i : ℕ) (f : ℕ → Exec (Sys e) A)
    → SettlesAt s (f (e.register s.1 i))
    → SettlesAt s (reg e i >>= f)
unfolding ◌>>=◌ reg gets
at_reg s i f h = record { at = h.at }

pub ruleset settles_rules = (
  Settles-pure, Settles-lift, Settles-raise, Settles-gets, Settles-or_raise, Settles-if,
  Settles-catch_index, Settles-bind, Settles-on_machine, Settles-on_tracker, Settles-reg,
  Settles-set_a0, Settles-push, Settles-yield_control,
)

module _ (e : Engine) (t : IsTotal e) (b : IsBounded e) where
  load8-Settles : (addr : ℕ) → Settles (e.load8 addr)
  load8-Settles addr = Settles-Returns _ (t.load8 addr)

  pub load64-Settles : (addr : ℕ) → Settles (e.load64 addr)
  load64-Settles addr = Settles-Returns _ (t.load64 addr)

  -- Each byte that is read lies below the end of memory, so the fuel lasts.
  read_c_string-Settles :
      (fuel addr : ℕ) → e.memory_size < fuel + addr → 0 < fuel → Settles (read_c_string e fuel addr)
  unfolding read_c_string
  read_c_string-Settles zero addr h pos = absurd (omega arith)
  read_c_string-Settles (suc fuel) addr h pos = Settles-value _ _ (load8-Settles addr) λ s byte q.
      let low = b.load8 addr s byte q in
      Settles-if _ _ _ (Settles-pure _) (
        Settles-bind _ _
          (read_c_string-Settles fuel (add64 addr 1) (omega (arith, low, b.size))
            (omega (arith, low)))
          λ buffer. Settles-pure _)

  pub load_c_string-Settles : (addr : ℕ) → Settles (load_c_string e addr)
  unfolding load_c_string
  load_c_string-Settles addr =
      read_c_string-Settles (suc e.memory_size) addr (omega arith) (omega arith)

  read_argv-Settles : (argc addr : ℕ) → Settles (read_argv e argc addr)
  unfolding read_argv
  read_argv-Settles zero addr = Settles-pure _
  read_argv-Settles (suc argc) addr = Settles-bind _ _ (load64-Settles addr) λ target.
      Settles-bind _ _ (load_c_string-Settles target)
        λ cstr. Settles-bind _ _ (read_argv-Settles argc (add64 addr 8)) λ argv. Settles-pure _

  pub load_argv-Settles :
      (argc addr : ℕ)
      → leb (argc * e.bytes_size) (2 ^ 63 - 1) ≡ true
      → Settles (load_argv e argc addr)
  unfolding load_argv pure
  load_argv-Settles argc addr small =
      rw small (Settles-bind _ _ (Settles-pure tt) λ _. read_argv-Settles argc addr)

  read_pipes-Settles :
      (fuel addr : ℕ) → e.memory_size < fuel + addr → 0 < fuel → Settles (read_pipes e fuel addr)
  unfolding read_pipes
  read_pipes-Settles zero addr h pos = absurd (omega arith)
  read_pipes-Settles (suc fuel) addr h pos = Settles-value _ _ (load64-Settles addr) λ s pipe q.
      let low = b.load64 addr s pipe q in
      Settles-if _ _ _ (Settles-pure _) (
        Settles-bind _ _
          (read_pipes-Settles fuel (add64 addr 8) (omega (arith, low, b.size)) (omega (arith, low)))
          λ pipes. Settles-pure _)

  pub load_pipes-Settles : (addr : ℕ) → Settles (load_pipes e addr)
  unfolding load_pipes
  load_pipes-Settles addr =
      Settles-if _ _ _ (Settles-pure _)
        (read_pipes-Settles (suc e.memory_size) addr (omega arith) (omega arith))
