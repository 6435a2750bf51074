-- ===== src/Syscalls/Speech.antt =====
-- Code that is silent, and code that sends one message and yields.
use ckb_vm_deterministic_sch.Engine.Laws.{HasWords}
use ckb_vm_deterministic_sch.Prelude.{
  ◌<◌, u64_mod, ℕ, ◌≡◌, refl, sym, subst, ◌∙◌, Bool, true, false, ◌⊎◌, inl, inr, Option, none, some,
  [], ◌∷◌, ◌++◌, if◌then◌else◌,
}
use ckb_vm_deterministic_sch.Types.Pipe.{is_read, is_write}
use ckb_vm_deterministic_sch.Outcome.{
  Error, Outcome, ok, err, panic, diverge, external, Exec, pure, lift, raise, gets, or_raise, ◌>>=◌,
  continue,
}
use ckb_vm_deterministic_sch.Types.{Message, spawn, join_vm, create_pipe, pipe_read, pipe_write}
use ckb_vm_deterministic_sch.Engine.{Engine}
use ckb_vm_deterministic_sch.Syscalls.Access.{
  Sys, on_machine, on_tracker, reg, set_a0, push, yield_control, catch_index, recover,
}

-- The VM that a message names as its sender.
abbrev pub sender : Message → ℕ
sender (spawn id _) = id
sender (join_vm id _) = id
sender (create_pipe id _) = id
sender (pipe_read id _) = id
sender (pipe_write id _) = id

-- What a syscall has checked of the message that it sends.
abbrev pub IsChecked : Message → Type 0
IsChecked (pipe_read id args) = is_read args.pipe ≡ true
IsChecked (pipe_write id args) = (is_write args.pipe ≡ true) × (args.length < u64_mod)
IsChecked _ = Unit

module _ {e : Engine} where
  abbrev pub Silent : Sys e → Sys e → Type 0
  Silent s s' = (s'.0.message_box ≡ s.0.message_box) × (s'.0.context.id ≡ s.0.context.id)

  abbrev pub SaidOne : {A : Type 0} → Sys e → Outcome A → Sys e → Type 0
  SaidOne s r s' =
      (s'.0.message_box ≡ s.0.message_box)
      ⊎ ((msg : Message) × (s'.0.message_box ≡ s.0.message_box ++ msg ∷ [])
          × (sender msg ≡ s.0.context.id)
          × IsChecked msg
          × (r ≡ err (external "YIELD")))

  -- The VM keeps its id; and either the box is as before, or one message of this VM has been added
  -- and the call yields.
  abbrev pub Said : {A : Type 0} → Sys e → Outcome A × Sys e → Type 0
  Said s (r, s') = (s'.0.context.id ≡ s.0.context.id) × SaidOne s r s'

  pub record Quiet {A : Type 0} (m : Exec (Sys e) A) : Type 0 where
    pub at : (s : Sys e) → Silent s (m s).1

  pub record Speaks {A : Type 0} (id : ℕ) (m : Exec (Sys e) A) : Type 0 where
    pub at : (s : Sys e) → s.0.context.id ≡ id → Said s (m s)

  pub Quiet-pure : {A : Type 0} (a : A) → Quiet (pure a)
  unfolding pure
  Quiet-pure a = record { at = λ s. (refl, refl) }

  pub Quiet-lift : {A : Type 0} (r : Outcome A) → Quiet (lift r)
  unfolding lift
  Quiet-lift r = record { at = λ s. (refl, refl) }

  pub Quiet-raise : {A : Type 0} (x : Error) → Quiet (raise {A = A} x)
  unfolding raise
  Quiet-raise x = record { at = λ s. (refl, refl) }

  pub Quiet-gets : {A : Type 0} (f : Sys e → A) → Quiet (gets f)
  unfolding gets
  Quiet-gets f = record { at = λ s. (refl, refl) }

  pub Quiet-or_raise : {A : Type 0} (x : Error) (o : Option A) → Quiet (or_raise x o)
  unfolding or_raise
  Quiet-or_raise x none = record { at = λ s. (refl, refl) }
  Quiet-or_raise x (some a) = record { at = λ s. (refl, refl) }

  pub Quiet-on_machine : {A : Type 0} (m : Exec e.Machine A) → Quiet (on_machine e m)
  unfolding on_machine
  Quiet-on_machine m = record { at = λ s. (refl, refl) }

  pub Quiet-on_tracker : {A : Type 0} (m : Exec (e.Tracker × e.Machine) A) → Quiet (on_tracker e m)
  unfolding on_tracker
  Quiet-on_tracker m = record { at = λ s. (refl, refl) }

  pub Quiet-reg : (i : ℕ) → Quiet (reg e i)
  unfolding reg
  Quiet-reg i = record { at = λ s. (refl, refl) }

  pub Quiet-set_a0 : (v : ℕ) → Quiet (set_a0 e v)
  unfolding set_a0
  Quiet-set_a0 v = record { at = λ s. (refl, refl) }

  recover-state : {A : Type 0} (r : Outcome A × Sys e) → (recover r).1 ≡ r.1
  unfolding recover
  recover-state (ok a, s) = refl
  recover-state (err (external t), s) = refl
  recover-state (err _, s) = refl
  recover-state (panic, s) = refl
  recover-state (diverge, s) = refl

  pub Quiet-catch_index : {A : Type 0} (m : Exec (Sys e) A) → Quiet m → Quiet (catch_index m)
  unfolding catch_index
  Quiet-catch_index m q = record { at = λ s. rw (recover-state (m s)) (q.at s) }

  continue-Said :
      {A B : Type 0} (id : ℕ) (s : Sys e) (r : Outcome A × Sys e) (f : A → Exec (Sys e) B)
      → Silent s r.1
      → s.0.context.id ≡ id
      → ((a : A) → r.0 ≡ ok a → Speaks id (f a))
      → Said s (continue r.0 f r.1)
  continue-Said id s (ok a, s') f q h k =
      let (same_id, said) = (k a refl).at s' (q.1 ∙ h) in
      (
        same_id ∙ q.1,
        elim said [
          | inl same ↦ inl (same ∙ q.0)
          | inr (msg, box, own, fit, yields) ↦ inr (msg, rw (← q.0) box, own ∙ q.1, fit, yields)
        ],
      )
  continue-Said id s (err x, s') f q h k = (q.1, inl q.0)
  continue-Said id s (panic, s') f q h k = (q.1, inl q.0)
  continue-Said id s (diverge, s') f q h k = (q.1, inl q.0)

  pub Speaks-bind :
      {A B : Type 0} (id : ℕ) (m : Exec (Sys e) A) (f : A → Exec (Sys e) B)
      → Quiet m
      → ((a : A) → Speaks id (f a))
      → Speaks id (m >>= f)
  unfolding ◌>>=◌
  Speaks-bind id m f q k = record { at = λ s h. continue-Said id s (m s) f (q.at s) h (λ a _. k a) }

  -- a word of memory
  pub Speaks-word :
      {B : Type 0} (id : ℕ) (addr : ℕ) (f : ℕ → Exec (Sys e) B)
      → HasWords e
      → ((v : ℕ) → v < u64_mod → Speaks id (f v))
      → Speaks id (on_machine e (e.load64 addr) >>= f)
  unfolding ◌>>=◌ on_machine
  Speaks-word id addr f w k = record {
    at = λ s h.
        continue-Said id s (on_machine e (e.load64 addr) s) f (refl, refl) h
          (λ v q. k v (w.load64 addr s.1 v q));
  }

  -- the VM's own id
  pub Speaks-own :
      {B : Type 0} (id : ℕ) (f : ℕ → Exec (Sys e) B)
      → Speaks id (f id)
      → Speaks id (gets (λ s. s.0.context.id) >>= f)
  unfolding ◌>>=◌
  Speaks-own id f k = record { at = λ s h. subst (λ (i : ℕ). Said s (f i s)) (sym h) (k.at s h) }

  pub Speaks-Quiet : {A : Type 0} (id : ℕ) (m : Exec (Sys e) A) → Quiet m → Speaks id m
  Speaks-Quiet id m q = record { at = λ s h. ((q.at s).1, inl (q.at s).0) }

  pub Speaks-if :
      {A : Type 0} (id : ℕ) (b : Bool) (m n : Exec (Sys e) A)
      → (b ≡ true → Speaks id m)
      → Speaks id n
      → Speaks id (if b then m else n)
  Speaks-if id true m n h k = h refl
  Speaks-if id false m n h k = k

  then_Said :
      {A B : Type 0} (s : Sys e) (r : Outcome A × Sys e) (b : B)
      → Said s r
      → Said s (continue r.0 (λ _. pure b) r.1)
  unfolding pure
  then_Said s (ok a, s') b (same_id, inl same) = (same_id, inl same)
  then_Said s (ok a, s') b (same_id, inr (_, _, _, _, yields)) = absurd (cc)
  then_Said s (err x, s') b (same_id, inl same) = (same_id, inl same)
  then_Said s (err x, s') b (same_id, inr (msg, box, own, fit, yields)) =
      (same_id, inr (msg, box, own, fit, cc))
  then_Said s (panic, s') b (same_id, inl same) = (same_id, inl same)
  then_Said s (panic, s') b (same_id, inr (_, _, _, _, yields)) = absurd (cc)
  then_Said s (diverge, s') b (same_id, inl same) = (same_id, inl same)
  then_Said s (diverge, s') b (same_id, inr (_, _, _, _, yields)) = absurd (cc)

  pub Speaks-then :
      {A B : Type 0} (id : ℕ) (m : Exec (Sys e) A) (b : B)
      → Speaks id m
      → Speaks id (m >>= λ _. pure b)
  unfolding ◌>>=◌
  Speaks-then id m b k = record { at = λ s h. then_Said s (m s) b (k.at s h) }

  pub Speaks-yield :
      (id : ℕ) (msg : Message)
      → sender msg ≡ id
      → IsChecked msg
      → Speaks id (push e msg >>= λ _. yield_control e)
  unfolding ◌>>=◌ push yield_control
  Speaks-yield id msg own fit = record {
    at = λ s h. (refl, inr (msg, refl, own ∙ sym h, fit, refl));
  }

pub ruleset quiet_rules = (
  Quiet-pure, Quiet-lift, Quiet-raise, Quiet-gets, Quiet-or_raise, Quiet-on_machine,
  Quiet-on_tracker, Quiet-reg, Quiet-set_a0, Quiet-catch_index,
)

pub ruleset speaks_rules =
    (quiet_rules, Speaks-own, Speaks-bind, Speaks-Quiet, Speaks-if, Speaks-yield)
