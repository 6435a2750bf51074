-- ===== src/Outcome.antt =====
-- Results of fallible code (ckb_vm::Error, and Rust's panics), and stateful code that may fail.
pub mod Ensures
pub mod Partial
use ckb_vm_deterministic_sch.Prelude.{◌≡◌, refl, ℕ, String, Bool, Option, none, some, if◌then◌else◌}

-- The texts of `Error::Unexpected`, by the place that makes them.
pub data Reason : Type 0 where
  deadlock : Reason
  not_owner : ℕ → ℕ → Reason
  too_many : ℕ → Reason
  not_suspended : ℕ → Reason
  not_instantiated : ℕ → Reason
  input_load_failed : ℕ → Reason
  dep_load_failed : ℕ → Reason
  select_version_failed : Reason

-- `foreign` is any other error of ckb-vm.
pub data Error : Type 0 where
  cycles_exceeded cycles_overflow mem_out_of_bound paused : Error
  external : String → Error
  unexpected : Reason → Error
  foreign : ℕ → Error

-- `panic` is a failed `unwrap`, `assert!` or index; `diverge` is a loop that ran out of fuel.
pub data Outcome {ℓ} (A : Type ℓ) : Type ℓ where
  ok : A → Outcome A
  err : Error → Outcome A
  panic : Outcome A
  diverge : Outcome A

-- A method on `&mut self`: what was written before an error stays written.
abbrev pub Exec {ℓ} : Type ℓ → Type ℓ → Type ℓ
Exec S A = S → Outcome A × S

module _ {ℓ} {S A : Type ℓ} where
  unfoldable pub pure : A → Exec S A
  pure a s = (ok a, s)

  unfoldable pub lift : Outcome A → Exec S A
  lift r s = (r, s)

  unfoldable pub raise : Error → Exec S A
  raise x s = (err x, s)

  unfoldable pub gets : (S → A) → Exec S A
  gets f s = (ok (f s), s)

  -- `Option::ok_or`
  unfoldable pub or_raise : Error → Option A → Exec S A
  unfolding pure raise
  or_raise x none = raise x
  or_raise x (some a) = pure a

  -- `Option::unwrap`, and indexing a map
  unfoldable pub unwrap : Option A → Exec S A
  unfolding pure lift
  unwrap none = lift panic
  unwrap (some a) = pure a

module _ {ℓ} {S A B : Type ℓ} where
  abbrev pub continue : Outcome A → (A → Exec S B) → Exec S B
  continue (ok a) f s = f a s
  continue (err x) f s = (err x, s)
  continue panic f s = (panic, s)
  continue diverge f s = (diverge, s)

  infixl 5 ◌>>=◌ ◌>>◌
  -- opening this opens the ways to start too
  unfoldable pub ◌>>=◌ : Exec S A → (A → Exec S B) → Exec S B
  unfolding pure lift raise gets or_raise unwrap
  ◌>>=◌ m f s = let (r, s') = m s in continue r f s'

  abbrev pub ◌>>◌ : Exec S A → Exec S B → Exec S B
  m >> n = m >>= λ _. n

pub bind_panic {ℓ} :
    {S A B : Type ℓ} (m : Exec S A) (f : A → Exec S B) (s : S)
    → (m s).0 ≡ panic
    → ((m >>= f) s).0 ≡ panic
unfolding ◌>>=◌
bind_panic m f s h = rw h refl

module _ {ℓ} {S A B : Type ℓ} where
  pub bind-gets : (g : S → A) (f : A → Exec S B) (s : S) → (gets g >>= f) s ≡ f (g s) s
  unfolding ◌>>=◌
  bind-gets g f s = refl

  pub bind-unwrap :
      (o : Option A) (f : A → Exec S B) (a : A) (s : S) → o ≡ some a → (unwrap o >>= f) s ≡ f a s
  unfolding ◌>>=◌
  bind-unwrap o f a s h = rw h refl

unfoldable pub modify : {S : Type 0} → (S → S) → Exec S (Unit {0})
modify f s = (ok tt, f s)

-- `assert!`
unfoldable pub assert : {S : Type 0} → Bool → Exec S (Unit {0})
assert b s = (if b then ok tt else panic, s)
