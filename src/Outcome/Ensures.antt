-- ===== src/Outcome/Ensures.antt =====
-- Total correctness of stateful code: the outcome is a value or an error, and never a panic or an
-- exhausted loop. A rule for each way to build such code.
use ckb_vm_deterministic_sch.Prelude.{Bool, true, refl, ◌≡◌, Option, some}
use ckb_vm_deterministic_sch.Outcome.{
  assert, modify, Error, raise, Outcome, ok, err, panic, diverge, Exec, pure, lift, gets, unwrap,
  ◌>>=◌,
}

-- A value or an error.
abbrev pub IsSettled {ℓ} : {A : Type ℓ} → Outcome A → Type 0
IsSettled (ok a) = Unit
IsSettled (err x) = Unit
IsSettled panic = ⊥
IsSettled diverge = ⊥

module _ {ℓ} {S A : Type ℓ} where
  abbrev pub Post : (A → S → Type 0) → (S → Type 0) → Outcome A × S → Type 0
  Post Q R (ok a, s) = Q a s
  Post Q R (err x, s) = R s
  Post Q R (panic, s) = ⊥
  Post Q R (diverge, s) = ⊥

  -- A value comes with `Q`, an error with `R`, and nothing else comes out.
  pub record Ends (Q : A → S → Type 0) (R : S → Type 0) (r : Outcome A × S) : Type 0 where
    pub at : Post Q R r

  module _ {Q : A → S → Type 0} {R : S → Type 0} where
    pub Ends-pure : (a : A) (s : S) → Q a s → Ends Q R (pure a s)
    unfolding pure
    Ends-pure a s h = record { at = h }

    pub Ends-gets : (f : S → A) (s : S) → Q (f s) s → Ends Q R (gets f s)
    unfolding gets
    Ends-gets f s h = record { at = h }

    pub Ends-raise : (x : Error) (s : S) → R s → Ends Q R (raise x s)
    unfolding raise
    Ends-raise x s h = record { at = h }

    pub Ends-unwrap : (o : Option A) (a : A) (s : S) → o ≡ some a → Q a s → Ends Q R (unwrap o s)
    unfolding unwrap
    Ends-unwrap o a s e h = rw e (record { at = h })

  pub Ends-weaken :
      {Q Q' : A → S → Type 0} {R R' : S → Type 0} (r : Outcome A × S)
      → Ends Q R r
      → ((a : A) (s : S) → Q a s → Q' a s)
      → ((s : S) → R s → R' s)
      → Ends Q' R' r
  Ends-weaken (ok a, s) h f g = record { at = f a s h.at }
  Ends-weaken (err x, s) h f g = record { at = g s h.at }
  Ends-weaken (panic, s) h f g = absurd h.at
  Ends-weaken (diverge, s) h f g = absurd h.at

module _ {ℓ} {S A B : Type ℓ} {Q : A → S → Type 0} {T : B → S → Type 0} {R : S → Type 0} where
  continue_lem :
      (r : Outcome A × S) (f : A → Exec S B)
      → Ends Q R r
      → ((a : A) (s : S) → Q a s → Ends T R (f a s))
      → Ends T R ((lift r.0 >>= f) r.1)
  unfolding ◌>>=◌
  continue_lem (ok a, s) f h k = k a s h.at
  continue_lem (err x, s) f h k = record { at = h.at }
  continue_lem (panic, s) f h k = absurd h.at
  continue_lem (diverge, s) f h k = absurd h.at

  pub Ends-bind :
      (m : Exec S A) (f : A → Exec S B) (s : S)
      → Ends Q R (m s)
      → ((a : A) (s' : S) → Q a s' → Ends T R (f a s'))
      → Ends T R ((m >>= f) s)
  unfolding ◌>>=◌
  Ends-bind m f s h k = continue_lem (m s) f h k

module _ {S A : Type 0} where
  -- Code that works on a part of the state: `f` puts the part back.
  pub Ends-via :
      {T : Type 0} {Q : A → S → Type 0} {R : S → Type 0} {Q' : A → T → Type 0} {R' : T → Type 0}
      (r : Outcome A × S) (f : S → T)
      → Ends Q R r
      → ((a : A) (s : S) → Q a s → Q' a (f s))
      → ((s : S) → R s → R' (f s))
      → Ends Q' R' (r.0, f r.1)
  Ends-via (ok a, s) f h q k = record { at = q a s h.at }
  Ends-via (err x, s) f h q k = record { at = k s h.at }
  Ends-via (panic, s) f h q k = absurd h.at
  Ends-via (diverge, s) f h q k = absurd h.at

-- What comes out, along with what holds of it.
pub Ends-same :
    {S A : Type 0} {Q : A → S → Type 0} {R : S → Type 0} (r : Outcome A × S)
    → Ends Q R r
    → Ends (λ a s. (r ≡ (ok a, s)) × Q a s) R r
Ends-same (ok a, s) h = record { at = (refl, h.at) }
Ends-same (err x, s) h = record { at = h.at }
Ends-same (panic, s) h = absurd h.at
Ends-same (diverge, s) h = absurd h.at

pub Ends-modify :
    {S : Type 0} {Q : Unit {0} → S → Type 0} {R : S → Type 0} (f : S → S) (s : S)
    → Q tt (f s)
    → Ends Q R (modify f s)
unfolding modify
Ends-modify f s h = record { at = h }

module _ {S A B : Type 0} {T : B → S → Type 0} {R : S → Type 0} where
  pub Ends-bind_lift :
      (r : Outcome A) (f : A → Exec S B) (s : S)
      → IsSettled r
      → R s
      → ((a : A) → r ≡ ok a → Ends T R (f a s))
      → Ends T R ((lift r >>= f) s)
  unfolding ◌>>=◌
  Ends-bind_lift (ok a) f s t h k = k a refl
  Ends-bind_lift (err x) f s t h k = record { at = h }
  Ends-bind_lift panic f s t h k = absurd t
  Ends-bind_lift diverge f s t h k = absurd t

  pub Ends-bind_gets :
      (g : S → A) (f : A → Exec S B) (s : S) → Ends T R (f (g s) s) → Ends T R ((gets g >>= f) s)
  unfolding ◌>>=◌
  Ends-bind_gets g f s h = h

  pub Ends-bind_unwrap :
      (o : Option A) (f : A → Exec S B) (a : A) (s : S)
      → o ≡ some a
      → Ends T R (f a s)
      → Ends T R ((unwrap o >>= f) s)
  unfolding ◌>>=◌
  Ends-bind_unwrap o f a s e h = rw e h

module _ {S B : Type 0} {T : B → S → Type 0} {R : S → Type 0} where
  pub Ends-bind_modify :
      (g : S → S) (f : Unit {0} → Exec S B) (s : S)
      → Ends T R (f tt (g s))
      → Ends T R ((modify g >>= f) s)
  unfolding ◌>>=◌ modify
  Ends-bind_modify g f s h = h

  pub Ends-bind_assert :
      (b : Bool) (f : Unit {0} → Exec S B) (s : S)
      → b ≡ true
      → Ends T R (f tt s)
      → Ends T R ((assert b >>= f) s)
  unfolding ◌>>=◌ assert
  Ends-bind_assert b f s e h = rw e h

pub Ends-lift :
    {S A : Type 0} {Q : A → S → Type 0} {R : S → Type 0} (r : Outcome A) (s : S)
    → IsSettled r
    → ((a : A) → Q a s)
    → R s
    → Ends Q R (lift r s)
unfolding lift
Ends-lift (ok a) s t q h = record { at = q a }
Ends-lift (err x) s t q h = record { at = h }
Ends-lift panic s t q h = absurd t
Ends-lift diverge s t q h = absurd t

pub Ends-assert :
    {S : Type 0} {Q : Unit {0} → S → Type 0} {R : S → Type 0} (b : Bool) (s : S)
    → b ≡ true
    → Q tt s
    → Ends Q R (assert b s)
unfolding assert
Ends-assert b s e h = rw e (record { at = h })
