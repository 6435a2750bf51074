-- ===== src/Outcome/Partial.antt =====
-- What holds if a value comes out, or if an error does; panics and endless loops are not ruled out.
use ckb_vm_deterministic_sch.Prelude.{◌≡◌, refl, subst}
use ckb_vm_deterministic_sch.Outcome.{
  Error, Outcome, ok, err, panic, diverge, Exec, continue, gets, ◌>>=◌,
}
use ckb_vm_deterministic_sch.Outcome.Ensures.{IsSettled}

abbrev pub OnOk : {S A : Type 0} → (A → S → Type 0) → Outcome A × S → Type 0
OnOk Q (ok a, s) = Q a s
OnOk Q _ = Unit

-- A value comes with `Q`.
pub record Gives {S A : Type 0} (Q : A → S → Type 0) (r : Outcome A × S) : Type 0 where
  pub at : OnOk Q r

pub Gives-any : {S A : Type 0} (r : Outcome A × S) → Gives (λ _ _. Unit {0}) r
Gives-any (ok a, s) = record { at = tt }
Gives-any (err x, s) = record { at = tt }
Gives-any (panic, s) = record { at = tt }
Gives-any (diverge, s) = record { at = tt }

module _ {S A B : Type 0} {P : A → S → Type 0} {Q : B → S → Type 0} where
  Gives-continue :
      (r : Outcome A × S) (f : A → Exec S B)
      → Gives P r
      → ((a : A) (s : S) → P a s → Gives Q (f a s))
      → Gives Q (continue r.0 f r.1)
  Gives-continue (ok a, s) f h k = k a s h.at
  Gives-continue (err x, s) f h k = record { at = tt }
  Gives-continue (panic, s) f h k = record { at = tt }
  Gives-continue (diverge, s) f h k = record { at = tt }

  pub Gives-bind :
      (m : Exec S A) (f : A → Exec S B) (s : S)
      → Gives P (m s)
      → ((a : A) (s : S) → P a s → Gives Q (f a s))
      → Gives Q ((m >>= f) s)
  unfolding ◌>>=◌
  Gives-bind m f s h k = Gives-continue (m s) f h k

abbrev pub AtError : {S A : Type 0} → (Error → S → Type 0) → Outcome A × S → Type 0
AtError F (err x, s) = F x s
AtError F _ = Unit

-- After an error, `F` holds.
pub record Fails {S A : Type 0} (F : Error → S → Type 0) (r : Outcome A × S) : Type 0 where
  pub at : AtError F r

module _ {S A B : Type 0} {F : Error → S → Type 0} where
  Fails-continue :
      (r : Outcome A × S) (f : A → Exec S B)
      → Fails F r
      → ((a : A) (s' : S) → r ≡ (ok a, s') → Fails F (f a s'))
      → Fails F (continue r.0 f r.1)
  Fails-continue (ok a, s) f h k = k a s refl
  Fails-continue (err x, s) f h k = record { at = h.at }
  Fails-continue (panic, s) f h k = record { at = tt }
  Fails-continue (diverge, s) f h k = record { at = tt }

  pub Fails-bind :
      (m : Exec S A) (f : A → Exec S B) (s : S)
      → Fails F (m s)
      → ((a : A) (s' : S) → m s ≡ (ok a, s') → Fails F (f a s'))
      → Fails F ((m >>= f) s)
  unfolding ◌>>=◌
  Fails-bind m f s h k = Fails-continue (m s) f h k

  pub Fails-gets :
      (g : S → A) (f : A → Exec S B) (s : S) → Fails F (f (g s) s) → Fails F ((gets g >>= f) s)
  unfolding ◌>>=◌
  Fails-gets g f s h = h

module _ {S A B : Type 0} where
  pub rest-IsSettled :
      (m : Exec S A) (f : A → Exec S B) (s s' : S) (a : A)
      → m s ≡ (ok a, s')
      → IsSettled ((m >>= f) s).0
      → IsSettled (f a s').0
  unfolding ◌>>=◌
  rest-IsSettled m f s s' a went h =
      subst (λ (r : Outcome A × S). IsSettled (continue r.0 f r.1).0) went h

  first_of_continue :
      (r : Outcome A × S) (f : A → Exec S B) → IsSettled (continue r.0 f r.1).0 → IsSettled r.0
  first_of_continue (ok a, s) f h = tt
  first_of_continue (err x, s) f h = tt
  first_of_continue (panic, s) f h = h
  first_of_continue (diverge, s) f h = h

  pub first-IsSettled :
      (m : Exec S A) (f : A → Exec S B) (s : S) → IsSettled ((m >>= f) s).0 → IsSettled (m s).0
  unfolding ◌>>=◌
  first-IsSettled m f s h = first_of_continue (m s) f h
