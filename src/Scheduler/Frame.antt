-- ===== src/Scheduler/Frame.antt =====
-- What the operations leave alone: a part of the state that none of their steps writes.
use ckb_vm_deterministic_sch.Prelude.{
  ◌≡◌, refl, ap, ◌∙◌, Bool, true, false, Option, none, some, if◌then◌else◌,
}
use ckb_vm_deterministic_sch.Outcome.{
  Error, Outcome, ok, err, panic, diverge, Exec, pure, lift, raise, gets, modify, or_raise, unwrap,
  assert, continue, ◌>>=◌, ◌>>◌,
}

module _ {S T : Type 0} (f : S → T) where
  -- `f` of the state is as before, whatever comes out.
  pub record Leaves {A : Type 0} (m : Exec S A) : Type 0 where
    pub at : (s : S) → f (m s).1 ≡ f s

  module _ {A : Type 0} where
    pub Leaves-pure : (a : A) → Leaves (pure a)
    unfolding pure
    Leaves-pure a = record { at = λ s. refl }

    pub Leaves-lift : (r : Outcome A) → Leaves (lift r)
    unfolding lift
    Leaves-lift r = record { at = λ s. refl }

    pub Leaves-raise : (x : Error) → Leaves (raise {A = A} x)
    unfolding raise
    Leaves-raise x = record { at = λ s. refl }

    pub Leaves-gets : (g : S → A) → Leaves (gets g)
    unfolding gets
    Leaves-gets g = record { at = λ s. refl }

    pub Leaves-or_raise : (x : Error) (o : Option A) → Leaves (or_raise x o)
    unfolding or_raise
    Leaves-or_raise x none = record { at = λ s. refl }
    Leaves-or_raise x (some a) = record { at = λ s. refl }

    pub Leaves-unwrap : (o : Option A) → Leaves (unwrap o)
    unfolding unwrap
    Leaves-unwrap none = record { at = λ s. refl }
    Leaves-unwrap (some a) = record { at = λ s. refl }

    pub Leaves-if : (b : Bool) (m n : Exec S A) → Leaves m → Leaves n → Leaves (if b then m else n)
    Leaves-if true m n h k = h
    Leaves-if false m n h k = k

    pub Leaves-cases :
        {B : Type 0} (o : Option B) (m : B → Exec S A) (n : Exec S A)
        → ((b : B) → Leaves (m b))
        → Leaves n
        → Leaves (elim o [ some b ↦ m b | none ↦ n ])
    Leaves-cases none m n h k = k
    Leaves-cases (some b) m n h k = h b

  pub Leaves-assert : (b : Bool) → Leaves (assert b)
  unfolding assert
  Leaves-assert true = record { at = λ s. refl }
  Leaves-assert false = record { at = λ s. refl }

  pub Leaves-modify : (g : S → S) → ((s : S) → f (g s) ≡ f s) → Leaves (modify g)
  unfolding modify
  Leaves-modify g h = record { at = h }

  module _ {A B : Type 0} where
    Leaves-continue :
        (s : S) (r : Outcome A × S) (k : A → Exec S B)
        → f r.1 ≡ f s
        → ((a : A) → Leaves (k a))
        → f (continue r.0 k r.1).1 ≡ f s
    Leaves-continue s (ok a, s') k h l = (l a).at s' ∙ h
    Leaves-continue s (err x, s') k h l = h
    Leaves-continue s (panic, s') k h l = h
    Leaves-continue s (diverge, s') k h l = h

    pub Leaves-bind :
        (m : Exec S A) (k : A → Exec S B) → Leaves m → ((a : A) → Leaves (k a)) → Leaves (m >>= k)
    unfolding ◌>>=◌
    Leaves-bind m k h l = record { at = λ s. Leaves-continue s (m s) k (h.at s) l }

    pub Leaves-then : (m : Exec S A) (n : Exec S B) → Leaves m → Leaves n → Leaves (m >> n)
    Leaves-then m n h k = Leaves-bind m _ h λ _. k

-- What leaves `f` alone leaves alone what `f` determines.
pub Leaves-of :
    {S T U A : Type 0} (f : S → T) (g : T → U) (m : Exec S A) → Leaves f m → Leaves (λ s. g (f s)) m
Leaves-of f g m h = record { at = λ s. ap g (h.at s) }

pub ruleset leaves_rules = (
  Leaves-pure, Leaves-lift, Leaves-raise, Leaves-gets, Leaves-or_raise, Leaves-unwrap, Leaves-if,
  Leaves-assert, Leaves-bind,
)
