-- ===== src/Scheduler/Instances/Course.antt =====
-- What becomes of the machine and the snapshot of each VM when VMs are moved: a snapshot is resumed
-- into a machine, a machine is suspended into a snapshot, and nothing else is done to them.
use ckb_vm_deterministic_sch.Prelude.{
  if◌then◌else◌, ℕ, ◌≡◌, sym, ap, subst, Bool, true, false, Option, none, some,
}
use ckb_vm_deterministic_sch.Outcome.{
  Error, Outcome, ok, err, panic, diverge, Exec, continue, ◌>>=◌, ◌>>◌,
}
use ckb_vm_deterministic_sch.Table.{lookup}
use ckb_vm_deterministic_sch.Engine.{Engine, Source}
use ckb_vm_deterministic_sch.Scheduler.State.{State, Vm}
use ckb_vm_deterministic_sch.Scheduler.Frame.{Leaves}
use ckb_vm_deterministic_sch.Scheduler.Instances.{build, on_tracked, create_dummy_vm, take_snapshot}

-- the machine and the snapshot of a VM, where it has them
abbrev pub Place : Engine → Type 0
Place e = Option (Vm e) × Option e.Snapshot

abbrev pub place : {e : Engine} → ℕ → State e → Place e
place k s = (lookup k s.instantiated, lookup k s.suspended)

module _ (e : Engine) (source : Source) where
  -- What is done to one VM. Only where an operation fails (`clean` is false) a machine stays whose
  -- snapshot could not be made.
  pub data Step (k : ℕ) (clean : Bool) (p q : Place e) : Type 0 where
    woken :
        (snapshot : e.Snapshot) (fresh vm : Vm e)
        → p.1 ≡ some snapshot
        → create_dummy_vm e k ≡ ok fresh
        → build (on_tracked e (e.resume source snapshot)) fresh ≡ ok vm
        → q ≡ (some vm, none)
        → Step k clean p q
    slept :
        (vm : Vm e) (snapshot : e.Snapshot)
        → p.0 ≡ some vm
        → (take_snapshot e vm).0 ≡ ok snapshot
        → q ≡ (none, some snapshot)
        → Step k clean p q
    tried :
        (vm : Vm e) (x : Error)
        → clean ≡ false
        → p.0 ≡ some vm
        → (take_snapshot e vm).0 ≡ err x
        → q ≡ (some (take_snapshot e vm).1, p.1)
        → Step k clean p q

  pub data Course (k : ℕ) (clean : Bool) (p : Place e) : Place e → Type 0 where
    stays : Course k clean p p
    next : {q r : Place e} → Course k clean p q → Step k clean q r → Course k clean p r

  -- Each VM has come where it is by such steps.
  abbrev pub Carried : Bool → State e → State e → Type 0
  Carried clean s s' = (k : ℕ) → Course k clean (place k s) (place k s')

  pub Course-same : (k : ℕ) (clean : Bool) (p q : Place e) → p ≡ q → Course k clean p q
  Course-same k clean p q h = subst (Course k clean p) h stays

  soil : {k : ℕ} {p q : Place e} (clean : Bool) → Step k true p q → Step k clean p q
  soil clean (woken x f v a b c d) = woken x f v a b c d
  soil clean (slept v x a b c) = slept v x a b c
  soil clean (tried v x t a b c) = absurd (cc)

  Course-any : {k : ℕ} {p q : Place e} (clean : Bool) → Course k true p q → Course k clean p q
  Course-any clean stays = stays
  Course-any clean (next h x) = next (Course-any clean h) (soil clean x)

  Course-trans :
      (clean : Bool) {k : ℕ} {p q r : Place e}
      → Course k true p q
      → Course k clean q r
      → Course k clean p r
  Course-trans clean h stays = Course-any clean h
  Course-trans clean h (next l x) = next (Course-trans clean h l) x

  abbrev pub Goes : {A : Type 0} → State e → Outcome A × State e → Type 0
  Goes s (ok a, s') = Carried true s s'
  Goes s (_, s') = Carried false s s'

  pub record Carries {A : Type 0} (m : Exec (State e) A) : Type 0 where
    pub at : (s : State e) → Goes s (m s)

  module _ {A : Type 0} where
    pub Goes-same : (s : State e) (r : Outcome A × State e) → r.1 ≡ s → Goes s r
    Goes-same s (ok a, s') h = λ k. Course-same k true _ _ (ap (place k) (sym h))
    Goes-same s (err x, s') h = λ k. Course-same k false _ _ (ap (place k) (sym h))
    Goes-same s (panic, s') h = λ k. Course-same k false _ _ (ap (place k) (sym h))
    Goes-same s (diverge, s') h = λ k. Course-same k false _ _ (ap (place k) (sym h))

    pub Carries-still : (m : Exec (State e) A) → Leaves (λ s. s) m → Carries m
    Carries-still m h = record { at = λ s. Goes-same s (m s) (h.at s) }

    pub Carries-if :
        (b : Bool) (m n : Exec (State e) A) → Carries m → Carries n → Carries (if b then m else n)
    Carries-if true m n h k = h
    Carries-if false m n h k = k

    Goes-after :
        (s s1 : State e) (r : Outcome A × State e) → Carried true s s1 → Goes s1 r → Goes s r
    Goes-after s s1 (ok a, s') h l = λ k. Course-trans true (h k) (l k)
    Goes-after s s1 (err x, s') h l = λ k. Course-trans false (h k) (l k)
    Goes-after s s1 (panic, s') h l = λ k. Course-trans false (h k) (l k)
    Goes-after s s1 (diverge, s') h l = λ k. Course-trans false (h k) (l k)

  module _ {A B : Type 0} where
    Goes-continue :
        (s : State e) (r : Outcome A × State e) (f : A → Exec (State e) B)
        → Goes s r
        → ((a : A) → Carries (f a))
        → Goes s (continue r.0 f r.1)
    Goes-continue s (ok a, s1) f h l = Goes-after s s1 _ h ((l a).at s1)
    Goes-continue s (err x, s1) f h l = h
    Goes-continue s (panic, s1) f h l = h
    Goes-continue s (diverge, s1) f h l = h

    pub Carries-bind :
        (m : Exec (State e) A) (f : A → Exec (State e) B)
        → Carries m
        → ((a : A) → Carries (f a))
        → Carries (m >>= f)
    unfolding ◌>>=◌
    Carries-bind m f h l = record { at = λ s. Goes-continue s (m s) f (h.at s) l }

    pub Carries-then :
        (m : Exec (State e) A) (n : Exec (State e) B) → Carries m → Carries n → Carries (m >> n)
    Carries-then m n h k = Carries-bind m _ h λ _. k
