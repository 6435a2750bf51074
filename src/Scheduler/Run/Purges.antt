-- ===== src/Scheduler/Run/Purges.antt =====
-- Which VMs join another, and what a state without a VM looks like.
use mathlib.Core.Option.{map}
use ckb_vm_deterministic_sch.Prelude.{
  ℕ, suc, ◌≡◌, refl, Bool, true, false, not, Option, none, some, List, [], ◌∷◌, arith, ◌==◌, inl,
  inr, Option-cases, mem, is_some, if◌then◌else◌,
}
use ckb_vm_deterministic_sch.Table.{Table, lookup, insert, remove, retain}
use ckb_vm_deterministic_sch.Table.Laws.{
  IsAbove, IsSorted, lookup-above, lookup-remove, lookup-retain, remove-IsSorted, retain-IsSorted,
  length-remove-le,
}
use ckb_vm_deterministic_sch.Types.{
  VmState, runnable, terminated, join, wait_for_read, wait_for_write,
}
use ckb_vm_deterministic_sch.Engine.{Engine}
use ckb_vm_deterministic_sch.Scheduler.State.{State}
use ckb_vm_deterministic_sch.Scheduler.Run.{joining}
use ckb_vm_deterministic_sch.Scheduler.Valid.{IsValid, Fits}

-- A VM that joined `id` may run, and another VM stays as it is.
abbrev pub released : ℕ → VmState → VmState
released id (join target addr) = if target == id then runnable else join target addr
released id st = st

abbrev pub ids_of : List (ℕ × ℕ) → List ℕ
ids_of [] = []
ids_of ((k, _) ∷ l) = k ∷ ids_of l

abbrev pub joins : ℕ → Option VmState → Bool
joins id (some (join target _)) = target == id
joins id _ = false

pub mem-joining :
    (n id k : ℕ) (m : Table VmState)
    → IsAbove n m
    → mem k (ids_of (joining id m)) ≡ joins id (lookup k m)
unfolding joining lookup
mem-joining n id k [] a = refl
mem-joining n id k ((j, join t x) ∷ m) a =
    ground (arith, mem-joining (suc j) id k m a.1, lookup-above (suc j) k m a.1)
mem-joining n id k ((j, runnable) ∷ m) a =
    ground (arith, mem-joining (suc j) id k m a.1, lookup-above (suc j) k m a.1)
mem-joining n id k ((j, terminated) ∷ m) a =
    ground (arith, mem-joining (suc j) id k m a.1, lookup-above (suc j) k m a.1)
mem-joining n id k ((j, wait_for_read _ _ _ _) ∷ m) a =
    ground (arith, mem-joining (suc j) id k m a.1, lookup-above (suc j) k m a.1)
mem-joining n id k ((j, wait_for_write _ _ _ _ _) ∷ m) a =
    ground (arith, mem-joining (suc j) id k m a.1, lookup-above (suc j) k m a.1)

pub joins-contains : (id : ℕ) (o : Option VmState) → joins id o ≡ true → is_some o ≡ true
joins-contains id none h = cc
joins-contains id (some st) h = refl

pub released-joins :
    (id : ℕ) (o : Option VmState) → (if joins id o then some runnable else o) ≡ map (released id) o
released-joins id none = refl
released-joins id (some runnable) = refl
released-joins id (some terminated) = refl
released-joins id (some (join t x)) = ground arith
released-joins id (some (wait_for_read _ _ _ _)) = refl
released-joins id (some (wait_for_write _ _ _ _ _)) = refl

-- the pipes that `id` does not own
abbrev pub without : ℕ → Table ℕ → Table ℕ
without id pipes = retain (λ _ owner. not (owner == id)) pipes

without-owner :
    (id p o : ℕ) (pipes : Table ℕ)
    → IsSorted pipes
    → lookup p (without id pipes) ≡ some o
    → (lookup p pipes ≡ some o) × ((o == id) ≡ false)
without-owner id p o pipes sorted h =
    let kept = lookup-retain p (λ _ owner. not (owner == id)) pipes sorted in
    elim (Option-cases (lookup p pipes)) [
      | inl absent ↦ cc
      | inr (w, found) ↦ ground (arith, kept, found, h)
    ]

without-other :
    (id p k : ℕ) (pipes : Table ℕ)
    → (k == id) ≡ false
    → IsSorted pipes
    → lookup p pipes ≡ some k
    → lookup p (without id pipes) ≡ some k
without-other id p k pipes other sorted h =
    ground (arith, lookup-retain p (λ _ owner. not (owner == id)) pipes sorted, h)

Fits-retain :
    (id k : ℕ) (pipes : Table ℕ) (st : VmState)
    → (k == id) ≡ false
    → IsSorted pipes
    → Fits pipes k st
    → Fits (without id pipes) k st
Fits-retain id k pipes runnable other sorted f = tt
Fits-retain id k pipes terminated other sorted f = tt
Fits-retain id k pipes (join _ _) other sorted f = tt
Fits-retain id k pipes (wait_for_read p l b a) other sorted f =
    (without-other id p k pipes other sorted f.0, f.1)
Fits-retain id k pipes (wait_for_write p c l b a) other sorted f =
    (without-other id p k pipes other sorted f.0, f.1, f.2, f.3)

module _ {e : Engine} where
  -- the end of `release_joining`
  pub record Released (l : List (ℕ × ℕ)) (s s' : State e) : Type 0 where
    pub valid : IsValid s'
    pub states :
        (k : ℕ)
        → lookup k s'.states ≡ (if mem k (ids_of l) then some runnable else lookup k s.states)
    pub pipes : s'.pipes ≡ s.pipes
    pub ended : s'.terminated_vms ≡ s.terminated_vms

  pub noted_IsValid :
      (id code : ℕ) (s : State e)
      → IsValid s
      → IsValid (record s { terminated_vms = insert id code s.terminated_vms })
  noted_IsValid id code s v = record {
    placed = record {
      few = v.placed.few;
      sorted = v.placed.sorted;
      apart = v.placed.apart;
      named = v.placed.named;
    };
    known = v.known;
    ordered = v.ordered;
    fresh = v.fresh;
    pipes_ordered = v.pipes_ordered;
    owned = v.owned;
    slots = v.slots;
    even = v.even;
    waiting = v.waiting;
  }

  pub purged_IsValid :
      (id : ℕ) (s : State e)
      → IsValid s
      → IsValid (record s {
        pipes = without id s.pipes;
        states = remove id s.states;
        instantiated = remove id s.instantiated;
        suspended = remove id s.suspended;
      })
  purged_IsValid id s v =
      let still = λ (p o : ℕ) (h : lookup p (without id s.pipes) ≡ some o).
        without-owner id p o s.pipes v.pipes_ordered h in
      record {
        placed = record {
          few = omega (arith, v.placed.few, length-remove-le id s.instantiated);
          sorted = remove-IsSorted id s.instantiated v.placed.sorted;
          apart = λ k h. ground (
            arith,
            v.placed.apart k,
            lookup-remove id k s.instantiated,
            lookup-remove id k s.suspended,
          );
          named =
              λ k vm h. v.placed.named k vm (ground (arith, h, lookup-remove id k s.instantiated));
        };
        known = λ k. ground (
          arith,
          v.known k,
          lookup-remove id k s.instantiated,
          lookup-remove id k s.suspended,
          lookup-remove id k s.states,
        );
        ordered = remove-IsSorted id s.states v.ordered;
        fresh = λ k h. v.fresh k (ground (arith, h, lookup-remove id k s.states));
        pipes_ordered = retain-IsSorted _ s.pipes v.pipes_ordered;
        owned = λ p o h.
            let (old, other) = still p o h in
            ground (arith, v.owned p o old, other, lookup-remove id o s.states);
        slots = λ p o h. v.slots p o (still p o h).0;
        even = v.even;
        waiting = λ k st h.
            Fits-retain id k s.pipes st (ground (arith, h, lookup-remove id k s.states))
              v.pipes_ordered (v.waiting k st (ground (arith, h, lookup-remove id k s.states)));
      }
