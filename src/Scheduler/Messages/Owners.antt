-- ===== src/Scheduler/Messages/Owners.antt =====
-- What moving and making pipes does to their owners.
use ckb_vm_deterministic_sch.Prelude.{
  ℕ, ◌+◌, ◌%◌, ◌<◌, ◌≤◌, ◌≡◌, refl, ap, true, some, List, [], ◌∷◌, arith, ◌==◌, ◌||◌, inl, inr,
  Bool-cases, u64_mod, mem, if◌then◌else◌,
}
use ckb_vm_deterministic_sch.Outcome.Ensures.{
  Ends, Ends-bind_gets, Ends-bind_modify, Ends-weaken, Ends-pure, Ends-raise,
}
use ckb_vm_deterministic_sch.Table.{Table, lookup, contains, insert}
use ckb_vm_deterministic_sch.Table.Laws.{lookup-insert, insert-IsSorted}
use ckb_vm_deterministic_sch.Types.{
  VmState, runnable, terminated, join, wait_for_read, wait_for_write,
}
use ckb_vm_deterministic_sch.Types.Pipe.{create}
use ckb_vm_deterministic_sch.Engine.{Engine}
use ckb_vm_deterministic_sch.Scheduler.State.{State, is_owner}
use ckb_vm_deterministic_sch.Scheduler.Messages.{check_owned, move_pipes, add_pipes}
use ckb_vm_deterministic_sch.Scheduler.Messages.Keeps.{is_owner-eq}
use ckb_vm_deterministic_sch.Scheduler.Valid.{IsValid, Fits}

-- A pipe that no waiting VM owns may get another owner.
Fits-insert :
    (p o k : ℕ) (pipes : Table ℕ) (st : VmState)
    → Fits pipes k st
    → (lookup p pipes ≡ some k → st ≡ runnable)
    → Fits (insert p o pipes) k st
Fits-insert p o k pipes runnable f free = tt
Fits-insert p o k pipes terminated f free = tt
Fits-insert p o k pipes (join x y) f free = tt
Fits-insert p o k pipes (wait_for_read q l b a) f free = elim (Bool-cases (p == q)) [
  | inl same ↦ let e = free (ground (arith, f.0)) in cc
  | inr other ↦ (ground (arith, lookup-insert p q o pipes, f.0), f.1)
]
Fits-insert p o k pipes (wait_for_write q c l b a) f free = elim (Bool-cases (p == q)) [
  | inl same ↦ let e = free (ground (arith, f.0)) in cc
  | inr other ↦ (ground (arith, lookup-insert p q o pipes, f.0), f.1, f.2, f.3)
]

module _ {e : Engine} where
  own-IsValid :
      (p o : ℕ) (s : State e)
      → IsValid s
      → contains o s.states ≡ true
      → p < s.next_pipe_slot
      → ((k : ℕ) → lookup p s.pipes ≡ some k → lookup k s.states ≡ some runnable)
      → IsValid (record s { pipes = insert p o s.pipes })
  own-IsValid p o s v there low free = record {
    placed = record {
      few = v.placed.few;
      sorted = v.placed.sorted;
      apart = v.placed.apart;
      named = v.placed.named;
    };
    known = v.known;
    ordered = v.ordered;
    fresh = v.fresh;
    pipes_ordered = insert-IsSorted p o s.pipes v.pipes_ordered;
    owned = λ q w h. ground (arith, v.owned q w, lookup-insert p q o s.pipes);
    slots = λ q w h. ground (arith, v.slots q w, lookup-insert p q o s.pipes);
    even = v.even;
    waiting = λ k st h.
        Fits-insert p o k s.pipes st (v.waiting k st h) (λ own.
          let r = free k own in let e1 : some st ≡ some runnable = cc in ground (arith, e1));
  }

  -- the owner of a pipe after `move_pipes`
  pub record Handed (id : ℕ) (l : List ℕ) (s s' : State e) : Type 0 where
    pub valid : IsValid s'
    pub states : s'.states ≡ s.states
    pub owners : (p : ℕ) → lookup p s'.pipes ≡ (if mem p l then some id else lookup p s.pipes)

  -- Every owner of a listed pipe is runnable.
  abbrev pub Free : List ℕ → State e → Type 0
  Free l s =
      (p : ℕ)
      → mem p l ≡ true
      → (k : ℕ) × (lookup p s.pipes ≡ some k) × (lookup k s.states ≡ some runnable)

  pub move_pipes_lem :
      (id : ℕ) (l : List ℕ) (s : State e)
      → IsValid s
      → lookup id s.states ≡ some runnable
      → Free l s
      → Ends (λ _ s'. Handed id l s s') (λ s'. IsValid s') (move_pipes e id l s)
  unfolding move_pipes
  move_pipes_lem id [] s v new free =
      Ends-pure _ _ (record { valid = v; states = refl; owners = λ p. refl })
  move_pipes_lem id (p ∷ l) s v new free =
      let (o, own, ready) = free p (ground arith) in
      let s1 : State e = record s { pipes = insert p id s.pipes } in
      let v1 = own-IsValid p id s v (rw new refl) (v.slots p o own) (λ k h.
        let e1 : some k ≡ some o = cc in let e2 : k ≡ o = ground (arith, e1) in rw e2 ready) in
      Ends-bind_modify _ _ s (
        Ends-weaken _
          (move_pipes_lem id l s1 v1 new (λ q m. elim (Bool-cases (p == q)) [
            | inl same ↦ (id, ground (arith, lookup-insert p q id s.pipes), new)
            | inr other ↦
                let (k, own_q, ready_q) = free q (ground (arith, m)) in
                (k, ground (arith, own_q, lookup-insert p q id s.pipes), ready_q)
          ]))
          (λ _ s' h. record {
            valid = h.valid;
            states = h.states;
            owners = λ q. ground (arith, h.owners q, lookup-insert p q id s.pipes);
          })
          (λ s' h. h))

  slots-IsValid :
      (n : ℕ) (s : State e)
      → IsValid s
      → s.next_pipe_slot ≤ n
      → n % 2 ≡ 0
      → IsValid (record s { next_pipe_slot = n })
  slots-IsValid n s v up even = record {
    placed = record {
      few = v.placed.few;
      sorted = v.placed.sorted;
      apart = v.placed.apart;
      named = v.placed.named;
    };
    known = v.known;
    ordered = v.ordered;
    fresh = v.fresh;
    pipes_ordered = v.pipes_ordered;
    owned = v.owned;
    slots = λ p o h. omega (arith, v.slots p o h);
    even = even;
    waiting = v.waiting;
  }

  -- `add_pipes`: two new ends, and who owns the others does not change.
  pub record Piped (id : ℕ) (pair : ℕ × ℕ) (s s' : State e) : Type 0 where
    pub valid : IsValid s'
    pub states : s'.states ≡ s.states
    pub pair_is : pair ≡ (s.next_pipe_slot, s.next_pipe_slot + 1)
    pub owners :
        (p : ℕ)
        → lookup p s'.pipes ≡ (
            if p == s.next_pipe_slot || p == s.next_pipe_slot + 1
            then some id
            else lookup p s.pipes)

  pub add_pipes_lem :
      (id : ℕ) (s : State e)
      → IsValid s
      → contains id s.states ≡ true
      → s.next_pipe_slot + 2 < u64_mod
      → Ends (λ pair s'. Piped id pair s s') (λ s'. IsValid s') (add_pipes e id s)
  unfolding add_pipes create
  add_pipes_lem id s v there room =
      let p1 = s.next_pipe_slot in
      let p2 = (p1 + 1) % u64_mod in
      let n = (p1 + 2) % u64_mod in
      let s1 : State e = record s { next_pipe_slot = n } in
      let v1 = slots-IsValid n s v (omega arith) (omega (arith, v.even)) in
      let s2 : State e = record s1 { pipes = insert p1 id s.pipes } in
      let v2 =
        own-IsValid p1 id s1 v1 there (omega arith)
          (λ k h. absurd (omega (arith, v.slots p1 k h))) in
      let new : (k : ℕ) → ¬ (lookup p2 (insert p1 id s.pipes) ≡ some k) = λ k h.
        let low = v.slots p2 k (ground (arith, lookup-insert p1 p2 id s.pipes)) in
        omega (arith, low) in
      let v3 = own-IsValid p2 id s2 v2 there (omega arith) (λ k h. absurd (new k h)) in
      Ends-bind_gets _ _ s (
        Ends-bind_modify _ _ s (
          Ends-pure _ _ (record {
            valid = v3;
            states = refl;
            pair_is = ap (λ x. (p1, x)) (omega arith);
            owners = λ p. ground (
              arith,
              lookup-insert p1 p id s.pipes,
              lookup-insert p2 p id (insert p1 id s.pipes),
            );
          })))

  pub check_owned_lem :
      (id : ℕ) (l : List ℕ) (s : State e)
      → IsValid s
      → Ends
          (λ _ s'. (s' ≡ s) × ((p : ℕ) → mem p l ≡ true → lookup p s.pipes ≡ some id))
          (λ s'. s' ≡ s)
          (check_owned e id l s)
  unfolding check_owned
  check_owned_lem id [] s v = Ends-pure _ _ (refl, λ p m. cc)
  check_owned_lem id (p ∷ l) s v =
      Ends-bind_gets _ _ s (elim (Bool-cases (is_owner id (lookup p s.pipes))) [
        | inr other ↦ rw other (Ends-raise _ s refl)
        | inl own ↦ rw own (
            Ends-weaken _ (check_owned_lem id l s v)
              (λ _ s' h. (h.0, λ q m. ground (arith, h.1 q, is_owner-eq id (lookup p s.pipes) own)))
              (λ s' h. h))
      ])
