-- ===== src/Scheduler/Instances/Boot.antt =====
-- `boot_vm` starts one new VM under a fresh id.
use ckb_vm_deterministic_sch.Prelude.{
  ℕ, zero, suc, ◌+◌, ◌<◌, ◌≡◌, refl, ap, subst, ◌∙◌, true, false, some, List, [], ◌∷◌, arith, ◌==◌,
  inl, inr, Bool-cases, u64_mod, add64, length, leb,
}
use ckb_vm_deterministic_sch.Outcome.{Exec}
use ckb_vm_deterministic_sch.Outcome.Ensures.{
  Ends, Ends-pure, Ends-bind, Ends-bind_gets, Ends-bind_lift, Ends-bind_modify, Ends-bind_unwrap,
  Ends-weaken,
}
use ckb_vm_deterministic_sch.Table.{Table, lookup, contains, insert, first_key}
use ckb_vm_deterministic_sch.Table.Laws.{lookup-insert, insert-IsSorted, length-insert}
use ckb_vm_deterministic_sch.Types.{Bytes, runnable}
use ckb_vm_deterministic_sch.Types.Piece.{DataPieceId}
use ckb_vm_deterministic_sch.Engine.{Engine, Source}
use ckb_vm_deterministic_sch.Engine.Laws.{Returns, Returns-via, IsTotal, IsServing}
use ckb_vm_deterministic_sch.Scheduler.State.{State, Vm, max_instantiated_vms}
use ckb_vm_deterministic_sch.Scheduler.Instances.{make_room, boot_vm, load_program, on_second}
use ckb_vm_deterministic_sch.Scheduler.Instances.Placement.{
  IsPlaced, Moved, Moved-refl, Moved-trans, insert-named, suspend_vm_lem, build-id, build-IsSettled,
  create_dummy_vm-id, create_dummy_vm-IsSettled, on_tracked-Returns,
}
use ckb_vm_deterministic_sch.Scheduler.Valid.{IsValid, Fits, Moved-IsValid}

first_key_lem :
    {V : Type 0} (m : Table V)
    → 0 < length m
    → (k : ℕ) × (first_key m ≡ some k) × (contains k m ≡ true)
unfolding lookup
first_key_lem [] h = absurd (omega arith)
first_key_lem ((k, v) ∷ m) h = (k, refl, ground arith)

module _ (e : Engine) (t : IsTotal e) where
  -- There is enough fuel: each round suspends one VM.
  make_room_lem :
      (fuel : ℕ) (s : State e)
      → IsPlaced s
      → length s.instantiated < fuel
      → Ends
          (λ _ s'. Moved s s' × (length s'.instantiated < max_instantiated_vms))
          (λ s'. Moved s s')
          (make_room e fuel s)
  unfolding make_room
  make_room_lem zero s p h = absurd (omega arith)
  make_room_lem (suc fuel) s p h =
      Ends-bind_gets _ _ s (elim (Bool-cases (leb max_instantiated_vms (length s.instantiated))) [
        | inr room ↦ rw room (Ends-pure _ _ (Moved-refl s p, ground arith))
        | inl full ↦
            let first = first_key_lem s.instantiated (ground arith) in
            rw full (
              Ends-bind_gets _ _ s (
                Ends-bind_unwrap _ _ first.0 s first.1 (
                  Ends-bind _ _ s (suspend_vm_lem e t first.0 s p first.2) λ _ s1 l.
                    Ends-weaken _ (make_room_lem fuel s1 l.moved.placed (omega (arith, l.smaller)))
                      (λ _ s2 r. (Moved-trans s s1 s2 l.moved r.0, r.1))
                      (λ s2 r. Moved-trans s s1 s2 l.moved r))))
      ])

  on_second-Returns :
      {A : Type 0} (m : Exec e.Machine A) (r : e.Tracker × e.Machine)
      → Returns (m r.1)
      → Returns (on_second e m r)
  unfolding on_second
  on_second-Returns m (tracker, mac) h = Returns-via (m mac) (λ mac'. (tracker, mac')) h

  load_program-Returns :
      (source : Source)
      → IsServing source
      → (piece : DataPieceId) (offset size : ℕ) (args : List Bytes) (r : e.Tracker × e.Machine)
      → Returns (load_program e source piece offset size args r)
  unfolding load_program
  load_program-Returns source serving piece offset size args r =
      Ends-bind_lift _ _ r (serving piece offset size) tt λ loaded _. Ends-bind_gets _ _ r (
        Ends-bind_lift _ _ r (t.parse_elf loaded.0 r.1) tt λ meta _.
          Ends-bind _ _ r
            (on_second-Returns _ r (t.load_program_with_metadata loaded.0 meta args r.1))
            λ bytes r1 _.
              Ends-bind _ _ r1 (t.mark_program meta piece offset r1)
                λ _ r2 _. on_second-Returns _ r2 (t.add_cycles_no_checking _ r2.1))

-- The id counter has moved on.
abbrev bumped : {e : Engine} → State e → State e
bumped s = record s { next_vm_id = add64 s.next_vm_id 1 }

abbrev booted : {e : Engine} → ℕ → Vm e → State e → State e
booted id vm s = record s {
  instantiated = insert id vm s.instantiated;
  states = insert id runnable s.states;
}

-- A VM with a fresh id has been added, runnable, and with no pipe.
pub record Booted {e : Engine} (id : ℕ) (s s' : State e) : Type 0 where
  pub valid : IsValid s'
  pub fresh_id : id ≡ s.next_vm_id
  pub states : s'.states ≡ insert id runnable s.states
  pub pipes : s'.pipes ≡ s.pipes

module _ {e : Engine} where
  bumped-IsValid : (s : State e) → IsValid s → s.next_vm_id + 1 < u64_mod → IsValid (bumped s)
  bumped-IsValid s v room = record {
    placed = record {
      few = v.placed.few;
      sorted = v.placed.sorted;
      apart = v.placed.apart;
      named = v.placed.named;
    };
    known = v.known;
    ordered = v.ordered;
    fresh = λ k h. omega (arith, v.fresh k h);
    pipes_ordered = v.pipes_ordered;
    owned = v.owned;
    slots = v.slots;
    even = v.even;
    waiting = v.waiting;
  }

  booted-IsValid :
      (vm : Vm e) (s : State e)
      → IsValid s
      → s.next_vm_id + 1 < u64_mod
      → length s.instantiated < max_instantiated_vms
      → vm.0.id ≡ s.next_vm_id
      → IsValid (booted s.next_vm_id vm (bumped s))
  booted-IsValid vm s v room few n =
      let id = s.next_vm_id in
      let unused : contains id s.states ≡ false = ground (arith, v.fresh id) in
      record {
        placed = record {
          few = omega (arith, length-insert id vm s.instantiated);
          sorted = insert-IsSorted id vm s.instantiated v.placed.sorted;
          apart = λ k h.
              ground
                (arith, lookup-insert id k vm s.instantiated, v.placed.apart k, v.known id, unused);
          named = λ k w f. insert-named id vm s v.placed n k w f;
        };
        known = λ k. ground (
          arith,
          v.known k,
          lookup-insert id k vm s.instantiated,
          lookup-insert id k runnable s.states,
        );
        ordered = insert-IsSorted id runnable s.states v.ordered;
        fresh = λ k h. ground (arith, v.fresh k, lookup-insert id k runnable s.states);
        pipes_ordered = v.pipes_ordered;
        owned = λ p o h. ground (arith, v.owned p o, lookup-insert id o runnable s.states);
        slots = v.slots;
        even = v.even;
        waiting = λ k st h. elim (Bool-cases (id == k)) [
          | inl same ↦
              subst (λ x. Fits s.pipes k x)
                (let e1 : runnable ≡ st = ground (arith, lookup-insert id k runnable s.states) in
                  e1)
                tt
          | inr other ↦ v.waiting k st (ground (arith, lookup-insert id k runnable s.states))
        ];
      }

module _ (e : Engine) (source : Source) (t : IsTotal e) (serving : IsServing source) where
  -- In a valid state with an id left, `boot_vm` does not panic. If it succeeds, it returns the next
  -- id, the VM with that id is runnable, and no other state and no pipe changes. The state is valid
  -- afterwards, also after an error.
  pub boot_vm_lem :
      (piece : DataPieceId) (offset size : ℕ) (args : List Bytes) (s : State e)
      → IsValid s
      → s.next_vm_id + 1 < u64_mod
      → Ends
          (λ id s'. Booted id s s')
          (λ s'. IsValid s')
          (boot_vm e source piece offset size args s)
  unfolding boot_vm
  boot_vm_lem piece offset size args s v room = Ends-bind_gets _ _ s (
      Ends-bind _ _ s
        (Ends-weaken _ (make_room_lem e t (suc (length s.instantiated)) s v.placed (omega arith))
          (λ _ s1 r. r) (λ s1 m. Moved-IsValid s s1 v m))
        λ _ s1 r.
          let v1 = Moved-IsValid s s1 v r.0 in
          let same_id = ap (λ (x : State e). x.next_vm_id) r.0.rest in
          let room1 : s1.next_vm_id + 1 < u64_mod = omega (arith, same_id) in
          let vb = bumped-IsValid s1 v1 room1 in
          Ends-bind_gets _ _ s1 (
            Ends-bind_modify _ _ s1 (
              Ends-bind_lift _ _ (bumped s1) (create_dummy_vm-IsSettled e s1.next_vm_id) vb
                λ vm made.
                  Ends-bind_lift _ _ (bumped s1)
                    (build-IsSettled _ vm (
                      on_tracked-Returns e _ vm
                        (load_program-Returns e t source serving piece offset size args _)))
                    vb
                    λ vm' built. Ends-bind_modify _ _ (bumped s1) (
                      Ends-pure _ _ (record {
                        valid =
                            booted-IsValid vm' s1 v1 room1 r.1
                              (build-id e _ vm vm' built ∙ create_dummy_vm-id e _ vm made);
                        fresh_id = same_id;
                        states =
                            ap (λ (x : State e). insert s1.next_vm_id runnable x.states) r.0.rest;
                        pipes = ap (λ (x : State e). x.pipes) r.0.rest;
                      })))))
