-- ===== src/Scheduler/Io/Valid.antt =====
-- `process_io` as a whole.
use ckb_vm_deterministic_sch.Prelude.{
  ◌==◌, false, ℕ, ◌≡◌, ◌≢◌, refl, sym, ap, subst, ◌∙◌, true, some, List, [], ◌∷◌, arith, inl, inr,
  Option-cases, mem, is_some,
}
use ckb_vm_deterministic_sch.Outcome.{◌>>◌}
use ckb_vm_deterministic_sch.Outcome.Ensures.{
  Ends, Ends-bind, Ends-bind_gets, Ends-bind_unwrap, Ends-pure, Ends-weaken,
}
use ckb_vm_deterministic_sch.Table.{Table, lookup, contains, insert}
use ckb_vm_deterministic_sch.Table.Laws.{lookup-insert}
use ckb_vm_deterministic_sch.Types.{
  VmState, runnable, terminated, join, wait_for_read, wait_for_write,
}
use ckb_vm_deterministic_sch.Engine.{Engine, Source}
use ckb_vm_deterministic_sch.Engine.Laws.{IsTotal}
use ckb_vm_deterministic_sch.Scheduler.State.{State, set_state, with_vm, store64_success}
use ckb_vm_deterministic_sch.Scheduler.Io.{
  Pair, transfer, transfer_all, finish_closed, finish_all_closed, process_io,
}
use ckb_vm_deterministic_sch.Scheduler.Io.Collected.{
  WaitsClosed, IsMatched, AllMatched, collected_lem,
}
use ckb_vm_deterministic_sch.Scheduler.Io.Transfers.{transfer_lem}
use ckb_vm_deterministic_sch.Scheduler.Valid.{IsValid, Fits, Moved-IsValid, insert-IsValid}
use ckb_vm_deterministic_sch.Scheduler.Valid.Visits.{with_vm_lem, store64_success-IsCalm}

-- A VM that waits on a pipe whose other end is closed is instantiated.
abbrev pub IsAttended : {e : Engine} → State e → Type 0
IsAttended s =
    (k : ℕ) (st : VmState)
    → lookup k s.states ≡ some st
    → WaitsClosed s.pipes st
    → contains k s.instantiated ≡ true

-- Overwriting a key changes no other.
contains-insert :
    {V : Type 0} (k j : ℕ) (v : V) (m : Table V)
    → contains k m ≡ true
    → contains j (insert k v m) ≡ contains j m
contains-insert k j v m h = ground (arith, lookup-insert k j v m)

-- No VM comes or goes, and no pipe.
pub record Kin {e : Engine} (s s' : State e) : Type 0 where
  pub valid : IsValid s'
  pub vms : (k : ℕ) → contains k s'.states ≡ contains k s.states
  pub pipes : s'.pipes ≡ s.pipes

-- Also no VM moves.
pub record Near {e : Engine} (s s' : State e) : Type 0 where
  pub kin : Kin s s'
  pub there : (k : ℕ) → contains k s'.instantiated ≡ contains k s.instantiated

module _ {e : Engine} where
  Kin-refl : (s : State e) → IsValid s → Kin s s
  Kin-refl s v = record { valid = v; vms = λ k. refl; pipes = refl }

  Kin-trans : (s s1 s2 : State e) → Kin s s1 → Kin s1 s2 → Kin s s2
  Kin-trans s s1 s2 a b = record {
    valid = b.valid;
    vms = λ k. b.vms k ∙ a.vms k;
    pipes = b.pipes ∙ a.pipes;
  }

  Near-trans : (s s1 s2 : State e) → Near s s1 → Near s1 s2 → Near s s2
  Near-trans s s1 s2 a b = record {
    kin = Kin-trans s s1 s2 a.kin b.kin;
    there = λ k. b.there k ∙ a.there k;
  }

module _ (e : Engine) (t : IsTotal e) where
  finish_lem :
      (id addr value : ℕ) (s : State e)
      → IsValid s
      → contains id s.states ≡ true
      → contains id s.instantiated ≡ true
      → Ends
          (λ _ s'. Near s s')
          (λ s'. IsValid s')
          ((do with_vm e id (store64_success e addr value); set_state e id runnable) s)
  unfolding set_state
  finish_lem id addr value s v known here =
      Ends-bind _ _ s
        (Ends-weaken _ (with_vm_lem id _ s v.placed here (store64_success-IsCalm e t addr value))
          (λ _ s1 c. c) (λ s1 c. Moved-IsValid s s1 v c.moved))
        λ _ s1 c.
          let v1 = Moved-IsValid s s1 v c.moved in
          let states1 = ap (λ (x : State e). x.states) c.moved.rest in
          let known1 = ap (contains id) states1 ∙ known in
          record {
            at = record {
              kin = record {
                valid = insert-IsValid id runnable s1 v1 known1 tt;
                vms = λ k.
                    ground (
                      arith,
                      lookup-insert id k runnable s1.states,
                      known1,
                      ap (contains k) states1,
                    );
                pipes = ap (λ (x : State e). x.pipes) c.moved.rest;
              };
              there = c.same;
            };
          }

  finish_closed_lem :
      (id : ℕ) (st : VmState) (s : State e)
      → IsValid s
      → contains id s.states ≡ true
      → contains id s.instantiated ≡ true
      → Ends (λ _ s'. Near s s') (λ s'. IsValid s') (finish_closed e id st s)
  unfolding finish_closed
  finish_closed_lem id (wait_for_read p l b a) s v known here = finish_lem id a 0 s v known here
  finish_closed_lem id (wait_for_write p c l b a) s v known here = finish_lem id a c s v known here
  finish_closed_lem id runnable s v known here =
      Ends-pure _ _ (record { kin = Kin-refl s v; there = λ k. refl })
  finish_closed_lem id terminated s v known here =
      Ends-pure _ _ (record { kin = Kin-refl s v; there = λ k. refl })
  finish_closed_lem id (join _ _) s v known here =
      Ends-pure _ _ (record { kin = Kin-refl s v; there = λ k. refl })

  pub finish_all_closed_lem :
      (closed : List ℕ) (s : State e)
      → IsValid s
      → ((k : ℕ)
          → mem k closed ≡ true
          → (contains k s.states ≡ true) × (contains k s.instantiated ≡ true))
      → Ends (λ _ s'. Near s s') (λ s'. IsValid s') (finish_all_closed e closed s)
  unfolding finish_all_closed
  finish_all_closed_lem [] s v h = Ends-pure _ _ (record { kin = Kin-refl s v; there = λ k. refl })
  finish_all_closed_lem (id ∷ closed) s v h =
      let (known, here) = h id (ground arith) in
      Ends-bind_gets _ _ s (elim (Option-cases (lookup id s.states)) [
        | inl absent ↦ cc
        | inr (st, found) ↦ Ends-bind_unwrap _ _ st s found (
            Ends-bind _ _ s (finish_closed_lem id st s v known here) λ _ s1 n.
              Ends-weaken _
                (finish_all_closed_lem closed s1 n.kin.valid (λ k m. (
                  n.kin.vms k ∙ (h k (ground (arith, m))).0,
                  n.there k ∙ (h k (ground (arith, m))).1,
                )))
                (λ _ s2 r. Near-trans s s1 s2 n r) (λ s2 r. r))
      ])

-- The reader may run, and no VM but the two of the pair has entered another state.
pub record Met {e : Engine} (reader writer : ℕ) (s s' : State e) : Type 0 where
  pub runs : lookup reader s'.states ≡ some runnable
  pub others :
      (k : ℕ)
      → (reader == k) ≡ false
      → (writer == k) ≡ false
      → lookup k s'.states ≡ lookup k s.states

inserts-Met :
    {e : Engine} (reader writer : ℕ) (s s' : State e) (after : VmState)
    → reader ≢ writer
    → s'.states ≡ insert writer after (insert reader runnable s.states)
    → Met reader writer s s'
inserts-Met reader writer s s' after apart h =
    let once = insert reader runnable s.states in
    record {
      runs = ground (
        arith,
        apart,
        ap (lookup reader) h,
        lookup-insert writer reader after once,
        lookup-insert reader reader runnable s.states,
      );
      others = λ k r w. ground (
        arith,
        r,
        w,
        ap (lookup k) h,
        lookup-insert writer k after once,
        lookup-insert reader k runnable s.states,
      );
    }

module _ (e : Engine) (source : Source) (t : IsTotal e) where
  -- A matched pair whose two VMs are still there.
  pub matched_lem :
      (s0 s : State e) (p : Pair)
      → IsValid s0
      → Kin s0 s
      → IsMatched s0.states p
      → Ends
          (λ _ s'. Kin s0 s' × Met p.read_vm_id p.write_vm_id s s')
          (λ s'. IsValid s')
          (transfer e source p.read_vm_id p.read_state p.write_vm_id p.write_state s)
  matched_lem s0 s p v0 kin m =
      let known_r : contains p.read_vm_id s0.states ≡ true = ap is_some m.reader in
      let known_w : contains p.write_vm_id s0.states ≡ true = ap is_some m.writer in
      let now_r = kin.vms p.read_vm_id ∙ known_r in
      let now_w = kin.vms p.write_vm_id ∙ known_w in
      let fits =
        subst
          (λ ps.
            Fits ps p.write_vm_id
              (wait_for_write m.write_pipe m.consumed m.length m.buffer m.length_addr))
          (sym kin.pipes) (v0.waiting p.write_vm_id _ (m.writer ∙ ap some m.writes)) in
      let apart : p.read_vm_id ≢ p.write_vm_id = λ same.
        let both : some (wait_for_read m.read_pipe m.read_length m.read_buffer m.read_length_addr)
            ≡ some (wait_for_write m.write_pipe m.consumed m.length m.buffer m.length_addr) =
          ap some (sym m.reads)
          ∙ sym m.reader
          ∙ ap (λ k. lookup k s0.states) same
          ∙ m.writer
          ∙ ap some m.writes in
        cc in
      rw (m.reads, m.writes)
        (Ends-weaken _
          (transfer_lem e source t _ _ _ _ _ _ _ _ _ _ _ s kin.valid apart now_r now_w fits)
          (λ _ s' f. (
            record {
              valid = f.valid;
              vms = λ k.
                  ap (contains k) f.states
                  ∙ contains-insert p.write_vm_id k _ (insert p.read_vm_id runnable s.states)
                      (contains-insert p.read_vm_id p.write_vm_id runnable s.states now_r ∙ now_w)
                  ∙ contains-insert p.read_vm_id k runnable s.states now_r
                  ∙ kin.vms k;
              pipes = f.pipes ∙ kin.pipes;
            },
            inserts-Met p.read_vm_id p.write_vm_id s s' _ apart f.states,
          ))
          (λ s' w. w))

  transfer_all_lem :
      (pairs : List Pair) (s0 s : State e)
      → IsValid s0
      → Kin s0 s
      → AllMatched s0.states pairs
      → Ends (λ _ s'. Kin s0 s') (λ s'. IsValid s') (transfer_all e source pairs s)
  unfolding transfer_all
  transfer_all_lem [] s0 s v0 kin m = Ends-pure _ _ kin
  transfer_all_lem (p ∷ pairs) s0 s v0 kin m =
      Ends-bind _ _ s (matched_lem s0 s p v0 kin m.0)
        λ _ s1 kin1. transfer_all_lem pairs s0 s1 v0 kin1.0 m.1

  -- In a valid state in which each VM that waits on a pipe with a closed other end is instantiated,
  -- `process_io` does not panic, and the state is valid afterwards, also after an error; if it
  -- succeeds, no VM comes or goes, and the pipes are as before.
  pub process_io_lem :
      (s : State e)
      → IsValid s
      → IsAttended s
      → Ends (λ _ s'. Kin s s') (λ s'. IsValid s') (process_io e source s)
  unfolding process_io
  process_io_lem s v attended =
      let c = collected_lem s.states s.pipes v.ordered in
      Ends-bind_gets _ _ s (
        Ends-bind_gets _ _ s (
          Ends-bind _ _ s
            (finish_all_closed_lem e t _ s v (λ k m.
              let (st, found, waits) = c.1 k m in (ap is_some found, attended k st found waits)))
            λ _ s1 n. transfer_all_lem _ s s1 v n.kin c.0))
