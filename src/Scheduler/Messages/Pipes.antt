-- ===== src/Scheduler/Messages/Pipes.antt =====
-- Spawns and new pipes keep the scheduler valid, and say who owns which pipe afterwards.
use ckb_vm_deterministic_sch.Prelude.{
  ℕ, ◌+◌, ◌<◌, ◌≡◌, sym, ap, subst, ◌∙◌, true, some, List, arith, ◌==◌, ◌||◌, u64_mod, mem,
  if◌then◌else◌, is_some,
}
use ckb_vm_deterministic_sch.Outcome.Ensures.{Ends, Ends-bind, Ends-weaken}
use ckb_vm_deterministic_sch.Table.{lookup, contains, insert}
use ckb_vm_deterministic_sch.Table.Laws.{lookup-insert}
use ckb_vm_deterministic_sch.Types.{runnable, SpawnArgs, PipeArgs}
use ckb_vm_deterministic_sch.Engine.{Engine, Source}
use ckb_vm_deterministic_sch.Engine.Laws.{IsTotal, IsServing}
use ckb_vm_deterministic_sch.Scheduler.State.{State}
use ckb_vm_deterministic_sch.Scheduler.Instances.Boot.{boot_vm_lem}
use ckb_vm_deterministic_sch.Scheduler.Messages.{process_spawn, process_pipe}
use ckb_vm_deterministic_sch.Scheduler.Valid.{IsValid}
use ckb_vm_deterministic_sch.Scheduler.Valid.Visits.{
  visit_vm-IsValid, store64_success-IsCalm, on_machine-IsCalm, bind-IsCalm,
}
use ckb_vm_deterministic_sch.Scheduler.Messages.Owners.{
  move_pipes_lem, add_pipes_lem, check_owned_lem,
}

-- A spawned VM: fresh, runnable, owner of the pipes that were passed, and of no other.
pub record Spawned {e : Engine} (l : List ℕ) (s s' : State e) : Type 0 where
  pub valid : IsValid s'
  pub states : s'.states ≡ insert s.next_vm_id runnable s.states
  pub owners :
      (p : ℕ) → lookup p s'.pipes ≡ (if mem p l then some s.next_vm_id else lookup p s.pipes)

-- New pipes for a VM.
pub record Extended {e : Engine} (id : ℕ) (s s' : State e) : Type 0 where
  pub valid : IsValid s'
  pub states : s'.states ≡ s.states
  pub owners :
      (p : ℕ)
      → lookup p s'.pipes
        ≡ (if p == s.next_pipe_slot || p == s.next_pipe_slot + 1 then some id else lookup p s.pipes)

module _ (e : Engine) (source : Source) (t : IsTotal e) where
  -- A spawn by a runnable VM, in a valid state with an id left: if it succeeds, the sender owned each
  -- pipe that it passed, the state is valid, the new VM has the next id and is runnable, it owns
  -- the passed pipes, and the other pipes keep their owners. An error leaves the state valid too.
  pub process_spawn_lem :
      IsServing source
      → (id : ℕ) (args : SpawnArgs) (s : State e) → IsValid s
      → lookup id s.states ≡ some runnable
      → s.next_vm_id + 1 < u64_mod
      → Ends
          (λ _ s'.
            Spawned args.pipes s s'
            × ((p : ℕ) → mem p args.pipes ≡ true → lookup p s.pipes ≡ some id))
          (λ s'. IsValid s')
          (process_spawn e source id args s)
  unfolding process_spawn
  process_spawn_lem serving id args s v ready room =
      Ends-bind _ _ s
        (Ends-weaken _ (check_owned_lem id args.pipes s v) (λ _ s' h. h)
          (λ s' h. subst IsValid (sym h) v))
        λ _ s0 same.
          let v0 = subst IsValid (sym same.0) v in
          let slot_same = ap (λ (x : State e). x.next_vm_id) same.0 in
          let states_same = ap (λ (x : State e). x.states) same.0 in
          let pipes_same = ap (λ (x : State e). x.pipes) same.0 in
          Ends-bind _ _ s0
            (boot_vm_lem e source t serving args.data_piece_id args.offset args.length args.argv s0
              v0 (omega (arith, slot_same)))
            λ new s1 b.
              let new_is = b.fresh_id ∙ slot_same in
              let states1 : s1.states ≡ insert s.next_vm_id runnable s.states =
                b.states
                ∙ ap (λ n. insert n runnable s0.states) new_is
                ∙ ap (insert s.next_vm_id runnable) states_same in
              let pipes1 = b.pipes ∙ pipes_same in
              let ready1 : lookup id s1.states ≡ some runnable =
                ap (lookup id) states1
                ∙ ground (arith, ready, lookup-insert s.next_vm_id id runnable s.states) in
              let new1 : lookup new s1.states ≡ some runnable =
                ap (lookup new) states1
                ∙ ground (arith, new_is, lookup-insert s.next_vm_id new runnable s.states) in
              Ends-bind _ _ s1
                (move_pipes_lem new args.pipes s1 b.valid new1
                  (λ p m. (id, ap (lookup p) pipes1 ∙ same.1 p m, ready1)))
                λ _ s2 h.
                  Ends-weaken _
                    (visit_vm-IsValid e source t id _ s2 h.valid
                      (ap (contains id) h.states ∙ ap is_some ready1)
                      (store64_success-IsCalm e t args.instance_id_addr new))
                    (λ _ s3 w.
                      let moved = w.1 in
                      (
                        record {
                          valid = w.0;
                          states = ap (λ (x : State e). x.states) moved.rest ∙ h.states ∙ states1;
                          owners = λ p.
                              ap (λ (x : State e). lookup p x.pipes) moved.rest
                              ∙ h.owners p
                              ∙ ap (λ o. if mem p args.pipes then some new else o)
                                  (ap (lookup p) pipes1)
                              ∙ ap (λ n. if mem p args.pipes then some n else lookup p s.pipes)
                                  new_is;
                        },
                        same.1,
                      ))
                    (λ s3 w. w)

  -- A pipe for a VM of a valid state with two pipe ids left: the VM owns the two next ids, the other
  -- pipes keep their owners, and the state is valid, also after an error.
  pub process_pipe_lem :
      (id : ℕ) (args : PipeArgs) (s : State e)
      → IsValid s
      → contains id s.states ≡ true
      → s.next_pipe_slot + 2 < u64_mod
      → Ends (λ _ s'. Extended id s s') (λ s'. IsValid s') (process_pipe e source id args s)
  unfolding process_pipe
  process_pipe_lem id args s v there room =
      Ends-bind _ _ s (add_pipes_lem id s v there room) λ pair s1 h.
        Ends-weaken _
          (visit_vm-IsValid e source t id _ s1 h.valid (ap (contains id) h.states ∙ there) (
            bind-IsCalm e _ _ (on_machine-IsCalm e _ (t.store64 args.pipe1_addr pair.0))
              (λ _. store64_success-IsCalm e t args.pipe2_addr pair.1)))
          (λ _ s2 w.
            let moved = w.1 in
            record {
              valid = w.0;
              states = ap (λ (x : State e). x.states) moved.rest ∙ h.states;
              owners = λ p. ap (λ (x : State e). lookup p x.pipes) moved.rest ∙ h.owners p;
            })
          (λ s2 w. w)
