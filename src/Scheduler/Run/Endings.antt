-- ===== src/Scheduler/Run/Endings.antt =====
-- What the end of a VM other than the root VM does to the others.
use mathlib.Core.Option.{map}
use ckb_vm_deterministic_sch.Prelude.{
  ℕ, ◌≡◌, ◌≢◌, refl, sym, ap, ◌∙◌, true, false, none, some, List, [], ◌∷◌, arith, ◌==◌, mem,
  if◌then◌else◌,
}
use ckb_vm_deterministic_sch.Outcome.Ensures.{
  Ends, Ends-bind, Ends-bind_gets, Ends-bind_modify, Ends-modify, Ends-pure, Ends-weaken,
}
use ckb_vm_deterministic_sch.Table.{lookup, contains, insert}
use ckb_vm_deterministic_sch.Table.Laws.{lookup-insert, lookup-remove}
use ckb_vm_deterministic_sch.Types.{runnable}
use ckb_vm_deterministic_sch.Engine.{Engine, Source}
use ckb_vm_deterministic_sch.Engine.Laws.{IsTotal}
use ckb_vm_deterministic_sch.Scheduler.State.{State, set_state, root_vm_id}
use ckb_vm_deterministic_sch.Scheduler.Run.{joining, release_joining, purge_vm, terminate}
use ckb_vm_deterministic_sch.Scheduler.Valid.{IsValid, insert-IsValid}
use ckb_vm_deterministic_sch.Scheduler.Valid.Visits.{visit_vm-IsValid, store8_success-IsCalm}
use ckb_vm_deterministic_sch.Scheduler.Run.Purges.{
  released, ids_of, mem-joining, joins-contains, released-joins, without, Released, noted_IsValid,
  purged_IsValid,
}

-- The VM is gone and so are its pipes, its exit code is kept, and whoever joined it may run.
pub record Ended {e : Engine} (id code : ℕ) (s s' : State e) : Type 0 where
  pub valid : IsValid s'
  pub states :
      (k : ℕ)
      → lookup k s'.states ≡ (if id == k then none else map (released id) (lookup k s.states))
  pub pipes : s'.pipes ≡ without id s.pipes
  pub ended : s'.terminated_vms ≡ insert id code s.terminated_vms

module _ (e : Engine) (source : Source) (t : IsTotal e) where
  release_joining_lem :
      (code : ℕ) (l : List (ℕ × ℕ)) (s : State e)
      → IsValid s
      → ((k : ℕ) → mem k (ids_of l) ≡ true → contains k s.states ≡ true)
      → Ends (λ _ s'. Released l s s') (λ s'. IsValid s') (release_joining e source code l s)
  unfolding release_joining set_state
  release_joining_lem code [] s v known =
      Ends-pure _ _ (record { valid = v; states = λ k. refl; pipes = refl; ended = refl })
  release_joining_lem code ((id, addr) ∷ l) s v known =
      let here = known id (ground arith) in
      Ends-bind _ _ s
        (visit_vm-IsValid e source t id _ s v here
          (store8_success-IsCalm e t addr (e.from_i8 code)))
        λ _ s1 w.
          let states1 = ap (λ (x : State e). x.states) w.1.rest in
          let here1 = ap (contains id) states1 ∙ here in
          let s2 : State e = record s1 { states = insert id runnable s1.states } in
          Ends-bind_modify _ _ s1 (
            Ends-weaken _
              (release_joining_lem code l s2 (insert-IsValid id runnable s1 w.0 here1 tt) (λ k m.
                ground (
                  arith,
                  known k (ground (arith, m)),
                  ap (contains k) states1,
                  lookup-insert id k runnable s1.states,
                )))
              (λ _ s3 r. record {
                valid = r.valid;
                states = λ k. ground (
                  arith,
                  r.states k,
                  lookup-insert id k runnable s1.states,
                  ap (lookup k) states1,
                );
                pipes = r.pipes ∙ ap (λ (x : State e). x.pipes) w.1.rest;
                ended = r.ended ∙ ap (λ (x : State e). x.terminated_vms) w.1.rest;
              })
              (λ s3 r. r))

  -- A VM other than the root VM ends in a valid state: it is gone, and with it its pipes and no other;
  -- its exit code is noted; each VM that joined it is runnable and every other VM is as before. The
  -- state is valid afterwards, also after an error.
  pub terminate_lem :
      (id code : ℕ) (s : State e)
      → IsValid s
      → id ≢ root_vm_id
      → Ends (λ _ s'. Ended id code s s') (λ s'. IsValid s') (terminate e source id code s)
  unfolding terminate purge_vm
  terminate_lem id code s v other =
      let s1 : State e = record s { terminated_vms = insert id code s.terminated_vms } in
      let v1 = noted_IsValid id code s v in
      let same = λ (k : ℕ). mem-joining 0 id k s.states v.ordered in
      let not_root : (id == root_vm_id) ≡ false = ground (arith, other) in
      Ends-bind_modify _ _ s (
        rw not_root (
          Ends-bind_gets _ _ s1 (
            Ends-bind _ _ s1
              (release_joining_lem code (joining id s.states) s1 v1
                (λ k m. joins-contains id (lookup k s.states) (sym (same k) ∙ m)))
              λ _ s2 r. Ends-modify _ s2 (record {
                valid = purged_IsValid id s2 r.valid;
                states = λ k.
                    lookup-remove id k s2.states
                    ∙ ap (λ o. if id == k then none else o)
                        (r.states k
                          ∙ ap (λ b. if b then some runnable else lookup k s.states) (same k)
                          ∙ released-joins id (lookup k s.states));
                pipes = ap (without id) r.pipes;
                ended = r.ended;
              }))))
