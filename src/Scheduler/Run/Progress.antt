-- ===== src/Scheduler/Run/Progress.antt =====
-- No VM waits in vain: a read and a write that can meet leave a VM that may run.
use ckb_vm_deterministic_sch.Prelude.{
  ℕ, ◌≡◌, ◌⊎◌, sym, ap, ◌∙◌, false, some, none, List, [], ◌∷◌, ◌==◌, arith, inl, inr, Bool-cases,
  is_some, Among,
}
use ckb_vm_deterministic_sch.Outcome.Ensures.{
  Ends, Ends-bind, Ends-bind_gets, Ends-pure, Ends-weaken,
}
use ckb_vm_deterministic_sch.Table.{lookup}
use ckb_vm_deterministic_sch.Types.{runnable, wait_for_read, wait_for_write}
use ckb_vm_deterministic_sch.Engine.{Engine, Source}
use ckb_vm_deterministic_sch.Engine.Laws.{IsTotal}
use ckb_vm_deterministic_sch.Scheduler.State.{State}
use ckb_vm_deterministic_sch.Scheduler.Io.{Pair, transfer_all, process_io}
use ckb_vm_deterministic_sch.Scheduler.Io.Collected.{IsMatched, AllMatched, collected_lem}
use ckb_vm_deterministic_sch.Scheduler.Io.Complete.{pairs_of, pairs_of_iff}
use ckb_vm_deterministic_sch.Scheduler.Io.Valid.{
  IsAttended, Kin, matched_lem, finish_all_closed_lem,
}
use ckb_vm_deterministic_sch.Scheduler.Run.{pick}
use ckb_vm_deterministic_sch.Scheduler.Run.Choice.{pick-none_iff}
use ckb_vm_deterministic_sch.Scheduler.Valid.{IsValid}

-- One of the pairs has the VM as its reader.
abbrev Reads : ℕ → List Pair → Type 0
Reads k [] = ⊥
Reads k (p ∷ pairs) = (p.read_vm_id ≡ k) ⊎ Reads k pairs

Among-Reads : (p : Pair) (l : List Pair) → Among p l → Reads p.read_vm_id l
Among-Reads p [] h = absurd h
Among-Reads p (x ∷ l) (inl same) = inl (ap (λ (q : Pair). q.read_vm_id) (sym same))
Among-Reads p (x ∷ l) (inr later) = inr (Among-Reads p l later)

module _ (e : Engine) (source : Source) (t : IsTotal e) where
  -- The reader of a pair does not write.
  not_writer :
      (s0 : State e) (k pipe l b a : ℕ) (p : Pair)
      → lookup k s0.states ≡ some (wait_for_read pipe l b a)
      → IsMatched s0.states p
      → (p.write_vm_id == k) ≡ false
  not_writer s0 k pipe l b a p reads m = elim (Bool-cases (p.write_vm_id == k)) [
    | inr other ↦ other
    | inl same ↦
        let both : some (wait_for_read pipe l b a)
            ≡ some (wait_for_write m.write_pipe m.consumed m.length m.buffer m.length_addr) =
          sym reads
          ∙ ap (λ j. lookup j s0.states) (sym (ground (arith, same)))
          ∙ m.writer
          ∙ ap some m.writes in
        cc
  ]

  transfer_all-runnable :
      (pairs : List Pair) (s0 s : State e) (k pipe l b a : ℕ)
      → IsValid s0
      → Kin s0 s
      → AllMatched s0.states pairs
      → lookup k s0.states ≡ some (wait_for_read pipe l b a)
      → Reads k pairs ⊎ (lookup k s.states ≡ some runnable)
      → Ends
          (λ _ s'. Kin s0 s' × (lookup k s'.states ≡ some runnable))
          (λ s'. IsValid s')
          (transfer_all e source pairs s)
  unfolding transfer_all
  transfer_all-runnable [] s0 s k pipe l b a v0 kin m reads (inl nobody) = absurd nobody
  transfer_all-runnable [] s0 s k pipe l b a v0 kin m reads (inr runs) = Ends-pure _ _ (kin, runs)
  transfer_all-runnable (p ∷ pairs) s0 s k pipe l b a v0 kin m reads h =
      Ends-bind _ _ s (matched_lem e source t s0 s p v0 kin m.0) λ _ s1 r.
        transfer_all-runnable pairs s0 s1 k pipe l b a v0 r.0 m.1 reads
          (elim (Bool-cases (p.read_vm_id == k)) [
            | inl same ↦ inr (ap (λ j. lookup j s1.states) (sym (ground (arith, same))) ∙ r.1.runs)
            | inr other ↦ elim h [
              | inl (inl me) ↦ absurd (ground (arith, other, me))
              | inl (inr later) ↦ inl later
              | inr runs ↦ inr (r.1.others k other (not_writer s0 k pipe l b a p reads m.0) ∙ runs)
            ]
          ])

  -- In a valid state in which each VM that waits on a pipe with a closed other end is instantiated: if a
  -- VM waits to read from one end of a pipe and another one waits to write to the other end, the reader
  -- may run once `process_io` has succeeded, so that `iterate` finds a VM to run; no panic comes out.
  pub process_io-runnable :
      (s : State e) (p : Pair)
      → IsValid s
      → IsAttended s
      → IsMatched s.states p
      → Ends
          (λ _ s'. (lookup p.read_vm_id s'.states ≡ some runnable) × ¬ (pick s'.states ≡ none))
          (λ s'. IsValid s')
          (process_io e source s)
  unfolding process_io
  process_io-runnable s p v attended m =
      let c = collected_lem s.states s.pipes v.ordered in
      Ends-bind_gets _ _ s (
        Ends-bind_gets _ _ s (
          Ends-bind _ _ s
            (finish_all_closed_lem e t _ s v (λ k w.
              let (st, found, waits) = c.1 k w in (ap is_some found, attended k st found waits)))
            λ _ s1 n.
              Ends-weaken _
                (transfer_all-runnable _ s s1 p.read_vm_id m.read_pipe m.read_length m.read_buffer
                  m.read_length_addr v n.kin c.0 (m.reader ∙ ap some m.reads)
                  (inl (Among-Reads p (pairs_of s) ((pairs_of_iff s v p).1 m))))
                (λ _ s2 r. (
                  r.1,
                  λ nobody. (pick-none_iff s2.states r.0.valid.ordered).0 nobody p.read_vm_id r.1,
                ))
                (λ s2 h. h)))
