-- ===== src/Scheduler/Io/Closed.antt =====
-- Pending reads and writes whose other end has been closed.
use ckb_vm_deterministic_sch.Prelude.{
  ℕ, ◌≡◌, refl, ap, ◌∙◌, false, Option, none, some, List, [], ◌∷◌, ◌++◌, arith,
}
use ckb_vm_deterministic_sch.Outcome.{Exec, Outcome, bind-gets, bind-unwrap, bind_panic, panic}
use ckb_vm_deterministic_sch.Table.{Table, lookup, contains}
use ckb_vm_deterministic_sch.Types.{VmState, wait_for_read, wait_for_write}
use ckb_vm_deterministic_sch.Types.Pipe.{other_pipe}
use ckb_vm_deterministic_sch.Engine.{Engine, Source}
use ckb_vm_deterministic_sch.Scheduler.State.{Vm, State, with_vm}
use ckb_vm_deterministic_sch.Scheduler.Io.{
  Pair, note_read, note_write, collect_reads, collect_writes, finish_closed, finish_all_closed,
  process_io,
}

abbrev head_of : List ℕ → Option ℕ
head_of [] = none
head_of (x ∷ xs) = some x

head_of-append : (xs ys : List ℕ) (id : ℕ) → head_of xs ≡ some id → head_of (xs ++ ys) ≡ some id
head_of-append [] ys id h = cc
head_of-append (x ∷ xs) ys id h = h

note_read-head :
    (pipes : Table ℕ) (id k : ℕ) (st : VmState) (acc : Table (ℕ × VmState) × List ℕ)
    → head_of acc.1 ≡ some id
    → head_of (note_read pipes k st acc).1 ≡ some id
unfolding note_read
note_read-head pipes id k (wait_for_read p l b a) (reads, closed) h =
    ground (arith, head_of-append closed (k ∷ []) id h)
note_read-head pipes id k _ (reads, closed) h = h

collect_reads-head :
    (pipes : Table ℕ) (id : ℕ) (m : Table VmState) (acc : Table (ℕ × VmState) × List ℕ)
    → head_of acc.1 ≡ some id
    → head_of (collect_reads pipes m acc).1 ≡ some id
unfolding collect_reads
collect_reads-head pipes id [] acc h = h
collect_reads-head pipes id ((k, st) ∷ m) acc h =
    collect_reads-head pipes id m (note_read pipes k st acc) (note_read-head pipes id k st acc h)

note_write-head :
    (pipes : Table ℕ) (reads : Table (ℕ × VmState)) (id k : ℕ) (st : VmState)
    (acc : List Pair × List ℕ)
    → head_of acc.1 ≡ some id
    → head_of (note_write pipes reads k st acc).1 ≡ some id
unfolding note_write
note_write-head pipes reads id k (wait_for_write p c l b a) (pairs, closed) h =
    ground (arith, head_of-append closed (k ∷ []) id h)
note_write-head pipes reads id k _ (pairs, closed) h = h

collect_writes-head :
    (pipes : Table ℕ) (reads : Table (ℕ × VmState)) (id : ℕ) (m : Table VmState)
    (acc : List Pair × List ℕ)
    → head_of acc.1 ≡ some id
    → head_of (collect_writes pipes reads m acc).1 ≡ some id
unfolding collect_writes
collect_writes-head pipes reads id [] acc h = h
collect_writes-head pipes reads id ((k, st) ∷ m) acc h =
    collect_writes-head pipes reads id m (note_write pipes reads k st acc)
      (note_write-head pipes reads id k st acc h)

first_closed :
    (pipes : Table ℕ) (id p l b a : ℕ) (rest : Table VmState)
    → contains (other_pipe p) pipes ≡ false
    → head_of (collect_reads pipes ((id, wait_for_read p l b a) ∷ rest) ([], [])).1 ≡ some id
unfolding collect_reads note_read
first_closed pipes id p l b a rest closed = collect_reads-head pipes id rest _ (rw closed refl)

infixr 3 ◌▸◌
◌▸◌ : {A S : Type 0} {r r' : Outcome A × S} → r ≡ r' → r'.0 ≡ panic → r.0 ≡ panic
q ▸ h = ap (λ x. x.0) q ∙ h

module _ (e : Engine) (source : Source) where
  with_vm-absent :
      {A : Type 0} (id : ℕ) (m : Exec (Vm e) A) (s : State e)
      → lookup id s.instantiated ≡ none
      → (with_vm e id m s).0 ≡ panic
  unfolding with_vm
  with_vm-absent id m s h = rw (h, with_vm) refl

  finish_closed-absent :
      (id p l b a : ℕ) (s : State e)
      → lookup id s.instantiated ≡ none
      → (finish_closed e id (wait_for_read p l b a) s).0 ≡ panic
  unfolding finish_closed
  finish_closed-absent id p l b a s h = bind_panic _ _ s (with_vm-absent id _ s h)

  finish_all_closed-absent :
      (closed : List ℕ) (id p l b a : ℕ) (s : State e)
      → head_of closed ≡ some id
      → lookup id s.states ≡ some (wait_for_read p l b a)
      → lookup id s.instantiated ≡ none
      → (finish_all_closed e closed s).0 ≡ panic
  unfolding finish_all_closed
  finish_all_closed-absent [] id p l b a s h f g = cc
  finish_all_closed-absent (k ∷ closed) id p l b a s h f g =
      let same : k ≡ id = ground arith in
      bind-gets _ _ s
      ▸ (bind-unwrap _ _ (wait_for_read p l b a) s (rw same f)
          ▸ bind_panic _ _ s (rw same (finish_closed-absent id p l b a s g)))

  -- Where the first VM waits to read from a pipe whose other end is closed, and is suspended,
  -- `process_io` panics: it takes the VM to be instantiated and does not see to it.
  pub process_io_closed_panics :
      (id p l b a : ℕ) (rest : Table VmState) (s : State e)
      → s.states ≡ (id, wait_for_read p l b a) ∷ rest
      → contains (other_pipe p) s.pipes ≡ false
      → lookup id s.instantiated ≡ none
      → (process_io e source s).0 ≡ panic
  unfolding process_io
  process_io_closed_panics id p l b a rest s h closed absent =
      let here : lookup id ((id, wait_for_read p l b a) ∷ rest) ≡ some (wait_for_read p l b a) =
        unfold lookup in ground arith in
      bind-gets _ _ s
      ▸ bind-gets _ _ s
      ▸ (bind_panic _ _ s (
          finish_all_closed-absent _ id p l b a s
            (collect_writes-head s.pipes _ id s.states _
              (rw h (first_closed s.pipes id p l b a rest closed)))
            (rw h here) absent))
