-- ===== src/Scheduler/Io/Found.antt =====
-- Where a VM waits to read and another one to write to the other end, the two are collected.
use ckb_vm_deterministic_sch.Prelude.{
  ℕ, suc, ◌≡◌, ◌⊎◌, refl, sym, ap, subst, ◌∙◌, true, false, Option, none, some, List, [], ◌∷◌,
  arith, ◌==◌, Among, Among-append_left, Among-append_right, inl, inr, Bool-cases,
}
use ckb_vm_deterministic_sch.Table.{Table, lookup, contains}
use ckb_vm_deterministic_sch.Table.Laws.{lookup-insert, IsAbove}
use ckb_vm_deterministic_sch.Types.{
  VmState, runnable, terminated, join, wait_for_read, wait_for_write,
}
use ckb_vm_deterministic_sch.Types.Pipe.{other_pipe}
use ckb_vm_deterministic_sch.Scheduler.Io.{
  Pair, add_pair, note_read, note_write, collect_reads, collect_writes,
}
use ckb_vm_deterministic_sch.Scheduler.Io.Collected.{Within, Within-tail}

Among-add_pair :
    (p : Pair) (k : ℕ) (st : VmState) (o : Option (ℕ × VmState)) (l : List Pair)
    → Among p l
    → Among p (add_pair k st o l)
Among-add_pair p k st none l h = h
Among-add_pair p k st (some (r, rs)) l h = Among-append_left p l _ h

module _ (states : Table VmState) (pipes : Table ℕ) (reader p l b a : ℕ) where
  abbrev reading : VmState
  reading = wait_for_read p l b a

  -- No other VM reads from the pipe.
  abbrev pub IsSole : Type 0
  IsSole = (k l' b' a' : ℕ) → lookup k states ≡ some (wait_for_read p l' b' a') → k ≡ reader

  abbrev IsNoted : Table (ℕ × VmState) → Type 0
  IsNoted reads = lookup p reads ≡ some (reader, reading)

  note_read-other :
      (k : ℕ) (st : VmState) (acc : Table (ℕ × VmState) × List ℕ)
      → IsSole
      → (k == reader) ≡ false
      → lookup k states ≡ some st
      → IsNoted acc.0
      → IsNoted (note_read pipes k st acc).0
  unfolding note_read
  note_read-other k (wait_for_read p' l' b' a') (reads, closed) sole other here noted =
      elim (Bool-cases (contains (other_pipe p') pipes)) [
        | inr shut ↦ rw shut noted
        | inl linked ↦ rw linked (elim (Bool-cases (p' == p)) [
          | inl same ↦
              let eq : p' ≡ p = ground (arith, same) in
              let me = sole k l' b' a' (here ∙ ap (λ q. some (wait_for_read q l' b' a')) eq) in
              absurd (ground (arith, other, me))
          | inr apart ↦
              ground (arith, noted, lookup-insert p' p (k, wait_for_read p' l' b' a') reads)
        ])
      ]
  note_read-other k runnable acc sole other here noted = noted
  note_read-other k terminated acc sole other here noted = noted
  note_read-other k (join _ _) acc sole other here noted = noted
  note_read-other k (wait_for_write _ _ _ _ _) acc sole other here noted = noted

  note_read-here :
      (acc : Table (ℕ × VmState) × List ℕ)
      → contains (other_pipe p) pipes ≡ true
      → IsNoted (note_read pipes reader reading acc).0
  unfolding note_read
  note_read-here (reads, closed) linked =
      rw linked (ground (arith, lookup-insert p p (reader, reading) reads))

  pub collect_reads-IsNoted :
      (n : ℕ) (m : Table VmState) (acc : Table (ℕ × VmState) × List ℕ)
      → IsSole
      → contains (other_pipe p) pipes ≡ true
      → IsAbove n m
      → Within states pipes m
      → lookup reader states ≡ some reading
      → IsNoted acc.0 ⊎ (lookup reader m ≡ some reading)
      → IsNoted (collect_reads pipes m acc).0
  unfolding collect_reads lookup
  collect_reads-IsNoted n [] acc sole linked above w known (inl noted) = noted
  collect_reads-IsNoted n [] acc sole linked above w known (inr there) = absurd (cc)
  collect_reads-IsNoted n ((k, st) ∷ m) acc sole linked above w known h =
      let (here, later) = Within-tail states pipes n k st m above w in
      elim (Bool-cases (k == reader)) [
        | inl same ↦
            let eq : k ≡ reader = ground (arith, same) in
            let found : some st ≡ some reading = sym here ∙ ap (λ i. lookup i states) eq ∙ known in
            let what : st ≡ reading = cc in
            collect_reads-IsNoted (suc k) m _ sole linked above.1 later known (
              inl (
                subst (λ x. IsNoted (note_read pipes k x acc).0) (sym what)
                  (subst (λ i. IsNoted (note_read pipes i reading acc).0) (sym eq)
                    (note_read-here acc linked))))
        | inr other ↦ collect_reads-IsNoted (suc k) m _ sole linked above.1 later known (elim h [
          | inl noted ↦ inl (note_read-other k st acc sole other here noted)
          | inr there ↦ inr (ground (arith, there, other))
        ])
      ]

  module _ (writer q c n u v : ℕ) where
    abbrev writing : VmState
    writing = wait_for_write q c n u v

    abbrev pub meeting : Pair
    meeting = record {
      read_vm_id = reader;
      read_state = reading;
      write_vm_id = writer;
      write_state = writing;
    }

    note_write-kept :
        (reads : Table (ℕ × VmState)) (k : ℕ) (st : VmState) (acc : List Pair × List ℕ)
        → Among meeting acc.0
        → Among meeting (note_write pipes reads k st acc).0
    unfolding note_write
    note_write-kept reads k (wait_for_write q' c' n' u' v') (pairs, closed) h =
        elim (Bool-cases (contains (other_pipe q') pipes)) [
          | inl linked ↦
              rw linked (Among-add_pair meeting k _ (lookup (other_pipe q') reads) pairs h)
          | inr shut ↦ rw shut h
        ]
    note_write-kept reads k runnable acc h = h
    note_write-kept reads k terminated acc h = h
    note_write-kept reads k (join _ _) acc h = h
    note_write-kept reads k (wait_for_read _ _ _ _) acc h = h

    note_write-here :
        (reads : Table (ℕ × VmState)) (acc : List Pair × List ℕ)
        → other_pipe q ≡ p
        → contains p pipes ≡ true
        → IsNoted reads
        → Among meeting (note_write pipes reads writer writing acc).0
    unfolding note_write
    note_write-here reads (pairs, closed) ends linked noted =
        rw (ends, linked, noted) (Among-append_right meeting pairs (meeting ∷ []) (inl refl))

    pub collect_writes-Among :
        (reads : Table (ℕ × VmState)) (i : ℕ) (m : Table VmState) (acc : List Pair × List ℕ)
        → other_pipe q ≡ p
        → contains p pipes ≡ true
        → IsNoted reads
        → IsAbove i m
        → Within states pipes m
        → lookup writer states ≡ some writing
        → Among meeting acc.0 ⊎ (lookup writer m ≡ some writing)
        → Among meeting (collect_writes pipes reads m acc).0
    unfolding collect_writes lookup
    collect_writes-Among reads i [] acc ends linked noted above w known (inl there) = there
    collect_writes-Among reads i [] acc ends linked noted above w known (inr there) = absurd cc
    collect_writes-Among reads i ((k, st) ∷ m) acc ends linked noted above w known h =
        let (here, later) = Within-tail states pipes i k st m above w in
        elim (Bool-cases (k == writer)) [
          | inl same ↦
              let eq : k ≡ writer = ground (arith, same) in
              let found : some st ≡ some writing =
                sym here ∙ ap (λ j. lookup j states) eq ∙ known in
              let what : st ≡ writing = cc in
              collect_writes-Among reads (suc k) m _ ends linked noted above.1 later known (
                inl (
                  subst (λ x. Among meeting (note_write pipes reads k x acc).0) (sym what)
                    (subst (λ j. Among meeting (note_write pipes reads j writing acc).0) (sym eq)
                      (note_write-here reads acc ends linked noted))))
          | inr other ↦
              collect_writes-Among reads (suc k) m _ ends linked noted above.1 later known (elim h [
                | inl there ↦ inl (note_write-kept reads k st acc there)
                | inr there ↦ inr (ground (arith, there, other))
              ])
        ]
