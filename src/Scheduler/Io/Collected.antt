-- ===== src/Scheduler/Io/Collected.antt =====
-- The pairs and the closed ends that `process_io` collects.
use ckb_vm_deterministic_sch.Prelude.{
  ℕ, suc, ◌<◌, ◌≡◌, refl, sym, ap, ◌∙◌, true, false, some, List, [], ◌∷◌, ◌++◌, arith, ◌==◌, inl,
  inr, Bool-cases, Option-cases, mem,
}
use ckb_vm_deterministic_sch.Prelude.Distinct.{mem-append}
use ckb_vm_deterministic_sch.Table.{Table, lookup, contains, insert}
use ckb_vm_deterministic_sch.Table.Laws.{lookup-insert, IsSorted, IsAbove, lookup-above}
use ckb_vm_deterministic_sch.Types.{
  VmState, runnable, terminated, join, wait_for_read, wait_for_write,
}
use ckb_vm_deterministic_sch.Types.Pipe.{other_pipe}
use ckb_vm_deterministic_sch.Scheduler.Io.{
  Pair, note_read, note_write, collect_reads, collect_writes,
}

-- A VM that waits on a pipe whose other end is closed.
abbrev pub WaitsClosed : Table ℕ → VmState → Type 0
WaitsClosed pipes (wait_for_read p l b a) = contains (other_pipe p) pipes ≡ false
WaitsClosed pipes (wait_for_write p c l b a) = contains (other_pipe p) pipes ≡ false
WaitsClosed pipes _ = ⊥

-- A read and a write on the two ends of one pipe, as the VMs wait for them.
pub record IsMatched (states : Table VmState) (p : Pair) : Type 0 where
  pub read_pipe : ℕ
  pub read_length : ℕ
  pub read_buffer : ℕ
  pub read_length_addr : ℕ
  pub write_pipe : ℕ
  pub consumed : ℕ
  pub length : ℕ
  pub buffer : ℕ
  pub length_addr : ℕ
  pub connected : read_pipe ≡ other_pipe write_pipe
  pub reads : p.read_state ≡ wait_for_read read_pipe read_length read_buffer read_length_addr
  pub writes : p.write_state ≡ wait_for_write write_pipe consumed length buffer length_addr
  pub reader : lookup p.read_vm_id states ≡ some p.read_state
  pub writer : lookup p.write_vm_id states ≡ some p.write_state

abbrev pub AllMatched : Table VmState → List Pair → Type 0
AllMatched states [] = Unit
AllMatched states (p ∷ pairs) = IsMatched states p × AllMatched states pairs

AllMatched-append :
    (states : Table VmState) (l m : List Pair)
    → AllMatched states l
    → AllMatched states m
    → AllMatched states (l ++ m)
AllMatched-append states [] m h k = k
AllMatched-append states (p ∷ l) m h k = (h.0, AllMatched-append states l m h.1 k)

module _ (states : Table VmState) (pipes : Table ℕ) where
  abbrev AllClosed : List ℕ → Type 0
  AllClosed closed =
      (k : ℕ)
      → mem k closed ≡ true
      → (st : VmState) × (lookup k states ≡ some st) × WaitsClosed pipes st

  -- each entry of `reads` is a VM that waits for it
  abbrev AllReads : Table (ℕ × VmState) → Type 0
  AllReads reads =
      (p k : ℕ) (st : VmState)
      → lookup p reads ≡ some (k, st)
      → (lookup k states ≡ some st) × (l : ℕ) × (b : ℕ) × (a : ℕ) × (st ≡ wait_for_read p l b a)

  abbrev pub Within : Table VmState → Type 0
  Within m = (k : ℕ) (st : VmState) → lookup k m ≡ some st → lookup k states ≡ some st

  pub Within-tail :
      (n k : ℕ) (st : VmState) (m : Table VmState)
      → IsAbove n ((k, st) ∷ m)
      → Within ((k, st) ∷ m)
      → (lookup k states ≡ some st) × Within m
  unfolding lookup
  Within-tail n k st m a w = (
    w k st (ground arith),
    λ j st' h. elim (Bool-cases (j == k)) [
      | inl same ↦
          let low : j < suc k = ground (arith, same) in
          let e = lookup-above (suc k) j m a.1 low in cc
      | inr other ↦ w j st' (ground (arith, h))
    ],
  )

  AllClosed-append :
      (closed : List ℕ) (k : ℕ) (st : VmState)
      → AllClosed closed
      → lookup k states ≡ some st
      → WaitsClosed pipes st
      → AllClosed (closed ++ k ∷ [])
  AllClosed-append closed k st c h w = λ j m. elim (Bool-cases (j == k)) [
    | inl same ↦ (st, ground (arith, h), w)
    | inr other ↦ c j (ground (arith, m, mem-append j closed (k ∷ [])))
  ]

  insert_read :
      (reads : Table (ℕ × VmState)) (p k : ℕ) (st : VmState) (l b a : ℕ)
      → AllReads reads
      → lookup k states ≡ some st
      → st ≡ wait_for_read p l b a
      → AllReads (insert p (k, st) reads)
  insert_read reads p k st l b a r h w q j st' f = elim (Bool-cases (p == q)) [
    | inl same ↦
        let mine : ℕ × VmState = (k, st) in
        let found : ℕ × VmState = (j, st') in
        let entry : mine ≡ found = ground (arith, f, lookup-insert p q (k, st) reads) in
        let here : k ≡ j = ap (λ (x : ℕ × VmState). x.0) entry in
        let what : st ≡ st' = ap (λ (x : ℕ × VmState). x.1) entry in
        let pipe : p ≡ q = ground (arith, same) in
        (
          ap (λ i. lookup i states) (sym here) ∙ h ∙ ap some what,
          l,
          b,
          a,
          sym what ∙ w ∙ ap (λ x. wait_for_read x l b a) pipe,
        )
    | inr other ↦ r q j st' (ground (arith, f, lookup-insert p q (k, st) reads))
  ]

  note_read_lem :
      (k : ℕ) (st : VmState) (acc : Table (ℕ × VmState) × List ℕ)
      → lookup k states ≡ some st
      → AllReads acc.0
      → AllClosed acc.1
      → AllReads (note_read pipes k st acc).0 × AllClosed (note_read pipes k st acc).1
  unfolding note_read
  note_read_lem k (wait_for_read p l b a) (reads, closed) h r c =
      elim (Bool-cases (contains (other_pipe p) pipes)) [
        | inl linked ↦ rw linked (insert_read reads p k _ l b a r h refl, c)
        | inr shut ↦ rw shut (r, AllClosed-append closed k _ c h shut)
      ]
  note_read_lem k runnable acc h r c = (r, c)
  note_read_lem k terminated acc h r c = (r, c)
  note_read_lem k (join _ _) acc h r c = (r, c)
  note_read_lem k (wait_for_write _ _ _ _ _) acc h r c = (r, c)

  collect_reads_lem :
      (n : ℕ) (m : Table VmState) (acc : Table (ℕ × VmState) × List ℕ)
      → IsAbove n m
      → Within m
      → AllReads acc.0
      → AllClosed acc.1
      → AllReads (collect_reads pipes m acc).0 × AllClosed (collect_reads pipes m acc).1
  unfolding collect_reads
  collect_reads_lem n [] acc a w r c = (r, c)
  collect_reads_lem n ((k, st) ∷ m) acc a w r c =
      let (here, later) = Within-tail n k st m a w in
      let step = note_read_lem k st acc here r c in
      collect_reads_lem (suc k) m _ a.1 later step.0 step.1

  note_write_lem :
      (reads : Table (ℕ × VmState)) (k : ℕ) (st : VmState) (acc : List Pair × List ℕ)
      → AllReads reads
      → lookup k states ≡ some st
      → AllMatched states acc.0
      → AllClosed acc.1
      → AllMatched states (note_write pipes reads k st acc).0
        × AllClosed (note_write pipes reads k st acc).1
  unfolding note_write
  note_write_lem reads k (wait_for_write q c l b a) (pairs, closed) r h ms cs =
      elim (Bool-cases (contains (other_pipe q) pipes)) [
        | inl linked ↦ rw linked (elim (Option-cases (lookup (other_pipe q) reads)) [
          | inl alone ↦ rw alone (ms, cs)
          | inr ((reader, st), found) ↦
              let (waits, rl, rb, ra, is_read) = r (other_pipe q) reader st found in
              rw found (
                AllMatched-append states pairs _ ms (
                  record {
                    read_pipe = other_pipe q;
                    read_length = rl;
                    read_buffer = rb;
                    read_length_addr = ra;
                    write_pipe = q;
                    consumed = c;
                    length = l;
                    buffer = b;
                    length_addr = a;
                    connected = refl;
                    reads = is_read;
                    writes = refl;
                    reader = waits;
                    writer = h;
                  },
                  tt,
                ),
                cs,
              )
        ])
        | inr shut ↦ rw shut (ms, AllClosed-append closed k _ cs h shut)
      ]
  note_write_lem reads k runnable acc r h ms cs = (ms, cs)
  note_write_lem reads k terminated acc r h ms cs = (ms, cs)
  note_write_lem reads k (join _ _) acc r h ms cs = (ms, cs)
  note_write_lem reads k (wait_for_read _ _ _ _) acc r h ms cs = (ms, cs)

  collect_writes_lem :
      (reads : Table (ℕ × VmState)) (n : ℕ) (m : Table VmState) (acc : List Pair × List ℕ)
      → AllReads reads
      → IsAbove n m
      → Within m
      → AllMatched states acc.0
      → AllClosed acc.1
      → AllMatched states (collect_writes pipes reads m acc).0
        × AllClosed (collect_writes pipes reads m acc).1
  unfolding collect_writes
  collect_writes_lem reads n [] acc r a w ms cs = (ms, cs)
  collect_writes_lem reads n ((k, st) ∷ m) acc r a w ms cs =
      let (here, later) = Within-tail n k st m a w in
      let step = note_write_lem reads k st acc r here ms cs in
      collect_writes_lem reads (suc k) m _ r a.1 later step.0 step.1

-- Each collected pair is a read and a write on the two ends of one pipe, and each collected VM waits
-- on a pipe whose other end is closed.
pub collected_lem :
    (states : Table VmState) (pipes : Table ℕ)
    → IsSorted states
    → let (reads, closed_reads) = collect_reads pipes states ([], []) in
      let (pairs, closed) = collect_writes pipes reads states ([], closed_reads) in
      AllMatched states pairs
      × ((k : ℕ)
          → mem k closed ≡ true
          → (st : VmState) × (lookup k states ≡ some st) × WaitsClosed pipes st)
collected_lem states pipes sorted =
    let r =
      collect_reads_lem states pipes 0 states ([], []) sorted (λ k st h. h)
        (λ p k st h. unfold lookup in cc) (λ k m. cc) in
    collect_writes_lem states pipes _ 0 states _ r.0 sorted (λ k st h. h) tt r.1
