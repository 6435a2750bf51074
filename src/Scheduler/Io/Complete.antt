-- ===== src/Scheduler/Io/Complete.antt =====
-- `process_io` collects every read and write that can meet, and nothing else.
use ckb_vm_deterministic_sch.Prelude.{
  Among, ℕ, ◌≡◌, ◌↔◌, sym, ap, subst, ◌∙◌, true, some, List, [], ◌∷◌, inl, inr, is_some,
}
use ckb_vm_deterministic_sch.Scheduler.Io.Found.{
  meeting, collect_writes-Among, IsSole, collect_reads-IsNoted,
}
use ckb_vm_deterministic_sch.Table.{Table, lookup, contains}
use ckb_vm_deterministic_sch.Types.{VmState, wait_for_read, wait_for_write}
use ckb_vm_deterministic_sch.Types.Pipe.{other_pipe}
use ckb_vm_deterministic_sch.Types.Pipe.Pairs.{other_pipe-involution}
use ckb_vm_deterministic_sch.Engine.{Engine}
use ckb_vm_deterministic_sch.Scheduler.State.{State}
use ckb_vm_deterministic_sch.Scheduler.Valid.{IsValid}
use ckb_vm_deterministic_sch.Scheduler.Io.{Pair, collect_reads, collect_writes}
use ckb_vm_deterministic_sch.Scheduler.Io.Collected.{IsMatched, AllMatched, collected_lem}

-- what `process_io` collects of a scheduler
abbrev pub pairs_of : {e : Engine} → State e → List Pair
pairs_of s =
    let (reads, closed_reads) = collect_reads s.pipes s.states ([], []) in
    (collect_writes s.pipes reads s.states ([], closed_reads)).0

AllMatched-Among :
    (states : Table VmState) (p : Pair) (l : List Pair)
    → AllMatched states l
    → Among p l
    → IsMatched states p
AllMatched-Among states p [] all h = absurd h
AllMatched-Among states p (x ∷ l) all (inl same) = subst (IsMatched states) (sym same) all.0
AllMatched-Among states p (x ∷ l) all (inr later) = AllMatched-Among states p l all.1 later

module _ {e : Engine} where
  matched_Among :
      (s : State e) (reader p l b a writer q c n u v : ℕ)
      → IsValid s
      → p ≡ other_pipe q
      → lookup reader s.states ≡ some (wait_for_read p l b a)
      → lookup writer s.states ≡ some (wait_for_write q c n u v)
      → Among (meeting s.states s.pipes reader p l b a writer q c n u v) (pairs_of s)
  matched_Among s reader p l b a writer q c n u v valid ends reads writes =
      let owned = (valid.waiting reader _ reads).0 in
      let opposite : other_pipe p ≡ q = ap other_pipe ends ∙ (other_pipe-involution q).0 in
      let open_read : contains p s.pipes ≡ true = ap is_some owned in
      let open_write : contains (other_pipe p) s.pipes ≡ true =
        ap (λ x. contains x s.pipes) opposite ∙ ap is_some (valid.waiting writer _ writes).0 in
      let sole : IsSole s.states s.pipes reader p l b a =
        λ k l' b' a' h. let mine = sym (valid.waiting k _ h).0 ∙ owned in cc in
      let noted =
        collect_reads-IsNoted s.states s.pipes reader p l b a 0 s.states ([], []) sole open_write
          valid.ordered (λ k st h. h) reads (inr reads) in
      collect_writes-Among s.states s.pipes reader p l b a writer q c n u v _ 0 s.states _
        (sym ends) open_read noted valid.ordered (λ k st h. h) writes (inr writes)

  -- In a valid state, `process_io` collects a pair exactly if it is a VM that waits to read from the one
  -- end of a pipe, and a VM that waits to write to the other.
  pub pairs_of_iff :
      (s : State e) → IsValid s → (p : Pair) → Among p (pairs_of s) ↔ IsMatched s.states p
  pairs_of_iff s valid p = (
    AllMatched-Among s.states p (pairs_of s) (collected_lem s.states s.pipes valid.ordered).0,
    λ m.
        let shape : p
            ≡ meeting s.states s.pipes p.read_vm_id m.read_pipe m.read_length m.read_buffer
                m.read_length_addr p.write_vm_id m.write_pipe m.consumed m.length m.buffer
                m.length_addr =
          ap (λ x. record p { read_state = x }) m.reads
          ∙ ap
              (λ x. record p {
                read_state =
                    wait_for_read m.read_pipe m.read_length m.read_buffer m.read_length_addr;
                write_state = x;
              })
              m.writes in
        subst (λ x. Among x (pairs_of s)) (sym shape)
          (matched_Among s p.read_vm_id m.read_pipe m.read_length m.read_buffer m.read_length_addr
            p.write_vm_id m.write_pipe m.consumed m.length m.buffer m.length_addr valid m.connected
            (m.reader ∙ ap some m.reads) (m.writer ∙ ap some m.writes)),
  )
