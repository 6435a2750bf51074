-- ===== src/DevUtils/Graph/Planned.antt =====
-- The loop over the writes in `generate_data_graph` ends: no lookup fails and no assertion is broken.
use ckb_vm_deterministic_sch.Prelude.{
  ◌∙◌, sym, ◌+◌, ◌*◌, ◌∷◌, ◌++◌, ◌≤◌, ◌≡◌, inl, inr, refl, ℕ, not, true, List, [], some, ◌==◌,
  length, get_elem?, arith, mem, Option-cases, subst,
}
use ckb_vm_deterministic_sch.Table.{lookup}
use ckb_vm_deterministic_sch.Outcome.{Outcome, ok, Exec, ◌>>=◌, lift}
use ckb_vm_deterministic_sch.Outcome.Ensures.{
  Ends-via, Ends-bind, Ends-bind_unwrap, Ends-bind_assert, Ends-pure, Ends-weaken, Ends-bind_gets,
  Ends-bind_modify, Ends-modify,
}
use ckb_vm_deterministic_sch.DevUtils.Graph.Foreign.{Rng, IsRng, Daggy, IsDaggy, Gives}
use ckb_vm_deterministic_sch.DevUtils.Graph.Plan.{
  Drafts, on_rng, place_write, plan_write, plan_writes,
}
use ckb_vm_deterministic_sch.DevUtils.Graph.Above.{IsTree, Above-le}
use ckb_vm_deterministic_sch.DevUtils.Graph.Ancestor.{find_ancestor_lem}
use ckb_vm_deterministic_sch.DevUtils.Graph.Down.{pass_down_lem}
use ckb_vm_deterministic_sch.DevUtils.Graph.Owned.{AreEnds}
use ckb_vm_deterministic_sch.DevUtils.Graph.Drafted.{
  IsDrafted, IsDrafted-suc, IsDrafted-redrawn, edge_write,
}
use ckb_vm_deterministic_sch.Types.{Bytes}
use mathlib.Core.List.{append-nil, append_assoc}

module _ {r : Rng} {A : Type 0} where
  on_rng-Gives :
      {Q : A → r.Gen → Type 0} (m : Exec r.Gen A) (s : Drafts r)
      → Gives Q (m s.rng)
      → Gives (λ a s'. Q a s'.rng × (s' ≡ record s { rng = s'.rng })) (on_rng r m s)
  unfolding on_rng
  on_rng-Gives m s h =
      Ends-via (m s.rng) (λ g. record s { rng = g }) h (λ a g q. (q, refl)) (λ g b. b)

pub Gives-bind_lift :
    {S A B : Type 0} {T : B → S → Type 0} (m : Outcome A) (f : A → Exec S B) (s : S) (a : A)
    → m ≡ ok a
    → Gives T (f a s)
    → Gives T ((lift m >>= f) s)
unfolding ◌>>=◌ lift
Gives-bind_lift m f s a e h = rw e h

module _ {r : Rng} {d : Daggy} {patience : ℕ} (rng : IsRng r patience) (laws : IsDaggy d)
    (spawn_dag write_dag : d.Graph) (tree : IsTree (laws.edges spawn_dag)) where
  place_write-Gives :
      (done : List ℕ) (e writer reader : ℕ) (content : Bytes) (s : Drafts r)
      → AreEnds (length (laws.edges spawn_dag)) writer reader
      → (1 ≤ length content) × (length content ≤ 1024)
      → IsDrafted (laws.edges spawn_dag) done s
      → Gives
          (λ _ s'. IsDrafted (laws.edges spawn_dag) (done ++ e ∷ []) s')
          (place_write r d spawn_dag (edge_write e writer reader content) s)
  unfolding place_write
  place_write-Gives done e writer reader content s ends sized h =
      let found =
        find_ancestor_lem laws spawn_dag tree writer reader ends.differ ends.writer_in
          ends.reader_in in
      let ancestor = found.0 in
      let below = Above-le tree found.2.above_writer in
      let first =
        pass_down_lem laws spawn_dag tree writer ancestor (e * 2 + 1) writer s.spawn_ops
          found.2.above_writer h.listed ends.writer_in (omega arith) in
      let second =
        pass_down_lem laws spawn_dag tree reader ancestor (e * 2) reader first.0
          found.2.above_reader (λ k l. first.2.kept k (h.listed k l)) ends.reader_in
          (omega arith) in
      elim (Option-cases (lookup ancestor s.pipes_ops)) [
        | inl missing ↦ absurd (ground (arith, h.vms ancestor, ends.writer_in))
        | inr (pairs, there) ↦ Ends-bind_modify _ _ s (
            Gives-bind_lift _ _ _ ancestor found.1 (
              Ends-bind_gets _ _ _ (
                Gives-bind_lift _ _ _ first.0 first.1 (
                  Gives-bind_lift _ _ _ second.0 second.1 (
                    Ends-bind_gets _ _ _ (
                      Ends-bind_unwrap _ _ pairs _ there (
                        Ends-modify _ _ (
                          IsDrafted-suc s done e writer reader ancestor content first.0 second.0
                            pairs h first.2 second.2 there ends sized))))))))
      ]

  plan_write-Gives :
      (done : List ℕ) (e writer reader : ℕ) (s : Drafts r)
      → get_elem? (laws.edges write_dag) e ≡ some (writer, reader)
      → AreEnds (length (laws.edges spawn_dag)) writer reader
      → IsDrafted (laws.edges spawn_dag) done s
      → Gives
          (λ _ s'. IsDrafted (laws.edges spawn_dag) (done ++ e ∷ []) s')
          (plan_write r d spawn_dag write_dag e s)
  unfolding plan_write
  plan_write-Gives done e writer reader s edge ends h =
      Ends-bind_unwrap (d.edge_endpoints write_dag e) _ (writer, reader) s
        (laws.edge_endpoints_lem write_dag e ∙ edge)
        (Ends-bind_assert (not (writer == reader)) _ s (ground (arith, ends.differ)) (
          Ends-bind _ _ s
            (on_rng-Gives (r.gen_range 1 1025) s (rng.in_range 1 1025 s.rng (omega arith)))
            (λ data_len s1 q1.
              Ends-bind _ _ s1
                (on_rng-Gives {Q = λ content g. length content ≡ data_len} _ s1
                  (record { at = rng.length-fill data_len s1.rng }))
                (λ content s2 q2.
                  place_write-Gives done e writer reader content s2 ends
                    (omega (arith, q1.0, q2.0), omega (arith, q1.0, q2.0))
                    (IsDrafted-redrawn s1 s2 q2.1 (IsDrafted-redrawn s s1 q1.1 h))))))

  pub plan_writes-Gives :
      (edges done : List ℕ) (s : Drafts r)
      → ((e : ℕ)
          → mem e edges ≡ true
          → (a : ℕ) × (b : ℕ) × (get_elem? (laws.edges write_dag) e ≡ some (a, b))
            × AreEnds (length (laws.edges spawn_dag)) a b)
      → IsDrafted (laws.edges spawn_dag) done s
      → Gives
          (λ _ s'. IsDrafted (laws.edges spawn_dag) (done ++ edges) s')
          (plan_writes r d spawn_dag write_dag edges s)
  unfolding plan_writes
  plan_writes-Gives [] done s ends h =
      Ends-pure tt s (subst (λ l. IsDrafted (laws.edges spawn_dag) l s) (sym (append-nil done)) h)
  plan_writes-Gives (e ∷ edges) done s ends h =
      let (a, b, edge, here) = ends e (ground arith) in
      Ends-bind _ _ s (plan_write-Gives done e a b s edge here h) (λ _ s1 h1.
        Ends-weaken _
          (plan_writes-Gives edges (done ++ e ∷ []) s1 (λ k i. ends k (ground arith)) h1)
          (λ _ s2 h2.
            subst (λ l. IsDrafted (laws.edges spawn_dag) l s2) (append_assoc done (e ∷ []) edges)
              h2)
          (λ s b. b))
