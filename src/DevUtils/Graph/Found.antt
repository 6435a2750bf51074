-- ===== src/DevUtils/Graph/Found.antt =====
-- The rounds in which `generate_data_graph` looks for one more write.
use ckb_vm_deterministic_sch.Prelude.{
  ap, ◌∙◌, sym, ◌∷◌, ◌++◌, ◌≤◌, ◌<◌, ◌≡◌, ◌⊎◌, inl, inr, refl, ℕ, zero, suc, List, [], some, none,
  Option, length, get_elem?, arith,
}
use ckb_vm_deterministic_sch.Outcome.{Exec}
use ckb_vm_deterministic_sch.Outcome.Ensures.{Ends-bind, Ends-bind_unwrap, Ends-pure, Ends-weaken}
use ckb_vm_deterministic_sch.DevUtils.Graph.Foreign.{Rng, IsRng, Daggy, IsDaggy, Gives, index_end}
use ckb_vm_deterministic_sch.DevUtils.Graph.Draw.{World, find_edge, found_or}
use ckb_vm_deterministic_sch.DevUtils.Graph.Owned.{AreEnds}
use ckb_vm_deterministic_sch.DevUtils.Graph.Counts.{IsCount, on_writes-Gives}
use ckb_vm_deterministic_sch.DevUtils.Graph.Spawned.{draw-Gives, second_index-Gives}

module _ {r : Rng} {d : Daggy} {patience : ℕ} (rng : IsRng r patience) (laws : IsDaggy d) where
  -- What a round of `find_edge` leaves behind.
  abbrev pub FoundEdge : ℕ → World r d → Option ℕ → World r d → Type 0
  FoundEdge n w found w' =
      (w'.spawn_dag ≡ w.spawn_dag)
      × (laws.nodes w'.write_dag ≡ laws.nodes w.write_dag)
      × (((found ≡ none) × (laws.edges w'.write_dag ≡ laws.edges w.write_dag))
          ⊎ ((a : ℕ) × (b : ℕ) × (found ≡ some (length (laws.edges w.write_dag)))
              × (laws.edges w'.write_dag ≡ laws.edges w.write_dag ++ (a, b) ∷ [])
              × AreEnds n a b))

  pub missed-edges :
      (n : ℕ) (w w1 : World r d)
      → FoundEdge n w none w1
      → laws.edges w1.write_dag ≡ laws.edges w.write_dag
  missed-edges n w w1 (spawns, nodes, inl (nothing, edges)) = edges
  missed-edges n w w1 (spawns, nodes, inr (a, b, never, edges, ends)) = absurd (cc)

  FoundEdge-trans :
      (n : ℕ) (w w1 w2 : World r d) (found : Option ℕ)
      → FoundEdge n w none w1
      → FoundEdge n w1 found w2
      → FoundEdge n w found w2
  FoundEdge-trans n w w1 w2 found missed (spawns, nodes, inl (nothing, edges)) =
      (spawns ∙ missed.0, nodes ∙ missed.1, inl (nothing, edges ∙ missed-edges n w w1 missed))
  FoundEdge-trans n w w1 w2 found missed (spawns, nodes, inr (a, b, at_end, edges, ends)) =
      let same = missed-edges n w w1 missed in
      (
        spawns ∙ missed.0,
        nodes ∙ missed.1,
        inr (
          a,
          b,
          at_end ∙ ap (λ l. some (length l)) same,
          edges ∙ ap (λ l. l ++ (a, b) ∷ []) same,
          ends,
        ),
      )

  found_or-Gives :
      (n : ℕ) (w w1 : World r d) (found : Option ℕ) (again : Exec (World r d) (Option ℕ))
      → FoundEdge n w found w1
      → (FoundEdge n w none w1 → Gives (FoundEdge n w1) (again w1))
      → Gives (FoundEdge n w) (found_or found again w1)
  found_or-Gives n w w1 (some e) again h k = Ends-pure (some e) w1 h
  found_or-Gives n w w1 none again h k =
      Ends-weaken (again w1) (k h) (λ a w2 q. FoundEdge-trans n w w1 w2 a h q) (λ s b. b)

  pub find_edge-Gives :
      (n threshold : ℕ) (nodes : List ℕ) (w : World r d)
      → IsCount (suc n) nodes
      → 1 ≤ n
      → laws.nodes w.write_dag ≡ suc n
      → length (laws.edges w.write_dag) < index_end
      → Gives (FoundEdge n w) (find_edge r d patience nodes threshold w)
  unfolding find_edge
  find_edge-Gives n zero nodes w c two count room = Ends-pure none w (refl, refl, inl (refl, refl))
  find_edge-Gives n (suc left) nodes w c two count room =
      Ends-bind _ _ w (draw-Gives rng laws (length nodes) w (omega (arith, c.sized))) (λ i w1 q1.
        Ends-bind _ _ w1
          (second_index-Gives rng laws patience i (length nodes) i w1 (omega (arith, c.sized)) q1.0
            (inr (rng.varied i (length nodes) w1.rng (omega (arith, c.sized)))))
          (λ j w2 q2.
            let same : w2.write_dag ≡ w.write_dag = q2.3 ∙ q1.2 in
            let nodes_eq : laws.nodes w2.write_dag ≡ suc n = ap laws.nodes same ∙ count in
            let edges_eq : laws.edges w2.write_dag ≡ laws.edges w.write_dag = ap laws.edges same in
            Ends-bind_unwrap (get_elem? nodes i) _ i w2 (c.at i (omega (arith, c.sized, q1.0))) (
              Ends-bind_unwrap (get_elem? nodes j) _ j w2 (c.at j (omega (arith, c.sized, q2.0))) (
                Ends-bind _ _ w2
                  (on_writes-Gives (d.add_edge i j) w2 (
                    laws.add_edge_lem i j w2.write_dag (omega (arith, c.sized, q1.0))
                      (omega (arith, c.sized, q2.0)) (omega (arith, ap length edges_eq))))
                  (λ edge w3 q3.
                    let spawns : w3.spawn_dag ≡ w.spawn_dag = q3.1 ∙ q2.2 ∙ q1.1 in
                    let found : FoundEdge n w edge w3 = (
                      spawns,
                      q3.0.0 ∙ ap laws.nodes same,
                      elim q3.0.1 [
                        | inl (nothing, edges) ↦ inl (nothing, edges ∙ edges_eq)
                        | inr (at_end, edges) ↦ inr (
                          i,
                          j,
                          at_end ∙ ap (λ l. some (length l)) edges_eq,
                          edges ∙ ap (λ l. l ++ (i, j) ∷ []) edges_eq,
                          record {
                            differ = λ same_node. q2.1 (sym same_node);
                            writer_in = omega (arith, c.sized, q1.0);
                            reader_in = omega (arith, c.sized, q2.0);
                          },
                        )
                      ],
                    ) in
                    found_or-Gives n w w3 edge _ found (λ missed.
                      find_edge-Gives n left nodes w3 c two (missed.1 ∙ count)
                        (omega (arith, ap length (missed-edges n w w3 missed)))))))))
