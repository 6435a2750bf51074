-- ===== src/DevUtils/Graph/Spawned.antt =====
-- The tree of VMs that `generate_data_graph` draws, and its draws of two different indices.
use ckb_vm_deterministic_sch.Prelude.{
  ap, ◌∙◌, sym, ◌+◌, ◌∷◌, ◌++◌, ◌≤◌, ◌<◌, ◌≡◌, ◌≢◌, ◌⊎◌, inl, inr, refl, ℕ, zero, suc, List, [],
  ◌==◌, length, length-append, get_elem?, arith, Bool-cases, subst,
}
use ckb_vm_deterministic_sch.Outcome.Ensures.{Ends-bind, Ends-bind_unwrap, Ends-pure, Ends-weaken}
use ckb_vm_deterministic_sch.DevUtils.Graph.Foreign.{
  Rng, IsRng, Daggy, IsDaggy, Gives, Differs, index_end,
}
use ckb_vm_deterministic_sch.DevUtils.Graph.Draw.{World, draw, spawn_nodes, second_index}
use ckb_vm_deterministic_sch.DevUtils.Graph.Above.{IsTree}
use ckb_vm_deterministic_sch.DevUtils.Graph.Counts.{
  Gives-and, ne_test, IsCount, IsCount-suc, IsTree-suc, on_rng-Gives, on_spawns-Gives,
  on_writes-Gives,
}

module _ {r : Rng} {d : Daggy} {patience : ℕ} (rng : IsRng r patience) (laws : IsDaggy d) where
  draw-Gives_by :
      {Q : ℕ → r.Gen → Type 0} (count : ℕ) (w : World r d)
      → 0 < count
      → Gives Q (r.gen_range 0 count w.rng)
      → Gives
          (λ i w'.
            ((i < count) × Q i w'.rng)
            × (w'.spawn_dag ≡ w.spawn_dag)
            × (w'.write_dag ≡ w.write_dag))
          (draw r d count w)
  unfolding draw
  draw-Gives_by count w h q =
      Ends-weaken _
        (on_rng-Gives (r.gen_range 0 count) w
          (Gives-and (r.gen_range 0 count w.rng) (rng.in_range 0 count w.rng h) q))
        (λ a s p. ((p.0.0.1, p.0.1), p.1, p.2)) (λ s b. b)

  pub draw-Gives :
      (count : ℕ) (w : World r d)
      → 0 < count
      → Gives
          (λ i w'. (i < count) × (w'.spawn_dag ≡ w.spawn_dag) × (w'.write_dag ≡ w.write_dag))
          (draw r d count w)
  draw-Gives count w h =
      Ends-weaken _ (draw-Gives_by count w h (rng.in_range 0 count w.rng h))
        (λ a s q. (q.0.0, q.1, q.2)) (λ s b. b)

  -- With `n` VMs below the root.
  pub record IsSpawned (n : ℕ) (w : World r d) : Type 0 where
    pub spawn_count : laws.nodes w.spawn_dag ≡ suc n
    pub edge_count : length (laws.edges w.spawn_dag) ≡ n
    pub tree : IsTree (laws.edges w.spawn_dag)
    pub write_count : laws.nodes w.write_dag ≡ suc n
    pub unwritten : laws.edges w.write_dag ≡ []

  -- One more VM, which VM `i` spawns.
  IsSpawned-suc :
      {n i : ℕ} {added : ℕ × ℕ} (w w1 w2 w3 : World r d)
      → IsSpawned n w
      → i ≤ n
      → (laws.nodes w1.write_dag ≡ suc (laws.nodes w.write_dag))
        × (laws.edges w1.write_dag ≡ laws.edges w.write_dag)
        × (w1.spawn_dag ≡ w.spawn_dag)
      → (w2.spawn_dag ≡ w1.spawn_dag) × (w2.write_dag ≡ w1.write_dag)
      → (added ≡ (length (laws.edges w2.spawn_dag), laws.nodes w2.spawn_dag))
        × (laws.nodes w3.spawn_dag ≡ suc (laws.nodes w2.spawn_dag))
        × (laws.edges w3.spawn_dag ≡ laws.edges w2.spawn_dag ++ (i, laws.nodes w2.spawn_dag) ∷ [])
        × (w3.write_dag ≡ w2.write_dag)
      → IsSpawned (suc n) w3 × (added.1 ≡ suc n)
  IsSpawned-suc {n} {i} {added} w w1 w2 w3 h low q1 q2 q3 =
      let same : w2.spawn_dag ≡ w.spawn_dag = q2.0 ∙ q1.2 in
      let count : laws.nodes w2.spawn_dag ≡ suc n = ap laws.nodes same ∙ h.spawn_count in
      let edges_eq : laws.edges w3.spawn_dag ≡ laws.edges w.spawn_dag ++ (i, suc n) ∷ [] =
        q3.2
        ∙ ap (λ (k : ℕ). laws.edges w2.spawn_dag ++ (i, k) ∷ []) count
        ∙ ap (λ g. laws.edges g ++ (i, suc n) ∷ []) same in
      let node_eq : suc n ≡ suc (length (laws.edges w.spawn_dag)) = omega (arith, h.edge_count) in
      let edges_eq' = edges_eq ∙ ap (λ (k : ℕ). laws.edges w.spawn_dag ++ (i, k) ∷ []) node_eq in
      (
        record {
          spawn_count = omega (arith, q3.1, count);
          edge_count =
              ap length edges_eq
              ∙ omega
                  (arith, length-append (laws.edges w.spawn_dag) ((i, suc n) ∷ []), h.edge_count);
          tree =
              subst IsTree (sym edges_eq')
                (IsTree-suc (laws.edges w.spawn_dag) i h.tree (omega (arith, h.edge_count)));
          write_count = ap laws.nodes (q3.3 ∙ q2.1) ∙ q1.0 ∙ ap suc h.write_count;
          unwritten = ap laws.edges (q3.3 ∙ q2.1) ∙ q1.1 ∙ h.unwritten;
        },
        ap (λ (en : ℕ × ℕ). en.1) q3.0 ∙ count,
      )

  pub spawn_nodes-Gives :
      (total left n : ℕ) (writes spawns : List ℕ) (w : World r d)
      → IsSpawned n w
      → IsCount (suc n) writes
      → IsCount (suc n) spawns
      → n + left ≡ total
      → total < index_end
      → Gives
          (λ nodes w'. IsSpawned total w' × IsCount (suc total) nodes)
          (spawn_nodes r d left writes spawns w)
  unfolding spawn_nodes
  spawn_nodes-Gives total zero n writes spawns w h cw cs sum room =
      let n_eq : n ≡ total = omega arith in
      Ends-pure writes w
        (subst (λ k. IsSpawned k w) n_eq h, subst (λ k. IsCount (suc k) writes) n_eq cw)
  spawn_nodes-Gives total (suc left) n writes spawns w h cw cs sum room =
      Ends-bind _ _ w
        (on_writes-Gives d.add_node w
          (laws.add_node_lem w.write_dag (omega (arith, h.write_count))))
        (λ node w1 q1.
          Ends-bind _ _ w1 (draw-Gives (length spawns) w1 (omega (arith, cs.sized))) (λ i w2 q2.
            let low : i ≤ n = omega (arith, cs.sized, q2.0) in
            let same : w2.spawn_dag ≡ w.spawn_dag = q2.1 ∙ q1.1 in
            let nodes_eq : laws.nodes w2.spawn_dag ≡ suc n = ap laws.nodes same ∙ h.spawn_count in
            let edges_eq : length (laws.edges w2.spawn_dag) ≡ n =
              ap (λ g. length (laws.edges g)) same ∙ h.edge_count in
            Ends-bind_unwrap (get_elem? spawns i) _ i w2 (cs.at i (omega arith)) (
              Ends-bind _ _ w2
                (on_spawns-Gives (d.add_child i) w2
                  (laws.add_child_lem i w2.spawn_dag (omega arith) (omega arith) (omega arith)))
                (λ added w3 q3.
                  let grown =
                    IsSpawned-suc w w1 w2 w3 h low (q1.0.1, q1.0.2, q1.1) (q2.1, q2.2)
                      (q3.0.0, q3.0.1, q3.0.2, q3.1) in
                  let node_eq : suc n ≡ node = sym (q1.0.0 ∙ h.write_count) in
                  spawn_nodes-Gives total left (suc n) (writes ++ node ∷ [])
                    (spawns ++ added.1 ∷ []) w3 grown.0
                    (subst (λ k. IsCount (suc (suc n)) (writes ++ k ∷ [])) node_eq
                      (IsCount-suc (suc n) writes cw))
                    (subst (λ k. IsCount (suc (suc n)) (spawns ++ k ∷ [])) (sym grown.1)
                      (IsCount-suc (suc n) spawns cs))
                    (omega arith) room))))

  -- The loop ends, with another index than the first, where it starts at another one or one of the draws
  -- differs.
  pub second_index-Gives :
      (fuel first count i : ℕ) (w : World r d)
      → 0 < count
      → i < count
      → (i ≢ first) ⊎ Differs r fuel first count w.rng
      → Gives
          (λ j w'.
            (j < count) × (j ≢ first) × (w'.spawn_dag ≡ w.spawn_dag) × (w'.write_dag ≡ w.write_dag))
          (second_index r d fuel first count i w)
  unfolding second_index
  second_index-Gives zero first count i w some_node inside (inr never) = absurd never
  second_index-Gives zero first count i w some_node inside (inl differ) =
      rw (ne_test i first differ) (Ends-pure i w (inside, differ, refl, refl))
  second_index-Gives (suc fuel) first count i w some_node inside (inl differ) =
      rw (ne_test i first differ) (Ends-pure i w (inside, differ, refl, refl))
  second_index-Gives (suc fuel) first count i w some_node inside (inr later) =
      elim (Bool-cases (i == first)) [
        | inr n ↦ rw n (Ends-pure i w (inside, ground arith, refl, refl))
        | inl y ↦ rw y (
            Ends-bind _ _ w (draw-Gives_by count w some_node later) (λ j w' q.
              Ends-weaken _ (second_index-Gives fuel first count j w' some_node q.0.0 q.0.1)
                (λ k w'' p. (p.0, p.1, p.2 ∙ q.1, p.3 ∙ q.2)) (λ s b. b)))
      ]
