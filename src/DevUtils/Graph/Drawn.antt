-- ===== src/DevUtils/Graph/Drawn.antt =====
-- What the drawing of the graphs in `generate_data_graph` gives: a tree of VMs, and edges between two
-- different VMs each.
use ckb_vm_deterministic_sch.Prelude.{
  ap, ◌∙◌, sym, ◌+◌, ◌^◌, ◌∷◌, ◌++◌, ◌≤◌, ◌<◌, ◌≡◌, inl, inr, refl, ℕ, zero, suc, true, List, [],
  some, none, Option, ◌==◌, length, length-append, get_elem?, arith, mem, Bool-cases, subst, ltb,
  get_elem?-lt,
}
use ckb_vm_deterministic_sch.Prelude.Distinct.{IsDistinct, mem-append, append-IsDistinct}
use ckb_vm_deterministic_sch.Outcome.{Exec}
use ckb_vm_deterministic_sch.Outcome.Ensures.{Ends-bind, Ends-bind_assert, Ends-pure}
use ckb_vm_deterministic_sch.DevUtils.Graph.Foreign.{Rng, IsRng, Daggy, IsDaggy, Gives, index_end}
use ckb_vm_deterministic_sch.DevUtils.Graph.Draw.{World, write_edges, draw_graphs, if_found}
use ckb_vm_deterministic_sch.DevUtils.Graph.Owned.{AreEnds}
use ckb_vm_deterministic_sch.DevUtils.Graph.Above.{IsTree}
use ckb_vm_deterministic_sch.DevUtils.Graph.Counts.{
  get_elem?-append, get_elem?_end, IsCount, IsCount-one, on_spawns-Gives, on_writes-Gives,
}
use ckb_vm_deterministic_sch.DevUtils.Graph.Spawned.{IsSpawned, spawn_nodes-Gives}
use ckb_vm_deterministic_sch.DevUtils.Graph.Found.{FoundEdge, missed-edges, find_edge-Gives}

module _ {r : Rng} {d : Daggy} {patience : ℕ} (rng : IsRng r patience) (laws : IsDaggy d) where
  -- With `n` VMs below the root, and each edge of the list between two different VMs.
  pub record IsConnected (n : ℕ) (edges : List ℕ) (w : World r d) : Type 0 where
    pub edge_count : length (laws.edges w.spawn_dag) ≡ n
    pub tree : IsTree (laws.edges w.spawn_dag)
    pub write_count : laws.nodes w.write_dag ≡ suc n
    pub distinct : IsDistinct edges
    pub ends :
        (e : ℕ)
        → mem e edges ≡ true
        → (a : ℕ) × (b : ℕ) × (get_elem? (laws.edges w.write_dag) e ≡ some (a, b)) × AreEnds n a b

  IsConnected-missed :
      {n : ℕ} {edges : List ℕ} (w w1 : World r d)
      → IsConnected n edges w
      → FoundEdge rng laws n w none w1
      → IsConnected n edges w1
  IsConnected-missed {n} {edges} w w1 h missed =
      let same : laws.edges w.write_dag ≡ laws.edges w1.write_dag =
        sym (missed-edges rng laws n w w1 missed) in
      record {
        edge_count = ap (λ g. length (laws.edges g)) missed.0 ∙ h.edge_count;
        tree = subst (λ g. IsTree (laws.edges g)) (sym missed.0) h.tree;
        write_count = missed.1 ∙ h.write_count;
        distinct = h.distinct;
        ends = λ e i.
            let old = h.ends e i in
            (old.0, old.1, ap (λ l. get_elem? l e) (sym same) ∙ old.2, old.3);
      }

  IsConnected-found :
      {n e : ℕ} {edges : List ℕ} (w w1 : World r d)
      → IsConnected n edges w
      → FoundEdge rng laws n w (some e) w1
      → IsConnected n (edges ++ e ∷ []) w1
  IsConnected-found {n} {e} {edges} w w1 h (spawns, nodes, inl (never, kept)) = absurd (cc)
  IsConnected-found {n} {e} {edges} w w1 h (spawns, nodes, inr (a, b, at_end, grown, ends)) =
      let e_eq : e ≡ length (laws.edges w.write_dag) = cc in
      record {
        edge_count = ap (λ g. length (laws.edges g)) spawns ∙ h.edge_count;
        tree = subst (λ g. IsTree (laws.edges g)) (sym spawns) h.tree;
        write_count = nodes ∙ h.write_count;
        distinct =
            append-IsDistinct edges (e ∷ []) h.distinct (refl, tt)
              (λ k i.
                let old = h.ends k i in
                ground (arith, e_eq, get_elem?-lt (laws.edges w.write_dag) k old.2));
        ends = λ k i. elim (Bool-cases (mem k edges)) [
          | inl j ↦
              let old = h.ends k j in
              (
                old.0,
                old.1,
                ap (λ l. get_elem? l k) grown
                    ∙ get_elem?-append (laws.edges w.write_dag) ((a, b) ∷ []) k old.2,
                old.3,
              )
          | inr new ↦
              let k_eq : length (laws.edges w.write_dag) ≡ k =
                ground (arith, mem-append k edges (e ∷ []), e_eq) in
              (
                a,
                b,
                ap (λ l. get_elem? l k) grown
                    ∙ subst (λ m. get_elem? (laws.edges w.write_dag ++ (a, b) ∷ []) m ≡ some (a, b))
                        k_eq (get_elem?_end (laws.edges w.write_dag) (a, b)),
                ends,
              )
        ];
      }

  found-length :
      {n : ℕ} {edge : Option ℕ} (w w1 : World r d)
      → FoundEdge rng laws n w edge w1
      → length (laws.edges w1.write_dag) ≤ suc (length (laws.edges w.write_dag))
  found-length w w1 (spawns, nodes, inl (never, kept)) = omega (arith, ap length kept)
  found-length w w1 (spawns, nodes, inr (a, b, at_end, grown, ends)) =
      omega (arith, ap length grown, length-append (laws.edges w.write_dag) ((a, b) ∷ []))

  if_found-Gives :
      {n : ℕ} (w w1 : World r d) (edge : Option ℕ) (edges : List ℕ)
      (again : List ℕ → Exec (World r d) (List ℕ))
      → IsConnected n edges w
      → FoundEdge rng laws n w edge w1
      → ((edges' : List ℕ) → IsConnected n edges' w1 → Gives (IsConnected n) (again edges' w1))
      → Gives (IsConnected n) (if_found edge edges again w1)
  if_found-Gives w w1 (some e) edges again h f k = k (edges ++ e ∷ []) (IsConnected-found w w1 h f)
  if_found-Gives w w1 none edges again h f k = Ends-pure edges w1 (IsConnected-missed w w1 h f)

  write_edges-Gives :
      (n threshold left : ℕ) (nodes edges : List ℕ) (w : World r d)
      → IsCount (suc n) nodes
      → 1 ≤ n
      → IsConnected n edges w
      → length (laws.edges w.write_dag) + left < 2 ^ 32
      → Gives (IsConnected n) (write_edges r d patience nodes threshold left edges w)
  unfolding write_edges
  write_edges-Gives n threshold zero nodes edges w c two h room = Ends-pure edges w h
  write_edges-Gives n threshold (suc left) nodes edges w c two h room =
      Ends-bind _ _ w
        (find_edge-Gives rng laws n threshold nodes w c two h.write_count (omega arith))
        (λ edge w1 found. if_found-Gives w w1 edge edges _ h found (λ edges' h'.
          write_edges-Gives n threshold left nodes edges' w1 c two h'
            (omega (arith, found-length w w1 found))))

  IsSpawned-none :
      (w : World r d)
      → laws.nodes w.spawn_dag ≡ 1
      → laws.edges w.spawn_dag ≡ []
      → laws.nodes w.write_dag ≡ 1
      → laws.edges w.write_dag ≡ []
      → IsSpawned rng laws 0 w
  IsSpawned-none w sn se wn we = record {
    spawn_count = sn;
    edge_count = ap length se;
    tree = subst IsTree (sym se) (record { grows = λ e p c h. cc });
    write_count = wn;
    unwritten = we;
  }

  IsConnected-none : (n : ℕ) (w : World r d) → IsSpawned rng laws n w → IsConnected n [] w
  IsConnected-none n w h = record {
    edge_count = h.edge_count;
    tree = h.tree;
    write_count = h.write_count;
    distinct = tt;
    ends = λ e i. cc;
  }

  -- The graphs are drawn, if the numbers of VMs and of edges fit.
  pub draw_graphs-Gives :
      (spawns writes threshold : ℕ) (w : World r d)
      → w.spawn_dag ≡ d.new
      → w.write_dag ≡ d.new
      → spawns < index_end
      → writes < 2 ^ 32
      → Gives (IsConnected spawns) (draw_graphs r d patience spawns writes threshold w)
  unfolding draw_graphs
  draw_graphs-Gives spawns writes threshold w new_spawns new_writes room_spawns room_writes =
      let none_spawned : laws.nodes w.spawn_dag ≡ 0 = ap laws.nodes new_spawns ∙ laws.nodes-new in
      let none_written : laws.nodes w.write_dag ≡ 0 = ap laws.nodes new_writes ∙ laws.nodes-new in
      Ends-bind _ _ w (on_spawns-Gives d.add_node w (laws.add_node_lem w.spawn_dag (omega arith)))
        (λ spawn_root w1 q1.
          let same : laws.nodes w1.write_dag ≡ 0 = ap laws.nodes q1.1 ∙ none_written in
          Ends-bind _ _ w1
            (on_writes-Gives d.add_node w1 (laws.add_node_lem w1.write_dag (omega arith)))
            (λ write_root w2 q2. Ends-bind_assert (spawn_root == 0) _ w2 (ground (arith, q1.0.0)) (
              Ends-bind_assert (write_root == 0) _ w2 (ground (arith, q2.0.0)) (
                Ends-bind _ _ w2
                  (spawn_nodes-Gives rng laws spawns spawns 0 (write_root ∷ []) (spawn_root ∷ []) w2
                    (IsSpawned-none w2 (ap laws.nodes q2.1 ∙ q1.0.1 ∙ ap suc none_spawned)
                      (ap laws.edges q2.1 ∙ q1.0.2 ∙ ap laws.edges new_spawns ∙ laws.edges-new)
                      (q2.0.1 ∙ ap suc same)
                      (q2.0.2 ∙ ap laws.edges q1.1 ∙ ap laws.edges new_writes ∙ laws.edges-new))
                    (IsCount-one write_root (q2.0.0 ∙ same))
                    (IsCount-one spawn_root (q1.0.0 ∙ none_spawned)) (omega arith) room_spawns)
                  (λ nodes w3 q3. elim (Bool-cases (ltb 0 spawns)) [
                    | inl y ↦ rw y (
                        write_edges-Gives spawns threshold writes nodes [] w3 q3.1 (ground arith)
                          (IsConnected-none spawns w3 q3.0)
                          (omega (arith, ap length q3.0.unwritten)))
                    | inr n ↦ rw n (Ends-pure [] w3 (IsConnected-none spawns w3 q3.0))
                  ])))))
