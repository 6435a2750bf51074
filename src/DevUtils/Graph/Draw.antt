-- ===== src/DevUtils/Graph/Draw.antt =====
-- The first half of `generate_data_graph`: a VM is spawned by any VM before it, and writes are drawn
-- that do not make a cycle.
use ckb_vm_deterministic_sch.Prelude.{
  ◌∷◌, ◌++◌, ℕ, zero, suc, Option, none, some, List, [], ◌==◌, ltb, if◌then◌else◌, length,
  get_elem?,
}
use ckb_vm_deterministic_sch.Outcome.{◌>>=◌, ◌>>◌, Exec, pure, lift, unwrap, diverge, assert}
use ckb_vm_deterministic_sch.DevUtils.Graph.Foreign.{Rng, Daggy}

-- `rng`, `spawn_dag` and `write_dag`
pub record World (r : Rng) (d : Daggy) : Type 0 where
  pub rng : r.Gen
  pub spawn_dag : d.Graph
  pub write_dag : d.Graph

module _ {r : Rng} {d : Daggy} where
  unfoldable pub on_rng : {A : Type 0} → Exec r.Gen A → Exec (World r d) A
  on_rng m w = let after = m w.rng in (after.0, record w { rng = after.1 })

  unfoldable pub on_spawns : {A : Type 0} → Exec d.Graph A → Exec (World r d) A
  on_spawns m w = let after = m w.spawn_dag in (after.0, record w { spawn_dag = after.1 })

  unfoldable pub on_writes : {A : Type 0} → Exec d.Graph A → Exec (World r d) A
  on_writes m w = let after = m w.write_dag in (after.0, record w { write_dag = after.1 })

  -- `if let Ok(e) = .. { .. break; }`, before the rest of the rounds
  abbrev pub found_or : Option ℕ → Exec (World r d) (Option ℕ) → Exec (World r d) (Option ℕ)
  found_or (some e) again = pure (some e)
  found_or none again = again

  -- `if !updated { break; }`
  abbrev pub if_found :
      Option ℕ → List ℕ → (List ℕ → Exec (World r d) (List ℕ)) → Exec (World r d) (List ℕ)
  if_found (some e) edges again = again (edges ++ e ∷ [])
  if_found none edges again = pure edges

module _ (r : Rng) (d : Daggy) where
  -- `rng.gen_range(0..count)`
  unfoldable pub draw : ℕ → Exec (World r d) ℕ
  draw count = on_rng (r.gen_range 0 count)

  -- `for _ in 1..=spawns`, of the VMs so far; the root is `0` in both graphs
  unfoldable pub spawn_nodes : ℕ → List ℕ → List ℕ → Exec (World r d) (List ℕ)
  spawn_nodes zero writes spawns = pure writes
  spawn_nodes (suc left) writes spawns = do
    write_node ← on_writes d.add_node
    i ← draw (length spawns)
    previous ← unwrap (get_elem? spawns i)
    added ← on_spawns (d.add_child previous)
    spawn_nodes left (writes ++ write_node ∷ []) (spawns ++ added.1 ∷ [])

  -- `while i == first_index`, for so many draws
  unfoldable pub second_index : ℕ → ℕ → ℕ → ℕ → Exec (World r d) ℕ
  second_index zero first count i = if i == first then lift diverge else pure i
  second_index (suc fuel) first count i =
      if i == first then (draw count >>= λ j. second_index fuel first count j) else pure i

  module _ (fuel : ℕ) (nodes : List ℕ) where
    -- `for _ in 0..converging_threshold`: the edge that does not make a cycle, if one is found
    unfoldable pub find_edge : ℕ → Exec (World r d) (Option ℕ)
    find_edge zero = pure none
    find_edge (suc left) = do
      first ← draw (length nodes)
      second ← second_index fuel first (length nodes) first
      first_node ← unwrap (get_elem? nodes first)
      second_node ← unwrap (get_elem? nodes second)
      edge ← on_writes (d.add_edge first_node second_node)
      found_or edge (find_edge left)

    -- `for _ in 1..=writes`, of the edges so far
    unfoldable pub write_edges : ℕ → ℕ → List ℕ → Exec (World r d) (List ℕ)
    write_edges threshold zero edges = pure edges
    write_edges threshold (suc left) edges = do
      edge ← find_edge threshold
      if_found edge edges (write_edges threshold left)

  -- both graphs, and the edges of the second in the order of their addition
  unfoldable pub draw_graphs : ℕ → ℕ → ℕ → ℕ → Exec (World r d) (List ℕ)
  draw_graphs fuel spawns writes threshold = do
    spawn_root ← on_spawns d.add_node
    write_root ← on_writes d.add_node
    assert (spawn_root == 0)
    assert (write_root == 0)
    nodes ← spawn_nodes spawns (write_root ∷ []) (spawn_root ∷ [])
    if ltb 0 spawns then write_edges fuel nodes threshold writes [] else pure []
