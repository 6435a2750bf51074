-- ===== src/DevUtils/Graph/Plan.antt =====
-- The second half of `generate_data_graph`: the plan of the spawns, of the pipes and of the
-- writes, before `generate_data_graph` writes it down.
use ckb_vm_deterministic_sch.Prelude.{◌+◌, ◌*◌, ◌∷◌, ◌++◌, ℕ, suc, not, none, some, List, [], ◌==◌}
use ckb_vm_deterministic_sch.Types.{Bytes}
use ckb_vm_deterministic_sch.Table.{Table, lookup, insert}
use ckb_vm_deterministic_sch.Outcome.{
  Outcome, ok, err, panic, diverge, ◌>>=◌, ◌>>◌, Exec, pure, lift, gets, modify, unwrap, assert,
}
use ckb_vm_deterministic_sch.DevUtils.Graph.Foreign.{Rng, Daggy}
use ckb_vm_deterministic_sch.DevUtils.Graph.Draw.{draw_graphs}
use ckb_vm_deterministic_sch.DevUtils.Graph.Tree.{root_visit, traverse, find_ancestor, pass_down}

pub record SpawnOp : Type 0 where
  pub from : ℕ
  pub child : ℕ
  pub pipes : List ℕ

pub record PipeOp : Type 0 where
  pub vm : ℕ
  pub read_pipe : ℕ
  pub write_pipe : ℕ

pub record WriteOp : Type 0 where
  pub from : ℕ
  pub from_pipe : ℕ
  pub to : ℕ
  pub to_pipe : ℕ
  pub content : Bytes

pub record Plan : Type 0 where
  pub spawns : List SpawnOp
  pub pipes : List PipeOp
  pub writes : List WriteOp

-- What the loop over the writes changes.
pub record Drafts (r : Rng) : Type 0 where
  pub rng : r.Gen
  pub spawn_ops : Table (List ℕ)
  pub pipes_ops : Table (List (ℕ × ℕ))
  pub writes : List WriteOp

module _ (r : Rng) where
  unfoldable pub on_rng : {A : Type 0} → Exec r.Gen A → Exec (Drafts r) A
  on_rng m s = let after = m s.rng in (after.0, record s { rng = after.1 })

  abbrev pub push_write : WriteOp → Drafts r → Drafts r
  push_write w s = record s { writes = s.writes ++ w ∷ [] }

abbrev pub and_rest : {A : Type 0} → A → Outcome (List A) → Outcome (List A)
and_rest a (ok l) = ok (a ∷ l)
and_rest a (err x) = err x
and_rest a panic = panic
and_rest a diverge = diverge

module _ (r : Rng) (d : Daggy) (spawn_dag : d.Graph) where
  -- once the data of the write is drawn
  unfoldable pub place_write : WriteOp → Exec (Drafts r) (Unit {0})
  place_write w = do
    modify (push_write r w)
    ancestor ←
        lift (find_ancestor d spawn_dag (suc (w.from + w.to)) w.from w.to (w.from ∷ []) (w.to ∷ []))
    ops ← gets (λ s. s.spawn_ops)
    passed ← lift (pass_down d spawn_dag w.from ancestor w.from_pipe w.from ops)
    passed_both ← lift (pass_down d spawn_dag w.to ancestor w.to_pipe w.to passed)
    pairs ← gets (λ s. lookup ancestor s.pipes_ops)
    made ← unwrap pairs
    modify (λ s. record s {
      spawn_ops = passed_both;
      pipes_ops = insert ancestor (made ++ (w.to_pipe, w.from_pipe) ∷ []) s.pipes_ops;
    })

  module _ (write_dag : d.Graph) where
    -- `for e in write_edges`: the write of the edge, with its pipes `e * 2` and `e * 2 + 1`
    unfoldable pub plan_write : ℕ → Exec (Drafts r) (Unit {0})
    unfolding place_write
    plan_write e = do
      ends ← unwrap (d.edge_endpoints write_dag e)
      assert (not (ends.0 == ends.1))
      data_len ← on_rng r (r.gen_range 1 1025)
      content ← on_rng r (λ g. let filled = r.fill data_len g in (ok filled.0, filled.1))
      place_write (record {
        from = ends.0;
        from_pipe = e * 2 + 1;
        to = ends.1;
        to_pipe = e * 2;
        content = content;
      })

    unfoldable pub plan_writes : List ℕ → Exec (Drafts r) (Unit {0})
    unfolding plan_write
    plan_writes [] = pure tt
    plan_writes (e ∷ edges) = plan_write e >> plan_writes edges

-- `for e in spawn_edges`
module _ (d : Daggy) (g : d.Graph) (ops : Table (List ℕ)) where
  unfoldable pub spawn_list : List ℕ → Outcome (List SpawnOp)
  spawn_list [] = ok []
  spawn_list (e ∷ edges) = elim (d.edge_endpoints g e) [
    | none ↦ panic
    | some ends ↦ elim (lookup e ops) [
      | none ↦ panic
      | some pipes ↦
          and_rest (record { from = ends.0; child = ends.1; pipes = pipes }) (spawn_list edges)
    ]
  ]

-- `for (reader_pipe_index, writer_pipe_index) in pairs`, and `for (vm_index, pairs) in pipes_ops`
unfoldable pub pipes_of : ℕ → List (ℕ × ℕ) → List PipeOp
pipes_of vm [] = []
pipes_of vm ((reader_pipe, writer_pipe) ∷ pairs) =
    record { vm = vm; read_pipe = reader_pipe; write_pipe = writer_pipe } ∷ pipes_of vm pairs

unfoldable pub pipe_list : Table (List (ℕ × ℕ)) → List PipeOp
unfolding pipes_of
pipe_list [] = []
pipe_list ((vm, pairs) ∷ table) = pipes_of vm pairs ++ pipe_list table

module _ (r : Rng) (d : Daggy) where
  -- after both graphs are drawn
  unfoldable pub plan_graphs : d.Graph → d.Graph → ℕ → List ℕ → Exec (Drafts r) Plan
  plan_graphs spawn_dag write_dag spawns edges = do
    visit ← lift (traverse d spawn_dag (suc spawns) root_visit)
    modify (λ s. record s { spawn_ops = visit.spawn_ops; pipes_ops = visit.pipes_ops })
    plan_writes r d spawn_dag write_dag edges
    s ← gets (λ s. s)
    listed ← lift (spawn_list d spawn_dag s.spawn_ops visit.spawn_edges)
    pure (record { spawns = listed; pipes = pipe_list s.pipes_ops; writes = s.writes })

  -- What `generate_data_graph` gives to the builders, of a seed, the spawns, the writes and the
  -- threshold; `fuel` bounds the draws of one second index.
  unfoldable pub generate_plan : ℕ → ℕ → ℕ → ℕ → ℕ → Outcome Plan
  generate_plan fuel seed spawns writes threshold =
      let drawn =
        draw_graphs r d fuel spawns writes threshold
          (record { rng = r.seed_from_u64 seed; spawn_dag = d.new; write_dag = d.new }) in
      let planned =
        (lift drawn.0 >>= plan_graphs drawn.1.spawn_dag drawn.1.write_dag spawns)
          (record { rng = drawn.1.rng; spawn_ops = []; pipes_ops = []; writes = [] }) in
      planned.0
