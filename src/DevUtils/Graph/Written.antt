-- ===== src/DevUtils/Graph/Written.antt =====
-- A generated plan as bytes, the end of `generate_data_graph` of src/dev_utils/mod.rs, and what
-- examples/dag_generator.rs reads from them.
use ckb_vm_deterministic_sch.Prelude.{ℕ, List, [], ◌∷◌, map, length}
use ckb_vm_deterministic_sch.Types.{Bytes}
use ckb_vm_deterministic_sch.Outcome.{Outcome, ok, err, panic, diverge}
use ckb_vm_deterministic_sch.DevUtils.Layout.{Numbers, Check, fine, ◌>>=◌}
use ckb_vm_deterministic_sch.DevUtils.Index.{
  build_vm_index, build_pipe_index, vm_index_to_u64, pipe_index_to_u64,
}
use ckb_vm_deterministic_sch.DevUtils.Dag.{
  PipeBuilder, WriteBuilder, SpawnBuilder, build_pipe_indices, build_bytes, build_data, vm_of_pipe,
  read_pipe_of_pipe, write_pipe_of_pipe, from_of_write, from_pipe_of_write, to_of_write,
  to_pipe_of_write, data_of_write, bytes_raw_data, from_of_spawn, child_of_spawn, pipes_of_spawn,
  spawns_of_data, pipes_of_data, writes_of_data,
}
use ckb_vm_deterministic_sch.DevUtils.Dag.Iterate.{
  pipe_indices_iter, pipes_iter, writes_iter, spawns_iter,
}
use ckb_vm_deterministic_sch.DevUtils.Dag.Trips.{Graph, graph_data}
use ckb_vm_deterministic_sch.DevUtils.Graph.Foreign.{Rng, Daggy}
use ckb_vm_deterministic_sch.DevUtils.Graph.Plan.{Plan, SpawnOp, PipeOp, WriteOp, generate_plan}

-- `Byte::new`
abbrev pub byte : ℕ → Bytes
byte b = b ∷ []

abbrev pub pipe_builder : PipeOp → PipeBuilder
pipe_builder o = record {
  vm = build_vm_index o.vm;
  read_pipe = build_pipe_index o.read_pipe;
  write_pipe = build_pipe_index o.write_pipe;
}

-- What is shown of a write.
pub record WriteLine : Type 0 where
  pub from : ℕ
  pub from_pipe : ℕ
  pub to : ℕ
  pub to_pipe : ℕ
  pub data_length : ℕ

-- What is shown of a graph.
pub record Shown : Type 0 where
  pub pipes : List PipeOp
  pub spawns : List SpawnOp
  pub writes : List WriteLine

-- a loop over the items of a vector
unfoldable pub read_each : {A : Type 0} → (Bytes → Check A) → List Bytes → Check (List A)
read_each read [] = fine []
read_each read (x ∷ l) = read x >>= λ a. read_each read l >>= λ rest. fine (a ∷ rest)

module _ (num : Numbers) where
  abbrev pub spawn_builder : SpawnOp → SpawnBuilder
  spawn_builder s = record {
    from = build_vm_index s.from;
    child = build_vm_index s.child;
    pipes = build_pipe_indices num (map build_pipe_index s.pipes);
  }

  abbrev pub write_builder : WriteOp → WriteBuilder
  write_builder w = record {
    from = build_vm_index w.from;
    from_pipe = build_pipe_index w.from_pipe;
    to = build_vm_index w.to;
    to_pipe = build_pipe_index w.to_pipe;
    data_bytes = build_bytes num (map byte w.content);
  }

  abbrev pub plan_graph : Plan → Graph
  plan_graph plan = record {
    spawns = map spawn_builder plan.spawns;
    pipes = map pipe_builder plan.pipes;
    writes = map write_builder plan.writes;
  }

  unfoldable pub write_plan : Plan → Bytes
  write_plan plan = build_data num (graph_data num (plan_graph plan))

  -- `Ok(dag::DataBuilder::default() … .build())`, after all that comes before it
  abbrev pub finished : Outcome Plan → Outcome Bytes
  finished (ok plan) = ok (write_plan plan)
  finished (err x) = err x
  finished panic = panic
  finished diverge = diverge

  unfoldable pub generate_data_graph : (r : Rng) (d : Daggy) → ℕ → ℕ → ℕ → ℕ → ℕ → Outcome Bytes
  generate_data_graph r d fuel seed spawns writes threshold =
      finished (generate_plan r d fuel seed spawns writes threshold)

  unfoldable pub show_pipe : Bytes → Check PipeOp
  show_pipe pipe = (vm_of_pipe num pipe >>= vm_index_to_u64) >>= λ vm.
      (read_pipe_of_pipe num pipe >>= pipe_index_to_u64) >>= λ read_pipe.
      (write_pipe_of_pipe num pipe >>= pipe_index_to_u64) >>= λ write_pipe.
      fine (record { vm = vm; read_pipe = read_pipe; write_pipe = write_pipe })

  unfoldable pub show_spawn : Bytes → Check SpawnOp
  show_spawn spawn = (from_of_spawn num spawn >>= vm_index_to_u64) >>= λ from.
      (child_of_spawn num spawn >>= vm_index_to_u64) >>= λ child.
      (pipes_of_spawn num spawn >>= pipe_indices_iter num >>= read_each pipe_index_to_u64)
      >>= λ pipes. fine (record { from = from; child = child; pipes = pipes })

  unfoldable pub show_write : Bytes → Check WriteLine
  show_write write = (from_of_write num write >>= vm_index_to_u64) >>= λ from.
      (from_pipe_of_write num write >>= pipe_index_to_u64) >>= λ from_pipe.
      (to_of_write num write >>= vm_index_to_u64) >>= λ to.
      (to_pipe_of_write num write >>= pipe_index_to_u64) >>= λ to_pipe.
      (data_of_write num write >>= bytes_raw_data num) >>= λ raw. fine (record {
        from = from;
        from_pipe = from_pipe;
        to = to;
        to_pipe = to_pipe;
        data_length = length raw;
      })

  -- `// Visualize data`
  unfoldable pub show_data : Bytes → Check Shown
  show_data built =
      (pipes_of_data num built >>= pipes_iter num >>= read_each show_pipe) >>= λ pipes.
      (spawns_of_data num built >>= spawns_iter num >>= read_each show_spawn) >>= λ spawns.
      (writes_of_data num built >>= writes_iter num >>= read_each show_write) >>= λ writes.
      fine (record { pipes = pipes; spawns = spawns; writes = writes })
