-- ===== src/Tests/Written.antt =====
-- A generated graph as bytes.
use ckb_vm_deterministic_sch.Prelude.{◌≡◌, refl, [], ◌∷◌, arith, true}
use ckb_vm_deterministic_sch.Outcome.{ok, ◌>>=◌, assert, modify, gets, lift, pure, unwrap}
use ckb_vm_deterministic_sch.Table.{lookup, insert}
use ckb_vm_deterministic_sch.DevUtils.Graph.Draw
use ckb_vm_deterministic_sch.DevUtils.Graph.Plan
use ckb_vm_deterministic_sch.DevUtils.Graph.Draw.{
  draw_graphs, on_spawns, on_writes, spawn_nodes, draw, write_edges, find_edge, second_index,
}
use ckb_vm_deterministic_sch.DevUtils.Graph.Tree.{
  find_ancestor, pass_down, traverse, visit_node, visit_children,
}
use ckb_vm_deterministic_sch.DevUtils.Graph.Plan.{
  Plan, generate_plan, plan_graphs, plan_writes, place_write, plan_write, spawn_list, pipe_list,
}
use ckb_vm_deterministic_sch.Tests.Crates.{counter, links_dag, zeros}
use ckb_vm_deterministic_sch.Types.{Bytes}
use ckb_vm_deterministic_sch.DevUtils.Layout.Build.{
  offsets_from, expected_parts, pack, pack_all, build_fixvec, build_table, build_dynvec,
}
use ckb_vm_deterministic_sch.DevUtils.Layout.Written.{Yields}
use ckb_vm_deterministic_sch.DevUtils.Dag.{
  expected_data, expected_spawn, expected_write, build_bytes, build_pipe_indices, verify_bytes,
  verify_pipe_indices, verify_data, build_spawn, build_pipe, build_write, build_spawns, build_pipes,
  build_writes,
}
use ckb_vm_deterministic_sch.DevUtils.Dag
use ckb_vm_deterministic_sch.DevUtils.Index.{build_vm_index, build_pipe_index}
use ckb_vm_deterministic_sch.DevUtils.Graph.Written.{generate_data_graph, show_data}
use ckb_vm_deterministic_sch.DevUtils.Graph.Shown.{IsSmall, shown, generate_data_graph-show_data}
use ckb_vm_deterministic_sch.Tests.Dag.{le, le-IsCodec}

-- The root spawns VM 1, passes it the read end of pipe 0, and writes 11 bytes.
abbrev planned : Plan
planned = record {
  spawns = record { from = 0; child = 1; pipes = 0 ∷ [] } ∷ [];
  pipes = record { vm = 0; read_pipe = 0; write_pipe = 1 } ∷ [];
  writes = record { from = 0; from_pipe = 1; to = 1; to_pipe = 0; content = zeros 11 } ∷ [];
}

made : generate_plan counter links_dag 2 7 1 1 4 ≡ ok planned
unfolding generate_plan plan_graphs draw_graphs ◌>>=◌ on_spawns on_writes assert modify gets lift
    pure unwrap spawn_nodes draw Draw.on_rng write_edges find_edge second_index traverse visit_node
    visit_children plan_writes Plan.on_rng place_write plan_write find_ancestor pass_down lookup
    insert spawn_list pipe_list
made = refl

planned-IsSmall : IsSmall le planned
unfolding verify_bytes verify_pipe_indices build_bytes build_pipe_indices expected_write
    expected_spawn expected_data expected_parts build_spawn build_pipe build_write build_spawns
    build_pipes build_writes build_table build_dynvec build_fixvec pack pack_all offsets_from
    build_vm_index build_pipe_index Dag.build_vm_index Dag.build_pipe_index
planned-IsSmall = record {
  pipes = ((omega arith, omega arith, omega arith), tt);
  spawns = ((omega arith, omega arith, (omega arith, tt), omega arith, omega arith), tt);
  writes = ((omega arith, omega arith, omega arith, omega arith, omega arith, omega arith), tt);
  spawns_fit = omega arith;
  pipes_fit = omega arith;
  writes_fit = omega arith;
  fits = omega arith;
}

generate_data_graph-show_data_example :
    (built : Bytes) × (generate_data_graph le counter links_dag 2 7 1 1 4 ≡ ok built)
    × Yields (verify_data le true built) tt
    × Yields (show_data le built) (shown planned)
generate_data_graph-show_data_example =
    generate_data_graph-show_data le le-IsCodec counter links_dag 2 7 1 1 4 planned true made
      planned-IsSmall
