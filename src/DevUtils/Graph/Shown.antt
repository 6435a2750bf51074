-- ===== src/DevUtils/Graph/Shown.antt =====
-- What examples/dag_generator.rs shows of the graph that src/dev_utils/mod.rs writes from a plan.
use ckb_vm_deterministic_sch.Prelude.{
  ℕ, ◌^◌, ◌<◌, ◌≡◌, refl, ap, Bool, List, [], ◌∷◌, map, length-map, arith,
}
use ckb_vm_deterministic_sch.Types.{Bytes}
use ckb_vm_deterministic_sch.DevUtils.Layout.{Numbers}
use ckb_vm_deterministic_sch.DevUtils.Layout.Build.{expected_parts}
use ckb_vm_deterministic_sch.DevUtils.Layout.Written.{IsCodec, Yields, Yields-bind}
use ckb_vm_deterministic_sch.DevUtils.Layout.Trips.{build_fixvec-verify}
use ckb_vm_deterministic_sch.DevUtils.Index.{build_pipe_index, length-build_vm_index}
use ckb_vm_deterministic_sch.DevUtils.Dag.{
  build_pipe_indices, build_bytes, build_pipe, build_write, build_spawn, build_spawns, build_pipes,
  build_writes, verify_data, verify_bytes, verify_pipe_indices, expected_data,
}
use ckb_vm_deterministic_sch.DevUtils.Dag.Iterate.{dynvec_iter-built}
use ckb_vm_deterministic_sch.DevUtils.Dag.Trips.{
  All, IsGraph, IsSpawn, IsPipe, IsWrite, graph_data, build_data-verify, build_data-fields,
}
use ckb_vm_deterministic_sch.Outcome.{ok}
use ckb_vm_deterministic_sch.DevUtils.Graph.Foreign.{Rng, Daggy}
use ckb_vm_deterministic_sch.DevUtils.Graph.Plan.{generate_plan, Plan}
use ckb_vm_deterministic_sch.DevUtils.Graph.Written.{
  byte, pipe_builder, spawn_builder, write_builder, plan_graph, write_plan, Shown, show_pipe,
  show_spawn, show_write, show_data, finished, generate_data_graph,
}
use ckb_vm_deterministic_sch.DevUtils.Graph.Reads.{
  IsSmallPipe, IsSmallSpawn, IsSmallWrite, write_line, read_each-same, read_each-map, Yields-chain,
  AllSized-indices, AllSized-bytes, show_pipe-built, show_spawn-built, show_write-built,
}

-- Ids and parts are small, and each vector and the whole fit in a `u32`.
pub record IsSmall (num : Numbers) (plan : Plan) : Type 0 where
  pub pipes : All IsSmallPipe plan.pipes
  pub spawns : All (IsSmallSpawn num) plan.spawns
  pub writes : All (IsSmallWrite num) plan.writes
  pub spawns_fit :
      expected_parts (map (build_spawn num) (map (spawn_builder num) plan.spawns)) < 2 ^ 32
  pub pipes_fit : expected_parts (map (build_pipe num) (map pipe_builder plan.pipes)) < 2 ^ 32
  pub writes_fit :
      expected_parts (map (build_write num) (map (write_builder num) plan.writes)) < 2 ^ 32
  pub fits : expected_data (graph_data num (plan_graph num plan)) < 2 ^ 32

abbrev pub shown : Plan → Shown
shown plan = record {
  pipes = plan.pipes;
  spawns = plan.spawns;
  writes = map write_line plan.writes;
}

All-map :
    {A B : Type 0} {P : A → Type 0} (Q : B → Type 0) (f : A → B) (l : List A)
    → All P l
    → ((a : A) → P a → Q (f a))
    → All Q (map f l)
All-map Q f [] all h = tt
All-map Q f (a ∷ l) all h = (h a all.0, All-map Q f l all.1 h)

module _ (num : Numbers) (codec : IsCodec num) where
  write_plan-IsGraph :
      (c : Bool) (plan : Plan) → IsSmall num plan → IsGraph num c (plan_graph num plan)
  unfolding verify_bytes verify_pipe_indices build_bytes build_pipe_indices
  write_plan-IsGraph c plan h = record {
    spawns = All-map (IsSpawn num c) (spawn_builder num) plan.spawns h.spawns (λ s small. (
      (length-build_vm_index s.from).0,
      (length-build_vm_index s.child).0,
      build_fixvec-verify num codec 8 (map build_pipe_index s.pipes) (AllSized-indices s.pipes)
          (omega (arith, small.3, length-map build_pipe_index s.pipes)),
      small.4,
    ));
    pipes = All-map IsPipe pipe_builder plan.pipes h.pipes (λ o small. (
      (length-build_vm_index o.vm).0,
      (length-build_vm_index o.read_pipe).1,
      (length-build_vm_index o.write_pipe).1,
    ));
    writes = All-map (IsWrite num c) (write_builder num) plan.writes h.writes (λ w small. (
      (length-build_vm_index w.from).0,
      (length-build_vm_index w.from_pipe).1,
      (length-build_vm_index w.to).0,
      (length-build_vm_index w.to_pipe).1,
      build_fixvec-verify num codec 1 (map byte w.content) (AllSized-bytes w.content)
          (omega (arith, small.4, length-map byte w.content)),
      small.5,
    ));
    spawns_fit = h.spawns_fit;
    pipes_fit = h.pipes_fit;
    writes_fit = h.writes_fit;
    fits = h.fits;
  }

  write_plan-show_data :
      (c : Bool) (plan : Plan)
      → IsSmall num plan
      → Yields (verify_data num c (write_plan num plan)) tt
        × Yields (show_data num (write_plan num plan)) (shown plan)
  unfolding write_plan show_data build_spawns build_pipes build_writes
  write_plan-show_data c plan h =
      let g = plan_graph num plan in
      let d = graph_data num g in
      let parts = build_data-fields num codec d h.fits in
      (
        build_data-verify num codec c g (write_plan-IsGraph c plan h),
        Yields-bind _ _ plan.pipes
            (Yields-chain _ _ _ d.pipes plan.pipes parts.1 (
              Yields-bind _ _ _ (dynvec_iter-built num codec _ h.pipes_fit).0 (
                read_each-same _ (show_pipe num) pipe_builder (build_pipe num) plan.pipes
                  (show_pipe-built num codec) h.pipes)))
            (Yields-bind _ _ plan.spawns
              (Yields-chain _ _ _ d.spawns plan.spawns parts.0 (
                Yields-bind _ _ _ (dynvec_iter-built num codec _ h.spawns_fit).2 (
                  read_each-same _ (show_spawn num) (spawn_builder num) (build_spawn num)
                    plan.spawns (show_spawn-built num codec) h.spawns)))
              (Yields-bind _ _ (map write_line plan.writes)
                (Yields-chain _ _ _ d.writes _ parts.2 (
                  Yields-bind _ _ _ (dynvec_iter-built num codec _ h.writes_fit).1 (
                    read_each-map _ (show_write num) (write_builder num) (build_write num)
                      write_line plan.writes (show_write-built num codec) h.writes)))
                (record { at = refl }))),
      )

  -- If a plan is generated whose ids are below 2^64 and which is so small that each of its parts
  -- and the whole fit in a u32, the graph that generate_data_graph returns passes the check of
  -- its type, in either mode, and what is shown of it is the plan: each pipe, each spawn with
  -- the pipes that it passes on, and each write with the length of its data, all in their order.
  -- Numbers of four bytes are assumed to come back from their bytes.
  pub generate_data_graph-show_data :
      (r : Rng) (d : Daggy) (fuel seed spawns writes threshold : ℕ) (plan : Plan) (c : Bool)
      → generate_plan r d fuel seed spawns writes threshold ≡ ok plan
      → IsSmall num plan
      → (built : Bytes) × (generate_data_graph num r d fuel seed spawns writes threshold ≡ ok built)
        × Yields (verify_data num c built) tt
        × Yields (show_data num built) (shown plan)
  unfolding generate_data_graph
  generate_data_graph-show_data r d fuel seed spawns writes threshold plan c made h =
      let read = write_plan-show_data c plan h in
      (write_plan num plan, ap (finished num) made, read.0, read.1)
