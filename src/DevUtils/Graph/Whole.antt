-- ===== src/DevUtils/Graph/Whole.antt =====
-- `generate_data_graph` as a whole: it returns a plan, which can be run.
use ckb_vm_deterministic_sch.Prelude.{
  ◌∙◌, sym, ◌∷◌, ◌^◌, ◌<◌, ◌≡◌, refl, ℕ, suc, true, List, [], length, arith, mem, subst,
  get_elem?-lt, get_elem?_of_lt,
}
use ckb_vm_deterministic_sch.Prelude.Distinct.{IsDistinct}
use ckb_vm_deterministic_sch.Outcome.{Outcome, ok, err, panic, diverge}
use ckb_vm_deterministic_sch.Outcome.Ensures.{
  Ends-bind, Ends-pure, Ends-bind_gets, Ends-bind_modify,
}
use ckb_vm_deterministic_sch.DevUtils.Graph.Foreign.{Rng, IsRng, Daggy, IsDaggy, Gives, index_end}
use ckb_vm_deterministic_sch.DevUtils.Graph.Plan.{
  Plan, SpawnOp, Drafts, plan_graphs, generate_plan, pipe_list,
}
use ckb_vm_deterministic_sch.DevUtils.Graph.Tree.{Visit, traverse, root_visit}
use ckb_vm_deterministic_sch.DevUtils.Graph.Above.{IsTree}
use ckb_vm_deterministic_sch.DevUtils.Graph.Visits.{IsTraversed, traverse_lem, length-listed}
use ckb_vm_deterministic_sch.DevUtils.Graph.Down.{Handed, stays, over}
use ckb_vm_deterministic_sch.DevUtils.Graph.Drawn.{IsConnected, draw_graphs-Gives}
use ckb_vm_deterministic_sch.DevUtils.Graph.Owned.{
  AreEnds, Owns, makes, receives, IsServed, IsBootable, IsExclusive,
}
use ckb_vm_deterministic_sch.DevUtils.Graph.Drafted.{IsDrafted}
use ckb_vm_deterministic_sch.DevUtils.Graph.Made.{Holds}
use ckb_vm_deterministic_sch.DevUtils.Graph.Planned.{Gives-bind_lift, plan_writes-Gives}
use ckb_vm_deterministic_sch.DevUtils.Graph.Listed.{
  AreSpawns, spawn_list_lem, AreSpawns-length, spawn-edge, edge-spawn, Starts-Boots,
  pipe_list-Among, edge_pipes-IsDistinct,
}

-- What the traversal and the loop over the writes have left, and the spawns that are listed from it.
module _ {r : Rng} {es : List (ℕ × ℕ)} (tree : IsTree es) (v : Visit) (traversed : IsTraversed es v)
    (edges : List ℕ) (s : Drafts r) (drafted : IsDrafted es edges s) (spawns : List SpawnOp)
    (listed : AreSpawns es s.spawn_ops v.spawn_edges spawns) where
  abbrev plan : Plan
  plan = record { spawns = spawns; pipes = pipe_list s.pipes_ops; writes = s.writes }

  Handed-Owns :
      {pipe n m : ℕ} → Handed es s.spawn_ops pipe n m → Owns plan pipe m → Owns plan pipe n
  Handed-Owns stays h = h
  Handed-Owns {pipe} (over {m} e p a edge passed) h =
      let (pipes, there, i) = passed in
      let found =
        edge-spawn es s.spawn_ops v.spawn_edges spawns e listed
          ((traversed.listed_iff e).1 (get_elem?-lt es e edge)) in
      let op = found.0 in
      let from_eq : p ≡ op.from = ground (arith, edge, found.2.0) in
      let child_eq : op.child ≡ m = ground (arith, edge, found.2.0) in
      let pipes_eq : pipes ≡ op.pipes = ground (arith, there, found.2.1) in
      Handed-Owns a (
        receives op found.1 child_eq (subst (λ l. mem pipe l ≡ true) pipes_eq i)
          (subst (Owns plan pipe) from_eq h))

  Holds-Owns : (pipe n : ℕ) → Holds es s.spawn_ops s.pipes_ops pipe n → Owns plan pipe n
  Holds-Owns pipe n h =
      Handed-Owns h.handed
        (makes _ (pipe_list-Among s.pipes_ops h.ancestor h.pair h.made_there) refl h.in_pair)

  plan-IsServed : IsServed (length es) plan
  plan-IsServed = record {
    ends = λ w i. (drafted.supplied w i).ends;
    contents = λ w i. (drafted.supplied w i).sized;
    writers = λ w i. Holds-Owns w.from_pipe w.from (drafted.supplied w i).writer;
    readers = λ w i. Holds-Owns w.to_pipe w.to (drafted.supplied w i).reader;
    pairs = λ w i.
        let h = drafted.supplied w i in
        (_, pipe_list-Among s.pipes_ops h.maker (w.to_pipe, w.from_pipe) h.made, refl, refl);
    passers = λ op pipe i has.
        let (e, (edge, there)) = spawn-edge es s.spawn_ops v.spawn_edges spawns op listed i in
        Holds-Owns pipe op.from
          (drafted.passers e op.from op.child pipe edge (op.pipes, there, has));
  }

  plan-IsBootable : IsBootable (length es) plan
  plan-IsBootable = record {
    boots = Starts-Boots es s.spawn_ops (0 ∷ []) v.spawn_edges spawns traversed.starts listed;
    count = AreSpawns-length es s.spawn_ops v.spawn_edges spawns listed ∙ length-listed traversed;
    all = λ n l.
        let found =
          edge-spawn es s.spawn_ops v.spawn_edges spawns n listed ((traversed.listed_iff n).1 l) in
        let grown = tree.grows n found.0.from found.0.child found.2.0 in
        (found.0, found.1, grown.0);
  }

  plan-IsExclusive : IsDistinct edges → IsExclusive plan
  plan-IsExclusive distinct = record {
    distinct = subst IsDistinct (sym drafted.ids) (edge_pipes-IsDistinct edges distinct);
    count = drafted.count;
  }

-- Before the first write.
traversed-IsDrafted :
    {r : Rng} {es : List (ℕ × ℕ)} (v : Visit) (g : r.Gen)
    → IsTraversed es v
    → IsDrafted {r = r} es []
        (record { rng = g; spawn_ops = v.spawn_ops; pipes_ops = v.pipes_ops; writes = [] })
traversed-IsDrafted v g t = record {
  listed = λ e l. ground (arith, t.edge_ops e, (t.listed_iff e).1 l);
  vms = λ n l. ground (arith, t.node_ops n l);
  sorted = t.sorted;
  passers = λ e p m pipe edge (pipes, there, i). absurd (ground (arith, t.edge_ops e, there, i));
  supplied = λ w i. absurd i;
  ids = refl;
  count = t.empty;
}

-- A plan that can be run: each of its three sides.
pub record IsSound (vms : ℕ) (plan : Plan) : Type 0 where
  pub served : IsServed vms plan
  pub bootable : IsBootable vms plan
  pub exclusive : IsExclusive plan

Gives-value :
    {S A : Type 0} {Q : A → S → Type 0} (r : Outcome A × S)
    → Gives Q r
    → (a : A) × (r.0 ≡ ok a) × Q a r.1
Gives-value (ok a, s) h = (a, refl, h.at)
Gives-value (err x, s) h = absurd h.at
Gives-value (panic, s) h = absurd h.at
Gives-value (diverge, s) h = absurd h.at

module _ {r : Rng} {d : Daggy} {patience : ℕ} (rng : IsRng r patience) (laws : IsDaggy d) where
  plan_graphs-Gives :
      (spawn_dag write_dag : d.Graph) (spawns : ℕ) (edges : List ℕ) (g : r.Gen)
      → IsConnected rng laws spawns edges
          (record { rng = g; spawn_dag = spawn_dag; write_dag = write_dag })
      → Gives
          (λ plan _. IsSound spawns plan)
          (plan_graphs r d spawn_dag write_dag spawns edges
            (record { rng = g; spawn_ops = []; pipes_ops = []; writes = [] }))
  unfolding plan_graphs
  plan_graphs-Gives spawn_dag write_dag spawns edges g h =
      let es = laws.edges spawn_dag in
      let (v, returned, traversed) = traverse_lem laws spawn_dag h.tree in
      let returned' =
        subst (λ n. traverse d spawn_dag (suc n) root_visit ≡ ok v) h.edge_count returned in
      Gives-bind_lift _ _ _ v returned' (
        Ends-bind_modify _ _ _ (
          Ends-bind _ _ _
            (plan_writes-Gives rng laws spawn_dag write_dag h.tree edges [] _
              (λ e i.
                let (a, b, edge, here) = h.ends e i in
                (a, b, edge, subst (λ n. AreEnds n a b) (sym h.edge_count) here))
              (traversed-IsDrafted v g traversed))
            (λ _ s drafted. Ends-bind_gets _ _ s (
              let (ops, listed_eq, listed) =
                spawn_list_lem laws spawn_dag s.spawn_ops v.spawn_edges (λ e i.
                  let inside = (traversed.listed_iff e).0 i in
                  (get_elem?_of_lt (laws.edges spawn_dag) e inside, drafted.listed e inside)) in
              Gives-bind_lift _ _ s ops listed_eq (
                Ends-pure _ s (record {
                  served =
                      subst
                        (λ n. IsServed n (record {
                          spawns = ops;
                          pipes = pipe_list s.pipes_ops;
                          writes = s.writes;
                        }))
                        h.edge_count (plan-IsServed h.tree v traversed edges s drafted ops listed);
                  bootable =
                      subst
                        (λ n. IsBootable n (record {
                          spawns = ops;
                          pipes = pipe_list s.pipes_ops;
                          writes = s.writes;
                        }))
                        h.edge_count
                        (plan-IsBootable h.tree v traversed edges s drafted ops listed);
                  exclusive =
                      plan-IsExclusive h.tree v traversed edges s drafted ops listed h.distinct;
                }))))))

  -- The arguments that the graphs have room for: fewer VMs than the largest index, and any `u32` of writes.
  module _ (seed spawns writes threshold : ℕ) (room_spawns : spawns < index_end)
      (room_writes : writes < 2 ^ 32) where
    abbrev Generates : (Plan → Type 0) → Type 0
    Generates P =
        (plan : Plan) × (generate_plan r d patience seed spawns writes threshold ≡ ok plan) × P plan

    generate_plan-IsSound : Generates (IsSound spawns)
    unfolding generate_plan
    generate_plan-IsSound =
        let (edges, drawn, connected) = Gives-value _ (
          draw_graphs-Gives rng laws spawns writes threshold
            (record { rng = r.seed_from_u64 seed; spawn_dag = d.new; write_dag = d.new }) refl refl
            room_spawns room_writes) in
        let planned =
          Gives-value _
            (Gives-bind_lift _ _ _ edges drawn (plan_graphs-Gives _ _ spawns edges _ connected)) in
        planned

    -- A plan is returned: no assertion fails, no `unwrap` panics and every loop ends. Each of its writes has its data,
    -- 1 to 1024 bytes, and is between two different VMs of the tree. Both ends of each write have their end of a pipe that one VM makes for it: the VM makes it itself, or it is passed
    -- down to it, spawn by spawn, from the VM that makes it. Whoever passes a pipe on has it.
    pub generate_plan-IsServed :
        (plan : Plan) × (generate_plan r d patience seed spawns writes threshold ≡ ok plan)
        × IsServed spawns plan
    generate_plan-IsServed =
        let (plan, returned, sound) = generate_plan-IsSound in (plan, returned, sound.served)

    -- A plan is returned that spawns each of the VMs but the root exactly once, and each by a VM that
    -- runs by then: the root, or one that an earlier spawn of the list has started.
    pub generate_plan-IsBootable :
        (plan : Plan) × (generate_plan r d patience seed spawns writes threshold ≡ ok plan)
        × IsBootable spawns plan
    generate_plan-IsBootable =
        let (plan, returned, sound) = generate_plan-IsSound in (plan, returned, sound.bootable)

    -- A plan is returned in which no pipe end is used twice, by two writes or by both sides of one, and
    -- in which as many pipes are made as there are writes.
    pub generate_plan-IsExclusive :
        (plan : Plan) × (generate_plan r d patience seed spawns writes threshold ≡ ok plan)
        × IsExclusive plan
    generate_plan-IsExclusive =
        let (plan, returned, sound) = generate_plan-IsSound in (plan, returned, sound.exclusive)
