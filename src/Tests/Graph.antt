-- ===== src/Tests/Graph.antt =====
-- Generated graphs, over the crates of Crates.
use ckb_vm_deterministic_sch.Prelude.{
  ◌≡◌, ◌≤◌, some, refl, ℕ, zero, suc, List, [], ◌∷◌, map, get_elem?, arith,
}
use ckb_vm_deterministic_sch.Outcome.{Outcome, ok, ◌>>=◌, assert, modify, gets, lift, pure, unwrap}
use ckb_vm_deterministic_sch.Table.{lookup, insert}
use ckb_vm_deterministic_sch.DevUtils.Graph.Draw
use ckb_vm_deterministic_sch.DevUtils.Graph.Plan
use ckb_vm_deterministic_sch.DevUtils.Graph.Draw.{
  draw_graphs, on_spawns, on_writes, spawn_nodes, draw, write_edges, find_edge, second_index,
}
use ckb_vm_deterministic_sch.DevUtils.Graph.Tree.{
  find_ancestor, pass_down, traverse, visit_node, visit_children,
}
use ckb_vm_deterministic_sch.DevUtils.Graph.Plan.{
  Plan, generate_plan, plan_graphs, plan_writes, place_write, plan_write, spawn_list,
}
use ckb_vm_deterministic_sch.DevUtils.Graph.Owned.{IsServed, IsBootable, IsExclusive}
use ckb_vm_deterministic_sch.DevUtils.Graph.Above.{IsTree}
use ckb_vm_deterministic_sch.DevUtils.Graph.Way.{IsLowest}
use ckb_vm_deterministic_sch.DevUtils.Graph.Ancestor.{find_ancestor_lem}
use ckb_vm_deterministic_sch.DevUtils.Graph.Whole.{
  generate_plan-IsServed, generate_plan-IsBootable, generate_plan-IsExclusive,
}
use ckb_vm_deterministic_sch.Tests.Crates.{Links, counter, counter-IsRng, links_dag, links-IsDaggy}

-- Five VMs below the root, and three writes.
generated : Outcome Plan
unfolding generate_plan plan_graphs draw_graphs
generated = generate_plan counter links_dag 2 7 5 3 4

abbrev ends_of : Outcome Plan → List (ℕ × ℕ)
ends_of (ok plan) = map (λ w. (w.from, w.to)) plan.writes
ends_of _ = []

abbrev parents_of : Outcome Plan → List (ℕ × ℕ)
parents_of (ok plan) = map (λ s. (s.from, s.child)) plan.spawns
parents_of _ = []

plan-generated :
    (ends_of generated ≡ (0, 1) ∷ (2, 3) ∷ (4, 5) ∷ [])
    × (parents_of generated ≡ (0, 3) ∷ (0, 2) ∷ (0, 1) ∷ (2, 4) ∷ (1, 5) ∷ [])
unfolding generated ◌>>=◌ on_spawns on_writes assert modify gets lift pure unwrap spawn_nodes draw
    Draw.on_rng write_edges find_edge second_index traverse visit_node visit_children plan_writes
    Plan.on_rng place_write plan_write find_ancestor pass_down lookup insert spawn_list
plan-generated = (refl, refl)

generate_plan-IsServed_example :
    (plan : Plan) × (generate_plan counter links_dag 2 7 5 3 4 ≡ ok plan) × IsServed 5 plan
generate_plan-IsServed_example =
    generate_plan-IsServed counter-IsRng links-IsDaggy 7 5 3 4 (omega arith) (omega arith)

generate_plan-IsBootable_example :
    (plan : Plan) × (generate_plan counter links_dag 2 7 5 3 4 ≡ ok plan) × IsBootable 5 plan
generate_plan-IsBootable_example =
    generate_plan-IsBootable counter-IsRng links-IsDaggy 7 5 3 4 (omega arith) (omega arith)

generate_plan-IsExclusive_example :
    (plan : Plan) × (generate_plan counter links_dag 2 7 5 3 4 ≡ ok plan) × IsExclusive plan
generate_plan-IsExclusive_example =
    generate_plan-IsExclusive counter-IsRng links-IsDaggy 7 5 3 4 (omega arith) (omega arith)

-- The tree of these VMs.
abbrev five : Links
five = record { count = 6; links = (0, 1) ∷ (0, 2) ∷ (0, 3) ∷ (2, 4) ∷ (1, 5) ∷ [] }

five-grows : (e p c : ℕ) → get_elem? five.links e ≡ some (p, c) → (c ≡ suc e) × (p ≤ e)
five-grows zero p c h = ground arith
five-grows (suc zero) p c h = ground arith
five-grows (suc (suc zero)) p c h = ground arith
five-grows (suc (suc (suc zero))) p c h = ground arith
five-grows (suc (suc (suc (suc zero)))) p c h = ground arith
five-grows (suc (suc (suc (suc (suc e))))) p c h = cc

five-IsTree : IsTree (links-IsDaggy.edges five)
unfolding links-IsDaggy
five-IsTree = record { grows = five-grows }

-- Of VMs 4 and 5, below VMs 2 and 1.
find_ancestor_lem_example :
    (c : ℕ) × (find_ancestor links_dag five 10 4 5 (4 ∷ []) (5 ∷ []) ≡ ok c)
    × IsLowest (links-IsDaggy.edges five) 4 5 c
unfolding links-IsDaggy
find_ancestor_lem_example =
    find_ancestor_lem links-IsDaggy five five-IsTree 4 5 (omega arith) (omega arith) (omega arith)
