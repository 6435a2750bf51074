-- ===== src/DevUtils/Graph/Tree.antt =====
-- How `generate_data_graph` walks the tree of VMs: the traversal that lists its edges, the search for
-- a common ancestor, and the way down from there, along which a pipe is passed.
use ckb_vm_deterministic_sch.Prelude.{
  ◌∷◌, ◌++◌, ℕ, zero, suc, Bool, ◌&&◌, ◌||◌, Option, none, some, List, [], ◌==◌, if◌then◌else◌,
  length, mem, reverse,
}
use ckb_vm_deterministic_sch.Table.{Table, lookup, insert}
use ckb_vm_deterministic_sch.Outcome.{Outcome, ok, panic, diverge}
use ckb_vm_deterministic_sch.DevUtils.Graph.Foreign.{Daggy}

-- The pipes that each edge of the tree passes down, those that each VM makes, the edges in the order
-- of the visit, and the VMs to visit.
pub record Visit : Type 0 where
  pub spawn_ops : Table (List ℕ)
  pub pipes_ops : Table (List (ℕ × ℕ))
  pub spawn_edges : List ℕ
  pub processing : List ℕ

-- Before the traversal.
abbrev pub root_visit : Visit
root_visit = record { spawn_ops = []; pipes_ops = []; spawn_edges = []; processing = 0 ∷ [] }

-- `for (e, n) in children.into_iter().rev()`, of the reversed list
unfoldable pub visit_children : List (ℕ × ℕ) → Visit → Visit
visit_children [] v = v
visit_children ((e, n) ∷ children) v = visit_children children (record v {
  spawn_ops = insert e [] v.spawn_ops;
  spawn_edges = v.spawn_edges ++ e ∷ [];
  processing = v.processing ++ n ∷ [];
})

unfoldable pub visit_node : List (ℕ × ℕ) → ℕ → List ℕ → Visit → Visit
unfolding visit_children
visit_node children node rest v =
    visit_children (reverse children)
      (record v { pipes_ops = insert node [] v.pipes_ops; processing = rest })

-- an only parent: whether there is one, the node after it, and the path after it
abbrev pub is_one : List (ℕ × ℕ) → Bool
is_one l = length l == 1

abbrev pub is_none : List (ℕ × ℕ) → Bool
is_none l = length l == 0

abbrev pub stepped : List (ℕ × ℕ) → ℕ → ℕ
stepped ((_, parent) ∷ []) a = parent
stepped _ a = a

abbrev pub with_parent : List (ℕ × ℕ) → List ℕ → List ℕ
with_parent ((_, parent) ∷ []) set = parent ∷ set
with_parent _ set = set

-- `if parents.len() == 1 { .. if set.contains(&parent) { break parent; } }`
abbrev pub met : List (ℕ × ℕ) → List ℕ → Option ℕ
met ((_, parent) ∷ []) set = if mem parent set then some parent else none
met _ set = none

abbrev pub or_else : Option ℕ → Outcome ℕ → Outcome ℕ
or_else (some a) rest = ok a
or_else none rest = rest

module _ (d : Daggy) (g : d.Graph) where
  -- `while !processing.is_empty()`, for so many nodes
  unfoldable pub traverse : ℕ → Visit → Outcome Visit
  unfolding visit_node
  traverse zero v = elim v.processing [ [] ↦ ok v | _ ∷ _ ↦ diverge ]
  traverse (suc fuel) v = elim v.processing [
    | [] ↦ ok v
    | node ∷ rest ↦ traverse fuel (visit_node (d.children g node) node rest v)
  ]

  -- the `loop` behind `ancestor`, for so many rounds
  unfoldable pub find_ancestor : ℕ → ℕ → ℕ → List ℕ → List ℕ → Outcome ℕ
  find_ancestor zero a b set_a set_b = diverge
  find_ancestor (suc fuel) a b set_a set_b =
      let parents_a = d.parents g a in
      let parents_b = d.parents g b in
      let set_a' = with_parent parents_a set_a in
      let set_b' = with_parent parents_b set_b in
      let rest = find_ancestor fuel (stepped parents_a a) (stepped parents_b b) set_a' set_b' in
      if (is_one parents_a && is_one parents_b)
        || (is_none parents_a && is_one parents_b)
        || (is_one parents_a && is_none parents_b)
      then or_else (met parents_a set_b') (or_else (met parents_b set_a') rest)
      else panic

  -- `while a != ancestor`, for so many steps
  unfoldable pub pass_down : ℕ → ℕ → ℕ → ℕ → Table (List ℕ) → Outcome (Table (List ℕ))
  pass_down zero ancestor pipe a ops = if a == ancestor then ok ops else diverge
  pass_down (suc fuel) ancestor pipe a ops =
      if a == ancestor then ok ops else elim (d.parents g a) [
        | (edge, parent) ∷ [] ↦ elim (lookup edge ops) [
          | some pipes ↦ pass_down fuel ancestor pipe parent (insert edge (pipes ++ pipe ∷ []) ops)
          | none ↦ panic
        ]
        | _ ↦ panic
      ]
