-- ===== src/DevUtils/Graph/Visits.antt =====
-- The traversal of `generate_data_graph`: in no more rounds than there are VMs it has listed every edge
-- of the tree once, and each after the one that leads to its parent.
use ckb_vm_deterministic_sch.Prelude.{
  ap, ◌∙◌, sym, ◌+◌, ◌∷◌, ◌++◌, ◌≤◌, ◌<◌, ◌≡◌, ◌⊎◌, ◌↔◌, inl, inr, refl, ℕ, zero, suc, true, List,
  [], some, none, if◌then◌else◌, length, length-append, length-map, arith, mem, Bool-cases, subst,
  map, reverse, get_elem?_of_lt,
}
use mathlib.Core.List.{append-nil}
use ckb_vm_deterministic_sch.Prelude.Distinct.{IsDistinct, length-le_of_distinct}
use ckb_vm_deterministic_sch.Table.{lookup}
use ckb_vm_deterministic_sch.Table.Laws.{IsSorted}
use ckb_vm_deterministic_sch.Outcome.{Outcome, ok}
use ckb_vm_deterministic_sch.DevUtils.Graph.Foreign.{Daggy, IsDaggy}
use ckb_vm_deterministic_sch.DevUtils.Graph.Tree.{Visit, visit_node, traverse, root_visit}
use ckb_vm_deterministic_sch.DevUtils.Graph.Plan.{pipe_list}
use ckb_vm_deterministic_sch.DevUtils.Graph.Above.{IsTree}
use ckb_vm_deterministic_sch.DevUtils.Graph.Children.{children_lem}
use ckb_vm_deterministic_sch.DevUtils.Graph.Starts.{Starts, mem-map-suc}
use ckb_vm_deterministic_sch.DevUtils.Graph.Visiting.{IsVisiting, visit_node-IsVisiting}

below : ℕ → List ℕ
below zero = []
below (suc n) = n ∷ below n

length-below : (n : ℕ) → length (below n) ≡ n
unfolding below
length-below zero = refl
length-below (suc n) = ap suc (length-below n)

mem-below : (n k : ℕ) → k < n → mem k (below n) ≡ true
unfolding below
mem-below zero k h = absurd (omega arith)
mem-below (suc n) k h = ground (arith, mem-below n k)

List-cases : (l : List ℕ) → (l ≡ []) ⊎ ((x : ℕ) × (xs : List ℕ) × (l ≡ x ∷ xs))
List-cases [] = inl refl
List-cases (x ∷ xs) = inr (x, xs, refl)

-- The VMs that are found are no more than there are.
length-found :
    {es : List (ℕ × ℕ)} {seen : List ℕ} {v : Visit}
    → IsVisiting es seen v
    → length seen + length v.processing ≤ suc (length es)
length-found {es} {seen} {v} h =
    let few =
      length-le_of_distinct v.spawn_edges (below (length es)) h.distinct
        (λ k i. mem-below (length es) k (h.inside k i)) in
    omega (
      arith,
      few,
      length-below (length es),
      ap length h.listed,
      length-append seen v.processing,
      length-map suc v.spawn_edges,
    )

IsVisiting-root : {es : List (ℕ × ℕ)} → IsVisiting es [] root_visit
unfolding lookup pipe_list
IsVisiting-root = record {
  listed = refl;
  distinct = tt;
  inside = λ e i. cc;
  closed = λ e p c h. refl;
  starts = tt;
  edge_ops = λ e. refl;
  node_ops = λ n. refl;
  sorted = tt;
  no_pipes = refl;
}

-- Every edge is listed, once and behind that of its parent, and every edge and every VM has its entry.
pub record IsTraversed (es : List (ℕ × ℕ)) (v : Visit) : Type 0 where
  pub distinct : IsDistinct v.spawn_edges
  pub listed_iff : (e : ℕ) → (mem e v.spawn_edges ≡ true) ↔ (e < length es)
  pub starts : Starts es (0 ∷ []) v.spawn_edges
  pub edge_ops : (e : ℕ) → lookup e v.spawn_ops ≡ (if mem e v.spawn_edges then some [] else none)
  pub node_ops : (n : ℕ) → n ≤ length es → lookup n v.pipes_ops ≡ some []
  pub sorted : IsSorted v.pipes_ops
  pub empty : length (pipe_list v.pipes_ops) ≡ 0
  pub no_pipes : (n : ℕ) (l : List (ℕ × ℕ)) → lookup n v.pipes_ops ≡ some l → l ≡ []

module _ {es : List (ℕ × ℕ)} (tree : IsTree es) {seen : List ℕ} {v : Visit}
    (h : IsVisiting es seen v) (done : v.processing ≡ []) where
  seen-eq : seen ≡ 0 ∷ map suc v.spawn_edges
  seen-eq = sym (append-nil seen) ∙ subst (λ l. seen ++ l ≡ 0 ∷ map suc v.spawn_edges) done h.listed

  all-seen : (k n : ℕ) → n ≤ k → n ≤ length es → mem n seen ≡ true
  all-seen k zero b l = subst (λ l. mem 0 l ≡ true) (sym seen-eq) refl
  all-seen zero (suc n) b l = absurd (omega arith)
  all-seen (suc k) (suc n) b l =
      let found = get_elem?_of_lt es n (omega arith) in
      let grown = tree.grows n found.0.0 found.0.1 found.1 in
      let parent = all-seen k found.0.0 (omega arith) (omega arith) in
      let closed = h.closed n found.0.0 found.0.1 found.1 in
      ground (arith, parent, closed, ap (mem (suc n)) seen-eq, mem-map-suc n v.spawn_edges)

  IsVisiting-IsTraversed : IsTraversed es v
  IsVisiting-IsTraversed = record {
    distinct = h.distinct;
    listed_iff = λ e. (
      h.inside e,
      λ l.
          ground (
            arith,
            all-seen (suc e) (suc e),
            ap (mem (suc e)) seen-eq,
            mem-map-suc e v.spawn_edges,
          ),
    );
    starts = h.starts;
    edge_ops = h.edge_ops;
    node_ops = λ n l. ground (arith, h.node_ops n, all-seen n n);
    sorted = h.sorted;
    empty = h.no_pipes;
    no_pipes = λ n l found. ground (arith, h.node_ops n, found);
  }

mem-below_iff : (n k : ℕ) → mem k (below n) ≡ true → k < n
unfolding below
mem-below_iff zero k h = cc
mem-below_iff (suc n) k h = ground (arith, mem-below_iff n k)

below-IsDistinct : (n : ℕ) → IsDistinct (below n)
unfolding below
below-IsDistinct zero = tt
below-IsDistinct (suc n) = (
  elim (Bool-cases (mem n (below n))) [
    | inl y ↦ absurd (omega (arith, mem-below_iff n n y))
    | inr m ↦ m
  ],
  below-IsDistinct n,
)

pub length-listed :
    {es : List (ℕ × ℕ)} {v : Visit} → IsTraversed es v → length v.spawn_edges ≡ length es
length-listed {es} {v} t =
    let few =
      length-le_of_distinct v.spawn_edges (below (length es)) t.distinct
        (λ k i. mem-below (length es) k ((t.listed_iff k).0 i)) in
    let many =
      length-le_of_distinct (below (length es)) v.spawn_edges (below-IsDistinct (length es))
        (λ k i. (t.listed_iff k).1 (mem-below_iff (length es) k i)) in
    omega (arith, few, many, length-below (length es))

module _ {d : Daggy} (laws : IsDaggy d) (g : d.Graph) (tree : IsTree (laws.edges g)) where
  abbrev pub Traverses : Outcome Visit → Type 0
  Traverses r = (v : Visit) × (r ≡ ok v) × IsTraversed (laws.edges g) v

  traverse-next :
      (fuel : ℕ) (v : Visit) (node : ℕ) (rest : List ℕ)
      → v.processing ≡ node ∷ rest
      → traverse d g (suc fuel) v ≡ traverse d g fuel (visit_node (d.children g node) node rest v)
  unfolding traverse
  traverse-next fuel v node rest e = ground (arith, e)

  traverse_within :
      (fuel : ℕ) (seen : List ℕ) (v : Visit)
      → IsVisiting (laws.edges g) seen v
      → suc (length (laws.edges g)) ≤ fuel + length seen
      → Traverses (traverse d g fuel v)
  unfolding traverse
  traverse_within zero seen v h enough = elim (List-cases v.processing) [
    | inl e ↦ (v, rw e refl, IsVisiting-IsTraversed tree h e)
    | inr (node, rest, e) ↦ absurd (omega (arith, length-found h, ap length e))
  ]
  traverse_within (suc fuel) seen v h enough = elim (List-cases v.processing) [
    | inl e ↦ (v, rw e refl, IsVisiting-IsTraversed tree h e)
    | inr (node, rest, e) ↦
        let again =
          traverse_within fuel (seen ++ node ∷ []) (visit_node (d.children g node) node rest v)
            (visit_node-IsVisiting tree h node rest e (reverse (d.children g node))
              (children_lem laws g tree node) (d.children g node) refl)
            (omega (arith, length-append seen (node ∷ []))) in
        (again.0, traverse-next fuel v node rest e ∙ again.1, again.2)
  ]

  -- The traversal ends in a round for each VM.
  pub traverse_lem : Traverses (traverse d g (suc (length (laws.edges g))) root_visit)
  traverse_lem =
      traverse_within (suc (length (laws.edges g))) [] root_visit IsVisiting-root (omega arith)
