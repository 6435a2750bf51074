-- ===== src/DevUtils/Graph/Visiting.antt =====
-- What holds during the traversal of `generate_data_graph`, and one round of it.
use ckb_vm_deterministic_sch.Prelude.{
  ap, ◌∙◌, sym, ◌∷◌, ◌++◌, ◌<◌, ◌≡◌, ◌⊎◌, inl, inr, ℕ, suc, true, false, List, [], some, none, ◌==◌,
  if◌then◌else◌, length, get_elem?, arith, mem, Bool-cases, subst, map, reverse, get_elem?-lt,
}
use mathlib.Core.List.{map-append, append_assoc}
use ckb_vm_deterministic_sch.Prelude.Distinct.{IsDistinct, mem-append, append-IsDistinct}
use ckb_vm_deterministic_sch.Table.{lookup, insert, keys}
use ckb_vm_deterministic_sch.Table.Laws.{lookup-insert, IsSorted, insert-IsSorted}
use ckb_vm_deterministic_sch.DevUtils.Graph.Tree.{Visit, visit_node}
use ckb_vm_deterministic_sch.DevUtils.Graph.Plan.{pipe_list}
use ckb_vm_deterministic_sch.DevUtils.Graph.Above.{IsTree}
use ckb_vm_deterministic_sch.DevUtils.Graph.Children.{node_of, AreChildren, visit_children_lem}
use ckb_vm_deterministic_sch.DevUtils.Graph.Starts.{
  Starts, mem_zero, map-suc-IsDistinct, not-mem_of_distinct, Starts-append,
  length-pipe_list-insert-none,
}

-- After the VMs of `seen`, in this order.
pub record IsVisiting (es : List (ℕ × ℕ)) (seen : List ℕ) (v : Visit) : Type 0 where
  pub listed : seen ++ v.processing ≡ 0 ∷ map suc v.spawn_edges
  pub distinct : IsDistinct v.spawn_edges
  pub inside : (e : ℕ) → mem e v.spawn_edges ≡ true → e < length es
  pub closed : (e p c : ℕ) → get_elem? es e ≡ some (p, c) → mem p seen ≡ mem e v.spawn_edges
  pub starts : Starts es (0 ∷ []) v.spawn_edges
  pub edge_ops : (e : ℕ) → lookup e v.spawn_ops ≡ (if mem e v.spawn_edges then some [] else none)
  pub node_ops : (n : ℕ) → lookup n v.pipes_ops ≡ (if mem n seen then some [] else none)
  pub sorted : IsSorted v.pipes_ops
  pub no_pipes : length (pipe_list v.pipes_ops) ≡ 0

module _ {es : List (ℕ × ℕ)} (tree : IsTree es) {seen : List ℕ} {v : Visit}
    (h : IsVisiting es seen v) (node : ℕ) (rest : List ℕ) (next : v.processing ≡ node ∷ rest) where
  listed-next : seen ++ node ∷ rest ≡ 0 ∷ map suc v.spawn_edges
  listed-next = subst (λ l. seen ++ l ≡ 0 ∷ map suc v.spawn_edges) next h.listed

  not-seen : mem node seen ≡ false
  not-seen =
      let all_distinct : IsDistinct (0 ∷ map suc v.spawn_edges) =
        (mem_zero v.spawn_edges, map-suc-IsDistinct v.spawn_edges h.distinct) in
      not-mem_of_distinct seen node rest (subst IsDistinct (sym listed-next) all_distinct)

  known : (mem node (0 ∷ []) ≡ true) ⊎ (mem node (map suc v.spawn_edges) ≡ true)
  known =
      let found : mem node (seen ++ v.processing) ≡ true =
        ground (arith, mem-append node seen v.processing, next) in
      let found' = subst (λ l. mem node l ≡ true) h.listed found in
      elim (Bool-cases (node == 0)) [ inl y ↦ inl (ground arith) | inr n ↦ inr (ground arith) ]

  module _ (xs : List (ℕ × ℕ)) (c : AreChildren es node xs) where
    new-edge : (e : ℕ) → mem e (keys xs) ≡ true → mem e v.spawn_edges ≡ false
    new-edge e i =
        let theirs = c.theirs e i in ground (arith, not-seen, h.closed e node theirs.0 theirs.1)

    closed-step :
        (e p n : ℕ)
        → get_elem? es e ≡ some (p, n)
        → mem p (seen ++ node ∷ []) ≡ mem e (v.spawn_edges ++ keys xs)
    closed-step e p n found = elim (Bool-cases (p == node)) [
      | inl y ↦
          let same : p ≡ node = ground arith in
          let i = c.all e n (subst (λ k. get_elem? es e ≡ some (k, n)) same found) in
          ground (arith, mem-append p seen (node ∷ []), mem-append e v.spawn_edges (keys xs), i)
      | inr d ↦ elim (Bool-cases (mem e (keys xs))) [
        | inl i ↦ let theirs = c.theirs e i in absurd (ground (arith, found, theirs.1))
        | inr j ↦ ground (
          arith,
          mem-append p seen (node ∷ []),
          mem-append e v.spawn_edges (keys xs),
          h.closed e p n found,
        )
      ]
    ]

    listed-step :
        (seen ++ node ∷ []) ++ (rest ++ map node_of xs) ≡ 0 ∷ map suc (v.spawn_edges ++ keys xs)
    listed-step =
        append_assoc seen (node ∷ []) (rest ++ map node_of xs)
        ∙ sym (append_assoc seen (node ∷ rest) (map node_of xs))
        ∙ ap (λ l. l ++ map node_of xs) listed-next
        ∙ ap (λ l. 0 ∷ map suc v.spawn_edges ++ l) c.leads
        ∙ ap (λ l. 0 ∷ l) (sym (map-append suc v.spawn_edges (keys xs)))

    inside-step : (e : ℕ) → mem e (v.spawn_edges ++ keys xs) ≡ true → e < length es
    inside-step e i = elim (Bool-cases (mem e (keys xs))) [
      | inl j ↦ get_elem?-lt es e (c.theirs e j).1
      | inr j ↦ h.inside e (ground (arith, mem-append e v.spawn_edges (keys xs)))
    ]

    pub visit_node-IsVisiting :
        (children : List (ℕ × ℕ))
        → xs ≡ reverse children
        → IsVisiting es (seen ++ node ∷ []) (visit_node children node rest v)
    unfolding visit_node
    visit_node-IsVisiting children backwards =
        let popped = record v { pipes_ops = insert node [] v.pipes_ops; processing = rest } in
        rw (sym backwards) (
          let done = visit_children_lem xs popped in
          record {
            listed =
                ap (λ l. (seen ++ node ∷ []) ++ l) done.1
                ∙ listed-step
                ∙ ap (λ l. 0 ∷ map suc l) (sym done.0);
            distinct = subst IsDistinct (sym done.0) (
                append-IsDistinct v.spawn_edges (keys xs) h.distinct c.distinct (λ k i.
                  elim (Bool-cases (mem k (keys xs))) [
                    | inl j ↦ absurd (ground (arith, new-edge k j))
                    | inr j ↦ j
                  ]));
            inside = λ e i. inside-step e (subst (λ l. mem e l ≡ true) done.0 i);
            closed = λ e p n found. closed-step e p n found ∙ ap (mem e) (sym done.0);
            starts = subst (Starts es (0 ∷ [])) (sym done.0) (
                Starts-append es node (0 ∷ []) v.spawn_edges (keys xs) h.starts known c.distinct
                  (λ e i.
                    let theirs = c.theirs e i in
                    let grown = tree.grows e node theirs.0 theirs.1 in
                    (ground (arith, theirs.1, grown), ground arith, new-edge e i)));
            edge_ops = λ e. ground (
              arith,
              done.3 e,
              h.edge_ops e,
              ap (mem e) done.0,
              mem-append e v.spawn_edges (keys xs),
            );
            node_ops = λ n. ground (
              arith,
              ap (lookup n) done.2,
              lookup-insert node n [] v.pipes_ops,
              h.node_ops n,
              mem-append n seen (node ∷ []),
            );
            sorted = subst IsSorted (sym done.2) (insert-IsSorted node [] v.pipes_ops h.sorted);
            no_pipes =
                ap (λ m. length (pipe_list m)) done.2
                ∙ length-pipe_list-insert-none node v.pipes_ops
                    (ground (arith, h.node_ops node, not-seen))
                ∙ h.no_pipes;
          })
