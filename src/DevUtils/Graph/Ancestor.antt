-- ===== src/DevUtils/Graph/Ancestor.antt =====
-- The search for a common ancestor in `generate_data_graph`: it ends, and finds the lowest one.
use ckb_vm_deterministic_sch.Prelude.{
  ◌+◌, ◌∷◌, ◌≤◌, ◌<◌, ◌≡◌, ◌≢◌, inl, inr, refl, ℕ, zero, suc, true, List, [], length, arith, mem,
  Bool-cases, subst,
}
use ckb_vm_deterministic_sch.Outcome.{Outcome, ok}
use ckb_vm_deterministic_sch.DevUtils.Graph.Foreign.{Daggy, IsDaggy}
use ckb_vm_deterministic_sch.DevUtils.Graph.Tree.{find_ancestor}
use ckb_vm_deterministic_sch.DevUtils.Graph.Above.{IsTree, parents_lem}
use ckb_vm_deterministic_sch.DevUtils.Graph.Way.{
  IsLowest, IsWay, AreDisjoint, grown, AreDisjoint-sym, AreDisjoint-up_left, AreDisjoint-up_right,
  IsLowest-sym, IsWay-start, IsWay-up, IsLowest-met,
}

module _ {d : Daggy} (laws : IsDaggy d) (g : d.Graph) (tree : IsTree (laws.edges g)) where
  abbrev pub FindsLowest : ℕ → ℕ → Outcome ℕ → Type 0
  FindsLowest writer reader r = (c : ℕ) × (r ≡ ok c) × IsLowest (laws.edges g) writer reader c

  find_ancestor_within :
      (writer reader fuel a b : ℕ) (set_a set_b : List ℕ)
      → IsWay (laws.edges g) writer a set_a
      → IsWay (laws.edges g) reader b set_b
      → AreDisjoint set_a set_b
      → a ≤ length (laws.edges g)
      → b ≤ length (laws.edges g)
      → a + b < fuel
      → FindsLowest writer reader (find_ancestor d g fuel a b set_a set_b)
  unfolding find_ancestor
  find_ancestor_within writer reader zero a b set_a set_b wa wb disjoint ha hb enough =
      absurd (omega arith)
  find_ancestor_within writer reader (suc fuel) a b set_a set_b wa wb disjoint ha hb enough =
      elim (parents_lem laws g tree a ha) [
        | inl (none_a, a_root) ↦ elim (parents_lem laws g tree b hb) [
          | inl (none_b, b_root) ↦ absurd (
              ground (
                arith,
                disjoint 0,
                subst (λ k. mem k set_a ≡ true) a_root wa.ends,
                subst (λ k. mem k set_b ≡ true) b_root wb.ends,
              ))
          | inr (e, p, one_b, edge) ↦
              let wb' = IsWay-up tree e p edge wb in
              let lower = tree.grows e p b edge in
              rw (none_a, one_b)
                (elim (Bool-cases (mem p set_a)) [
                  | inl yes_b ↦ rw yes_b (
                    p,
                    refl,
                    IsLowest-sym (
                        IsLowest-met set_b set_a wb' wa (AreDisjoint-sym set_a set_b disjoint)
                          (λ x i. inl i) yes_b),
                  )
                  | inr no_b ↦ rw no_b (
                      find_ancestor_within writer reader fuel a p set_a (p ∷ set_b) wa wb'
                        (AreDisjoint-up_right p set_a set_b disjoint no_b) ha (omega arith)
                        (omega arith))
                ])
        ]
        | inr (e, p, one_a, edge) ↦ elim (parents_lem laws g tree b hb) [
          | inl (none_b, b_root) ↦
              let wa' = IsWay-up tree e p edge wa in
              let lower = tree.grows e p a edge in
              rw (one_a, none_b)
                (elim (Bool-cases (mem p set_b)) [
                  | inl yes_a ↦
                      rw yes_a
                        (p, refl, IsLowest-met set_a set_b wa' wb disjoint (λ x i. inl i) yes_a)
                  | inr no_a ↦ rw no_a (
                      find_ancestor_within writer reader fuel p b (p ∷ set_a) set_b wa' wb
                        (AreDisjoint-up_left p set_a set_b disjoint no_a) (omega arith) hb
                        (omega arith))
                ])
          | inr (e', p', one_b, edge') ↦
              let wa' = IsWay-up tree e p edge wa in
              let wb' = IsWay-up tree e' p' edge' wb in
              let lower = tree.grows e p a edge in
              let lower' = tree.grows e' p' b edge' in
              rw (one_a, one_b)
                (elim (Bool-cases (mem p (p' ∷ set_b))) [
                  | inl yes_a ↦
                      rw yes_a
                        (p, refl, IsLowest-met set_a set_b wa' wb' disjoint (grown p' set_b) yes_a)
                  | inr no_a ↦ elim (Bool-cases (mem p' (p ∷ set_a))) [
                    | inl yes_b ↦
                        rw (no_a, yes_b)
                          (
                            p',
                            refl,
                            IsLowest-sym (
                                IsLowest-met set_b set_a wb' wa'
                                  (AreDisjoint-sym set_a set_b disjoint) (grown p set_a) yes_b),
                          )
                    | inr no_b ↦
                        rw (no_a, no_b)
                          (find_ancestor_within writer reader fuel p p' (p ∷ set_a) (p' ∷ set_b) wa'
                            wb'
                            (AreDisjoint-up_left p set_a (p' ∷ set_b)
                              (AreDisjoint-up_right p' set_a set_b disjoint (ground arith)) no_a)
                            (omega arith) (omega arith) (omega arith))
                  ]
                ])
        ]
      ]

  -- Started at two different VMs, the search returns a common ancestor of theirs which is below every
  -- other one, in no more rounds than the sum of their numbers and one.
  pub find_ancestor_lem :
      (writer reader : ℕ)
      → writer ≢ reader
      → writer ≤ length (laws.edges g)
      → reader ≤ length (laws.edges g)
      → FindsLowest writer reader
          (find_ancestor d g (suc (writer + reader)) writer reader (writer ∷ []) (reader ∷ []))
  find_ancestor_lem writer reader differ hw hr =
      find_ancestor_within writer reader (suc (writer + reader)) writer reader (writer ∷ [])
        (reader ∷ []) (IsWay-start writer) (IsWay-start reader) (λ x i. ground (arith, differ)) hw
        hr (omega arith)
