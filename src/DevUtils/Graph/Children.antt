-- ===== src/DevUtils/Graph/Children.antt =====
-- The children of a VM, as the traversal of `generate_data_graph` goes through them.
use ckb_vm_deterministic_sch.Prelude.{
  ap, ◌∙◌, sym, ◌∷◌, ◌++◌, ◌≡◌, inl, inr, refl, ℕ, suc, true, List, [], some, if◌then◌else◌,
  get_elem?, arith, mem, Option-cases, subst, map, reverse,
}
use mathlib.Core.List.{reverse-cons, map-append, append-nil, append_assoc}
use ckb_vm_deterministic_sch.Prelude.Distinct.{IsDistinct, mem-reverse, reverse-IsDistinct}
use ckb_vm_deterministic_sch.Table.{lookup, insert, keys}
use ckb_vm_deterministic_sch.Table.Laws.{lookup-insert, mem-keys}
use ckb_vm_deterministic_sch.DevUtils.Graph.Foreign.{Daggy, IsDaggy}
use ckb_vm_deterministic_sch.DevUtils.Graph.Tree.{Visit, visit_children}
use ckb_vm_deterministic_sch.DevUtils.Graph.Above.{IsTree}

abbrev pub node_of : ℕ × ℕ → ℕ
node_of (e, n) = n

keys-append : (xs ys : List (ℕ × ℕ)) → keys (xs ++ ys) ≡ keys xs ++ keys ys
unfolding keys
keys-append [] ys = refl
keys-append ((e, n) ∷ xs) ys = ap (λ l. e ∷ l) (keys-append xs ys)

keys-reverse : (xs : List (ℕ × ℕ)) → keys (reverse xs) ≡ reverse (keys xs)
unfolding keys
keys-reverse [] = refl
keys-reverse ((e, n) ∷ xs) =
    rw
      (
        reverse-cons (e, n) xs,
        reverse-cons e (keys xs),
        keys-append (reverse xs) ((e, n) ∷ []),
        keys-reverse xs,
      )
      refl

map-reverse : {A : Type 0} (f : A → ℕ) (xs : List A) → map f (reverse xs) ≡ reverse (map f xs)
map-reverse f [] = refl
map-reverse f (x ∷ xs) =
    rw
      (
        reverse-cons x xs,
        reverse-cons (f x) (map f xs),
        map-append f (reverse xs) (x ∷ []),
        map-reverse f xs,
      )
      refl

-- Each edge of the list leads to the VM after its number.
abbrev Leads : List (ℕ × ℕ) → Type 0
Leads xs = map node_of xs ≡ map suc (keys xs)

lookup-Leads :
    (xs : List (ℕ × ℕ))
    → IsDistinct (keys xs)
    → ((e n : ℕ) → lookup e xs ≡ some n → n ≡ suc e)
    → Leads xs
unfolding keys lookup
lookup-Leads [] distinct h = refl
lookup-Leads ((e, n) ∷ xs) distinct h =
    let first : n ≡ suc e = h e n (ground arith) in
    let rest =
      lookup-Leads xs distinct.1
        (λ e' n' found. h e' n' (ground (arith, mem-keys e xs, distinct.0))) in
    ground (arith, first, rest)

Leads-reverse : (xs : List (ℕ × ℕ)) → Leads xs → Leads (reverse xs)
Leads-reverse xs h =
    map-reverse node_of xs
    ∙ ap reverse h
    ∙ sym (map-reverse suc (keys xs))
    ∙ ap (map suc) (sym (keys-reverse xs))

-- What the children of `node` are listed as.
pub record AreChildren (es : List (ℕ × ℕ)) (node : ℕ) (xs : List (ℕ × ℕ)) : Type 0 where
  pub distinct : IsDistinct (keys xs)
  pub leads : map node_of xs ≡ map suc (keys xs)
  pub theirs : (e : ℕ) → mem e (keys xs) ≡ true → (n : ℕ) × (get_elem? es e ≡ some (node, n))
  pub all : (e n : ℕ) → get_elem? es e ≡ some (node, n) → mem e (keys xs) ≡ true

module _ {d : Daggy} (laws : IsDaggy d) (g : d.Graph) (tree : IsTree (laws.edges g)) where
  pub children_lem : (node : ℕ) → AreChildren (laws.edges g) node (reverse (d.children g node))
  children_lem node =
      let l = d.children g node in
      record {
        distinct =
            subst IsDistinct (sym (keys-reverse l))
              (reverse-IsDistinct (keys l) (laws.children-IsDistinct g node));
        leads = Leads-reverse l (
            lookup-Leads l (laws.children-IsDistinct g node)
              (λ e n found. (tree.grows e node n ((laws.children_iff g node e n).0 found)).0));
        theirs = λ e i. elim (Option-cases (lookup e l)) [
          | inl missing ↦
              absurd (ground (arith, keys-reverse l, mem-reverse e (keys l), mem-keys e l))
          | inr (n, found) ↦ (n, (laws.children_iff g node e n).0 found)
        ];
        all = λ e n h. ground (
          arith,
          keys-reverse l,
          mem-reverse e (keys l),
          mem-keys e l,
          (laws.children_iff g node e n).1 h,
        );
      }

-- What the loop over the children does.
pub visit_children_lem :
    (xs : List (ℕ × ℕ)) (v : Visit)
    → let v' = visit_children xs v in
      (v'.spawn_edges ≡ v.spawn_edges ++ keys xs)
      × (v'.processing ≡ v.processing ++ map node_of xs)
      × (v'.pipes_ops ≡ v.pipes_ops)
      × ((k : ℕ)
          → lookup k v'.spawn_ops ≡ (if mem k (keys xs) then some [] else lookup k v.spawn_ops))
unfolding visit_children keys
visit_children_lem [] v = (sym (append-nil _), sym (append-nil _), refl, λ k. refl)
visit_children_lem ((e, n) ∷ xs) v =
    let started = record v {
      spawn_ops = insert e [] v.spawn_ops;
      spawn_edges = v.spawn_edges ++ e ∷ [];
      processing = v.processing ++ n ∷ [];
    } in
    let rest = visit_children_lem xs started in
    (
      rest.0 ∙ append_assoc v.spawn_edges (e ∷ []) (keys xs),
      rest.1 ∙ append_assoc v.processing (n ∷ []) (map node_of xs),
      rest.2,
      λ k. ground (arith, rest.3 k, lookup-insert e k [] v.spawn_ops),
    )
