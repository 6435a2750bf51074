-- ===== src/DevUtils/Graph/Down.antt =====
-- The way of a pipe down the tree, from the ancestor that makes it to a VM: the two loops of
-- `generate_data_graph` that update `spawn_ops`.
use ckb_vm_deterministic_sch.Prelude.{
  ◌∷◌, ◌++◌, ◌≤◌, ◌<◌, ◌≡◌, ◌⊎◌, inl, inr, refl, ℕ, zero, suc, true, List, [], some, ◌==◌, length,
  get_elem?, arith, mem, Bool-cases, Option-cases, subst, get_elem?-lt,
}
use ckb_vm_deterministic_sch.Prelude.Distinct.{mem-append}
use ckb_vm_deterministic_sch.Table.{Table, lookup, insert, contains}
use ckb_vm_deterministic_sch.Table.Laws.{lookup-insert}
use ckb_vm_deterministic_sch.Outcome.{Outcome, ok}
use ckb_vm_deterministic_sch.DevUtils.Graph.Foreign.{Daggy, IsDaggy}
use ckb_vm_deterministic_sch.DevUtils.Graph.Tree.{pass_down}
use ckb_vm_deterministic_sch.DevUtils.Graph.Above.{
  IsTree, Above, Above-split, Above-le, parents_lem,
}

-- Edge `e` passes the pipe down.
abbrev pub Passes : Table (List ℕ) → ℕ → ℕ → Type 0
Passes ops e pipe = (pipes : List ℕ) × (lookup e ops ≡ some pipes) × (mem pipe pipes ≡ true)

-- Each edge on the way down from VM `m` to VM `n` passes the pipe.
pub data Handed (es : List (ℕ × ℕ)) (ops : Table (List ℕ)) (pipe n : ℕ) : ℕ → Type 0 where
  stays : Handed es ops pipe n n
  over :
      {m : ℕ} (e p : ℕ)
      → Handed es ops pipe n m
      → get_elem? es e ≡ some (p, m)
      → Passes ops e pipe
      → Handed es ops pipe n p

module _ {es : List (ℕ × ℕ)} {ops : Table (List ℕ)} {pipe : ℕ} where
  Handed-trans :
      {n m k : ℕ} → Handed es ops pipe n m → Handed es ops pipe m k → Handed es ops pipe n k
  Handed-trans a stays = a
  Handed-trans a (over e p b h passed) = over e p (Handed-trans a b) h passed

  pub Handed-mono :
      {n m : ℕ} {ops' : Table (List ℕ)}
      → ((e q : ℕ) → Passes ops e q → Passes ops' e q)
      → Handed es ops pipe n m
      → Handed es ops' pipe n m
  Handed-mono grow stays = stays
  Handed-mono grow (over e p a h passed) = over e p (Handed-mono grow a) h (grow e pipe passed)

-- What `ops'` has after the pipe was passed down from `ancestor` to `a`: all that `ops` had, the pipe on
-- every edge of the way, and nothing else.
pub record IsPassed (es : List (ℕ × ℕ)) (ops ops' : Table (List ℕ)) (ancestor pipe a : ℕ)
    : Type 0 where
  pub kept : (e : ℕ) → contains e ops ≡ true → contains e ops' ≡ true
  pub grown : (e q : ℕ) → Passes ops e q → Passes ops' e q
  pub handed : Handed es ops' pipe a ancestor
  pub only :
      (e q : ℕ)
      → Passes ops' e q
      → Passes ops e q
        ⊎ ((q ≡ pipe) × ((p m : ℕ) → get_elem? es e ≡ some (p, m) → Handed es ops' pipe p ancestor))

-- One more pipe on one edge.
module _ (ops : Table (List ℕ)) (e pipe : ℕ) (pipes : List ℕ)
    (there : lookup e ops ≡ some pipes) where
  abbrev with_pipe : Table (List ℕ)
  with_pipe = insert e (pipes ++ pipe ∷ []) ops

  with_pipe-kept : (k : ℕ) → contains k ops ≡ true → contains k with_pipe ≡ true
  with_pipe-kept k h = ground (arith, lookup-insert e k (pipes ++ pipe ∷ []) ops)

  with_pipe-grown : (k q : ℕ) → Passes ops k q → Passes with_pipe k q
  with_pipe-grown k q (l, found, i) = elim (Bool-cases (k == e)) [
    | inr n ↦ (l, ground (arith, lookup-insert e k (pipes ++ pipe ∷ []) ops), i)
    | inl y ↦ (
      pipes ++ pipe ∷ [],
      ground (arith, lookup-insert e k (pipes ++ pipe ∷ []) ops),
      ground (arith, mem-append q pipes (pipe ∷ [])),
    )
  ]

  with_pipe-there : Passes with_pipe e pipe
  with_pipe-there = (
    pipes ++ pipe ∷ [],
    ground (arith, lookup-insert e e (pipes ++ pipe ∷ []) ops),
    ground (arith, mem-append pipe pipes (pipe ∷ [])),
  )

  with_pipe-only : (k q : ℕ) → Passes with_pipe k q → Passes ops k q ⊎ ((q ≡ pipe) × (k ≡ e))
  with_pipe-only k q (l, found, i) = elim (Bool-cases (k == e)) [
    | inr n ↦ inl (l, ground (arith, lookup-insert e k (pipes ++ pipe ∷ []) ops), i)
    | inl y ↦ elim (Bool-cases (mem q pipes)) [
      | inl j ↦ inl (pipes, ground arith, j)
      | inr j ↦ inr (
        ground (arith, lookup-insert e k (pipes ++ pipe ∷ []) ops, mem-append q pipes (pipe ∷ [])),
        ground arith,
      )
    ]
  ]

module _ {es : List (ℕ × ℕ)} {ops ops' : Table (List ℕ)} {ancestor pipe : ℕ} where
  -- The step over the edge from `p` to `a`, before the rest of the way.
  IsPassed-step :
      {a : ℕ} (e p : ℕ) (pipes : List ℕ) (there : lookup e ops ≡ some pipes)
      → get_elem? es e ≡ some (p, a)
      → IsPassed es (with_pipe ops e pipe pipes there) ops' ancestor pipe p
      → IsPassed es ops ops' ancestor pipe a
  IsPassed-step {a} e p pipes there edge rest =
      let passed = rest.grown e pipe (with_pipe-there ops e pipe pipes there) in
      record {
        kept = λ k h. rest.kept k (with_pipe-kept ops e pipe pipes there k h);
        grown = λ k q h. rest.grown k q (with_pipe-grown ops e pipe pipes there k q h);
        handed = Handed-trans (over e p stays edge passed) rest.handed;
        only = λ k q h. elim (rest.only k q h) [
          | inr new ↦ inr new
          | inl old ↦ elim (with_pipe-only ops e pipe pipes there k q old) [
            | inl older ↦ inl older
            | inr (q_eq, k_eq) ↦ inr (
              q_eq,
              λ p' m edge'.
                  let p_eq : p ≡ p' = ground (arith, edge, edge', k_eq) in
                  subst (λ x. Handed es ops' pipe x ancestor) p_eq rest.handed,
            )
          ]
        ];
      }

  IsPassed-none : {a : ℕ} → a ≡ ancestor → ops ≡ ops' → IsPassed es ops ops' ancestor pipe a
  IsPassed-none {a} q same_ops =
      subst (λ x. IsPassed es ops x ancestor pipe a) same_ops
        (record {
          kept = λ e h. h;
          grown = λ e k h. h;
          handed = subst (λ x. Handed es ops pipe a x) q stays;
          only = λ e k h. inl h;
        })

module _ {d : Daggy} (laws : IsDaggy d) (g : d.Graph) (tree : IsTree (laws.edges g)) where
  abbrev PassesDown : Table (List ℕ) → ℕ → ℕ → ℕ → Outcome (Table (List ℕ)) → Type 0
  PassesDown ops ancestor pipe a r =
      (ops' : Table (List ℕ)) × (r ≡ ok ops') × IsPassed (laws.edges g) ops ops' ancestor pipe a

  -- From any VM below an ancestor, where every edge of the tree has its entry in the table, the loop
  -- ends in no more steps than the VM's number, with the pipe on just the edges of the way.
  pub pass_down_lem :
      (fuel ancestor pipe a : ℕ) (ops : Table (List ℕ))
      → Above (laws.edges g) a ancestor
      → ((e : ℕ) → e < length (laws.edges g) → contains e ops ≡ true)
      → a ≤ length (laws.edges g)
      → a ≤ fuel
      → PassesDown ops ancestor pipe a (pass_down d g fuel ancestor pipe a ops)
  unfolding pass_down
  pass_down_lem zero ancestor pipe a ops above listed ha enough =
      let at_root : a ≡ ancestor = omega (arith, Above-le tree above) in
      (ops, ground (arith, at_root), IsPassed-none at_root refl)
  pass_down_lem (suc fuel) ancestor pipe a ops above listed ha enough =
      elim (Bool-cases (a == ancestor)) [
        | inl y ↦ (ops, rw y refl, IsPassed-none (ground arith) refl)
        | inr n ↦ elim (parents_lem laws g tree a ha) [
          | inl (none_a, root) ↦ absurd (ground (arith, Above-le tree above))
          | inr (e, p, one_a, edge) ↦ elim (Option-cases (lookup e ops)) [
            | inl missing ↦ absurd (ground (arith, listed e, get_elem?-lt (laws.edges g) e edge))
            | inr (pipes, there) ↦
                let lower = tree.grows e p a edge in
                let rest =
                  pass_down_lem fuel ancestor pipe p (with_pipe ops e pipe pipes there)
                    (elim (Above-split tree e p edge above) [
                      | inl q ↦ absurd (ground arith)
                      | inr u ↦ u
                    ])
                    (λ k h. with_pipe-kept ops e pipe pipes there k (listed k h)) (omega arith)
                    (omega arith) in
                (rest.0, rw (n, one_a, there) (rest.1), IsPassed-step e p pipes there edge rest.2)
          ]
        ]
      ]
