-- ===== src/DevUtils/Graph/Made.antt =====
-- The pairs of pipes that VMs make, and the VMs that hold one of a pair.
use ckb_vm_deterministic_sch.Prelude.{
  ap, ◌∷◌, ◌++◌, ◌≡◌, ◌⊎◌, inl, inr, refl, ℕ, suc, List, [], some, ◌==◌, length, length-append,
  arith, Bool-cases, subst, Among, Among-append_left, Among-append_right,
}
use ckb_vm_deterministic_sch.Table.{Table, lookup, insert}
use ckb_vm_deterministic_sch.Table.Laws.{lookup-insert, lookup-above, IsAbove}
use ckb_vm_deterministic_sch.DevUtils.Graph.Plan.{pipes_of, pipe_list}
use ckb_vm_deterministic_sch.DevUtils.Graph.Down.{Passes, Handed, Handed-mono}

-- VM `n` makes the pair of pipes.
abbrev pub Makes : Table (List (ℕ × ℕ)) → ℕ → ℕ × ℕ → Type 0
Makes made n pair = (pairs : List (ℕ × ℕ)) × (lookup n made ≡ some pairs) × Among pair pairs

-- One of a pair that `ancestor` makes, passed down from there to VM `n`.
pub record Holds (es : List (ℕ × ℕ)) (ops : Table (List ℕ)) (made : Table (List (ℕ × ℕ)))
    (pipe n : ℕ) : Type 0 where
  pub ancestor : ℕ
  pub pair : ℕ × ℕ
  pub handed : Handed es ops pipe n ancestor
  pub in_pair : (pair.0 ≡ pipe) ⊎ (pair.1 ≡ pipe)
  pub made_there : Makes made ancestor pair

pub Holds-mono :
    {es : List (ℕ × ℕ)} {ops ops' : Table (List ℕ)} {made made' : Table (List (ℕ × ℕ))} {pipe n : ℕ}
    → ((e q : ℕ) → Passes ops e q → Passes ops' e q)
    → ((m : ℕ) (pair : ℕ × ℕ) → Makes made m pair → Makes made' m pair)
    → Holds es ops made pipe n
    → Holds es ops' made' pipe n
Holds-mono f g h = record {
  ancestor = h.ancestor;
  pair = h.pair;
  handed = Handed-mono f h.handed;
  in_pair = h.in_pair;
  made_there = g h.ancestor h.pair h.made_there;
}

-- One more pair of one VM.
module _ (made : Table (List (ℕ × ℕ))) (n : ℕ) (pairs : List (ℕ × ℕ)) (pair : ℕ × ℕ) where
  pub Makes-mono :
      lookup n made ≡ some pairs
      → (m : ℕ) (old : ℕ × ℕ) → Makes made m old
      → Makes (insert n (pairs ++ pair ∷ []) made) m old
  Makes-mono there m old (l, found, i) = elim (Bool-cases (m == n)) [
    | inl y ↦
        let same : l ≡ pairs = ground (arith, found, there) in
        (
          pairs ++ pair ∷ [],
          ground (arith, lookup-insert n m (pairs ++ pair ∷ []) made),
          Among-append_left old pairs (pair ∷ []) (subst (Among old) same i),
        )
    | inr d ↦ (l, ground (arith, lookup-insert n m (pairs ++ pair ∷ []) made), i)
  ]

  pub Makes-new : Makes (insert n (pairs ++ pair ∷ []) made) n pair
  Makes-new = (
    pairs ++ pair ∷ [],
    ground (arith, lookup-insert n n (pairs ++ pair ∷ []) made),
    Among-append_right pair pairs (pair ∷ []) (inl refl),
  )

pub length-pipes_of : (vm : ℕ) (pairs : List (ℕ × ℕ)) → length (pipes_of vm pairs) ≡ length pairs
unfolding pipes_of
length-pipes_of vm [] = refl
length-pipes_of vm ((r, w) ∷ pairs) = ap suc (length-pipes_of vm pairs)

pub length-pipe_list-insert :
    (k n : ℕ) (pairs pairs' : List (ℕ × ℕ)) (made : Table (List (ℕ × ℕ)))
    → IsAbove k made
    → lookup n made ≡ some pairs
    → length pairs' ≡ suc (length pairs)
    → length (pipe_list (insert n pairs' made)) ≡ suc (length (pipe_list made))
unfolding pipe_list lookup insert
length-pipe_list-insert k n pairs pairs' [] a there more = cc
length-pipe_list-insert k n pairs pairs' ((j, l) ∷ made) a there more = ground (
  arith,
  length-pipe_list-insert (suc j) n pairs pairs' made a.1,
  lookup-above (suc j) n made a.1,
  length-append (pipes_of j l) (pipe_list made),
  length-append (pipes_of n pairs') (pipe_list made),
  length-append (pipes_of j l) (pipe_list (insert n pairs' made)),
  length-pipes_of j l,
  length-pipes_of n pairs',
)
