-- ===== src/DevUtils/Graph/Listed.antt =====
-- The lists that `generate_data_graph` ends with: a spawn for each edge of the tree, in the order of the
-- traversal, and a pipe for each pair.
use ckb_vm_deterministic_sch.Prelude.{
  ap, ◌∙◌, sym, ◌+◌, ◌*◌, ◌∷◌, ◌≡◌, inl, inr, refl, ℕ, suc, true, false, List, [], some, ◌==◌,
  length, get_elem?, arith, mem, Option-cases, subst, Among, Among-append_left, Among-append_right,
  Bool-cases,
}
use ckb_vm_deterministic_sch.Prelude.Distinct.{IsDistinct}
use ckb_vm_deterministic_sch.Table.{Table, lookup, contains}
use ckb_vm_deterministic_sch.Outcome.{ok}
use ckb_vm_deterministic_sch.DevUtils.Graph.Foreign.{Daggy, IsDaggy}
use ckb_vm_deterministic_sch.DevUtils.Graph.Plan.{SpawnOp, spawn_list, pipes_of, pipe_list}
use ckb_vm_deterministic_sch.DevUtils.Graph.Starts.{Starts}
use ckb_vm_deterministic_sch.DevUtils.Graph.Owned.{Boots}
use ckb_vm_deterministic_sch.DevUtils.Graph.Drafted.{edge_pipes}
use ckb_vm_deterministic_sch.DevUtils.Graph.Made.{Makes}

-- The spawn of each edge, with the pipes that the table has for it.
abbrev pub AreSpawns : List (ℕ × ℕ) → Table (List ℕ) → List ℕ → List SpawnOp → Type 0
AreSpawns es ops [] [] = Unit
AreSpawns es ops [] (s ∷ l) = ⊥
AreSpawns es ops (e ∷ edges) [] = ⊥
AreSpawns es ops (e ∷ edges) (s ∷ l) =
    ((get_elem? es e ≡ some (s.from, s.child)) × (lookup e ops ≡ some s.pipes))
    × AreSpawns es ops edges l

spawn_list-next :
    (d : Daggy) (g : d.Graph) (ops : Table (List ℕ)) (e : ℕ) (edges : List ℕ) (ends : ℕ × ℕ)
    (pipes : List ℕ) (l : List SpawnOp)
    → d.edge_endpoints g e ≡ some ends
    → lookup e ops ≡ some pipes
    → spawn_list d g ops edges ≡ ok l
    → spawn_list d g ops (e ∷ edges)
      ≡ ok (record { from = ends.0; child = ends.1; pipes = pipes } ∷ l)
unfolding spawn_list
spawn_list-next d g ops e edges ends pipes l edge there rest = ground (arith, edge, there, rest)

pub spawn_list_lem :
    {d : Daggy} (laws : IsDaggy d) (g : d.Graph) (ops : Table (List ℕ)) (edges : List ℕ)
    → ((e : ℕ)
        → mem e edges ≡ true
        → ((ends : ℕ × ℕ) × (get_elem? (laws.edges g) e ≡ some ends)) × (contains e ops ≡ true))
    → (l : List SpawnOp) × (spawn_list d g ops edges ≡ ok l) × AreSpawns (laws.edges g) ops edges l
unfolding spawn_list
spawn_list_lem laws g ops [] known = ([], refl, tt)
spawn_list_lem {d} laws g ops (e ∷ edges) known =
    let here = known e (ground arith) in
    let ends = here.0.0 in
    let edge = laws.edge_endpoints_lem g e ∙ here.0.1 in
    let rest = spawn_list_lem laws g ops edges (λ k i. known k (ground arith)) in
    elim (Option-cases (lookup e ops)) [
      | inl missing ↦ absurd (ground (arith, here.1))
      | inr (pipes, there) ↦ (
        record { from = ends.0; child = ends.1; pipes = pipes } ∷ rest.0,
        spawn_list-next d g ops e edges ends pipes rest.0 edge there rest.1,
        ((here.0.1, there), rest.2),
      )
    ]

module _ (es : List (ℕ × ℕ)) (ops : Table (List ℕ)) where
  pub AreSpawns-length :
      (edges : List ℕ) (l : List SpawnOp) → AreSpawns es ops edges l → length l ≡ length edges
  AreSpawns-length [] [] a = refl
  AreSpawns-length [] (s ∷ l) a = absurd a
  AreSpawns-length (e ∷ edges) [] a = absurd a
  AreSpawns-length (e ∷ edges) (s ∷ l) a = ap suc (AreSpawns-length edges l a.1)

  -- Each spawn is that of an edge, and each edge has its spawn.
  abbrev pub IsSpawnOf : ℕ → SpawnOp → Type 0
  IsSpawnOf e s = (get_elem? es e ≡ some (s.from, s.child)) × (lookup e ops ≡ some s.pipes)

  pub spawn-edge :
      (edges : List ℕ) (l : List SpawnOp) (s : SpawnOp)
      → AreSpawns es ops edges l
      → Among s l
      → (e : ℕ) × IsSpawnOf e s
  spawn-edge [] [] s a i = absurd i
  spawn-edge [] (x ∷ l) s a i = absurd a
  spawn-edge (e ∷ edges) [] s a i = absurd i
  spawn-edge (e ∷ edges) (x ∷ l) s a (inl same) = (e, subst (IsSpawnOf e) (sym same) a.0)
  spawn-edge (e ∷ edges) (x ∷ l) s a (inr i) = spawn-edge edges l s a.1 i

  pub edge-spawn :
      (edges : List ℕ) (l : List SpawnOp) (e : ℕ)
      → AreSpawns es ops edges l
      → mem e edges ≡ true
      → (s : SpawnOp) × Among s l × IsSpawnOf e s
  edge-spawn [] l e a i = cc
  edge-spawn (x ∷ edges) [] e a i = absurd a
  edge-spawn (x ∷ edges) (s ∷ l) e a i = elim (Bool-cases (e == x)) [
    | inl y ↦ let same : x ≡ e = ground arith in (s, inl refl, subst (λ k. IsSpawnOf k s) same a.0)
    | inr n ↦ let later = edge-spawn edges l e a.1 (ground arith) in (later.0, inr later.1, later.2)
  ]

  pub Starts-Boots :
      (started edges : List ℕ) (l : List SpawnOp)
      → Starts es started edges
      → AreSpawns es ops edges l
      → Boots started l
  Starts-Boots started [] [] st a = tt
  Starts-Boots started [] (s ∷ l) st a = absurd a
  Starts-Boots started (e ∷ edges) [] st a = absurd a
  Starts-Boots started (e ∷ edges) (s ∷ l) st a =
      let (p, edge, runs, new) = st.0 in
      let from_eq : p ≡ s.from = ground (arith, edge, a.0.0) in
      let child_eq : suc e ≡ s.child = ground (arith, edge, a.0.0) in
      (
        subst (λ k. mem k started ≡ true) from_eq runs,
        subst (λ k. mem k started ≡ false) child_eq new,
        Starts-Boots (s.child ∷ started) edges l
            (subst (λ k. Starts es (k ∷ started) edges) child_eq st.1) a.1,
      )

-- A pair that a VM makes is in the list.
pipes_of-Among :
    (vm : ℕ) (pair : ℕ × ℕ) (pairs : List (ℕ × ℕ))
    → Among pair pairs
    → Among (record { vm = vm; read_pipe = pair.0; write_pipe = pair.1 }) (pipes_of vm pairs)
unfolding pipes_of
pipes_of-Among vm pair [] i = absurd i
pipes_of-Among vm pair ((r, w) ∷ pairs) (inl same) = inl (ground (arith, same))
pipes_of-Among vm pair ((r, w) ∷ pairs) (inr i) = inr (pipes_of-Among vm pair pairs i)

pub pipe_list-Among :
    (made : Table (List (ℕ × ℕ))) (vm : ℕ) (pair : ℕ × ℕ)
    → Makes made vm pair
    → Among (record { vm = vm; read_pipe = pair.0; write_pipe = pair.1 }) (pipe_list made)
unfolding pipe_list lookup
pipe_list-Among [] vm pair (pairs, there, i) = cc
pipe_list-Among ((j, l) ∷ made) vm pair (pairs, there, i) = elim (Bool-cases (vm == j)) [
  | inl y ↦
      let same : pairs ≡ l = ground (arith, there) in
      let vm_eq : vm ≡ j = ground arith in
      Among-append_left _ (pipes_of j l) (pipe_list made) (
        subst
          (λ k. Among (record { vm = vm; read_pipe = pair.0; write_pipe = pair.1 }) (pipes_of k l))
          vm_eq (pipes_of-Among vm pair l (subst (Among pair) same i)))
  | inr n ↦
      Among-append_right _ (pipes_of j l) (pipe_list made)
        (pipe_list-Among made vm pair (pairs, ground (arith, there), i))
]

mem-edge_pipes :
    (e : ℕ) (edges : List ℕ)
    → (mem (e * 2) (edge_pipes edges) ≡ mem e edges)
      × (mem (e * 2 + 1) (edge_pipes edges) ≡ mem e edges)
mem-edge_pipes e [] = (refl, refl)
mem-edge_pipes e (x ∷ edges) =
    (ground (arith, mem-edge_pipes e edges), ground (arith, mem-edge_pipes e edges))

pub edge_pipes-IsDistinct : (edges : List ℕ) → IsDistinct edges → IsDistinct (edge_pipes edges)
edge_pipes-IsDistinct [] h = tt
edge_pipes-IsDistinct (e ∷ edges) h = (
  ground (arith, mem-edge_pipes e edges, h.0),
  (ground (arith, mem-edge_pipes e edges, h.0), edge_pipes-IsDistinct edges h.1),
)
