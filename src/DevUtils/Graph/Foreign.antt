-- ===== src/DevUtils/Graph/Foreign.antt =====
-- The crates that `generate_data_graph` of src/dev_utils/mod.rs stands on: rand, as a generator that
-- its calls pass on, and daggy, as a graph whose nodes and edges are numbered as they are added.
use ckb_vm_deterministic_sch.Prelude.{
  ◌-◌, ◌^◌, ◌≤◌, ◌<◌, ◌≡◌, ◌≢◌, ◌⊎◌, ◌↔◌, ℕ, zero, suc, Option, none, some, List, [], ◌∷◌, ◌++◌,
  length, get_elem?,
}
use ckb_vm_deterministic_sch.Prelude.Distinct.{IsDistinct}
use ckb_vm_deterministic_sch.Types.{Bytes}
use ckb_vm_deterministic_sch.Table.{lookup, keys}
use ckb_vm_deterministic_sch.Outcome.{Outcome, Exec}
use ckb_vm_deterministic_sch.Outcome.Ensures.{Ends}

pub record Rng : Type 1 where
  pub Gen : Type 0
  pub seed_from_u64 : ℕ → Gen
  -- a number from the first bound on, below the second
  pub gen_range : ℕ → ℕ → Exec Gen ℕ
  -- so many bytes
  pub fill : ℕ → Gen → Bytes × Gen

-- Code that always returns, with `Q`.
abbrev pub Gives {ℓ} : {S A : Type ℓ} → (A → S → Type 0) → (Outcome A × S) → Type 0
Gives Q r = Ends Q (λ s. ⊥) r

-- One of the next so many draws below `count` is not `first`.
abbrev pub Differs : (r : Rng) → ℕ → ℕ → ℕ → r.Gen → Type 0
Differs r zero first count g = ⊥
Differs r (suc n) first count g =
    Gives (λ i g'. (i ≢ first) ⊎ Differs r n first count g') (r.gen_range 0 count g)

-- Draws keep to their range, and do not stay at one number for ever.
pub record IsRng (r : Rng) (patience : ℕ) : Type 0 where
  pub in_range :
      (lo hi : ℕ) (g : r.Gen) → lo < hi → Gives (λ i g'. (lo ≤ i) × (i < hi)) (r.gen_range lo hi g)
  pub varied : (first count : ℕ) (g : r.Gen) → 2 ≤ count → Differs r patience first count g
  pub length-fill : (n : ℕ) (g : r.Gen) → length (r.fill n g).0 ≡ n

pub record Daggy : Type 1 where
  pub Graph : Type 0
  pub new : Graph
  pub add_node : Exec Graph ℕ
  -- of a parent: the new edge and the new node
  pub add_child : ℕ → Exec Graph (ℕ × ℕ)
  -- `none` is `WouldCycle`
  pub add_edge : ℕ → ℕ → Exec Graph (Option ℕ)
  -- edges and nodes
  pub parents : Graph → ℕ → List (ℕ × ℕ)
  pub children : Graph → ℕ → List (ℕ × ℕ)
  pub edge_endpoints : Graph → ℕ → Option (ℕ × ℕ)

-- Nodes and edges are fewer than the largest `u32`.
abbrev pub index_end : ℕ
index_end = 2 ^ 32 - 1

-- A graph has so many nodes, and edges that lead from node to node, each in the order of addition.
pub record IsDaggy (d : Daggy) : Type 0 where
  pub nodes : d.Graph → ℕ
  pub edges : d.Graph → List (ℕ × ℕ)
  pub nodes-new : nodes d.new ≡ 0
  pub edges-new : edges d.new ≡ []
  pub add_node_lem :
      (g : d.Graph)
      → nodes g < index_end
      → Gives
          (λ n g'. (n ≡ nodes g) × (nodes g' ≡ suc (nodes g)) × (edges g' ≡ edges g))
          (d.add_node g)
  pub add_child_lem :
      (parent : ℕ) (g : d.Graph)
      → parent < nodes g
      → nodes g < index_end
      → length (edges g) < index_end
      → Gives
          (λ en g'.
            (en ≡ (length (edges g), nodes g))
            × (nodes g' ≡ suc (nodes g))
            × (edges g' ≡ edges g ++ (parent, nodes g) ∷ []))
          (d.add_child parent g)
  pub add_edge_lem :
      (a b : ℕ) (g : d.Graph)
      → a < nodes g
      → b < nodes g
      → length (edges g) < index_end
      → Gives
          (λ e g'.
            (nodes g' ≡ nodes g)
            × (((e ≡ none) × (edges g' ≡ edges g))
                ⊎ ((e ≡ some (length (edges g))) × (edges g' ≡ edges g ++ (a, b) ∷ []))))
          (d.add_edge a b g)
  pub edge_endpoints_lem : (g : d.Graph) (e : ℕ) → d.edge_endpoints g e ≡ get_elem? (edges g) e
  pub parents-IsDistinct : (g : d.Graph) (n : ℕ) → IsDistinct (keys (d.parents g n))
  pub parents_iff :
      (g : d.Graph) (n e p : ℕ)
      → (lookup e (d.parents g n) ≡ some p) ↔ (get_elem? (edges g) e ≡ some (p, n))
  pub children-IsDistinct : (g : d.Graph) (n : ℕ) → IsDistinct (keys (d.children g n))
  pub children_iff :
      (g : d.Graph) (n e c : ℕ)
      → (lookup e (d.children g n) ≡ some c) ↔ (get_elem? (edges g) e ≡ some (n, c))
