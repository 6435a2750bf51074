-- ===== src/Tests/Crates.antt =====
-- What stands for rand and for daggy in the tests: a counter, whose draws are its remainders, and a
-- list of edges, which takes those that lead to a later node.
use ckb_vm_deterministic_sch.Prelude.{
  ◌+◌, ◌-◌, ◌%◌, ◌≤◌, ◌<◌, ◌≡◌, ◌≢◌, ◌⊎◌, ◌↔◌, inl, inr, ap, refl, ℕ, zero, suc, true, false,
  Option, none, some, List, [], ◌∷◌, ◌++◌, ◌==◌, ltb, if◌then◌else◌, length, get_elem?, mem, arith,
  Bool-cases, ==_iff,
}
use ckb_vm_deterministic_sch.Prelude.Distinct.{IsDistinct}
use ckb_vm_deterministic_sch.Types.{Bytes}
use ckb_vm_deterministic_sch.Table.{lookup, keys}
use ckb_vm_deterministic_sch.Outcome.{ok, panic, Exec}
use ckb_vm_deterministic_sch.DevUtils.Graph.Foreign.{Rng, IsRng, Daggy, IsDaggy, Gives}

abbrev pub zeros : ℕ → Bytes
zeros zero = []
zeros (suc n) = 0 ∷ zeros n

abbrev counter_range : ℕ → ℕ → Exec ℕ ℕ
counter_range lo hi g = (if ltb lo hi then ok (lo + g % (hi - lo)) else panic, suc g)

abbrev pub counter : Rng
counter = record {
  Gen = ℕ;
  seed_from_u64 = λ seed. seed;
  gen_range = counter_range;
  fill = λ n g. (zeros n, g);
}

length-zeros : (n : ℕ) → length (zeros n) ≡ n
length-zeros zero = refl
length-zeros (suc n) = ap suc (length-zeros n)

next-differs : (g count : ℕ) → 2 ≤ count → g % count ≢ suc g % count
next-differs g count h e = grind arith

remainder-within : (lo hi g : ℕ) → lo < hi → lo + g % (hi - lo) < hi
remainder-within lo hi g h = grind arith

counter_range-Gives :
    {Q : ℕ → ℕ → Type 0} (lo hi g : ℕ)
    → lo < hi
    → Q (lo + g % (hi - lo)) (suc g)
    → Gives Q (counter_range lo hi g)
counter_range-Gives lo hi g h q =
    let test : ltb lo hi ≡ true = ground arith in rw test (record { at = q })

pub counter-IsRng : IsRng counter 2
counter-IsRng = record {
  in_range = λ lo hi g h. counter_range-Gives lo hi g h (omega arith, remainder-within lo hi g h);
  varied = λ first count g h.
      counter_range-Gives 0 count g (omega arith)
        (elim (Bool-cases ((0 + g % (count - 0)) == first)) [
          | inr n ↦ inl (ground arith)
          | inl y ↦ inr (
              counter_range-Gives 0 count (suc g) (omega arith) (
                inl (λ again.
                  next-differs g (count - 0) (omega arith)
                    (omega (arith, (==_iff (0 + g % (count - 0)) first).0 y)))))
        ]);
  length-fill = λ n g. length-zeros n;
}

pub record Links : Type 0 where
  pub count : ℕ
  pub links : List (ℕ × ℕ)

-- the numbers of the edges that `pick` takes, the first of which is `k`
abbrev sift : (ℕ × ℕ → Option ℕ) → ℕ → List (ℕ × ℕ) → List (ℕ × ℕ)
sift pick k [] = []
sift pick k (x ∷ l) = elim (pick x) [
  | none ↦ sift pick (suc k) l
  | some n ↦ (k, n) ∷ sift pick (suc k) l
]

abbrev to_child : ℕ → ℕ × ℕ → Option ℕ
to_child n (p, c) = if p == n then some c else none

abbrev to_parent : ℕ → ℕ × ℕ → Option ℕ
to_parent n (p, c) = if c == n then some p else none

abbrev pub links_dag : Daggy
links_dag = record {
  Graph = Links;
  new = record { count = 0; links = [] };
  add_node = λ g. (ok g.count, record g { count = suc g.count });
  add_child = λ p g. (
    ok (length g.links, g.count),
    record { count = suc g.count; links = g.links ++ (p, g.count) ∷ [] },
  );
  add_edge = λ a b g.
      if ltb a b
      then (ok (some (length g.links)), record g { links = g.links ++ (a, b) ∷ [] })
      else (ok none, g);
  parents = λ g n. sift (to_parent n) 0 g.links;
  children = λ g n. sift (to_child n) 0 g.links;
  edge_endpoints = λ g e. get_elem? g.links e;
}

abbrev picked : (ℕ × ℕ → Option ℕ) → Option (ℕ × ℕ) → Option ℕ
picked pick none = none
picked pick (some x) = pick x

module _ (pick : ℕ × ℕ → Option ℕ) where
  not-mem-sift : (k e : ℕ) (l : List (ℕ × ℕ)) → e < k → mem e (keys (sift pick k l)) ≡ false
  unfolding keys
  not-mem-sift k e [] h = refl
  not-mem-sift k e (x ∷ l) h = ground (arith, not-mem-sift (suc k) e l)

  pub sift-IsDistinct : (k : ℕ) (l : List (ℕ × ℕ)) → IsDistinct (keys (sift pick k l))
  unfolding keys
  sift-IsDistinct k [] = tt
  sift-IsDistinct k (x ∷ l) = ground (arith, sift-IsDistinct (suc k) l, not-mem-sift (suc k) k l)

  lookup-sift_below : (k e : ℕ) (l : List (ℕ × ℕ)) → e < k → lookup e (sift pick k l) ≡ none
  unfolding lookup
  lookup-sift_below k e [] h = refl
  lookup-sift_below k e (x ∷ l) h = ground (arith, lookup-sift_below (suc k) e l)

  lookup-sift :
      (k i e : ℕ) (l : List (ℕ × ℕ))
      → e ≡ k + i
      → lookup e (sift pick k l) ≡ picked pick (get_elem? l i)
  unfolding lookup
  lookup-sift k i e [] h = refl
  lookup-sift k zero e (x ∷ l) h = ground (arith, lookup-sift_below (suc k) e l)
  lookup-sift k (suc i) e (x ∷ l) h = ground (arith, lookup-sift (suc k) i e l)

picked-child : (n c : ℕ) (x : Option (ℕ × ℕ)) → (picked (to_child n) x ≡ some c) ↔ (x ≡ some (n, c))
picked-child n c none = ground arith
picked-child n c (some (p, q)) = ground arith

picked-parent :
    (n p : ℕ) (x : Option (ℕ × ℕ)) → (picked (to_parent n) x ≡ some p) ↔ (x ≡ some (p, n))
picked-parent n p none = ground arith
picked-parent n p (some (q, c)) = ground arith

pub links-parents_iff :
    (g : Links) (n e p : ℕ)
    → (lookup e (links_dag.parents g n) ≡ some p) ↔ (get_elem? g.links e ≡ some (p, n))
links-parents_iff g n e p =
    rw (lookup-sift (to_parent n) 0 e e g.links (omega arith))
      (picked-parent n p (get_elem? g.links e))

pub links-children_iff :
    (g : Links) (n e c : ℕ)
    → (lookup e (links_dag.children g n) ≡ some c) ↔ (get_elem? g.links e ≡ some (n, c))
links-children_iff g n e c =
    rw (lookup-sift (to_child n) 0 e e g.links (omega arith))
      (picked-child n c (get_elem? g.links e))

pub links-add_edge :
    (a b : ℕ) (g : Links)
    → Gives
        (λ e g'.
          (g'.count ≡ g.count)
          × (((e ≡ none) × (g'.links ≡ g.links))
              ⊎ ((e ≡ some (length g.links)) × (g'.links ≡ g.links ++ (a, b) ∷ []))))
        (links_dag.add_edge a b g)
links-add_edge a b g = elim (Bool-cases (ltb a b)) [
  | inl y ↦ rw y (record { at = (refl, inr (refl, refl)) })
  | inr n ↦ rw n (record { at = (refl, inl (refl, refl)) })
]

unfoldable pub links-IsDaggy : IsDaggy links_dag
links-IsDaggy = record {
  nodes = λ g. g.count;
  edges = λ g. g.links;
  nodes-new = refl;
  edges-new = refl;
  add_node_lem = λ g h. record { at = (refl, refl, refl) };
  add_child_lem = λ p g a b c. record { at = (refl, refl, refl) };
  add_edge_lem = λ a b g ha hb room. links-add_edge a b g;
  edge_endpoints_lem = λ g e. refl;
  parents-IsDistinct = λ g n. sift-IsDistinct (to_parent n) 0 g.links;
  parents_iff = links-parents_iff;
  children-IsDistinct = λ g n. sift-IsDistinct (to_child n) 0 g.links;
  children_iff = links-children_iff;
}
