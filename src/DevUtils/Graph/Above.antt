-- ===== src/DevUtils/Graph/Above.antt =====
-- The tree of VMs as a list of its edges: which VM stands above which.
use ckb_vm_deterministic_sch.Prelude.{
  get_elem?_of_lt, ◌∷◌, ◌≤◌, ◌≡◌, ◌⊎◌, inl, inr, refl, sym, ap, subst, ◌↔◌, ◌∙◌, ℕ, zero, suc, some,
  List, [], length, get_elem?, arith,
}
use ckb_vm_deterministic_sch.Prelude.Distinct.{IsDistinct}
use ckb_vm_deterministic_sch.Table.{lookup, keys}
use ckb_vm_deterministic_sch.DevUtils.Graph.Foreign.{Daggy, IsDaggy}

-- Edge `e` leads to VM `e + 1`, from a VM before it.
pub record IsTree (es : List (ℕ × ℕ)) : Type 0 where
  pub grows : (e p c : ℕ) → get_elem? es e ≡ some (p, c) → (c ≡ suc e) × (p ≤ e)

-- `Above es n m`: from VM `n` the edges lead up to VM `m`.
pub data Above (es : List (ℕ × ℕ)) (n : ℕ) : ℕ → Type 0 where
  same : Above es n n
  up : {m : ℕ} (e p : ℕ) → Above es n m → get_elem? es e ≡ some (p, m) → Above es n p

module _ {es : List (ℕ × ℕ)} where
  pub Above-trans : {n m k : ℕ} → Above es n m → Above es m k → Above es n k
  Above-trans a same = a
  Above-trans a (up e p b h) = up e p (Above-trans a b) h

  module _ (tree : IsTree es) where
    pub Above-le : {n m : ℕ} → Above es n m → m ≤ n
    Above-le same = omega arith
    Above-le (up e p a h) = omega (arith, Above-le a, tree.grows e p _ h)

    pub Above_antisym : {n m : ℕ} → Above es n m → Above es m n → n ≡ m
    Above_antisym a b = omega (arith, Above-le a, Above-le b)

    -- A VM has one parent, so the way up from it is itself, or leads through its parent.
    pub Above-split :
        {n m : ℕ} (e p : ℕ) → get_elem? es e ≡ some (p, n) → Above es n m → (n ≡ m) ⊎ Above es p m
    Above-split e p h same = inl refl
    Above-split {n} e p h (up {m} e' p' a h') = elim (Above-split e p h a) [
      | inl q ↦
          let e_eq : e ≡ e' = omega (arith, tree.grows e p n h, tree.grows e' p' m h', q) in
          let p_eq : p ≡ p' = cc in inr (subst (λ k. Above es p k) p_eq same)
      | inr b ↦ inr (up e' p' b h')
    ]

    -- Every VM stands below the root.
    Above-root_within : (k n : ℕ) → n ≤ k → n ≤ length es → Above es n 0
    Above-root_within k zero h l = same
    Above-root_within zero (suc n) h l = absurd (omega arith)
    Above-root_within (suc k) (suc n) h l =
        let found = get_elem?_of_lt es n (omega arith) in
        let p = found.0.0 in
        let grown = tree.grows n p found.0.1 found.1 in
        Above-trans (up n p same (found.1 ∙ ap (λ (c : ℕ). some (p, c)) grown.0))
          (Above-root_within k p (omega arith) (omega arith))

    pub Above-root : (n : ℕ) → n ≤ length es → Above es n 0
    Above-root n l = Above-root_within n n (omega arith) l

-- The parents that a graph gives: none of the root, and one of any other VM.
abbrev pub ParentsOf : List (ℕ × ℕ) → ℕ → List (ℕ × ℕ) → Type 0
ParentsOf es n l =
    ((l ≡ []) × (n ≡ 0)) ⊎ ((e : ℕ) × (p : ℕ) × (l ≡ (e, p) ∷ []) × (get_elem? es e ≡ some (p, n)))

module _ {d : Daggy} (laws : IsDaggy d) (g : d.Graph) (tree : IsTree (laws.edges g)) where
  parent-edge :
      (n e p : ℕ) (l : List (ℕ × ℕ))
      → l ≡ d.parents g n
      → (lookup e l ≡ some p) ↔ (get_elem? (laws.edges g) e ≡ some (p, n))
  parent-edge n e p l q = rw q (laws.parents_iff g n e p)

  parents-cases :
      (n : ℕ) (l : List (ℕ × ℕ))
      → n ≤ length (laws.edges g)
      → l ≡ d.parents g n
      → ParentsOf (laws.edges g) n l
  unfolding lookup keys
  parents-cases zero [] h q = inl (refl, refl)
  parents-cases (suc n) [] h q =
      let found = get_elem?_of_lt (laws.edges g) n (omega arith) in
      let grown = tree.grows n found.0.0 found.0.1 found.1 in
      let listed = (parent-edge (suc n) n found.0.0 [] q).1 in
      ground (arith, found.1, grown, listed)
  parents-cases n ((e, p) ∷ []) h q = inr (e, p, refl, (parent-edge n e p _ q).0 (ground arith))
  parents-cases n ((e, p) ∷ (e', p') ∷ l) h q =
      let distinct = subst (λ m. IsDistinct (keys m)) (sym q) (laws.parents-IsDistinct g n) in
      let first = (parent-edge n e p _ q).0 in
      let second = (parent-edge n e' p' _ q).0 in
      ground (arith, distinct, first, second, tree.grows e p n, tree.grows e' p' n)

  pub parents_lem : (n : ℕ) → n ≤ length (laws.edges g) → ParentsOf (laws.edges g) n (d.parents g n)
  parents_lem n h = parents-cases n (d.parents g n) h refl
