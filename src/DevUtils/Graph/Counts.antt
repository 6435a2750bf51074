-- ===== src/DevUtils/Graph/Counts.antt =====
-- Nodes and edges in the order of their addition, as `generate_data_graph` draws them.
use ckb_vm_deterministic_sch.Prelude.{
  ap, ◌∙◌, ◌∷◌, ◌++◌, ◌≤◌, ◌<◌, ◌≡◌, ◌≢◌, ◌⊎◌, inl, inr, refl, ℕ, zero, suc, false, List, [], some,
  ◌==◌, length, length-append, get_elem?, arith, Bool-cases, subst,
}
use ckb_vm_deterministic_sch.Outcome.{Outcome, ok, err, panic, diverge, Exec}
use ckb_vm_deterministic_sch.Outcome.Ensures.{Ends-via}
use ckb_vm_deterministic_sch.DevUtils.Graph.Foreign.{Rng, Daggy, Gives}
use ckb_vm_deterministic_sch.DevUtils.Graph.Draw.{World, on_rng, on_spawns, on_writes}
use ckb_vm_deterministic_sch.DevUtils.Graph.Above.{IsTree}

module _ {A : Type 0} where
  pub get_elem?-append :
      (xs ys : List A) (i : ℕ) {x : A} → get_elem? xs i ≡ some x → get_elem? (xs ++ ys) i ≡ some x
  get_elem?-append [] ys i h = cc
  get_elem?-append (z ∷ xs) ys zero h = h
  get_elem?-append (z ∷ xs) ys (suc i) h = get_elem?-append xs ys i h

  pub get_elem?_end : (xs : List A) (x : A) → get_elem? (xs ++ x ∷ []) (length xs) ≡ some x
  get_elem?_end [] x = refl
  get_elem?_end (z ∷ xs) x = get_elem?_end xs x

  pub get_elem?-split :
      (xs : List A) (x y : A) (i : ℕ)
      → get_elem? (xs ++ x ∷ []) i ≡ some y
      → (get_elem? xs i ≡ some y) ⊎ ((i ≡ length xs) × (x ≡ y))
  get_elem?-split [] x y zero h = inr (refl, (cc))
  get_elem?-split [] x y (suc i) h = cc
  get_elem?-split (z ∷ xs) x y zero h = inl h
  get_elem?-split (z ∷ xs) x y (suc i) h = elim (get_elem?-split xs x y i h) [
    | inl old ↦ inl old
    | inr (at_end, eq) ↦ inr (ap suc at_end, eq)
  ]

pub Gives-and :
    {S A : Type 0} {Q Q' : A → S → Type 0} (r : Outcome A × S)
    → Gives Q r
    → Gives Q' r
    → Gives (λ a s. Q a s × Q' a s) r
Gives-and (ok a, s) h k = record { at = (h.at, k.at) }
Gives-and (err x, s) h k = absurd h.at
Gives-and (panic, s) h k = absurd h.at
Gives-and (diverge, s) h k = absurd h.at

pub ne_test : (a b : ℕ) → a ≢ b → (a == b) ≡ false
ne_test a b h = ground arith

-- The numbers from 0 on, so many of them.
pub record IsCount (n : ℕ) (l : List ℕ) : Type 0 where
  pub sized : length l ≡ n
  pub at : (i : ℕ) → i < n → get_elem? l i ≡ some i

pub IsCount-one : (x : ℕ) → x ≡ 0 → IsCount 1 (x ∷ [])
IsCount-one x h = record {
  sized = refl;
  at = λ i lt.
      let i_eq : 0 ≡ i = omega arith in subst (λ k. get_elem? (x ∷ []) k ≡ some k) i_eq (ap some h);
}

pub IsCount-suc : (n : ℕ) (l : List ℕ) → IsCount n l → IsCount (suc n) (l ++ n ∷ [])
IsCount-suc n l h = record {
  sized = omega (arith, length-append l (n ∷ []), h.sized);
  at = λ i lt. elim (Bool-cases (i == n)) [
    | inl y ↦
        let i_eq : length l ≡ i = ground (arith, h.sized) in
        let n_eq : n ≡ i = ground arith in
        subst (λ k. get_elem? (l ++ n ∷ []) k ≡ some i) i_eq (get_elem?_end l n ∙ ap some n_eq)
    | inr d ↦ get_elem?-append l (n ∷ []) i (h.at i (ground arith))
  ];
}

pub IsTree-suc :
    (es : List (ℕ × ℕ)) (p : ℕ)
    → IsTree es
    → p ≤ length es
    → IsTree (es ++ (p, suc (length es)) ∷ [])
IsTree-suc es p tree h = record {
  grows = λ e q c found. elim (get_elem?-split es (p, suc (length es)) (q, c) e found) [
    | inl old ↦ tree.grows e q c old
    | inr (at_end, eq) ↦ ground (arith, at_end, eq, h)
  ];
}

module _ {r : Rng} {d : Daggy} {A : Type 0} where
  pub on_rng-Gives :
      {Q : A → r.Gen → Type 0} (m : Exec r.Gen A) (w : World r d)
      → Gives Q (m w.rng)
      → Gives
          (λ a w'. Q a w'.rng × (w'.spawn_dag ≡ w.spawn_dag) × (w'.write_dag ≡ w.write_dag))
          (on_rng m w)
  unfolding on_rng
  on_rng-Gives m w h =
      Ends-via (m w.rng) (λ g. record w { rng = g }) h (λ a s q. (q, refl, refl)) (λ s b. b)

  pub on_spawns-Gives :
      {Q : A → d.Graph → Type 0} (m : Exec d.Graph A) (w : World r d)
      → Gives Q (m w.spawn_dag)
      → Gives (λ a w'. Q a w'.spawn_dag × (w'.write_dag ≡ w.write_dag)) (on_spawns m w)
  unfolding on_spawns
  on_spawns-Gives m w h =
      Ends-via (m w.spawn_dag) (λ g. record w { spawn_dag = g }) h (λ a s q. (q, refl)) (λ s b. b)

  pub on_writes-Gives :
      {Q : A → d.Graph → Type 0} (m : Exec d.Graph A) (w : World r d)
      → Gives Q (m w.write_dag)
      → Gives (λ a w'. Q a w'.write_dag × (w'.spawn_dag ≡ w.spawn_dag)) (on_writes m w)
  unfolding on_writes
  on_writes-Gives m w h =
      Ends-via (m w.write_dag) (λ g. record w { write_dag = g }) h (λ a s q. (q, refl)) (λ s b. b)
