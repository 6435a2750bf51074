-- ===== src/DevUtils/Graph/Way.antt =====
-- The two ways up the tree that the search for a common ancestor keeps, and where they meet.
use ckb_vm_deterministic_sch.Prelude.{
  ◌∷◌, ◌≡◌, ◌⊎◌, inl, inr, sym, some, ℕ, true, false, List, [], ◌==◌, get_elem?, arith, mem,
  Bool-cases, subst,
}
use ckb_vm_deterministic_sch.DevUtils.Graph.Above.{
  IsTree, Above, same, up, Above-trans, Above-split,
}

-- `c` is above both, and below whatever else is.
pub record IsLowest (es : List (ℕ × ℕ)) (writer reader c : ℕ) : Type 0 where
  pub above_writer : Above es writer c
  pub above_reader : Above es reader c
  pub lowest : (x : ℕ) → Above es writer x → Above es reader x → Above es c x

-- `set` holds the VMs on the way up from `start` to `a`.
pub record IsWay (es : List (ℕ × ℕ)) (start a : ℕ) (set : List ℕ) : Type 0 where
  pub reached : Above es start a
  pub ends : mem a set ≡ true
  pub between : (x : ℕ) → mem x set ≡ true → Above es start x × Above es x a
  pub covers : (x : ℕ) → Above es start x → (mem x set ≡ true) ⊎ Above es a x

abbrev pub AreDisjoint : List ℕ → List ℕ → Type 0
AreDisjoint set_a set_b = (x : ℕ) → mem x set_a ≡ true → mem x set_b ≡ false

-- A path that grew by one holds what it held, or that one.
pub grown : (p : ℕ) (set : List ℕ) (x : ℕ) → mem x (p ∷ set) ≡ true → (mem x set ≡ true) ⊎ (x ≡ p)
grown p set x h = elim (Bool-cases (x == p)) [
  | inl q ↦ inr (ground arith)
  | inr n ↦ inl (ground arith)
]

pub AreDisjoint-sym : (set_a set_b : List ℕ) → AreDisjoint set_a set_b → AreDisjoint set_b set_a
AreDisjoint-sym set_a set_b disjoint x i = ground (arith, disjoint x)

pub AreDisjoint-up_left :
    (p : ℕ) (set_a set_b : List ℕ)
    → AreDisjoint set_a set_b
    → mem p set_b ≡ false
    → AreDisjoint (p ∷ set_a) set_b
AreDisjoint-up_left p set_a set_b disjoint n x i = ground (arith, disjoint x)

pub AreDisjoint-up_right :
    (p : ℕ) (set_a set_b : List ℕ)
    → AreDisjoint set_a set_b
    → mem p set_a ≡ false
    → AreDisjoint set_a (p ∷ set_b)
AreDisjoint-up_right p set_a set_b disjoint n x i = ground (arith, disjoint x)

module _ {es : List (ℕ × ℕ)} where
  pub IsLowest-sym : {a b c : ℕ} → IsLowest es a b c → IsLowest es b a c
  IsLowest-sym h = record {
    above_writer = h.above_reader;
    above_reader = h.above_writer;
    lowest = λ x u v. h.lowest x v u;
  }

  pub IsWay-start : (n : ℕ) → IsWay es n n (n ∷ [])
  IsWay-start n = record {
    reached = same;
    ends = ground arith;
    between = λ x h.
        let q : n ≡ x = ground arith in
        (subst (λ k. Above es n k) q same, subst (λ k. Above es k n) q same);
    covers = λ x a. inr a;
  }

  module _ (tree : IsTree es) where
    pub IsWay-up :
        {start a : ℕ} {set : List ℕ} (e p : ℕ)
        → get_elem? es e ≡ some (p, a)
        → IsWay es start a set
        → IsWay es start p (p ∷ set)
    IsWay-up {start} {a} {set} e p h w = record {
      reached = up e p w.reached h;
      ends = ground arith;
      between = λ x i. elim (Bool-cases (x == p)) [
        | inl q ↦
            let x_eq : p ≡ x = ground arith in
            (
              subst (λ k. Above es start k) x_eq (up e p w.reached h),
              subst (λ k. Above es k p) x_eq same,
            )
        | inr n ↦ let old = w.between x (ground arith) in (old.0, up e p old.1 h)
      ];
      covers = λ x b. elim (w.covers x b) [
        | inl i ↦ inl (ground arith)
        | inr c ↦ elim (Above-split tree e p h c) [
          | inl q ↦ inl (ground (arith, subst (λ k. mem k set ≡ true) q w.ends))
          | inr u ↦ inr u
        ]
      ];
    }

  -- Where one way comes upon the other, which may have grown by its end `b`, it has found the lowest
  -- common ancestor.
  pub IsLowest-met :
      {writer reader p b : ℕ} {set_b' : List ℕ} (set_a set_b : List ℕ)
      → IsWay es writer p (p ∷ set_a)
      → IsWay es reader b set_b'
      → AreDisjoint set_a set_b
      → ((x : ℕ) → mem x set_b' ≡ true → (mem x set_b ≡ true) ⊎ (x ≡ b))
      → mem p set_b' ≡ true
      → IsLowest es writer reader p
  IsLowest-met {writer} {reader} {p} {b} {set_b'} set_a set_b wa wb disjoint grown h = record {
    above_writer = wa.reached;
    above_reader = (wb.between p h).0;
    lowest = λ x u v. elim (wa.covers x u) [
      | inr above ↦ above
      | inl i ↦ elim (Bool-cases (x == p)) [
        | inl q ↦ let x_eq : p ≡ x = ground arith in subst (λ k. Above es p k) x_eq same
        | inr n ↦ elim (wb.covers x v) [
          | inr above ↦ Above-trans (wb.between p h).1 above
          | inl j ↦ elim (grown x j) [
            | inl old ↦ absurd (ground (arith, disjoint x))
            | inr end ↦ subst (λ k. Above es p k) (sym end) (wb.between p h).1
          ]
        ]
      ]
    ];
  }
