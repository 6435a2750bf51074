-- ===== src/DevUtils/Graph/Starts.antt =====
-- The order in which the traversal of `generate_data_graph` lists the edges.
use ckb_vm_deterministic_sch.Prelude.{
  ◌∙◌, ◌∷◌, ◌++◌, ◌≡◌, ◌⊎◌, inl, inr, refl, ℕ, suc, true, false, List, [], some, none, length,
  length-append, get_elem?, arith, mem, Bool-cases, map,
}
use ckb_vm_deterministic_sch.Prelude.Distinct.{IsDistinct, mem-append}
use ckb_vm_deterministic_sch.Table.{Table, lookup, insert}
use ckb_vm_deterministic_sch.DevUtils.Graph.Plan.{pipes_of, pipe_list}

-- Each edge leads from a VM that has been started to one that has not.
abbrev pub Starts : List (ℕ × ℕ) → List ℕ → List ℕ → Type 0
Starts es started [] = Unit
Starts es started (e ∷ l) =
    ((p : ℕ) × (get_elem? es e ≡ some (p, suc e))
      × (mem p started ≡ true)
      × (mem (suc e) started ≡ false))
    × Starts es (suc e ∷ started) l

pub mem-map-suc : (k : ℕ) (l : List ℕ) → mem (suc k) (map suc l) ≡ mem k l
mem-map-suc k [] = refl
mem-map-suc k (x ∷ l) = ground (arith, mem-map-suc k l)

pub mem_zero : (l : List ℕ) → mem 0 (map suc l) ≡ false
mem_zero [] = refl
mem_zero (x ∷ l) = ground (arith, mem_zero l)

pub map-suc-IsDistinct : (l : List ℕ) → IsDistinct l → IsDistinct (map suc l)
map-suc-IsDistinct [] h = tt
map-suc-IsDistinct (x ∷ l) h = (mem-map-suc x l ∙ h.0, map-suc-IsDistinct l h.1)

pub not-mem_of_distinct :
    (xs : List ℕ) (y : ℕ) (ys : List ℕ) → IsDistinct (xs ++ y ∷ ys) → mem y xs ≡ false
not-mem_of_distinct [] y ys h = refl
not-mem_of_distinct (x ∷ xs) y ys h =
    ground (arith, not-mem_of_distinct xs y ys h.1, h.0, mem-append x xs (y ∷ ys))

pub Starts-append :
    (es : List (ℕ × ℕ)) (node : ℕ) (started xs ys : List ℕ)
    → Starts es started xs
    → (mem node started ≡ true) ⊎ (mem node (map suc xs) ≡ true)
    → IsDistinct ys
    → ((e : ℕ)
        → mem e ys ≡ true
        → (get_elem? es e ≡ some (node, suc e))
          × (mem (suc e) started ≡ false)
          × (mem e xs ≡ false))
    → Starts es started (xs ++ ys)
Starts-append es node started [] [] s known distinct new = tt
Starts-append es node started [] (e ∷ ys) s known distinct new =
    let first = new e (ground arith) in
    (
      (node, first.0, ground arith, first.1),
      Starts-append es node (suc e ∷ started) [] ys tt (inl (ground arith)) distinct.1 (λ k i.
          let old = new k (ground arith) in (old.0, ground (arith, distinct.0, old.1, i), refl)),
    )
Starts-append es node started (x ∷ xs) ys s known distinct new = (
  s.0,
  Starts-append es node (suc x ∷ started) xs ys s.1
      (elim known [
        | inl k ↦ inl (ground arith)
        | inr k ↦ elim (Bool-cases (mem node (map suc xs))) [
          | inl i ↦ inr i
          | inr n ↦ inl (ground arith)
        ]
      ])
      distinct
      (λ k i. let old = new k i in (old.0, ground (arith, old.1, old.2), ground (arith, old.2))),
)

-- A VM without pairs adds no pipe.
pub length-pipe_list-insert-none :
    (n : ℕ) (made : Table (List (ℕ × ℕ)))
    → lookup n made ≡ none
    → length (pipe_list (insert n [] made)) ≡ length (pipe_list made)
unfolding pipe_list insert lookup pipes_of
length-pipe_list-insert-none n [] new = refl
length-pipe_list-insert-none n ((j, l) ∷ made) new = ground (
  arith,
  length-pipe_list-insert-none n made,
  length-append (pipes_of j l) (pipe_list made),
  length-append (pipes_of j l) (pipe_list (insert n [] made)),
)
