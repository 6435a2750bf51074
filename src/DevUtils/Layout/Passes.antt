-- ===== src/DevUtils/Layout/Passes.antt =====
-- Parts that pass their checks, where they stand in what is written.
use mathlib.Core.List.{append_assoc}
use ckb_vm_deterministic_sch.Prelude.{
  ℕ, suc, ◌+◌, ◌*◌, ◌≡◌, refl, sym, ap, subst, ◌∙◌, List, [], ◌∷◌, ◌++◌, length, arith,
  length-append,
}
use ckb_vm_deterministic_sch.Types.{Bytes}
use ckb_vm_deterministic_sch.DevUtils.Layout.{Check, verify_fields, verify_items}
use ckb_vm_deterministic_sch.DevUtils.Layout.Build.{concat, sum_length, offsets_from}
use ckb_vm_deterministic_sch.DevUtils.Layout.Written.{Yields, Yields-bind, slice_at-part, bounds}

-- Each part passes its check.
abbrev pub AllPass : List (Bytes → Check (Unit {0})) → List Bytes → Type 0
AllPass [] [] = Unit
AllPass (f ∷ fs) (x ∷ xs) = Yields (f x) tt × AllPass fs xs
AllPass _ _ = ⊥

-- Each part passes the check of the items.
abbrev pub EachPasses : (Bytes → Check (Unit {0})) → List Bytes → Type 0
EachPasses f [] = Unit
EachPasses f (x ∷ xs) = Yields (f x) tt × EachPasses f xs

-- Each item is of this size.
abbrev pub AllSized : ℕ → List Bytes → Type 0
AllSized n [] = Unit
AllSized n (x ∷ xs) = (length x ≡ n) × AllSized n xs

pub sum-sized : (n : ℕ) (xs : List Bytes) → AllSized n xs → sum_length xs ≡ n * length xs
sum-sized n [] h = omega arith
sum-sized n (x ∷ xs) h = omega (arith, h.0, sum-sized n xs h.1)

pub AllPass-length :
    (fs : List (Bytes → Check (Unit {0}))) (xs : List Bytes) → AllPass fs xs → length fs ≡ length xs
AllPass-length [] [] h = refl
AllPass-length [] (x ∷ xs) h = absurd h
AllPass-length (f ∷ fs) [] h = absurd h
AllPass-length (f ∷ fs) (x ∷ xs) h = ap suc (AllPass-length fs xs h.1)

-- One part further.
next_part :
    (before x : Bytes) (xs : List Bytes) (slice : Bytes)
    → slice ≡ before ++ (x ++ concat xs)
    → slice ≡ (before ++ x) ++ concat xs
next_part before x xs slice h = h ∙ sym (append_assoc before x (concat xs))

pub verify_fields-parts :
    (fs : List (Bytes → Check (Unit {0}))) (xs : List Bytes) (start : ℕ) (before slice : Bytes)
    → AllPass fs xs
    → slice ≡ before ++ concat xs
    → length before ≡ start
    → Yields (verify_fields fs (bounds start xs) slice) tt
unfolding verify_fields offsets_from
verify_fields-parts [] xs start before slice pass h l = record { at = refl }
verify_fields-parts (f ∷ fs) [] start before slice pass h l = absurd pass
verify_fields-parts (f ∷ []) (x ∷ []) start before slice pass h l =
    Yields-bind _ _ x (slice_at-part start _ before x [] slice h l (omega arith))
      (Yields-bind _ _ tt pass.0 (record { at = refl }))
verify_fields-parts (f ∷ g ∷ fs) (x ∷ []) start before slice pass h l = absurd pass.1
verify_fields-parts (f ∷ fs) (x ∷ y ∷ xs) start before slice pass h l =
    Yields-bind _ _ x
      (slice_at-part start (start + length x) before x (concat (y ∷ xs)) slice h l refl)
      (Yields-bind _ _ tt pass.0 (
        subst
          (λ n.
            Yields (verify_fields fs (offsets_from (start + length x) (y ∷ xs) ++ n ∷ []) slice) tt)
          (omega arith)
          (verify_fields-parts fs (y ∷ xs) (start + length x) (before ++ x) slice pass.1
            (next_part before x (y ∷ xs) slice h) (omega (arith, length-append before x, l)))))

pub verify_items-parts :
    (f : Bytes → Check (Unit {0})) (xs : List Bytes) (start : ℕ) (before slice : Bytes)
    → EachPasses f xs
    → slice ≡ before ++ concat xs
    → length before ≡ start
    → Yields (verify_items f (bounds start xs) slice) tt
unfolding verify_items offsets_from
verify_items-parts f [] start before slice pass h l = record { at = refl }
verify_items-parts f (x ∷ []) start before slice pass h l =
    Yields-bind _ _ x (slice_at-part start _ before x [] slice h l (omega arith))
      (Yields-bind _ _ tt pass.0 (record { at = refl }))
verify_items-parts f (x ∷ y ∷ xs) start before slice pass h l =
    Yields-bind _ _ x
      (slice_at-part start (start + length x) before x (concat (y ∷ xs)) slice h l refl)
      (Yields-bind _ _ tt pass.0 (
        subst
          (λ n.
            Yields (verify_items f (offsets_from (start + length x) (y ∷ xs) ++ n ∷ []) slice) tt)
          (omega arith)
          (verify_items-parts f (y ∷ xs) (start + length x) (before ++ x) slice pass.1
            (next_part before x (y ∷ xs) slice h) (omega (arith, length-append before x, l)))))
