-- ===== src/DevUtils/Layout/Rules.antt =====
-- Checks that answer: rules for what has a value or refuses, and never indexes out of range.
use ckb_vm_deterministic_sch.Prelude.{
  ℕ, ◌+◌, ◌-◌, ◌≤◌, ◌≡◌, refl, Bool, true, false, not, ◌&&◌, List, [], ◌∷◌, ◌++◌, ltb, leb,
  if◌then◌else◌, length, take, drop, map, arith,
}
use ckb_vm_deterministic_sch.Types.{Bytes}
use ckb_vm_deterministic_sch.DevUtils.Layout.{
  Broken, Check, fine, refuse, crash, ◌>>=◌, slice_from, slice_at, is_ascending, verify_fields,
  verify_items, verify_count,
}

-- A value with `Q`, or a refusal.
abbrev Gives : {A : Type 0} → (A → Type 0) → Check A → Type 0
Gives Q (fine a) = Q a
Gives Q (refuse x) = Unit
Gives Q crash = ⊥

pub record Answers {A : Type 0} (Q : A → Type 0) (c : Check A) : Type 0 where
  pub at : Gives Q c

abbrev pub Any : {A : Type 0} → A → Type 0
Any a = Unit

module _ {A : Type 0} {Q : A → Type 0} where
  pub Answers-fine : (a : A) → Q a → Answers Q (fine a)
  Answers-fine a h = record { at = h }

  pub Answers-refuse : (x : Broken) → Answers Q (refuse x)
  Answers-refuse x = record { at = tt }

  pub Answers-if :
      (b : Bool) (m n : Check A)
      → (b ≡ true → Answers Q m)
      → (b ≡ false → Answers Q n)
      → Answers Q (if b then m else n)
  Answers-if true m n h k = h refl
  Answers-if false m n h k = k refl

  pub Answers-bind :
      {B : Type 0} {R : B → Type 0} (m : Check B) (f : B → Check A)
      → Answers R m
      → ((b : B) → R b → Answers Q (f b))
      → Answers Q (m >>= f)
  Answers-bind (fine b) f h k = k b h.at
  Answers-bind (refuse x) f h k = record { at = tt }
  Answers-bind crash f h k = absurd h.at

pub slice_from-Answers :
    (start : ℕ) (slice : Bytes)
    → start ≤ length slice
    → Answers (λ r. r ≡ drop start slice) (slice_from start slice)
unfolding slice_from
slice_from-Answers start slice h =
    Answers-if (leb start (length slice)) _ _ (λ _. Answers-fine _ refl)
      (λ out. absurd (ground (arith, out)))

pub slice_at-Answers :
    (start end : ℕ) (slice : Bytes)
    → start ≤ end
    → end ≤ length slice
    → Answers (λ r. r ≡ take (end - start) (drop start slice)) (slice_at start end slice)
unfolding slice_at
slice_at-Answers start end slice h k =
    Answers-if (leb start end) _ _
      (λ _.
        Answers-if (leb end (length slice)) _ _ (λ _. Answers-fine _ refl)
          (λ out. absurd (ground (arith, out))))
      (λ out. absurd (ground (arith, out)))

-- Every offset is at most `n`.
abbrev pub AllUpTo : ℕ → List ℕ → Type 0
AllUpTo n [] = Unit
AllUpTo n (a ∷ l) = (a ≤ n) × AllUpTo n l

pub ascending-AllUpTo :
    (n : ℕ) (l : List ℕ) → is_ascending (l ++ n ∷ []) ≡ true → AllUpTo n (l ++ n ∷ [])
unfolding is_ascending
ascending-AllUpTo n [] h = (omega arith, tt)
ascending-AllUpTo n (a ∷ []) h = (ground (arith, h), (omega arith, tt))
ascending-AllUpTo n (a ∷ b ∷ l) h =
    let rest = ascending-AllUpTo n (b ∷ l) (ground (arith, h)) in (ground (arith, h, rest.0), rest)

-- Every check answers on any bytes.
abbrev pub AllAnswer : List (Bytes → Check (Unit {0})) → Type 0
AllAnswer [] = Unit
AllAnswer (f ∷ fs) = ((slice : Bytes) → Answers Any (f slice)) × AllAnswer fs

-- The check answers on any bytes, in either mode.
abbrev pub IsSafe : (Bool → Bytes → Check (Unit {0})) → Type 0
IsSafe f = (compatible : Bool) (slice : Bytes) → Answers Any (f compatible slice)

abbrev pub AllSafe : List (Bool → Bytes → Check (Unit {0})) → Type 0
AllSafe [] = Unit
AllSafe (f ∷ fs) = IsSafe f × AllSafe fs

pub verify_fields-Answers :
    (fields : List (Bytes → Check (Unit {0}))) (offsets : List ℕ) (slice : Bytes)
    → AllAnswer fields
    → is_ascending offsets ≡ true
    → AllUpTo (length slice) offsets
    → length fields + 1 ≤ length offsets
    → Answers Any (verify_fields fields offsets slice)
unfolding verify_fields is_ascending
verify_fields-Answers [] offsets slice all up within few = Answers-fine tt tt
verify_fields-Answers (f ∷ fs) [] slice all up within few = absurd (omega (arith, few))
verify_fields-Answers (f ∷ fs) (a ∷ []) slice all up within few = absurd (omega (arith, few))
verify_fields-Answers (f ∷ fs) (a ∷ b ∷ offsets) slice all up within few =
    Answers-bind _ _ (slice_at-Answers a b slice (ground (arith, up)) within.1.0) λ field _.
      Answers-bind _ _ (all.0 field) λ _ _.
        verify_fields-Answers fs (b ∷ offsets) slice all.1 (ground (arith, up)) within.1
          (omega (arith, few))

pub verify_items-Answers :
    (f : Bytes → Check (Unit {0})) (offsets : List ℕ) (slice : Bytes)
    → ((item : Bytes) → Answers Any (f item))
    → is_ascending offsets ≡ true
    → AllUpTo (length slice) offsets
    → Answers Any (verify_items f offsets slice)
unfolding verify_items is_ascending
verify_items-Answers f [] slice all up within = Answers-fine tt tt
verify_items-Answers f (a ∷ []) slice all up within = Answers-fine tt tt
verify_items-Answers f (a ∷ b ∷ offsets) slice all up within =
    Answers-bind _ _ (slice_at-Answers a b slice (ground (arith, up)) within.1.0) λ item _.
      Answers-bind _ _ (all item)
        λ _ _. verify_items-Answers f (b ∷ offsets) slice all (ground (arith, up)) within.1

pub verify_count-Answers :
    (expected : ℕ) (compatible : Bool) (n : ℕ)
    → Answers (λ _. expected ≤ n) (verify_count expected compatible n)
unfolding verify_count
verify_count-Answers expected compatible n =
    Answers-if (ltb n expected) _ _ (λ _. Answers-refuse _)
      λ enough.
        Answers-if (not compatible && ltb expected n) _ _ (λ _. Answers-refuse _)
          λ _. Answers-fine tt (ground (arith, enough))

pub AllAnswer-map :
    (fields : List (Bool → Bytes → Check (Unit {0}))) (compatible : Bool)
    → AllSafe fields
    → AllAnswer (map (λ f. f compatible) fields)
AllAnswer-map [] compatible all = tt
AllAnswer-map (f ∷ fs) compatible all = (all.0 compatible, AllAnswer-map fs compatible all.1)
