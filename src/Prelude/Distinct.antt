-- ===== src/Prelude/Distinct.antt =====
-- Lists of ids without repetition, and how long they can be.
use Prim.Native.Nat.{ℕ, ◌+◌, ◌≤◌, ◌<◌}
use mathlib.Core.Path.{◌≡◌, refl}
use mathlib.Core.Bool.{Bool, true, false, not, ◌||◌}
use mathlib.Core.List.{List, [], ◌∷◌, ◌++◌, reverse, reverse-cons}
use native.Mathlib.Omega.{arith}
use ckb_vm_deterministic_sch.Prelude.Tests.{◌==◌, if◌then◌else◌}
use ckb_vm_deterministic_sch.Prelude.Lists.{length, mem, keep_if}

abbrev pub IsDistinct : List ℕ → Type 0
IsDistinct [] = Unit
IsDistinct (x ∷ xs) = (mem x xs ≡ false) × IsDistinct xs

pub mem-append : (k : ℕ) (xs ys : List ℕ) → mem k (xs ++ ys) ≡ (mem k xs || mem k ys)
mem-append k [] ys = refl
mem-append k (x ∷ xs) ys = ground (arith, mem-append k xs ys)

pub mem-reverse : (k : ℕ) (xs : List ℕ) → mem k (reverse xs) ≡ mem k xs
mem-reverse k [] = refl
mem-reverse k (x ∷ xs) =
    ground (arith, reverse-cons x xs, mem-append k (reverse xs) (x ∷ []), mem-reverse k xs)

pub mem-keep_if :
    (k : ℕ) (p : ℕ → Bool) (xs : List ℕ) → mem k (keep_if p xs) ≡ (if p k then mem k xs else false)
mem-keep_if k p [] = ground arith
mem-keep_if k p (x ∷ xs) = ground (arith, mem-keep_if k p xs)

pub keep_if-IsDistinct : (p : ℕ → Bool) (xs : List ℕ) → IsDistinct xs → IsDistinct (keep_if p xs)
keep_if-IsDistinct p [] d = tt
keep_if-IsDistinct p (x ∷ xs) d = ground (arith, mem-keep_if x p xs, keep_if-IsDistinct p xs d.1)

pub append-IsDistinct :
    (xs ys : List ℕ)
    → IsDistinct xs
    → IsDistinct ys
    → ((k : ℕ) → mem k xs ≡ true → mem k ys ≡ false)
    → IsDistinct (xs ++ ys)
append-IsDistinct [] ys d c h = c
append-IsDistinct (x ∷ xs) ys d c h = (
  ground (arith, mem-append x xs ys, h x),
  append-IsDistinct xs ys d.1 c (λ k m. h k (ground arith)),
)

pub reverse-IsDistinct : (xs : List ℕ) → IsDistinct xs → IsDistinct (reverse xs)
reverse-IsDistinct [] d = tt
reverse-IsDistinct (x ∷ xs) d = rw (reverse-cons x xs) (
    append-IsDistinct (reverse xs) (x ∷ []) (reverse-IsDistinct xs d.1) (refl, tt)
      (λ k m. ground (arith, mem-reverse k xs, m, d.0)))

length-keep_if-le : (p : ℕ → Bool) (xs : List ℕ) → length (keep_if p xs) ≤ length xs
length-keep_if-le p [] = omega arith
length-keep_if-le p (x ∷ xs) = ground (arith, length-keep_if-le p xs)

length-delete :
    (x : ℕ) (ys : List ℕ) → mem x ys ≡ true → length (keep_if (λ k. not (k == x)) ys) < length ys
length-delete x [] m = cc
length-delete x (y ∷ ys) m =
    ground (arith, length-delete x ys, length-keep_if-le (λ k. not (k == x)) ys)

-- Distinct members of a list are no more than the list is long.
pub length-le_of_distinct :
    (xs ys : List ℕ)
    → IsDistinct xs
    → ((k : ℕ) → mem k xs ≡ true → mem k ys ≡ true)
    → length xs ≤ length ys
length-le_of_distinct [] ys d h = omega arith
length-le_of_distinct (x ∷ xs) ys d h =
    let xs_le =
      length-le_of_distinct xs (keep_if (λ k. not (k == x)) ys) d.1
        (λ k m. ground (arith, mem-keep_if k (λ k. not (k == x)) ys, h k, m, d.0)) in
    let x_in = length-delete x ys (ground (arith, h x)) in omega (arith, xs_le, x_in)

pub length-keep_if :
    (p : ℕ → Bool) (xs : List ℕ)
    → length (keep_if p xs) + length (keep_if (λ k. not (p k)) xs) ≡ length xs
length-keep_if p [] = omega arith
length-keep_if p (x ∷ xs) = ground (arith, length-keep_if p xs)
