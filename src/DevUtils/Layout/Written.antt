-- ===== src/DevUtils/Layout/Written.antt =====
-- What the builders write: its length, and where the offsets and the parts stand in it.
use mathlib.Core.List.{append-nil}
use ckb_vm_deterministic_sch.Prelude.{
  take, ℕ, zero, suc, ◌+◌, ◌-◌, ◌*◌, ◌%◌, ◌^◌, ◌<◌, ◌≡◌, refl, sym, ap, ◌∙◌, Bool, true, false,
  List, [], ◌∷◌, ◌++◌, ltb, leb, if◌then◌else◌, length, drop, arith, length-append,
}
use ckb_vm_deterministic_sch.Types.{Bytes}
use ckb_vm_deterministic_sch.DevUtils.Layout.{
  Numbers, Check, fine, ◌>>=◌, slice_from, slice_at, unpack_chunks, is_ascending, unpack, number_at,
}
use ckb_vm_deterministic_sch.DevUtils.Layout.Build.{
  concat, sum_length, offsets_from, expected_parts, pack, pack_all, build_table,
}

-- What is assumed of the foreign numbers: four bytes, from which a `u32` comes back.
pub record IsCodec (num : Numbers) : Type 0 where
  pub length-pack : (n : ℕ) → length (num.pack_number n) ≡ 4
  pub unpack-pack :
      (n : ℕ) (rest : Bytes) → n < 2 ^ 32 → num.unpack_number (num.pack_number n ++ rest) ≡ n

-- The value is `a`.
pub record Yields {A : Type 0} (c : Check A) (a : A) : Type 0 where
  pub at : c ≡ fine a

module _ {A : Type 0} {a : A} where
  pub Yields-bind :
      {B : Type 0} (m : Check B) (f : B → Check A) (b : B)
      → Yields m b
      → Yields (f b) a
      → Yields (m >>= f) a
  Yields-bind m f b h k = rw h.at k

  pub Yields-then :
      (b : Bool) (m n : Check A) → b ≡ true → Yields m a → Yields (if b then m else n) a
  Yields-then b m n h k = rw h k

  pub Yields-else :
      (b : Bool) (m n : Check A) → b ≡ false → Yields n a → Yields (if b then m else n) a
  Yields-else b m n h k = rw h k

pub take-append : {A : Type 0} (n : ℕ) (xs ys : List A) → length xs ≡ n → take n (xs ++ ys) ≡ xs
take-append zero [] ys h = refl
take-append zero (x ∷ xs) ys h = absurd (omega (arith, h))
take-append (suc n) [] ys h = absurd (omega (arith, h))
take-append (suc n) (x ∷ xs) ys h = ap (λ l. x ∷ l) (take-append n xs ys (omega (arith, h)))

pub drop-append : {A : Type 0} (n : ℕ) (xs ys : List A) → length xs ≡ n → drop n (xs ++ ys) ≡ ys
drop-append zero [] ys h = refl
drop-append zero (x ∷ xs) ys h = absurd (omega (arith, h))
drop-append (suc n) [] ys h = absurd (omega (arith, h))
drop-append (suc n) (x ∷ xs) ys h = drop-append n xs ys (omega (arith, h))

-- A slice that starts behind `before`.
pub slice_from-part :
    (start : ℕ) (before after slice : Bytes)
    → slice ≡ before ++ after
    → length before ≡ start
    → Yields (slice_from start slice) after
unfolding slice_from
slice_from-part start before after slice h l =
    Yields-then (leb start (length slice)) _ _
      (ground (arith, ap length h, length-append before after, l))
      (record { at = ap fine (ap (drop start) h ∙ drop-append start before after l) })

pub slice_at-part :
    (start end : ℕ) (before part after slice : Bytes)
    → slice ≡ before ++ (part ++ after)
    → length before ≡ start
    → start + length part ≡ end
    → Yields (slice_at start end slice) part
unfolding slice_at
slice_at-part start end before part after slice h l k =
    let size : length slice ≡ start + (length part + length after) =
      omega
        (arith, ap length h, length-append before (part ++ after), length-append part after, l) in
    Yields-then (leb start end) _ _ (ground (arith, k)) (
      Yields-then (leb end (length slice)) _ _ (ground (arith, size, k)) (record {
        at =
            ap (λ s. fine (take (end - start) (drop start s))) h
            ∙ ap (λ s. fine (take (end - start) s)) (drop-append start before (part ++ after) l)
            ∙ ap fine (take-append (end - start) part after (omega (arith, k)));
      }))

pub length-concat : (xs : List Bytes) → length (concat xs) ≡ sum_length xs
length-concat [] = refl
length-concat (x ∷ xs) = omega (arith, length-append x (concat xs), length-concat xs)

pub length-offsets_from : (start : ℕ) (xs : List Bytes) → length (offsets_from start xs) ≡ length xs
unfolding offsets_from
length-offsets_from start [] = refl
length-offsets_from start (x ∷ xs) = omega (arith, length-offsets_from (start + length x) xs)

-- Every offset fits in a `u32`.
abbrev pub AllFit32 : List ℕ → Type 0
AllFit32 [] = Unit
AllFit32 (n ∷ l) = (n < 2 ^ 32) × AllFit32 l

pub offsets_from-AllFit32 :
    (start : ℕ) (xs : List Bytes)
    → start + sum_length xs < 2 ^ 32
    → AllFit32 (offsets_from start xs)
unfolding offsets_from
offsets_from-AllFit32 start [] h = tt
offsets_from-AllFit32 start (x ∷ xs) h =
    (omega (arith, h), offsets_from-AllFit32 (start + length x) xs (omega (arith, h)))

-- the offsets and the end
abbrev pub bounds : ℕ → List Bytes → List ℕ
bounds start xs = offsets_from start xs ++ (start + sum_length xs) ∷ []

pub bounds-is_ascending : (start : ℕ) (xs : List Bytes) → is_ascending (bounds start xs) ≡ true
unfolding is_ascending offsets_from
bounds-is_ascending start [] = refl
bounds-is_ascending start (x ∷ []) = ground arith
bounds-is_ascending start (x ∷ y ∷ xs) =
    ground (arith, bounds-is_ascending (start + length x) (y ∷ xs))

module _ (num : Numbers) (codec : IsCodec num) where
  pub length-pack : (n : ℕ) → length (pack num n) ≡ 4
  unfolding pack
  length-pack n = codec.length-pack (n % 2 ^ 32)

  pub unpack-pack : (n : ℕ) (rest : Bytes) → n < 2 ^ 32 → num.unpack_number (pack num n ++ rest) ≡ n
  unfolding pack
  unpack-pack n rest h =
      let same : n % 2 ^ 32 ≡ n = omega (arith, h) in
      codec.unpack-pack (n % 2 ^ 32) rest (omega (arith, h)) ∙ same

  pub length-pack_all : (l : List ℕ) → length (pack_all num l) ≡ 4 * length l
  unfolding pack_all
  length-pack_all [] = refl
  length-pack_all (n ∷ l) =
      omega (arith, length-append (pack num n) (pack_all num l), length-pack n, length-pack_all l)

  -- A number at the start of a slice.
  pub unpack-part :
      (n : ℕ) (rest slice : Bytes)
      → slice ≡ pack num n ++ rest
      → n < 2 ^ 32
      → Yields (unpack num slice) n
  unfolding unpack
  unpack-part n rest slice h fits =
      Yields-else (ltb (length slice) 4) _ _
        (ground (arith, ap length h, length-append (pack num n) rest, length-pack n))
        (record { at = ap fine (ap (λ s. num.unpack_number s) h ∙ unpack-pack n rest fits) })

  pub number_at-part :
      (start n : ℕ) (before rest slice : Bytes)
      → slice ≡ before ++ (pack num n ++ rest)
      → length before ≡ start
      → n < 2 ^ 32
      → Yields (number_at num start slice) n
  unfolding number_at
  number_at-part start n before rest slice h l fits =
      Yields-bind _ _ _ (slice_from-part start before (pack num n ++ rest) slice h l)
        (unpack-part n rest _ refl fits)

  pub unpack_chunks-pack_all :
      (l : List ℕ) → AllFit32 l → unpack_chunks num (length l) (pack_all num l) ≡ l
  unfolding unpack_chunks pack_all
  unpack_chunks-pack_all [] h = refl
  unpack_chunks-pack_all (n ∷ l) h =
      let rest = pack_all num l in
      ap (λ x. num.unpack_number x ∷ unpack_chunks num (length l) (drop 4 (pack num n ++ rest)))
        (take-append 4 (pack num n) rest (length-pack n))
      ∙ ap (λ x. num.unpack_number (pack num n) ∷ unpack_chunks num (length l) x)
          (drop-append 4 (pack num n) rest (length-pack n))
      ∙ ap (λ x. x ∷ unpack_chunks num (length l) rest)
          (ap (λ b. num.unpack_number b) (sym (append-nil (pack num n))) ∙ unpack-pack n [] h.0)
      ∙ ap (λ x. n ∷ x) (unpack_chunks-pack_all l h.1)

  -- A table is as long as expected.
  pub length-build_table :
      (parts : List Bytes) → length (build_table num parts) ≡ expected_parts parts
  unfolding build_table expected_parts
  length-build_table parts =
      let start = 4 * (length parts + 1) in
      let offsets = pack_all num (offsets_from start parts) in
      let total = pack num (start + sum_length parts) in
      omega (
        arith,
        length-append total (offsets ++ concat parts),
        length-append offsets (concat parts),
        length-pack (start + sum_length parts),
        length-pack_all (offsets_from start parts),
        length-offsets_from start parts,
        length-concat parts,
      )
