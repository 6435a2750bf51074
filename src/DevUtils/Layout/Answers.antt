-- ===== src/DevUtils/Layout/Answers.antt =====
-- The checks never index out of range, whatever the bytes.
use ckb_vm_deterministic_sch.Prelude.{
  length-map, subst, ℕ, zero, suc, ◌+◌, ◌-◌, ◌*◌, ◌/◌, ◌%◌, ◌≤◌, ◌≡◌, refl, ap, Bool, true, not,
  ◌||◌, List, [], ◌∷◌, ◌++◌, ◌==◌, ltb, length, drop, map, arith, length-take, length-drop,
  length-append,
}
use ckb_vm_deterministic_sch.Types.{Bytes}
use ckb_vm_deterministic_sch.DevUtils.Layout.{
  Numbers, Check, unpack_chunks, is_ascending, unpack, number_at, first_offset, read_offsets,
  verify_table, verify_dynvec, verify_fixvec, verify_array,
}
use ckb_vm_deterministic_sch.DevUtils.Layout.Rules.{
  Answers, Any, Answers-fine, Answers-refuse, Answers-if, Answers-bind, slice_from-Answers,
  slice_at-Answers, AllUpTo, ascending-AllUpTo, IsSafe, AllSafe, verify_fields-Answers,
  verify_items-Answers, verify_count-Answers, AllAnswer-map,
}

module _ (num : Numbers) where
  pub unpack-Answers : (slice : Bytes) → 4 ≤ length slice → Answers Any (unpack num slice)
  unfolding unpack
  unpack-Answers slice h =
      Answers-if (ltb (length slice) 4) _ _ (λ short. absurd (ground (arith, short)))
        (λ _. Answers-fine _ tt)

  number_at-Answers :
      (start : ℕ) (slice : Bytes)
      → start + 4 ≤ length slice
      → Answers Any (number_at num start slice)
  unfolding number_at
  number_at-Answers start slice h =
      Answers-bind _ _ (slice_from-Answers start slice (omega arith))
        λ r same. unpack-Answers r (omega (arith, ap length same, length-drop start slice))

  length-unpack_chunks : (n : ℕ) (bytes : Bytes) → length (unpack_chunks num n bytes) ≡ n
  unfolding unpack_chunks
  length-unpack_chunks zero bytes = refl
  length-unpack_chunks (suc n) bytes = omega (arith, length-unpack_chunks n (drop 4 bytes))

  -- a first offset that has passed its checks
  abbrev IsFirst : Bytes → ℕ → Type 0
  IsFirst slice first = (first % 4 ≡ 0) × (8 ≤ first) × (first ≤ length slice)

  first_offset-Answers :
      (slice : Bytes) → 8 ≤ length slice → Answers (IsFirst slice) (first_offset num slice)
  unfolding first_offset
  first_offset-Answers slice h =
      Answers-bind _ _ (number_at-Answers 4 slice (omega arith)) λ first _.
        Answers-if (not (first % 4 == 0) || ltb first 8) _ _ (λ _. Answers-refuse _)
          (λ good.
            Answers-if (ltb (length slice) first) _ _ (λ _. Answers-refuse _)
              (λ fits.
                Answers-fine first
                  (ground (arith, good), ground (arith, good), ground (arith, fits))))

  -- the offsets of so many fields
  abbrev AreOffsets : Bytes → ℕ → List ℕ → Type 0
  AreOffsets slice first offsets =
      (is_ascending offsets ≡ true) × AllUpTo (length slice) offsets × (length offsets ≡ first / 4)

  read_offsets-Answers :
      (first : ℕ) (slice : Bytes)
      → IsFirst slice first
      → Answers (AreOffsets slice first) (read_offsets num first (length slice) slice)
  unfolding read_offsets
  read_offsets-Answers first slice (whole, low, fits) =
      Answers-bind _ _ (slice_at-Answers 4 first slice (omega arith) fits) λ header same.
        let chunks = unpack_chunks num (length header / 4) header in
        let offsets = chunks ++ length slice ∷ [] in
        let count : length offsets ≡ first / 4 = omega (
          arith,
          length-append chunks (length slice ∷ []),
          length-unpack_chunks (length header / 4) header,
          ap length same,
          length-take (first - 4) (drop 4 slice),
          length-drop 4 slice,
        ) in
        Answers-if (is_ascending offsets) _ _
          (λ up. Answers-fine offsets (up, ascending-AllUpTo (length slice) chunks up, count))
          (λ _. Answers-refuse _)

  -- The check of a table indexes nothing out of range, if the checks of its fields do not.
  pub verify_table-Answers :
      (fields : List (Bool → Bytes → Check (Unit {0}))) (compatible : Bool) (slice : Bytes)
      → AllSafe fields
      → Answers Any (verify_table num fields compatible slice)
  unfolding verify_table
  verify_table-Answers fields compatible slice all =
      Answers-if (ltb (length slice) 4) _ _ (λ _. Answers-refuse _)
        λ long. Answers-bind _ _ (unpack-Answers slice (ground (arith, long))) λ total _.
          Answers-if (not (length slice == total)) _ _ (λ _. Answers-refuse _)
            λ same.
              Answers-if (ltb (length slice) 8) _ _ (λ _. Answers-refuse _)
                λ longer.
                  Answers-bind _ _ (first_offset-Answers slice (ground (arith, longer)))
                    λ first good.
                      Answers-bind _ _ (verify_count-Answers (length fields) compatible _)
                        λ _ enough.
                          Answers-bind _ _
                            (subst
                              (λ n.
                                Answers (AreOffsets slice first) (read_offsets num first n slice))
                              (ground (arith, same)) (read_offsets-Answers first slice good))
                            λ offsets o.
                              verify_fields-Answers (map (λ f. f compatible) fields) offsets slice
                                (AllAnswer-map fields compatible all) o.0 o.1
                                (omega (
                                  arith,
                                  o.2,
                                  enough,
                                  good.1,
                                  length-map (λ (f : Bool → Bytes → Check (Unit {0})). f compatible)
                                      fields,
                                ))

  -- The check of a vector of items of any size neither, if that of an item does not.
  pub verify_dynvec-Answers :
      (item : Bool → Bytes → Check (Unit {0})) (compatible : Bool) (slice : Bytes)
      → IsSafe item
      → Answers Any (verify_dynvec num item compatible slice)
  unfolding verify_dynvec
  verify_dynvec-Answers item compatible slice safe =
      Answers-if (ltb (length slice) 4) _ _ (λ _. Answers-refuse _)
        λ long. Answers-bind _ _ (unpack-Answers slice (ground (arith, long))) λ total _.
          Answers-if (not (length slice == total)) _ _ (λ _. Answers-refuse _)
            λ same.
              Answers-if (length slice == 4) _ _ (λ _. Answers-fine tt tt)
                λ more.
                  Answers-if (ltb (length slice) 8) _ _ (λ _. Answers-refuse _)
                    λ longer.
                      Answers-bind _ _ (first_offset-Answers slice (ground (arith, longer)))
                        λ first good.
                          Answers-bind _ _
                            (subst
                              (λ n.
                                Answers (AreOffsets slice first) (read_offsets num first n slice))
                              (ground (arith, same)) (read_offsets-Answers first slice good))
                            λ offsets o.
                              verify_items-Answers (item compatible) offsets slice (safe compatible)
                                o.0 o.1

  pub verify_fixvec-Answers :
      (item_size : ℕ) (slice : Bytes) → Answers Any (verify_fixvec num item_size slice)
  unfolding verify_fixvec
  verify_fixvec-Answers item_size slice =
      Answers-if (ltb (length slice) 4) _ _ (λ _. Answers-refuse _)
        λ long. Answers-bind _ _ (unpack-Answers slice (ground (arith, long))) λ count _.
          Answers-if (count == 0) _ _
            (λ _.
              Answers-if (length slice == 4) _ _ (λ _. Answers-fine tt tt) (λ _. Answers-refuse _))
            λ _.
              Answers-if (length slice == 4 + item_size * count) _ _ (λ _. Answers-fine tt tt)
                (λ _. Answers-refuse _)

pub verify_array-Answers : (size : ℕ) (slice : Bytes) → Answers Any (verify_array size slice)
unfolding verify_array
verify_array-Answers size slice =
    Answers-if (length slice == size) _ _ (λ _. Answers-fine tt tt) (λ _. Answers-refuse _)
