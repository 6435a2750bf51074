-- ===== src/DevUtils/Layout/Trips.antt =====
-- What a builder writes passes the check.
use ckb_vm_deterministic_sch.Prelude.{
  length-map, ℕ, ◌+◌, ◌*◌, ◌/◌, ◌%◌, ◌^◌, ◌<◌, ◌≡◌, refl, sym, ap, subst, ◌∙◌, Bool, false, not,
  ◌&&◌, ◌||◌, List, [], ◌∷◌, ◌++◌, ◌==◌, ltb, length, map, arith, length-append, Bool-cases, inl,
  inr,
}
use mathlib.Core.List.{append_assoc, append-nil}
use ckb_vm_deterministic_sch.Types.{Bytes}
use ckb_vm_deterministic_sch.DevUtils.Layout.{
  Numbers, Check, unpack_chunks, is_ascending, first_offset, read_offsets, verify_count,
  verify_table, verify_dynvec, verify_fixvec,
}
use ckb_vm_deterministic_sch.DevUtils.Layout.Build.{
  concat, sum_length, offsets_from, expected_parts, pack, pack_all, build_fixvec, build_table,
  build_dynvec,
}
use ckb_vm_deterministic_sch.DevUtils.Layout.Written.{
  IsCodec, Yields, Yields-bind, Yields-then, Yields-else, slice_at-part, length-concat,
  length-offsets_from, offsets_from-AllFit32, bounds, bounds-is_ascending, length-pack,
  length-pack_all, unpack-part, number_at-part, unpack_chunks-pack_all,
}
use ckb_vm_deterministic_sch.DevUtils.Layout.Passes.{
  AllPass, EachPasses, AllSized, sum-sized, AllPass-length, verify_fields-parts, verify_items-parts,
}

-- As many fields as the schema has, in either mode.
exact_count :
    (compatible : Bool) (expected n : ℕ)
    → expected ≡ n
    → Yields (verify_count expected compatible n) tt
unfolding verify_count
exact_count compatible expected n h =
    Yields-else (ltb n expected) _ _ (ground (arith, h)) (
      Yields-else (not compatible && ltb expected n) _ _ (ground (arith, h)) (record { at = refl }))

-- The empty vector is written as its size.
empty_dynvec :
    (num : Numbers) (codec : IsCodec num) (item : Bool → Bytes → Check (Unit {0}))
    (compatible : Bool)
    → Yields (verify_dynvec num item compatible (pack num 4)) tt
unfolding verify_dynvec
empty_dynvec num codec item c =
    Yields-else (ltb (length (pack num 4)) 4) _ _ (ground (arith, length-pack num codec 4)) (
      Yields-bind _ _ 4
        (unpack-part num codec 4 [] (pack num 4) (sym (append-nil (pack num 4))) (omega arith))
        (Yields-else (not (length (pack num 4) == 4)) _ _ (ground (arith, length-pack num codec 4))
          (Yields-then (length (pack num 4) == 4) _ _ (ground (arith, length-pack num codec 4))
            (record { at = refl }))))

module _ (num : Numbers) (codec : IsCodec num) (x : Bytes) (xs : List Bytes) where
  -- the parts of a table, one at least
  abbrev parts : List Bytes
  parts = x ∷ xs

  abbrev head_size : ℕ
  head_size = 4 * (length parts + 1)

  abbrev header : Bytes
  header = pack_all num (offsets_from head_size parts)

  abbrev written : Bytes
  written = pack num (head_size + sum_length parts) ++ (header ++ concat parts)

  written-length : length written ≡ head_size + sum_length parts
  written-length =
      let total = pack num (head_size + sum_length parts) in
      omega (
        arith,
        length-append total (header ++ concat parts),
        length-append header (concat parts),
        length-pack num codec (head_size + sum_length parts),
        length-pack_all num codec (offsets_from head_size parts),
        length-offsets_from head_size parts,
        length-concat parts,
      )

  length-header : length header ≡ 4 * length parts
  length-header = omega (
    arith,
    length-pack_all num codec (offsets_from head_size parts),
    length-offsets_from head_size parts,
  )

  first_offset-written :
      head_size + sum_length parts < 2 ^ 32 → Yields (first_offset num written) head_size
  unfolding first_offset pack_all offsets_from
  first_offset-written fits =
      let rest = pack_all num (offsets_from (head_size + length x) xs) in
      Yields-bind _ _ head_size
        (number_at-part num codec 4 head_size (pack num (head_size + sum_length parts))
          (rest ++ concat parts) written
          (ap (λ b. pack num (head_size + sum_length parts) ++ b)
            (append_assoc (pack num head_size) rest (concat parts)))
          (length-pack num codec (head_size + sum_length parts)) (omega (arith, fits)))
        (Yields-else (not (head_size % 4 == 0) || ltb head_size 8) _ _ (ground arith) (
          Yields-else (ltb (length written) head_size) _ _ (ground (arith, written-length))
            (record { at = refl })))

  read_offsets-written :
      head_size + sum_length parts < 2 ^ 32
      → Yields
          (read_offsets num head_size (head_size + sum_length parts) written)
          (bounds head_size parts)
  unfolding read_offsets
  read_offsets-written fits =
      let offsets = offsets_from head_size parts in
      let count : length header / 4 ≡ length offsets =
        omega (arith, length-header, length-offsets_from head_size parts) in
      Yields-bind _ _ header
        (slice_at-part 4 head_size (pack num (head_size + sum_length parts)) header (concat parts)
          written refl (length-pack num codec (head_size + sum_length parts))
          (omega (arith, length-header)))
        (rw
          (ap (λ n. unpack_chunks num n header) count
            ∙ unpack_chunks-pack_all num codec offsets (offsets_from-AllFit32 head_size parts fits))
          (Yields-then (is_ascending (bounds head_size parts)) _ _
            (bounds-is_ascending head_size parts) (record { at = refl })))

  before_parts : length (pack num (head_size + sum_length parts) ++ header) ≡ head_size
  before_parts = omega (
    arith,
    length-append (pack num (head_size + sum_length parts)) header,
    length-pack num codec (head_size + sum_length parts),
    length-header,
  )

  split : written ≡ (pack num (head_size + sum_length parts) ++ header) ++ concat parts
  split = sym (append_assoc (pack num (head_size + sum_length parts)) header (concat parts))

  verify_table-written :
      (fields : List (Bool → Bytes → Check (Unit {0}))) (compatible : Bool)
      → head_size + sum_length parts < 2 ^ 32
      → AllPass (map (λ f. f compatible) fields) parts
      → Yields (verify_table num fields compatible written) tt
  unfolding verify_table
  verify_table-written fields c fits pass =
      let checks = map (λ (f : Bool → Bytes → Check (Unit {0})). f c) fields in
      let count : length fields ≡ length parts =
        sym (length-map (λ (f : Bool → Bytes → Check (Unit {0})). f c) fields)
        ∙ AllPass-length checks parts pass in
      Yields-else (ltb (length written) 4) _ _ (ground (arith, written-length)) (
        Yields-bind _ _ (head_size + sum_length parts)
          (unpack-part num codec (head_size + sum_length parts) _ written refl fits)
          (Yields-else (not (length written == head_size + sum_length parts)) _ _
            (ground (arith, written-length))
            (Yields-else (ltb (length written) 8) _ _ (ground (arith, written-length)) (
              Yields-bind _ _ head_size (first_offset-written fits) (
                Yields-bind _ _ tt (exact_count c (length fields) _ (omega (arith, count))) (
                  Yields-bind _ _ (bounds head_size parts) (read_offsets-written fits) (
                    verify_fields-parts checks parts head_size
                      (pack num (head_size + sum_length parts) ++ header) written pass split
                      before_parts)))))))

  verify_dynvec-written :
      (item : Bool → Bytes → Check (Unit {0})) (compatible : Bool)
      → head_size + sum_length parts < 2 ^ 32
      → EachPasses (item compatible) parts
      → Yields (verify_dynvec num item compatible written) tt
  unfolding verify_dynvec
  verify_dynvec-written item c fits pass =
      Yields-else (ltb (length written) 4) _ _ (ground (arith, written-length)) (
        Yields-bind _ _ (head_size + sum_length parts)
          (unpack-part num codec (head_size + sum_length parts) _ written refl fits)
          (Yields-else (not (length written == head_size + sum_length parts)) _ _
            (ground (arith, written-length))
            (Yields-else (length written == 4) _ _ (ground (arith, written-length)) (
              Yields-else (ltb (length written) 8) _ _ (ground (arith, written-length)) (
                Yields-bind _ _ head_size (first_offset-written fits) (
                  Yields-bind _ _ (bounds head_size parts) (read_offsets-written fits) (
                    verify_items-parts (item c) parts head_size
                      (pack num (head_size + sum_length parts) ++ header) written pass split
                      before_parts)))))))

module _ (num : Numbers) (codec : IsCodec num) where
  -- A table that is written from parts that pass their fields' checks passes its check.
  pub build_table-verify :
      (fields : List (Bool → Bytes → Check (Unit {0}))) (compatible : Bool) (x : Bytes)
      (xs : List Bytes)
      → expected_parts (x ∷ xs) < 2 ^ 32
      → AllPass (map (λ f. f compatible) fields) (x ∷ xs)
      → Yields (verify_table num fields compatible (build_table num (x ∷ xs))) tt
  unfolding build_table expected_parts
  build_table-verify fields c x xs fits pass =
      verify_table-written num codec x xs fields c fits pass

  pub dynvec_some :
      (x : Bytes) (xs : List Bytes) → build_dynvec num (x ∷ xs) ≡ build_table num (x ∷ xs)
  unfolding build_dynvec
  dynvec_some x xs =
      let some_items : (length (x ∷ xs) == 0) ≡ false = ground arith in rw some_items refl

  -- A vector that is written from items that pass their check passes its check.
  pub build_dynvec-verify :
      (item : Bool → Bytes → Check (Unit {0})) (compatible : Bool) (items : List Bytes)
      → expected_parts items < 2 ^ 32
      → EachPasses (item compatible) items
      → Yields (verify_dynvec num item compatible (build_dynvec num items)) tt
  unfolding build_dynvec build_table expected_parts
  build_dynvec-verify item c [] fits pass = empty_dynvec num codec item c
  build_dynvec-verify item c (x ∷ xs) fits pass =
      subst (λ b. Yields (verify_dynvec num item c b) tt) (sym (dynvec_some x xs))
        (verify_dynvec-written num codec x xs item c fits pass)

  -- So does a vector of items of a fixed size, and that size.
  pub build_fixvec-verify :
      (item_size : ℕ) (items : List Bytes)
      → AllSized item_size items
      → length items < 2 ^ 32
      → Yields (verify_fixvec num item_size (build_fixvec num items)) tt
  unfolding verify_fixvec build_fixvec
  build_fixvec-verify item_size items sized fits =
      let head = pack num (length items) in
      let size : length (head ++ concat items) ≡ 4 + item_size * length items = omega (
        arith,
        length-append head (concat items),
        length-pack num codec (length items),
        length-concat items,
        sum-sized item_size items sized,
      ) in
      Yields-else (ltb (length (head ++ concat items)) 4) _ _ (ground (arith, size)) (
        Yields-bind _ _ (length items)
          (unpack-part num codec (length items) (concat items) _ refl fits)
          (elim (Bool-cases (length items == 0)) [
            | inl none_there ↦
                let zero_items : item_size * length items ≡ item_size * 0 =
                  ap (λ m. item_size * m) (ground (arith, none_there)) in
                Yields-then (length items == 0) _ _ none_there (
                  Yields-then (length (head ++ concat items) == 4) _ _
                    (ground (arith, size, zero_items)) (record { at = refl }))
            | inr some_there ↦ Yields-else (length items == 0) _ _ some_there (
                Yields-then (length (head ++ concat items) == 4 + item_size * length items) _ _
                  (ground (arith, size)) (record { at = refl }))
          ]))
