-- ===== src/DevUtils/Layout/Parts.antt =====
-- The accessors give back the parts that a builder has written.
use mathlib.Core.List.{append_assoc, append-nil}
use ckb_vm_deterministic_sch.Prelude.{
  ℕ, ◌+◌, ◌*◌, ◌/◌, ◌^◌, ◌<◌, ◌≡◌, refl, sym, ap, ◌∙◌, false, List, [], ◌∷◌, ◌++◌, ◌==◌, sub64,
  length, arith, length-append,
}
use ckb_vm_deterministic_sch.Types.{Bytes}
use ckb_vm_deterministic_sch.DevUtils.Layout.{Numbers, fine, slice_from, number_at}
use ckb_vm_deterministic_sch.DevUtils.Layout.Fields.{
  offset_count, has_extra_fields, field, last_field,
}
use ckb_vm_deterministic_sch.DevUtils.Layout.Build.{
  concat, sum_length, offsets_from, expected_parts, pack, pack_all, build_table,
}
use ckb_vm_deterministic_sch.DevUtils.Layout.Written.{
  IsCodec, Yields, Yields-bind, Yields-else, slice_from-part, slice_at-part, length-concat,
  length-offsets_from, length-pack, length-pack_all, unpack-part, number_at-part,
}

pub concat-append : (xs ys : List Bytes) → concat (xs ++ ys) ≡ concat xs ++ concat ys
concat-append [] ys = refl
concat-append (x ∷ xs) ys =
    ap (λ b. x ++ b) (concat-append xs ys) ∙ sym (append_assoc x (concat xs) (concat ys))

sum_length-append : (xs ys : List Bytes) → sum_length (xs ++ ys) ≡ sum_length xs + sum_length ys
sum_length-append [] ys = omega arith
sum_length-append (x ∷ xs) ys = omega (arith, sum_length-append xs ys)

offsets_from-append :
    (start : ℕ) (xs ys : List Bytes)
    → offsets_from start (xs ++ ys)
      ≡ offsets_from start xs ++ offsets_from (start + sum_length xs) ys
unfolding offsets_from
offsets_from-append start [] ys = ap (λ n. offsets_from n ys) (omega arith)
offsets_from-append start (x ∷ xs) ys =
    ap (λ l. start ∷ l)
      (offsets_from-append (start + length x) xs ys
        ∙ ap (λ n. offsets_from (start + length x) xs ++ offsets_from n ys) (omega arith))

module _ (num : Numbers) (codec : IsCodec num) where
  pack_all-append : (l m : List ℕ) → pack_all num (l ++ m) ≡ pack_all num l ++ pack_all num m
  unfolding pack_all
  pack_all-append [] m = refl
  pack_all-append (n ∷ l) m =
      ap (λ b. pack num n ++ b) (pack_all-append l m)
      ∙ sym (append_assoc (pack num n) (pack_all num l) (pack_all num m))

  module _ (before parts : List Bytes) where
    -- A table of `before` and of `parts` behind them.
    abbrev head_size : ℕ
    head_size = 4 * (length (before ++ parts) + 1)

    abbrev pub here : ℕ
    here = head_size + sum_length before

    abbrev total : ℕ
    total = head_size + sum_length (before ++ parts)

    abbrev written : Bytes
    written = build_table num (before ++ parts)

    -- the bytes in front of the offsets of `parts`
    abbrev front : Bytes
    front = pack num total ++ pack_all num (offsets_from head_size before)

    length-front : length front ≡ 4 * (length before + 1)
    length-front = omega (
      arith,
      length-append (pack num total) (pack_all num (offsets_from head_size before)),
      length-pack num codec total,
      length-pack_all num codec (offsets_from head_size before),
      length-offsets_from head_size before,
    )

    offsets_split :
        written ≡ front ++ (pack_all num (offsets_from here parts) ++ concat (before ++ parts))
    unfolding build_table expected_parts
    offsets_split =
        let left = pack_all num (offsets_from head_size before) in
        let right = pack_all num (offsets_from here parts) in
        let body = concat (before ++ parts) in
        ap (λ l. pack num total ++ (pack_all num l ++ body))
          (offsets_from-append head_size before parts)
        ∙ ap (λ b. pack num total ++ (b ++ body))
            (pack_all-append (offsets_from head_size before) (offsets_from here parts))
        ∙ ap (λ b. pack num total ++ b) (append_assoc left right body)
        ∙ sym (append_assoc (pack num total) left (right ++ body))

    -- the bytes in front of `parts` themselves
    abbrev pub ahead : Bytes
    ahead =
        (pack num total ++ pack_all num (offsets_from head_size (before ++ parts))) ++ concat before

    pub length-ahead : length ahead ≡ here
    length-ahead =
        let all = offsets_from head_size (before ++ parts) in
        omega (
          arith,
          length-append (pack num total ++ pack_all num all) (concat before),
          length-append (pack num total) (pack_all num all),
          length-pack num codec total,
          length-pack_all num codec all,
          length-offsets_from head_size (before ++ parts),
          length-concat before,
        )

    pub parts_split : written ≡ ahead ++ concat parts
    unfolding build_table expected_parts
    parts_split =
        let all = pack_all num (offsets_from head_size (before ++ parts)) in
        ap (λ b. pack num total ++ (all ++ b)) (concat-append before parts)
        ∙ sym (append_assoc (pack num total) all (concat before ++ concat parts))
        ∙ sym (append_assoc (pack num total ++ all) (concat before) (concat parts))

  first_part-fits :
      (before : List Bytes) (x : Bytes) (after : List Bytes)
      → expected_parts (before ++ x ∷ after) < 2 ^ 32
      → here before (x ∷ after) + length x < 2 ^ 32
  unfolding expected_parts
  first_part-fits before x after fits = omega (arith, fits, sum_length-append before (x ∷ after))

  pub offset_at :
      (before : List Bytes) (x : Bytes) (after : List Bytes)
      → expected_parts (before ++ x ∷ after) < 2 ^ 32
      → Yields
          (number_at num (4 * (length before + 1)) (build_table num (before ++ x ∷ after)))
          (here before (x ∷ after))
  unfolding offsets_from pack_all
  offset_at before x after fits =
      let parts = x ∷ after in
      let rest = pack_all num (offsets_from (here before parts + length x) after) in
      let body = concat (before ++ parts) in
      number_at-part num codec _ (here before parts) (front before parts) (rest ++ body) _
        (offsets_split before parts
          ∙ ap (λ b. front before parts ++ b)
              (append_assoc (pack num (here before parts)) rest body))
        (length-front before parts) (omega (arith, first_part-fits before x after fits))

  pub offset_after :
      (before : List Bytes) (x y : Bytes) (after : List Bytes)
      → expected_parts (before ++ x ∷ y ∷ after) < 2 ^ 32
      → Yields
          (number_at num (4 * (length before + 1) + 4) (build_table num (before ++ x ∷ y ∷ after)))
          (here before (x ∷ y ∷ after) + length x)
  unfolding offsets_from pack_all
  offset_after before x y after fits =
      let parts = x ∷ y ∷ after in
      let start = here before parts in
      let next = start + length x in
      let rest = pack_all num (offsets_from (next + length y) after) in
      let body = concat (before ++ parts) in
      number_at-part num codec _ next (front before parts ++ pack num start) (rest ++ body) _
        (offsets_split before parts
          ∙ ap (λ b. front before parts ++ b)
              (append_assoc (pack num start) (pack num next ++ rest) body
                ∙ ap (λ b. pack num start ++ b) (append_assoc (pack num next) rest body))
          ∙ sym (
              append_assoc (front before parts) (pack num start) (pack num next ++ (rest ++ body))))
        (omega (
          arith,
          length-append (front before parts) (pack num start),
          length-front before parts,
          length-pack num codec start,
        ))
        (first_part-fits before x (y ∷ after) fits)

  -- A part that another one follows.
  pub field-built :
      (before : List Bytes) (x y : Bytes) (after : List Bytes)
      → expected_parts (before ++ x ∷ y ∷ after) < 2 ^ 32
      → Yields (field num (4 * (length before + 1)) (build_table num (before ++ x ∷ y ∷ after))) x
  unfolding field
  field-built before x y after fits =
      let parts = x ∷ y ∷ after in
      Yields-bind _ _ (here before parts) (offset_at before x (y ∷ after) fits) (
        Yields-bind _ _ (here before parts + length x) (offset_after before x y after fits) (
          slice_at-part _ _ (ahead before parts) x (concat (y ∷ after)) _ (parts_split before parts)
            (length-ahead before parts) refl))

  pub count-cons :
      (x : Bytes) (xs : List Bytes)
      → expected_parts (x ∷ xs) < 2 ^ 32
      → Yields (offset_count num (build_table num (x ∷ xs))) (length (x ∷ xs))
  unfolding offset_count build_table expected_parts offsets_from pack_all
  count-cons x xs fits =
      let head = 4 * (length (x ∷ xs) + 1) in
      let total = head + sum_length (x ∷ xs) in
      let rest = pack_all num (offsets_from (head + length x) xs) in
      let body = concat (x ∷ xs) in
      let counted : sub64 (head / 4) 1 ≡ length (x ∷ xs) = omega (arith, fits) in
      Yields-bind _ _ total (unpack-part num codec total _ _ refl fits) (
        Yields-else (total == 4) _ _ (ground arith) (
          Yields-bind _ _ head
            (number_at-part num codec 4 head (pack num total) (rest ++ body) _
              (ap (λ b. pack num total ++ b) (append_assoc (pack num head) rest body))
              (length-pack num codec total) (omega (arith, fits)))
            (rw counted (record { at = refl }))))

  pub count-built :
      (before : List Bytes) (x : Bytes) (after : List Bytes)
      → expected_parts (before ++ x ∷ after) < 2 ^ 32
      → Yields
          (offset_count num (build_table num (before ++ x ∷ after)))
          (length (before ++ x ∷ after))
  count-built [] x after fits = count-cons x after fits
  count-built (b ∷ before) x after fits = count-cons b (before ++ x ∷ after) fits

  pub last_slice :
      (before : List Bytes) (x : Bytes)
      → Yields (slice_from (here before (x ∷ [])) (build_table num (before ++ x ∷ []))) x
  last_slice before x =
      let parts = x ∷ [] in
      slice_from-part _ (ahead before parts) x _
        (parts_split before parts ∙ ap (λ b. ahead before parts ++ b) (append-nil x))
        (length-ahead before parts)

  -- The last part.
  pub last_field-built :
      (before : List Bytes) (x : Bytes)
      → expected_parts (before ++ x ∷ []) < 2 ^ 32
      → Yields
          (last_field num
            (length before + 1)
            (4 * (length before + 1))
            (build_table num (before ++ x ∷ [])))
          x
  unfolding last_field has_extra_fields
  last_field-built before x fits =
      let built = build_table num (before ++ x ∷ []) in
      let counted : length before + 1 ≡ length (before ++ x ∷ []) =
        omega (arith, length-append before (x ∷ [])) in
      Yields-bind _ _ (here before (x ∷ [])) (offset_at before x [] fits) (
        Yields-bind _ _ false
          (Yields-bind _ _ (length (before ++ x ∷ [])) (count-built before x [] fits)
            (record { at = ap fine (ground (arith, counted)) }))
          (last_slice before x))
