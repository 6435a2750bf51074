-- ===== src/DevUtils/Layout.antt =====
-- The checks and the accessors that molecule generates into src/dev_utils/dag.rs, for any schema: a
-- fixed-size array, a vector of items of a fixed size, a table of fields, and a vector of items of
-- any size.
pub mod Rules
pub mod Answers
pub mod Fields
pub mod Build
pub mod Written
pub mod Passes
pub mod Trips
pub mod Parts
pub mod Gets
use ckb_vm_deterministic_sch.Prelude.{
  map, ℕ, zero, suc, ◌+◌, ◌-◌, ◌*◌, ◌/◌, ◌%◌, ◌^◌, Bool, true, false, not, ◌&&◌, ◌||◌, Option, none,
  some, List, [], ◌∷◌, ◌++◌, ◌==◌, ltb, leb, if◌then◌else◌, length, take, drop,
}
use ckb_vm_deterministic_sch.Types.{Bytes}

-- `molecule::NUMBER_SIZE`, which the accessors also write as 4.
abbrev pub number_size : ℕ
number_size = 4

-- `molecule::pack_number` and `molecule::unpack_number`, which are foreign.
pub record Numbers : Type 0 where
  pub pack_number : ℕ → Bytes
  pub unpack_number : Bytes → ℕ

-- The kinds of `molecule::error::VerificationError` that the checks return.
pub data Broken : Type 0 where
  header_is_broken total_size_not_match field_count_not_match : ℕ → ℕ → Broken
  offsets_not_match : Broken

-- A value, a refusal of the slice, or an index that is out of range, which panics.
pub data Check (A : Type 0) : Type 0 where
  fine : A → Check A
  refuse : Broken → Check A
  crash : Check A

infixl 5 ◌>>=◌
abbrev pub ◌>>=◌ : {A B : Type 0} → Check A → (A → Check B) → Check B
fine a >>= f = f a
refuse x >>= f = refuse x
crash >>= f = crash

-- `&slice[start..]`
unfoldable pub slice_from : ℕ → Bytes → Check Bytes
slice_from start slice = if leb start (length slice) then fine (drop start slice) else crash

-- `&slice[start..end]`
unfoldable pub slice_at : ℕ → ℕ → Bytes → Check Bytes
slice_at start end slice =
    if leb start end
    then if leb end (length slice) then fine (take (end - start) (drop start slice)) else crash
    else crash

-- `slice.chunks_exact(NUMBER_SIZE)`, each chunk unpacked
unfoldable pub unpack_chunks : Numbers → ℕ → Bytes → List ℕ
unpack_chunks num zero bytes = []
unpack_chunks num (suc n) bytes =
    num.unpack_number (take number_size bytes) ∷ unpack_chunks num n (drop number_size bytes)

-- `!offsets.windows(2).any(|i| i[0] > i[1])`
unfoldable pub is_ascending : List ℕ → Bool
is_ascending [] = true
is_ascending (a ∷ []) = true
is_ascending (a ∷ b ∷ l) = leb a b && is_ascending (b ∷ l)

-- the check of an array: `TOTAL_SIZE` bytes
unfoldable pub verify_array : ℕ → Bytes → Check (Unit {0})
verify_array size slice =
    if length slice == size then fine tt else refuse (total_size_not_match size (length slice))

-- A check for each field, from one offset to the next.
unfoldable pub verify_fields : List (Bytes → Check (Unit {0})) → List ℕ → Bytes → Check (Unit {0})
verify_fields [] offsets slice = fine tt
verify_fields (f ∷ fs) (a ∷ b ∷ offsets) slice =
    slice_at a b slice >>= λ field. f field >>= λ _. verify_fields fs (b ∷ offsets) slice
verify_fields (f ∷ fs) _ slice = crash

-- One check for every item, `offsets.windows(2)`.
unfoldable pub verify_items : (Bytes → Check (Unit {0})) → List ℕ → Bytes → Check (Unit {0})
verify_items f (a ∷ b ∷ offsets) slice =
    slice_at a b slice >>= λ item. f item >>= λ _. verify_items f (b ∷ offsets) slice
verify_items f _ slice = fine tt

-- the two checks of the number of fields
unfoldable pub verify_count : ℕ → Bool → ℕ → Check (Unit {0})
verify_count expected compatible field_count =
    if ltb field_count expected
    then refuse (field_count_not_match expected field_count)
    else if not compatible && ltb expected field_count
    then refuse (field_count_not_match expected field_count)
    else fine tt

module _ (num : Numbers) where
  -- An unpack of fewer bytes than a number has is taken to panic.
  unfoldable pub unpack : Bytes → Check ℕ
  unpack slice = if ltb (length slice) number_size then crash else fine (num.unpack_number slice)

  -- `molecule::unpack_number(&slice[start..])`
  unfoldable pub number_at : ℕ → Bytes → Check ℕ
  number_at start slice = slice_from start slice >>= unpack

  -- the check of a vector of items of `item_size` bytes
  unfoldable pub verify_fixvec : ℕ → Bytes → Check (Unit {0})
  verify_fixvec item_size slice =
      if ltb (length slice) number_size
      then refuse (header_is_broken number_size (length slice))
      else unpack slice >>= λ item_count.
          if item_count == 0
          then if length slice == number_size
            then fine tt
            else refuse (total_size_not_match number_size (length slice))
          else if length slice == number_size + item_size * item_count
          then fine tt
          else refuse (total_size_not_match (number_size + item_size * item_count) (length slice))

  -- `offset_first`, with its three checks
  unfoldable pub first_offset : Bytes → Check ℕ
  first_offset slice = number_at number_size slice >>= λ first.
      if not (first % number_size == 0) || ltb first (number_size * 2)
      then refuse offsets_not_match
      else if ltb (length slice) first
      then refuse (header_is_broken first (length slice))
      else fine first

  -- `offsets`, with the total size at the end, in ascending order
  unfoldable pub read_offsets : ℕ → ℕ → Bytes → Check (List ℕ)
  read_offsets first total slice = slice_at number_size first slice >>= λ header.
      let offsets = unpack_chunks num (length header / number_size) header ++ total ∷ [] in
      if is_ascending offsets then fine offsets else refuse offsets_not_match

  -- The fields' checks take `compatible` themselves.
  unfoldable pub verify_table :
      List (Bool → Bytes → Check (Unit {0})) → Bool → Bytes → Check (Unit {0})
  verify_table fields compatible slice =
      if ltb (length slice) number_size
      then refuse (header_is_broken number_size (length slice))
      else unpack slice >>= λ total.
          if not (length slice == total)
          then refuse (total_size_not_match total (length slice))
          else if ltb (length slice) (number_size * 2)
          then refuse (header_is_broken (number_size * 2) (length slice))
          else first_offset slice >>= λ first.
              verify_count (length fields) compatible (first / number_size - 1) >>= λ _.
              read_offsets first total slice >>= λ offsets.
              verify_fields (map (λ f. f compatible) fields) offsets slice

  unfoldable pub verify_dynvec : (Bool → Bytes → Check (Unit {0})) → Bool → Bytes → Check (Unit {0})
  verify_dynvec item compatible slice =
      if ltb (length slice) number_size
      then refuse (header_is_broken number_size (length slice))
      else unpack slice >>= λ total.
          if not (length slice == total)
          then refuse (total_size_not_match total (length slice))
          else if length slice == number_size
          then fine tt
          else if ltb (length slice) (number_size * 2)
          then refuse (total_size_not_match (number_size * 2) (length slice))
          else first_offset slice >>= λ first. read_offsets first total slice >>= λ offsets.
              verify_items (item compatible) offsets slice
