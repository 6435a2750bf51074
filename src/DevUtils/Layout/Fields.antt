-- ===== src/DevUtils/Layout/Fields.antt =====
-- The generated accessors, for any schema, on bytes that may not have been checked.
use ckb_vm_deterministic_sch.Prelude.{
  ℕ, ◌+◌, ◌*◌, ◌/◌, Bool, not, Option, none, some, ◌==◌, leb, if◌then◌else◌, sub64,
}
use ckb_vm_deterministic_sch.Types.{Bytes}
use ckb_vm_deterministic_sch.DevUtils.Layout.{
  number_size, Numbers, Check, fine, ◌>>=◌, slice_from, slice_at, unpack, number_at,
}

-- an item of a vector of items of `item_size` bytes, and `get` of such a vector
unfoldable pub fixvec_item : ℕ → ℕ → Bytes → Check Bytes
fixvec_item item_size idx slice =
    slice_at (number_size + item_size * idx) (number_size + item_size * idx + item_size) slice

module _ (num : Numbers) where
  unfoldable pub fixvec_get : ℕ → ℕ → Bytes → Check (Option Bytes)
  fixvec_get item_size idx slice = unpack num slice >>= λ count.
      if leb count idx
      then fine none
      else fixvec_item item_size idx slice >>= λ item. fine (some item)

  -- `field_count` of a table and `item_count` of a vector of items of any size
  unfoldable pub offset_count : Bytes → Check ℕ
  offset_count slice = unpack num slice >>= λ total.
      if total == number_size
      then fine 0
      else number_at num number_size slice >>= λ first. fine (sub64 (first / 4) 1)

  unfoldable pub count_extra_fields : ℕ → Bytes → Check ℕ
  count_extra_fields field_count slice =
      offset_count slice >>= λ count. fine (sub64 count field_count)

  unfoldable pub has_extra_fields : ℕ → Bytes → Check Bool
  has_extra_fields field_count slice =
      offset_count slice >>= λ count. fine (not (field_count == count))

  -- A field whose offset stands at `at`, and that another one follows.
  unfoldable pub field : ℕ → Bytes → Check Bytes
  field at slice = number_at num at slice >>= λ start.
      number_at num (at + number_size) slice >>= λ end. slice_at start end slice

  -- The last field of a schema of `field_count` fields.
  unfoldable pub last_field : ℕ → ℕ → Bytes → Check Bytes
  last_field field_count at slice = number_at num at slice >>= λ start.
      has_extra_fields field_count slice >>= λ extra.
      if extra
      then (number_at num (at + number_size) slice >>= λ end. slice_at start end slice)
      else slice_from start slice

  unfoldable pub dynvec_item : ℕ → Bytes → Check Bytes
  dynvec_item idx slice = number_at num (number_size * (1 + idx)) slice >>= λ start.
      offset_count slice >>= λ count.
      if idx == sub64 count 1
      then slice_from start slice
      else number_at num (number_size * (1 + idx) + number_size) slice >>= λ end.
          slice_at start end slice

  unfoldable pub dynvec_get : ℕ → Bytes → Check (Option Bytes)
  dynvec_get idx slice = offset_count slice >>= λ count.
      if leb count idx then fine none else dynvec_item idx slice >>= λ item. fine (some item)
