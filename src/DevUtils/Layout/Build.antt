-- ===== src/DevUtils/Layout/Build.antt =====
-- The generated builders, for any schema: the bytes that they write, and the length that they expect.
use ckb_vm_deterministic_sch.Prelude.{
  ℕ, ◌+◌, ◌*◌, ◌%◌, ◌^◌, List, [], ◌∷◌, ◌++◌, ◌==◌, if◌then◌else◌, length,
}
use ckb_vm_deterministic_sch.Types.{Bytes}
use ckb_vm_deterministic_sch.DevUtils.Layout.{number_size, Numbers}

abbrev pub concat : List Bytes → Bytes
concat [] = []
concat (x ∷ xs) = x ++ concat xs

abbrev pub sum_length : List Bytes → ℕ
sum_length [] = 0
sum_length (x ∷ xs) = length x + sum_length xs

-- Where each part starts, the first one at `start`.
unfoldable pub offsets_from : ℕ → List Bytes → List ℕ
offsets_from start [] = []
offsets_from start (x ∷ xs) = start ∷ offsets_from (start + length x) xs

-- `expected_length` of a vector of items of a fixed size, and of parts behind a table of offsets
unfoldable pub expected_fixvec : ℕ → List Bytes → ℕ
expected_fixvec item_size items = number_size + item_size * length items

unfoldable pub expected_parts : List Bytes → ℕ
expected_parts parts = number_size * (length parts + 1) + sum_length parts

module _ (num : Numbers) where
  -- `pack_number(n as Number)`
  unfoldable pub pack : ℕ → Bytes
  pack n = num.pack_number (n % 2 ^ 32)

  unfoldable pub pack_all : List ℕ → Bytes
  pack_all [] = []
  pack_all (n ∷ l) = pack n ++ pack_all l

  unfoldable pub build_fixvec : List Bytes → Bytes
  build_fixvec items = pack (length items) ++ concat items

  unfoldable pub build_table : List Bytes → Bytes
  build_table parts =
      pack (expected_parts parts)
      ++ (pack_all (offsets_from (number_size * (length parts + 1)) parts) ++ concat parts)

  unfoldable pub build_dynvec : List Bytes → Bytes
  build_dynvec items = if length items == 0 then pack number_size else build_table items
