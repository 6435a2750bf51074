-- ===== src/Types/Piece/Codes.antt =====
-- The numbers by which a guest names a piece of data.
use ckb_vm_deterministic_sch.Prelude.{ℕ, ◌^◌, ◌<◌, ◌≡◌, ◌↔◌, some, arith}
use ckb_vm_deterministic_sch.Types.Piece.{
  DataPieceId, program, input, output, cell_dep, group_input, group_output, try_from,
}

-- The pairs of source and index that stand for a piece; the program has none.
pub data Names : ℕ → ℕ → DataPieceId → Type 0 where
  input_name :
      {source index i : ℕ} → source ≡ 1 → index ≡ i → i < 2 ^ 32 → Names source index (input i)
  output_name :
      {source index i : ℕ} → source ≡ 2 → index ≡ i → i < 2 ^ 32 → Names source index (output i)
  cell_dep_name :
      {source index i : ℕ} → source ≡ 3 → index ≡ i → i < 2 ^ 32 → Names source index (cell_dep i)
  group_input_name :
      {source index i : ℕ}
      → source ≡ 0x0100000000000001
      → index ≡ i
      → i < 2 ^ 32
      → Names source index (group_input i)
  group_output_name :
      {source index i : ℕ}
      → source ≡ 0x0100000000000002
      → index ≡ i
      → i < 2 ^ 32
      → Names source index (group_output i)

try_from_complete :
    {source index : ℕ} {p : DataPieceId} → Names source index p → try_from source index ≡ some p
unfolding try_from
try_from_complete (input_name s i h) = ground arith
try_from_complete (output_name s i h) = ground arith
try_from_complete (cell_dep_name s i h) = ground arith
try_from_complete (group_input_name s i h) = ground arith
try_from_complete (group_output_name s i h) = ground arith

try_from_sound :
    (source index : ℕ) (p : DataPieceId) → try_from source index ≡ some p → Names source index p
unfolding try_from
try_from_sound source index program h = absurd (ground arith)
try_from_sound source index (input i) h = input_name (ground arith) (ground arith) (ground arith)
try_from_sound source index (output i) h = output_name (ground arith) (ground arith) (ground arith)
try_from_sound source index (cell_dep i) h =
    cell_dep_name (ground arith) (ground arith) (ground arith)
try_from_sound source index (group_input i) h =
    group_input_name (ground arith) (ground arith) (ground arith)
try_from_sound source index (group_output i) h =
    group_output_name (ground arith) (ground arith) (ground arith)

-- `try_from` accepts the named pairs, each for its piece, and no other pair.
pub try_from_iff :
    (source index : ℕ) (p : DataPieceId) → (try_from source index ≡ some p) ↔ Names source index p
try_from_iff source index p = (try_from_sound source index p, try_from_complete)
