-- ===== src/Types/Piece.antt =====
-- `DataPieceId` of src/types.rs, and the data of a transaction that it names.
pub mod Codes
use ckb_vm_deterministic_sch.Prelude.{ℕ, ◌^◌, Option, none, some, ◌==◌, ltb, if◌then◌else◌}

pub data DataPieceId : Type 0 where
  program : DataPieceId
  input output cell_dep group_input group_output : ℕ → DataPieceId

-- `TryFrom<(u64, u64)>`; the text of the error is only logged.
unfoldable pub try_from : ℕ → ℕ → Option DataPieceId
try_from source index =
    if ltb index (2 ^ 32)
    then if source == 1
      then some (input index)
      else if source == 2
      then some (output index)
      else if source == 3
      then some (cell_dep index)
      else if source == 0x0100000000000001
      then some (group_input index)
      else if source == 0x0100000000000002
      then some (group_output index)
      else none
    else none
