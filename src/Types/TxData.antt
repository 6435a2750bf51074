-- ===== src/Types/TxData.antt =====
-- `TxData` of src/types.rs and its `load_data`: the data of the transaction that is verified.
pub mod Window
use ckb_vm_deterministic_sch.Prelude.{
  ℕ, ◌-◌, Option, none, some, List, get_elem?, length, take, drop, min, ltb, if◌then◌else◌,
}
use ckb_vm_deterministic_sch.Outcome.{
  Outcome, ok, err, panic, diverge, Error, external, unexpected, input_load_failed, dep_load_failed,
}
use ckb_vm_deterministic_sch.Types.{Bytes}
use ckb_vm_deterministic_sch.Types.Piece.{
  DataPieceId, program, input, output, cell_dep, group_input, group_output,
}

-- `rtx` and `script_group`, of which the code reads these parts, and `data_loader`, which is
-- foreign.
pub record TxData (Cell : Type 0) : Type 0 where
  pub resolved_inputs : List Cell
  pub resolved_cell_deps : List Cell
  pub outputs_data : List Bytes
  pub input_indices : List ℕ
  pub output_indices : List ℕ
  pub load_cell_data : Cell → Option Bytes
  pub script : Bytes

abbrev pub ok_or : {A : Type 0} → Error → Option A → Outcome A
ok_or x none = err x
ok_or x (some a) = ok a

abbrev pub and_then : {A B : Type 0} → Outcome A → (A → Outcome B) → Outcome B
and_then (ok a) f = f a
and_then (err x) f = err x
and_then panic f = panic
and_then diverge f = diverge

abbrev pub out_of_bound : Error
out_of_bound = external "INDEX_OUT_OF_BOUND"

-- The closure that `load_data` maps over the data.
unfoldable pub window : ℕ → ℕ → Bytes → Bytes × ℕ
window offset size bytes =
    let start = min offset (length bytes) in
    let full_length = length bytes - start in
    let slice_length = if ltb 0 size then min full_length size else full_length in
    (take slice_length (drop start bytes), full_length)

module _ {Cell : Type 0} (tx : TxData Cell) where
  unfoldable pub load_input : ℕ → Outcome Bytes
  load_input i =
      and_then (ok_or out_of_bound (get_elem? tx.resolved_inputs i))
        λ cell. ok_or (unexpected (input_load_failed i)) (tx.load_cell_data cell)

  unfoldable pub load_output : ℕ → Outcome Bytes
  load_output i = ok_or out_of_bound (get_elem? tx.outputs_data i)

  -- the `match` on the id
  unfoldable pub load_whole : DataPieceId → Outcome Bytes
  unfolding load_input load_output
  load_whole program = ok tx.script
  load_whole (input i) = load_input i
  load_whole (output i) = load_output i
  load_whole (cell_dep i) =
      and_then (ok_or out_of_bound (get_elem? tx.resolved_cell_deps i))
        λ cell. ok_or (unexpected (dep_load_failed i)) (tx.load_cell_data cell)
  load_whole (group_input i) =
      and_then (ok_or out_of_bound (get_elem? tx.input_indices i)) λ gi. load_input gi
  load_whole (group_output i) =
      and_then (ok_or out_of_bound (get_elem? tx.output_indices i)) λ gi. load_output gi

  unfoldable pub load_data : DataPieceId → ℕ → ℕ → Outcome (Bytes × ℕ)
  load_data id offset size = and_then (load_whole id) λ bytes. ok (window offset size bytes)
