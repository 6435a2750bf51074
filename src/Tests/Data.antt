-- ===== src/Tests/Data.antt =====
-- The data of a transaction, and the ids of pipes.
use ckb_vm_deterministic_sch.Prelude.{
  ℕ, ◌-◌, ◌<◌, ◌%◌, ◌≡◌, refl, true, [], ◌∷◌, ◌++◌, none, some, arith, length, take, drop, min,
}
use ckb_vm_deterministic_sch.Outcome.{ok}
use ckb_vm_deterministic_sch.Types.{Bytes}
use ckb_vm_deterministic_sch.Types.Pipe.{create, other_pipe, is_read, is_write}
use ckb_vm_deterministic_sch.Types.Pipe.Pairs.{create_lem, other_pipe-involution}
use ckb_vm_deterministic_sch.Types.Piece.{input, cell_dep, try_from}
use ckb_vm_deterministic_sch.Types.Piece.Codes.{Names, try_from_iff}
use ckb_vm_deterministic_sch.Types.TxData.{TxData, load_data, load_whole, window}
use ckb_vm_deterministic_sch.Types.TxData.Window.{load_data-window, start_of}

create_lem_example :
    (is_read (create 4).0 ≡ true)
    × (is_write (create 4).1 ≡ true)
    × (other_pipe (create 4).0 ≡ (create 4).1)
    × (other_pipe (create 4).1 ≡ (create 4).0)
    × ((create 4).2 % 2 ≡ 0)
    × ((create 4).0 < (create 4).2)
    × ((create 4).1 < (create 4).2)
create_lem_example = create_lem 4 refl (omega arith)

other_pipe-involution_example :
    (other_pipe (other_pipe 5) ≡ 5)
    × (is_read (other_pipe 5) ≡ is_write 5)
    × (is_write (other_pipe 5) ≡ is_read 5)
other_pipe-involution_example = other_pipe-involution 5

other_pipe_of_five : other_pipe 5 ≡ 4
unfolding other_pipe
other_pipe_of_five = refl

try_from_iff_example :
    (try_from 3 7 ≡ some (cell_dep 7) → Names 3 7 (cell_dep 7))
    × (Names 3 7 (cell_dep 7) → try_from 3 7 ≡ some (cell_dep 7))
try_from_iff_example = try_from_iff 3 7 (cell_dep 7)

try_from_too_large : try_from 3 4294967296 ≡ none
unfolding try_from
try_from_too_large = refl

abbrev five : Bytes
five = 10 ∷ 11 ∷ 12 ∷ 13 ∷ 14 ∷ []

-- One input, whose cell is its own data.
abbrev tx : TxData Bytes
tx = record {
  resolved_inputs = five ∷ [];
  resolved_cell_deps = [];
  outputs_data = [];
  input_indices = 0 ∷ [];
  output_indices = [];
  load_cell_data = λ cell. some cell;
  script = [];
}

load_data-window_example :
    (r : Bytes × ℕ) × (load_data tx (input 0) 1 2 ≡ ok r)
    × (r.1 ≡ length five - 1)
    × (take (start_of 1 five) five ++ (r.0 ++ drop (length r.0) (drop (start_of 1 five) five))
        ≡ five)
    × (◌≡◌ {A = ℕ} 2 0 → length r.0 ≡ r.1)
    × (0 < 2 → length r.0 ≡ min r.1 2)
unfolding load_whole
load_data-window_example = load_data-window tx (input 0) 1 2 five refl

load_data_test : load_data tx (input 0) 1 2 ≡ ok (11 ∷ 12 ∷ [], 4)
unfolding load_data load_whole window
load_data_test = refl
