-- ===== src/DevUtils/Dag.antt =====
-- The types of src/dev_utils/dag.rs, which test-contracts/dag.mol declares: for each its check, its
-- accessors and its builder.
pub mod Safe
pub mod Trips
pub mod Iterate
use ckb_vm_deterministic_sch.Prelude.{ℕ, ◌+◌, Bool, Option, List, [], ◌∷◌}
use ckb_vm_deterministic_sch.Types.{Bytes}
use ckb_vm_deterministic_sch.DevUtils.Layout.{
  number_size, Numbers, Check, slice_from, verify_array, verify_fixvec, verify_table, verify_dynvec,
}
use ckb_vm_deterministic_sch.DevUtils.Layout.Fields.{
  fixvec_get, field, last_field, dynvec_get, offset_count, has_extra_fields, count_extra_fields,
}
use ckb_vm_deterministic_sch.DevUtils.Layout.Build.{
  concat, build_fixvec, build_table, build_dynvec, expected_fixvec, expected_parts,
}

-- the bytes that a builder of an array holds, in their order
unfoldable pub build_vm_index : List Bytes → Bytes
build_vm_index bytes = concat bytes

unfoldable pub build_pipe_index : List Bytes → Bytes
build_pipe_index bytes = concat bytes

pub record PipeBuilder : Type 0 where
  pub vm : Bytes
  pub read_pipe : Bytes
  pub write_pipe : Bytes

pub record WriteBuilder : Type 0 where
  pub from : Bytes
  pub from_pipe : Bytes
  pub to : Bytes
  pub to_pipe : Bytes
  pub data_bytes : Bytes

pub record SpawnBuilder : Type 0 where
  pub from : Bytes
  pub child : Bytes
  pub pipes : Bytes

pub record DataBuilder : Type 0 where
  pub spawns : Bytes
  pub pipes : Bytes
  pub writes : Bytes

unfoldable pub verify_vm_index : Bool → Bytes → Check (Unit {0})
verify_vm_index _ slice = verify_array 8 slice

unfoldable pub verify_pipe_index : Bool → Bytes → Check (Unit {0})
verify_pipe_index _ slice = verify_array 8 slice

abbrev pub pipe_parts : PipeBuilder → List Bytes
pipe_parts b = b.vm ∷ b.read_pipe ∷ b.write_pipe ∷ []

unfoldable pub expected_pipe : PipeBuilder → ℕ
expected_pipe b = expected_parts (pipe_parts b)

abbrev pub write_parts : WriteBuilder → List Bytes
write_parts b = b.from ∷ b.from_pipe ∷ b.to ∷ b.to_pipe ∷ b.data_bytes ∷ []

unfoldable pub expected_write : WriteBuilder → ℕ
expected_write b = expected_parts (write_parts b)

abbrev pub spawn_parts : SpawnBuilder → List Bytes
spawn_parts b = b.from ∷ b.child ∷ b.pipes ∷ []

unfoldable pub expected_spawn : SpawnBuilder → ℕ
expected_spawn b = expected_parts (spawn_parts b)

abbrev pub data_parts : DataBuilder → List Bytes
data_parts b = b.spawns ∷ b.pipes ∷ b.writes ∷ []

unfoldable pub expected_data : DataBuilder → ℕ
expected_data b = expected_parts (data_parts b)

module _ (num : Numbers) where
  unfoldable pub verify_pipe_indices : Bool → Bytes → Check (Unit {0})
  verify_pipe_indices _ slice = verify_fixvec num 8 slice

  unfoldable pub verify_bytes : Bool → Bytes → Check (Unit {0})
  verify_bytes _ slice = verify_fixvec num 1 slice

  unfoldable pub verify_pipe : Bool → Bytes → Check (Unit {0})
  verify_pipe = verify_table num (verify_vm_index ∷ verify_pipe_index ∷ verify_pipe_index ∷ [])

  unfoldable pub verify_pipes : Bool → Bytes → Check (Unit {0})
  verify_pipes = verify_dynvec num verify_pipe

  unfoldable pub verify_write : Bool → Bytes → Check (Unit {0})
  verify_write = verify_table num (
      verify_vm_index ∷ verify_pipe_index ∷ verify_vm_index ∷ verify_pipe_index ∷ verify_bytes ∷ [])

  unfoldable pub verify_writes : Bool → Bytes → Check (Unit {0})
  verify_writes = verify_dynvec num verify_write

  unfoldable pub verify_spawn : Bool → Bytes → Check (Unit {0})
  verify_spawn = verify_table num (verify_vm_index ∷ verify_vm_index ∷ verify_pipe_indices ∷ [])

  unfoldable pub verify_spawns : Bool → Bytes → Check (Unit {0})
  verify_spawns = verify_dynvec num verify_spawn

  unfoldable pub verify_data : Bool → Bytes → Check (Unit {0})
  verify_data = verify_table num (verify_spawns ∷ verify_pipes ∷ verify_writes ∷ [])

  unfoldable pub pipe_indices_get : ℕ → Bytes → Check (Option Bytes)
  pipe_indices_get = fixvec_get num 8

  unfoldable pub bytes_get : ℕ → Bytes → Check (Option Bytes)
  bytes_get = fixvec_get num 1

  unfoldable pub bytes_raw_data : Bytes → Check Bytes
  bytes_raw_data = slice_from number_size

  unfoldable pub pipe_extra_fields : Bytes → Check ℕ
  pipe_extra_fields = count_extra_fields num 3

  unfoldable pub vm_of_pipe : Bytes → Check Bytes
  vm_of_pipe = field num 4

  unfoldable pub read_pipe_of_pipe : Bytes → Check Bytes
  read_pipe_of_pipe = field num 8

  unfoldable pub write_pipe_of_pipe : Bytes → Check Bytes
  write_pipe_of_pipe = last_field num 3 12

  unfoldable pub write_extra_fields : Bytes → Check ℕ
  write_extra_fields = count_extra_fields num 5

  unfoldable pub from_of_write : Bytes → Check Bytes
  from_of_write = field num 4

  unfoldable pub from_pipe_of_write : Bytes → Check Bytes
  from_pipe_of_write = field num 8

  unfoldable pub to_of_write : Bytes → Check Bytes
  to_of_write = field num 12

  unfoldable pub to_pipe_of_write : Bytes → Check Bytes
  to_pipe_of_write = field num 16

  unfoldable pub data_of_write : Bytes → Check Bytes
  data_of_write = last_field num 5 20

  unfoldable pub spawn_extra_fields : Bytes → Check ℕ
  spawn_extra_fields = count_extra_fields num 3

  unfoldable pub from_of_spawn : Bytes → Check Bytes
  from_of_spawn = field num 4

  unfoldable pub child_of_spawn : Bytes → Check Bytes
  child_of_spawn = field num 8

  unfoldable pub pipes_of_spawn : Bytes → Check Bytes
  pipes_of_spawn = last_field num 3 12

  unfoldable pub data_extra_fields : Bytes → Check ℕ
  data_extra_fields = count_extra_fields num 3

  unfoldable pub spawns_of_data : Bytes → Check Bytes
  spawns_of_data = field num 4

  unfoldable pub pipes_of_data : Bytes → Check Bytes
  pipes_of_data = field num 8

  unfoldable pub writes_of_data : Bytes → Check Bytes
  writes_of_data = last_field num 3 12

  unfoldable pub pipes_get : ℕ → Bytes → Check (Option Bytes)
  pipes_get = dynvec_get num

  unfoldable pub writes_get : ℕ → Bytes → Check (Option Bytes)
  writes_get = dynvec_get num

  unfoldable pub spawns_get : ℕ → Bytes → Check (Option Bytes)
  spawns_get = dynvec_get num

  unfoldable pub build_pipe_indices : List Bytes → Bytes
  build_pipe_indices = build_fixvec num

  unfoldable pub build_bytes : List Bytes → Bytes
  build_bytes = build_fixvec num

  unfoldable pub build_pipe : PipeBuilder → Bytes
  build_pipe b = build_table num (pipe_parts b)

  unfoldable pub build_write : WriteBuilder → Bytes
  build_write b = build_table num (write_parts b)

  unfoldable pub build_spawn : SpawnBuilder → Bytes
  build_spawn b = build_table num (spawn_parts b)

  unfoldable pub build_data : DataBuilder → Bytes
  build_data b = build_table num (data_parts b)

  unfoldable pub build_pipes : List Bytes → Bytes
  build_pipes = build_dynvec num

  unfoldable pub build_writes : List Bytes → Bytes
  build_writes = build_dynvec num

  unfoldable pub build_spawns : List Bytes → Bytes
  build_spawns = build_dynvec num
