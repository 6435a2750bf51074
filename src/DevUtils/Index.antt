-- ===== src/DevUtils/Index.antt =====
-- The numbers of VMs and pipes as eight bytes: `build_vm_index` and `build_pipe_index` of
-- src/dev_utils/mod.rs, and the way back in examples/dag_generator.rs.
use ckb_vm_deterministic_sch.Prelude.{
  ap, ℕ, zero, suc, ◌+◌, ◌*◌, ◌/◌, ◌%◌, ◌^◌, ◌<◌, ◌≡◌, refl, Bool, [], ◌∷◌, ◌==◌, if◌then◌else◌,
  length, map, arith,
}
use ckb_vm_deterministic_sch.Types.{Bytes}
use ckb_vm_deterministic_sch.DevUtils.Layout.{Check, fine, crash, verify_array}
use ckb_vm_deterministic_sch.DevUtils.Layout.Written.{Yields}
use ckb_vm_deterministic_sch.DevUtils.Dag.{
  verify_vm_index, verify_pipe_index, build_vm_index as write_vm_index,
  build_pipe_index as write_pipe_index,
}

-- `to_le_bytes` of so many bytes, and `from_le_bytes`
abbrev pub to_le_bytes : ℕ → ℕ → Bytes
to_le_bytes zero v = []
to_le_bytes (suc n) v = v % 256 ∷ to_le_bytes n (v / 256)

abbrev pub from_le_bytes : Bytes → ℕ
from_le_bytes [] = 0
from_le_bytes (b ∷ bytes) = b + 256 * from_le_bytes bytes

-- `Byte::new`
abbrev byte : ℕ → Bytes
byte b = b ∷ []

unfoldable pub build_vm_index : ℕ → Bytes
build_vm_index val = write_vm_index (map byte (to_le_bytes 8 val))

unfoldable pub build_pipe_index : ℕ → Bytes
build_pipe_index val = write_pipe_index (map byte (to_le_bytes 8 val))

-- `copy_from_slice` panics unless there are eight bytes.
unfoldable pub vm_index_to_u64 : Bytes → Check ℕ
vm_index_to_u64 index = if length index == 8 then fine (from_le_bytes index) else crash

unfoldable pub pipe_index_to_u64 : Bytes → Check ℕ
pipe_index_to_u64 index = if length index == 8 then fine (from_le_bytes index) else crash

pub length-build_vm_index :
    (val : ℕ) → (length (build_vm_index val) ≡ 8) × (length (build_pipe_index val) ≡ 8)
unfolding build_vm_index build_pipe_index write_vm_index write_pipe_index
length-build_vm_index val = (refl, refl)

-- The index of a number is one of eight bytes, which passes the check of its type, and the number comes
-- back from it; so for VMs and for pipes.
pub build_vm_index-to_u64 :
    (val : ℕ) (compatible : Bool)
    → val < 2 ^ 64
    → Yields (verify_vm_index compatible (build_vm_index val)) tt
      × Yields (vm_index_to_u64 (build_vm_index val)) val
      × Yields (verify_pipe_index compatible (build_pipe_index val)) tt
      × Yields (pipe_index_to_u64 (build_pipe_index val)) val
unfolding verify_vm_index verify_pipe_index verify_array build_vm_index build_pipe_index
    vm_index_to_u64 pipe_index_to_u64 write_vm_index write_pipe_index
build_vm_index-to_u64 val c h =
    let back : from_le_bytes (to_le_bytes 8 val) ≡ val = omega (arith, h) in
    (
      record { at = refl },
      record { at = ap fine back },
      record { at = refl },
      record { at = ap fine back },
    )
