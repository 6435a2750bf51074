-- ===== src/Types/Pipe.antt =====
-- `PipeId` of src/types.rs. A pipe has an even id at its read end and the next odd id at its write
-- end.
pub mod Pairs
use Prim.Native.Nat.{bit_xor-bitwise, digits}
use ckb_vm_deterministic_sch.Prelude.{
  ℕ, zero, suc, ◌+◌, ◌-◌, ◌*◌, ◌/◌, ◌%◌, ◌≡◌, ◌≢◌, refl, Bool, true, not, bit_xor, ◌==◌, add64,
  u64_mod, arith, ◌<◌, ◌≤◌, if◌then◌else◌,
}

abbrev pub first_pipe_slot : ℕ
first_pipe_slot = 2

unfoldable pub create : ℕ → ℕ × ℕ × ℕ
create slot = (slot, add64 slot 1, add64 slot 2)

unfoldable pub other_pipe : ℕ → ℕ
other_pipe pipe = bit_xor pipe 1

unfoldable pub is_read : ℕ → Bool
is_read pipe = pipe % 2 == 0

unfoldable pub is_write : ℕ → Bool
is_write pipe = pipe % 2 == 1
