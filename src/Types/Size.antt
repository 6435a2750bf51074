-- ===== src/Types/Size.antt =====
-- `FullSuspendedState::size` of src/types.rs: an estimate of the bytes that a suspended state takes.
use ckb_vm_deterministic_sch.Prelude.{ℕ, ◌+◌, ◌*◌, ◌%◌, List, [], ◌∷◌, length, u64_mod}
use ckb_vm_deterministic_sch.Types.{VmState, FullSuspendedState}

-- What the compiler and ckb-vm decide: sizes of types, the number of registers, and the pages of a
-- snapshot.
pub record Layout (Snapshot : Type 0) : Type 0 where
  pub vm_state_size : ℕ
  pub data_piece_id_size : ℕ
  pub register_number : ℕ
  pub source_pages : Snapshot → ℕ
  pub dirty_page_lengths : Snapshot → List ℕ

module _ {Snapshot : Type 0} (layout : Layout Snapshot) where
  -- `for dirty_page in &snapshot.dirty_pages`
  dirty_size : List ℕ → ℕ
  dirty_size [] = 0
  dirty_size (len ∷ pages) = 8 + 1 + len + dirty_size pages

  -- the closure of the `fold`, without the accumulator
  vm_size : Snapshot → ℕ
  unfolding dirty_size
  vm_size snapshot =
      8
      + layout.vm_state_size
      + layout.source_pages snapshot * (8 + 1 + layout.data_piece_id_size + 8 + 8)
      + dirty_size (layout.dirty_page_lengths snapshot)
      + (4 + layout.register_number * 8 + 8 + 8 + 8)

  vms_size : List (ℕ × VmState × Snapshot) → ℕ
  unfolding vm_size
  vms_size [] = 0
  vms_size ((id, state, snapshot) ∷ vms) = vm_size snapshot + vms_size vms

  -- `usize` and `u64` are both of 64 bits
  unfoldable pub size : FullSuspendedState Snapshot → ℕ
  unfolding vms_size
  size full =
      (8
        + 8
        + 8
        + vms_size full.vms
        + length full.pipes * (8 + 8)
        + length full.terminated_vms * (8 + 1))
      % u64_mod
