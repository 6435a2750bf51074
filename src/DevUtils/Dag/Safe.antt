-- ===== src/DevUtils/Dag/Safe.antt =====
-- The checks of the types index nothing out of range.
use ckb_vm_deterministic_sch.Prelude.{Bool}
use ckb_vm_deterministic_sch.Types.{Bytes}
use ckb_vm_deterministic_sch.DevUtils.Layout.{Numbers}
use ckb_vm_deterministic_sch.DevUtils.Layout.Answers.{
  verify_table-Answers, verify_dynvec-Answers, verify_fixvec-Answers, verify_array-Answers,
}
use ckb_vm_deterministic_sch.DevUtils.Layout.Rules.{Answers, Any, IsSafe}
use ckb_vm_deterministic_sch.DevUtils.Dag.{
  verify_vm_index, verify_pipe_index, verify_pipe_indices, verify_bytes, verify_pipe, verify_pipes,
  verify_write, verify_writes, verify_spawn, verify_spawns, verify_data,
}

vm_index-IsSafe : IsSafe verify_vm_index
unfolding verify_vm_index
vm_index-IsSafe _ slice = verify_array-Answers 8 slice

pipe_index-IsSafe : IsSafe verify_pipe_index
unfolding verify_pipe_index
pipe_index-IsSafe _ slice = verify_array-Answers 8 slice

module _ (num : Numbers) where
  pipe_indices-IsSafe : IsSafe (verify_pipe_indices num)
  unfolding verify_pipe_indices
  pipe_indices-IsSafe _ slice = verify_fixvec-Answers num 8 slice

  bytes-IsSafe : IsSafe (verify_bytes num)
  unfolding verify_bytes
  bytes-IsSafe _ slice = verify_fixvec-Answers num 1 slice

  pipe-IsSafe : IsSafe (verify_pipe num)
  unfolding verify_pipe
  pipe-IsSafe c slice =
      verify_table-Answers num _ c slice
        (vm_index-IsSafe, (pipe_index-IsSafe, (pipe_index-IsSafe, tt)))

  pipes-IsSafe : IsSafe (verify_pipes num)
  unfolding verify_pipes
  pipes-IsSafe c slice = verify_dynvec-Answers num _ c slice pipe-IsSafe

  write-IsSafe : IsSafe (verify_write num)
  unfolding verify_write
  write-IsSafe c slice = verify_table-Answers num _ c slice (
    vm_index-IsSafe,
    (pipe_index-IsSafe, (vm_index-IsSafe, (pipe_index-IsSafe, (bytes-IsSafe, tt)))),
  )

  writes-IsSafe : IsSafe (verify_writes num)
  unfolding verify_writes
  writes-IsSafe c slice = verify_dynvec-Answers num _ c slice write-IsSafe

  spawn-IsSafe : IsSafe (verify_spawn num)
  unfolding verify_spawn
  spawn-IsSafe c slice =
      verify_table-Answers num _ c slice
        (vm_index-IsSafe, (vm_index-IsSafe, (pipe_indices-IsSafe, tt)))

  spawns-IsSafe : IsSafe (verify_spawns num)
  unfolding verify_spawns
  spawns-IsSafe c slice = verify_dynvec-Answers num _ c slice spawn-IsSafe

  -- The check of a graph accepts or refuses any bytes, in either mode, and never indexes out of range,
  -- whatever numbers the bytes hold.
  pub verify_data-Answers :
      (compatible : Bool) (slice : Bytes) → Answers Any (verify_data num compatible slice)
  unfolding verify_data
  verify_data-Answers c slice =
      verify_table-Answers num _ c slice (spawns-IsSafe, (pipes-IsSafe, (writes-IsSafe, tt)))
