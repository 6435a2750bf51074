-- ===== src/DevUtils/Graph/Owned.antt =====
-- What a plan of `generate_data_graph` is for: the VMs of the tree start in its order, and each write
-- has a pipe of its own, both ends of which reach the VMs that use them.
use ckb_vm_deterministic_sch.Prelude.{
  ◌≢◌, ◌≡◌, ◌≤◌, ◌⊎◌, ℕ, suc, true, false, List, [], ◌∷◌, length, mem, Among,
}
use ckb_vm_deterministic_sch.Prelude.Distinct.{IsDistinct}
use ckb_vm_deterministic_sch.DevUtils.Graph.Plan.{Plan, SpawnOp, PipeOp, WriteOp}

-- Two different VMs, of those up to `n`.
pub record AreEnds (n a b : ℕ) : Type 0 where
  pub differ : a ≢ b
  pub writer_in : a ≤ n
  pub reader_in : b ≤ n

-- A VM has a pipe that it makes, and one that it receives from a VM that has it.
pub data Owns (plan : Plan) (pipe : ℕ) : ℕ → Type 0 where
  makes :
      {vm : ℕ} (o : PipeOp)
      → Among o plan.pipes
      → o.vm ≡ vm
      → (o.read_pipe ≡ pipe) ⊎ (o.write_pipe ≡ pipe)
      → Owns plan pipe vm
  receives :
      {vm : ℕ} (s : SpawnOp)
      → Among s plan.spawns
      → s.child ≡ vm
      → mem pipe s.pipes ≡ true
      → Owns plan pipe s.from
      → Owns plan pipe vm

-- Spawns in an order in which each is made by a VM that runs, of one that does not run yet.
abbrev pub Boots : List ℕ → List SpawnOp → Type 0
Boots started [] = Unit
Boots started (s ∷ spawns) =
    (mem s.from started ≡ true) × (mem s.child started ≡ false) × Boots (s.child ∷ started) spawns

-- Each VM but the root is spawned, and by a VM that runs by then.
pub record IsBootable (vms : ℕ) (plan : Plan) : Type 0 where
  pub boots : Boots (0 ∷ []) plan.spawns
  pub count : length plan.spawns ≡ vms
  pub all : (n : ℕ) → suc n ≤ vms → (s : SpawnOp) × Among s plan.spawns × (s.child ≡ suc n)

-- Each write is between two different VMs of the tree and has its data; both its ends have their end of a pipe, which one VM makes for it, and whoever passes a pipe on
-- has it.
pub record IsServed (vms : ℕ) (plan : Plan) : Type 0 where
  pub ends : (w : WriteOp) → Among w plan.writes → AreEnds vms w.from w.to
  pub contents :
      (w : WriteOp) → Among w plan.writes → (1 ≤ length w.content) × (length w.content ≤ 1024)
  pub writers : (w : WriteOp) → Among w plan.writes → Owns plan w.from_pipe w.from
  pub readers : (w : WriteOp) → Among w plan.writes → Owns plan w.to_pipe w.to
  pub pairs :
      (w : WriteOp)
      → Among w plan.writes
      → (o : PipeOp) × Among o plan.pipes × (o.read_pipe ≡ w.to_pipe) × (o.write_pipe ≡ w.from_pipe)
  pub passers :
      (s : SpawnOp) (pipe : ℕ)
      → Among s plan.spawns
      → mem pipe s.pipes ≡ true
      → Owns plan pipe s.from

abbrev pub pipe_ids : List WriteOp → List ℕ
pipe_ids [] = []
pipe_ids (w ∷ writes) = w.to_pipe ∷ w.from_pipe ∷ pipe_ids writes

-- No two writes share a pipe, and no pipe is made for nothing.
pub record IsExclusive (plan : Plan) : Type 0 where
  pub distinct : IsDistinct (pipe_ids plan.writes)
  pub count : length plan.pipes ≡ length plan.writes
