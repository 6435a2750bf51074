-- ===== src/Tests.antt =====
-- The theorems at concrete inputs, over a small machine in place of ckb-vm.
mod Toy
mod Data
mod Calls
mod Scheduling
mod Steps
mod Rounds
mod Dag
mod Crates
mod Graph
mod Written
mod Verify
