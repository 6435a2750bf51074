-- ===== src/DevUtils/Graph.antt =====
-- `generate_data_graph` of src/dev_utils/mod.rs: a random tree of VMs, random writes between them, and
-- the pipes that the writes need, made at a common ancestor and passed down the tree.
pub mod Foreign
pub mod Draw
pub mod Tree
pub mod Plan
pub mod Owned
pub mod Above
pub mod Way
pub mod Ancestor
pub mod Down
pub mod Children
pub mod Starts
pub mod Visiting
pub mod Visits
pub mod Counts
pub mod Spawned
pub mod Found
pub mod Drawn
pub mod Made
pub mod Drafted
pub mod Planned
pub mod Listed
pub mod Whole
pub mod Written
pub mod Reads
pub mod Shown
