-- ===== src/Access/Nbtree/Insert.antt =====
-- Insert of internal/access/nbtree/nbtree.go against the entries of the tree.
pub mod Solo
pub mod Pair
pub mod Split
pub mod Divide
pub mod Outcomes
pub mod Steps
pub mod LeafRuns
pub mod Leaf
pub mod Apart
pub mod Runs
pub mod Families
pub mod Inner
pub mod Into
pub mod RootNode
pub mod Grow
pub mod Over
pub mod Whole
pub mod Found
mod Tests
