-- ===== src/Bptree.antt =====
-- src/bptree.c and include/bptree.h: the index that maps ids to row offsets.
pub mod Node
pub mod Search
pub mod Insert
pub mod IdMap
pub mod Validate
pub mod Invariant
pub mod Sorted
pub mod Leaf
pub mod Outcome
pub mod Shape
pub mod Lookup
pub mod Content
pub mod Laws
pub mod Checks
pub mod Valid
pub mod HalfFull
pub mod Filled
pub mod Height
pub mod Examples
