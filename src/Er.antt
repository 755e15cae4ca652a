-- ===== src/Er.antt =====
-- The entity-resolution pipeline, er/*.py.
pub mod Models
pub mod Normalize
pub mod Adjudicate
pub mod Connections
pub mod Crosslinks
pub mod Rules
pub mod Splink
pub mod Survivorship
pub mod Allocator
pub mod Graph
pub mod Cluster
pub mod Pipeline
pub mod Quality
pub mod Unmerge
mod Tests
